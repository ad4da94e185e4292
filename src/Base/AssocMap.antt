-- ===== src/Base/AssocMap.antt =====
-- A Go map from unsigned integers, as an association list in which a write puts a key in front and
-- drops the entries that it hides.
use Prim.Native.Nat.{ℕ, suc, ◌+◌, ◌≤◌, ◌<◌}
use mathlib.Core.Path.{◌≡◌}
use mathlib.Core.Option.{Option, none, some}
use mathlib.Core.List.{List, [], ◌∷◌}
use native.Mathlib.Omega.{arith}
use seestar_remote.Base.Tests.{◌==◌, if◌then◌else◌, ltb}
use seestar_remote.Base.Lists.{length}

module _ {ℓ} {V : Type ℓ} where
  unfoldable pub lookup : ℕ → List (ℕ × V) → Option V
  lookup key [] = none
  lookup key ((k, v) ∷ rest) = if k == key then some v else lookup key rest

  unfoldable pub delete : ℕ → List (ℕ × V) → List (ℕ × V)
  delete k [] = []
  delete k ((j, v) ∷ m) = let rest = delete k m in if j == k then rest else (j, v) ∷ rest

  unfoldable pub insert : ℕ → V → List (ℕ × V) → List (ℕ × V)
  insert k v m = (k, v) ∷ delete k m

  pub lookup-delete :
      (k j : ℕ) (m : List (ℕ × V)) → lookup j (delete k m) ≡ (if k == j then none else lookup j m)
  unfolding lookup delete
  lookup-delete k j [] = ground arith
  lookup-delete k j ((i, v) ∷ m) = ground (arith, lookup-delete k j m)

  pub lookup-insert :
      (k j : ℕ) (v : V) (m : List (ℕ × V))
      → lookup j (insert k v m) ≡ (if k == j then some v else lookup j m)
  unfolding lookup insert
  lookup-insert k j v m = ground (arith, lookup-delete k j m)

  pub lookup-insert_self : (k : ℕ) (v : V) (m : List (ℕ × V)) → lookup k (insert k v m) ≡ some v
  lookup-insert_self k v m = ground (arith, lookup-insert k k v m)

  pub lookup-delete_self : (k : ℕ) (m : List (ℕ × V)) → lookup k (delete k m) ≡ none
  lookup-delete_self k m = ground (arith, lookup-delete k k m)

  -- How many entries lie above a key: the measure of a loop that walks up through present keys.
  pub count_above : ℕ → List (ℕ × V) → ℕ
  count_above k [] = 0
  count_above k ((j, v) ∷ m) = if ltb k j then suc (count_above k m) else count_above k m

  pub count_above-le : (k : ℕ) (m : List (ℕ × V)) → count_above k m ≤ length m
  unfolding count_above
  count_above-le k [] = omega arith
  count_above-le k ((j, v) ∷ m) = ground (arith, count_above-le k m)

  pub count_above_anti : (k : ℕ) (m : List (ℕ × V)) → count_above (suc k) m ≤ count_above k m
  unfolding count_above
  count_above_anti k [] = omega arith
  count_above_anti k ((j, v) ∷ m) = ground (arith, count_above_anti k m)

  pub count_above-suc :
      (k : ℕ) (v : V) (m : List (ℕ × V))
      → lookup (suc k) m ≡ some v
      → count_above (suc k) m < count_above k m
  unfolding count_above lookup
  count_above-suc k v [] h = cc
  count_above-suc k v ((j, w) ∷ m) h = ground (arith, count_above-suc k v m, count_above_anti k m)

  pub count_above_step :
      (k : ℕ) (v : V) (m : List (ℕ × V))
      → lookup (k + 1) m ≡ some v
      → count_above (k + 1) m < count_above k m
  count_above_step k v m h =
      let e : k + 1 ≡ suc k = omega arith in rw e (count_above-suc k v m (rw e at h))

  -- Deleting a present key takes an entry away.
  pub length-delete :
      (k : ℕ) (v : V) (m : List (ℕ × V)) → lookup k m ≡ some v → length (delete k m) < length m
  unfolding lookup delete
  length-delete k v [] h = cc
  length-delete k v ((j, w) ∷ m) h = ground (arith, length-delete k v m, length-delete_le k m)
    where
      length-delete_le : (k : ℕ) (m : List (ℕ × V)) → length (delete k m) ≤ length m
      length-delete_le k [] = omega arith
      length-delete_le k ((j, w) ∷ m) = ground (arith, length-delete_le k m)
