-- ===== src/Base/Scan.antt =====
-- The shape that the packet parsers share: a loop whose body, at the bytes not yet consumed, stops
-- or yields some items and goes on behind the bytes that it has used.
use Prim.Native.Nat.{ℕ, zero, suc, ◌+◌, ◌-◌, ◌≤◌, ◌<◌}
use mathlib.Core.Path.{◌≡◌, refl, sym, ap, ◌∙◌}
use mathlib.Core.Logic.{inl, inr}
use mathlib.Core.Option.{Option, none, some}
use mathlib.Core.List.{List, [], ◌++◌, append_assoc}
use native.Mathlib.Omega.{arith}
use seestar_remote.Base.Tests.{Option-cases}
use seestar_remote.Base.Lists.{length, drop, drop-drop, drop_back}

abbrev pub Body {ℓ} : Type ℓ → Type ℓ
Body A = List ℕ → Option (List A × List ℕ)

-- Go's `for` loop on fuel: the items so far, and the bytes that are left.
unfoldable pub scan_loop {ℓ} : {A : Type ℓ} → Body A → ℕ → List ℕ → List A × List ℕ
scan_loop body zero bs = ([], bs)
scan_loop body (suc fuel) bs = elim (body bs) [
  | none ↦ ([], bs)
  | some (xs, r) ↦ let (ys, z) = scan_loop body fuel r in (xs ++ ys, z)
]

-- Each round consumes a byte at least, so the length of the input is fuel enough.
unfoldable pub scan {ℓ} : {A : Type ℓ} → Body A → List ℕ → List A × List ℕ
unfolding scan_loop
scan body bs = scan_loop body (length bs) bs

-- Each round of the loop consumes.
abbrev pub Consumes {ℓ} : {A : Type ℓ} → Body A → Type ℓ
Consumes {A} body =
    (bs : List ℕ) (xs : List A) (r : List ℕ) → body bs ≡ some (xs, r) → length r < length bs

-- Bytes that arrive later do not change what a round has done.
abbrev pub IsStable {ℓ} : {A : Type ℓ} → Body A → Type ℓ
IsStable {A} body =
    (bs more : List ℕ) (xs : List A) (r : List ℕ)
    → body bs ≡ some (xs, r)
    → body (bs ++ more) ≡ some (xs, r ++ more)

module _ {ℓ} {A : Type ℓ} (body : Body A) where
  scan_loop_stop : (f : ℕ) (bs : List ℕ) → body bs ≡ none → scan_loop body f bs ≡ ([], bs)
  unfolding scan_loop
  scan_loop_stop zero bs e = refl
  scan_loop_stop (suc f) bs e = rw (e, scan_loop)

  scan_loop_go :
      (f : ℕ) (bs : List ℕ) (xs : List A) (r : List ℕ)
      → body bs ≡ some (xs, r)
      → scan_loop body (suc f) bs ≡ (xs ++ (scan_loop body f r).0, (scan_loop body f r).1)
  unfolding scan_loop
  scan_loop_go f bs xs r e = rw (e, scan_loop)

  pub scan_stop : (bs : List ℕ) → body bs ≡ none → scan body bs ≡ ([], bs)
  unfolding scan
  scan_stop bs e = scan_loop_stop (length bs) bs e

module _ {ℓ} {A : Type ℓ} (body : Body A) (consumes : Consumes body) where
  scan_loop_fuel :
      (f g : ℕ) (bs : List ℕ)
      → length bs ≤ f
      → length bs ≤ g
      → scan_loop body f bs ≡ scan_loop body g bs
  scan_loop_fuel zero g bs p q = elim (Option-cases (body bs)) [
    | inl e ↦ rw (scan_loop_stop body 0 bs e, scan_loop_stop body g bs e)
    | inr ((xs, r), e) ↦ absurd (omega (arith, consumes bs xs r e))
  ]
  scan_loop_fuel (suc f) zero bs p q = elim (Option-cases (body bs)) [
    | inl e ↦ rw (scan_loop_stop body (suc f) bs e, scan_loop_stop body 0 bs e)
    | inr ((xs, r), e) ↦ absurd (omega (arith, consumes bs xs r e))
  ]
  scan_loop_fuel (suc f) (suc g) bs p q = elim (Option-cases (body bs)) [
    | inl e ↦ rw (scan_loop_stop body (suc f) bs e, scan_loop_stop body (suc g) bs e)
    | inr ((xs, r), e) ↦
        let shorter = consumes bs xs r e in
        let same = scan_loop_fuel f g r (omega arith) (omega arith) in
        scan_loop_go body f bs xs r e
        ∙ ap (λ p. (xs ++ p.0, p.1)) same
        ∙ sym (scan_loop_go body g bs xs r e)
  ]

  scan_fuel : (f : ℕ) (bs : List ℕ) → length bs ≤ f → scan_loop body f bs ≡ scan body bs
  unfolding scan
  scan_fuel f bs h = scan_loop_fuel f (length bs) bs h (omega arith)

  -- The loop's equation, with no fuel in it.
  pub scan_go :
      (bs : List ℕ) (xs : List A) (r : List ℕ)
      → body bs ≡ some (xs, r)
      → scan body bs ≡ (xs ++ (scan body r).0, (scan body r).1)
  scan_go bs xs r e =
      let shorter = consumes bs xs r e in
      sym (scan_fuel (suc (length bs)) bs (omega arith))
      ∙ scan_loop_go body (length bs) bs xs r e
      ∙ ap (λ p. (xs ++ p.0, p.1)) (scan_fuel (length bs) r (omega arith))

  scan_stops_below : (n : ℕ) (bs : List ℕ) → length bs < n → body (scan body bs).1 ≡ none
  scan_stops_below zero bs h = absurd (omega arith)
  scan_stops_below (suc n) bs h = elim (Option-cases (body bs)) [
    | inl e ↦ rw (scan_stop body bs e) e
    | inr ((xs, r), e) ↦
        let shorter = consumes bs xs r e in
        rw (scan_go bs xs r e) (scan_stops_below n r (omega arith))
  ]

  -- The loop ends by its own test, never for want of fuel.
  pub scan_stops : (bs : List ℕ) → body (scan body bs).1 ≡ none
  scan_stops bs = scan_stops_below (suc (length bs)) bs (omega arith)

module _ {ℓ} {A : Type ℓ} (body : Body A) (consumes : Consumes body) (stable : IsStable body) where
  scan-append_below :
      (n : ℕ) (bs more : List ℕ)
      → length bs < n
      → let (xs, r) = scan body bs in
        scan body (bs ++ more) ≡ (xs ++ (scan body (r ++ more)).0, (scan body (r ++ more)).1)
  scan-append_below zero bs more h = absurd (omega arith)
  scan-append_below (suc n) bs more h = elim (Option-cases (body bs)) [
    | inl e ↦ rw (scan_stop body bs e)
    | inr ((xs, r), e) ↦
        let shorter = consumes bs xs r e in
        let rest = scan-append_below n r more (omega arith) in
        rw (scan_go body consumes bs xs r e, append_assoc)
          (scan_go body consumes (bs ++ more) xs (r ++ more) (stable bs more xs r e)
            ∙ ap (λ p. (xs ++ p.0, p.1)) rest)
  ]

  -- Parsing in two instalments, the second behind what the first has left, is parsing at once.
  pub scan-append :
      (bs more : List ℕ)
      → let (xs, r) = scan body bs in
        scan body (bs ++ more) ≡ (xs ++ (scan body (r ++ more)).0, (scan body (r ++ more)).1)
  scan-append bs more = scan-append_below (suc (length bs)) bs more (omega arith)

-- What a round leaves is a tail of what it was given.
abbrev pub Advances {ℓ} : {A : Type ℓ} → Body A → Type ℓ
Advances {A} body =
    (bs : List ℕ) (xs : List A) (r : List ℕ)
    → body bs ≡ some (xs, r)
    → drop (length bs - length r) bs ≡ r

module _ {ℓ} {A : Type ℓ} (body : Body A) (advances : Advances body) where
  scan_loop_rest : (f : ℕ) (bs : List ℕ) → (k : ℕ) × ((scan_loop body f bs).1 ≡ drop k bs)
  unfolding scan_loop
  scan_loop_rest zero bs = (0, refl)
  scan_loop_rest (suc f) bs = elim (Option-cases (body bs)) [
    | inl e ↦ (0, rw (e, scan_loop))
    | inr ((xs, r), e) ↦
        let (k, at_k) = scan_loop_rest f r in
        (
          length bs - length r + k,
          rw (e, scan_loop)
              (at_k
                ∙ ap (drop k) (sym (advances bs xs r e))
                ∙ drop-drop k (length bs - length r) bs),
        )
  ]

  -- The bytes that are left are found by counting those that were consumed.
  pub scan_rest : (bs : List ℕ) → drop (length bs - length (scan body bs).1) bs ≡ (scan body bs).1
  unfolding scan
  scan_rest bs = let (k, e) = scan_loop_rest (length bs) bs in rw e (drop_back k bs)
