-- ===== src/Kalay/Prf.antt =====
-- kalay/dtls.go: `PHash` and `PRF`. HMAC-SHA256 is a parameter.
pub mod Blocks
use seestar_remote.Base.{ℕ, zero, suc, List, [], ◌∷◌, ◌++◌, ltb, if◌then◌else◌, length, take}
use seestar_remote.Base.Bytes.{Bytes}

module _ (hmac : Bytes → Bytes → Bytes) where
  -- The loop of `PHash`. Each round appends a digest, so `n` rounds are enough.
  unfoldable pub p_hash_loop : ℕ → Bytes → Bytes → ℕ → Bytes → Bytes → Bytes
  p_hash_loop zero secret seed n a out = out
  p_hash_loop (suc fuel) secret seed n a out =
      let a' = hmac secret a in
      let rest = p_hash_loop fuel secret seed n a' (out ++ hmac secret (a' ++ seed)) in
      if ltb (length out) n then rest else out

  -- `PHash`
  unfoldable pub p_hash : Bytes → Bytes → ℕ → Bytes
  p_hash secret seed n = take n (p_hash_loop n secret seed n seed [])

  -- `PRF`
  unfoldable pub prf : Bytes → Bytes → Bytes → ℕ → Bytes
  prf secret label seed n = p_hash secret (label ++ seed) n
