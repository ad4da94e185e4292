-- ===== src/Kalay/Prf/Blocks.antt =====
-- `PHash` and `PRF` against the definition of TLS 1.2 (RFC 5246, section 5).
use seestar_remote.Base.{
  ℕ, zero, suc, ◌+◌, ◌*◌, ◌≤◌, ◌<◌, ◌≡◌, refl, sym, ap, ◌∙◌, true, false, [], ◌++◌, append_assoc,
  ltb, length, take, length-append, length-take, take-append_le, Bool-cases, inl, inr, arith,
}
use seestar_remote.Base.Bytes.{Bytes}
use seestar_remote.Kalay.Prf.{p_hash_loop, p_hash}

module _ (hmac : Bytes → Bytes → Bytes) (secret seed : Bytes) where
  -- A(1) = HMAC(seed), A(i + 1) = HMAC(A(i)), and the i-th block is HMAC(A(i), seed).
  unfoldable pub blocks : ℕ → Bytes → Bytes
  blocks zero a = []
  blocks (suc k) a = let a' = hmac secret a in hmac secret (a' ++ seed) ++ blocks k a'

  loop_on :
      (fuel n : ℕ) (a out : Bytes)
      → ltb (length out) n ≡ true
      → p_hash_loop hmac (suc fuel) secret seed n a out
        ≡ p_hash_loop hmac fuel secret seed n
            (hmac secret a)
            (out ++ hmac secret (hmac secret a ++ seed))
  unfolding p_hash_loop
  loop_on fuel n a out e = rw e refl

  loop_off :
      (fuel n : ℕ) (a out : Bytes)
      → ltb (length out) n ≡ false
      → p_hash_loop hmac fuel secret seed n a out ≡ out
  unfolding p_hash_loop
  loop_off zero n a out e = refl
  loop_off (suc fuel) n a out e = rw e refl

  module _ (size : (msg : Bytes) → length (hmac secret msg) ≡ 32) where
    loop-blocks :
        (fuel n k : ℕ) (a out : Bytes)
        → n ≤ length out + fuel
        → n ≤ length out + 32 * k
        → let r = p_hash_loop hmac fuel secret seed n a out in
          (take n r ≡ take n (out ++ blocks k a)) × (n ≤ length r)
    unfolding blocks
    loop-blocks zero n k a out enough many =
        let full : ltb (length out) n ≡ false = ground arith in
        rw (loop_off zero n a out full)
          (sym (take-append_le n out (blocks k a) (omega arith)), omega arith)
    loop-blocks (suc fuel) n k a out enough many = elim (Bool-cases (ltb (length out) n)) [
      | inr full ↦
          rw (loop_off (suc fuel) n a out full)
            (sym (take-append_le n out (blocks k a) (ground arith)), ground arith)
      | inl more ↦
          let a' = hmac secret a in
          let block = hmac secret (a' ++ seed) in
          let longer : length (out ++ block) ≡ length out + 32 =
            omega (arith, length-append out block, size (a' ++ seed)) in
          let (j, k≡) = positive k (ground arith) in
          let (same, long) = loop-blocks fuel n j a' (out ++ block) (omega arith) (omega arith) in
          rw (loop_on fuel n a out more, k≡)
            (same ∙ ap (take n) (append_assoc out block (blocks j a')), long)
    ]
      where
        positive : (k : ℕ) → 0 < k → (j : ℕ) × (k ≡ suc j)
        positive zero h = absurd (omega arith)
        positive (suc j) h = (j, refl)

    -- With digests of 32 bytes, `PHash` gives exactly `n` bytes for every `n`, and they are the first of
    -- the blocks of the definition, however many of these are taken beyond need.
    pub p_hash-blocks :
        (n k : ℕ)
        → n ≤ 32 * k
        → (p_hash hmac secret seed n ≡ take n (blocks k seed))
          × (length (p_hash hmac secret seed n) ≡ n)
    unfolding p_hash
    p_hash-blocks n k many =
        let (same, long) = loop-blocks n n k seed [] (omega arith) (omega arith) in
        (same, omega (arith, long, length-take n (p_hash_loop hmac n secret seed n seed [])))
