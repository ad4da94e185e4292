-- ===== src/Kalay/Transcode/Inverse.antt =====
-- `ReverseTransCode` undoes `TransCode`, and the other way round, on every buffer.
use seestar_remote.Base.{
  ℕ, zero, suc, ◌+◌, ◌*◌, ◌/◌, ◌%◌, ◌^◌, ◌<◌, ◌≡◌, refl, ap, ◌∙◌, Bool, true, ◌&&◌, List, [], ◌∷◌,
  ◌==◌, ltb, Bool-cases, inl, inr, if◌then◌else◌, length, get_or, take, drop, replicate, All-append,
  All-take, All-drop, length-append, length-set, length-take, length-drop, length-replicate,
  take-length_append, drop-length_append, take-append_drop, arith,
}
use seestar_remote.Base.Bytes.{Bytes, IsByte, IsBytes, at}
use seestar_remote.Kalay.Transcode.{
  bit_at, set_bit, apply_loop, apply_bits, transcode_from, transcode, trans_code,
  reverse_trans_code,
}
use seestar_remote.Kalay.Transcode.Bits.{
  all_below, all_below_holds, set_bit-IsBytes, bit_at-set_bit, bits_ext,
}
use seestar_remote.Kalay.Transcode.Tables.{fwd_perm_bits, rev_perm_bits, fwd_rem_bits, rev_rem_bits}

-- Two tables that list inverse permutations of the first `n` numbers.
pub record AreInverse (n : ℕ) (p q : List ℕ) : Type 0 where
  pub in_range : (i : ℕ) → i < n → get_or p i 0 < n
  pub back : (i : ℕ) → i < n → get_or q (get_or p i 0) 0 ≡ i
  pub range_back : (j : ℕ) → j < n → get_or q j 0 < n
  pub forth : (j : ℕ) → j < n → get_or p (get_or q j 0) 0 ≡ j

module _ (src : Bytes) (p q : List ℕ) (inv : AreInverse (length src * 8) p q) where
  open inv use {in_range, back, forth}

  -- The buffer after the loop has moved the first `i` bits.
  record IsMoved (i : ℕ) (dst : Bytes) : Type 0 where
    sized : length dst ≡ length src
    bytes : IsBytes dst
    moved :
        (j : ℕ)
        → j < length src * 8
        → bit_at dst j ≡ (if ltb (get_or q j 0) i then bit_at src (get_or q j 0) else 0)

  one_bit :
      (i : ℕ) (dst : Bytes)
      → i < length src * 8
      → IsMoved i dst
      → IsMoved (i + 1) (if bit_at src i == 1 then set_bit dst (get_or p i 0) else dst)
  one_bit i dst h m = elim (Bool-cases (bit_at src i == 1)) [
    | inl e ↦ rw e (record {
      sized = length-set dst _ _ ∙ m.sized;
      bytes = set_bit-IsBytes dst _ m.bytes;
      moved = λ j lt. ground (
        arith,
        m.moved j lt,
        bit_at-set_bit dst (get_or p i 0) j m.bytes,
        in_range i h,
        back i h,
        forth j lt,
        m.sized,
      );
    })
    | inr e ↦ rw e (record {
      sized = m.sized;
      bytes = m.bytes;
      moved = λ j lt.
          ground (arith, m.moved j lt, forth j lt, ap (bit_at src) {x = get_or q j 0} {y = i});
    })
  ]

  all_bits :
      (rounds i : ℕ) (dst : Bytes)
      → i + rounds ≡ length src * 8
      → IsMoved i dst
      → IsMoved (length src * 8) (apply_loop rounds i src p dst)
  unfolding apply_loop
  all_bits zero i dst e m = let e' : i ≡ length src * 8 = omega arith in rw (← e') m
  all_bits (suc rounds) i dst e m =
      all_bits rounds (i + 1) _ (omega arith) (one_bit i dst (omega arith) m)

  IsBytes-zeros : (n : ℕ) → IsBytes (replicate n 0)
  IsBytes-zeros zero = tt
  IsBytes-zeros (suc n) = (omega arith, IsBytes-zeros n)

  at-zeros : (n i : ℕ) → at (replicate n 0) i ≡ 0
  at-zeros zero i = refl
  at-zeros (suc n) zero = refl
  at-zeros (suc n) (suc i) = at-zeros n i

  nothing-IsMoved : IsMoved 0 (replicate (length src) 0)
  nothing-IsMoved = record {
    sized = length-replicate (length src) 0;
    bytes = IsBytes-zeros (length src);
    moved = λ j lt. ground (arith, at-zeros (length src) (j / 8), zero_bit (j % 8));
  }
    where
      zero_bit : (k : ℕ) → 0 / 2 ^ k % 2 ≡ 0
      zero_bit k = omega arith

  apply_bits-IsMoved : IsMoved (length src * 8) (apply_bits src p)
  unfolding apply_bits
  apply_bits-IsMoved = all_bits (length src * 8) 0 _ (omega arith) nothing-IsMoved

  pub length-apply_bits : length (apply_bits src p) ≡ length src
  length-apply_bits = apply_bits-IsMoved.sized

  pub apply_bits-IsBytes : IsBytes (apply_bits src p)
  apply_bits-IsBytes = apply_bits-IsMoved.bytes

  -- Bit `j` of the result is the source bit that the permutation sends there.
  pub bit_at-apply_bits :
      (j : ℕ) → j < length src * 8 → bit_at (apply_bits src p) j ≡ bit_at src (get_or q j 0)
  bit_at-apply_bits j lt = ground (arith, apply_bits-IsMoved.moved j lt, range_back j lt)
    where
      open inv use {range_back}

AreInverse-flip : {n : ℕ} {p q : List ℕ} → AreInverse n p q → AreInverse n q p
AreInverse-flip inv = record {
  in_range = inv.range_back;
  back = inv.forth;
  range_back = inv.in_range;
  forth = inv.back;
}

-- Applying a permutation and then its inverse is the identity on a buffer of that many bits.
pub apply_bits_back :
    (src : Bytes) (p q : List ℕ)
    → IsBytes src
    → AreInverse (length src * 8) p q
    → apply_bits (apply_bits src p) q ≡ src
apply_bits_back src p q h inv =
    let once = apply_bits src p in
    let sized = length-apply_bits src p q inv in
    let flip : AreInverse (length once * 8) q p = rw sized (AreInverse-flip inv) in
    bits_ext (apply_bits once q) src (apply_bits-IsBytes once q p flip) h
      (length-apply_bits once q p flip ∙ sized)
      λ i lt.
        let here : i < length src * 8 = omega (arith, length-apply_bits once q p flip) in
        bit_at-apply_bits once q p flip i (omega arith)
        ∙ bit_at-apply_bits src p q inv (get_or p i 0) (inv.in_range i here)
        ∙ ap (bit_at src) (inv.back i here)

-- What the loop below has established for one pair of tables.
inverse_test : ℕ → List ℕ → List ℕ → Bool
inverse_test n p q = all_below n (λ i.
    ltb (get_or p i 0) n
    && (get_or q (get_or p i 0) 0 == i)
    && (ltb (get_or q i 0) n && (get_or p (get_or q i 0) 0 == i)))

AreInverse-of_test : (n : ℕ) (p q : List ℕ) → inverse_test n p q ≡ true → AreInverse n p q
unfolding inverse_test
AreInverse-of_test n p q h = record {
  in_range = λ i lt. ground (arith, entry i lt);
  back = λ i lt. ground (arith, entry i lt);
  range_back = λ i lt. ground (arith, entry i lt);
  forth = λ i lt. ground (arith, entry i lt);
}
  where
    entry :
        (i : ℕ)
        → i < n
        → (ltb (get_or p i 0) n
            && (get_or q (get_or p i 0) 0 == i)
            && (ltb (get_or q i 0) n && (get_or p (get_or q i 0) 0 == i)))
          ≡ true
    entry i lt = all_below_holds n _ i h lt

block_tables : inverse_test 128 fwd_perm_bits rev_perm_bits ≡ true
unfolding inverse_test all_below
block_tables = refl

rest_test : ℕ → Bool
rest_test r = inverse_test (r * 8) (get_or fwd_rem_bits r []) (get_or rev_rem_bits r [])

rest_tables : all_below 16 rest_test ≡ true
unfolding rest_test inverse_test all_below
rest_tables = refl

last_block :
    (rest : Bytes) (p : List ℕ) (ps : List (List ℕ))
    → 0 < length rest
    → transcode_from 0 rest p ps ≡ apply_bits rest (get_or ps (length rest) [])
unfolding transcode_from
last_block rest p ps h = ground arith

-- The tables of one direction and of the other, whole blocks and partial ones.
record AreTables (p q : List ℕ) (ps qs : List (List ℕ)) : Type 0 where
  block : AreInverse 128 p q
  partial : (r : ℕ) → r < 16 → AreInverse (r * 8) (get_or ps r []) (get_or qs r [])

module _ {p q : List ℕ} {ps qs : List (List ℕ)} (tables : AreTables p q ps qs) where
  -- A buffer, its image under the transcoding with the tables `p` and `ps`, and what `q` and `qs`
  -- make of that image.
  record IsUndone (blocks : ℕ) (rest : Bytes) : Type 0 where
    sized : length (transcode_from blocks rest p ps) ≡ length rest
    bytes : IsBytes (transcode_from blocks rest p ps)
    undone : transcode_from blocks (transcode_from blocks rest p ps) q qs ≡ rest

  partial-IsUndone : (rest : Bytes) → IsBytes rest → length rest < 16 → IsUndone 0 rest
  partial-IsUndone [] h lt =
      unfold transcode_from in record { sized = refl; bytes = tt; undone = refl }
  partial-IsUndone (x ∷ xs) h lt =
      let r = length (x ∷ xs) in
      let perm = get_or ps r [] in
      let inv = tables.partial r lt in
      let sized' = length-apply_bits (x ∷ xs) perm (get_or qs r []) inv in
      let once = last_block (x ∷ xs) p ps (omega arith) in
      let twice = last_block (apply_bits (x ∷ xs) perm) q qs (omega arith) in
      record {
        sized = rw once sized';
        bytes = rw once (apply_bits-IsBytes (x ∷ xs) perm (get_or qs r []) inv);
        undone = rw (once, twice, sized') (apply_bits_back (x ∷ xs) perm (get_or qs r []) h inv);
      }

  all-IsUndone :
      (blocks : ℕ) (rest : Bytes) → IsBytes rest → length rest / 16 ≡ blocks → IsUndone blocks rest
  unfolding transcode_from
  all-IsUndone zero rest h e = partial-IsUndone rest h (omega arith)
  all-IsUndone (suc blocks) rest h e =
      let front = take 16 rest in
      let later = drop 16 rest in
      let front_len : length front ≡ 16 = omega (arith, length-take 16 rest) in
      let inv : AreInverse (length front * 8) p q = rw front_len tables.block in
      let sized' = length-apply_bits front p q inv in
      let ih =
        all-IsUndone blocks later (All-drop IsByte 16 rest h)
          (omega (arith, length-drop 16 rest)) in
      let moved = apply_bits front p in
      let tail = transcode_from blocks later p ps in
      record {
        sized = omega (arith, length-append moved tail, ih.sized, length-drop 16 rest);
        bytes = All-append IsByte moved tail (apply_bits-IsBytes front p q inv) ih.bytes;
        undone =
            rw
              (
                take-length_append 16 moved tail (omega arith),
                drop-length_append 16 moved tail (omega arith),
                ih.undone,
                apply_bits_back front p q (All-take IsByte 16 rest h) inv,
              )
              (take-append_drop 16 rest);
      }

  transcode_back : (bytes : Bytes) → IsBytes bytes → transcode (transcode bytes p ps) q qs ≡ bytes
  unfolding transcode
  transcode_back bytes h =
      let done = all-IsUndone (length bytes / 16) bytes h refl in rw done.sized done.undone

forward_tables : AreTables fwd_perm_bits rev_perm_bits fwd_rem_bits rev_rem_bits
unfolding rest_test
forward_tables = record {
  block = AreInverse-of_test 128 fwd_perm_bits rev_perm_bits block_tables;
  partial = λ r lt. AreInverse-of_test (r * 8) _ _ (all_below_holds 16 rest_test r rest_tables lt);
}

backward_tables : AreTables rev_perm_bits fwd_perm_bits rev_rem_bits fwd_rem_bits
backward_tables = record {
  block = AreInverse-flip forward_tables.block;
  partial = λ r lt. AreInverse-flip (forward_tables.partial r lt);
}

-- `ReverseTransCode` recovers every buffer from what `TransCode` makes of it.
pub reverse-trans_code :
    (bytes : Bytes) → IsBytes bytes → reverse_trans_code (trans_code bytes) ≡ bytes
unfolding trans_code reverse_trans_code
reverse-trans_code = transcode_back forward_tables

-- `TransCode` recovers every buffer from what `ReverseTransCode` makes of it.
pub trans-reverse_trans_code :
    (bytes : Bytes) → IsBytes bytes → trans_code (reverse_trans_code bytes) ≡ bytes
unfolding trans_code reverse_trans_code
trans-reverse_trans_code = transcode_back backward_tables

-- Transcoding keeps the length, and yields bytes.
pub trans_code_shape :
    (bytes : Bytes)
    → IsBytes bytes
    → (length (trans_code bytes) ≡ length bytes) × IsBytes (trans_code bytes)
unfolding trans_code transcode
trans_code_shape bytes h =
    let done = all-IsUndone forward_tables (length bytes / 16) bytes h refl in
    (done.sized, done.bytes)

pub reverse_trans_code_shape :
    (bytes : Bytes)
    → IsBytes bytes
    → (length (reverse_trans_code bytes) ≡ length bytes) × IsBytes (reverse_trans_code bytes)
unfolding reverse_trans_code transcode
reverse_trans_code_shape bytes h =
    let done = all-IsUndone backward_tables (length bytes / 16) bytes h refl in
    (done.sized, done.bytes)
