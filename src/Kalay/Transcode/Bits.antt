-- ===== src/Kalay/Transcode/Bits.antt =====
-- One bit set in a byte, and in a buffer.
use Prim.Native.Nat.{bit_or}
use seestar_remote.Base.{
  ℕ, zero, suc, ◌+◌, ◌*◌, ◌/◌, ◌%◌, ◌^◌, ◌<◌, ◌≡◌, refl, Bool, true, ◌&&◌, [], ◌∷◌, ◌==◌, ==_iff,
  ltb, ltb→lt, if◌then◌else◌, length, set, get_or-set_self, get_or-set_ne, arith, list_ext,
}
use native.Mathlib.Decide.{ℕ_discrete}
use seestar_remote.Base.Bytes.{Bytes, IsBytes, at}
use seestar_remote.Kalay.Transcode.{bit_at, set_bit}

-- Over a small range, a test is run at every value.
unfoldable pub all_below : ℕ → (ℕ → Bool) → Bool
all_below zero test = true
all_below (suc bound) test = test bound && all_below bound test

pub all_below_holds :
    (bound : ℕ) (test : ℕ → Bool) (v : ℕ) → all_below bound test ≡ true → v < bound → test v ≡ true
unfolding all_below
all_below_holds zero test v passed small = absurd (omega arith)
all_below_holds (suc bound) test v passed small = ground (arith, all_below_holds bound test v)

-- Setting bit `k` of the byte `b`, read at bit `m`.
abbrev bit_test : ℕ → ℕ → ℕ → Bool
bit_test b k m = bit_or b (2 ^ k) / 2 ^ m % 2 == (if k == m then 1 else b / 2 ^ m % 2)

row_test : ℕ → ℕ → Bool
row_test b k = ltb (bit_or b (2 ^ k)) 256 && all_below 8 (bit_test b k)

byte_table : all_below 256 (λ b. all_below 8 (row_test b)) ≡ true
unfolding all_below row_test
byte_table = refl

row_test-true : (b k : ℕ) → b < 256 → k < 8 → row_test b k ≡ true
row_test-true b k hb hk =
    all_below_holds 8 (row_test b) k
      (all_below_holds 256 (λ b. all_below 8 (row_test b)) b byte_table hb) hk

byte_row :
    (b k : ℕ)
    → b < 256
    → k < 8
    → (bit_or b (2 ^ k) < 256)
      × ((m : ℕ) → m < 8 → bit_or b (2 ^ k) / 2 ^ m % 2 ≡ (if k == m then 1 else b / 2 ^ m % 2))
unfolding row_test
byte_row b k hb hk =
    let row = row_test-true b k hb hk in
    (
      ltb→lt (bit_or b (2 ^ k)) 256 (ground arith),
      λ m hm.
          (==_iff (bit_or b (2 ^ k) / 2 ^ m % 2) (if k == m then 1 else b / 2 ^ m % 2)).0
            (all_below_holds 8 (bit_test b k) m (ground arith) hm),
    )

pub IsByte-at : (xs : Bytes) (i : ℕ) → IsBytes xs → at xs i < 256
IsByte-at [] i h = omega arith
IsByte-at (x ∷ xs) zero h = h.0
IsByte-at (x ∷ xs) (suc i) h = IsByte-at xs i h.1

pub IsBytes-set : (xs : Bytes) (i v : ℕ) → IsBytes xs → v < 256 → IsBytes (set xs i v)
IsBytes-set [] i v h hv = tt
IsBytes-set (x ∷ xs) zero v h hv = (hv, h.1)
IsBytes-set (x ∷ xs) (suc i) v h hv = (h.0, IsBytes-set xs i v h.1 hv)

pub set_bit-IsBytes : (xs : Bytes) (j : ℕ) → IsBytes xs → IsBytes (set_bit xs j)
set_bit-IsBytes xs j h =
    IsBytes-set xs (j / 8) _ h
      (byte_row (at xs (j / 8)) (j % 8) (IsByte-at xs (j / 8) h) (omega arith)).0

-- The bit that is set reads 1, and every other bit of the buffer reads as before.
pub bit_at-set_bit :
    (xs : Bytes) (j i : ℕ)
    → IsBytes xs
    → j < length xs * 8
    → bit_at (set_bit xs j) i ≡ (if j == i then 1 else bit_at xs i)
bit_at-set_bit xs j i h hj = elim (ℕ_discrete (j / 8) (i / 8)) [
  | yes e ↦ ground (
    arith,
    get_or-set_self xs (i / 8) (bit_or (at xs (j / 8)) (2 ^ (j % 8))) 0,
    row.1 (i % 8) (omega arith),
  )
  | no ne ↦
      ground (arith, get_or-set_ne xs (j / 8) (i / 8) (bit_or (at xs (j / 8)) (2 ^ (j % 8))) 0 ne)
]
  where
    row :
        (bit_or (at xs (j / 8)) (2 ^ (j % 8)) < 256)
        × ((m : ℕ)
            → m < 8
            → bit_or (at xs (j / 8)) (2 ^ (j % 8)) / 2 ^ m % 2
              ≡ (if (j % 8) == m then 1 else at xs (j / 8) / 2 ^ m % 2))
    row = byte_row (at xs (j / 8)) (j % 8) (IsByte-at xs (j / 8) h) (omega arith)

byte_ext : (a b : ℕ) → a < 256 → b < 256 → ((m : ℕ) → m < 8 → a / 2 ^ m % 2 ≡ b / 2 ^ m % 2) → a ≡ b
byte_ext a b ha hb h = omega (
  arith,
  h 0 (omega arith),
  h 1 (omega arith),
  h 2 (omega arith),
  h 3 (omega arith),
  h 4 (omega arith),
  h 5 (omega arith),
  h 6 (omega arith),
  h 7 (omega arith),
)

-- Two buffers of one length that agree at every bit are equal.
pub bits_ext :
    (xs ys : Bytes)
    → IsBytes xs
    → IsBytes ys
    → length xs ≡ length ys
    → ((i : ℕ) → i < length xs * 8 → bit_at xs i ≡ bit_at ys i)
    → xs ≡ ys
bits_ext xs ys hx hy e h = list_ext xs ys 0 e λ i lt.
    byte_ext (at xs i) (at ys i) (IsByte-at xs i hx) (IsByte-at ys i hy) λ m hm. same i m lt hm
  where
    same : (i m : ℕ) → i < length xs → m < 8 → at xs i / 2 ^ m % 2 ≡ at ys i / 2 ^ m % 2
    same i m lt hm =
        let q : (i * 8 + m) / 8 ≡ i = omega arith in
        let r : (i * 8 + m) % 8 ≡ m = omega arith in rw (q, r) at (h (i * 8 + m) (omega arith))
