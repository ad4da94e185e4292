-- ===== src/Kalay/Dtls/Nonce.antt =====
-- No two records under one key share a nonce.
use Prim.Native.Nat.{bit_xor}
use seestar_remote.Base.{
  ℕ, ◌+◌, ◌*◌, ◌/◌, ◌^◌, ◌<◌, ◌≡◌, refl, ap, Bool, true, [], ◌∷◌, ◌==◌, arith, length,
}
use seestar_remote.Base.Bytes.{Bytes, IsBytes, at, byte}
use seestar_remote.Kalay.Transcode.Bits.{all_below, all_below_holds}
use seestar_remote.Kalay.Dtls.{nonce_loop, aead_nonce}

undo_test : ℕ → ℕ → Bool
undo_test x y = bit_xor x (bit_xor x y) == y

undo_table : all_below 256 (λ x. all_below 256 (undo_test x)) ≡ true
unfolding undo_test all_below
undo_table = refl

xor_cancel : (x y z : ℕ) → x < 256 → y < 256 → z < 256 → bit_xor x y ≡ bit_xor x z → y ≡ z
unfolding undo_test
xor_cancel x y z hx hy hz e =
    let row = all_below_holds 256 (λ i. all_below 256 (undo_test i)) x undo_table hx in
    let y_back = all_below_holds 256 (undo_test x) y row hy in
    let z_back = all_below_holds 256 (undo_test x) z row hz in ground arith

-- A 64-bit number is its eight bytes.
eight_bytes :
    (v w : ℕ)
    → v < 2 ^ 64
    → w < 2 ^ 64
    → (byte (v / 2 ^ 56) ≡ byte (w / 2 ^ 56))
      × (byte (v / 2 ^ 48) ≡ byte (w / 2 ^ 48))
      × (byte (v / 2 ^ 40) ≡ byte (w / 2 ^ 40))
      × (byte (v / 2 ^ 32) ≡ byte (w / 2 ^ 32))
      × (byte (v / 2 ^ 24) ≡ byte (w / 2 ^ 24))
      × (byte (v / 2 ^ 16) ≡ byte (w / 2 ^ 16))
      × (byte (v / 2 ^ 8) ≡ byte (w / 2 ^ 8))
      × (byte (v / 2 ^ 0) ≡ byte (w / 2 ^ 0))
    → v ≡ w
eight_bytes v w hv hw h = omega arith

-- Under one write IV of 12 bytes, the nonce tells the epoch and the 48-bit sequence number, so that
-- no two records share one.
pub aead_nonce-injective :
    (iv : Bytes) (epoch seq epoch' seq' : ℕ)
    → IsBytes iv
    → length iv ≡ 12
    → (epoch < 2 ^ 16) × (seq < 2 ^ 48)
    → (epoch' < 2 ^ 16) × (seq' < 2 ^ 48)
    → aead_nonce iv epoch seq ≡ aead_nonce iv epoch' seq'
    → (epoch ≡ epoch') × (seq ≡ seq')
unfolding aead_nonce nonce_loop
aead_nonce-injective (b0 ∷ b1 ∷ b2 ∷ b3 ∷ b4 ∷ b5 ∷ b6 ∷ b7 ∷ b8 ∷ b9 ∷ b10 ∷ b11 ∷ []) epoch seq
      epoch' seq' (_, (_, (_, (_, (h4, (h5, (h6, (h7, (h8, (h9, (h10, (h11, _)))))))))))) len
      (he, hs) (he', hs') e =
    let sn = epoch * 2 ^ 48 + seq in
    let sn' = epoch' * 2 ^ 48 + seq' in
    let cell = λ (k : ℕ). ap (λ l. at l k) e in
    let same : sn ≡ sn' = eight_bytes sn sn' (omega arith) (omega arith) (
      xor_cancel b4 (byte (sn / 2 ^ 56)) (byte (sn' / 2 ^ 56)) h4 (omega arith) (omega arith)
          (cell 4),
      xor_cancel b5 (byte (sn / 2 ^ 48)) (byte (sn' / 2 ^ 48)) h5 (omega arith) (omega arith)
          (cell 5),
      xor_cancel b6 (byte (sn / 2 ^ 40)) (byte (sn' / 2 ^ 40)) h6 (omega arith) (omega arith)
          (cell 6),
      xor_cancel b7 (byte (sn / 2 ^ 32)) (byte (sn' / 2 ^ 32)) h7 (omega arith) (omega arith)
          (cell 7),
      xor_cancel b8 (byte (sn / 2 ^ 24)) (byte (sn' / 2 ^ 24)) h8 (omega arith) (omega arith)
          (cell 8),
      xor_cancel b9 (byte (sn / 2 ^ 16)) (byte (sn' / 2 ^ 16)) h9 (omega arith) (omega arith)
          (cell 9),
      xor_cancel b10 (byte (sn / 2 ^ 8)) (byte (sn' / 2 ^ 8)) h10 (omega arith) (omega arith)
          (cell 10),
      xor_cancel b11 (byte (sn / 2 ^ 0)) (byte (sn' / 2 ^ 0)) h11 (omega arith) (omega arith)
          (cell 11),
    ) in
    (omega arith, omega arith)
aead_nonce-injective iv epoch seq epoch' seq' h len small small' e = cc
