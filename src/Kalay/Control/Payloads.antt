-- ===== src/Kalay/Control/Payloads.antt =====
-- Decoding undoes encoding, for control packets and for data packets.
use Prim.Native.Nat.{bit_xor}
use seestar_remote.Base.{
  ℕ, suc, ◌+◌, ◌%◌, ◌≤◌, ◌<◌, ◌≡◌, refl, sym, ap, ap₂, ◌∙◌, Bool, true, ◌&&◌, [], ◌∷◌, ◌++◌, ◌==◌,
  ltb, leb, leb→le, drop-all, lt→not_leb, Bool-cases, inl, inr, length, get_or, take, drop,
  All-take, length-append, length-take, length-drop, take-length_append, drop-length_append,
  take-append_drop, arith,
}
use seestar_remote.Base.Bytes.{Bytes, IsByte, IsBytes}
use seestar_remote.Kalay.Transcode.{reverse_trans_code}
use seestar_remote.Kalay.Transcode.Bits.{all_below, all_below_holds}
use seestar_remote.Kalay.Transcode.Inverse.{
  reverse-trans_code, trans-reverse_trans_code, trans_code_shape, reverse_trans_code_shape,
}
use seestar_remote.Kalay.Control.{
  control_mask, xor_from, xor_mask, decode_payload, encode_payload, decode_payload_data,
  encode_payload_data,
}

abbrev masked : ℕ → ℕ → ℕ
masked i x = bit_xor x (get_or control_mask i 0)

mask_test : ℕ → ℕ → Bool
mask_test i x = ltb (masked i x) 256 && masked i (masked i x) == x

mask_table : all_below 16 (λ i. all_below 256 (mask_test i)) ≡ true
unfolding mask_test all_below
mask_table = refl

mask_row : (i x : ℕ) → i < 16 → x < 256 → (masked i x < 256) × (masked i (masked i x) ≡ x)
unfolding mask_test
mask_row i x hi hx =
    let row =
      all_below_holds 256 (mask_test i) x
        (all_below_holds 16 (λ i. all_below 256 (mask_test i)) i mask_table hi) hx in
    ground arith

xor_from_lem :
    (i : ℕ) (b : Bytes)
    → IsBytes b
    → (length (xor_from i b) ≡ length b) × IsBytes (xor_from i b) × (xor_from i (xor_from i b) ≡ b)
unfolding xor_from
xor_from_lem i [] h = (refl, tt, refl)
xor_from_lem i (x ∷ xs) h =
    let (sized, bytes, undone) = xor_from_lem (i + 1) xs h.1 in
    let row = mask_row (i % 16) x (omega arith) h.0 in
    (ap suc sized, (row.0, bytes), ap₂ ◌∷◌ row.1 undone)

xor_mask_lem :
    (b : Bytes)
    → IsBytes b
    → (length (xor_mask b) ≡ length b) × IsBytes (xor_mask b) × (xor_mask (xor_mask b) ≡ b)
unfolding xor_mask
xor_mask_lem = xor_from_lem 0

pub encode_payload_shape :
    (b : Bytes) → IsBytes b → (length (encode_payload b) ≡ length b) × IsBytes (encode_payload b)
unfolding encode_payload
encode_payload_shape b h =
    let (sized, bytes, _) = xor_mask_lem b h in
    let (sized', bytes') = trans_code_shape (xor_mask b) bytes in (sized' ∙ sized, bytes')

decode_payload_shape :
    (b : Bytes) → IsBytes b → (length (decode_payload b) ≡ length b) × IsBytes (decode_payload b)
unfolding decode_payload
decode_payload_shape b h =
    let (sized, bytes) = reverse_trans_code_shape b h in
    let (sized', bytes', _) = xor_mask_lem (reverse_trans_code b) bytes in (sized' ∙ sized, bytes')

-- `DecodePayload` recovers every control payload from the wire bytes that `EncodePayload` makes.
pub decode-encode_payload : (b : Bytes) → IsBytes b → decode_payload (encode_payload b) ≡ b
unfolding decode_payload encode_payload
decode-encode_payload b h =
    let (_, bytes, undone) = xor_mask_lem b h in rw (reverse-trans_code (xor_mask b) bytes) undone

-- Every wire packet is the encoding of what `DecodePayload` reads from it, so no two packets are
-- read alike.
pub encode-decode_payload : (b : Bytes) → IsBytes b → encode_payload (decode_payload b) ≡ b
unfolding decode_payload encode_payload
encode-decode_payload b h =
    let (_, bytes) = reverse_trans_code_shape b h in
    rw ((xor_mask_lem (reverse_trans_code b) bytes).2) (trans-reverse_trans_code b h)

data_small :
    (b : Bytes)
    → length b ≤ 64
    → (encode_payload_data b ≡ encode_payload b) × (decode_payload_data b ≡ decode_payload b)
unfolding encode_payload_data decode_payload_data
data_small b h = ground arith

data_large :
    (b : Bytes)
    → 64 < length b
    → (encode_payload_data b ≡ encode_payload (take 64 b) ++ drop 64 b)
      × (decode_payload_data b ≡ decode_payload (take 64 b) ++ drop 64 b)
unfolding encode_payload_data decode_payload_data encode_payload decode_payload
data_large b h = let e = lt→not_leb 64 (length b) h in (rw e, rw e)

-- A payload of more than 64 bytes: its first 64 are transformed, and the rest is left.
data_back_large :
    (b : Bytes)
    → IsBytes b
    → 64 < length b
    → (decode_payload_data (encode_payload_data b) ≡ b)
      × (drop 64 (encode_payload_data b) ≡ drop 64 b)
      × (length (encode_payload_data b) ≡ length b)
data_back_large b h lt =
    let front = take 64 b in
    let later = drop 64 b in
    let bytes = All-take IsByte 64 b h in
    let front_len : length front ≡ 64 = omega (arith, length-take 64 b) in
    let sized = (encode_payload_shape front bytes).0 in
    let coded = encode_payload front in
    let total : length (coded ++ later) ≡ length b =
      omega (arith, length-append coded later, length-drop 64 b) in
    let front_back : take 64 (coded ++ later) ≡ coded =
      take-length_append 64 coded later (omega arith) in
    let later_back : drop 64 (coded ++ later) ≡ later =
      drop-length_append 64 coded later (omega arith) in
    rw ((data_large b lt).0) (
      (data_large (coded ++ later) (omega arith)).1
          ∙ ap₂ (λ s t. decode_payload s ++ t) front_back later_back
          ∙ ap (λ t. t ++ later) (decode-encode_payload front bytes)
          ∙ take-append_drop 64 b,
      later_back,
      total,
    )

-- `DecodePayloadData` recovers every data payload, short or long, from what `EncodePayloadData`
-- makes of it. The bytes from the 65th on travel as they are, and the length is kept.
pub decode-encode_payload_data :
    (b : Bytes)
    → IsBytes b
    → (decode_payload_data (encode_payload_data b) ≡ b)
      × (drop 64 (encode_payload_data b) ≡ drop 64 b)
      × (length (encode_payload_data b) ≡ length b)
decode-encode_payload_data b h = elim (Bool-cases (leb (length b) 64)) [
  | inl small ↦
      let short = leb→le (length b) 64 small in
      let sized = (encode_payload_shape b h).0 in
      rw ((data_small b short).0) (
        (data_small (encode_payload b) (omega arith)).1 ∙ decode-encode_payload b h,
        drop-all 64 (encode_payload b) (omega arith) ∙ sym (drop-all 64 b short),
        sized,
      )
  | inr big ↦ data_back_large b h (ground arith)
]
