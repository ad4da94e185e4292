-- ===== src/Kalay/Control.antt =====
-- kalay/control.go: the obfuscation of control and data packets, a mask on top of the permutation.
pub mod Payloads
use Prim.Native.Nat.{bit_xor}
use seestar_remote.Base.{
  ℕ, ◌+◌, ◌%◌, List, [], ◌∷◌, ◌++◌, leb, if◌then◌else◌, length, get_or, take, drop,
}
use seestar_remote.Base.Bytes.{Bytes}
use seestar_remote.Kalay.Transcode.{trans_code, reverse_trans_code}

-- `controlMask`
abbrev pub control_mask : List ℕ
control_mask =
    0x86 ∷ 0xd0 ∷ 0xc2 ∷ 0xe4 ∷ 0x84 ∷ 0x2d ∷ 0xad ∷ 0x0c ∷ 0xe8 ∷ 0xd2 ∷ 0xe6 ∷ 0x40 ∷ 0x84 ∷ 0x0c
    ∷ 0xad ∷ 0x0c ∷ []

-- The loop of `xorMask` from index `i` on.
unfoldable pub xor_from : ℕ → Bytes → Bytes
xor_from i [] = []
xor_from i (x ∷ xs) = bit_xor x (get_or control_mask (i % 16) 0) ∷ xor_from (i + 1) xs

-- `xorMask`
unfoldable pub xor_mask : Bytes → Bytes
xor_mask b = xor_from 0 b

-- `DecodePayload`
unfoldable pub decode_payload : Bytes → Bytes
decode_payload wire = xor_mask (reverse_trans_code wire)

-- `EncodePayload`
unfoldable pub encode_payload : Bytes → Bytes
encode_payload clear = trans_code (xor_mask clear)

-- `dataTransLimit`
abbrev pub data_trans_limit : ℕ
data_trans_limit = 64

-- `DecodePayloadData`
unfoldable pub decode_payload_data : Bytes → Bytes
decode_payload_data wire =
    if leb (length wire) data_trans_limit
    then decode_payload wire
    else xor_mask (reverse_trans_code (take data_trans_limit wire)) ++ drop data_trans_limit wire

-- `EncodePayloadData`
unfoldable pub encode_payload_data : Bytes → Bytes
encode_payload_data clear =
    if leb (length clear) data_trans_limit
    then encode_payload clear
    else trans_code (xor_mask (take data_trans_limit clear)) ++ drop data_trans_limit clear
