-- ===== src/Kalay/Examples/Packets.antt =====
-- Session packets on concrete inputs.
use seestar_remote.Base.{◌%◌, ◌^◌, ◌≡◌, refl, true, none, some, [], ◌∷◌, length, arith}
use seestar_remote.Base.Bytes.{Bytes}
use seestar_remote.Kalay.Control.{decode_payload_data}
use seestar_remote.Kalay.Session.{build_direct, device_state, AddrSlots, write_to}
use seestar_remote.Kalay.Session.Layout.{device_state-build_direct}
use seestar_remote.Kalay.Session.Framing.{IsRewritten, IsDataPacket, decode-write_to}

abbrev token : Bytes
token = 0xa1 ∷ 0xb2 ∷ 0xc3 ∷ 0xd4 ∷ 0xe5 ∷ 0xf6 ∷ 0x07 ∷ 0x18 ∷ []

abbrev uid : Bytes
uid = 0x41 ∷ 0x42 ∷ 0x43 ∷ []

device_state-build_direct_example :
    (length (build_direct 4 token uid) ≡ 52) × (device_state (build_direct 4 token uid) ≡ 4)
device_state-build_direct_example =
    device_state-build_direct 4 token uid (omega arith) (ground arith) (ground arith)

abbrev local_only : AddrSlots
local_only = (some (0 ∷ 0 ∷ 0xed ∷ 0xe0 ∷ [], 192 ∷ 168 ∷ 1 ∷ 7 ∷ []), none, none, none)

abbrev record_bytes : Bytes
record_bytes = 0x17 ∷ 0xfe ∷ 0xfd ∷ []

decode-write_to_example :
    let (next, wire) = write_to 65535 token record_bytes true in
    let clear = decode_payload_data wire in
    (next ≡ 65536 % 2 ^ 16)
    × (inner : Bytes) × IsRewritten record_bytes inner
    × IsDataPacket 65535 token inner clear
decode-write_to_example =
    decode-write_to 65535 token record_bytes true (omega arith) refl (ground arith) (ground arith)

-- The headers of a packet from the device.
abbrev device_header : Bytes
device_header =
    0x04 ∷ 0x02 ∷ 0x1d ∷ 0x0b ∷ 0x0f ∷ 0x00 ∷ 0x01 ∷ 0x00 ∷ 0x07 ∷ 0x04 ∷ 0x12 ∷ 0x00 ∷ 0xa1 ∷ 0xb2
    ∷ 0x00 ∷ 0x01 ∷ 0x0c ∷ 0 ∷ 0 ∷ 0 ∷ token
