-- ===== src/Kalay/Session.antt =====
-- kalay/packets.go, kalay/rdt.go and the packets of kalay/session.go: the layouts of the IOTC
-- session packets, and the framing of DTLS bytes in data packets.
pub mod Layout
pub mod Framing
use seestar_remote.Base.{
  ℕ, ◌+◌, ◌-◌, ◌*◌, ◌/◌, ◌^◌, Bool, true, false, ◌&&◌, ◌||◌, not, Option, none, some, List, [], ◌∷◌,
  ◌++◌, ltb, leb, ◌==◌, if◌then◌else◌, length, take, drop, set, replicate,
}
use seestar_remote.Base.Bytes.{Bytes, at, byte, uint16, uint32, add64, le16, le32}
use seestar_remote.Kalay.Control.{
  encode_payload, decode_payload, encode_payload_data, decode_payload_data,
}

-- `var slot [n]byte; copy(slot[:], b)`
unfoldable pub slot : ℕ → Bytes → Bytes
slot n b = take n (b ++ replicate n 0)

abbrev pub session_header_len : ℕ
session_header_len = 16

abbrev pub uid_len : ℕ
uid_len = 20

abbrev pub token_len : ℕ
token_len = 8

abbrev pub addr_record_len : ℕ
addr_record_len = 16

-- `sessionHeader.appendTo`, of the body's length, the state, the kind and the unknown word.
abbrev pub session_header : ℕ → ℕ → ℕ → ℕ → Bytes
session_header body_len state kind unknown =
    0x04
    ∷ 0x02
    ∷ 0x1d
    ∷ 0x02
    ∷ (le32 body_len ++ (state ∷ kind ∷ (le16 unknown ++ (0 ∷ 0 ∷ 0 ∷ 0 ∷ []))))

-- `appendUID`
unfoldable pub append_uid : Bytes → Bytes → Bytes
append_uid b uid = b ++ slot uid_len uid

-- `addrRecord.appendTo`: `none` is the zero record, an empty slot, and `some` the prefix and the
-- address of another one.
unfoldable pub addr_record : Option (Bytes × Bytes) → Bytes
addr_record none = replicate addr_record_len 0
addr_record (some (prefix, ip)) = slot 4 prefix ++ (slot 4 ip ++ replicate 8 0)

abbrev pub unknown_direct_trailer : Bytes
unknown_direct_trailer = 0xc6 ∷ 0xbe ∷ 0xa0 ∷ 0x92 ∷ []

-- `directPacket.bytes`, the token a slot of eight bytes.
unfoldable pub direct_packet : ℕ → Bytes → Bytes → Bytes
direct_packet state uid token =
    let body = session_header_len + uid_len + token_len + 4 + 4 in
    append_uid (session_header (uint32 (body - session_header_len)) state 0x04 0x0033) uid
    ++ (token ++ ((0 ∷ 0 ∷ 0 ∷ 0 ∷ []) ++ unknown_direct_trailer))

abbrev pub unknown_knock_trailer : Bytes
unknown_knock_trailer = 0x02 ∷ 0x00 ∷ 0x00 ∷ 0x00 ∷ []

abbrev pub AddrSlots : Type 0
AddrSlots =
    Option (Bytes × Bytes)
    × Option (Bytes × Bytes)
    × Option (Bytes × Bytes)
    × Option (Bytes × Bytes)

-- `knockPacket.bytes`
unfoldable pub knock_packet : Bytes → AddrSlots → Bytes → Bytes
knock_packet uid (a0, a1, a2, a3) token =
    let body = session_header_len + uid_len + 4 * addr_record_len + token_len + 4 in
    append_uid (session_header (uint32 (body - session_header_len)) 0x03 0x02 0x0034) uid
    ++ ((addr_record a0 ++ (addr_record a1 ++ (addr_record a2 ++ addr_record a3)))
        ++ (token ++ unknown_knock_trailer))

abbrev pub device_conn_state : ℕ
device_conn_state = 0x04

abbrev pub direct_state_off : ℕ
direct_state_off = 8

-- `buildDirect`
unfoldable pub build_direct : ℕ → Bytes → Bytes → Bytes
build_direct state token uid =
    let t = slot token_len token in
    let t' = if state == device_conn_state then set t 0 (byte (at t 0 + 1)) else t in
    encode_payload (direct_packet state uid t')

-- `buildKnock`, on the address that `localIPv4` reports, if any.
unfoldable pub build_knock : Bytes → Bytes → Option Bytes → Bytes
build_knock token uid local =
    let first : Option (Bytes × Bytes) = elim local [
      | none ↦ none
      | some ip ↦ some (0x00 ∷ 0x00 ∷ 0xed ∷ 0xe0 ∷ [], ip)
    ] in
    encode_payload (knock_packet uid (first, none, none, none) (slot token_len token))

-- `buildRDTControl`, on a value of eight bytes at least.
unfoldable pub build_rdt_control : ℕ → ℕ → Bytes → Bytes
build_rdt_control mt_hi mt_lo value = encode_payload (
    0x04
    ∷ 0x02
    ∷ 0x1d
    ∷ 0x0a
    ∷ 0x08
    ∷ 0x00
    ∷ 0x00
    ∷ 0x00
    ∷ mt_hi
    ∷ mt_lo
    ∷ 0x21
    ∷ 0x00
    ∷ 0x00
    ∷ 0x00
    ∷ 0x00
    ∷ 0x00
    ∷ take 8 value)

-- `rdtValueBump`
unfoldable pub rdt_value_bump : Bytes → Bytes
rdt_value_bump value = let v = take 8 value in set v 0 (byte (at v 0 + 1))

-- `deviceState`
unfoldable pub device_state : Bytes → ℕ
device_state wire =
    let c = decode_payload wire in
    if leb (length c) direct_state_off then 0 else at c direct_state_off

-- `BuildRDT`
unfoldable pub build_rdt : ℕ → Bytes → Bytes → Bytes
build_rdt word token dtls = le32 word ++ (slot 8 token ++ dtls)

-- The rewrite of `WriteTo`: a ClientHello record goes out with version fe ff.
unfoldable pub hello_version : Bytes → Bytes
hello_version b =
    if leb 14 (length b)
      && at b 0 == 0x16
      && at b 1 == 0xfe
      && at b 2 == 0xfd
      && at b 3 == 0x00
      && at b 4 == 0x00
      && at b 13 == 0x01
    then set b 2 0xff
    else b

-- The header of a data packet.
abbrev pub data_header : ℕ → ℕ → Bytes → Bytes
data_header len tx_seq token =
    0x04
    ∷ 0x02
    ∷ 0x1d
    ∷ 0x0b
    ∷ (le16 (uint16 len)
        ++ (le16 tx_seq
            ++ (0x07 ∷ 0x04 ∷ 0x21 ∷ 0x00 ∷ at token 0 ∷ at token 1 ∷ 0x00 ∷ 0x01 ∷ [])))

-- `WriteTo`: the packet on the wire, and the next `txSeq`, a `uint16`, which moves on only where the
-- socket takes the packet.
unfoldable pub write_to : ℕ → Bytes → Bytes → Bool → ℕ × Bytes
write_to tx_seq token b is_sent =
    let rdt = build_rdt 0x0000000c token (hello_version b) in
    (
      if is_sent then uint16 (tx_seq + 1) else tx_seq,
      encode_payload_data (data_header (length rdt) tx_seq token ++ rdt),
    )

-- What `ReadFrom` makes of a packet from the device: its DTLS bytes, unless it is passed over.
unfoldable pub read_data : Bytes → Option Bytes
read_data wire =
    let clear = decode_payload_data wire in
    if leb (length wire) 28
    then none
    else if not (at wire 0 == 0x4e) || not (at wire 1 == 0x6f)
    then none
    else if ltb (length clear) 28 || not (at clear 0 == 0x04) || not (at clear 1 == 0x02)
    then none
    else some (drop 28 clear)
