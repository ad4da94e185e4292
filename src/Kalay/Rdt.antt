-- ===== src/Kalay/Rdt.antt =====
-- kalay/tunnel.go: RDT frames on the wire, a 20-byte header and a payload.
pub mod Laws
use seestar_remote.Base.{
  ℕ, ◌+◌, ◌/◌, ◌%◌, ◌^◌, ◌<◌, Bool, ◌&&◌, not, Option, none, some, List, [], ◌∷◌, ◌++◌, ltb, ◌==◌,
  if◌then◌else◌, length, take, drop,
}
use seestar_remote.Base.Bytes.{
  Bytes, IsBytes, at, byte, uint16, le16, le32, le64, get_le16, get_le64,
}
use seestar_remote.Base.Scan.{Body, scan}

-- `RDTHdrLen`
abbrev pub rdt_hdr_len : ℕ
rdt_hdr_len = 20

-- `RDTPacket`
pub record RdtPacket : Type 0 where
  pub type : ℕ
  pub seq : ℕ
  pub b16 : ℕ
  pub conn_id : ℕ
  pub payload : Bytes

-- The fields have their Go widths, and the payload fits its 16-bit length.
pub record IsRdt (p : RdtPacket) : Type 0 where
  pub type_byte : p.type < 256
  pub seq_word : p.seq < 2 ^ 64
  pub b16_byte : p.b16 < 256
  pub conn_byte : p.conn_id < 256
  pub payload_fits : length p.payload < 2 ^ 16

-- `AppendRDT`
abbrev pub rdt_header : RdtPacket → Bytes
rdt_header p =
    0x5a
    ∷ 0x97
    ∷ 0xc2
    ∷ 0xf1
    ∷ p.type
    ∷ 0x05
    ∷ (le16 (uint16 (length p.payload)) ++ (le64 p.seq ++ (p.b16 ∷ p.conn_id ∷ 0 ∷ 0 ∷ [])))

unfoldable pub append_rdt : Bytes → RdtPacket → Bytes
append_rdt dst p = dst ++ (rdt_header p ++ p.payload)

abbrev has_magic : Bytes → Bool
has_magic pt = at pt 0 == 0x5a && at pt 1 == 0x97 && at pt 2 == 0xc2 && at pt 3 == 0xf1

-- One round of `ParseRDTStream`, at `pt[off:]`: `none` is its `break` and the end of its loop.
unfoldable pub parse_rdt_frame : Body RdtPacket
parse_rdt_frame pt =
    if ltb (length pt) rdt_hdr_len
    then none
    else if not (has_magic pt)
    then none
    else let paylen = get_le16 pt 6 in
      if ltb (length pt) (rdt_hdr_len + paylen)
      then none
      else some (
        record {
          type = at pt 4;
          seq = get_le64 pt 8;
          b16 = at pt 16;
          conn_id = at pt 17;
          payload = take paylen (drop rdt_hdr_len pt);
        }
            ∷ [],
        drop (rdt_hdr_len + paylen) pt,
      )

-- `ParseRDTStream`
unfoldable pub parse_rdt_stream : Bytes → List RdtPacket
unfolding parse_rdt_frame scan
parse_rdt_stream pt = (scan parse_rdt_frame pt).0
