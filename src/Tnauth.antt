-- ===== src/Tnauth.antt =====
-- internal/tnauth/coordpkt.go and internal/tnauth/relaypkt.go: the layouts of the coordination
-- packets that set a session up through a relay.
pub mod Sizes
pub mod Auth
pub mod Relay
pub mod Coord
mod Examples
use seestar_remote.Base.{
  ℕ, ◌-◌, ◌*◌, ◌+◌, Option, none, some, List, [], ◌∷◌, ◌++◌, length, replicate,
}
use seestar_remote.Base.Bytes.{Bytes, uint16, uint32, le16, le32, be16}
use seestar_remote.Kalay.Session.{slot}

-- `coordAddr` with an address; its IP as four bytes.
pub record CoordAddr : Type 0 where
  pub family : ℕ
  pub port : ℕ
  pub ip : Bytes

-- `coordAddr.appendTo`: `none` is a record with no address.
unfoldable pub coord_addr : Option CoordAddr → Bytes
coord_addr none = replicate 16 0
coord_addr (some a) = le16 a.family ++ (be16 (uint16 a.port) ++ (slot 4 a.ip ++ replicate 8 0))

-- `for _, a := range addrs { out = a.appendTo(out) }`
unfoldable pub addr_table : List (Option CoordAddr) → Bytes
addr_table [] = []
addr_table (a ∷ rest) = coord_addr a ++ addr_table rest

abbrev pub coord_len : ℕ
coord_len = 544

-- `coordSetup`
pub record CoordSetup : Type 0 where
  pub uid : Bytes
  pub dev_port : ℕ
  pub token : Bytes
  pub addrs : List (Option CoordAddr)

-- `coordSetup.bytes`, in the parts before and behind the UID.
abbrev pub coord_prefix : Bytes
coord_prefix =
    0x04
    ∷ 0x02
    ∷ 0x1d
    ∷ 0x02
    ∷ (le32 (coord_len - 16) ++ (0x04 ∷ 0x08 ∷ 0x24 ∷ 0x00 ∷ 0 ∷ 0 ∷ 0 ∷ 0 ∷ []))

abbrev pub coord_middle : ℕ → Bytes
coord_middle dev_port =
    0x01
    ∷ 0x00
    ∷ (be16 (uint16 dev_port)
        ++ (0 ∷ 0 ∷ 0 ∷ 0 ∷ 0 ∷ 0 ∷ 0 ∷ 0 ∷ 0 ∷ 0 ∷ 0xff ∷ 0xff ∷ 0x02 ∷ 0x02 ∷ 0x00 ∷ 0x02 ∷ 0 ∷ 0
            ∷ 0 ∷ 0 ∷ 0x03 ∷ 0x06 ∷ 0x03 ∷ 0x04 ∷ 0x03 ∷ 0x06 ∷ 0x03 ∷ 0x04 ∷ []))

unfoldable pub coord_setup : CoordSetup → Bytes
coord_setup c =
    coord_prefix
    ++ (slot 20 c.uid
        ++ (coord_middle c.dev_port
            ++ (slot 8 c.token ++ (addr_table c.addrs ++ (0x2e ∷ 0x03 ∷ 0x00 ∷ 0x00 ∷ [])))))

-- `setupHeader`
abbrev pub setup_header : ℕ → ℕ → ℕ → Bytes
setup_header typ unknown total =
    0x04
    ∷ 0x02
    ∷ 0x1d
    ∷ 0x00
    ∷ (le32 (uint32 (total - 16)) ++ (le16 typ ++ (le16 unknown ++ (0 ∷ 0 ∷ 0 ∷ 0 ∷ []))))

-- `append(out, make([]byte, total-len(out))...)`
abbrev pub pad_to : ℕ → Bytes → Bytes
pad_to total out = out ++ replicate (total - length out) 0

abbrev pub len000c : ℕ
len000c = 64

abbrev pub len1001 : ℕ
len1001 = 288

abbrev pub len1002 : ℕ
len1002 = 544

unfoldable pub build000c : Bytes → Bytes → Bytes
build000c uid token = pad_to len000c (
    setup_header 0x020c 0x0024 len000c
    ++ (slot 20 uid ++ (slot 8 token ++ (0x3c ∷ 0x00 ∷ 0 ∷ 0 ∷ 0x05 ∷ 0x00 ∷ []))))

unfoldable pub build1001 : Bytes → Bytes → Option CoordAddr → Bytes
build1001 uid token local = pad_to len1001 (
    setup_header 0x0240 0x0034 len1001
    ++ (slot 20 uid
        ++ (addr_table (local ∷ none ∷ none ∷ none ∷ []) ++ (slot 8 token ++ (0x02 ∷ 0x00 ∷ [])))))

abbrev middle1002 : ℕ → Bytes
middle1002 dev_port =
    0x01
    ∷ 0x00
    ∷ (be16 (uint16 dev_port)
        ++ (0 ∷ 0 ∷ 0 ∷ 0 ∷ 0 ∷ 0 ∷ 0 ∷ 0 ∷ 0 ∷ 0 ∷ 0xff ∷ 0xff ∷ 0x02 ∷ 0x02 ∷ 0x00 ∷ 0x03 ∷ 0 ∷ 0
            ∷ 0 ∷ 0 ∷ 0x03 ∷ 0x06 ∷ 0x03 ∷ 0x04 ∷ 0x00 ∷ 0x08 ∷ 0x03 ∷ 0x04 ∷ []))

unfoldable pub build1002 : Bytes → Bytes → ℕ → List (Option CoordAddr) → Bytes
build1002 uid token dev_port addrs =
    setup_header 0x0806 0x0024 len1002
    ++ (slot 20 uid
        ++ (middle1002 dev_port
            ++ (slot 8 token ++ (addr_table addrs ++ (0xfa ∷ 0x01 ∷ 0x00 ∷ 0x00 ∷ [])))))
