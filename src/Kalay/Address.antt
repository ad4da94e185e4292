-- ===== src/Kalay/Address.antt =====
-- kalay/address.go: the device's address candidates in a decoded rendezvous payload.
pub mod Found
use seestar_remote.Base.{
  ℕ, ◌+◌, ◌*◌, ◌^◌, Bool, true, false, ◌&&◌, ◌||◌, not, Option, none, some, List, [], ◌∷◌, ◌++◌,
  ltb, ◌==◌, if◌then◌else◌, length,
}
use seestar_remote.Base.Bytes.{Bytes, at}

-- `AddrRecord`, its IPv4 address as four bytes.
pub record AddrRecord : Type 0 where
  pub ip0 : ℕ
  pub ip1 : ℕ
  pub ip2 : ℕ
  pub ip3 : ℕ
  pub port : ℕ

-- Equality of the keys under which `seen` holds the records.
abbrev pub is_same : AddrRecord → AddrRecord → Bool
is_same a b =
    a.ip0 == b.ip0 && a.ip1 == b.ip1 && a.ip2 == b.ip2 && a.ip3 == b.ip3 && a.port == b.port

abbrev pub is_seen : AddrRecord → List AddrRecord → Bool
is_seen r [] = false
is_seen r (s ∷ out) = is_same s r || is_seen r out

-- The record at an offset, unless one of the tests passes over it.
unfoldable pub candidate : Bytes → Option AddrRecord
candidate clear =
    let port = at clear 2 * 2 ^ 8 + at clear 3 in
    if ltb (length clear) 8
    then none
    else if not (at clear 0 == 0x02) || not (at clear 1 == 0x00)
    then none
    else if port == 0 || at clear 4 == 0 || at clear 4 == 255
    then none
    else some (record {
      ip0 = at clear 4;
      ip1 = at clear 5;
      ip2 = at clear 6;
      ip3 = at clear 7;
      port = port;
    })

-- One round of the loop: `out` after the offset.
unfoldable pub visit : List AddrRecord → Bytes → List AddrRecord
visit out clear = elim (candidate clear) [
  | none ↦ out
  | some r ↦ if is_seen r out then out else out ++ (r ∷ [])
]

-- The loop over the offsets, each a tail of the payload.
unfoldable pub addr_loop : List AddrRecord → Bytes → List AddrRecord
addr_loop out [] = out
addr_loop out (b ∷ clear) = addr_loop (visit out (b ∷ clear)) clear

-- `ParseAddrRecords`
unfoldable pub parse_addr_records : Bytes → List AddrRecord
parse_addr_records clear = addr_loop [] clear
