-- ===== src/Tnauth/Coord.antt =====
-- internal/tnauth/coord.go: the device's address out of a relay's 0103, and the 0408 that answers it.
pub mod Layout
pub mod Echo
use seestar_remote.Base.{
  ℕ, zero, suc, ◌+◌, ◌-◌, ◌*◌, Bool, true, false, ◌&&◌, ◌||◌, not, Option, none, some, List, [],
  ◌∷◌, ltb, leb, ◌==◌, if◌then◌else◌, length, take, drop, replicate, set,
}
use seestar_remote.Base.Bytes.{Bytes, at}
use seestar_remote.Tnauth.{CoordAddr, CoordSetup, coord_setup}
use seestar_remote.Tnauth.Relay.{candidate_of}

-- `Coord103`; the LAN address may be missing.
pub record Coord103 : Type 0 where
  pub token : Bytes
  pub dev_ip : Bytes
  pub dev_port : ℕ
  pub dev_lan : Option Bytes

-- `pt[i:i+n]`, in range.
abbrev pub part : Bytes → ℕ → ℕ → Bytes
part pt i n = take n (drop i pt)

abbrev pub ip_at : Bytes → ℕ → Bytes
ip_at pt i = at pt i ∷ at pt (i + 1) ∷ at pt (i + 2) ∷ at pt (i + 3) ∷ []

-- `net.IP.IsPrivate` of an IPv4 address: 10/8, 172.16/12 and 192.168/16.
abbrev pub is_private : Bytes → Bool
is_private ip =
    at ip 0 == 10
    || (at ip 0 == 172 && leb 16 (at ip 1) && ltb (at ip 1) 32)
    || (at ip 0 == 192 && at ip 1 == 168)

-- The loop that looks for the device's LAN record, from `i` on.
unfoldable pub lan_loop : ℕ → Bytes → ℕ → Option Bytes
lan_loop zero pt i = none
lan_loop (suc fuel) pt i =
    let rest = lan_loop fuel pt (i + 1) in
    let ip = ip_at pt (i + 2) in
    if not (leb (i + 6) (length pt))
    then none
    else if at pt i == at pt 38 && at pt (i + 1) == at pt 39
    then (if is_private ip then some ip else rest)
    else rest

-- `Parse0103`
unfoldable pub parse_0103 : Bytes → Option Coord103
parse_0103 pt =
    if ltb (length pt) 44 || not (at pt 8 == 0x01) || not (at pt 9 == 0x03)
    then none
    else some (record {
      token = part pt (length pt - 16) 8;
      dev_ip = ip_at pt 40;
      dev_port = at pt 38 * 256 + at pt 39;
      dev_lan = lan_loop (length pt) pt 44;
    })

abbrev pub slot_local : ℕ
slot_local = 0

abbrev pub slot_reflex : ℕ
slot_reflex = 4

abbrev pub slot_dev_lan : ℕ
slot_dev_lan = 12

abbrev pub slot_dev_publc : ℕ
slot_dev_publc = 16

-- A slot is written where there is an IPv4 address.
abbrev pub fill : ℕ → ℕ → ℕ → Option Bytes → List (Option CoordAddr) → List (Option CoordAddr)
fill k family port none addrs = addrs
fill k family port (some ip) addrs = set addrs k (candidate_of family port (some ip))

-- `coordSetup` as `Build0408` fills it.
unfoldable pub setup_0408 : Bytes → Option Coord103 → Option Bytes → ℕ → Option Bytes → CoordSetup
setup_0408 uid c local local_port reflexive =
    let ends = λ (addrs : List (Option CoordAddr)).
      fill slot_reflex 0x0002 local_port reflexive
        (fill slot_local 0x0000 local_port local addrs) in
    elim c [
      | none ↦ record { uid = uid; dev_port = 0; token = []; addrs = ends (replicate 29 none) }
      | some d ↦ record {
        uid = uid;
        dev_port = d.dev_port;
        token = d.token;
        addrs = ends (
            fill slot_dev_lan 0x0000 d.dev_port d.dev_lan
              (fill slot_dev_publc 0x0002 d.dev_port (some d.dev_ip) (replicate 29 none)));
      }
    ]

-- `Build0408`
abbrev pub build_0408 : Bytes → Option Coord103 → Option Bytes → ℕ → Option Bytes → Bytes
build_0408 uid c local local_port reflexive =
    coord_setup (setup_0408 uid c local local_port reflexive)
