-- ===== src/Tnauth/Coord/Echo.antt =====
-- internal/tnauth/coord.go: what of a 0103 the 0408 carries, and where.
use seestar_remote.Base.{
  ℕ, zero, suc, ◌+◌, ◌-◌, ◌*◌, ◌/◌, ◌^◌, ◌≤◌, ◌<◌, ◌≡◌, ◌≢◌, refl, sym, ap, ap₂, ◌∙◌, true, ◌&&◌,
  ◌||◌, not, Option, none, some, List, [], ◌∷◌, ◌++◌, ltb, leb, ◌==◌, length, get_or, replicate,
  length-set, get_or-set_self, get_or-set_ne, Bool-cases, inl, inr, arith,
}
use seestar_remote.Base.Bytes.{Bytes, IsBytes, at, byte, uint16}
use seestar_remote.Kalay.Session.Layout.{slot-full}
use seestar_remote.Tnauth.{CoordAddr, coord_addr, CoordSetup}
use seestar_remote.Tnauth.Relay.{candidate_of}
use seestar_remote.Tnauth.Coord.{
  Coord103, part, ip_at, is_private, lan_loop, parse_0103, fill, setup_0408, build_0408,
}
use seestar_remote.Tnauth.Coord.Layout.{
  coord_setup-port, coord_setup-token, coord_setup-slot, at-IsByte, length-part, part-two,
  part-four,
}

length-fill :
    (k family port : ℕ) (ip : Option Bytes) (addrs : List (Option CoordAddr))
    → length (fill k family port ip addrs) ≡ length addrs
length-fill k family port none addrs = refl
length-fill k family port (some ip) addrs = length-set addrs k _

get_or-fill_ne :
    (k j family port : ℕ) (ip : Option Bytes) (addrs : List (Option CoordAddr))
    → k ≢ j
    → get_or (fill k family port ip addrs) j none ≡ get_or addrs j none
get_or-fill_ne k j family port none addrs h = refl
get_or-fill_ne k j family port (some ip) addrs h = get_or-set_ne addrs k j _ none h

get_or-fill_self :
    (k family port : ℕ) (ip : Option Bytes) (addrs : List (Option CoordAddr))
    → k < length addrs
    → get_or addrs k none ≡ none
    → get_or (fill k family port ip addrs) k none ≡ candidate_of family port ip
get_or-fill_self k family port none addrs low unset = unset
get_or-fill_self k family port (some ip) addrs low unset = get_or-set_self addrs k _ none low

-- At `k` stand the device's port and a private address.
pub record IsLan (pt : Bytes) (k : ℕ) (ip : Bytes) : Type 0 where
  pub room : k + 6 ≤ length pt
  pub high : at pt k ≡ at pt 38
  pub low : at pt (k + 1) ≡ at pt 39
  pub address : ip ≡ ip_at pt (k + 2)
  pub local : is_private ip ≡ true

lan_loop-some :
    (fuel : ℕ) (pt : Bytes) (i : ℕ) (ip : Bytes)
    → lan_loop fuel pt i ≡ some ip
    → (k : ℕ) × (i ≤ k) × IsLan pt k ip
unfolding lan_loop
lan_loop-some zero pt i ip e = cc
lan_loop-some (suc fuel) pt i ip e = elim (Bool-cases (leb (i + 6) (length pt))) [
  | inr over ↦ let nothing : none ≡ some ip = rw over at e in cc
  | inl room ↦ elim (Bool-cases (at pt i == at pt 38 && at pt (i + 1) == at pt 39)) [
    | inr other ↦
        let (k, behind, h) = lan_loop-some fuel pt (i + 1) ip (rw (room, other) at e) in
        (k, omega arith, h)
    | inl same ↦ elim (Bool-cases (is_private (ip_at pt (i + 2)))) [
      | inr public ↦
          let (k, behind, h) = lan_loop-some fuel pt (i + 1) ip (rw (room, same, public) at e) in
          (k, omega arith, h)
      | inl local ↦
          let found : some (ip_at pt (i + 2)) ≡ some ip = rw (room, same, local) at e in
          let it : ip ≡ ip_at pt (i + 2) = cc in
          (
            i,
            omega arith,
            record {
              room = ground arith;
              high = ground arith;
              low = ground arith;
              address = it;
              local = ap is_private it ∙ local;
            },
          )
    ]
  ]
]

-- No record of the device's port and a private address stands from `i` on.
abbrev pub HasNoLan : Bytes → ℕ → Type 0
HasNoLan pt i = (k : ℕ) (ip : Bytes) → i ≤ k → ¬ (IsLan pt k ip)

lan_loop-none :
    (fuel : ℕ) (pt : Bytes) (i : ℕ)
    → length pt ≤ i + fuel
    → lan_loop fuel pt i ≡ none
    → HasNoLan pt i
unfolding lan_loop
lan_loop-none zero pt i enough e k ip low h = absurd (omega (arith, h.room))
lan_loop-none (suc fuel) pt i enough e k ip low h =
    let room : leb (i + 6) (length pt) ≡ true = ground (arith, h.room) in
    elim (Bool-cases (at pt i == at pt 38 && at pt (i + 1) == at pt 39)) [
      | inr other ↦
          let later = lan_loop-none fuel pt (i + 1) (omega arith) (rw (room, other) at e) in
          elim (Bool-cases (i == k)) [
            | inl here ↦
                let same : i ≡ k = ground arith in
                absurd
                  (ground (arith, ap (at pt) same, ap (λ z. at pt (z + 1)) same, h.high, h.low))
            | inr past ↦ later k ip (ground arith) h
          ]
      | inl same_port ↦ elim (Bool-cases (is_private (ip_at pt (i + 2)))) [
        | inl local ↦
            let found : some (ip_at pt (i + 2)) ≡ none = rw (room, same_port, local) at e in cc
        | inr public ↦
            let later =
              lan_loop-none fuel pt (i + 1) (omega arith) (rw (room, same_port, public) at e) in
            elim (Bool-cases (i == k)) [
              | inl here ↦
                  let same : i ≡ k = ground arith in
                  let private : is_private (ip_at pt (i + 2)) ≡ true =
                    ap (λ z. is_private (ip_at pt (z + 2))) same
                    ∙ ap is_private (sym h.address)
                    ∙ h.local in
                  absurd (cc)
              | inr past ↦ later k ip (ground arith) h
            ]
      ]
    ]

-- What the address table of a 0408 holds of a device.
module _ (uid : Bytes) (d : Coord103) (local : Option Bytes) (local_port : ℕ)
    (reflexive : Option Bytes) where
  abbrev filled : CoordSetup
  filled = setup_0408 uid (some d) local local_port reflexive

  filled-publc :
      (length filled.addrs ≡ 29)
      × (get_or filled.addrs 16 none ≡ candidate_of 0x0002 d.dev_port (some d.dev_ip))
  unfolding setup_0408
  filled-publc =
      let a₀ = replicate {A = Option CoordAddr} 29 none in
      let a₁ = fill 16 0x0002 d.dev_port (some d.dev_ip) a₀ in
      let a₂ = fill 12 0x0000 d.dev_port d.dev_lan a₁ in
      let a₃ = fill 0 0x0000 local_port local a₂ in
      (
        length-fill 4 0x0002 local_port reflexive a₃
            ∙ length-fill 0 0x0000 local_port local a₂
            ∙ length-fill 12 0x0000 d.dev_port d.dev_lan a₁,
        get_or-fill_ne 4 16 0x0002 local_port reflexive a₃ (λ e. absurd (omega arith))
            ∙ get_or-fill_ne 0 16 0x0000 local_port local a₂ (λ e. absurd (omega arith))
            ∙ get_or-fill_ne 12 16 0x0000 d.dev_port d.dev_lan a₁ (λ e. absurd (omega arith)),
      )

  filled-lan : get_or filled.addrs 12 none ≡ candidate_of 0x0000 d.dev_port d.dev_lan
  unfolding setup_0408
  filled-lan =
      let a₀ = replicate {A = Option CoordAddr} 29 none in
      let a₁ = fill 16 0x0002 d.dev_port (some d.dev_ip) a₀ in
      let a₂ = fill 12 0x0000 d.dev_port d.dev_lan a₁ in
      let a₃ = fill 0 0x0000 local_port local a₂ in
      get_or-fill_ne 4 12 0x0002 local_port reflexive a₃ (λ e. absurd (omega arith))
      ∙ get_or-fill_ne 0 12 0x0000 local_port local a₂ (λ e. absurd (omega arith))
      ∙ get_or-fill_self 12 0x0000 d.dev_port d.dev_lan a₁ (omega arith) refl

-- A record of a port and an address read from one packet is what stood there.
coord_addr-part :
    (family : ℕ) (pt : Bytes) (k : ℕ)
    → IsBytes pt
    → k + 6 ≤ length pt
    → family < 256
    → coord_addr (candidate_of family (at pt k * 256 + at pt (k + 1)) (some (ip_at pt (k + 2))))
      ≡ family ∷ 0 ∷ (part pt k 2 ++ (part pt (k + 2) 4 ++ replicate 8 0))
unfolding coord_addr
coord_addr-part family pt k bytes room small =
    let a = at-IsByte pt k bytes in
    let b = at-IsByte pt (k + 1) bytes in
    let high : byte (uint16 (at pt k * 256 + at pt (k + 1)) / 2 ^ 8) ≡ at pt k = omega arith in
    let low : byte (uint16 (at pt k * 256 + at pt (k + 1))) ≡ at pt (k + 1) = omega arith in
    let first : byte family ≡ family = omega arith in
    let second : byte (family / 2 ^ 8) ≡ 0 = omega arith in
    rw
      (
        part-two pt k (omega arith),
        part-four pt (k + 2) (omega arith),
        high,
        low,
        first,
        second,
        slot-full 4 (ip_at pt (k + 2)) refl,
      )
      refl

-- The LAN slot of the 0408: the port and the private address that stand at byte 44 or later, or empty,
-- only where none stand there.
abbrev pub LanSlot : Bytes → Option Bytes → Bytes → Type 0
LanSlot pt none w = HasNoLan pt 44 × (part w 268 16 ≡ replicate 16 0)
LanSlot pt (some ip) w =
    (k : ℕ) × (44 ≤ k)
    × IsLan pt k ip
    × (part w 268 16 ≡ 0x00 ∷ 0x00 ∷ (part pt k 2 ++ (part pt (k + 2) 4 ++ replicate 8 0)))

-- What the answer to a 0103 carries of it: the token, the port, the device's public record, and its LAN
-- record, empty only if there is none.
pub record IsEcho (pt : Bytes) (d : Coord103) (w : Bytes) : Type 0 where
  pub token : part w 68 8 ≡ part pt (length pt - 16) 8
  pub port : part w 38 2 ≡ part pt 38 2
  pub publc : part w 332 16 ≡ 0x02 ∷ 0x00 ∷ (part pt 38 2 ++ (part pt 40 4 ++ replicate 8 0))
  pub lan : LanSlot pt d.dev_lan w

abbrev parsed : Bytes → Coord103
parsed pt = record {
  token = part pt (length pt - 16) 8;
  dev_ip = ip_at pt 40;
  dev_port = at pt 38 * 256 + at pt 39;
  dev_lan = lan_loop (length pt) pt 44;
}

parse_0103-some :
    (pt : Bytes) (d : Coord103) → parse_0103 pt ≡ some d → (44 ≤ length pt) × (d ≡ parsed pt)
unfolding parse_0103
parse_0103-some pt d e =
    elim (Bool-cases (ltb (length pt) 44 || not (at pt 8 == 0x01) || not (at pt 9 == 0x03))) [
      | inl bad ↦ let nothing : none ≡ some d = rw bad at e in cc
      | inr good ↦ let it : some (parsed pt) ≡ some d = rw good at e in (ground arith, cc)
    ]

module _ (uid pt : Bytes) (local reflexive : Option Bytes) (local_port : ℕ) (bytes : IsBytes pt)
    (long : 44 ≤ length pt) where
  abbrev answer : Bytes
  answer = build_0408 uid (some (parsed pt)) local local_port reflexive

  echo_port : part answer 38 2 ≡ part pt 38 2
  unfolding setup_0408
  echo_port =
      let a = at-IsByte pt 38 bytes in
      let b = at-IsByte pt 39 bytes in
      let high : byte (uint16 (at pt 38 * 256 + at pt 39) / 2 ^ 8) ≡ at pt 38 = omega arith in
      let low : byte (uint16 (at pt 38 * 256 + at pt 39)) ≡ at pt 39 = omega arith in
      coord_setup-port (filled uid (parsed pt) local local_port reflexive)
      ∙ ap₂ (λ x y. x ∷ y ∷ []) high low
      ∙ sym (part-two pt 38 (omega arith))

  echo_token : part answer 68 8 ≡ part pt (length pt - 16) 8
  unfolding setup_0408
  echo_token =
      coord_setup-token (filled uid (parsed pt) local local_port reflexive)
      ∙ slot-full 8 (part pt (length pt - 16) 8) (length-part pt (length pt - 16) 8 (omega arith))

  echo_publc : part answer 332 16 ≡ 0x02 ∷ 0x00 ∷ (part pt 38 2 ++ (part pt 40 4 ++ replicate 8 0))
  echo_publc =
      let (size, held) = filled-publc uid (parsed pt) local local_port reflexive in
      coord_setup-slot (filled uid (parsed pt) local local_port reflexive) 16 (omega (arith, size))
      ∙ ap coord_addr held
      ∙ coord_addr-part 0x0002 pt 38 bytes (omega arith) (omega arith)

  echo_slot :
      part answer 268 16 ≡ coord_addr (candidate_of 0x0000 (parsed pt).dev_port (parsed pt).dev_lan)
  echo_slot =
      let (size, held) = filled-publc uid (parsed pt) local local_port reflexive in
      coord_setup-slot (filled uid (parsed pt) local local_port reflexive) 12 (omega (arith, size))
      ∙ ap coord_addr (filled-lan uid (parsed pt) local local_port reflexive)

  echo-LanSlot : (o : Option Bytes) → (parsed pt).dev_lan ≡ o → LanSlot pt o answer
  unfolding coord_addr
  echo-LanSlot none e = (
    lan_loop-none (length pt) pt 44 (omega arith) e,
    echo_slot ∙ ap (λ o. coord_addr (candidate_of 0x0000 (parsed pt).dev_port o)) e,
  )
  echo-LanSlot (some ip) e =
      let (k, behind, h) = lan_loop-some (length pt) pt 44 ip e in
      let port : at pt 38 * 256 + at pt 39 ≡ at pt k * 256 + at pt (k + 1) =
        omega (arith, h.high, h.low) in
      (
        k,
        behind,
        h,
        echo_slot
            ∙ ap (λ o. coord_addr (candidate_of 0x0000 (at pt 38 * 256 + at pt 39) o)) e
            ∙ ap₂ (λ v a. coord_addr (candidate_of 0x0000 v (some a))) port h.address
            ∙ coord_addr-part 0x0000 pt k bytes h.room (omega arith),
      )

-- The 0408 that answers a 0103 repeats its token and the device's port, and carries the device's
-- public address and port as they stood in it; the device's LAN record is a private address that stood
-- behind the same port at byte 44 or later, and it is empty only if there is none.
pub build_0408-parse_0103 :
    (uid pt : Bytes) (local reflexive : Option Bytes) (local_port : ℕ) (d : Coord103)
    → IsBytes pt
    → parse_0103 pt ≡ some d
    → IsEcho pt d (build_0408 uid (some d) local local_port reflexive)
build_0408-parse_0103 uid pt local reflexive local_port d bytes e =
    let (long, it) = parse_0103-some pt d e in
    rw it (record {
      token = echo_token uid pt local reflexive local_port bytes long;
      port = echo_port uid pt local reflexive local_port bytes long;
      publc = echo_publc uid pt local reflexive local_port bytes long;
      lan = echo-LanSlot uid pt local reflexive local_port bytes long (parsed pt).dev_lan refl;
    })
