-- ===== src/Tnauth/Relay.antt =====
-- internal/tnauth/relay.go: the channel to a relay. AES-GCM under a key is a parameter, and so are the
-- results of the key exchange and of the random generator; a socket is the packets that it delivers.
pub mod Channel
use seestar_remote.Base.{
  ℕ, ◌+◌, ◌-◌, ◌*◌, ◌^◌, Bool, true, false, ◌&&◌, ◌||◌, Option, none, some, List, [], ◌∷◌, ◌++◌,
  ltb, leb, ◌==◌, if◌then◌else◌, length, take, drop, replicate, set,
}
use seestar_remote.Base.Bytes.{Bytes, at, uint16, uint32, le16, le32}
use seestar_remote.Kalay.Session.{slot}
use seestar_remote.Kalay.Dtls.{Aead}
use seestar_remote.Tnauth.{CoordAddr, build000c, build1001, build1002}

-- `relaySPKIPrefix`
abbrev pub relay_spki_prefix : Bytes
relay_spki_prefix =
    0x30 ∷ 0x59 ∷ 0x30 ∷ 0x13 ∷ 0x06 ∷ 0x07 ∷ 0x2a ∷ 0x86 ∷ 0x48 ∷ 0xce ∷ 0x3d ∷ 0x02 ∷ 0x01 ∷ 0x06
    ∷ 0x08 ∷ 0x2a ∷ 0x86 ∷ 0x48 ∷ 0xce ∷ 0x3d ∷ 0x03 ∷ 0x01 ∷ 0x07 ∷ 0x03 ∷ 0x42 ∷ 0x00 ∷ []

-- `RelayChannel`, without the address that its packets go to.
pub record RelayChannel : Type 0 where
  pub z : Bytes
  pub nonce : Bytes
  pub hello : Bytes
  pub seq : ℕ
  pub uid : Bytes

-- The text of the handshake, with its random number of two bytes.
unfoldable pub hello_text : Bytes → Bytes → Bytes
hello_text id uid =
    (0x04 ∷ 0x02 ∷ 0x1d ∷ 0x00 ∷ 0x24 ∷ 0 ∷ 0 ∷ 0 ∷ 0x17 ∷ 0x02 ∷ 0x24 ∷ 0 ∷ 0 ∷ 0 ∷ 0 ∷ 0 ∷ [])
    ++ (slot 2 id ++ (0 ∷ 0 ∷ (slot 20 uid ++ replicate 12 0)))

-- The handshake packet up to its ciphertext.
unfoldable pub hello_header : Bytes → Bytes → Bytes
hello_header nonce eph_pub =
    let spki = relay_spki_prefix ++ eph_pub in
    (0x51 ∷ 0xcc ∷ 0 ∷ 0 ∷ 0x02 ∷ 0x02 ∷ [])
    ++ (le16 (uint16 (12 + length spki + 1 + 68))
        ++ ((0 ∷ 0 ∷ 0 ∷ 0 ∷ []) ++ (slot 12 nonce ++ (spki ++ (0 ∷ [])))))

-- What `Open(nil, ...)` returns: an empty text is nil, as a failure is.
abbrev pub opened : Option Bytes → Option Bytes
opened none = none
opened (some []) = none
opened (some (x ∷ xs)) = some (x ∷ xs)

module _ (gcm : Bytes → Aead) where
  -- `build0202`, on the ephemeral public key, the shared secret, the nonce and the random number.
  unfoldable pub build_0202 : Bytes → Bytes → Bytes → Bytes → Bytes → RelayChannel × Bytes
  build_0202 uid eph_pub secret nonce id =
      let z = take 16 secret in
      let head = hello_header nonce eph_pub in
      (
        record { z = z; nonce = nonce; hello = []; seq = 0; uid = uid },
        head ++ (gcm z).seal nonce (hello_text id uid) head,
      )

  -- `RelayChannel.Send0204`: the channel then, and the packet.
  unfoldable pub send_0204 : RelayChannel → Bytes → RelayChannel × Bytes
  send_0204 c pt =
      let hdr =
        (0x51 ∷ 0xcc ∷ 0 ∷ 0 ∷ 0x02 ∷ 0x04 ∷ [])
        ++ (le16 (uint16 (4 + length pt + 16)) ++ ((0 ∷ 0 ∷ 0 ∷ 0 ∷ []) ++ le32 c.seq)) in
      (record c { seq = uint32 (c.seq + 1) }, hdr ++ (gcm c.z).seal c.nonce pt hdr)

  -- `RelayChannel.Decode`: `none` is nil, which is also what `Open` makes of an empty text.
  unfoldable pub decode : RelayChannel → Bytes → Option Bytes
  decode c w =
      if ltb (length w) 28 || not_magic w
      then none
      else if at w 5 == 0x03
      then opened ((gcm c.z).unseal c.nonce (drop 12 w) (take 12 w))
      else if at w 5 == 0x04 || at w 5 == 0x05
      then (if leb 32 (length w)
          then opened ((gcm c.z).unseal c.nonce (drop 16 w) (take 16 w))
          else none)
      else none
    where
      not_magic : Bytes → Bool
      not_magic w' = if at w' 0 == 0x51 then false else true

  -- A packet that `Coordinate` takes for the answer to its handshake.
  unfoldable pub is_answer : RelayChannel → Bytes → Bool
  is_answer c w =
      ltb 20 (length w)
      && at w 0 == 0x51
      && at w 5 == 0x03
      && elim (decode c w) as (λ _. Bool) [ none ↦ false | some p ↦ true ]

  unfoldable pub any_answer : RelayChannel → List Bytes → Bool
  any_answer c [] = false
  any_answer c (w ∷ ws) = is_answer c w || any_answer c ws

  -- `Coordinate`, on the packets that arrive before its deadline.
  unfoldable pub coordinate :
      Bytes → Bytes → Bytes → Bytes → Bytes → List Bytes → Option RelayChannel
  coordinate uid eph_pub secret nonce id arrived =
      let (c, pkt) = build_0202 uid eph_pub secret nonce id in
      let c' : RelayChannel = record c { hello = pkt } in
      if any_answer c' arrived then some c' else none

-- An address as `coordAddr`; `none` is no IPv4 address.
abbrev pub candidate_of : ℕ → ℕ → Option Bytes → Option CoordAddr
candidate_of family port none = none
candidate_of family port (some ip) = some (record { family = family; port = port; ip = ip })

-- `SetupMessages`
unfoldable pub setup_messages :
    Bytes → Bytes → Option Bytes → ℕ → Option Bytes → ℕ → Option Bytes → ℕ → List Bytes
setup_messages uid token local local_port reflexive reflexive_port device dev_port =
    let local_addr = candidate_of 0x0000 local_port local in
    let addrs =
      set
        (set (set (replicate 29 none) 0 local_addr) 4
          (candidate_of 0x0002 reflexive_port reflexive))
        16 (candidate_of 0x0002 dev_port device) in
    build000c uid token ∷ build1001 uid token local_addr ∷ build1002 uid token dev_port addrs ∷ []
