-- ===== src/Tnauth/Relay/Channel.antt =====
-- internal/tnauth/relay.go: what the two ends of a channel read of each other's packets.
use seestar_remote.Base.{
  ℕ, ◌+◌, ◌-◌, ◌%◌, ◌^◌, ◌<◌, ◌≡◌, refl, sym, ◌∙◌, some, [], ◌∷◌, ◌++◌, length, take, drop,
  replicate, length-append, length-replicate, take-length_append, drop-length_append,
  get_or-append_left, inl, inr, ◌⊎◌, arith,
}
use seestar_remote.Base.Bytes.{Bytes, at, uint16, le16, le32, get_le16}
use seestar_remote.Kalay.Session.{slot}
use seestar_remote.Kalay.Session.Layout.{length-slot}
use seestar_remote.Kalay.Dtls.{Aead, IsAead}
use seestar_remote.Tnauth.Relay.{
  relay_spki_prefix, RelayChannel, hello_text, hello_header, build_0202, send_0204, decode,
}

-- A header that `Decode` knows: of twelve bytes with a 3, or of sixteen with a 4 or a 5.
abbrev pub IsHeader : Bytes → Type 0
IsHeader hdr =
    (at hdr 0 ≡ 0x51)
    × (((length hdr ≡ 12) × (at hdr 5 ≡ 0x03))
        ⊎ ((length hdr ≡ 16) × ((at hdr 5 ≡ 0x04) ⊎ (at hdr 5 ≡ 0x05))))

module _ (gcm : Bytes → Aead) (c : RelayChannel) (h : IsAead (gcm c.z)) where
  decode-sealed :
      (hdr pt : Bytes)
      → IsHeader hdr
      → 0 < length pt
      → decode gcm c (hdr ++ (gcm c.z).seal c.nonce pt hdr) ≡ some pt
  unfolding decode
  decode-sealed hdr [] head more = absurd (omega arith)
  decode-sealed hdr (x ∷ xs) (magic, inl (twelve, kind)) more =
      let pt = x ∷ xs in
      let sealed = (gcm c.z).seal c.nonce pt hdr in
      let w = hdr ++ sealed in
      let long : length w ≡ 28 + length pt =
        omega (arith, length-append hdr sealed, h.tagged c.nonce pt hdr) in
      let first : at w 0 ≡ 0x51 = get_or-append_left hdr sealed 0 0 (omega arith) ∙ magic in
      let third : at w 5 ≡ 0x03 = get_or-append_left hdr sealed 5 0 (omega arith) ∙ kind in
      let head : take 12 w ≡ hdr = take-length_append 12 hdr sealed (sym twelve) in
      let body : drop 12 w ≡ sealed = drop-length_append 12 hdr sealed (sym twelve) in
      ground (arith, h.opens c.nonce pt hdr)
  decode-sealed hdr (x ∷ xs) (magic, inr (sixteen, kind)) more =
      let pt = x ∷ xs in
      let sealed = (gcm c.z).seal c.nonce pt hdr in
      let w = hdr ++ sealed in
      let long : length w ≡ 32 + length pt =
        omega (arith, length-append hdr sealed, h.tagged c.nonce pt hdr) in
      let first : at w 0 ≡ 0x51 = get_or-append_left hdr sealed 0 0 (omega arith) ∙ magic in
      let fifth : at w 5 ≡ at hdr 5 = get_or-append_left hdr sealed 5 0 (omega arith) in
      let head : take 16 w ≡ hdr = take-length_append 16 hdr sealed (sym sixteen) in
      let body : drop 16 w ≡ sealed = drop-length_append 16 hdr sealed (sym sixteen) in
      ground (arith, h.opens c.nonce pt hdr)

-- A message of 1 to 65515 bytes that one end sends is what the other end, under the same key and nonce, decodes; the packet
-- announces its length behind its first twelve bytes, and the next one is numbered one higher, modulo 2^32.
pub decode-send_0204 :
    (gcm : Bytes → Aead) (c peer : RelayChannel) (pt : Bytes)
    → IsAead (gcm c.z)
    → peer.z ≡ c.z
    → peer.nonce ≡ c.nonce
    → 0 < length pt
    → length pt < 2 ^ 16 - 20
    → let (c', w) = send_0204 gcm c pt in
      (decode gcm peer w ≡ some pt)
      × (get_le16 w 6 ≡ length w - 12)
      × (c'.seq ≡ (c.seq + 1) % 2 ^ 32)
unfolding send_0204
decode-send_0204 gcm c peer pt h same_z same_nonce more short =
    let hdr : Bytes =
      (0x51 ∷ 0xcc ∷ 0 ∷ 0 ∷ 0x02 ∷ 0x04 ∷ [])
      ++ (le16 (uint16 (4 + length pt + 16)) ++ ((0 ∷ 0 ∷ 0 ∷ 0 ∷ []) ++ le32 c.seq)) in
    let h' : IsAead (gcm peer.z) = rw same_z h in
    let opened = decode-sealed gcm peer h' hdr pt (refl, inr (refl, inl refl)) more in
    (rw (← same_z, ← same_nonce) opened, omega (arith, h.tagged c.nonce pt hdr), refl)

length-hello_header :
    (nonce eph_pub : Bytes) → length eph_pub ≡ 65 → length (hello_header nonce eph_pub) ≡ 116
unfolding hello_header
length-hello_header nonce eph_pub e = omega (
  arith,
  length-append (slot 12 nonce) ((relay_spki_prefix ++ eph_pub) ++ (0 ∷ [])),
  length-append (relay_spki_prefix ++ eph_pub) (0 ∷ []),
  length-append relay_spki_prefix eph_pub,
  length-slot 12 nonce,
)

length-hello_text : (id uid : Bytes) → length (hello_text id uid) ≡ 52
unfolding hello_text
length-hello_text id uid = omega (
  arith,
  length-append (slot 2 id) (0 ∷ 0 ∷ (slot 20 uid ++ replicate 12 0)),
  length-append (slot 20 uid) (replicate 12 0),
  length-replicate {A = ℕ} 12 0,
  length-slot 2 id,
  length-slot 20 uid,
)

hello_header-length_field :
    (nonce eph_pub sealed : Bytes)
    → length eph_pub ≡ 65
    → get_le16 (hello_header nonce eph_pub ++ sealed) 6 ≡ 172
unfolding hello_header
hello_header-length_field nonce eph_pub sealed e =
    omega (arith, length-append relay_spki_prefix eph_pub)

-- The handshake packet is 184 bytes long and announces the 172 behind its first twelve; a relay that
-- derives the same key opens its text under the nonce and the additional data that it carries.
pub build_0202-opened :
    (gcm : Bytes → Aead) (uid eph_pub secret nonce id : Bytes)
    → IsAead (gcm (take 16 secret))
    → length eph_pub ≡ 65
    → let (c, w) = build_0202 gcm uid eph_pub secret nonce id in
      (length w ≡ 184)
      × (get_le16 w 6 ≡ 172)
      × ((gcm (take 16 secret)).unseal c.nonce (drop 116 w) (take 116 w) ≡ some (hello_text id uid))
unfolding build_0202
build_0202-opened gcm uid eph_pub secret nonce id h e =
    let head = hello_header nonce eph_pub in
    let sealed = (gcm (take 16 secret)).seal nonce (hello_text id uid) head in
    let size = length-hello_header nonce eph_pub e in
    let front : take 116 (head ++ sealed) ≡ head = take-length_append 116 head sealed (sym size) in
    let back : drop 116 (head ++ sealed) ≡ sealed = drop-length_append 116 head sealed (sym size) in
    (
      omega (
        arith,
        length-append head sealed,
        h.tagged nonce (hello_text id uid) head,
        size,
        length-hello_text id uid,
      ),
      hello_header-length_field nonce eph_pub sealed e,
      rw (front, back) (h.opens nonce (hello_text id uid) head),
    )
