-- ===== src/Kalay/Session/Framing.antt =====
-- Data packets written and read again.
use seestar_remote.Base.{
  ℕ, zero, suc, ◌+◌, ◌-◌, ◌%◌, ◌^◌, ◌≤◌, ◌<◌, refl, ◌≡◌, sym, ◌∙◌, ◌&&◌, some, [], ◌∷◌, ◌++◌, leb,
  ◌==◌, if◌then◌else◌, Bool, length, take, drop, set, All-append, length-append, drop-length_append,
  take-length_append, Bool-cases, inl, inr, ◌⊎◌, arith,
}
use seestar_remote.Base.Bytes.{Bytes, IsByte, IsBytes, at, get_le16}
use seestar_remote.Kalay.Control.{encode_payload_data, decode_payload_data}
use seestar_remote.Kalay.Control.Payloads.{decode-encode_payload_data}
use seestar_remote.Kalay.Session.{slot, build_rdt, hello_version, data_header, write_to, read_data}
use seestar_remote.Kalay.Session.Layout.{
  length-slot, slot-full, slot-IsBytes, set-IsBytes, length-set,
}

hello_version_lem : (b : Bytes) → IsBytes b → IsBytes (hello_version b)
unfolding hello_version
hello_version_lem b h =
    elim (Bool-cases (
      leb 14 (length b)
      && at b 0 == 0x16
      && at b 1 == 0xfe
      && at b 2 == 0xfd
      && at b 3 == 0x00
      && at b 4 == 0x00
      && at b 13 == 0x01)) [
        | inl hello ↦ simp hello (set-IsBytes b 2 0xff h (omega arith))
        | inr other ↦ simp other h
      ]

hello_length : (b : Bytes) → length (hello_version b) ≡ length b
unfolding hello_version
hello_length b = ground (arith, length-set b 2 0xff)

at-IsByte : (b : Bytes) (i : ℕ) → IsBytes b → at b i < 256
at-IsByte [] i h = omega arith
at-IsByte (x ∷ b) zero h = h.0
at-IsByte (x ∷ b) (suc i) h = at-IsByte b i h.1

build_rdt_lem :
    (token b : Bytes)
    → IsBytes token
    → IsBytes b
    → IsBytes (build_rdt 0x0c token b)
      × (length (build_rdt 0x0c token b) ≡ 12 + length b)
      × (drop 12 (build_rdt 0x0c token b) ≡ b)
unfolding build_rdt
build_rdt_lem token b h h' =
    let t = slot 8 token in
    let e = length-slot 8 token in
    (
      (
        omega arith,
        (
          omega arith,
          (omega arith, (omega arith, All-append IsByte t b (slot-IsBytes 8 token h) h')),
        ),
      ),
      omega (arith, length-append t b),
      drop-length_append 8 t b (sym e),
    )

data_packet-IsBytes :
    (len tx_seq : ℕ) (token rdt : Bytes)
    → IsBytes token
    → IsBytes rdt
    → IsBytes (data_header len tx_seq token ++ rdt)
data_packet-IsBytes len tx_seq token rdt h h' = (
  omega arith,
  (
    omega arith,
    (
      omega arith,
      (
        omega arith,
        (
          omega arith,
          (
            omega arith,
            (
              omega arith,
              (
                omega arith,
                (
                  omega arith,
                  (
                    omega arith,
                    (
                      omega arith,
                      (
                        omega arith,
                        (
                          at-IsByte token 0 h,
                          (at-IsByte token 1 h, (omega arith, (omega arith, h'))),
                        ),
                      ),
                    ),
                  ),
                ),
              ),
            ),
          ),
        ),
      ),
    ),
  ),
)

-- A DTLS record of epoch 0 with a ClientHello, version fe fd.
abbrev pub IsClientHello : Bytes → Type 0
IsClientHello b =
    (14 ≤ length b)
    × (at b 0 ≡ 0x16)
    × (at b 1 ≡ 0xfe)
    × (at b 2 ≡ 0xfd)
    × (at b 3 ≡ 0x00)
    × (at b 4 ≡ 0x00)
    × (at b 13 ≡ 0x01)

set_third : (b : Bytes) → 14 ≤ length b → set b 2 0xff ≡ take 2 b ++ (0xff ∷ drop 3 b)
set_third [] h = absurd (omega arith)
set_third (x ∷ []) h = absurd (omega arith)
set_third (x ∷ y ∷ []) h = absurd (omega arith)
set_third (x ∷ y ∷ z ∷ b) h = refl

-- What `WriteTo` sends in place of a record: a ClientHello with its version rewritten, all else as it is.
abbrev pub IsRewritten : Bytes → Bytes → Type 0
IsRewritten b inner =
    (IsClientHello b × (inner ≡ take 2 b ++ (0xff ∷ drop 3 b)))
    ⊎ (¬ (IsClientHello b) × (inner ≡ b))

hello_version-IsRewritten : (b : Bytes) → IsRewritten b (hello_version b)
unfolding hello_version
hello_version-IsRewritten b =
    elim (Bool-cases (
      leb 14 (length b)
      && at b 0 == 0x16
      && at b 1 == 0xfe
      && at b 2 == 0xfd
      && at b 3 == 0x00
      && at b 4 == 0x00
      && at b 13 == 0x01)) [
        | inl hello ↦
            let it : IsClientHello b = (
              ground arith,
              ground arith,
              ground arith,
              ground arith,
              ground arith,
              ground arith,
              ground arith,
            ) in
            inl (it, simp hello (set_third b it.0))
        | inr unlike ↦ inr (λ it. absurd (ground (arith, it)), simp unlike refl)
      ]

-- The layout of a data packet before it is encoded: of which number, for which token, with which
-- bytes inside.
pub record IsDataPacket (tx_seq : ℕ) (token inner clear : Bytes) : Type 0 where
  pub kind : take 4 clear ≡ 0x04 ∷ 0x02 ∷ 0x1d ∷ 0x0b ∷ []
  pub size : get_le16 clear 4 ≡ (length clear - 16) % 2 ^ 16
  pub number : get_le16 clear 6 ≡ tx_seq
  pub channel : take 4 (drop 8 clear) ≡ 0x07 ∷ 0x04 ∷ 0x21 ∷ 0x00 ∷ []
  pub tag : take 4 (drop 12 clear) ≡ take 2 token ++ (0x00 ∷ 0x01 ∷ [])
  pub word : take 4 (drop 16 clear) ≡ 0x0c ∷ 0x00 ∷ 0x00 ∷ 0x00 ∷ []
  pub session : take 8 (drop 20 clear) ≡ token
  pub inside : drop 28 clear ≡ inner

data_header-IsDataPacket :
    (tx_seq : ℕ) (token b : Bytes)
    → tx_seq < 2 ^ 16
    → length token ≡ 8
    → let rdt = build_rdt 0x0c token b in
      IsDataPacket tx_seq token b (data_header (length rdt) tx_seq token ++ rdt)
unfolding build_rdt
data_header-IsDataPacket tx_seq token b small eight =
    let whole = slot-full 8 token eight in
    record {
      kind = refl;
      size = omega (arith, length-append (slot 8 token) b, length-slot 8 token);
      number = omega arith;
      channel = refl;
      tag = first_two token (omega arith);
      word = refl;
      session = take-length_append 8 (slot 8 token) b (sym (length-slot 8 token)) ∙ whole;
      inside = drop-length_append 8 (slot 8 token) b (sym (length-slot 8 token));
    }
  where
    first_two :
        (t : Bytes)
        → 2 ≤ length t
        → at t 0 ∷ at t 1 ∷ 0x00 ∷ 0x01 ∷ [] ≡ take 2 t ++ (0x00 ∷ 0x01 ∷ [])
    first_two [] h = absurd (omega arith)
    first_two (x ∷ []) h = absurd (omega arith)
    first_two (x ∷ y ∷ t) h = refl

-- The packet that `WriteTo` sends, under a token of 8 bytes, decodes to a data packet of its number,
-- for its token, with the DTLS bytes inside, in which a ClientHello of epoch 0 gets version fe ff and
-- all else is unchanged; and the next number is one higher, modulo 2^16, exactly if the socket took
-- the packet.
pub decode-write_to :
    (tx_seq : ℕ) (token b : Bytes) (is_sent : Bool)
    → tx_seq < 2 ^ 16
    → length token ≡ 8
    → IsBytes token
    → IsBytes b
    → let (next, wire) = write_to tx_seq token b is_sent in
      let clear = decode_payload_data wire in
      (next ≡ (if is_sent then (tx_seq + 1) % 2 ^ 16 else tx_seq))
      × (inner : Bytes) × IsRewritten b inner
      × IsDataPacket tx_seq token inner clear
unfolding write_to
decode-write_to tx_seq token b is_sent small eight h h' =
    let (bytes, sized, inner) = build_rdt_lem token (hello_version b) h (hello_version_lem b h') in
    let rdt = build_rdt 0x0c token (hello_version b) in
    let clear = data_header (length rdt) tx_seq token ++ rdt in
    let (undone, _, same) =
      decode-encode_payload_data clear
        (data_packet-IsBytes (length rdt) tx_seq token rdt h bytes) in
    let laid = data_header-IsDataPacket tx_seq token (hello_version b) small eight in
    (refl, hello_version b, hello_version-IsRewritten b, rw undone laid)

-- `ReadFrom` takes out of a data packet of wire type 4e6f and internal type 0204 the bytes behind
-- its 28 bytes of headers, all of them, however long the packet is.
pub read_data-encode_payload_data :
    (header dtls : Bytes)
    → IsBytes header
    → IsBytes dtls
    → length header ≡ 28
    → (at header 0 ≡ 0x04) × (at header 1 ≡ 0x02)
    → 0 < length dtls
    → (at (encode_payload_data (header ++ dtls)) 0 ≡ 0x4e)
      × (at (encode_payload_data (header ++ dtls)) 1 ≡ 0x6f)
    → read_data (encode_payload_data (header ++ dtls)) ≡ some dtls
unfolding read_data
read_data-encode_payload_data (h0 ∷ h1 ∷ header) dtls h h' e (e0, e1) more (w0, w1) =
    let clear = h0 ∷ h1 ∷ header ++ dtls in
    let (undone, _, same) =
      decode-encode_payload_data clear (All-append IsByte (h0 ∷ h1 ∷ header) dtls h h') in
    let behind = drop-length_append 28 (h0 ∷ h1 ∷ header) dtls (sym e) in
    ground (arith, undone, same, length-append header dtls, behind)
read_data-encode_payload_data (h0 ∷ []) dtls h h' e types more wire = absurd (omega arith)
read_data-encode_payload_data [] dtls h h' e types more wire = absurd (omega arith)
