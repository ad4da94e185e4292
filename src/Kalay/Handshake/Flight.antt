-- ===== src/Kalay/Handshake/Flight.antt =====
-- What `OpenTunnel` reads of a ServerKeyExchange.
use seestar_remote.Base.{
  ℕ, ◌+◌, ◌^◌, ◌<◌, ◌≡◌, refl, sym, ap, ◌∙◌, true, false, ◌||◌, not, Option, none, some, List, [],
  ◌∷◌, ◌++◌, append_assoc, ltb, ◌==◌, length, take, drop, length-append, take-length_append,
  drop-length_append, Bool-cases, inl, inr, arith,
}
use seestar_remote.Base.Bytes.{Bytes, at, be16, get_be16}
use seestar_remote.Kalay.Hello.Extensions.{at-behind, be16-behind}
use seestar_remote.Kalay.Dtls.{DtlsRecord, parse_dtls_records}
use seestar_remote.Kalay.Handshake.{
  ServerFlight, collect_record, collect, is_whole, await_flight, slice, server_pub, panics,
  parse_ske,
}

-- A ServerKeyExchange: the header of a handshake message, the identity hint, the curve, the key, and
-- what follows it.
abbrev pub ske_of : Bytes → Bytes → Bytes → Bytes → Bytes → Bytes
ske_of header hint curve key more =
    header ++ (be16 (length hint) ++ (hint ++ (curve ++ ((length key ∷ key) ++ more))))

parse_ske-long :
    (msg : Bytes)
    → let sb = drop 12 msg in
      let p = 2 + get_be16 sb 0 in
      ltb (length msg) 14 ≡ false
      → ltb (length sb) (p + 4) ≡ false
      → ltb (length sb) (p + 4 + at sb (p + 3)) ≡ false
      → parse_ske msg ≡ server_pub (slice sb (p + 4) (at sb (p + 3)))
unfolding parse_ske
parse_ske-long msg a b c = rw (a, b, c) refl

module _ (hint curve key more : Bytes) (small : length hint < 2 ^ 16)
    (three : length curve ≡ 3) where
  abbrev ske_body : Bytes
  ske_body = be16 (length hint) ++ (hint ++ (curve ++ ((length key ∷ key) ++ more)))

  -- The body up to the key's length.
  abbrev ske_front : Bytes
  ske_front = be16 (length hint) ++ (hint ++ curve)

  length-ske_front : length ske_front ≡ 5 + length hint
  length-ske_front = omega (arith, three, length-append hint curve)

  ske_body_split : ske_body ≡ ske_front ++ ((length key ∷ key) ++ more)
  ske_body_split =
      ap (λ b. be16 (length hint) ++ b) (sym (append_assoc hint curve ((length key ∷ key) ++ more)))

  hint_field : get_be16 ske_body 0 ≡ length hint
  hint_field =
      be16-behind [] (hint ++ (curve ++ ((length key ∷ key) ++ more))) (length hint) 0 small refl

  key_field : at ske_body (5 + length hint) ≡ length key
  key_field =
      ap (λ b. at b (5 + length hint)) ske_body_split
      ∙ ap (at (ske_front ++ ((length key ∷ key) ++ more))) there
      ∙ at-behind ske_front ((length key ∷ key) ++ more) 0
    where
      there : 5 + length hint ≡ length ske_front + 0
      there = omega (arith, length-ske_front)

  key_slice : slice ske_body (6 + length hint) (length key) ≡ key
  key_slice =
      ap (λ b. slice b (6 + length hint) (length key)) whole
      ∙ ap (take (length key))
          (drop-length_append (6 + length hint) (ske_front ++ (length key ∷ [])) (key ++ more) long)
      ∙ take-length_append (length key) key more refl
    where
      whole : ske_body ≡ (ske_front ++ (length key ∷ [])) ++ (key ++ more)
      whole = ske_body_split ∙ sym (append_assoc ske_front (length key ∷ []) (key ++ more))

      long : 6 + length hint ≡ length (ske_front ++ (length key ∷ []))
      long = omega (arith, length-ske_front, length-append ske_front (length key ∷ []))

  length-ske_body : length ske_body ≡ 6 + length hint + length key + length more
  length-ske_body =
      ap length ske_body_split
      ∙ omega (
        arith,
        length-ske_front,
        length-append ske_front ((length key ∷ key) ++ more),
        length-append key more,
      )

  parse_ske-ske_of :
      (header : Bytes)
      → length header ≡ 12
      → parse_ske (ske_of header hint curve key more) ≡ server_pub key
  parse_ske-ske_of header h =
      let msg = ske_of header hint curve key more in
      let body : drop 12 msg ≡ ske_body = drop-length_append 12 header ske_body (sym h) in
      let total : length msg ≡ 12 + length ske_body =
        omega (arith, h, length-append header ske_body) in
      let p : 2 + get_be16 ske_body 0 + 3 ≡ 5 + length hint = omega (arith, hint_field) in
      let p' : 2 + get_be16 ske_body 0 + 4 ≡ 6 + length hint = omega (arith, hint_field) in
      let size : at ske_body (2 + get_be16 ske_body 0 + 3) ≡ length key =
        ap (at ske_body) p ∙ key_field in
      let room : ltb (length ske_body) (2 + get_be16 ske_body 0 + 4) ≡ false =
        ground (arith, p', length-ske_body) in
      let room' : ltb (length ske_body)
            (2 + get_be16 ske_body 0 + 4 + at ske_body (2 + get_be16 ske_body 0 + 3))
          ≡ false =
        ground (arith, p', size, length-ske_body) in
      parse_ske-long msg (ground (arith, total, length-ske_body)) (rw body room) (rw body room')
      ∙ ap (λ sb. server_pub (slice sb (2 + get_be16 sb 0 + 4) (at sb (2 + get_be16 sb 0 + 3))))
          body
      ∙ ap (λ n. server_pub (slice ske_body n (at ske_body (2 + get_be16 ske_body 0 + 3)))) p'
      ∙ ap (λ n. server_pub (slice ske_body (6 + length hint) n)) size
      ∙ ap server_pub key_slice

parse_ske-short : (msg : Bytes) → length msg < 14 → parse_ske msg ≡ panics
unfolding parse_ske
parse_ske-short msg short = let e : ltb (length msg) 14 ≡ true = ground arith in rw e refl

-- Of a ServerKeyExchange whose fields have their widths, `OpenTunnel` takes the server's public key,
-- whatever the hint and whatever follows; a message too short for a header and the hint's length
-- panics.
pub parse_ske-fields :
    (header hint curve key more cut : Bytes)
    → length header ≡ 12
    → length hint < 2 ^ 16
    → length curve ≡ 3
    → length cut < 14
    → (parse_ske (ske_of header hint curve key more) ≡ server_pub key) × (parse_ske cut ≡ panics)
parse_ske-fields header hint curve key more cut h small three short =
    (parse_ske-ske_of hint curve key more small three header h, parse_ske-short cut short)

-- A message kept has the type of its place.
abbrev IsOfType : ℕ → Option Bytes → Type 0
IsOfType ty none = Unit
IsOfType ty (some b) = (at b 0 ≡ ty) × (0 < length b)

pub record IsTyped (f : ServerFlight) : Type 0 where
  pub hello : IsOfType 2 f.sh_msg
  pub exchange : IsOfType 12 f.ske_msg
  pub done : IsOfType 14 f.shd_msg

collect_record-IsTyped :
    (f : ServerFlight) (r : DtlsRecord) → IsTyped f → IsTyped (collect_record f r)
unfolding collect_record
collect_record-IsTyped f r h = elim (Bool-cases (not (r.ct == 0x16) || ltb (length r.body) 1)) [
  | inl other ↦ rw other h
  | inr kept ↦ elim (Bool-cases (at r.body 0 == 2)) [
    | inl two ↦
        rw (kept, two)
          (record { hello = (ground arith, ground arith); exchange = h.exchange; done = h.done })
    | inr not_two ↦ elim (Bool-cases (at r.body 0 == 12)) [
      | inl twelve ↦
          rw (kept, not_two, twelve)
            (record { hello = h.hello; exchange = (ground arith, ground arith); done = h.done })
      | inr not_twelve ↦ elim (Bool-cases (at r.body 0 == 14)) [
        | inl fourteen ↦
            rw (kept, not_two, not_twelve, fourteen)
              (record {
                hello = h.hello;
                exchange = h.exchange;
                done = (ground arith, ground arith);
              })
        | inr not_fourteen ↦ rw (kept, not_two, not_twelve, not_fourteen) h
      ]
    ]
  ]
]

collect-IsTyped : (f : ServerFlight) (rs : List DtlsRecord) → IsTyped f → IsTyped (collect f rs)
unfolding collect
collect-IsTyped f [] h = h
collect-IsTyped f (r ∷ rs) h =
    collect-IsTyped (collect_record f r) rs (collect_record-IsTyped f r h)

-- Whatever datagrams arrive, the messages kept of the server's flight are handshake messages of the
-- types of their places.
pub await_flight-IsTyped :
    (f : ServerFlight) (ds : List Bytes) → IsTyped f → IsTyped (await_flight f ds)
unfolding await_flight
await_flight-IsTyped f [] h = h
await_flight-IsTyped f (d ∷ ds) h = elim (Bool-cases (is_whole f)) [
  | inl whole ↦ rw whole h
  | inr waits ↦ rw waits (
      await_flight-IsTyped (collect f (parse_dtls_records d)) ds
        (collect-IsTyped f (parse_dtls_records d) h))
]
