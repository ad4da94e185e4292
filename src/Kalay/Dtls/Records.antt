-- ===== src/Kalay/Dtls/Records.antt =====
-- Records written and read again.
use seestar_remote.Base.{
  ℕ, ◌+◌, ◌*◌, ◌^◌, ◌<◌, ◌≡◌, refl, ap, ◌∙◌, none, some, List, [], ◌∷◌, ◌++◌, append_assoc,
  append-nil, arith, length, take, drop, All, length-drop, length-append, take-length_append,
  drop-length_append, take-append_le, drop-append_le, take-append_drop, Option-cases, inl, inr,
}
use seestar_remote.Base.Bytes.{Bytes, at}
use seestar_remote.Base.Scan.{Consumes, IsStable, scan_stop, scan_go}
use seestar_remote.Kalay.Dtls.{
  DtlsRecord, parse_dtls_record, parse_dtls_records, dtls_record_raw, put_dtls_seq,
}

-- The fields have their widths on the wire.
pub record IsDtls (r : DtlsRecord) : Type 0 where
  pub ct_byte : r.ct < 256
  pub epoch_word : r.epoch < 2 ^ 16
  pub seq_48 : r.seq < 2 ^ 48
  pub body_fits : length r.body < 2 ^ 16

abbrev pub raw_of : DtlsRecord → Bytes
raw_of r = dtls_record_raw r.ct r.epoch r.seq r.body

-- The records of a datagram, one behind the other.
unfoldable pub datagram : List DtlsRecord → Bytes
datagram [] = []
datagram (r ∷ rs) = raw_of r ++ datagram rs

parse_dtls_record-Consumes : Consumes parse_dtls_record
unfolding parse_dtls_record
parse_dtls_record-Consumes b xs r e =
    ground (arith, length-drop (13 + (at b 11 * 2 ^ 8 + at b 12)) b)

parse_dtls_record-IsStable : IsStable parse_dtls_record
unfolding parse_dtls_record
parse_dtls_record-IsStable
      (b0 ∷ b1 ∷ b2 ∷ b3 ∷ b4 ∷ b5 ∷ b6 ∷ b7 ∷ b8 ∷ b9 ∷ b10 ∷ b11 ∷ b12 ∷ body) more xs r e =
    ground (
      arith,
      length-append body more,
      take-append_le (b11 * 2 ^ 8 + b12) body more,
      drop-append_le (b11 * 2 ^ 8 + b12) body more,
    )
parse_dtls_record-IsStable b more xs r e = cc

record_back :
    (r : DtlsRecord) (rest : Bytes)
    → IsDtls r
    → parse_dtls_record (raw_of r ++ rest) ≡ some (r ∷ [], rest)
unfolding parse_dtls_record dtls_record_raw
record_back r rest h = ground (
  arith,
  length-append r.body rest,
  take-length_append (length r.body) r.body rest,
  drop-length_append (length r.body) r.body rest,
)

record_cut :
    (q : DtlsRecord) (k : ℕ)
    → IsDtls q
    → k < length (raw_of q)
    → parse_dtls_record (take k (raw_of q)) ≡ none
record_cut q k h cut = elim (Option-cases (parse_dtls_record front)) [
  | inl e ↦ e
  | inr ((xs, r), e) ↦
      absurd (omega (arith, length-drop k whole, length-append r back, ap length (left xs r e)))
]
  where
    whole : Bytes
    whole = raw_of q

    front : Bytes
    front = take k whole

    back : Bytes
    back = drop k whole

    left :
        (xs : List DtlsRecord) (r : Bytes) → parse_dtls_record front ≡ some (xs, r) → r ++ back ≡ []
    left xs r e = cc (
      parse_dtls_record-IsStable front back xs r e,
      take-append_drop k whole,
      record_back q [] h,
      append-nil whole,
    )

-- Whole records, followed by a last one that is cut short at any byte, parse to the whole records.
pub parse_dtls_records-datagram :
    (rs : List DtlsRecord) (q : DtlsRecord) (k : ℕ)
    → All IsDtls rs
    → IsDtls q
    → k < length (raw_of q)
    → parse_dtls_records (datagram rs ++ take k (raw_of q)) ≡ rs
unfolding parse_dtls_records datagram
parse_dtls_records-datagram [] q k hs hq cut =
    ap (λ t. t.0) (scan_stop parse_dtls_record (take k (raw_of q)) (record_cut q k hq cut))
parse_dtls_records-datagram (r ∷ rs) q k hs hq cut =
    let rest = datagram rs ++ take k (raw_of q) in
    rw append_assoc (
      ap (λ t. t.0)
        (scan_go parse_dtls_record parse_dtls_record-Consumes (raw_of r ++ rest) (r ∷ []) rest
          (record_back r rest hs.0))
      ∙ ap (◌∷◌ r) (parse_dtls_records-datagram rs q k hs.1 hq cut))

-- Whole records alone.
pub parse-datagram : (rs : List DtlsRecord) → All IsDtls rs → parse_dtls_records (datagram rs) ≡ rs
unfolding parse_dtls_records datagram parse_dtls_record
parse-datagram [] hs = refl
parse-datagram (r ∷ rs) hs =
    ap (λ t. t.0)
      (scan_go parse_dtls_record parse_dtls_record-Consumes (raw_of r ++ datagram rs) (r ∷ [])
        (datagram rs) (record_back r (datagram rs) hs.0))
    ∙ ap (◌∷◌ r) (parse-datagram rs hs.1)

-- Overwriting the sequence number of a record gives the record with that number, byte for byte.
pub put_dtls_seq-raw :
    (r : DtlsRecord) (seq : ℕ) → put_dtls_seq (raw_of r) seq ≡ raw_of (record r { seq = seq })
unfolding put_dtls_seq dtls_record_raw
put_dtls_seq-raw r seq = refl
