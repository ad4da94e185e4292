-- ===== src/Kalay/Rdt/Laws.antt =====
-- What `ParseRDTStream` makes of the frames that `AppendRDT` writes.
use seestar_remote.Base.{
  ℕ, ◌+◌, ◌*◌, ◌^◌, ◌<◌, ◌≡◌, ap, ◌∙◌, none, some, List, [], ◌∷◌, ◌++◌, append_assoc, append-nil,
  arith, length, take, drop, All, length-drop, length-append, take-length_append,
  drop-length_append, take-append_le, drop-append_le, take-append_drop, Option-cases, inl, inr,
}
use seestar_remote.Base.Bytes.{Bytes, at, le64_digits}
use seestar_remote.Base.Scan.{Consumes, IsStable, scan_stop, scan_go}
use seestar_remote.Kalay.Rdt.{RdtPacket, IsRdt, append_rdt, parse_rdt_frame, parse_rdt_stream}

parse_rdt_frame-Consumes : Consumes parse_rdt_frame
unfolding parse_rdt_frame
parse_rdt_frame-Consumes pt xs r e =
    ground (arith, length-drop (20 + (at pt 6 + at pt 7 * 2 ^ 8)) pt)

-- A round that has read a whole header and payload reads the same whatever follows.
parse_rdt_frame-IsStable : IsStable parse_rdt_frame
unfolding parse_rdt_frame
parse_rdt_frame-IsStable
      (b0 ∷ b1 ∷ b2 ∷ b3 ∷ b4 ∷ b5 ∷ b6 ∷ b7 ∷ b8 ∷ b9 ∷ b10 ∷ b11 ∷ b12 ∷ b13 ∷ b14 ∷ b15 ∷ b16
        ∷ b17 ∷ b18 ∷ b19 ∷ body)
      more xs r e =
    ground (
      arith,
      length-append body more,
      take-append_le (b6 + b7 * 2 ^ 8) body more,
      drop-append_le (b6 + b7 * 2 ^ 8) body more,
    )
parse_rdt_frame-IsStable pt more xs r e = cc

frame_back :
    (p : RdtPacket) (rest : Bytes)
    → IsRdt p
    → parse_rdt_frame (append_rdt [] p ++ rest) ≡ some (p ∷ [], rest)
unfolding parse_rdt_frame append_rdt
frame_back p rest h = ground (
  arith,
  length-append p.payload rest,
  take-length_append (length p.payload) p.payload rest,
  drop-length_append (length p.payload) p.payload rest,
  le64_digits p.seq,
)

-- A frame cut short anywhere yields nothing: what it yielded would have to come out of the whole
-- frame as well, with the bytes that were cut off left over.
frame_cut :
    (q : RdtPacket) (k : ℕ)
    → IsRdt q
    → k < length (append_rdt [] q)
    → parse_rdt_frame (take k (append_rdt [] q)) ≡ none
frame_cut q k h cut = elim (Option-cases (parse_rdt_frame front)) [
  | inl e ↦ e
  | inr ((xs, r), e) ↦
      absurd (omega (arith, length-drop k whole, length-append r back, ap length (left xs r e)))
]
  where
    whole : Bytes
    whole = append_rdt [] q

    front : Bytes
    front = take k whole

    back : Bytes
    back = drop k whole

    left : (xs : List RdtPacket) (r : Bytes) → parse_rdt_frame front ≡ some (xs, r) → r ++ back ≡ []
    left xs r e = cc (
      parse_rdt_frame-IsStable front back xs r e,
      take-append_drop k whole,
      frame_back q [] h,
      append-nil whole,
    )

-- The frames one behind the other, as the device coalesces them into one DTLS payload.
unfoldable pub coalesce : List RdtPacket → Bytes
coalesce [] = []
coalesce (p ∷ ps) = append_rdt [] p ++ coalesce ps

-- Whole frames, followed by a last one that is cut short at any byte, parse to the whole frames.
pub parse_rdt_stream-coalesce :
    (ps : List RdtPacket) (q : RdtPacket) (k : ℕ)
    → All IsRdt ps
    → IsRdt q
    → k < length (append_rdt [] q)
    → parse_rdt_stream (coalesce ps ++ take k (append_rdt [] q)) ≡ ps
unfolding parse_rdt_stream coalesce
parse_rdt_stream-coalesce [] q k hs hq cut =
    ap (λ t. t.0) (scan_stop parse_rdt_frame (take k (append_rdt [] q)) (frame_cut q k hq cut))
parse_rdt_stream-coalesce (p ∷ ps) q k hs hq cut =
    let rest = coalesce ps ++ take k (append_rdt [] q) in
    rw append_assoc (
      ap (λ t. t.0)
        (scan_go parse_rdt_frame parse_rdt_frame-Consumes (append_rdt [] p ++ rest) (p ∷ []) rest
          (frame_back p rest hs.0))
      ∙ ap (◌∷◌ p) (parse_rdt_stream-coalesce ps q k hs.1 hq cut))
