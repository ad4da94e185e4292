-- ===== src/Kalay/Channel/Demux.antt =====
-- `PTunDemux.Parse` does not depend on how its stream is cut, and reads back what was framed.
use seestar_remote.Base.{
  ℕ, ◌+◌, ◌-◌, ◌*◌, ◌^◌, ◌≤◌, ◌<◌, ◌≡◌, refl, sym, ap, ◌∙◌, none, some, List, [], ◌∷◌, ◌++◌,
  append_assoc, append-nil, flatten, arith, length, drop, All, length-drop, length-append,
  take-length_append, drop-length_append, take-append_le, drop-append_le, drop_back, drop-drop,
}
use seestar_remote.Base.Bytes.{Bytes}
use seestar_remote.Base.Scan.{
  Consumes, IsStable, scan, scan_stop, scan_go, scan-append, scan_stops, Advances, scan_rest,
}
use seestar_remote.Kalay.Channel.{
  tunnel_chunk_max, PTunMsg, PTunDemux, demux_round, parse, data_chunk, field_length, demux_pass,
  feed,
}

demux_round-Consumes : Consumes demux_round
unfolding demux_round
demux_round-Consumes raw xs r e =
    ground (arith, length-drop (4 + field_length raw) raw, length-drop 1 raw)

demux_round-IsStable : IsStable demux_round
unfolding demux_round
demux_round-IsStable (b0 ∷ b1 ∷ b2 ∷ b3 ∷ body) more xs r e = ground (
  arith,
  length-append body more,
  take-append_le (b2 + b3 * 2 ^ 8) body more,
  drop-append_le (b2 + b3 * 2 ^ 8) body more,
)
demux_round-IsStable raw more xs r e = cc

-- One message's length-prefixed bytes.
data_chunk-round :
    (idx : ℕ) (p rest : Bytes)
    → 0 < idx
    → 0 < length p
    → length p ≤ 0x2000
    → demux_round (data_chunk idx p ++ rest)
      ≡ some (record { type = 2; chan = idx; payload = p } ∷ [], rest)
unfolding demux_round data_chunk
data_chunk-round idx p rest hi lo hi' = ground (
  arith,
  length-append p rest,
  take-length_append (length p) p rest,
  drop-length_append (length p) p rest,
)

demux_round-Advances : Advances demux_round
unfolding demux_round
demux_round-Advances raw xs r e =
    ground (arith, drop_back (4 + field_length raw) raw, drop_back 1 raw)

-- A pass returns the scan's messages, and keeps the bytes that the scan has left.
pass_lem : (pbuf : Bytes) → demux_pass pbuf ≡ ((scan demux_round pbuf).1, (scan demux_round pbuf).0)
unfolding demux_pass parse
pass_lem pbuf = ground (arith, scan_rest demux_round demux_round-Advances pbuf)

scan_rest_only :
    (kept : Bytes)
    → demux_round kept ≡ none
    → ◌≡◌ {A = Bytes × List PTunMsg}
        ((scan demux_round kept).1, (scan demux_round kept).0)
        (kept, [])
scan_rest_only kept h = ap (λ t. (t.1, t.0)) (scan_stop demux_round kept h)

feed_lem :
    (kept : Bytes) (segments : List Bytes)
    → demux_round kept ≡ none
    → feed kept segments ≡ demux_pass (kept ++ flatten segments)
unfolding feed flatten
feed_lem kept [] h = rw append-nil (sym (pass_lem kept ∙ scan_rest_only kept h))
feed_lem kept (s ∷ ss) h =
    let now = scan demux_round (kept ++ s) in
    let later = feed_lem now.1 ss (scan_stops demux_round demux_round-Consumes (kept ++ s)) in
    rw (pass_lem (kept ++ s), later, pass_lem (now.1 ++ flatten ss), pass_lem, ← append_assoc)
      (sym (
        ap (λ t. (t.1, t.0))
          (scan-append demux_round demux_round-Consumes demux_round-IsStable (kept ++ s)
            (flatten ss))))

-- However a stream is cut into pieces, and wherever messages straddle the cuts, the passes route the
-- messages of one pass over the whole stream, in order, and keep the same unparsed tail.
pub feed_any_cut : (segments : List Bytes) → feed [] segments ≡ demux_pass (flatten segments)
feed_any_cut segments = feed_lem [] segments (unfold demux_round in refl)

left-le : (bs : Bytes) → length (scan demux_round bs).1 ≤ length bs
left-le bs =
    let z = (scan demux_round bs).1 in
    omega (
      arith,
      ap length (scan_rest demux_round demux_round-Advances bs),
      length-drop (length bs - length z) bs,
    )

-- Where the next call starts: behind what has been consumed, at the bytes that were left.
resume_point :
    (off : ℕ) (raw more : Bytes)
    → off ≤ length raw
    → let z = (scan demux_round (drop off raw)).1 in
      drop (off + (length (drop off raw) - length z)) (raw ++ more) ≡ z ++ more
resume_point off raw more h =
    let bs = drop off raw in
    let k = length bs - length (scan demux_round bs).1 in
    sym (drop-drop k off (raw ++ more))
    ∙ ap (drop k) (drop-append_le off raw more h)
    ∙ drop-append_le k bs more (omega arith)
    ∙ ap (λ t. t ++ more) (scan_rest demux_round demux_round-Advances bs)

-- A method call that re-feeds the same stream, grown by `more`, returns just the messages that a
-- single call would have returned after those already delivered, and ends at the same offset.
pub parse-resume :
    (d : PTunDemux) (raw more : Bytes)
    → d.off ≤ length raw
    → let (d', ms) = parse d raw in
      let (d'', ms') = parse d' (raw ++ more) in parse d (raw ++ more) ≡ (d'', ms ++ ms')
unfolding parse
parse-resume d raw more h =
    let bs = drop d.off raw in
    let z = (scan demux_round bs).1 in
    rw
      (
        resume_point d.off raw more h,
        drop-append_le d.off raw more h,
        scan-append demux_round demux_round-Consumes demux_round-IsStable bs more,
      )
      (ground (arith, left-le bs, left-le (z ++ more), length-append bs more, length-append z more))

-- The messages of the chunks that `pump` makes of queued writes.
abbrev pub framed : List (ℕ × Bytes) → Bytes
framed [] = []
framed ((idx, p) ∷ ws) = data_chunk idx p ++ framed ws

abbrev pub delivered : List (ℕ × Bytes) → List PTunMsg
delivered [] = []
delivered ((idx, p) ∷ ws) = record { type = 0x02; chan = idx; payload = p } ∷ delivered ws

-- A write that one chunk can carry: not on channel 0, not empty, and at most `TunnelChunkMax` long.
abbrev pub IsChunk : ℕ × Bytes → Type 0
IsChunk (idx, p) = (0 < idx) × (0 < length p) × (length p ≤ tunnel_chunk_max)

scan-framed :
    (ws : List (ℕ × Bytes)) → All IsChunk ws → scan demux_round (framed ws) ≡ (delivered ws, [])
scan-framed [] h = scan_stop demux_round [] (unfold demux_round in refl)
scan-framed ((idx, p) ∷ ws) (h, hs) =
    scan_go demux_round demux_round-Consumes (data_chunk idx p ++ framed ws) _ (framed ws)
      (data_chunk-round idx p (framed ws) h.0 h.1 h.2)
    ∙ ap (λ t. (record { type = 0x02; chan = idx; payload = p } ∷ t.0, t.1)) (scan-framed ws hs)

-- Writes of 1 to 8192 bytes on channels other than 0, framed as chunks, come out of the
-- demultiplexer one message each, on their channels and in order,
-- with nothing left over, in whatever pieces the stream of chunks arrives.
pub feed-framed :
    (ws : List (ℕ × Bytes)) (segments : List Bytes)
    → All IsChunk ws
    → flatten segments ≡ framed ws
    → feed [] segments ≡ ([], delivered ws)
feed-framed ws segments h e =
    feed_any_cut segments
    ∙ ap demux_pass e
    ∙ pass_lem (framed ws)
    ∙ ap (λ t. (t.1, t.0)) (scan-framed ws h)

pub demux_pass-nil : demux_pass [] ≡ ([], [])
demux_pass-nil = pass_lem [] ∙ scan_rest_only [] (unfold demux_round in refl)
