-- ===== src/Kalay/Channel/Chunks.antt =====
-- `FrameTunnel` and `DeframeTunnel` are inverse.
use seestar_remote.Base.{
  ℕ, zero, suc, ◌+◌, ◌-◌, ◌/◌, ◌^◌, ◌≤◌, ◌<◌, ◌≡◌, refl, ap, ◌∙◌, some, [], ◌∷◌, ◌++◌, arith,
  length, take, drop, length-drop, length-take, length-append, take-length_append,
  drop-length_append, take-append_drop, take-min,
}
use seestar_remote.Base.Bytes.{Bytes, byte}
use seestar_remote.Base.Scan.{Consumes, scan_stop, scan_go}
use seestar_remote.Kalay.Channel.{
  field_length, deframe_round, deframe_tunnel, clamp_chunk, frame_loop, frame_tunnel,
}

deframe_round-Consumes : Consumes deframe_round
unfolding deframe_round
deframe_round-Consumes raw xs r e = ground (
  arith,
  length-drop (4 + field_length raw) raw,
  length-drop (4 + (length raw - 4)) raw,
  length-drop 1 raw,
)

-- A chunk of the control channel is taken off whole.
deframe_chunk :
    (c rest : Bytes)
    → 0 < length c
    → length c ≤ 0x2000
    → deframe_round (0x02 ∷ 0x01 ∷ byte (length c) ∷ byte (length c / 2 ^ 8) ∷ (c ++ rest))
      ≡ some (c, rest)
unfolding deframe_round
deframe_chunk c rest lo hi = ground (
  arith,
  length-append c rest,
  take-length_append (length c) c rest,
  drop-length_append (length c) c rest,
)

deframe-frame_loop :
    (fuel chunk : ℕ) (sock : Bytes)
    → 0 < chunk
    → chunk ≤ 0x2000
    → length sock ≤ fuel
    → deframe_tunnel (frame_loop fuel chunk sock) ≡ sock
unfolding frame_loop deframe_tunnel
deframe-frame_loop zero chunk [] lo hi h =
    ap (λ t. t.0) (scan_stop deframe_round [] (unfold deframe_round in refl))
deframe-frame_loop zero chunk (x ∷ xs) lo hi h = absurd (omega arith)
deframe-frame_loop (suc fuel) chunk [] lo hi h =
    ap (λ t. t.0) (scan_stop deframe_round [] (unfold deframe_round in refl))
deframe-frame_loop (suc fuel) chunk (x ∷ xs) lo hi h =
    let sock = x ∷ xs in
    let c = take chunk sock in
    let n = length-take chunk sock in
    let later = drop chunk sock in
    rw (take-min chunk sock) (
      ap (λ t. t.0)
        (scan_go deframe_round deframe_round-Consumes _ c (frame_loop fuel chunk later)
          (deframe_chunk c (frame_loop fuel chunk later) (omega arith) (omega arith)))
      ∙ ap (λ t. c ++ t)
          (deframe-frame_loop fuel chunk later lo hi (omega (arith, length-drop chunk sock)))
      ∙ take-append_drop chunk sock)

-- `DeframeTunnel` gives back the byte stream that `FrameTunnel` cut up, for every chunk size asked
-- for, zero and oversized ones included.
pub deframe-frame : (sock : Bytes) (chunk : ℕ) → deframe_tunnel (frame_tunnel sock chunk) ≡ sock
unfolding frame_tunnel
deframe-frame sock chunk =
    deframe-frame_loop (length sock) (clamp_chunk chunk) sock (ground arith) (ground arith)
      (omega arith)
