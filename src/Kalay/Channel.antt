-- ===== src/Kalay/Channel.antt =====
-- kalay/tunnel.go and the writers of kalay/tunnelconn.go: P2PTunnel messages in a byte stream.
pub mod Demux
pub mod Chunks
use seestar_remote.Base.{
  ℕ, zero, suc, min, ◌+◌, ◌-◌, ◌*◌, ◌/◌, ◌%◌, ◌^◌, ◌≤◌, Bool, true, false, ◌&&◌, ◌||◌, not, Option,
  none, some, List, [], ◌∷◌, ◌++◌, ltb, leb, ◌==◌, if◌then◌else◌, length, take, drop,
}
use seestar_remote.Base.Bytes.{Bytes, at, byte}
use seestar_remote.Base.Scan.{Body, scan}

-- `TunnelChunkMax`
abbrev pub tunnel_chunk_max : ℕ
tunnel_chunk_max = 0x2000

-- `PTunMsg`
pub record PTunMsg : Type 0 where
  pub type : ℕ
  pub chan : ℕ
  pub payload : Bytes

-- `isPTunCtrl`
abbrev pub is_ptun_ctrl : ℕ → Bool
is_ptun_ctrl t = leb 0x07 t && leb t 0x0e

-- The length field of a message, `int(raw[off+2]) | int(raw[off+3])<<8`.
abbrev pub field_length : Bytes → ℕ
field_length raw = at raw 2 + at raw 3 * 2 ^ 8

abbrev pub is_data_head : Bytes → Bool
is_data_head raw =
    at raw 0 == 0x02
    && not (at raw 1 == 0x00)
    && ltb 0 (field_length raw)
    && leb (field_length raw) tunnel_chunk_max

abbrev pub is_ctrl_head : Bytes → Bool
is_ctrl_head raw = at raw 1 == 0x00 && is_ptun_ctrl (at raw 0) && leb (field_length raw) 0x1000

-- One round of `PTunDemux.Parse`, at `raw[d.off:]`.
unfoldable pub demux_round : Body PTunMsg
demux_round raw =
    if ltb (length raw) 4
    then none
    else let ln = field_length raw in
      if is_data_head raw
      then (if ltb (length raw) (4 + ln)
          then none
          else some (
            record { type = 0x02; chan = at raw 1; payload = take ln (drop 4 raw) } ∷ [],
            drop (4 + ln) raw,
          ))
      else if is_ctrl_head raw
      then (if ltb (length raw) (4 + ln)
          then none
          else some (
            record { type = at raw 0; chan = 0; payload = take ln (drop 4 raw) } ∷ [],
            drop (4 + ln) raw,
          ))
      else some ([], drop 1 raw)

-- `PTunDemux`
pub record PTunDemux : Type 0 where
  pub off : ℕ

-- `PTunDemux.Parse`
unfoldable pub parse : PTunDemux → Bytes → PTunDemux × List PTunMsg
parse d raw =
    let fresh = drop d.off raw in
    let (ms, rest) = scan demux_round fresh in
    (record { off = d.off + (length fresh - length rest) }, ms)

-- The chunk that `pump` makes of a queued write, with the low 16 bits of its length.
unfoldable pub data_chunk : ℕ → Bytes → Bytes
data_chunk idx p = 0x02 ∷ idx ∷ byte (length p) ∷ byte (length p / 2 ^ 8) ∷ p

-- What `pump` does with the bytes that have become available, `pbuf`: it parses them afresh, routes
-- the messages, and keeps the bytes behind `d.off`.
unfoldable pub demux_pass : Bytes → Bytes × List PTunMsg
demux_pass pbuf =
    let (d, ms) = parse (record { off = 0 }) pbuf in
    (if ltb 0 d.off then drop d.off pbuf else pbuf, ms)

-- The passes of `pump` over a stream that arrives in pieces.
unfoldable pub feed : Bytes → List Bytes → Bytes × List PTunMsg
feed pbuf [] = (pbuf, [])
feed pbuf (s ∷ ss) =
    let (kept, ms) = demux_pass (pbuf ++ s) in let (left, more) = feed kept ss in (left, ms ++ more)

-- One round of `DeframeTunnel`, at `raw[p:]`: a chunk that runs past the end is taken as far as it
-- goes, and a byte that starts no chunk passes through.
unfoldable pub deframe_round : Body ℕ
deframe_round raw =
    if ltb (length raw) 4
    then none
    else let clen = field_length raw in
      if at raw 0 == 0x02 && at raw 1 == 0x01 && ltb 0 clen && leb clen tunnel_chunk_max
      then (let clen' = if ltb (length raw) (4 + clen) then length raw - 4 else clen in
          some (take clen' (drop 4 raw), drop (4 + clen') raw))
      else some (at raw 0 ∷ [], drop 1 raw)

-- `DeframeTunnel`
unfoldable pub deframe_tunnel : Bytes → Bytes
deframe_tunnel raw = (scan deframe_round raw).0

-- The clamp of `FrameTunnel`'s `chunk`, a signed integer of which only the sign matters here:
-- `chunk ≤ 0` is 0.
abbrev pub clamp_chunk : ℕ → ℕ
clamp_chunk chunk = if chunk == 0 || ltb tunnel_chunk_max chunk then tunnel_chunk_max else chunk

-- The loop of `FrameTunnel`, at `sock[i:]`.
unfoldable pub frame_loop : ℕ → ℕ → Bytes → Bytes
frame_loop zero chunk sock = []
frame_loop (suc fuel) chunk [] = []
frame_loop (suc fuel) chunk (x ∷ xs) =
    let end = min chunk (length (x ∷ xs)) in
    let c = take end (x ∷ xs) in
    0x02
    ∷ 0x01
    ∷ byte (length c)
    ∷ byte (length c / 2 ^ 8)
    ∷ (c ++ frame_loop fuel chunk (drop chunk (x ∷ xs)))

-- `FrameTunnel`. Each round takes a byte at least, so the length is fuel enough.
unfoldable pub frame_tunnel : Bytes → ℕ → Bytes
frame_tunnel sock chunk = frame_loop (length sock) (clamp_chunk chunk) sock
