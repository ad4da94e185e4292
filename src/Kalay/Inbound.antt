-- ===== src/Kalay/Inbound.antt =====
-- kalay/tunnelconn.go: the inbound half of `pump`, from RDT frames to P2PTunnel messages.
pub mod Pull
pub mod Receive
pub mod Delivery
pub mod EndToEnd
use seestar_remote.Base.{
  ℕ, zero, suc, ◌+◌, ◌-◌, ◌%◌, ◌^◌, Bool, true, false, ◌&&◌, not, Option, none, some, List, [], ◌∷◌,
  ◌++◌, ltb, ◌==◌, if◌then◌else◌, length,
}
use seestar_remote.Base.Bytes.{Bytes, add64}
use seestar_remote.Kalay.Rdt.{RdtPacket}
use seestar_remote.Kalay.Channel.{PTunMsg, demux_pass}
use seestar_remote.Kalay.Reassembler.{Reassembler, new_reassembler, add, take_seq}

-- The fields of `Tunnel` that carry the reliable stream towards the client.
pub record Inflow : Type 0 where
  pub recv : Reassembler
  pub pump_next : ℕ
  pub pump_started : Bool

-- `RDTData`
abbrev pub rdt_data : ℕ
rdt_data = 0x02

-- The loop over the frames of `readRDT`: data frames go to the reassembler.
unfoldable pub receive : Reassembler → List RdtPacket → Reassembler
receive recv [] = recv
receive recv (f ∷ fs) =
    receive (if f.type == rdt_data then (add recv f.seq f.payload).0 else recv) fs

-- What the consuming loop leaves: the reassembler, the next sequence number, and the bytes that it
-- has appended to `pbuf`.
abbrev pub Pulled : Type 0
Pulled = Reassembler × ℕ × Bytes

-- `for { p, ok := t.recv.Take(t.pumpNext) … }`. Each round removes a frame, so the number of frames
-- is fuel enough.
unfoldable pub pull_loop : ℕ → Reassembler → ℕ → Pulled
pull_loop zero recv next = (recv, next, [])
pull_loop (suc fuel) recv next =
    let (recv', taken) = take_seq recv next in
    elim taken [
      | none ↦ (recv, next, [])
      | some p ↦
          let (recv'', next', more) = pull_loop fuel recv' (add64 next 1) in
          (recv'', next', p ++ more)
    ]

-- `pumpNext` starts at the lowest sequence number received.
unfoldable pub start_pump : Inflow → Inflow
start_pump t =
    if not t.pump_started && t.recv.base_set
    then record t { pump_next = t.recv.base; pump_started = true }
    else t

-- One iteration of `pump` on the frames that `readRDT` returned, up to the demultiplexer: the bytes
-- appended to `pbuf`, and the sequence number acknowledged, if any.
unfoldable pub pull : Inflow → List RdtPacket → Inflow × Bytes × Option ℕ
pull t fs =
    let s = start_pump (record t { recv = receive t.recv fs }) in
    let (recv', next', bytes) = pull_loop (length s.recv.frames) s.recv s.pump_next in
    if s.pump_started
    then (
      record s { recv = recv'; pump_next = next' },
      bytes,
      if next' == s.pump_next then none else some ((next' + 2 ^ 64 - 1) % 2 ^ 64),
    )
    else (s, [], none)

-- The inbound state with the unparsed tail, `pbuf`.
pub record Inbound : Type 0 where
  pub flow : Inflow
  pub pbuf : Bytes

abbrev pub new_inbound : Inbound
new_inbound = record {
  flow = record { recv = new_reassembler; pump_next = 0; pump_started = false };
  pbuf = [];
}

-- One iteration of `pump`, with the messages that it routes.
unfoldable pub inbound_round : Inbound → List RdtPacket → Inbound × List PTunMsg
inbound_round t fs =
    let (flow', bytes, _) = pull t.flow fs in
    let (kept, ms) = demux_pass (t.pbuf ++ bytes) in
    if flow'.pump_started
    then (record { flow = flow'; pbuf = kept }, ms)
    else (record t { flow = flow' }, [])

-- The iterations of `pump`, in order.
unfoldable pub inbound : Inbound → List (List RdtPacket) → Inbound × List PTunMsg
inbound t [] = (t, [])
inbound t (fs ∷ rest) =
    let (t', ms) = inbound_round t fs in let (t'', more) = inbound t' rest in (t'', ms ++ more)
