-- ===== src/Kalay/Pump.antt =====
-- kalay/tunnelconn.go: an iteration of `pump`, composed of the sender, the reassembler, the
-- demultiplexer and the channels as the code composes them. The clock is read once in an iteration.
pub mod Data
pub mod Start
pub mod Stages
pub mod Acks
use seestar_remote.Base.{
  ℕ, ◌+◌, ◌-◌, ◌*◌, ◌^◌, Bool, true, false, ◌&&◌, ◌||◌, not, Option, none, some, List, [], ◌∷◌,
  ◌++◌, ltb, leb, ◌==◌, if◌then◌else◌, length,
}
use seestar_remote.Base.Bytes.{Bytes}
use seestar_remote.Kalay.Rdt.{RdtPacket}
use seestar_remote.Kalay.Channel.{PTunMsg, data_chunk}
use seestar_remote.Kalay.GoBackN.{
  Float64, Limits, Outflow, millisecond, send_reliable, ack_outbound, outbound_tick, fill_window,
}
use seestar_remote.Kalay.Inbound.{Inflow, receive, pull, Inbound, inbound_round}
use seestar_remote.Kalay.Tunnel.{Channels, start_open, route_all}
use seestar_remote.Kalay.Setup.{tun_my_conn, rdt}

-- The fields of `Tunnel` and the variables of `pump`.
pub record Pump (F : Type 0) : Type 0 where
  pub flow : Outflow F
  pub inward : Inbound
  pub channels : Channels
  pub queue : List (ℕ × Bytes)
  pub pending : Bytes
  pub last_ka : ℕ
  pub last_advance : ℕ
  pub dev_conn : ℕ

-- What an iteration finds: the time, whether the tunnel is closed, the time since the device's last
-- packet, the control payloads and the writes queued since the iteration before, and the frames read.
pub record Arrivals : Type 0 where
  pub now : ℕ
  pub closed : Bool
  pub since_rx : ℕ
  pub ctrl : List Bytes
  pub writes : List (ℕ × Bytes)
  pub frames : List RdtPacket

-- How an iteration ends.
pub data Outcome : Type 0 where
  running : Outcome
  shut : Outcome
  silent : Outcome
  stalled : Outcome

-- The cumulative ACK of the frames below `pump_next`.
abbrev pub cumulative_ack : ℕ → ℕ → RdtPacket
cumulative_ack dev_conn next = rdt 0x46 0x01 dev_conn (next - 1) []

-- The keepalive, with the repeated ACK.
unfoldable pub keepalive : {F : Type 0} → Pump F → ℕ → Pump F × List RdtPacket
keepalive t now =
    let f = t.inward.flow in
    if ltb (400 * millisecond) (now - t.last_ka)
    then (
      record t { last_ka = now },
      rdt 0x01 0x00 tun_my_conn 0 []
          ∷ (if f.pump_started && ltb 0 f.pump_next
              then cumulative_ack t.dev_conn f.pump_next ∷ []
              else []),
    )
    else (t, [])

-- `sendReliable(0x02, 0x01, t.devConn, p)`, of one payload behind the other.
unfoldable pub send_all : {F : Type 0} → Outflow F → ℕ → List Bytes → ℕ → Outflow F × List RdtPacket
send_all t conn [] now = (t, [])
send_all t conn (p ∷ ps) now =
    let (t', out) = send_reliable t 0x02 0x01 conn p now in
    let (t'', more) = send_all t' conn ps now in (t'', out ∷ more)

-- The loop that moves queued writes to `pending`, up to a limit.
unfoldable pub take_writes : ℕ → Bytes → List (ℕ × Bytes) → Bytes × List (ℕ × Bytes)
take_writes limit pending [] = (pending, [])
take_writes limit pending ((idx, p) ∷ queue) =
    let rest = take_writes limit (pending ++ data_chunk idx p) queue in
    if ltb (length pending) limit then rest else (pending, (idx, p) ∷ queue)

abbrev pub payloads_of : Option Bytes → List Bytes
payloads_of none = []
payloads_of (some p) = p ∷ []

-- Stall recovery: duplicate ACKs where frames lie beyond a hole, and one where none do.
unfoldable pub stall_recovery : {F : Type 0} → Pump F → ℕ → Pump F × List RdtPacket
stall_recovery t now =
    let f = t.inward.flow in
    let ack = if ltb 0 f.pump_next then cumulative_ack t.dev_conn f.pump_next ∷ [] else [] in
    if f.pump_started && ltb (2000 * millisecond) (now - t.last_advance)
    then (
      record t { last_advance = now - 1500 * millisecond },
      if leb f.pump_next f.recv.max_seq then ack ++ ack else ack,
    )
    else (t, [])

-- The stage that consumes what has arrived: the cumulative ACK, the messages routed, and the
-- payloads that routing sends.
unfoldable pub consume_stage : {F : Type 0} → Pump F → ℕ → List RdtPacket → Pump F × List RdtPacket
consume_stage t now fs =
    let (f', _, ack) = pull t.inward.flow fs in
    let (inward', ms) = inbound_round t.inward fs in
    let (channels', replies) = route_all t.channels ms in
    let (flow', sent) = send_all t.flow t.dev_conn replies now in
    let moved = elim ack as (λ _. Bool) [ none ↦ false | some k ↦ true ] in
    (
      record t {
        flow = flow';
        inward = inward';
        channels = channels';
        last_advance =
            if moved || (f'.pump_started && not t.inward.flow.pump_started)
            then now
            else t.last_advance;
      },
      (if moved then cumulative_ack t.dev_conn f'.pump_next ∷ [] else []) ++ sent,
    )

module _ {F : Type 0} (fl : Float64 F) where
  -- The device's ACKs among the frames read. They act on the sender alone, and the data frames on the
  -- reassembler alone, so that each kind is a pass of its own.
  unfoldable pub ack_frame : Outflow F → ℕ → RdtPacket → Outflow F × List RdtPacket
  ack_frame t now f = if f.type == 0x46 then ack_outbound fl t f.seq now else (t, [])

  unfoldable pub ack_all : Outflow F → ℕ → List RdtPacket → Outflow F × List RdtPacket
  ack_all t now [] = (t, [])
  ack_all t now (f ∷ fs) =
      let (t', out) = ack_frame t now f in let (t'', more) = ack_all t' now fs in (t'', out ++ more)

  -- The stage that sends: a pending open, control payloads, and what the window takes of the writes.
  unfoldable pub send_stage : Limits → Pump F → Arrivals → Pump F × List RdtPacket
  send_stage lim t a =
      let (channels', opening) = start_open t.channels in
      let (f₁, out₁) = send_all t.flow t.dev_conn (payloads_of opening) a.now in
      let (f₂, out₂) = send_all f₁ t.dev_conn a.ctrl a.now in
      let (pending', queue') =
        take_writes (lim.send_window * lim.max_frame) t.pending (t.queue ++ a.writes) in
      let (f₃, left, out₃) = fill_window fl (length pending') lim t.dev_conn f₂ pending' a.now in
      (
        record t { flow = f₃; channels = channels'; queue = queue'; pending = left },
        out₁ ++ (out₂ ++ out₃),
      )

  -- An iteration behind its first two tests.
  unfoldable pub pump_work : Limits → Pump F → Arrivals → Pump F × List RdtPacket × Outcome
  pump_work lim t a =
      let (t₁, out₁) = keepalive t a.now in
      let (t₂, out₂) = send_stage lim t₁ a in
      let (f₃, out₃) = ack_all t₂.flow a.now a.frames in
      let (f₄, out₄, failed) = outbound_tick fl f₃ a.now in
      let (t₅, out₅) = consume_stage (record t₂ { flow = f₄ }) a.now a.frames in
      let (t₆, out₆) = stall_recovery t₅ a.now in
      if failed
      then (
        record t₂ {
          flow = f₄;
          inward = record t₂.inward {
            flow = record t₂.inward.flow { recv = receive t₂.inward.flow.recv a.frames };
          };
        },
        out₁ ++ (out₂ ++ (out₃ ++ out₄)),
        stalled,
      )
      else (t₆, out₁ ++ (out₂ ++ (out₃ ++ (out₄ ++ (out₅ ++ out₆)))), running)

  -- An iteration of `pump`; a `liveness` of 0 turns its test off.
  unfoldable pub pump_round : Limits → ℕ → Pump F → Arrivals → Pump F × List RdtPacket × Outcome
  pump_round lim liveness t a =
      if a.closed
      then (t, [], shut)
      else if ltb 0 liveness && ltb liveness a.since_rx
      then (t, [], silent)
      else pump_work lim t a

  -- `pump`, until an iteration ends it.
  unfoldable pub pump_run : Limits → ℕ → Pump F → List Arrivals → Pump F × List RdtPacket × Outcome
  pump_run lim liveness t [] = (t, [], running)
  pump_run lim liveness t (a ∷ later) =
      let (t', out, o) = pump_round lim liveness t a in
      let (t'', more, o') = pump_run lim liveness t' later in
      elim o [ running ↦ (t'', out ++ more, o') | other ↦ (t', out, other) ]
