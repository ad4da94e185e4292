-- ===== src/Kalay/GoBackN/Runs.antt =====
-- Whole runs of the sender: what was submitted, acknowledged and timed out, in any order.
use seestar_remote.Base.{
  ℕ, ◌+◌, ◌-◌, ◌^◌, ◌≤◌, ◌<◌, ◌≡◌, refl, true, List, [], ◌∷◌, ◌++◌, length, All, All-append, arith,
}
use seestar_remote.Base.Bytes.{Bytes}
use seestar_remote.Base.AssocMap.{lookup}
use seestar_remote.Kalay.Rdt.{RdtPacket}
use seestar_remote.Kalay.GoBackN.{
  Float64, gbn_give_up, Outflow, send_reliable, init_go_back_n, ack_outbound, outbound_tick,
}
use seestar_remote.Kalay.GoBackN.Timing.{
  IsTimely, tick_stalls, ack_progress, tick_progress, ack_outbound-IsTimely, outbound_tick-IsTimely,
}
use seestar_remote.Kalay.GoBackN.Window.{
  IsWindow, send_reliable-IsWindow, ack_outbound-IsWindow, outbound_tick-IsWindow, ack_tx, tick_tx,
}

-- What `pump` does with the sender: a frame submitted, an acknowledgement received, a tick.
pub data Event : Type 0 where
  submit : ℕ → ℕ → ℕ → Bytes → ℕ → Event
  acked : ℕ → ℕ → Event
  tick : ℕ → Event

-- The frames submitted, numbered from `s` on.
abbrev pub submitted : ℕ → List Event → List RdtPacket
submitted s [] = []
submitted s (submit type b16 conn payload now ∷ es) =
    record { type = type; seq = s; b16 = b16; conn_id = conn; payload = payload }
    ∷ submitted (s + 1) es
submitted s (acked ack now ∷ es) = submitted s es
submitted s (tick now ∷ es) = submitted s es

send_tx :
    {F : Type 0} (t : Outflow F) (type b16 conn : ℕ) (payload : Bytes) (now : ℕ)
    → t.tx_seq < 2 ^ 64 - 1
    → (send_reliable t type b16 conn payload now).0.tx_seq ≡ t.tx_seq + 1
unfolding send_reliable
send_tx t type b16 conn payload now lt = omega arith

send_packet :
    {F : Type 0} (t : Outflow F) (type b16 conn : ℕ) (payload : Bytes) (now : ℕ)
    → (send_reliable t type b16 conn payload now).1
      ≡ record { type = type; seq = t.tx_seq; b16 = b16; conn_id = conn; payload = payload }
unfolding send_reliable
send_packet t type b16 conn payload now = refl

module _ {F : Type 0} (fl : Float64 F) where
  abbrev pub step : Outflow F → Event → Outflow F × List RdtPacket
  step t (submit type b16 conn payload now) =
      let (t', p) = send_reliable t type b16 conn payload now in (t', p ∷ [])
  step t (acked ack now) = ack_outbound fl t ack now
  step t (tick now) = let (t', out, _) = outbound_tick fl t now in (t', out)

  step_progress :
      (t : Outflow F) (e : Event)
      → let t' = (step t e).0 in
        (t.send_base ≤ t'.send_base) × (t'.send_base ≡ t.send_base → t'.last_prog ≡ t.last_prog)
  unfolding send_reliable
  step_progress t (submit type b16 conn payload now) = (omega arith, λ _. refl)
  step_progress t (acked ack now) = ack_progress fl t ack now
  step_progress t (tick now) = let (e, e') = tick_progress fl t now in (omega arith, λ _. e')

  unfoldable pub run : Outflow F → List Event → Outflow F × List RdtPacket
  run t [] = (t, [])
  run t (e ∷ es) = let (t', out) = step t e in let (t'', more) = run t' es in (t'', out ++ more)

  module _ (P : RdtPacket → Type 0) where
    run-IsWindow :
        (t : Outflow F) (es : List Event)
        → IsWindow P t
        → t.tx_seq + length es < 2 ^ 64
        → All P (submitted t.tx_seq es)
        → let (t', out) = run t es in IsWindow P t' × All P out
    unfolding run
    run-IsWindow t [] h few ps = (h, tt)
    run-IsWindow t (submit type b16 conn payload now ∷ es) h few (p, ps) =
        let t' = (send_reliable t type b16 conn payload now).0 in
        let e = send_tx t type b16 conn payload now (omega arith) in
        let good : P (send_reliable t type b16 conn payload now).1 =
          rw (send_packet t type b16 conn payload now) p in
        let h' = send_reliable-IsWindow fl P t type b16 conn payload now (omega arith) h good in
        let (window, rest) = run-IsWindow t' es h' (rw e (omega arith)) (rw e ps) in
        (window, (good, rest))
    run-IsWindow t (acked ack now ∷ es) h few ps =
        let (h', out) = ack_outbound-IsWindow fl P t ack now h in
        let e = ack_tx fl P t ack now in
        let (window, rest) =
          run-IsWindow (ack_outbound fl t ack now).0 es h' (rw e (omega arith)) (rw e ps) in
        (window, All-append P _ _ out rest)
    run-IsWindow t (tick now ∷ es) h few ps =
        let (h', out) = outbound_tick-IsWindow fl P t now h in
        let e = tick_tx fl P t now in
        let (window, rest) =
          run-IsWindow (outbound_tick fl t now).0 es h' (rw e (omega arith)) (rw e ps) in
        (window, All-append P _ _ out rest)

  -- The send base only moves up, and while it stands, so does the time of the last progress.
  pub run_progress :
      (t : Outflow F) (es : List Event)
      → let t' = (run t es).0 in
        (t.send_base ≤ t'.send_base) × (t'.send_base ≡ t.send_base → t'.last_prog ≡ t.last_prog)
  unfolding run
  run_progress t [] = (omega arith, λ _. refl)
  run_progress t (e ∷ es) =
      let t' = (step t e).0 in
      let (up, still) = step_progress t e in
      let (up', still') = run_progress t' es in (omega arith, λ same. ground (arith, still', still))

  -- From the start of `pump`, whatever the order of submissions, acknowledgements and ticks: the
  -- frames buffered are those from `send_base` up to `tx_seq`, and every packet that goes over the
  -- wire, retransmissions included, is one of the frames submitted, with its number and bytes.
  pub run-init-IsWindow :
      (P : RdtPacket → Type 0) (t : Outflow F) (start : ℕ) (es : List Event)
      → t.tx_seq + length es < 2 ^ 64
      → All P (submitted t.tx_seq es)
      → let (t', out) = run (init_go_back_n fl t start) es in IsWindow P t' × All P out
  unfolding init_go_back_n lookup
  run-init-IsWindow P t start es few ps =
      run-IsWindow P (init_go_back_n fl t start) es
        (record { order = omega arith; exact = λ k. ground arith; genuine = λ k f held. cc }) few ps

  run-IsTimely : (t : Outflow F) (es : List Event) → IsTimely t → IsTimely (run t es).0
  unfolding run send_reliable
  run-IsTimely t [] h = h
  run-IsTimely t (submit type b16 conn payload now ∷ es) h =
      run-IsTimely (send_reliable t type b16 conn payload now).0 es h
  run-IsTimely t (acked ack now ∷ es) h =
      run-IsTimely (ack_outbound fl t ack now).0 es (ack_outbound-IsTimely fl t ack now h)
  run-IsTimely t (tick now ∷ es) h =
      run-IsTimely (outbound_tick fl t now).0 es (outbound_tick-IsTimely fl t now h)

  -- At the end of any run from the start of `pump` the retransmission timeout lies between 250 ms
  -- and 3 s.
  pub run-init-IsTimely :
      (t : Outflow F) (start : ℕ) (es : List Event)
      → IsTimely (run (init_go_back_n fl t start) es).0
  unfolding init_go_back_n
  run-init-IsTimely t start es =
      run-IsTimely (init_go_back_n fl t start) es (omega arith, omega arith)

  -- A stream that makes no progress is given up: when frames are unacknowledged and the
  -- acknowledgements of a run have not moved the send base, a tick more than 30 seconds after the
  -- time of the last progress returns the error.
  pub run-stalled :
      (t : Outflow F) (es : List Event) (now : ℕ)
      → (run t es).0.send_base ≡ t.send_base
      → (run t es).0.send_base < (run t es).0.tx_seq
      → gbn_give_up < now - t.last_prog
      → (outbound_tick fl (run t es).0 now).2 ≡ true
  run-stalled t es now same busy late =
      let t' = (run t es).0 in ground (arith, run_progress t es, tick_stalls fl t' now)
