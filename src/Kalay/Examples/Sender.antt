-- ===== src/Kalay/Examples/Sender.antt =====
-- The sender of the reliable stream on concrete runs.
use seestar_remote.Base.{
  ◌⊎◌, ℕ, ◌+◌, ◌-◌, ◌*◌, ◌/◌, ◌≤◌, ◌<◌, ◌≡◌, refl, true, false, none, some, List, [], ◌∷◌, ltb,
  if◌then◌else◌, All, arith,
}
use seestar_remote.Base.AssocMap.{lookup, insert, delete}
use seestar_remote.Kalay.Rdt.{RdtPacket}
use seestar_remote.Kalay.GoBackN.{
  Float64, Limits, OutFrame, Outflow, packet, millisecond, gbn_give_up, init_go_back_n,
  resend_oldest, cwnd_cut_half, is_cut_recently, backoff, retry, outbound_tick, fill_window,
}
use seestar_remote.Kalay.GoBackN.Window.{IsWindow}
use seestar_remote.Kalay.GoBackN.Runs.{
  Event, submit, acked, tick, run, run-init-IsWindow, run-init-IsTimely, run-stalled,
}
use seestar_remote.Kalay.GoBackN.Timing.{IsTimely, outbound_tick-outcome}
use seestar_remote.Kalay.GoBackN.Framing.{IsFramed, fill_window-IsFramed}

-- The numbers of the congestion window, counted in whole frames.
abbrev whole : Float64 ℕ
whole = record {
  of_count = λ n. n;
  plus = λ a b. a + b;
  over = λ a b. a / b;
  less = ltb;
  trunc = λ a. a;
}

abbrev fresh : Outflow ℕ
fresh = record {
  inflight = [];
  send_base = 0;
  tx_seq = 3;
  srtt = 0;
  rttvar = 0;
  rto = 0;
  last_retx = 0;
  last_prog = 0;
  dup_acks = 0;
  retx_run = 0;
  last_ack_seq = 0;
  cwnd = 0;
  cwnd_cut = none;
}

-- Two frames, an acknowledgement of the first, and a tick after the timeout.
abbrev events : List Event
events =
    submit 2 1 9 (0x61 ∷ []) 0
    ∷ submit 2 1 9 (0x62 ∷ []) 0
    ∷ acked 3 (20 * millisecond)
    ∷ tick (900 * millisecond)
    ∷ []

-- Every packet goes out under a number of the two frames'.
abbrev IsNumbered : RdtPacket → Type 0
IsNumbered p = (3 ≤ p.seq) × (p.seq < 5)

run-init-IsWindow_example :
    let (t', out) = run whole (init_go_back_n whole fresh 0) events in
    IsWindow IsNumbered t' × All IsNumbered out
run-init-IsWindow_example =
    run-init-IsWindow whole IsNumbered fresh 0 events (omega arith)
      ((omega arith, omega arith), ((omega arith, omega arith), tt))

run-init-IsTimely_example : IsTimely (run whole (init_go_back_n whole fresh 0) events).0
run-init-IsTimely_example = run-init-IsTimely whole fresh 0 events

-- One frame in flight, sent at 0 and never acknowledged.
abbrev waiting : Outflow ℕ
waiting = record fresh {
  inflight =
      (3, record { type = 2; b16 = 1; conn = 9; payload = 0x61 ∷ []; sent_at = 0; retx = false })
      ∷ [];
  send_base = 3;
  tx_seq = 4;
  rto = 400 * millisecond;
}

waiting-IsWindow : IsWindow IsNumbered waiting
unfolding lookup
waiting-IsWindow = record {
  order = omega arith;
  exact = λ k. ground arith;
  genuine = λ k f held. ground arith;
}

run-stalled_example :
    (outbound_tick whole
      (run whole waiting (tick (500 * millisecond) ∷ [])).0
      (40000 * millisecond)).2
    ≡ true
unfolding run outbound_tick retry resend_oldest cwnd_cut_half lookup insert delete is_cut_recently
run-stalled_example =
    run-stalled whole waiting (tick (500 * millisecond) ∷ []) (40000 * millisecond) refl
      (omega arith) (omega arith)

outbound_tick-outcome_example :
    let (t', out, fails) = outbound_tick whole waiting (500 * millisecond) in
    (((waiting.tx_seq ≤ 3)
        × (outbound_tick whole waiting (500 * millisecond) ≡ (waiting, [], false)))
      ⊎ ((3 < waiting.tx_seq)
          × (f : OutFrame) × (lookup 3 waiting.inflight ≡ some f)
          × (out ≡ (if ltb (backoff waiting) (500 * millisecond - 0) then packet 3 f ∷ [] else []))
          × (fails ≡ ltb gbn_give_up (500 * millisecond - 0))))
    × ((out ≡ []) ⊎ ((outbound_tick whole t' (600 * millisecond)).1 ≡ []))
outbound_tick-outcome_example =
    outbound_tick-outcome whole IsNumbered waiting (500 * millisecond) (600 * millisecond)
      waiting-IsWindow (omega arith)

abbrev limits : Limits
limits = record { max_frame = 2; send_window = 256 }

fill_window-IsFramed_example :
    let (t', left, out) = fill_window whole 3 limits 9 fresh (5 ∷ 6 ∷ 7 ∷ []) 0 in
    IsFramed whole limits fresh (5 ∷ 6 ∷ 7 ∷ []) t' left out
fill_window-IsFramed_example =
    fill_window-IsFramed whole limits 3 9 0 fresh (5 ∷ 6 ∷ 7 ∷ []) (omega arith) (omega arith)
      (omega arith)
