-- ===== src/Kalay/Examples/Pumping.antt =====
-- `setup` and `pump` on concrete runs.
use seestar_remote.Base.{
  ℕ, ◌+◌, ◌*◌, ◌/◌, ◌≡◌, refl, false, none, some, List, [], ◌∷◌, ◌++◌, if◌then◌else◌, ltb, All,
  arith,
}
use seestar_remote.Base.Bytes.{Bytes}
use seestar_remote.Base.AssocMap.{lookup}
use seestar_remote.Kalay.Rdt.{RdtPacket}
use seestar_remote.Kalay.GoBackN.{
  Float64, Limits, millisecond, outbound_tick, fill_window, cwnd_frames, send_reliable, retry,
}
use seestar_remote.Kalay.Inbound.{new_inbound}
use seestar_remote.Kalay.Tunnel.{p2p_port_connect, p2p_connect_addr, start_open}
use seestar_remote.Kalay.Setup.{p2p_session, SetupState, rdt, setup}
use seestar_remote.Kalay.Setup.Exchange.{sent_as, once, setup-once}
use seestar_remote.Kalay.Pump.{
  Pump, Arrivals, running, keepalive, send_all, take_writes, ack_frame, ack_all, send_stage,
  pump_work, pump_round, pump_run,
}
use seestar_remote.Kalay.Channel.{data_chunk}
use seestar_remote.Kalay.Pump.Stages.{IsAckSafe}
use seestar_remote.Kalay.Pump.Acks.{batches_of, pump_run-safe}

-- The device answers, its SYN-ACK twice.
abbrev answers : List (ℕ × List RdtPacket)
answers =
    (0, rdt 0x01 0 9 0 [] ∷ rdt 0x41 0 9 0 [] ∷ rdt 0x41 0 9 0 [] ∷ [])
    ∷ (1, rdt 0x02 1 9 0 (0x08 ∷ 0x00 ∷ []) ∷ [])
    ∷ (2, rdt 0x02 1 9 1 (0x0d ∷ 0x00 ∷ 0x00 ∷ 0x00 ∷ []) ∷ [])
    ∷ []

setup-once_example :
    let (r, out) = setup 4700 0 answers in
    (s : SetupState) × (sent_as 0 out ≡ once s.syn_acked p2p_session)
    × (sent_as 1 out ≡ once s.session_open (p2p_port_connect 0x01 4700))
    × (sent_as 2 out ≡ once s.ready (p2p_connect_addr 0x01 4700))
    × (r ≡ (if s.ready then some (s.dev_conn, 3) else none))
setup-once_example = setup-once 4700 0 answers

-- The congestion window counted in whole frames.
abbrev counted : Float64 ℕ
counted = record {
  of_count = λ n. n;
  plus = λ a b. a + b;
  over = λ a b. a / b;
  less = ltb;
  trunc = λ a. a;
}

abbrev limits : Limits
limits = record { max_frame = 4; send_window = 8 }

-- A pump at its start.
abbrev at_start : Pump ℕ
at_start = record {
  flow = record {
    inflight = [];
    send_base = 3;
    tx_seq = 3;
    srtt = 0;
    rttvar = 0;
    rto = 1000 * millisecond;
    last_retx = 0;
    last_prog = 0;
    dup_acks = 0;
    retx_run = 0;
    last_ack_seq = 0;
    cwnd = 4;
    cwnd_cut = none;
  };
  inward = new_inbound;
  channels = record {
    pending = none;
    next_idx = 2;
    last_idx = 0;
    ctrl_idx = 1;
    rbuf = [];
    chans = [];
    chan_bytes = [];
    tickets = 0;
  };
  queue = [];
  pending = [];
  last_ka = 0;
  last_advance = 0;
  dev_conn = 9;
}

abbrev chunk_stream : ℕ → Bytes
chunk_stream k = 0x02 ∷ 0x01 ∷ 0x01 ∷ 0x00 ∷ 0x61 ∷ []

abbrev frame : ℕ → RdtPacket
frame k = record { type = 0x02; seq = k; b16 = 1; conn_id = 1; payload = chunk_stream k }

abbrev arrive : ℕ → List RdtPacket → Arrivals
arrive now fs = record {
  now = now * millisecond;
  closed = false;
  since_rx = 0;
  ctrl = [];
  writes = (1, 0x62 ∷ []) ∷ [];
  frames = fs;
}

-- Frame 2.
abbrev visits : List Arrivals
visits = arrive 10 (frame 2 ∷ []) ∷ []

visits_go_on : (pump_run counted limits 0 at_start visits).2 ≡ running
unfolding pump_run pump_round pump_work outbound_tick ack_all ack_frame send_stage fill_window
    take_writes keepalive data_chunk send_all start_open cwnd_frames send_reliable retry
visits_go_on = refl

-- Then frame 4 beyond a gap.
pump_run-safe_example :
    let (t', out, o) = pump_run counted limits 0 at_start visits in
    let sent = (pump_round counted limits 0 t' (arrive 20 (frame 4 ∷ []))).1 in
    ((pump_run counted limits 0 at_start (visits ++ (arrive 20 (frame 4 ∷ []) ∷ []))).1
      ≡ out ++ sent)
    × All (IsAckSafe (batches_of visits ++ ((frame 4 ∷ []) ∷ []))) sent
pump_run-safe_example =
    pump_run-safe chunk_stream counted limits 0 at_start visits (arrive 20 (frame 4 ∷ []))
      (λ k f e. unfold lookup in cc) refl (((λ e. (refl, omega arith)), tt), tt)
      ((λ e. (refl, omega arith)), tt) visits_go_on
