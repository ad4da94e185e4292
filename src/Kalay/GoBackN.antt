-- ===== src/Kalay/GoBackN.antt =====
-- kalay/gobackn.go: the sender's half of the reliable stream, and the framing loop of `pump` in
-- kalay/tunnelconn.go that feeds it. Times and durations are nanoseconds, and an operation reads
-- the clock once, as `now`.
pub mod Window
pub mod Stock
pub mod Timing
pub mod Runs
pub mod Framing
use seestar_remote.Base.{
  ℕ, zero, suc, ◌+◌, ◌-◌, ◌*◌, ◌/◌, ◌^◌, Bool, true, false, ◌&&◌, ◌||◌, not, Option, none, some,
  List, [], ◌∷◌, ◌++◌, ltb, leb, ◌==◌, if◌then◌else◌, length, take, drop, min,
}
use seestar_remote.Base.Bytes.{Bytes, add64}
use seestar_remote.Base.AssocMap.{lookup, delete, insert}
use seestar_remote.Kalay.Rdt.{RdtPacket}

-- What the congestion window uses of `float64`. `trunc` is the conversion to `int`, with a negative
-- result, which the clamp raises, read as 0.
pub record Float64 (F : Type 0) : Type 0 where
  pub of_count : ℕ → F
  pub plus : F → F → F
  pub over : F → F → F
  pub less : F → F → Bool
  pub trunc : F → ℕ

-- `maxFrame` and `sendWindow`, which the environment sets.
pub record Limits : Type 0 where
  pub max_frame : ℕ
  pub send_window : ℕ

abbrev pub millisecond : ℕ
millisecond = 1000000

abbrev pub gbn_give_up : ℕ
gbn_give_up = 30000 * millisecond

abbrev pub rto_min : ℕ
rto_min = 250 * millisecond

abbrev pub rto_max : ℕ
rto_max = 3000 * millisecond

abbrev pub cwnd_min : ℕ
cwnd_min = 4

abbrev pub cwnd_init : ℕ
cwnd_init = 8

pub record OutFrame : Type 0 where
  pub type : ℕ
  pub b16 : ℕ
  pub conn : ℕ
  pub payload : Bytes
  pub sent_at : ℕ
  pub retx : Bool

-- The fields of `Tunnel` that carry the reliable stream towards the device. `cwnd_cut` is `none`
-- while it is the zero `time.Time`, which lies further back than any timeout.
pub record Outflow (F : Type 0) : Type 0 where
  pub inflight : List (ℕ × OutFrame)
  pub send_base : ℕ
  pub tx_seq : ℕ
  pub srtt : ℕ
  pub rttvar : ℕ
  pub rto : ℕ
  pub last_retx : ℕ
  pub last_prog : ℕ
  pub dup_acks : ℕ
  pub retx_run : ℕ
  pub last_ack_seq : ℕ
  pub cwnd : F
  pub cwnd_cut : Option ℕ

-- The frame as it goes over the wire under a sequence number.
abbrev pub packet : ℕ → OutFrame → RdtPacket
packet seq f = record {
  type = f.type;
  seq = seq;
  b16 = f.b16;
  conn_id = f.conn;
  payload = f.payload;
}

-- The quotient of a signed difference `a - b` by `n`, truncated, added to `b`.
unfoldable pub towards : ℕ → ℕ → ℕ → ℕ
towards n a b = if leb b a then b + (a - b) / n else b - (b - a) / n

abbrev pub abs_diff : ℕ → ℕ → ℕ
abs_diff a b = if leb b a then a - b else b - a

-- `for s := t.sendBase; s < newBase; s++ { delete(t.inflight, s) }`, the rounds counted.
unfoldable pub release : ℕ → ℕ → List (ℕ × OutFrame) → List (ℕ × OutFrame)
release zero s m = m
release (suc rounds) s m = release rounds (s + 1) (delete s m)

unfoldable pub clamp_rto : ℕ → ℕ
clamp_rto d = if ltb d rto_min then rto_min else if ltb rto_max d then rto_max else d

unfoldable pub sample_rtt : {F : Type 0} → Outflow F → ℕ → Outflow F
sample_rtt t s =
    let t' = if t.srtt == 0 then record t { srtt = s; rttvar = s / 2 } else record t {
      srtt = towards 8 s t.srtt;
      rttvar = towards 4 (abs_diff t.srtt s) t.rttvar;
    } in
    record t' { rto = clamp_rto (t'.srtt + 4 * t'.rttvar) }

unfoldable pub send_reliable :
    {F : Type 0} → Outflow F → ℕ → ℕ → ℕ → Bytes → ℕ → Outflow F × RdtPacket
send_reliable t type b16 conn payload now =
    let f : OutFrame = record {
      type = type;
      b16 = b16;
      conn = conn;
      payload = payload;
      sent_at = now;
      retx = false;
    } in
    (
      record t {
        inflight = insert t.tx_seq f t.inflight;
        tx_seq = add64 t.tx_seq 1;
        last_retx = now;
      },
      packet t.tx_seq f,
    )

-- The round-trip sample of an acknowledgement, taken only of a frame that was not sent again.
unfoldable pub sample_acked : {F : Type 0} → Outflow F → ℕ → ℕ → Outflow F
sample_acked t ack now = elim (lookup ack t.inflight) [
  | none ↦ t
  | some f ↦ if f.retx then t else sample_rtt t (now - f.sent_at)
]

-- `t.rto << min(t.retxRun, 4)`
abbrev pub backoff : {F : Type 0} → Outflow F → ℕ
backoff t = t.rto * 2 ^ (if ltb t.retx_run 4 then t.retx_run else 4)

-- `time.Since(t.cwndCut) < t.rto`
unfoldable pub is_cut_recently : {F : Type 0} → Outflow F → ℕ → Bool
is_cut_recently t now = elim t.cwnd_cut [ none ↦ false | some at ↦ ltb (now - at) t.rto ]

module _ {F : Type 0} (fl : Float64 F) where
  unfoldable pub init_go_back_n : Outflow F → ℕ → Outflow F
  init_go_back_n t now = record t {
    inflight = [];
    send_base = t.tx_seq;
    rto = 400 * millisecond;
    last_retx = now;
    last_prog = now;
    cwnd = fl.of_count cwnd_init;
  }

  unfoldable pub cwnd_frames : Limits → Outflow F → ℕ
  cwnd_frames lim t =
      let w = fl.trunc t.cwnd in
      let raised = if ltb w cwnd_min then cwnd_min else w in
      if ltb lim.send_window raised then lim.send_window else raised

  unfoldable pub cwnd_cut_half : Outflow F → ℕ → Outflow F
  cwnd_cut_half t now =
      let half = fl.over t.cwnd (fl.of_count 2) in
      if is_cut_recently t now then t else record t {
        cwnd = if fl.less half (fl.of_count cwnd_min) then fl.of_count cwnd_min else half;
        cwnd_cut = some now;
      }

  unfoldable pub resend_oldest : Outflow F → ℕ → Outflow F × List RdtPacket
  resend_oldest t now = elim (lookup t.send_base t.inflight) [
    | none ↦ (cwnd_cut_half (record t { last_retx = now }) now, [])
    | some f ↦ (
      cwnd_cut_half
          (record t {
            inflight = insert t.send_base (record f { retx = true }) t.inflight;
            last_retx = now;
          })
          now,
      packet t.send_base f ∷ [],
    )
  ]

  -- An acknowledgement that moves the send base.
  unfoldable pub advance : Outflow F → ℕ → ℕ → Outflow F
  advance t ack now =
      let new_base = add64 ack 1 in
      let t' = sample_acked t ack now in
      record t' {
        inflight = release (new_base - t.send_base) t.send_base t.inflight;
        send_base = new_base;
        last_prog = now;
        last_retx = now;
        dup_acks = 0;
        retx_run = 0;
        cwnd = fl.plus t.cwnd (fl.over (fl.of_count (new_base - t.send_base)) t.cwnd);
      }

  -- A repeated acknowledgement; the third sends the oldest frame again.
  unfoldable pub duplicate_ack : Outflow F → ℕ → Outflow F × List RdtPacket
  duplicate_ack t now =
      let t' = record t { dup_acks = t.dup_acks + 1 } in
      let (t'', out) = resend_oldest t' now in
      if leb 3 t'.dup_acks then (record t'' { dup_acks = 0 }, out) else (t', [])

  unfoldable pub ack_outbound : Outflow F → ℕ → ℕ → Outflow F × List RdtPacket
  ack_outbound t ack now =
      let new_base = add64 ack 1 in
      let (t', out) =
        if ltb t.send_base new_base && leb new_base t.tx_seq
        then (advance t ack now, [])
        else if ltb t.send_base t.tx_seq && ack == t.last_ack_seq
        then duplicate_ack t now
        else (t, []) in
      (record t' { last_ack_seq = ack }, out)

  -- The retransmission of `outboundTick`, when the timeout has passed.
  unfoldable pub retry : Outflow F → ℕ → Outflow F × List RdtPacket
  retry t now =
      let (t', out) = resend_oldest t now in
      if ltb (backoff t) (now - t.last_retx)
      then (record t' { retx_run = t'.retx_run + 1 }, out)
      else (t, [])

  -- The tick, with whether it returns the error that the stream has stalled.
  unfoldable pub outbound_tick : Outflow F → ℕ → Outflow F × List RdtPacket × Bool
  outbound_tick t now =
      let (t', out) = retry t now in
      if leb t.tx_seq t.send_base
      then (t, [], false)
      else (t', out, ltb gbn_give_up (now - t'.last_prog))

  -- `for pending.Len() > 0 && t.txSeq-t.sendBase < t.cwndFrames()`, the data frames of `pump`. Each
  -- takes a byte at least, so the number of bytes is fuel enough.
  unfoldable pub fill_window :
      ℕ → Limits → ℕ → Outflow F → Bytes → ℕ → Outflow F × Bytes × List RdtPacket
  fill_window zero lim conn t pending now = (t, pending, [])
  fill_window (suc fuel) lim conn t pending now =
      let n = min lim.max_frame (length pending) in
      let (t', p) = send_reliable t 0x02 0x01 conn (take n pending) now in
      let (t'', left, more) = fill_window fuel lim conn t' (drop n pending) now in
      if ltb 0 (length pending) && ltb (t.tx_seq - t.send_base) (cwnd_frames lim t)
      then (t'', left, p ∷ more)
      else (t, pending, [])
