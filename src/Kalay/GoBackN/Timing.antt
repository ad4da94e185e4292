-- ===== src/Kalay/GoBackN/Timing.antt =====
-- The timers: retransmission, its timeout, the congestion window and giving up.
use seestar_remote.Base.{
  ℕ, zero, suc, ◌+◌, ◌-◌, ◌*◌, ◌^◌, ◌≤◌, ◌<◌, ◌≡◌, ◌≢◌, refl, true, false, none, some, List, [],
  ◌∷◌, ltb, leb, ◌⊎◌, if◌then◌else◌, Bool-cases, Option-cases, inl, inr, arith,
}
use seestar_remote.Base.AssocMap.{lookup}
use seestar_remote.Kalay.Rdt.{RdtPacket}
use seestar_remote.Kalay.GoBackN.{
  Float64, Limits, OutFrame, Outflow, packet, clamp_rto, towards, sample_rtt, sample_acked, rto_min,
  rto_max, gbn_give_up, cwnd_min, cwnd_frames, cwnd_cut_half, resend_oldest, advance, duplicate_ack,
  ack_outbound, backoff, retry, outbound_tick,
}
use seestar_remote.Kalay.GoBackN.Window.{IsWindow, resend_some}

-- The timeout lies in its range.
abbrev pub IsTimely : {F : Type 0} → Outflow F → Type 0
IsTimely t = (rto_min ≤ t.rto) × (t.rto ≤ rto_max)

clamp_rto-bounds : (d : ℕ) → (rto_min ≤ clamp_rto d) × (clamp_rto d ≤ rto_max)
unfolding clamp_rto
clamp_rto-bounds d = ground arith

sample_rtt-IsTimely : {F : Type 0} (t : Outflow F) (s : ℕ) → IsTimely (sample_rtt t s)
unfolding sample_rtt
sample_rtt-IsTimely t s = clamp_rto-bounds _

sample_acked-some :
    {F : Type 0} (t : Outflow F) (ack now : ℕ) (f : OutFrame)
    → lookup ack t.inflight ≡ some f
    → sample_acked t ack now ≡ (if f.retx then t else sample_rtt t (now - f.sent_at))
unfolding sample_acked
sample_acked-some t ack now f e = rw (e, sample_acked) refl

sample_acked-none :
    {F : Type 0} (t : Outflow F) (ack now : ℕ)
    → lookup ack t.inflight ≡ none
    → sample_acked t ack now ≡ t
unfolding sample_acked
sample_acked-none t ack now e = rw (e, sample_acked) refl

sample_acked-IsTimely :
    {F : Type 0} (t : Outflow F) (ack now : ℕ) → IsTimely t → IsTimely (sample_acked t ack now)
sample_acked-IsTimely t ack now h = elim (Option-cases (lookup ack t.inflight)) [
  | inl e ↦ rw (sample_acked-none t ack now e) h
  | inr (f, e) ↦ rw (sample_acked-some t ack now f e) (elim (Bool-cases f.retx) [
    | inl again ↦ simp again h
    | inr once ↦ simp once (sample_rtt-IsTimely t (now - f.sent_at))
  ])
]

-- The smoothed round-trip time stays within any bounds that the sample lies in and, unless it is
-- zero and so unset, the estimate before it.
pub sample_rtt-within :
    {F : Type 0} (t : Outflow F) (s lo hi : ℕ)
    → (lo ≤ s) × (s ≤ hi)
    → (0 < t.srtt → (lo ≤ t.srtt) × (t.srtt ≤ hi))
    → (lo ≤ (sample_rtt t s).srtt) × ((sample_rtt t s).srtt ≤ hi)
unfolding sample_rtt towards
sample_rtt-within t s lo hi h h' = ground (arith, h')

shift-bounds : (r m : ℕ) → m ≤ 4 → (r ≤ r * 2 ^ m) × (r * 2 ^ m ≤ 16 * r)
shift-bounds r zero h = omega arith
shift-bounds r (suc zero) h = omega arith
shift-bounds r (suc (suc zero)) h = omega arith
shift-bounds r (suc (suc (suc zero))) h = omega arith
shift-bounds r (suc (suc (suc (suc zero)))) h = omega arith
shift-bounds r (suc (suc (suc (suc (suc m))))) h = absurd (omega arith)

-- The wait is the timeout, doubled at most four times.
backoff_lem : {F : Type 0} (t : Outflow F) → (t.rto ≤ backoff t) × (backoff t ≤ 16 * t.rto)
backoff_lem t = shift-bounds t.rto (if ltb t.retx_run 4 then t.retx_run else 4) (ground arith)

module _ {F : Type 0} (fl : Float64 F) where
  -- A retransmission that is due sends exactly the oldest unacknowledged frame.
  resend_oldest-out :
      (P : RdtPacket → Type 0) (t : Outflow F) (now : ℕ)
      → IsWindow P t
      → t.send_base < t.tx_seq
      → (f : OutFrame) × (lookup t.send_base t.inflight ≡ some f)
        × ((resend_oldest fl t now).1 ≡ packet t.send_base f ∷ [])
  resend_oldest-out P t now h busy = elim (Option-cases (lookup t.send_base t.inflight)) [
    | inl e ↦ absurd (ground (arith, h.exact t.send_base))
    | inr (f, e) ↦ (f, e, rw (resend_some fl P t f now e) refl)
  ]

  -- Between the two limits, or `send_window` where that is the smaller.
  pub cwnd_frames-bounds :
      (lim : Limits) (t : Outflow F)
      → (cwnd_frames fl lim t ≤ lim.send_window)
        × (cwnd_min ≤ lim.send_window → cwnd_min ≤ cwnd_frames fl lim t)
  unfolding cwnd_frames
  cwnd_frames-bounds lim t = ground arith

  resend_kept :
      (t : Outflow F) (now : ℕ)
      → let t' = (resend_oldest fl t now).0 in
        (t'.send_base ≡ t.send_base)
        × (t'.tx_seq ≡ t.tx_seq)
        × (t'.last_prog ≡ t.last_prog)
        × (t'.rto ≡ t.rto)
        × (t'.last_retx ≡ now)
        × (t'.retx_run ≡ t.retx_run)
  unfolding resend_oldest cwnd_cut_half
  resend_kept t now = ground arith

  pub tick_progress :
      (t : Outflow F) (now : ℕ)
      → let t' = (outbound_tick fl t now).0 in
        (t'.send_base ≡ t.send_base) × (t'.last_prog ≡ t.last_prog)
  unfolding outbound_tick retry
  tick_progress t now = ground (arith, resend_kept t now)

  pub ack_progress :
      (t : Outflow F) (ack now : ℕ)
      → let t' = (ack_outbound fl t ack now).0 in
        (t.send_base ≤ t'.send_base) × (t'.send_base ≡ t.send_base → t'.last_prog ≡ t.last_prog)
  unfolding ack_outbound advance duplicate_ack
  ack_progress t ack now = ground (arith, resend_kept (record t { dup_acks = t.dup_acks + 1 }) now)

  pub outbound_tick-IsTimely :
      (t : Outflow F) (now : ℕ) → IsTimely t → IsTimely (outbound_tick fl t now).0
  unfolding outbound_tick retry
  outbound_tick-IsTimely t now h = ground (arith, resend_kept t now)

  pub ack_outbound-IsTimely :
      (t : Outflow F) (ack now : ℕ) → IsTimely t → IsTimely (ack_outbound fl t ack now).0
  unfolding ack_outbound advance duplicate_ack
  ack_outbound-IsTimely t ack now h = ground (
    arith,
    sample_acked-IsTimely t ack now h,
    resend_kept (record t { dup_acks = t.dup_acks + 1 }) now,
  )

  -- A tick with frames unacknowledged.
  tick_busy :
      (P : RdtPacket → Type 0) (t : Outflow F) (now : ℕ)
      → IsWindow P t
      → t.send_base < t.tx_seq
      → (f : OutFrame) × (lookup t.send_base t.inflight ≡ some f)
        × ((outbound_tick fl t now).1
            ≡ (if ltb (backoff t) (now - t.last_retx) then packet t.send_base f ∷ [] else []))
        × ((outbound_tick fl t now).2 ≡ ltb gbn_give_up (now - t.last_prog))
  unfolding outbound_tick retry
  tick_busy P t now h busy =
      let (f, held, out) = resend_oldest-out P t now h busy in
      (f, held, ground arith, ground (arith, resend_kept t now))

  -- Whether the tick fails.
  pub tick_stalls :
      (t : Outflow F) (now : ℕ)
      → t.send_base < t.tx_seq
      → (outbound_tick fl t now).2 ≡ ltb gbn_give_up (now - t.last_prog)
  unfolding outbound_tick retry
  tick_stalls t now busy = ground (arith, resend_kept t now)

  tick_sent :
      (t : Outflow F) (now : ℕ)
      → (outbound_tick fl t now).1 ≢ []
      → let t' = (outbound_tick fl t now).0 in (t'.last_retx ≡ now) × (t'.rto ≡ t.rto)
  unfolding outbound_tick retry
  tick_sent t now sent = ground (arith, resend_kept t now)

  tick_early :
      (t : Outflow F) (now : ℕ) → now - t.last_retx ≤ t.rto → (outbound_tick fl t now).1 ≡ []
  unfolding outbound_tick retry
  tick_early t now soon = ground (arith, backoff_lem t)

  -- After a tick that sent a frame again, no tick sends anything before the timeout has passed.
  pub tick-tick_quiet :
      (t : Outflow F) (now later : ℕ)
      → (outbound_tick fl t now).1 ≢ []
      → later - now ≤ t.rto
      → (outbound_tick fl (outbound_tick fl t now).0 later).1 ≡ []
  tick-tick_quiet t now later sent soon =
      let (e, e') = tick_sent t now sent in
      tick_early (outbound_tick fl t now).0 later (rw (e, e') soon)

  tick_idle :
      (t : Outflow F) (now : ℕ) → t.tx_seq ≤ t.send_base → outbound_tick fl t now ≡ (t, [], false)
  unfolding outbound_tick
  tick_idle t now idle = let e : leb t.tx_seq t.send_base ≡ true = ground arith in rw e refl

  tick_once :
      (t : Outflow F) (now later : ℕ)
      → later - now ≤ t.rto
      → ((outbound_tick fl t now).1 ≡ [])
        ⊎ ((outbound_tick fl (outbound_tick fl t now).0 later).1 ≡ [])
  tick_once t now later soon = by_output (outbound_tick fl t now).1 refl
    where
      by_output :
          (out : List RdtPacket)
          → (outbound_tick fl t now).1 ≡ out
          → ((outbound_tick fl t now).1 ≡ [])
            ⊎ ((outbound_tick fl (outbound_tick fl t now).0 later).1 ≡ [])
      by_output [] e = inl e
      by_output (p ∷ ps) e = inr (tick-tick_quiet t now later (λ none_sent. absurd (cc)) soon)

  -- With nothing unacknowledged a tick does nothing. Otherwise it sends the oldest frame and no other,
  -- and only when the timeout has passed, and it fails exactly when the last progress is more than 30
  -- seconds ago. Of two ticks no further apart than the timeout, one at most sends a frame.
  pub outbound_tick-outcome :
      (P : RdtPacket → Type 0) (t : Outflow F) (now later : ℕ)
      → IsWindow P t
      → later - now ≤ t.rto
      → (((t.tx_seq ≤ t.send_base) × (outbound_tick fl t now ≡ (t, [], false)))
          ⊎ ((t.send_base < t.tx_seq)
              × (f : OutFrame) × (lookup t.send_base t.inflight ≡ some f)
              × ((outbound_tick fl t now).1
                  ≡ (if ltb (backoff t) (now - t.last_retx) then packet t.send_base f ∷ [] else []))
              × ((outbound_tick fl t now).2 ≡ ltb gbn_give_up (now - t.last_prog))))
        × (((outbound_tick fl t now).1 ≡ [])
            ⊎ ((outbound_tick fl (outbound_tick fl t now).0 later).1 ≡ []))
  outbound_tick-outcome P t now later h soon = (
    elim (Bool-cases (ltb t.send_base t.tx_seq)) [
      | inl busy ↦
          let (f, held, out, fails) = tick_busy P t now h (ground arith) in
          inr (ground arith, f, held, out, fails)
      | inr idle ↦ inl (ground arith, tick_idle t now (ground arith))
    ],
    tick_once t now later soon,
  )
