-- ===== src/Kalay/Inbound/EndToEnd.antt =====
-- The whole inbound half of `pump`, over any sequence of iterations.
use seestar_remote.Base.{
  ℕ, ◌-◌, ◌≤◌, ◌<◌, ◌≡◌, refl, sym, ap, ◌∙◌, subst, fun_ext, Bool, true, false, ◌||◌, List, [], ◌∷◌,
  ◌++◌, append_assoc, append-nil, flatten, Bool-cases, inl, inr, false≢true, All, arith,
}
use seestar_remote.Base.Bytes.{Bytes}
use seestar_remote.Base.AssocMap.{lookup}
use seestar_remote.Kalay.Rdt.{RdtPacket}
use seestar_remote.Kalay.Channel.{PTunMsg, demux_pass, feed}
use seestar_remote.Kalay.Channel.Demux.{feed_any_cut, demux_pass-nil}
use seestar_remote.Kalay.Reassembler.Contiguous.{new_reassembler-IsFilled}
use seestar_remote.Kalay.Inbound.{
  Inflow, start_pump, pull, Inbound, new_inbound, inbound_round, inbound,
}
use seestar_remote.Kalay.Inbound.Pull.{payloads}
use seestar_remote.Kalay.Inbound.Receive.{any_carries, IsHonest}
use seestar_remote.Kalay.Inbound.Delivery.{IsFlowing, Stands, pull-Stands}

-- The iterations without the demultiplexer: what each appends to `pbuf`.
pulls : Inflow → List (List RdtPacket) → Inflow × List Bytes
pulls t [] = (t, [])
pulls t (fs ∷ rest) =
    let (t', bytes, _) = pull t fs in let (t'', more) = pulls t' rest in (t'', bytes ∷ more)

-- A data frame with the number `k` is among the frames of some iteration.
abbrev pub received : List (List RdtPacket) → ℕ → Bool
received [] k = false
received (fs ∷ rest) k = any_carries fs k || received rest k

pull_quiet :
    (t : Inflow) (fs : List RdtPacket)
    → (pull t fs).0.pump_started ≡ false
    → ((pull t fs).1 ≡ []) × (t.pump_started ≡ false)
unfolding pull start_pump
pull_quiet t fs e = ground arith

inbound_round_flowing :
    (t : Inbound) (fs : List RdtPacket)
    → (pull t.flow fs).0.pump_started ≡ true
    → let (flow', bytes, _) = pull t.flow fs in
      let (kept, ms) = demux_pass (t.pbuf ++ bytes) in
      inbound_round t fs ≡ (record { flow = flow'; pbuf = kept }, ms)
unfolding inbound_round
inbound_round_flowing t fs e = simp e refl

inbound_round_idle :
    (t : Inbound) (fs : List RdtPacket)
    → (pull t.flow fs).0.pump_started ≡ false
    → t.pbuf ≡ []
    → let (flow', bytes, _) = pull t.flow fs in
      let (kept, ms) = demux_pass (t.pbuf ++ bytes) in
      inbound_round t fs ≡ (record { flow = flow'; pbuf = kept }, ms)
unfolding inbound_round
inbound_round_idle t fs e none_kept =
    let (nothing, _) = pull_quiet t.flow fs e in
    rw (nothing, none_kept, demux_pass-nil) (simp e refl)

-- Either way the bytes pulled go through the demultiplexer, behind the tail.
inbound_round-demux_pass :
    (t : Inbound) (fs : List RdtPacket)
    → (t.flow.pump_started ≡ false → t.pbuf ≡ [])
    → let (flow', bytes, _) = pull t.flow fs in
      let (kept, ms) = demux_pass (t.pbuf ++ bytes) in
      (inbound_round t fs ≡ (record { flow = flow'; pbuf = kept }, ms))
      × (flow'.pump_started ≡ false → kept ≡ [])
inbound_round-demux_pass t fs quiet = elim (Bool-cases (pull t.flow fs).0.pump_started) [
  | inl on ↦ (inbound_round_flowing t fs on, λ off. absurd (false≢true (sym off ∙ on)))
  | inr off ↦
      let (nothing, before) = pull_quiet t.flow fs off in
      (
        inbound_round_idle t fs off (quiet before),
        λ _. rw (nothing, quiet before, demux_pass-nil) refl,
      )
]

-- Demultiplexing as the bytes come is feeding the pieces to the demultiplexer.
inbound-feed :
    (t : Inbound) (batches : List (List RdtPacket))
    → (t.flow.pump_started ≡ false → t.pbuf ≡ [])
    → let (flow', pieces) = pulls t.flow batches in
      let (kept, ms) = feed t.pbuf pieces in
      inbound t batches ≡ (record { flow = flow'; pbuf = kept }, ms)
unfolding inbound pulls feed
inbound-feed t [] quiet = refl
inbound-feed t (fs ∷ rest) quiet =
    let (e, quiet') = inbound_round-demux_pass t fs quiet in
    let t' : Inbound = record {
      flow = (pull t.flow fs).0;
      pbuf = (demux_pass (t.pbuf ++ (pull t.flow fs).1)).0;
    } in
    rw (e, inbound-feed t' rest quiet') refl

module _ (stream : ℕ → Bytes) where
  Stands-ext :
      {rx rx' : ℕ → Bool} {t : Inflow} {total total' : Bytes}
      → ((k : ℕ) → rx k ≡ rx' k)
      → total ≡ total'
      → Stands stream rx t total
      → Stands stream rx' t total'
  Stands-ext {t} {total = total} {total'} e e' h =
      rw (← e') (subst (λ f. Stands stream f t total) (fun_ext e) h)

  pulls-Stands :
      (rx : ℕ → Bool) (t : Inflow) (total : Bytes) (batches : List (List RdtPacket))
      → Stands stream rx t total
      → All (All (IsHonest stream)) batches
      → Stands stream
          (λ k. rx k || received batches k)
          (pulls t batches).0
          (total ++ flatten (pulls t batches).1)
  unfolding pulls flatten
  pulls-Stands rx t total [] h hs = Stands-ext (λ k. ground arith) (sym (append-nil total)) h
  pulls-Stands rx t total (fs ∷ rest) h hs =
      Stands-ext (λ k. ground arith) (append_assoc total (pull t fs).1 _)
        (pulls-Stands (λ k. rx k || any_carries fs k) (pull t fs).0 (total ++ (pull t fs).1) rest
          (pull-Stands stream rx t total fs h hs.0) hs.1)

  pub idle_at_first : Stands stream (λ k. false) new_inbound.flow []
  unfolding lookup
  idle_at_first = inl (
    record {
      waits = refl;
      gathered = record {
        filled = new_reassembler-IsFilled;
        honest = λ k v e. cc;
        waiting = λ k v e. cc;
        complete = λ k e. cc;
      };
      unset = refl;
    },
    refl,
  )

  -- What has been delivered once data frames have arrived: the messages of the stream between the
  -- frame `first` and the frame `pump_next`.
  pub record IsDelivered (batches : List (List RdtPacket)) (first : ℕ) (t : Inbound)
      (ms : List PTunMsg) : Type 0 where
    pub seen : received batches first ≡ true
    pub order : first < t.flow.pump_next
    pub routed : (t.pbuf, ms) ≡ demux_pass (payloads stream first (t.flow.pump_next - first))
    pub passed : (k : ℕ) → first ≤ k → k < t.flow.pump_next → received batches k ≡ true
    pub blocked : received batches t.flow.pump_next ≡ false

  flowing_blocked :
      (rx : ℕ → Bool) (first : ℕ) (t : Inflow) (total : Bytes)
      → IsFlowing stream rx first t total
      → rx t.pump_next ≡ false
  flowing_blocked rx first t total h = elim (Bool-cases (rx t.pump_next)) [
    | inl e ↦ absurd (ground (arith, h.holding.complete t.pump_next e (omega arith), h.dry))
    | inr e ↦ e
  ]

  -- Whatever frames of the device's stream arrive, in whatever batches, order and number, once
  -- `pump` has started there is a received frame `first` such that the messages routed and the tail
  -- kept are those of one pass over the stream's bytes from `first` up to `pump_next`, all of these
  -- frames have been received, and `pump_next` has not.
  pub inbound-IsDelivered :
      (batches : List (List RdtPacket))
      → All (All (IsHonest stream)) batches
      → (inbound new_inbound batches).0.flow.pump_started ≡ true
      → let (t, ms) = inbound new_inbound batches in (first : ℕ) × IsDelivered batches first t ms
  inbound-IsDelivered batches h =
      let e = inbound-feed new_inbound batches (λ _. refl) in
      rw e (λ started.
        elim (pulls-Stands (λ k. false) new_inbound.flow [] batches idle_at_first h) [
          | inl (idle, _) ↦ absurd (false≢true (sym idle.waits ∙ started))
          | inr (first, seen, flowing) ↦ (
            first,
            record {
              seen = seen;
              order = flowing.order;
              routed =
                  feed_any_cut (pulls new_inbound.flow batches).1 ∙ ap demux_pass flowing.stretch;
              passed = flowing.passed;
              blocked = flowing_blocked _ first _ _ flowing;
            },
          )
        ])
