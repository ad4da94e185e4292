-- ===== src/Kalay/Inbound/Delivery.antt =====
-- Inbound delivery: the messages that `pump` routes are those of the device's stream, whatever the
-- network does to the order and number of the frames.
use seestar_remote.Base.{
  ℕ, zero, suc, ◌+◌, ◌-◌, ◌≤◌, ◌<◌, ◌≡◌, refl, sym, ap, ap₂, ◌∙◌, Bool, true, false, ◌||◌, none,
  some, List, [], ◌++◌, append_assoc, ltb, length, Bool-cases, inl, inr, ◌⊎◌, false≢true, All,
  arith,
}
use seestar_remote.Base.Bytes.{Bytes}
use seestar_remote.Base.AssocMap.{lookup}
use seestar_remote.Kalay.Rdt.{RdtPacket}
use seestar_remote.Kalay.Reassembler.{Reassembler}
use seestar_remote.Kalay.Reassembler.Contiguous.{is_present-some}
use seestar_remote.Kalay.Inbound.{Inflow, receive, pull_loop, start_pump, pull}
use seestar_remote.Kalay.Inbound.Pull.{IsReady, IsPulled, payloads, pull_loop-IsPulled}
use seestar_remote.Kalay.Inbound.Receive.{
  any_carries, IsHonest, IsHolding, receive-IsHolding, IsGathered, receive-IsGathered,
}

payloads-add :
    (stream : ℕ → Bytes) (s a b : ℕ)
    → payloads stream s a ++ payloads stream (s + a) b ≡ payloads stream s (a + b)
unfolding payloads
payloads-add stream s zero b = ap₂ (payloads stream) (omega arith) (omega arith)
payloads-add stream s (suc a) b =
    let e : suc a + b ≡ suc (a + b) = omega arith in
    let e' : s + suc a ≡ s + 1 + a = omega arith in
    rw (e, e', append_assoc) (ap (λ t. stream s ++ t) (payloads-add stream (s + 1) a b))

payloads-join :
    (stream : ℕ → Bytes) (first next next' : ℕ)
    → first ≤ next
    → next ≤ next'
    → payloads stream first (next - first) ++ payloads stream next (next' - next)
      ≡ payloads stream first (next' - first)
payloads-join stream first next next' lo hi =
    let e : first + (next - first) ≡ next = omega arith in
    let e' : next - first + (next' - next) ≡ next' - first = omega arith in
    ap (λ k. payloads stream first (next - first) ++ payloads stream k (next' - next)) (sym e)
    ∙ payloads-add stream first (next - first) (next' - next)
    ∙ ap (payloads stream first) e'

-- An iteration of `pump` that has started, and one that has not.
pull_flowing :
    (t : Inflow) (fs : List RdtPacket)
    → t.pump_started ≡ true
    → let recv = receive t.recv fs in
      let (recv', next', bytes) = pull_loop (length recv.frames) recv t.pump_next in
      ((pull t fs).0.pump_started ≡ true)
      × ((pull t fs).0.recv ≡ recv')
      × ((pull t fs).0.pump_next ≡ next')
      × ((pull t fs).1 ≡ bytes)
unfolding pull start_pump
pull_flowing t fs e = simp e (refl, refl, refl, refl)

pull_starting :
    (t : Inflow) (fs : List RdtPacket)
    → t.pump_started ≡ false
    → (receive t.recv fs).base_set ≡ true
    → let recv = receive t.recv fs in
      let (recv', next', bytes) = pull_loop (length recv.frames) recv recv.base in
      ((pull t fs).0.pump_started ≡ true)
      × ((pull t fs).0.recv ≡ recv')
      × ((pull t fs).0.pump_next ≡ next')
      × ((pull t fs).1 ≡ bytes)
unfolding pull start_pump
pull_starting t fs e e' = simp (e, e') (refl, refl, refl, refl)

pull_idle :
    (t : Inflow) (fs : List RdtPacket)
    → t.pump_started ≡ false
    → (receive t.recv fs).base_set ≡ false
    → ((pull t fs).0.pump_started ≡ false)
      × ((pull t fs).0.recv ≡ receive t.recv fs)
      × ((pull t fs).1 ≡ [])
unfolding pull start_pump
pull_idle t fs e e' = simp (e, e') (refl, refl, refl)

module _ (stream : ℕ → Bytes) where
  -- `pump` consumes: `total` is all it has appended to `pbuf`, from the frame `first` on, and it
  -- waits at `pump_next` for a frame that has not been received.
  pub record IsFlowing (rx : ℕ → Bool) (first : ℕ) (t : Inflow) (total : Bytes) : Type 0 where
    pub started : t.pump_started ≡ true
    pub holding : IsHolding stream rx t.recv t.pump_next
    pub dry : lookup t.pump_next t.recv.frames ≡ none
    pub order : first < t.pump_next
    pub stretch : total ≡ payloads stream first (t.pump_next - first)
    pub passed : (k : ℕ) → first ≤ k → k < t.pump_next → rx k ≡ true

  -- No data frame has been received.
  pub record IsIdle (rx : ℕ → Bool) (t : Inflow) : Type 0 where
    pub waits : t.pump_started ≡ false
    pub gathered : IsGathered stream rx t.recv
    pub unset : t.recv.base_set ≡ false

  moved_mark :
      (recv : Reassembler) (next : ℕ) (recv' : Reassembler) (next' : ℕ) (bytes : Bytes)
      → IsPulled stream recv next recv' next' bytes
      → (recv.consumed_set ≡ true) × (recv.consumed + 1 ≡ next)
      → (recv'.consumed_set ≡ true) × (recv'.consumed + 1 ≡ next')
  moved_mark recv next recv' next' bytes p mark = elim (Bool-cases (ltb next next')) [
    | inl moved ↦ p.mark (ground arith)
    | inr stayed ↦ let e : next ≡ next' = ground (arith, p.onwards) in rw (p.still e, ← e) mark
  ]

  -- The consuming loop after a batch has been added, with `pump` started at `next`.
  module _ (rx : ℕ → Bool) (recv : Reassembler) (next : ℕ) (ready : IsReady stream recv next)
      (waiting : (k : ℕ) (v : Bytes) → lookup k recv.frames ≡ some v → rx k ≡ true)
      (complete : (k : ℕ) → rx k ≡ true → next ≤ k → lookup k recv.frames ≡ some (stream k))
      (recv' : Reassembler) (next' : ℕ) (bytes : Bytes)
      (p : IsPulled stream recv next recv' next' bytes) where
    pulled-IsHolding :
        (recv'.consumed_set ≡ true) × (recv'.consumed + 1 ≡ next') → IsHolding stream rx recv' next'
    pulled-IsHolding mark = record {
      ready = p.ready;
      mark = mark;
      waiting = λ k v e. waiting k v (sym (p.kept k ((p.ready.honest k v e).1)) ∙ e);
      complete = λ k e le. p.kept k le ∙ complete k e (omega (arith, p.onwards));
    }

    pulled_passed : (k : ℕ) → next ≤ k → k < next' → rx k ≡ true
    pulled_passed k lo hi = waiting k (stream k) (p.held k lo hi)

  pub pull-IsFlowing :
      (rx : ℕ → Bool) (first : ℕ) (t : Inflow) (total : Bytes) (fs : List RdtPacket)
      → IsFlowing rx first t total
      → All (IsHonest stream) fs
      → IsFlowing (λ k. rx k || any_carries fs k) first (pull t fs).0 (total ++ (pull t fs).1)
  pull-IsFlowing rx first t total fs h hs =
      let recv = receive t.recv fs in
      let rx' = λ (k : ℕ). rx k || any_carries fs k in
      let got = receive-IsHolding stream rx t.recv t.pump_next fs h.holding hs in
      let out = pull_loop (length recv.frames) recv t.pump_next in
      let p =
        pull_loop-IsPulled stream (length recv.frames) recv t.pump_next (omega arith) got.ready in
      let (started, at_recv, at_next, at_bytes) = pull_flowing t fs h.started in
      record {
        started = started;
        holding =
            rw (at_recv, at_next)
              (pulled-IsHolding rx' recv t.pump_next got.ready got.waiting got.complete out.0 out.1
                out.2 p (moved_mark recv t.pump_next out.0 out.1 out.2 p got.mark));
        dry = rw (at_recv, at_next) p.dry;
        order = rw at_next (omega (arith, h.order, p.onwards));
        stretch =
            rw (at_next, at_bytes, h.stretch, p.stretch)
              (payloads-join stream first t.pump_next out.1 (omega (arith, h.order)) p.onwards);
        passed = rw at_next (λ k lo hi. elim (Bool-cases (ltb k t.pump_next)) [
          | inl old ↦ ground (arith, h.passed k)
          | inr new ↦ ground (
            arith,
            pulled_passed rx' recv t.pump_next got.ready got.waiting got.complete out.0 out.1 out.2
                p k,
          )
        ]);
      }

  -- The iteration in which the first data frame arrives.
  module _ (rx : ℕ → Bool) (recv : Reassembler) (g : IsGathered stream rx recv)
      (set : recv.base_set ≡ true) where
    start-IsReady : IsReady stream recv recv.base
    start-IsReady = record {
      honest = λ k v e. (g.honest k v e, (g.filled.within k v e).1, g.filled.bounded k v e);
      fresh = λ e. absurd (false≢true (sym g.filled.untaken ∙ e));
    }

    start_moves :
        (recv' : Reassembler) (next' : ℕ) (bytes : Bytes)
        → IsPulled stream recv recv.base recv' next' bytes
        → recv.base < next'
    start_moves recv' next' bytes p = elim (Bool-cases (ltb recv.base next')) [
      | inl moved ↦ ground arith
      | inr stayed ↦
          let e : recv.base ≡ next' = ground (arith, p.onwards) in
          let (v, e') = is_present-some (lookup recv.base recv.frames) (g.filled.base_held set) in
          let gone : lookup recv.base recv.frames ≡ none =
            sym (p.kept recv.base (omega arith)) ∙ ap (λ k. lookup k recv'.frames) e ∙ p.dry in
          absurd (cc)
    ]

  pub pull-start :
      (rx : ℕ → Bool) (t : Inflow) (fs : List RdtPacket)
      → IsIdle rx t
      → All (IsHonest stream) fs
      → (receive t.recv fs).base_set ≡ true
      → IsFlowing
          (λ k. rx k || any_carries fs k)
          (receive t.recv fs).base
          (pull t fs).0
          (pull t fs).1
  pull-start rx t fs h hs set =
      let recv = receive t.recv fs in
      let rx' = λ (k : ℕ). rx k || any_carries fs k in
      let g = receive-IsGathered stream rx t.recv fs h.gathered hs in
      let ready = start-IsReady rx' recv g set in
      let out = pull_loop (length recv.frames) recv recv.base in
      let p = pull_loop-IsPulled stream (length recv.frames) recv recv.base (omega arith) ready in
      let moves = start_moves rx' recv g set out.0 out.1 out.2 p in
      let (started, at_recv, at_next, at_bytes) = pull_starting t fs h.waits set in
      record {
        started = started;
        holding =
            rw (at_recv, at_next)
              (pulled-IsHolding rx' recv recv.base ready g.waiting (λ k e le. g.complete k e) out.0
                out.1 out.2 p (p.mark moves));
        dry = rw (at_recv, at_next) p.dry;
        order = rw at_next moves;
        stretch = rw (at_next, at_bytes) p.stretch;
        passed = rw at_next (
            pulled_passed rx' recv recv.base ready g.waiting (λ k e le. g.complete k e) out.0 out.1
              out.2 p);
      }

  pub pull-IsIdle :
      (rx : ℕ → Bool) (t : Inflow) (fs : List RdtPacket)
      → IsIdle rx t
      → All (IsHonest stream) fs
      → (receive t.recv fs).base_set ≡ false
      → IsIdle (λ k. rx k || any_carries fs k) (pull t fs).0
  pull-IsIdle rx t fs h hs unset =
      let (waits, at_recv, _) = pull_idle t fs h.waits unset in
      record {
        waits = waits;
        gathered = rw at_recv (receive-IsGathered stream rx t.recv fs h.gathered hs);
        unset = rw at_recv unset;
      }

  -- Where the inbound half of `pump` stands: idle, or flowing from some first frame.
  abbrev pub Stands : (ℕ → Bool) → Inflow → Bytes → Type 0
  Stands rx t total =
      (IsIdle rx t × (total ≡ [])) ⊎ ((first : ℕ) × (rx first ≡ true) × IsFlowing rx first t total)

  pub pull-Stands :
      (rx : ℕ → Bool) (t : Inflow) (total : Bytes) (fs : List RdtPacket)
      → Stands rx t total
      → All (IsHonest stream) fs
      → Stands (λ k. rx k || any_carries fs k) (pull t fs).0 (total ++ (pull t fs).1)
  pull-Stands rx t total fs (inl (idle, e)) hs = elim (Bool-cases (receive t.recv fs).base_set) [
    | inl set ↦
        let flowing = pull-start rx t fs idle hs set in
        inr ((receive t.recv fs).base, flowing.passed _ (omega arith) flowing.order, rw e flowing)
    | inr unset ↦
        inl (pull-IsIdle rx t fs idle hs unset, rw e ((pull_idle t fs idle.waits unset).2))
  ]
  pull-Stands rx t total fs (inr (first, seen, flowing)) hs =
      inr (first, ground arith, pull-IsFlowing rx first t total fs flowing hs)
