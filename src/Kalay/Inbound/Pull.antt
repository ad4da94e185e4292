-- ===== src/Kalay/Inbound/Pull.antt =====
-- What the consuming loop takes out of the reassembler.
use seestar_remote.Base.{
  ℕ, zero, suc, ◌+◌, ◌-◌, ◌^◌, ◌≤◌, ◌<◌, ◌≡◌, refl, ap, ◌∙◌, true, none, some, [], ◌++◌, ltb, ◌==◌,
  length, Bool-cases, Option-cases, inl, inr, arith,
}
use seestar_remote.Base.Bytes.{Bytes, add64}
use seestar_remote.Base.AssocMap.{lookup, lookup-delete, length-delete}
use seestar_remote.Kalay.Reassembler.{Reassembler, consume, take_seq}
use seestar_remote.Kalay.Inbound.{pull_loop}

-- The payloads of `n` frames from `s` on, one behind the other.
unfoldable pub payloads : (ℕ → Bytes) → ℕ → ℕ → Bytes
payloads stream s zero = []
payloads stream s (suc n) = stream s ++ payloads stream (s + 1) n

-- One round of the loop, by what it finds at `next`.
pull_stop :
    (fuel : ℕ) (recv : Reassembler) (next : ℕ)
    → lookup next recv.frames ≡ none
    → pull_loop (suc fuel) recv next ≡ (recv, next, [])
unfolding pull_loop take_seq
pull_stop fuel recv next e = rw (e, take_seq, pull_loop)

take_present :
    (recv : Reassembler) (next : ℕ) (v : Bytes)
    → lookup next recv.frames ≡ some v
    → take_seq recv next ≡ (consume recv next, some v)
unfolding take_seq
take_present recv next v e = rw (e, take_seq)

pull_go :
    (fuel : ℕ) (recv : Reassembler) (next : ℕ) (v : Bytes)
    → lookup next recv.frames ≡ some v
    → let (recv', next', more) = pull_loop fuel (consume recv next) (add64 next 1) in
      pull_loop (suc fuel) recv next ≡ (recv', next', v ++ more)
unfolding pull_loop
pull_go fuel recv next v e =
    rw (take_present recv next v e, pull_loop) (rw (take_present recv next v e))

module _ (stream : ℕ → Bytes) where
  -- The frames held belong to the device's stream, lie at `next` or above, and have not been passed
  -- by the watermark.
  pub record IsReady (recv : Reassembler) (next : ℕ) : Type 0 where
    pub honest :
        (k : ℕ) (v : Bytes)
        → lookup k recv.frames ≡ some v
        → (v ≡ stream k) × (next ≤ k) × (k < 2 ^ 64 - 1)
    pub fresh : recv.consumed_set ≡ true → recv.consumed < next

  -- What the loop has done between `recv`, `next` and `recv'`, `next'`.
  pub record IsPulled (recv : Reassembler) (next : ℕ) (recv' : Reassembler) (next' : ℕ)
      (bytes : Bytes) : Type 0 where
    pub onwards : next ≤ next'
    pub stretch : bytes ≡ payloads stream next (next' - next)
    pub ready : IsReady recv' next'
    pub dry : lookup next' recv'.frames ≡ none
    pub kept : (k : ℕ) → next' ≤ k → lookup k recv'.frames ≡ lookup k recv.frames
    pub held : (k : ℕ) → next ≤ k → k < next' → lookup k recv.frames ≡ some (stream k)
    pub mark : next < next' → (recv'.consumed_set ≡ true) × (recv'.consumed + 1 ≡ next')
    pub still : next ≡ next' → recv' ≡ recv
    pub started : recv'.base_set ≡ recv.base_set

  consume-IsReady :
      (recv : Reassembler) (next : ℕ) → IsReady recv next → IsReady (consume recv next) (next + 1)
  consume-IsReady recv next r = record {
    honest = λ k v e. ground (arith, lookup-delete next k recv.frames, r.honest k v);
    fresh = λ e. ground (arith, r.fresh);
  }

  stopped :
      (recv : Reassembler) (next : ℕ)
      → IsReady recv next
      → lookup next recv.frames ≡ none
      → IsPulled recv next recv next []
  unfolding payloads
  stopped recv next r e = record {
    onwards = omega arith;
    stretch = let z : next - next ≡ 0 = omega arith in rw z;
    ready = r;
    dry = e;
    kept = λ k le. refl;
    held = λ k lo hi. absurd (omega arith);
    mark = λ lt. absurd (omega arith);
    still = λ _. refl;
    started = refl;
  }

  -- A frame taken in front of what the rest of the loop does.
  module _ (recv : Reassembler) (next : ℕ) (r : IsReady recv next) (v : Bytes)
      (present : lookup next recv.frames ≡ some v) (recv' : Reassembler) (next' : ℕ) (more : Bytes)
      (rest : IsPulled (consume recv next) (next + 1) recv' next' more) where
    open rest use {onwards, stretch, ready, dry, kept, held, mark, still, started}

    kept_too : (k : ℕ) → next' ≤ k → lookup k recv'.frames ≡ lookup k recv.frames
    kept_too k le = ground (arith, kept k le, lookup-delete next k recv.frames, onwards)

    held_too : (k : ℕ) → next ≤ k → k < next' → lookup k recv.frames ≡ some (stream k)
    held_too k lo hi = elim (Bool-cases (next == k)) [
      | inl here ↦
          let same : next ≡ k = ground arith in
          rw (← same) (present ∙ ap some ((r.honest next v present).0))
      | inr later ↦ ground (arith, held k, lookup-delete next k recv.frames)
    ]

    mark_too : (recv'.consumed_set ≡ true) × (recv'.consumed + 1 ≡ next')
    mark_too = elim (Bool-cases (ltb (next + 1) next')) [
      | inl further ↦ mark (ground arith)
      | inr stayed ↦
          let e : next + 1 ≡ next' = ground (arith, onwards) in
          rw (still e) (ground (arith, r.fresh))
    ]

    stretch_too : v ++ more ≡ payloads stream next (next' - next)
    stretch_too =
        let n : next' - next ≡ suc (next' - (next + 1)) = omega arith in
        rw n (unfold payloads in rw ((r.honest next v present).0, stretch))

    taken_first : IsPulled recv next recv' next' (v ++ more)
    taken_first = record {
      onwards = omega arith;
      stretch = stretch_too;
      ready = ready;
      dry = dry;
      kept = kept_too;
      held = held_too;
      mark = λ _. mark_too;
      still = λ e. absurd (omega arith);
      started = started;
    }

  -- The loop takes the run of frames from `next` on, all of it, and nothing else.
  pub pull_loop-IsPulled :
      (fuel : ℕ) (recv : Reassembler) (next : ℕ)
      → length recv.frames ≤ fuel
      → IsReady recv next
      → let (recv', next', bytes) = pull_loop fuel recv next in IsPulled recv next recv' next' bytes
  unfolding pull_loop
  pull_loop-IsPulled zero recv next few r = elim (Option-cases (lookup next recv.frames)) [
    | inl e ↦ stopped recv next r e
    | inr (v, e) ↦ absurd (omega (arith, length-delete next v recv.frames e))
  ]
  pull_loop-IsPulled (suc fuel) recv next few r = elim (Option-cases (lookup next recv.frames)) [
    | inl e ↦ rw (pull_stop fuel recv next e) (stopped recv next r e)
    | inr (v, e) ↦
        let next_ok : add64 next 1 ≡ next + 1 = omega (arith, (r.honest next v e).2) in
        let ih =
          pull_loop-IsPulled fuel (consume recv next) (next + 1)
            (omega (arith, length-delete next v recv.frames e)) (consume-IsReady recv next r) in
        rw (pull_go fuel recv next v e, next_ok) (taken_first recv next r v e _ _ _ ih)
  ]
