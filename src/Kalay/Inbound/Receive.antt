-- ===== src/Kalay/Inbound/Receive.antt =====
-- What a batch of frames does to the reassembler, before and after `pump` has started to consume.
use seestar_remote.Base.{
  ℕ, ◌+◌, ◌-◌, ◌^◌, ◌≤◌, ◌<◌, ◌≡◌, subst, fun_ext, Bool, true, false, ◌&&◌, ◌||◌, some, List, [],
  ◌∷◌, leb, ◌==◌, if◌then◌else◌, Bool-cases, Option-cases, inl, inr, All, arith,
}
use seestar_remote.Base.Bytes.{Bytes}
use seestar_remote.Base.AssocMap.{lookup, insert, lookup-insert}
use seestar_remote.Kalay.Rdt.{RdtPacket}
use seestar_remote.Kalay.Reassembler.{Reassembler, is_present, ingest, add}
use seestar_remote.Kalay.Reassembler.Contiguous.{IsFilled, add-IsFilled}
use seestar_remote.Kalay.Inbound.{receive}
use seestar_remote.Kalay.Inbound.Pull.{IsReady}

-- The frame carries data under the sequence number `k`.
abbrev pub carries : RdtPacket → ℕ → Bool
carries f k = f.type == 0x02 && f.seq == k

abbrev pub any_carries : List RdtPacket → ℕ → Bool
any_carries [] k = false
any_carries (f ∷ fs) k = carries f k || any_carries fs k

module _ (stream : ℕ → Bytes) where
  -- A data frame is one of the device's stream, and its number is not the last `uint64`.
  abbrev pub IsHonest : RdtPacket → Type 0
  IsHonest f = f.type ≡ 0x02 → (f.payload ≡ stream f.seq) × (f.seq < 2 ^ 64 - 1)

  -- While `pump` consumes at `next`: `rx` tells which numbers have been received, and all those
  -- from `next` on are held.
  pub record IsHolding (rx : ℕ → Bool) (recv : Reassembler) (next : ℕ) : Type 0 where
    pub ready : IsReady stream recv next
    pub mark : (recv.consumed_set ≡ true) × (recv.consumed + 1 ≡ next)
    pub waiting : (k : ℕ) (v : Bytes) → lookup k recv.frames ≡ some v → rx k ≡ true
    pub complete : (k : ℕ) → rx k ≡ true → next ≤ k → lookup k recv.frames ≡ some (stream k)

  -- What `add` does to the frames and to the watermark.
  add_frames :
      (recv : Reassembler) (seq : ℕ) (payload : Bytes)
      → ((add recv seq payload).0.consumed ≡ recv.consumed)
        × ((add recv seq payload).0.consumed_set ≡ recv.consumed_set)
        × ((add recv seq payload).0.frames ≡ (
            if (recv.consumed_set && leb seq recv.consumed) || is_present (lookup seq recv.frames)
            then recv.frames
            else insert seq payload recv.frames))
  unfolding add ingest
  add_frames recv seq payload = ground arith

  -- Where the watermark lies just below `next`, an added frame is found from then on, unless it is
  -- an old one.
  lookup-add :
      (recv : Reassembler) (next seq k : ℕ)
      → (recv.consumed_set ≡ true) × (recv.consumed + 1 ≡ next)
      → IsReady stream recv next
      → lookup k (add recv seq (stream seq)).0.frames
        ≡ (if seq == k && leb next k then some (stream k) else lookup k recv.frames)
  lookup-add recv next seq k mark r = elim (Option-cases (lookup seq recv.frames)) [
    | inl e ↦
        ground
          (arith, add_frames recv seq (stream seq), lookup-insert seq k (stream seq) recv.frames)
    | inr (v, e) ↦ ground (
      arith,
      add_frames recv seq (stream seq),
      lookup-insert seq k (stream seq) recv.frames,
      r.honest seq v e,
    )
  ]

  -- A data frame added while `pump` consumes.
  module _ (rx : ℕ → Bool) (recv : Reassembler) (next : ℕ) (h : IsHolding rx recv next) (seq : ℕ)
      (lt : seq < 2 ^ 64 - 1) where
    add-IsReady : IsReady stream (add recv seq (stream seq)).0 next
    add-IsReady = record {
      honest =
          λ k v e. ground (arith, lookup-add recv next seq k h.mark h.ready, h.ready.honest k v);
      fresh = λ e. ground (arith, add_frames recv seq (stream seq), h.mark);
    }

    add-IsHolding : IsHolding (λ k. rx k || seq == k) (add recv seq (stream seq)).0 next
    add-IsHolding = record {
      ready = add-IsReady;
      mark = ground (arith, add_frames recv seq (stream seq), h.mark);
      waiting = λ k v e. ground (arith, lookup-add recv next seq k h.mark h.ready, h.waiting k v);
      complete = λ k e le. ground (arith, lookup-add recv next seq k h.mark h.ready, h.complete k);
    }

  -- The same `rx`, value by value.
  IsHolding-ext :
      {rx rx' : ℕ → Bool} {recv : Reassembler} {next : ℕ}
      → ((k : ℕ) → rx k ≡ rx' k)
      → IsHolding rx recv next
      → IsHolding rx' recv next
  IsHolding-ext {recv} {next} e h = subst (λ f. IsHolding f recv next) (fun_ext e) h

  pub receive-IsHolding :
      (rx : ℕ → Bool) (recv : Reassembler) (next : ℕ) (fs : List RdtPacket)
      → IsHolding rx recv next
      → All IsHonest fs
      → IsHolding (λ k. rx k || any_carries fs k) (receive recv fs) next
  unfolding receive
  receive-IsHolding rx recv next [] h hs = IsHolding-ext (λ k. ground arith) h
  receive-IsHolding rx recv next (f ∷ fs) h hs = elim (Bool-cases (f.type == 0x02)) [
    | inl is_data ↦
        let (same, lt) = hs.0 (ground arith) in
        simp (is_data, same)
          (IsHolding-ext (λ k. ground arith)
            (receive-IsHolding (λ k. rx k || f.seq == k) (add recv f.seq (stream f.seq)).0 next fs
              (add-IsHolding rx recv next h f.seq lt) hs.1))
    | inr other ↦
        simp other (IsHolding-ext (λ k. ground arith) (receive-IsHolding rx recv next fs h hs.1))
  ]

  -- Before `pump` has started: everything received is held.
  pub record IsGathered (rx : ℕ → Bool) (recv : Reassembler) : Type 0 where
    pub filled : IsFilled recv
    pub honest : (k : ℕ) (v : Bytes) → lookup k recv.frames ≡ some v → v ≡ stream k
    pub waiting : (k : ℕ) (v : Bytes) → lookup k recv.frames ≡ some v → rx k ≡ true
    pub complete : (k : ℕ) → rx k ≡ true → lookup k recv.frames ≡ some (stream k)

  IsGathered-ext :
      {rx rx' : ℕ → Bool} {recv : Reassembler}
      → ((k : ℕ) → rx k ≡ rx' k)
      → IsGathered rx recv
      → IsGathered rx' recv
  IsGathered-ext {recv} e h = subst (λ f. IsGathered f recv) (fun_ext e) h

  module _ (rx : ℕ → Bool) (recv : Reassembler) (h : IsGathered rx recv) (seq : ℕ)
      (lt : seq < 2 ^ 64 - 1) where
    gather_lookup :
        (k : ℕ)
        → lookup k (add recv seq (stream seq)).0.frames
          ≡ (if seq == k then some (stream k) else lookup k recv.frames)
    gather_lookup k = elim (Option-cases (lookup seq recv.frames)) [
      | inl e ↦ ground (
        arith,
        add_frames recv seq (stream seq),
        lookup-insert seq k (stream seq) recv.frames,
        h.filled.untaken,
      )
      | inr (v, e) ↦ ground (
        arith,
        add_frames recv seq (stream seq),
        lookup-insert seq k (stream seq) recv.frames,
        h.filled.untaken,
        h.honest seq v e,
      )
    ]

    add-IsGathered : IsGathered (λ k. rx k || seq == k) (add recv seq (stream seq)).0
    add-IsGathered = record {
      filled = add-IsFilled recv seq (stream seq) h.filled lt;
      honest = λ k v e. ground (arith, gather_lookup k, h.honest k v);
      waiting = λ k v e. ground (arith, gather_lookup k, h.waiting k v);
      complete = λ k e. ground (arith, gather_lookup k, h.complete k);
    }

  pub receive-IsGathered :
      (rx : ℕ → Bool) (recv : Reassembler) (fs : List RdtPacket)
      → IsGathered rx recv
      → All IsHonest fs
      → IsGathered (λ k. rx k || any_carries fs k) (receive recv fs)
  unfolding receive
  receive-IsGathered rx recv [] h hs = IsGathered-ext (λ k. ground arith) h
  receive-IsGathered rx recv (f ∷ fs) h hs = elim (Bool-cases (f.type == 0x02)) [
    | inl is_data ↦
        let (same, lt) = hs.0 (ground arith) in
        simp (is_data, same)
          (IsGathered-ext (λ k. ground arith)
            (receive-IsGathered (λ k. rx k || f.seq == k) (add recv f.seq (stream f.seq)).0 fs
              (add-IsGathered rx recv h f.seq lt) hs.1))
    | inr other ↦
        simp other (IsGathered-ext (λ k. ground arith) (receive-IsGathered rx recv fs h hs.1))
  ]
