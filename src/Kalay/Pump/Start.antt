-- ===== src/Kalay/Pump/Start.antt =====
-- Where the inbound half of `pump` starts, and what it has taken since.
use seestar_remote.Base.{
  ℕ, ◌≤◌, ◌≡◌, sym, ◌∙◌, subst, fun_ext, Bool, true, false, ◌||◌, List, [], ◌∷◌, ◌++◌, Bool-cases,
  inl, inr, ◌⊎◌, false≢true, All, arith,
}
use seestar_remote.Base.Bytes.{Bytes}
use seestar_remote.Kalay.Rdt.{RdtPacket}
use seestar_remote.Kalay.Inbound.{Inflow, receive, pull, new_inbound}
use seestar_remote.Kalay.Inbound.Receive.{any_carries, IsHonest, receive-IsGathered}
use seestar_remote.Kalay.Inbound.EndToEnd.{received, idle_at_first}
use seestar_remote.Kalay.Inbound.Delivery.{
  IsIdle, IsFlowing, pull-IsIdle, pull-start, pull-IsFlowing,
}

-- The lowest number of a data frame in a batch.
abbrev IsLowestOf : List RdtPacket → ℕ → Type 0
IsLowestOf fs first =
    (any_carries fs first ≡ true) × ((k : ℕ) → any_carries fs k ≡ true → first ≤ k)

-- The number where the stream starts: the lowest of the first batch that has a data frame.
abbrev pub IsFirst : List (List RdtPacket) → ℕ → Type 0
IsFirst [] first = ⊥
IsFirst (fs ∷ rest) first =
    IsLowestOf fs first ⊎ (((k : ℕ) → any_carries fs k ≡ false) × IsFirst rest first)

pub IsFirst-append :
    (bs : List (List RdtPacket)) (fs : List RdtPacket) (first : ℕ)
    → IsFirst bs first
    → IsFirst (bs ++ (fs ∷ [])) first
IsFirst-append [] fs first h = absurd h
IsFirst-append (b ∷ bs) fs first (inl low) = inl low
IsFirst-append (b ∷ bs) fs first (inr (none_yet, later)) =
    inr (none_yet, IsFirst-append bs fs first later)

IsFirst-begins :
    (bs : List (List RdtPacket)) (fs : List RdtPacket) (first : ℕ)
    → ((k : ℕ) → received bs k ≡ false)
    → IsLowestOf fs first
    → IsFirst (bs ++ (fs ∷ [])) first
IsFirst-begins [] fs first quiet low = inl low
IsFirst-begins (b ∷ bs) fs first quiet low =
    inr
      (λ k. ground (arith, quiet k), IsFirst-begins bs fs first (λ k. ground (arith, quiet k)) low)

pub received-append :
    (bs : List (List RdtPacket)) (fs : List RdtPacket) (k : ℕ)
    → (received bs k || any_carries fs k) ≡ received (bs ++ (fs ∷ [])) k
received-append [] fs k = ground arith
received-append (b ∷ bs) fs k = ground (arith, received-append bs fs k)

module _ (stream : ℕ → Bytes) where
  -- The inbound half after these batches: it waits for a first data frame, or has taken the stream
  -- from its first frame on.
  abbrev pub IsStanding : List (List RdtPacket) → Inflow → Type 0
  IsStanding bs f =
      IsIdle stream (received bs) f
      ⊎ ((first : ℕ) × IsFirst bs first
          × (total : Bytes) × IsFlowing stream (received bs) first f total)

  idle-none : (rx : ℕ → Bool) (f : Inflow) (k : ℕ) → IsIdle stream rx f → rx k ≡ false
  idle-none rx f k h = elim (Bool-cases (rx k)) [
    | inl seen ↦
        let (set, _, _) = h.gathered.filled.within k (stream k) (h.gathered.complete k seen) in
        absurd (false≢true (sym h.unset ∙ set))
    | inr unseen ↦ unseen
  ]

  start-IsLowestOf :
      (rx : ℕ → Bool) (f : Inflow) (fs : List RdtPacket)
      → IsIdle stream rx f
      → All (IsHonest stream) fs
      → (receive f.recv fs).base_set ≡ true
      → IsLowestOf fs (receive f.recv fs).base
  start-IsLowestOf rx f fs idle honest set =
      let g = receive-IsGathered stream rx f.recv fs idle.gathered honest in
      let flowing = pull-start stream rx f fs idle honest set in
      let base = (receive f.recv fs).base in
      (
        ground (arith, flowing.passed base (omega arith) flowing.order, idle-none rx f base idle),
        λ k e. (g.filled.within k (stream k) (g.complete k (ground arith))).1,
      )

  pub pull-IsStanding :
      (bs : List (List RdtPacket)) (f : Inflow) (fs : List RdtPacket)
      → IsStanding bs f
      → All (IsHonest stream) fs
      → IsStanding (bs ++ (fs ∷ [])) (pull f fs).0
  pull-IsStanding bs f fs (inr (first, start, total, flowing)) honest = inr (
    first,
    IsFirst-append bs fs first start,
    total ++ (pull f fs).1,
    subst (λ rx. IsFlowing stream rx first (pull f fs).0 (total ++ (pull f fs).1))
        (fun_ext (received-append bs fs))
        (pull-IsFlowing stream (received bs) first f total fs flowing honest),
  )
  pull-IsStanding bs f fs (inl idle) honest = elim (Bool-cases (receive f.recv fs).base_set) [
    | inl set ↦ inr (
      (receive f.recv fs).base,
      IsFirst-begins bs fs (receive f.recv fs).base (λ k. idle-none (received bs) f k idle)
          (start-IsLowestOf (received bs) f fs idle honest set),
      (pull f fs).1,
      subst (λ rx. IsFlowing stream rx (receive f.recv fs).base (pull f fs).0 (pull f fs).1)
          (fun_ext (received-append bs fs)) (pull-start stream (received bs) f fs idle honest set),
    )
    | inr unset ↦ inl (
        subst (λ rx. IsIdle stream rx (pull f fs).0) (fun_ext (received-append bs fs))
          (pull-IsIdle stream (received bs) f fs idle honest unset))
  ]

  pub new-IsStanding : IsStanding [] new_inbound.flow
  new-IsStanding = elim (idle_at_first stream) as (λ _. IsStanding [] new_inbound.flow) [
    | inl (idle, _) ↦ inl idle
    | inr (first, seen, _) ↦ absurd (false≢true seen)
  ]
