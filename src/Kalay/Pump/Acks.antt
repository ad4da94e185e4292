-- ===== src/Kalay/Pump/Acks.antt =====
-- Which acknowledgements `pump` sends.
use seestar_remote.Base.{
  ℕ, ◌≡◌, ◌≢◌, refl, sym, ap, ◌∙◌, ◌&&◌, List, [], ◌∷◌, ◌++◌, ltb, Bool-cases, inl, inr, ◌⊎◌, All,
  All-append, append_assoc, append-nil,
}
use seestar_remote.Base.Bytes.{Bytes}
use seestar_remote.Kalay.Rdt.{RdtPacket}
use seestar_remote.Kalay.GoBackN.{Float64, Limits, outbound_tick}
use seestar_remote.Kalay.GoBackN.Stock.{IsStock, outbound_tick-IsStock}
use seestar_remote.Kalay.Inbound.{new_inbound}
use seestar_remote.Kalay.Inbound.Receive.{IsHonest}
use seestar_remote.Kalay.Pump.Start.{IsStanding, new-IsStanding}
use seestar_remote.Kalay.Pump.{
  Pump, Arrivals, Outcome, running, shut, silent, stalled, keepalive, consume_stage, ack_all,
  send_stage, pump_work, pump_round, pump_run,
}
use seestar_remote.Kalay.Pump.Data.{IsData, ack_all-IsData, send_stage-IsData}
use seestar_remote.Kalay.Pump.Stages.{
  IsAckSafe, All-more, All-data, keepalive-safe, stall_recovery-safe, consume_stage-safe,
}

outcome_cases :
    {A : Type 0} (o : Outcome) (x : A) (y : Outcome → A)
    → ((o ≡ running) × (elim o as (λ _. A) [ running ↦ x | other ↦ y other ] ≡ x))
      ⊎ ((o ≢ running) × (elim o as (λ _. A) [ running ↦ x | other ↦ y other ] ≡ y o))
outcome_cases running x y = inl (refl, refl)
outcome_cases shut x y = inr ((λ e. cc), refl)
outcome_cases silent x y = inr ((λ e. cc), refl)
outcome_cases stalled x y = inr ((λ e. cc), refl)

-- The frames that the iterations read.
abbrev pub batches_of : List Arrivals → List (List RdtPacket)
batches_of [] = []
batches_of (a ∷ later) = a.frames ∷ batches_of later

module _ (stream : ℕ → Bytes) where
  module _ {F : Type 0} (fl : Float64 F) (lim : Limits) where
    -- What an iteration leaves when it goes on, and the packets of any iteration.
    abbrev IsSafeRound : List (List RdtPacket) → Pump F × List RdtPacket × Outcome → Type 0
    IsSafeRound bs (t', out, o) =
        All (IsAckSafe bs) out
        × (o ≡ running → IsStock IsData t'.flow × IsStanding stream bs t'.inward.flow)

    pump_work-safe :
        (bs : List (List RdtPacket)) (t : Pump F) (a : Arrivals)
        → IsStock IsData t.flow
        → IsStanding stream bs t.inward.flow
        → All (IsHonest stream) a.frames
        → IsSafeRound (bs ++ (a.frames ∷ [])) (pump_work fl lim t a)
    unfolding pump_work
    pump_work-safe bs t a stock h honest =
        let bs' = bs ++ (a.frames ∷ []) in
        let (safe₁, inward₁, flow₁) = keepalive-safe stream bs t a.now h in
        let t₁ = (keepalive t a.now).0 in
        let (stock₂, data₂, inward₂) = send_stage-IsData fl lim t₁ a (rw flow₁ stock) in
        let t₂ = (send_stage fl lim t₁ a).0 in
        let (stock₃, data₃) = ack_all-IsData fl t₂.flow a.now a.frames stock₂ in
        let f₃ = (ack_all fl t₂.flow a.now a.frames).0 in
        let (stock₄, data₄) = outbound_tick-IsStock fl IsData f₃ a.now stock₃ in
        let t₄ : Pump F = record t₂ { flow = (outbound_tick fl f₃ a.now).0 } in
        let (safe₅, stock₅, h₅) =
          consume_stage-safe stream fl bs t₄ a.now a.frames stock₄ (rw (inward₂, inward₁) h)
            honest in
        let t₅ = (consume_stage t₄ a.now a.frames).0 in
        let (safe₆, inward₆, flow₆) = stall_recovery-safe stream bs' t₅ a.now h₅ in
        let early = All-more bs a.frames _ safe₁ in
        let sent₂ = All-data bs' _ data₂ in
        let sent₃ = All-data bs' _ data₃ in
        let sent₄ = All-data bs' _ data₄ in
        elim (Bool-cases (outbound_tick fl f₃ a.now).2) [
          | inl fails ↦ rw fails (
            All-append (IsAckSafe bs') _ _ early
                (All-append (IsAckSafe bs') _ _ sent₂ (All-append (IsAckSafe bs') _ _ sent₃ sent₄)),
            λ e. absurd (cc),
          )
          | inr goes_on ↦ rw goes_on (
            All-append (IsAckSafe bs') _ _ early (
                All-append (IsAckSafe bs') _ _ sent₂ (
                  All-append (IsAckSafe bs') _ _ sent₃ (
                    All-append (IsAckSafe bs') _ _ sent₄
                      (All-append (IsAckSafe bs') _ _ safe₅ safe₆)))),
            λ _. (rw flow₆ stock₅, rw inward₆ h₅),
          )
        ]

    pump_round-safe :
        (liveness : ℕ) (bs : List (List RdtPacket)) (t : Pump F) (a : Arrivals)
        → IsStock IsData t.flow
        → IsStanding stream bs t.inward.flow
        → All (IsHonest stream) a.frames
        → IsSafeRound (bs ++ (a.frames ∷ [])) (pump_round fl lim liveness t a)
    unfolding pump_round pump_work send_stage
    pump_round-safe liveness bs t a stock h honest = elim (Bool-cases a.closed) [
      | inl over ↦ rw over (tt, λ e. absurd (cc))
      | inr open_still ↦ elim (Bool-cases (ltb 0 liveness && ltb liveness a.since_rx)) [
        | inl quiet ↦ rw (open_still, quiet) (tt, λ e. absurd (cc))
        | inr alive ↦ rw (open_still, alive) (pump_work-safe bs t a stock h honest)
      ]
    ]

    -- An iteration that does not go on is the run's last.
    pump_run_step :
        (liveness : ℕ) (t : Pump F) (a : Arrivals) (later : List Arrivals)
        → let (t', out, o) = pump_round fl lim liveness t a in
          let (t'', more, o') = pump_run fl lim liveness t' later in
          ((o ≡ running) × (pump_run fl lim liveness t (a ∷ later) ≡ (t'', out ++ more, o')))
          ⊎ ((o ≢ running) × (pump_run fl lim liveness t (a ∷ later) ≡ (t', out, o)))
    unfolding pump_run
    pump_run_step liveness t a later =
        let (t', out, o) = pump_round fl lim liveness t a in
        let (t'', more, o') = pump_run fl lim liveness t' later in
        outcome_cases o (t'', out ++ more, o') (λ end. (t', out, end))

    -- While it runs, the inbound half stands.
    pump_run-IsStanding :
        (liveness : ℕ) (bs : List (List RdtPacket)) (t : Pump F) (front : List Arrivals)
        → IsStock IsData t.flow
        → IsStanding stream bs t.inward.flow
        → All (All (IsHonest stream)) (batches_of front)
        → let (t', out, o) = pump_run fl lim liveness t front in
          o ≡ running
          → IsStock IsData t'.flow × IsStanding stream (bs ++ batches_of front) t'.inward.flow
    pump_run-IsStanding liveness bs t [] stock h honest =
        unfold pump_run in λ _. (stock, rw (append-nil bs) h)
    pump_run-IsStanding liveness bs t (a ∷ later) stock h honest =
        let (safe, kept) = pump_round-safe liveness bs t a stock h honest.0 in
        elim (pump_run_step liveness t a later) [
          | inl (goes, e) ↦
              let (stock', h') = kept goes in
              let rest =
                pump_run-IsStanding liveness (bs ++ (a.frames ∷ []))
                  (pump_round fl lim liveness t a).0 later stock' h' honest.1 in
              rw (e, ← append_assoc bs (a.frames ∷ []) (batches_of later)) rest
          | inr (ends, e) ↦ rw e (λ goes. absurd (ends goes))
        ]

    -- What a run sends in its last iteration follows what it sends before.
    pump_run-snoc :
        (liveness : ℕ) (t : Pump F) (front : List Arrivals) (a : Arrivals)
        → let (t', out, o) = pump_run fl lim liveness t front in
          o ≡ running
          → (pump_run fl lim liveness t (front ++ (a ∷ []))).1
            ≡ out ++ (pump_round fl lim liveness t' a).1
    pump_run-snoc liveness t [] a = elim (pump_run_step liveness t a []) [
      | inl (goes, e) ↦ unfold pump_run in λ _. ap (λ r. r.1) e ∙ append-nil _
      | inr (ends, e) ↦ unfold pump_run in λ _. ap (λ r. r.1) e
    ]
    pump_run-snoc liveness t (b ∷ later) a = elim (pump_run_step liveness t b later) [
      | inl (goes, e) ↦ elim (pump_run_step liveness t b (later ++ (a ∷ []))) [
        | inl (_, e') ↦
            rw (e, e')
              (λ still.
                ap (λ m. (pump_round fl lim liveness t b).1 ++ m)
                  (pump_run-snoc liveness (pump_round fl lim liveness t b).0 later a still)
                ∙ sym (append_assoc (pump_round fl lim liveness t b).1 _ _))
        | inr (ends, _) ↦ absurd (ends goes)
      ]
      | inr (ends, e) ↦ rw e (λ goes. absurd (ends goes))
    ]

    -- From the start of the inbound half, with a sender that holds data frames only, and whatever
    -- frames of the device's stream arrive: in the next iteration of a
    -- run that goes on, whose packets follow those of the run before, each ACK sent, at once, with a keepalive or to recover from a stall, covers only frames received by then, none of
    -- them missing from the start of the stream up to the number acknowledged. The start is the lowest
    -- number in the first batch of frames that has a data frame.
    pub pump_run-safe :
        (liveness : ℕ) (t : Pump F) (front : List Arrivals) (a : Arrivals)
        → IsStock IsData t.flow
        → t.inward ≡ new_inbound
        → All (All (IsHonest stream)) (batches_of front)
        → All (IsHonest stream) a.frames
        → let (t', out, o) = pump_run fl lim liveness t front in
          o ≡ running
          → let sent = (pump_round fl lim liveness t' a).1 in
            ((pump_run fl lim liveness t (front ++ (a ∷ []))).1 ≡ out ++ sent)
            × All (IsAckSafe (batches_of front ++ (a.frames ∷ []))) sent
    pump_run-safe liveness t front a stock e honest now going =
        let (stock', h) =
          pump_run-IsStanding liveness [] t front stock (rw e (new-IsStanding stream)) honest
            going in
        (
          pump_run-snoc liveness t front a going,
          (pump_round-safe liveness (batches_of front) (pump_run fl lim liveness t front).0 a stock'
              h now).0,
        )
