-- ===== src/Kalay/Pump/Stages.antt =====
-- Which acknowledgements the stages of an iteration of `pump` send.
use seestar_remote.Base.{
  ℕ, ◌-◌, ◌*◌, ◌≤◌, ◌≡◌, refl, sym, ◌∙◌, true, false, ◌&&◌, none, List, [], ◌∷◌, ◌++◌, ltb, leb,
  Bool-cases, Option-cases, inl, inr, false≢true, All, arith,
}
use seestar_remote.Base.Bytes.{Bytes}
use seestar_remote.Kalay.Rdt.{RdtPacket}
use seestar_remote.Kalay.GoBackN.{Float64, millisecond}
use seestar_remote.Kalay.GoBackN.Stock.{IsStock}
use seestar_remote.Kalay.Inbound.{Inflow, start_pump, pull, Inbound, inbound_round}
use seestar_remote.Kalay.Inbound.Receive.{IsHonest}
use seestar_remote.Kalay.Inbound.EndToEnd.{received}
use seestar_remote.Kalay.Pump.Start.{
  IsFirst, IsFirst-append, received-append, IsStanding, pull-IsStanding,
}
use seestar_remote.Kalay.Tunnel.{route_all}
use seestar_remote.Kalay.Pump.{Pump, cumulative_ack, keepalive, stall_recovery, consume_stage}
use seestar_remote.Kalay.Pump.Data.{IsData, send_all-IsData}

-- An ACK covers, from the start of the stream up to its number, only frames that have been received.
abbrev pub IsAckSafe : List (List RdtPacket) → RdtPacket → Type 0
IsAckSafe bs p =
    p.type ≡ 0x46
    → (first : ℕ) × IsFirst bs first
      × (first ≤ p.seq)
      × ((k : ℕ) → first ≤ k → k ≤ p.seq → received bs k ≡ true)

IsAckSafe-more :
    (bs : List (List RdtPacket)) (fs : List RdtPacket) (p : RdtPacket)
    → IsAckSafe bs p
    → IsAckSafe (bs ++ (fs ∷ [])) p
IsAckSafe-more bs fs p h e =
    let (first, start, low, seen) = h e in
    (
      first,
      IsFirst-append bs fs first start,
      low,
      λ k lo hi. sym (received-append bs fs k) ∙ ground (arith, seen k),
    )

pub All-more :
    (bs : List (List RdtPacket)) (fs : List RdtPacket) (out : List RdtPacket)
    → All (IsAckSafe bs) out
    → All (IsAckSafe (bs ++ (fs ∷ []))) out
All-more bs fs [] h = tt
All-more bs fs (p ∷ out) (h, hs) = (IsAckSafe-more bs fs p h, All-more bs fs out hs)

pub All-data :
    (bs : List (List RdtPacket)) (out : List RdtPacket) → All IsData out → All (IsAckSafe bs) out
All-data bs [] h = tt
All-data bs (p ∷ out) (h, hs) = (λ e. absurd (omega arith), All-data bs out hs)

-- An iteration of the inbound half: either branch of `inbound_round` keeps what `pull` leaves.
inbound_round-flow :
    (t : Inbound) (fs : List RdtPacket) → (inbound_round t fs).0.flow ≡ (pull t.flow fs).0
unfolding inbound_round
inbound_round-flow t fs = ground arith

-- `pull` acknowledges only once it consumes.
pull_ack :
    (t : Inflow) (fs : List RdtPacket) → (pull t fs).0.pump_started ≡ false → (pull t fs).2 ≡ none
unfolding pull start_pump
pull_ack t fs e = ground arith

module _ (stream : ℕ → Bytes) where
  ack_safe :
      (bs : List (List RdtPacket)) (f : Inflow) (conn : ℕ)
      → IsStanding stream bs f
      → f.pump_started ≡ true
      → IsAckSafe bs (cumulative_ack conn f.pump_next)
  ack_safe bs f conn (inl idle) started e = absurd (false≢true (sym idle.waits ∙ started))
  ack_safe bs f conn (inr (first, start, total, h)) started e =
      (first, start, omega (arith, h.order), λ k lo hi. h.passed k lo (omega (arith, h.order)))

  module _ {F : Type 0} where
    pub keepalive-safe :
        (bs : List (List RdtPacket)) (t : Pump F) (now : ℕ)
        → IsStanding stream bs t.inward.flow
        → let (t', out) = keepalive t now in
          All (IsAckSafe bs) out × (t'.inward ≡ t.inward) × (t'.flow ≡ t.flow)
    unfolding keepalive
    keepalive-safe bs t now h = elim (Bool-cases (ltb (400 * millisecond) (now - t.last_ka))) [
      | inl due ↦ elim (Bool-cases (t.inward.flow.pump_started && ltb 0 t.inward.flow.pump_next)) [
        | inl on ↦
            rw (due, on)
              (
                (
                  λ e. absurd (omega arith),
                  (ack_safe bs t.inward.flow t.dev_conn h (ground arith), tt),
                ),
                refl,
                refl,
              )
        | inr off ↦ rw (due, off) ((λ e. absurd (omega arith), tt), refl, refl)
      ]
      | inr early ↦ rw early (tt, refl, refl)
    ]

    pub stall_recovery-safe :
        (bs : List (List RdtPacket)) (t : Pump F) (now : ℕ)
        → IsStanding stream bs t.inward.flow
        → let (t', out) = stall_recovery t now in
          All (IsAckSafe bs) out × (t'.inward ≡ t.inward) × (t'.flow ≡ t.flow)
    unfolding stall_recovery
    stall_recovery-safe bs t now h =
        let f = t.inward.flow in
        elim (Bool-cases (f.pump_started && ltb (2000 * millisecond) (now - t.last_advance))) [
          | inl due ↦
              let safe = ack_safe bs f t.dev_conn h (ground arith) in
              elim (Bool-cases (ltb 0 f.pump_next)) [
                | inl some_next ↦ elim (Bool-cases (leb f.pump_next f.recv.max_seq)) [
                  | inl hole ↦ rw (due, some_next, hole) ((safe, (safe, tt)), refl, refl)
                  | inr dry ↦ rw (due, some_next, dry) ((safe, tt), refl, refl)
                ]
                | inr none_next ↦ elim (Bool-cases (leb f.pump_next f.recv.max_seq)) [
                  | inl hole ↦ rw (due, none_next, hole) (tt, refl, refl)
                  | inr dry ↦ rw (due, none_next, dry) (tt, refl, refl)
                ]
              ]
          | inr early ↦ rw early (tt, refl, refl)
        ]

    pub consume_stage-safe :
        (fl : Float64 F) (bs : List (List RdtPacket)) (t : Pump F) (now : ℕ) (fs : List RdtPacket)
        → IsStock IsData t.flow
        → IsStanding stream bs t.inward.flow
        → All (IsHonest stream) fs
        → let (t', out) = consume_stage t now fs in
          let bs' = bs ++ (fs ∷ []) in
          All (IsAckSafe bs') out × IsStock IsData t'.flow × IsStanding stream bs' t'.inward.flow
    unfolding consume_stage
    consume_stage-safe fl bs t now fs stock h honest =
        let bs' = bs ++ (fs ∷ []) in
        let f' = (pull t.inward.flow fs).0 in
        let standing : IsStanding stream bs' f' =
          pull-IsStanding stream bs t.inward.flow fs h honest in
        let (stock', sent) =
          send_all-IsData fl t.flow t.dev_conn
            (route_all t.channels (inbound_round t.inward fs).1).1 now stock in
        let sound = All-data bs' _ sent in
        let kept : IsStanding stream bs' (inbound_round t.inward fs).0.flow =
          rw (inbound_round-flow t.inward fs) standing in
        elim (Option-cases (pull t.inward.flow fs).2) [
          | inl quiet ↦ rw quiet (sound, stock', kept)
          | inr (k, acks) ↦ elim (Bool-cases f'.pump_started) [
            | inl on ↦ rw acks ((ack_safe bs' f' t.dev_conn standing on, sound), stock', kept)
            | inr off ↦ absurd (ground (arith, pull_ack t.inward.flow fs off))
          ]
        ]
