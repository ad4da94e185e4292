-- ===== src/Kalay/GoBackN/Window.antt =====
-- The send window: what is buffered, and what goes over the wire.
use seestar_remote.Base.{
  ℕ, zero, suc, ◌+◌, ◌-◌, ◌^◌, ◌≤◌, ◌<◌, ◌≡◌, refl, sym, ap, ◌∙◌, Bool, true, false, ◌&&◌, Option,
  none, some, List, [], ◌∷◌, ltb, leb, ◌==◌, if◌then◌else◌, Bool-cases, Option-cases, inl, inr, All,
  arith,
}
use seestar_remote.Base.Bytes.{Bytes, add64}
use seestar_remote.Base.AssocMap.{lookup, delete, insert, lookup-insert, lookup-delete}
use seestar_remote.Kalay.Rdt.{RdtPacket}
use seestar_remote.Kalay.GoBackN.{
  Float64, OutFrame, Outflow, packet, release, sample_acked, sample_rtt, send_reliable,
  cwnd_cut_half, resend_oldest, advance, duplicate_ack, ack_outbound, backoff, retry, outbound_tick,
}

abbrev pub is_held : {A : Type 0} → Option A → Bool
is_held none = false
is_held (some v) = true

pub lookup-release :
    (rounds s k : ℕ) (m : List (ℕ × OutFrame))
    → lookup k (release rounds s m) ≡ (if leb s k && ltb k (s + rounds) then none else lookup k m)
unfolding release
lookup-release zero s k m = ground arith
lookup-release (suc rounds) s k m =
    ground (arith, lookup-release rounds (s + 1) k (delete s m), lookup-delete s k m)

-- The frames buffered are exactly those from `send_base` up to `tx_seq`, and each of them has the
-- property `P` as the packet that carries it.
pub record IsWindow {F : Type 0} (P : RdtPacket → Type 0) (t : Outflow F) : Type 0 where
  pub order : t.send_base ≤ t.tx_seq
  pub exact : (k : ℕ) → is_held (lookup k t.inflight) ≡ (leb t.send_base k && ltb k t.tx_seq)
  pub genuine : (k : ℕ) (f : OutFrame) → lookup k t.inflight ≡ some f → P (packet k f)

module _ {F : Type 0} (fl : Float64 F) (P : RdtPacket → Type 0) where
  -- The window depends on three of the fields.
  pub IsWindow-same :
      (t t' : Outflow F)
      → IsWindow P t
      → t'.inflight ≡ t.inflight
      → t'.send_base ≡ t.send_base
      → t'.tx_seq ≡ t.tx_seq
      → IsWindow P t'
  IsWindow-same t t' h e e' e'' = record {
    order = rw (e', e'') h.order;
    exact = λ k. rw (e, e', e'') (h.exact k);
    genuine = λ k f held. h.genuine k f (sym (ap (lookup k) e) ∙ held);
  }

  pub cut_same :
      (t : Outflow F) (now : ℕ)
      → let t' = cwnd_cut_half fl t now in
        (t'.inflight ≡ t.inflight) × (t'.send_base ≡ t.send_base) × (t'.tx_seq ≡ t.tx_seq)
  unfolding cwnd_cut_half
  cut_same t now = ground arith

  sample_same :
      (t : Outflow F) (ack now : ℕ)
      → let t' = sample_acked t ack now in
        (t'.inflight ≡ t.inflight) × (t'.send_base ≡ t.send_base) × (t'.tx_seq ≡ t.tx_seq)
  unfolding sample_acked sample_rtt
  sample_same t ack now = ground arith

  pub genuine-insert :
      (m : List (ℕ × OutFrame)) (s : ℕ) (f₀ : OutFrame)
      → ((k : ℕ) (f : OutFrame) → lookup k m ≡ some f → P (packet k f))
      → P (packet s f₀)
      → (k : ℕ) (f : OutFrame) → lookup k (insert s f₀ m) ≡ some f
      → P (packet k f)
  genuine-insert m s f₀ h good k f held = elim (Bool-cases (s == k)) [
    | inl here ↦
        let same : s ≡ k = ground arith in
        let e : f₀ ≡ f = ground (arith, lookup-insert s k f₀ m) in rw (← same, ← e) good
    | inr other ↦ h k f (ground (arith, lookup-insert s k f₀ m))
  ]

  pub send_reliable-IsWindow :
      (t : Outflow F) (type b16 conn : ℕ) (payload : Bytes) (now : ℕ)
      → t.tx_seq < 2 ^ 64 - 1
      → IsWindow P t
      → let (t', p) = send_reliable t type b16 conn payload now in P p → IsWindow P t'
  unfolding send_reliable
  send_reliable-IsWindow t type b16 conn payload now lt h good = record {
    order = omega (arith, h.order);
    exact = λ k. ground (
      arith,
      lookup-insert t.tx_seq k
          (record {
            type = type;
            b16 = b16;
            conn = conn;
            payload = payload;
            sent_at = now;
            retx = false;
          })
          t.inflight,
      h.exact k,
      h.order,
    );
    genuine =
        genuine-insert t.inflight t.tx_seq
          (record {
            type = type;
            b16 = b16;
            conn = conn;
            payload = payload;
            sent_at = now;
            retx = false;
          })
          h.genuine good;
  }

  -- Sending the oldest frame again leaves the window as it is.
  remark-IsWindow :
      (t : Outflow F) (f : OutFrame) (now : ℕ)
      → IsWindow P t
      → lookup t.send_base t.inflight ≡ some f
      → IsWindow P (record t {
        inflight = insert t.send_base (record f { retx = true }) t.inflight;
        last_retx = now;
      })
  remark-IsWindow t f now h held = record {
    order = h.order;
    exact = λ k. ground (
      arith,
      lookup-insert t.send_base k (record f { retx = true }) t.inflight,
      h.exact k,
      h.exact t.send_base,
    );
    genuine =
        genuine-insert t.inflight t.send_base (record f { retx = true }) h.genuine
          (h.genuine t.send_base f held);
  }

  -- What a retransmission does, by what it finds at `send_base`.
  pub resend_none :
      (t : Outflow F) (now : ℕ)
      → lookup t.send_base t.inflight ≡ none
      → resend_oldest fl t now ≡ (cwnd_cut_half fl (record t { last_retx = now }) now, [])
  unfolding resend_oldest
  resend_none t now e = rw (e, resend_oldest) refl

  pub resend_some :
      (t : Outflow F) (f : OutFrame) (now : ℕ)
      → lookup t.send_base t.inflight ≡ some f
      → resend_oldest fl t now ≡ (
        cwnd_cut_half fl
            (record t {
              inflight = insert t.send_base (record f { retx = true }) t.inflight;
              last_retx = now;
            })
            now,
        packet t.send_base f ∷ [],
      )
  unfolding resend_oldest
  resend_some t f now e = rw (e, resend_oldest) refl

  resend_oldest-IsWindow :
      (t : Outflow F) (now : ℕ)
      → IsWindow P t
      → let (t', out) = resend_oldest fl t now in IsWindow P t' × All P out
  resend_oldest-IsWindow t now h = elim (Option-cases (lookup t.send_base t.inflight)) [
    | inl none_held ↦
        let r : Outflow F = record t { last_retx = now } in
        let (e, e', e'') = cut_same r now in
        rw (resend_none t now none_held)
          (IsWindow-same r _ (IsWindow-same t r h refl refl refl) e e' e'', tt)
    | inr (f, held) ↦
        let r : Outflow F = record t {
          inflight = insert t.send_base (record f { retx = true }) t.inflight;
          last_retx = now;
        } in
        let (e, e', e'') = cut_same r now in
        rw (resend_some t f now held) (
          IsWindow-same r _ (remark-IsWindow t f now h held) e e' e'',
          (h.genuine t.send_base f held, tt),
        )
  ]

  advance-IsWindow :
      (t : Outflow F) (ack now : ℕ)
      → IsWindow P t
      → t.send_base < add64 ack 1
      → add64 ack 1 ≤ t.tx_seq
      → IsWindow P (advance fl t ack now)
  unfolding advance
  advance-IsWindow t ack now h lo hi =
      let (_, _, same) = sample_same t ack now in
      let new_base = add64 ack 1 in
      record {
        order = rw same hi;
        exact = λ k. ground (
          arith,
          same,
          lookup-release (new_base - t.send_base) t.send_base k t.inflight,
          h.exact k,
        );
        genuine = λ k f held.
            h.genuine k f
              (ground (arith, lookup-release (new_base - t.send_base) t.send_base k t.inflight));
      }

  duplicate_ack-IsWindow :
      (t : Outflow F) (now : ℕ)
      → IsWindow P t
      → let (t', out) = duplicate_ack fl t now in IsWindow P t' × All P out
  unfolding duplicate_ack
  duplicate_ack-IsWindow t now h =
      let r : Outflow F = record t { dup_acks = t.dup_acks + 1 } in
      let kept = IsWindow-same t r h refl refl refl in
      let (again, sound) = resend_oldest-IsWindow r now kept in
      elim (Bool-cases (leb 3 (t.dup_acks + 1))) [
        | inl third ↦
            rw third (IsWindow-same (resend_oldest fl r now).0 _ again refl refl refl, sound)
        | inr early ↦ rw early (kept, tt)
      ]

  pub ack_outbound-IsWindow :
      (t : Outflow F) (ack now : ℕ)
      → IsWindow P t
      → let (t', out) = ack_outbound fl t ack now in IsWindow P t' × All P out
  unfolding ack_outbound
  ack_outbound-IsWindow t ack now h =
      elim (Bool-cases (ltb t.send_base (add64 ack 1) && leb (add64 ack 1) t.tx_seq)) [
        | inl moves ↦ rw moves (
          IsWindow-same (advance fl t ack now) _
              (advance-IsWindow t ack now h (ground arith) (ground arith)) refl refl refl,
          tt,
        )
        | inr still ↦ elim (Bool-cases (ltb t.send_base t.tx_seq && ack == t.last_ack_seq)) [
          | inl again ↦
              let (kept, sound) = duplicate_ack-IsWindow t now h in
              rw (still, again)
                (IsWindow-same (duplicate_ack fl t now).0 _ kept refl refl refl, sound)
          | inr other ↦ rw (still, other) (IsWindow-same t _ h refl refl refl, tt)
        ]
      ]

  pub outbound_tick-IsWindow :
      (t : Outflow F) (now : ℕ)
      → IsWindow P t
      → let (t', out, _) = outbound_tick fl t now in IsWindow P t' × All P out
  unfolding outbound_tick retry
  outbound_tick-IsWindow t now h =
      let (again, sound) = resend_oldest-IsWindow t now h in
      elim (Bool-cases (leb t.tx_seq t.send_base)) [
        | inl idle ↦ rw idle (h, tt)
        | inr busy ↦ elim (Bool-cases (ltb (backoff t) (now - t.last_retx))) [
          | inl due ↦
              rw (busy, due)
                (IsWindow-same (resend_oldest fl t now).0 _ again refl refl refl, sound)
          | inr early ↦ rw (busy, early) (h, tt)
        ]
      ]

  -- Only a submission moves `tx_seq`.
  resend_tx : (t : Outflow F) (now : ℕ) → (resend_oldest fl t now).0.tx_seq ≡ t.tx_seq
  unfolding resend_oldest cwnd_cut_half
  resend_tx t now = ground arith

  pub ack_tx : (t : Outflow F) (ack now : ℕ) → (ack_outbound fl t ack now).0.tx_seq ≡ t.tx_seq
  unfolding ack_outbound advance duplicate_ack
  ack_tx t ack now =
      ground (arith, sample_same t ack now, resend_tx (record t { dup_acks = t.dup_acks + 1 }) now)

  pub tick_tx : (t : Outflow F) (now : ℕ) → (outbound_tick fl t now).0.tx_seq ≡ t.tx_seq
  unfolding outbound_tick retry
  tick_tx t now = ground (arith, resend_tx t now)
