-- ===== src/Kalay/GoBackN/Stock.antt =====
-- What is buffered for retransmission, at any sequence number, the wrap-around included.
use seestar_remote.Base.{
  ℕ, ◌+◌, ◌-◌, ◌≡◌, sym, ap, ◌∙◌, true, false, ◌&&◌, some, ltb, leb, ◌==◌, Bool-cases, Option-cases,
  inl, inr, All, arith,
}
use seestar_remote.Base.Bytes.{Bytes, add64}
use seestar_remote.Base.AssocMap.{lookup, insert}
use seestar_remote.Kalay.Rdt.{RdtPacket}
use seestar_remote.Kalay.GoBackN.{
  Float64, OutFrame, Outflow, packet, send_reliable, cwnd_cut_half, resend_oldest, advance,
  duplicate_ack, ack_outbound, backoff, retry, outbound_tick,
}
use seestar_remote.Kalay.GoBackN.Window.{
  lookup-release, genuine-insert, cut_same, resend_none, resend_some,
}

-- Each frame buffered has the property `P` as the packet that carries it.
abbrev pub IsStock : {F : Type 0} → (RdtPacket → Type 0) → Outflow F → Type 0
IsStock P t = (k : ℕ) (f : OutFrame) → lookup k t.inflight ≡ some f → P (packet k f)

module _ {F : Type 0} (fl : Float64 F) (P : RdtPacket → Type 0) where
  IsStock-same : (t t' : Outflow F) → IsStock P t → t'.inflight ≡ t.inflight → IsStock P t'
  IsStock-same t t' h e k f held = h k f (sym (ap (lookup k) e) ∙ held)

  pub send_reliable-IsStock :
      (t : Outflow F) (type b16 conn : ℕ) (payload : Bytes) (now : ℕ)
      → IsStock P t
      → let (t', p) = send_reliable t type b16 conn payload now in P p → IsStock P t'
  unfolding send_reliable
  send_reliable-IsStock t type b16 conn payload now h good =
      genuine-insert fl P t.inflight t.tx_seq
        (record {
          type = type;
          b16 = b16;
          conn = conn;
          payload = payload;
          sent_at = now;
          retx = false;
        })
        h good

  resend_oldest-IsStock :
      (t : Outflow F) (now : ℕ)
      → IsStock P t
      → let (t', out) = resend_oldest fl t now in IsStock P t' × All P out
  resend_oldest-IsStock t now h = elim (Option-cases (lookup t.send_base t.inflight)) [
    | inl none_held ↦
        let r : Outflow F = record t { last_retx = now } in
        rw (resend_none fl P t now none_held)
          (IsStock-same r (cwnd_cut_half fl r now) h ((cut_same fl P r now).0), tt)
    | inr (f, held) ↦
        let r : Outflow F = record t {
          inflight = insert t.send_base (record f { retx = true }) t.inflight;
          last_retx = now;
        } in
        rw (resend_some fl P t f now held) (
          IsStock-same r (cwnd_cut_half fl r now)
              (genuine-insert fl P t.inflight t.send_base (record f { retx = true }) h
                (h t.send_base f held))
              ((cut_same fl P r now).0),
          (h t.send_base f held, tt),
        )
  ]

  advance-IsStock : (t : Outflow F) (ack now : ℕ) → IsStock P t → IsStock P (advance fl t ack now)
  unfolding advance
  advance-IsStock t ack now h k f held =
      h k f (ground (arith, lookup-release (add64 ack 1 - t.send_base) t.send_base k t.inflight))

  duplicate_ack-IsStock :
      (t : Outflow F) (now : ℕ)
      → IsStock P t
      → let (t', out) = duplicate_ack fl t now in IsStock P t' × All P out
  unfolding duplicate_ack
  duplicate_ack-IsStock t now h =
      let r : Outflow F = record t { dup_acks = t.dup_acks + 1 } in
      let (again, sound) = resend_oldest-IsStock r now h in
      elim (Bool-cases (leb 3 (t.dup_acks + 1))) [
        | inl third ↦ rw third (again, sound)
        | inr early ↦ rw early (h, tt)
      ]

  pub ack_outbound-IsStock :
      (t : Outflow F) (ack now : ℕ)
      → IsStock P t
      → let (t', out) = ack_outbound fl t ack now in IsStock P t' × All P out
  unfolding ack_outbound
  ack_outbound-IsStock t ack now h =
      elim (Bool-cases (ltb t.send_base (add64 ack 1) && leb (add64 ack 1) t.tx_seq)) [
        | inl moves ↦ rw moves (advance-IsStock t ack now h, tt)
        | inr still ↦ elim (Bool-cases (ltb t.send_base t.tx_seq && ack == t.last_ack_seq)) [
          | inl again ↦ rw (still, again) (duplicate_ack-IsStock t now h)
          | inr other ↦ rw (still, other) (h, tt)
        ]
      ]

  pub outbound_tick-IsStock :
      (t : Outflow F) (now : ℕ)
      → IsStock P t
      → let (t', out, _) = outbound_tick fl t now in IsStock P t' × All P out
  unfolding outbound_tick retry
  outbound_tick-IsStock t now h =
      let (again, sound) = resend_oldest-IsStock t now h in
      elim (Bool-cases (leb t.tx_seq t.send_base)) [
        | inl idle ↦ rw idle (h, tt)
        | inr busy ↦ elim (Bool-cases (ltb (backoff t) (now - t.last_retx))) [
          | inl due ↦ rw (busy, due) (again, sound)
          | inr early ↦ rw (busy, early) (h, tt)
        ]
      ]
