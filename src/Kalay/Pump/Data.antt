-- ===== src/Kalay/Pump/Data.antt =====
-- What the sending stages of `pump` send: data frames, and no ACK.
use seestar_remote.Base.{
  ℕ, zero, suc, ◌-◌, ◌≡◌, refl, ◌&&◌, List, [], ◌∷◌, ltb, ◌==◌, length, take, drop, min, Bool-cases,
  inl, inr, All, All-append,
}
use seestar_remote.Base.Bytes.{Bytes}
use seestar_remote.Kalay.Rdt.{RdtPacket}
use seestar_remote.Kalay.GoBackN.{
  Float64, Limits, Outflow, send_reliable, ack_outbound, fill_window, cwnd_frames,
}
use seestar_remote.Kalay.GoBackN.Stock.{IsStock, send_reliable-IsStock, ack_outbound-IsStock}
use seestar_remote.Kalay.Tunnel.{start_open}
use seestar_remote.Kalay.Pump.{
  Pump, Arrivals, send_all, payloads_of, ack_frame, ack_all, send_stage,
}

-- Frames of another type are no ACKs.
abbrev pub IsData : RdtPacket → Type 0
IsData p = p.type ≡ 0x02

module _ {F : Type 0} where
  pub send_all-IsData :
      (fl : Float64 F) (t : Outflow F) (conn : ℕ) (ps : List Bytes) (now : ℕ)
      → IsStock IsData t
      → let (t', out) = send_all t conn ps now in IsStock IsData t' × All IsData out
  unfolding send_all
  send_all-IsData fl t conn [] now h = (h, tt)
  send_all-IsData fl t conn (p ∷ ps) now h =
      let sent : IsData (send_reliable t 0x02 0x01 conn p now).1 = unfold send_reliable in refl in
      let (h', rest) =
        send_all-IsData fl (send_reliable t 0x02 0x01 conn p now).0 conn ps now
          (send_reliable-IsStock fl IsData t 0x02 0x01 conn p now h sent) in
      (h', (sent, rest))

module _ {F : Type 0} (fl : Float64 F) where
  pub ack_all-IsData :
      (t : Outflow F) (now : ℕ) (fs : List RdtPacket)
      → IsStock IsData t
      → let (t', out) = ack_all fl t now fs in IsStock IsData t' × All IsData out
  unfolding ack_all ack_frame
  ack_all-IsData t now [] h = (h, tt)
  ack_all-IsData t now (f ∷ fs) h = elim (Bool-cases (f.type == 0x46)) [
    | inl is_ack ↦
        let (h', out) = ack_outbound-IsStock fl IsData t f.seq now h in
        let (h'', rest) = ack_all-IsData (ack_outbound fl t f.seq now).0 now fs h' in
        rw is_ack (h'', All-append IsData _ _ out rest)
    | inr other ↦ rw other (ack_all-IsData t now fs h)
  ]

  fill_window-IsData :
      (fuel : ℕ) (lim : Limits) (conn : ℕ) (t : Outflow F) (pending : Bytes) (now : ℕ)
      → IsStock IsData t
      → let (t', left, out) = fill_window fl fuel lim conn t pending now in
        IsStock IsData t' × All IsData out
  unfolding fill_window
  fill_window-IsData zero lim conn t pending now h = (h, tt)
  fill_window-IsData (suc fuel) lim conn t pending now h =
      let n = min lim.max_frame (length pending) in
      let sent : IsData (send_reliable t 0x02 0x01 conn (take n pending) now).1 =
        unfold send_reliable in refl in
      let t' = (send_reliable t 0x02 0x01 conn (take n pending) now).0 in
      let (h', rest) =
        fill_window-IsData fuel lim conn t' (drop n pending) now
          (send_reliable-IsStock fl IsData t 0x02 0x01 conn (take n pending) now h sent) in
      elim (Bool-cases
        (ltb 0 (length pending) && ltb (t.tx_seq - t.send_base) (cwnd_frames fl lim t))) [
          | inl goes ↦ rw goes (h', (sent, rest))
          | inr stops ↦ rw stops (h, tt)
        ]

  pub send_stage-IsData :
      (lim : Limits) (t : Pump F) (a : Arrivals)
      → IsStock IsData t.flow
      → let (t', out) = send_stage fl lim t a in
        IsStock IsData t'.flow × All IsData out × (t'.inward ≡ t.inward)
  unfolding send_stage
  send_stage-IsData lim t a h =
      let (h₁, out₁) =
        send_all-IsData fl t.flow t.dev_conn (payloads_of (start_open t.channels).1) a.now h in
      let (h₂, out₂) = send_all-IsData fl _ t.dev_conn a.ctrl a.now h₁ in
      let (h₃, out₃) = fill_window-IsData _ lim t.dev_conn _ _ a.now h₂ in
      (h₃, All-append IsData _ _ out₁ (All-append IsData _ _ out₂ out₃), refl)
