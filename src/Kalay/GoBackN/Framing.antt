-- ===== src/Kalay/GoBackN/Framing.antt =====
-- The framing loop: the queued bytes leave in order, in pieces, and never past the window.
use seestar_remote.Base.{
  ℕ, zero, suc, ◌+◌, ◌-◌, ◌^◌, ◌≤◌, ◌<◌, ◌≡◌, refl, ap, ◌∙◌, true, false, ◌&&◌, List, [], ◌∷◌, ◌++◌,
  append_assoc, ltb, length, take, drop, min, take-append_drop, length-take, length-drop,
  Bool-cases, inl, inr, ◌⊎◌, All, arith,
}
use seestar_remote.Base.Bytes.{Bytes}
use seestar_remote.Kalay.Rdt.{RdtPacket}
use seestar_remote.Kalay.GoBackN.{Float64, Limits, Outflow, cwnd_frames, send_reliable, fill_window}
use seestar_remote.Kalay.GoBackN.Timing.{cwnd_frames-bounds}

-- The bytes of the frames, one behind the other.
abbrev pub carried : List RdtPacket → Bytes
carried [] = []
carried (p ∷ ps) = p.payload ++ carried ps

-- A frame has a byte at least, and not more than the limit.
abbrev pub IsSized : Limits → RdtPacket → Type 0
IsSized lim p = (0 < length p.payload) × (length p.payload ≤ lim.max_frame)

module _ {F : Type 0} (fl : Float64 F) (lim : Limits) where
  -- What the loop has done when it stops.
  pub record IsFramed (t : Outflow F) (pending : Bytes) (t' : Outflow F) (left : Bytes)
      (out : List RdtPacket) : Type 0 where
    pub bytes : carried out ++ left ≡ pending
    pub sized : All (IsSized lim) out
    pub base : t'.send_base ≡ t.send_base
    pub counted : t'.tx_seq ≡ t.tx_seq + length out
    pub bounded :
        t'.tx_seq - t'.send_base ≤ t.tx_seq - t.send_base
        ⊎ t'.tx_seq - t'.send_base ≤ lim.send_window
    pub full : left ≡ [] ⊎ cwnd_frames fl lim t' ≤ t'.tx_seq - t'.send_base

  IsFramed-none :
      (t : Outflow F) (pending : Bytes)
      → pending ≡ [] ⊎ cwnd_frames fl lim t ≤ t.tx_seq - t.send_base
      → IsFramed t pending t pending []
  IsFramed-none t pending full = record {
    bytes = refl;
    sized = tt;
    base = refl;
    counted = omega arith;
    bounded = inl (omega arith);
    full = full;
  }

  framed_zero :
      (conn now : ℕ) (t : Outflow F) (pending : Bytes)
      → fill_window fl zero lim conn t pending now ≡ (t, pending, [])
  unfolding fill_window
  framed_zero conn now t pending = refl

  -- The loop stops.
  framed_stop :
      (fuel conn now : ℕ) (t : Outflow F) (pending : Bytes)
      → (ltb 0 (length pending) && ltb (t.tx_seq - t.send_base) (cwnd_frames fl lim t)) ≡ false
      → fill_window fl (suc fuel) lim conn t pending now ≡ (t, pending, [])
  unfolding fill_window
  framed_stop fuel conn now t pending e = simp e refl

  -- The loop goes on, behind a frame of the first `n` bytes.
  framed_go :
      (fuel conn now : ℕ) (t : Outflow F) (pending : Bytes)
      → (ltb 0 (length pending) && ltb (t.tx_seq - t.send_base) (cwnd_frames fl lim t)) ≡ true
      → let n = min lim.max_frame (length pending) in
        let (t', p) = send_reliable t 0x02 0x01 conn (take n pending) now in
        let (t'', left, more) = fill_window fl fuel lim conn t' (drop n pending) now in
        fill_window fl (suc fuel) lim conn t pending now ≡ (t'', left, p ∷ more)
  unfolding fill_window
  framed_go fuel conn now t pending e = simp e refl

  -- A frame sent in front of what the rest of the loop does.
  IsFramed-first :
      (conn now n : ℕ) (t : Outflow F) (pending : Bytes)
      → 0 < n
      → n ≤ lim.max_frame
      → n ≤ length pending
      → t.tx_seq < 2 ^ 64 - 1
      → t.tx_seq - t.send_base < cwnd_frames fl lim t
      → let (t', p) = send_reliable t 0x02 0x01 conn (take n pending) now in
        (t'' : Outflow F) (left : Bytes) (more : List RdtPacket)
        → IsFramed t' (drop n pending) t'' left more
        → IsFramed t pending t'' left (p ∷ more)
  unfolding send_reliable
  IsFramed-first conn now n t pending pos small fits lt room t'' left more rest = record {
    bytes =
        append_assoc (take n pending) (carried more) left
        ∙ ap (λ z. take n pending ++ z) rest.bytes
        ∙ take-append_drop n pending;
    sized = let len = length-take n pending in ((omega arith, omega arith), rest.sized);
    base = rest.base;
    counted = omega (arith, rest.counted);
    bounded = ground (arith, cwnd_frames-bounds fl lim t, rest.bounded, rest.base);
    full = rest.full;
  }

  sent_next :
      (t : Outflow F) (conn now n : ℕ) (pending : Bytes)
      → t.tx_seq < 2 ^ 64 - 1
      → (send_reliable t 0x02 0x01 conn (take n pending) now).0.tx_seq ≡ t.tx_seq + 1
  unfolding send_reliable
  sent_next t conn now n pending lt = omega arith

  -- The framing loop sends the queued bytes in order, as frames of one byte up to `max_frame`, and
  -- keeps the rest. It numbers them on, leaves in flight no more than before or `send_window`, and
  -- stops only with nothing left or the congestion window full. Fuel for each byte is enough.
  pub fill_window-IsFramed :
      (fuel conn now : ℕ) (t : Outflow F) (pending : Bytes)
      → 0 < lim.max_frame
      → length pending ≤ fuel
      → t.tx_seq + length pending < 2 ^ 64
      → let (t', left, out) = fill_window fl fuel lim conn t pending now in
        IsFramed t pending t' left out
  fill_window-IsFramed zero conn now t [] some_size few room =
      rw (framed_zero conn now t []) (IsFramed-none t [] (inl refl))
  fill_window-IsFramed zero conn now t (b ∷ bs) some_size few room = absurd (omega arith)
  fill_window-IsFramed (suc fuel) conn now t pending some_size few room =
      elim (Bool-cases
        (ltb 0 (length pending) && ltb (t.tx_seq - t.send_base) (cwnd_frames fl lim t))) [
          | inl goes ↦
              let n = min lim.max_frame (length pending) in
              let (t', p) = send_reliable t 0x02 0x01 conn (take n pending) now in
              let pos : 0 < length pending = ground arith in
              let free : t.tx_seq - t.send_base < cwnd_frames fl lim t = ground arith in
              let next : t'.tx_seq ≡ t.tx_seq + 1 = sent_next t conn now n pending (omega arith) in
              let len = length-drop n pending in
              let rest =
                fill_window-IsFramed fuel conn now t' (drop n pending) some_size (omega arith)
                  (omega arith) in
              rw (framed_go fuel conn now t pending goes) (
                IsFramed-first conn now n t pending (omega arith) (omega arith) (omega arith)
                  (omega arith) free _ _ _ rest)
          | inr stops ↦
              rw (framed_stop fuel conn now t pending stops)
                (IsFramed-none t pending (ground arith))
        ]
