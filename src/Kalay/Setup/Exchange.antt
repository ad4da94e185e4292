-- ===== src/Kalay/Setup/Exchange.antt =====
-- What the exchange sends, whatever the device answers.
use seestar_remote.Base.{
  ℕ, ◌+◌, ◌-◌, ◌*◌, ◌≡◌, refl, sym, ap, ap₂, ◌∙◌, Bool, true, false, ◌&&◌, ◌||◌, none, some, List,
  [], ◌∷◌, ◌++◌, append_assoc, append-nil, leb, ◌==◌, if◌then◌else◌, Bool-cases, inl, inr, arith,
}
use seestar_remote.Base.Bytes.{Bytes}
use seestar_remote.Kalay.Rdt.{RdtPacket}
use seestar_remote.Kalay.Tunnel.{p2p_port_connect, p2p_connect_addr}
use seestar_remote.Kalay.GoBackN.{millisecond}
use seestar_remote.Kalay.Setup.{
  p2p_session, SetupState, setup_reply, setup_frame, setup_frames, setup_keepalive, setup_round,
  setup_loop, setup_start, setup,
}

-- The payloads of the reliable frames sent under a number.
abbrev pub sent_as : ℕ → List RdtPacket → List Bytes
sent_as k [] = []
sent_as k (p ∷ out) =
    if p.type == 0x02 && p.seq == k then p.payload ∷ sent_as k out else sent_as k out

abbrev pub once : Bool → Bytes → List Bytes
once true m = m ∷ []
once false m = []

sent_as-append :
    (k : ℕ) (xs ys : List RdtPacket) → sent_as k (xs ++ ys) ≡ sent_as k xs ++ sent_as k ys
sent_as-append k [] ys = refl
sent_as-append k (p ∷ xs) ys = ground (arith, sent_as-append k xs ys)

-- From `s` to `s'` each of the three messages goes out when its flag is set, and not again.
pub record IsOnce (port : ℕ) (s s' : SetupState) (out : List RdtPacket) : Type 0 where
  pub session : once s.syn_acked p2p_session ++ sent_as 0 out ≡ once s'.syn_acked p2p_session
  pub connect :
      once s.session_open (p2p_port_connect 0x01 port) ++ sent_as 1 out
      ≡ once s'.session_open (p2p_port_connect 0x01 port)
  pub address :
      once s.ready (p2p_connect_addr 0x01 port) ++ sent_as 2 out
      ≡ once s'.ready (p2p_connect_addr 0x01 port)

IsOnce-none : (port : ℕ) (s : SetupState) → IsOnce port s s []
IsOnce-none port s = record {
  session = append-nil _;
  connect = append-nil _;
  address = append-nil _;
}

once_then :
    (a b c : List Bytes) (k : ℕ) (xs ys : List RdtPacket)
    → a ++ sent_as k xs ≡ b
    → b ++ sent_as k ys ≡ c
    → a ++ sent_as k (xs ++ ys) ≡ c
once_then a b c k xs ys e e' =
    ap (λ t. a ++ t) (sent_as-append k xs ys)
    ∙ sym (append_assoc a (sent_as k xs) (sent_as k ys))
    ∙ ap (λ t. t ++ sent_as k ys) e
    ∙ e'

IsOnce-append :
    (port : ℕ) (s s' s'' : SetupState) (xs ys : List RdtPacket)
    → IsOnce port s s' xs
    → IsOnce port s' s'' ys
    → IsOnce port s s'' (xs ++ ys)
IsOnce-append port s s' s'' xs ys h h' = record {
  session = once_then _ _ _ 0 xs ys h.session h'.session;
  connect = once_then _ _ _ 1 xs ys h.connect h'.connect;
  address = once_then _ _ _ 2 xs ys h.address h'.address;
}

setup_frame-IsOnce :
    (port : ℕ) (s : SetupState) (f : RdtPacket)
    → let (s', out) = setup_frame port s f in IsOnce port s s' out
unfolding setup_frame setup_reply
setup_frame-IsOnce port s f = record {
  session = ground arith;
  connect = ground arith;
  address = ground arith;
}

setup_frames-IsOnce :
    (port : ℕ) (s : SetupState) (fs : List RdtPacket)
    → let (s', out) = setup_frames port s fs in IsOnce port s s' out
unfolding setup_frames
setup_frames-IsOnce port s [] = IsOnce-none port s
setup_frames-IsOnce port s (f ∷ fs) =
    IsOnce-append port s (setup_frame port s f).0 _ (setup_frame port s f).1 _
      (setup_frame-IsOnce port s f) (setup_frames-IsOnce port (setup_frame port s f).0 fs)

setup_keepalive-IsOnce :
    (port : ℕ) (s : SetupState) (now : ℕ)
    → let (s', out) = setup_keepalive s now in IsOnce port s s' out
unfolding setup_keepalive
setup_keepalive-IsOnce port s now = record {
  session = ground (arith, append-nil (once s.syn_acked p2p_session));
  connect = ground (arith, append-nil (once s.session_open (p2p_port_connect 0x01 port)));
  address = ground (arith, append-nil (once s.ready (p2p_connect_addr 0x01 port)));
}

setup_round-IsOnce :
    (port : ℕ) (s : SetupState) (now : ℕ) (fs : List RdtPacket)
    → let (s', out) = setup_round port s now fs in IsOnce port s s' out
unfolding setup_round
setup_round-IsOnce port s now fs =
    IsOnce-append port s (setup_keepalive s now).0 _ (setup_keepalive s now).1 _
      (setup_keepalive-IsOnce port s now) (setup_frames-IsOnce port (setup_keepalive s now).0 fs)

-- An iteration of the loop, by its test.
loop_done :
    (port deadline : ℕ) (s : SetupState) (now : ℕ) (fs : List RdtPacket)
    (rounds : List (ℕ × List RdtPacket))
    → (s.ready || leb deadline now) ≡ true
    → setup_loop port deadline s ((now, fs) ∷ rounds) ≡ (s, [])
unfolding setup_loop
loop_done port deadline s now fs rounds e = simp e refl

loop_on :
    (port deadline : ℕ) (s : SetupState) (now : ℕ) (fs : List RdtPacket)
    (rounds : List (ℕ × List RdtPacket))
    → (s.ready || leb deadline now) ≡ false
    → let (s', out) = setup_round port s now fs in
      let (s'', more) = setup_loop port deadline s' rounds in
      setup_loop port deadline s ((now, fs) ∷ rounds) ≡ (s'', out ++ more)
unfolding setup_loop
loop_on port deadline s now fs rounds e = simp e refl

loop_nil : (port deadline : ℕ) (s : SetupState) → setup_loop port deadline s [] ≡ (s, [])
unfolding setup_loop
loop_nil port deadline s = refl

setup_loop-IsOnce :
    (port deadline : ℕ) (s : SetupState) (rounds : List (ℕ × List RdtPacket))
    → let (s', out) = setup_loop port deadline s rounds in IsOnce port s s' out
setup_loop-IsOnce port deadline s [] = rw (loop_nil port deadline s) (IsOnce-none port s)
setup_loop-IsOnce port deadline s ((now, fs) ∷ rounds) =
    elim (Bool-cases (s.ready || leb deadline now)) [
      | inl e ↦ rw (loop_done port deadline s now fs rounds e) (IsOnce-none port s)
      | inr e ↦
          let s' = (setup_round port s now fs).0 in
          rw (loop_on port deadline s now fs rounds e) (
            IsOnce-append port s s' _ (setup_round port s now fs).1 _
              (setup_round-IsOnce port s now fs) (setup_loop-IsOnce port deadline s' rounds))
    ]

-- Whatever the device answers and however often, `setup` sends the session message, the port-connect
-- message and the connect-address message as numbers 0, 1 and 2 of the reliable stream, each at most
-- once; it succeeds exactly when the last of them has gone out, and the stream goes on at number 3.
pub setup-once :
    (port start : ℕ) (rounds : List (ℕ × List RdtPacket))
    → let (r, out) = setup port start rounds in
      (s : SetupState) × (sent_as 0 out ≡ once s.syn_acked p2p_session)
      × (sent_as 1 out ≡ once s.session_open (p2p_port_connect 0x01 port))
      × (sent_as 2 out ≡ once s.ready (p2p_connect_addr 0x01 port))
      × (r ≡ (if s.ready then some (s.dev_conn, 3) else none))
unfolding setup
setup-once port start rounds =
    let s₀ : SetupState = record (setup_start 0) { last_ka = start - 1000 * millisecond } in
    let deadline = start + 20000 * millisecond in
    let h = setup_loop-IsOnce port deadline s₀ rounds in
    ((setup_loop port deadline s₀ rounds).0, h.session, h.connect, h.address, refl)

-- The sequence numbers acknowledged, and those of the data frames read.
abbrev pub acks_in : List RdtPacket → List ℕ
acks_in [] = []
acks_in (p ∷ out) = if p.type == 0x46 then p.seq ∷ acks_in out else acks_in out

abbrev pub data_seqs : List RdtPacket → List ℕ
data_seqs [] = []
data_seqs (f ∷ fs) = if f.type == 0x02 then f.seq ∷ data_seqs fs else data_seqs fs

acks_in-append : (xs ys : List RdtPacket) → acks_in (xs ++ ys) ≡ acks_in xs ++ acks_in ys
acks_in-append [] ys = refl
acks_in-append (p ∷ xs) ys = ground (arith, acks_in-append xs ys)

acks_in-setup_frame :
    (port : ℕ) (s : SetupState) (f : RdtPacket)
    → acks_in (setup_frame port s f).1 ≡ data_seqs (f ∷ [])
unfolding setup_frame setup_reply
acks_in-setup_frame port s f = ground arith

-- `setup` acknowledges each data frame that it reads by that frame's own number, also one that comes
-- behind a gap.
pub acks_in-setup_frames :
    (port : ℕ) (s : SetupState) (fs : List RdtPacket)
    → acks_in (setup_frames port s fs).1 ≡ data_seqs fs
unfolding setup_frames
acks_in-setup_frames port s [] = refl
acks_in-setup_frames port s (f ∷ fs) =
    let (s', out) = setup_frame port s f in
    acks_in-append out (setup_frames port s' fs).1
    ∙ ap₂ (λ a b. a ++ b) (acks_in-setup_frame port s f) (acks_in-setup_frames port s' fs)
    ∙ ground arith
