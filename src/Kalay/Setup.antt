-- ===== src/Kalay/Setup.antt =====
-- kalay/tunnelconn.go: `setup`, the exchange that opens the tunnel's first channel.
pub mod Exchange
use seestar_remote.Base.{
  ℕ, ◌+◌, ◌-◌, ◌*◌, ◌/◌, ◌^◌, Bool, true, false, ◌&&◌, ◌||◌, not, Option, none, some, List, [], ◌∷◌,
  ◌++◌, ltb, leb, ◌==◌, if◌then◌else◌, length,
}
use seestar_remote.Base.Bytes.{Bytes, at}
use seestar_remote.Kalay.Rdt.{RdtPacket}
use seestar_remote.Kalay.GoBackN.{millisecond}
use seestar_remote.Kalay.Tunnel.{p2p_port_connect, p2p_connect_addr}

-- `tunMyConn`
abbrev pub tun_my_conn : ℕ
tun_my_conn = 0x01

abbrev pub p2p_session : Bytes
p2p_session = 0x07 ∷ 0x00 ∷ 0x08 ∷ 0x00 ∷ 0x00 ∷ 0x08 ∷ 0x03 ∷ 0x04 ∷ 0x00 ∷ 0x00 ∷ 0x00 ∷ 0x00 ∷ []

-- The variables of `setup` and the fields of `Tunnel` that it sets.
pub record SetupState : Type 0 where
  pub dev_conn : ℕ
  pub syn_acked : Bool
  pub session_open : Bool
  pub ready : Bool
  pub last_ka : ℕ

abbrev pub rdt : ℕ → ℕ → ℕ → ℕ → Bytes → RdtPacket
rdt type b16 conn seq payload = record {
  type = type;
  seq = seq;
  b16 = b16;
  conn_id = conn;
  payload = payload;
}

abbrev pub is_session_reply : Bytes → Bool
is_session_reply p = leb 2 (length p) && at p 0 == 0x08 && at p 1 == 0x00

abbrev pub is_channel_reply : Bytes → Bool
is_channel_reply p = leb 4 (length p) && at p 0 == 0x0d

-- The case `0x02` of the switch, behind its ACK.
unfoldable pub setup_reply : ℕ → SetupState → Bytes → SetupState × List RdtPacket
setup_reply port s p =
    if is_session_reply p
    then (if not s.session_open
        then (
          record s { session_open = true },
          rdt 0x02 0x01 s.dev_conn 1 (p2p_port_connect 0x01 port) ∷ [],
        )
        else (s, []))
    else if is_channel_reply p
    then (if not s.ready
        then (
          record s { ready = true },
          rdt 0x02 0x01 s.dev_conn 2 (p2p_connect_addr 0x01 port) ∷ [],
        )
        else (s, []))
    else (s, [])

-- What `setup` does with a frame: the state, and the frames that it sends.
unfoldable pub setup_frame : ℕ → SetupState → RdtPacket → SetupState × List RdtPacket
setup_frame port s f =
    let (s', out) = setup_reply port s f.payload in
    if f.type == 0x01
    then (if s.dev_conn == 0 then record s { dev_conn = f.conn_id } else s, [])
    else if f.type == 0x41
    then (if not s.syn_acked
        then (record s { syn_acked = true }, rdt 0x02 0x01 s.dev_conn 0 p2p_session ∷ [])
        else (s, []))
    else if f.type == 0x02
    then (s', rdt 0x46 0x01 s.dev_conn f.seq [] ∷ out)
    else (s, [])

unfoldable pub setup_frames : ℕ → SetupState → List RdtPacket → SetupState × List RdtPacket
setup_frames port s [] = (s, [])
setup_frames port s (f ∷ fs) =
    let (s', out) = setup_frame port s f in
    let (s'', more) = setup_frames port s' fs in (s'', out ++ more)

-- The keepalive at the head of an iteration.
unfoldable pub setup_keepalive : SetupState → ℕ → SetupState × List RdtPacket
setup_keepalive s now =
    if ltb (300 * millisecond) (now - s.last_ka)
    then (
      record s { last_ka = now },
      rdt 0x01 0x00 tun_my_conn 0 []
          ∷ (if not (s.dev_conn == 0) && not s.ready
              then rdt 0x41 0x00 s.dev_conn 0 [] ∷ []
              else []),
    )
    else (s, [])

unfoldable pub setup_round : ℕ → SetupState → ℕ → List RdtPacket → SetupState × List RdtPacket
setup_round port s now fs =
    let (s', out) = setup_keepalive s now in
    let (s'', more) = setup_frames port s' fs in (s'', out ++ more)

-- The loop, on the time of each iteration and the frames that it reads; it stops at the deadline, and
-- once the channel is open.
unfoldable pub setup_loop :
    ℕ → ℕ → SetupState → List (ℕ × List RdtPacket) → SetupState × List RdtPacket
setup_loop port deadline s [] = (s, [])
setup_loop port deadline s ((now, fs) ∷ rounds) =
    let (s', out) = setup_round port s now fs in
    let (s'', more) = setup_loop port deadline s' rounds in
    if s.ready || leb deadline now then (s, []) else (s'', out ++ more)

abbrev pub setup_start : ℕ → SetupState
setup_start dev_conn = record {
  dev_conn = dev_conn;
  syn_acked = false;
  session_open = false;
  ready = false;
  last_ka = 0;
}

-- `setup`, from the time `start` on: the frames sent, and unless the channel did not open,
-- the device's connection and the next sequence number.
unfoldable pub setup : ℕ → ℕ → List (ℕ × List RdtPacket) → Option (ℕ × ℕ) × List RdtPacket
setup port start rounds =
    let (s, out) =
      setup_loop port (start + 20000 * millisecond)
        (record (setup_start 0) { last_ka = start - 1000 * millisecond }) rounds in
    (if s.ready then some (s.dev_conn, 3) else none, out)
