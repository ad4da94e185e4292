-- ===== src/Kalay/Tunnel.antt =====
-- kalay/tunnelconn.go: the channels of a tunnel. `route` on the messages that `pump` demultiplexes,
-- the opening of channels, and their reads. A run of the goroutines that share this state is a
-- sequence of these operations; `OpenChannel` takes two locks, one behind the other, up to where it
-- waits, and is one operation here.
pub mod Routing
pub mod Opening
use seestar_remote.Base.{
  ℕ, ◌+◌, ◌/◌, ◌^◌, Bool, true, false, ◌&&◌, ◌||◌, not, Option, none, some, List, [], ◌∷◌, ◌++◌,
  ltb, ◌==◌, if◌then◌else◌, length, take, drop, replicate,
}
use seestar_remote.Base.Bytes.{Bytes, byte}
use seestar_remote.Base.AssocMap.{lookup, insert, delete}
use seestar_remote.Kalay.Channel.{PTunMsg}

-- `vOpen`. The ticket stands for the identity of the pointer.
pub record VOpen : Type 0 where
  pub port : ℕ
  pub idx : ℕ
  pub sent_port_conn : Bool
  pub ticket : ℕ

-- The fields of `Tunnel` that the channels use.
pub record Channels : Type 0 where
  pub pending : Option VOpen
  pub next_idx : ℕ
  pub last_idx : ℕ
  pub ctrl_idx : ℕ
  pub rbuf : Bytes
  pub chans : List (ℕ × Bytes)
  pub chan_bytes : List (ℕ × ℕ)
  pub tickets : ℕ

-- `p2pPortConnect`
abbrev pub p2p_port_connect : ℕ → ℕ → Bytes
p2p_port_connect idx port =
    0x0c ∷ 0x00 ∷ 0x06 ∷ 0x00 ∷ 0xc7 ∷ idx ∷ byte port ∷ byte (port / 2 ^ 8) ∷ 0x00 ∷ 0x00 ∷ []

-- `p2pConnectAddr`
abbrev pub p2p_connect_addr : ℕ → ℕ → Bytes
p2p_connect_addr idx port =
    (0x01
      ∷ idx
      ∷ 0x34
      ∷ 0x00
      ∷ 0x02
      ∷ 0x00
      ∷ byte (port / 2 ^ 8)
      ∷ byte port
      ∷ 0x7f
      ∷ 0x00
      ∷ 0x00
      ∷ 0x01
      ∷ [])
    ++ replicate 44 0

-- `t.chanBytes[m.Chan] += len(m.Data)`
unfoldable pub count_bytes : ℕ → ℕ → List (ℕ × ℕ) → List (ℕ × ℕ)
count_bytes chan n m = elim (lookup chan m) [
  | none ↦ insert chan n m
  | some k ↦ insert chan (k + n) m
]

-- A data message for an extra channel; on a stale index it is dropped.
unfoldable pub put : ℕ → Bytes → List (ℕ × Bytes) → List (ℕ × Bytes)
put chan bytes m = elim (lookup chan m) [ none ↦ m | some buf ↦ insert chan (buf ++ bytes) m ]

-- What a channel-created reply does: the payload to send on the reliable stream, if an open waits
-- for the reply.
unfoldable pub created : Channels → Channels × Option Bytes
created t = elim t.pending [
  | none ↦ (t, none)
  | some pv ↦
      if pv.sent_port_conn
      then (record t { pending = none }, some (p2p_connect_addr pv.idx pv.port))
      else (t, none)
]

-- The case `0x02` of `route`.
unfoldable pub deliver : Channels → ℕ → Bytes → Channels
deliver t chan bytes =
    let t' = record t { chan_bytes = count_bytes chan (length bytes) t.chan_bytes } in
    if chan == t.ctrl_idx
    then record t' { rbuf = t.rbuf ++ bytes }
    else record t' { chans = put chan bytes t.chans }

-- `route`
unfoldable pub route : Channels → PTunMsg → Channels × Option Bytes
route t m =
    if m.type == 0x02
    then (deliver t m.chan m.payload, none)
    else if m.type == 0x0d
    then created t
    else (t, none)

unfoldable pub route_all : Channels → List PTunMsg → Channels × List Bytes
route_all t [] = (t, [])
route_all t (m ∷ ms) =
    let (t', out) = route t m in
    let (t'', more) = route_all t' ms in elim out [ none ↦ (t'', more) | some p ↦ (t'', p ∷ more) ]

-- The index of the next open, and the one kept for the open after it.
unfoldable pub pick_idx : ℕ → ℕ × ℕ
pick_idx next_idx =
    let idx = if ltb next_idx 0x02 then 0x02 else next_idx in
    let next = byte (idx + 1) in (idx, if next == 0xff || ltb next 0x02 then 0x02 else next)

-- `OpenChannel`, up to where it waits for the reply: `none` while an open is in progress.
unfoldable pub open_channel : Channels → ℕ → Option (Channels × VOpen)
open_channel t port = elim t.pending [
  | some pv ↦ none
  | none ↦
      let (idx, next) = pick_idx t.next_idx in
      let pv : VOpen = record {
        port = port;
        idx = idx;
        sent_port_conn = false;
        ticket = t.tickets;
      } in
      some (
        record t {
          pending = some pv;
          next_idx = next;
          last_idx = idx;
          chans = insert idx [] t.chans;
          tickets = t.tickets + 1;
        },
        pv,
      )
]

-- The step of `pump` that starts a pending open.
unfoldable pub start_open : Channels → Channels × Option Bytes
start_open t = elim t.pending [
  | none ↦ (t, none)
  | some pv ↦
      if not pv.sent_port_conn
      then (
        record t { pending = some (record pv { sent_port_conn = true }) },
        some (p2p_port_connect pv.idx pv.port),
      )
      else (t, none)
]

-- `dropChan`
unfoldable pub drop_chan : Channels → ℕ → Channels
drop_chan t idx = record t { chans = delete idx t.chans }

-- `OpenChannel` when no reply has come in 12 seconds.
unfoldable pub open_timeout : Channels → VOpen → Channels
open_timeout t pv =
    let cleared : Option VOpen = elim t.pending [
      | none ↦ none
      | some now ↦ if now.ticket == pv.ticket then none else some now
    ] in
    drop_chan (record t { pending = cleared }) pv.idx

-- `chanConn.Read`, at one wake-up: the channel is closed, it has bytes, or the reader goes on
-- waiting, unless the tunnel is closed.
pub data ReadResult : Type 0 where
  channel_closed : ReadResult
  tunnel_closed : ReadResult
  got : Bytes → ReadResult
  waits : ReadResult

unfoldable pub read_chan : Channels → Bool → ℕ → ℕ → Channels × ReadResult
read_chan t closed idx n = elim (lookup idx t.chans) [
  | none ↦ (t, channel_closed)
  | some buf ↦
      if ltb 0 (length buf)
      then (record t { chans = insert idx (drop n buf) t.chans }, got (take n buf))
      else if closed
      then (t, tunnel_closed)
      else (t, waits)
]
