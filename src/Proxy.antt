-- ===== src/Proxy.antt =====
-- cmd/proxy/main.go: `forwarder`, which carries one mapped port for one client at a time. A connection
-- is a number. The goroutines share only the client, which each touches under the lock alone, so a run
-- is the sequence of their locked sections; `stream.Read` stands outside the lock, and when it returned
-- plays no part.
pub mod Window
mod Examples
use seestar_remote.Base.{ℕ, Option, none, some, List, [], ◌∷◌, ◌++◌, ◌==◌, if◌then◌else◌}
use seestar_remote.Base.Bytes.{Bytes}

-- `forwarder`, as its client.
pub record Forwarder : Type 0 where
  pub client : Option ℕ

-- The stream hands_on bytes, or ends; a client connects, or `io.Copy` from it returns.
pub data Event : Type 0 where
  hands_on : Bytes → Event
  stream_ends : Event
  connects : ℕ → Event
  leaves : ℕ → Event

pub data Effect : Type 0 where
  writes : ℕ → Bytes → Effect
  replies_busy : ℕ → Effect
  closes : ℕ → Effect

-- The first locked section of `readLoop`: bytes with no client are discarded.
unfoldable pub hand_on : Forwarder → Bytes → Forwarder × List Effect
hand_on f bytes = elim f.client [ none ↦ (f, []) | some c ↦ (f, writes c bytes ∷ []) ]

-- The second.
unfoldable pub read_end : Forwarder → Forwarder × List Effect
read_end f = elim f.client [ none ↦ (f, []) | some c ↦ (record f { client = none }, closes c ∷ []) ]

-- `serve`, up to `io.Copy`.
unfoldable pub serve : Forwarder → ℕ → Forwarder × List Effect
serve f conn = elim f.client [
  | none ↦ (record f { client = some conn }, [])
  | some c ↦ (f, replies_busy conn ∷ closes conn ∷ [])
]

abbrev pub is_client : Option ℕ → ℕ → Option ℕ
is_client none conn = none
is_client (some c) conn = if c == conn then none else some c

-- `serve`, behind it.
unfoldable pub serve_end : Forwarder → ℕ → Forwarder × List Effect
serve_end f conn = (record f { client = is_client f.client conn }, closes conn ∷ [])

unfoldable pub handle : Forwarder → Event → Forwarder × List Effect
handle f (hands_on bytes) = hand_on f bytes
handle f stream_ends = read_end f
handle f (connects conn) = serve f conn
handle f (leaves conn) = serve_end f conn

unfoldable pub handle_all : Forwarder → List Event → Forwarder × List Effect
handle_all f [] = (f, [])
handle_all f (e ∷ es) =
    let (f', out) = handle f e in let (f'', more) = handle_all f' es in (f'', out ++ more)
