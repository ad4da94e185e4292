-- ===== src/Proxy/Window.antt =====
-- cmd/proxy/main.go: which bytes of the device a client is sent.
use seestar_remote.Base.{
  ℕ, ◌≡◌, false, Option, none, some, List, [], ◌∷◌, ◌++◌, ◌==◌, if◌then◌else◌,
}
use seestar_remote.Base.Bytes.{Bytes}
use seestar_remote.Proxy.{
  Forwarder, Event, hands_on, stream_ends, connects, leaves, Effect, writes, replies_busy, closes,
}

-- What is written to a connection.
abbrev pub bytes_to : ℕ → List Effect → Bytes
bytes_to c [] = []
bytes_to c (writes d bytes ∷ out) =
    let rest = bytes_to c out in if d == c then bytes ++ rest else rest
bytes_to c (replies_busy d ∷ out) = bytes_to c out
bytes_to c (closes d ∷ out) = bytes_to c out

-- What the device hands_on.
abbrev pub handed_on : List Event → Bytes
handed_on [] = []
handed_on (hands_on bytes ∷ es) = bytes ++ handed_on es
handed_on (stream_ends ∷ es) = handed_on es
handed_on (connects d ∷ es) = handed_on es
handed_on (leaves d ∷ es) = handed_on es

-- An event that is not the connection's return, or the stream's end.
abbrev pub IsOther : ℕ → Event → Type 0
IsOther c (hands_on bytes) = Unit
IsOther c stream_ends = ⊥
IsOther c (connects d) = Unit
IsOther c (leaves d) = (d == c) ≡ false

-- An event that is not a connection under this number.
abbrev pub IsElse : ℕ → Event → Type 0
IsElse c (hands_on bytes) = Unit
IsElse c stream_ends = Unit
IsElse c (connects d) = (d == c) ≡ false
IsElse c (leaves d) = Unit

abbrev holds : ℕ → Forwarder
holds c = record { client = some c }

-- A connection is not the client.
abbrev IsAbsent : ℕ → Option ℕ → Type 0
IsAbsent c none = Unit
IsAbsent c (some d) = (d == c) ≡ false

abbrev pub with_client : Option ℕ → Forwarder
with_client o = record { client = o }
