-- ===== src/Kalay/Examples/Opens.antt =====
-- Channels opened and routed to on concrete inputs.
use seestar_remote.Base.{
  ℕ, ◌≤◌, ◌<◌, ◌≡◌, ◌≢◌, refl, false, none, some, List, [], ◌∷◌, flatten, arith,
}
use seestar_remote.Base.Bytes.{Bytes}
use seestar_remote.Base.AssocMap.{lookup}
use seestar_remote.Kalay.Channel.{PTunMsg, feed, data_chunk}
use seestar_remote.Kalay.Tunnel.{
  VOpen, Channels, p2p_port_connect, p2p_connect_addr, pick_idx, open_channel, start_open, route,
  route_all, read_chan, waits,
}
use seestar_remote.Kalay.Tunnel.Routing.{grown, route_all-written}
use seestar_remote.Kalay.Tunnel.Opening.{after_picks, pick_idx-fresh, open_channel-exchange}

-- Channel 3 is open beside the control channel 1.
abbrev two_channels : Channels
two_channels = record {
  pending = none;
  next_idx = 4;
  last_idx = 3;
  ctrl_idx = 1;
  rbuf = 9 ∷ [];
  chans = (3, []) ∷ [];
  chan_bytes = [];
  tickets = 2;
}

abbrev messages : List PTunMsg
messages =
    record { type = 0x02; chan = 3; payload = 5 ∷ [] }
    ∷ record { type = 0x02; chan = 1; payload = 6 ∷ [] }
    ∷ record { type = 0x02; chan = 8; payload = 7 ∷ [] }
    ∷ []

abbrev segments : List Bytes
segments = (0x02 ∷ 0x01 ∷ 0x01 ∷ 0x00 ∷ 6 ∷ 0x02 ∷ []) ∷ (0x03 ∷ 0x01 ∷ 0x00 ∷ 5 ∷ []) ∷ []

abbrev writes : List (ℕ × Bytes)
writes = (1, 6 ∷ []) ∷ (3, 5 ∷ []) ∷ []

route_all-written_example :
    let t' = (route_all two_channels (feed [] segments).1).0 in
    (lookup 3 t'.chans ≡ grown (lookup 3 two_channels.chans) (5 ∷ [])) × (t'.rbuf ≡ 9 ∷ 6 ∷ [])
unfolding data_chunk flatten
route_all-written_example =
    route_all-written two_channels writes segments 3
      ((omega arith, omega arith, omega arith), ((omega arith, omega arith, omega arith), tt)) refl
      (λ e. omega arith)

pick_idx-fresh_example :
    let i = (pick_idx (after_picks 0 0)).0 in
    let j = (pick_idx (after_picks 0 252)).0 in (2 ≤ i) × (i < 255) × (i ≢ j)
pick_idx-fresh_example = pick_idx-fresh 0 0 252 (omega arith) (omega arith) (omega arith)

abbrev created_reply : PTunMsg
created_reply = record { type = 0x0d; chan = 0; payload = [] }

-- Data for another channel arrives before the reply.
abbrev strays : List PTunMsg
strays = record { type = 0x02; chan = 3; payload = 5 ∷ [] } ∷ []

open_channel-exchange_example :
    (t' : Channels) × (pv : VOpen) × (open_channel two_channels 554 ≡ some (t', pv))
    × (let (t₁, sent) = start_open t' in
        let t₂ = (route_all t₁ strays).0 in
        let (t₃, reply) = route t₂ created_reply in
        (sent ≡ some (p2p_port_connect pv.idx 554))
        × ((start_open t₂).1 ≡ none)
        × ((q : ℕ) → (open_channel t' q ≡ none) × (open_channel t₂ q ≡ none))
        × (reply ≡ some (p2p_connect_addr pv.idx 554))
        × (t₃.pending ≡ none)
        × ((q : ℕ) → open_channel t₃ q ≢ none)
        × ((read_chan (route t₁ created_reply).0 false pv.idx 100).1 ≡ waits))
open_channel-exchange_example =
    open_channel-exchange two_channels 554 100 created_reply strays refl refl
      ((λ e. absurd (omega arith)), tt)
