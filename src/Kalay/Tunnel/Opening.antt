-- ===== src/Kalay/Tunnel/Opening.antt =====
-- The opening of channels: which indices are used, and the exchange with the device.
use seestar_remote.Base.{
  ℕ, zero, suc, ◌+◌, ◌-◌, ◌%◌, ◌≤◌, ◌<◌, ◌≡◌, ◌≢◌, refl, ap, ◌∙◌, true, false, none, some, List, [],
  ◌∷◌, ltb, Bool-cases, inl, inr, All, arith,
}
use seestar_remote.Base.AssocMap.{lookup, insert, lookup-insert_self}
use seestar_remote.Kalay.Channel.{PTunMsg}
use seestar_remote.Kalay.Tunnel.Routing.{route_all_step}
use seestar_remote.Kalay.Tunnel.{
  VOpen, Channels, p2p_port_connect, p2p_connect_addr, pick_idx, open_channel, start_open, created,
  route, route_all, deliver, read_chan, waits,
}

-- The index kept after `n` opens.
unfoldable pub after_picks : ℕ → ℕ → ℕ
after_picks next zero = next
after_picks next (suc n) = after_picks (pick_idx next).1 n

pick_idx-next : (next : ℕ) → 2 ≤ next → next < 255 → (pick_idx next).1 ≡ (next - 2 + 1) % 253 + 2
unfolding pick_idx
pick_idx-next next lo hi = ground arith

pick_idx-range :
    (next : ℕ) → next < 256 → next ≢ 255 → (2 ≤ (pick_idx next).0) × ((pick_idx next).0 < 255)
unfolding pick_idx
pick_idx-range next hi other = ground arith

after_picks_lem :
    (next n : ℕ) → 2 ≤ next → next < 255 → after_picks next n ≡ (next - 2 + n) % 253 + 2
unfolding after_picks
after_picks_lem next zero lo hi = omega arith
after_picks_lem next (suc n) lo hi =
    let e = pick_idx-next next lo hi in
    let ih = after_picks_lem (pick_idx next).1 n (omega arith) (omega arith) in omega arith

-- A tunnel whose index has not been set opens as one at index 2.
pick_idx-unset : (next : ℕ) → next < 2 → pick_idx next ≡ pick_idx 2
unfolding pick_idx
pick_idx-unset next low = let e : ltb next 2 ≡ true = ground arith in rw e refl

after_picks-unset :
    (next n : ℕ) → next < 2 → pick_idx (after_picks next n) ≡ pick_idx (after_picks 2 n)
unfolding after_picks
after_picks-unset next zero low = pick_idx-unset next low
after_picks-unset next (suc n) low =
    ap (λ p. pick_idx (after_picks p.1 n)) (pick_idx-unset next low)

picks_differ :
    (next m n : ℕ)
    → 2 ≤ next
    → next < 255
    → m < n
    → n - m < 253
    → let i = (pick_idx (after_picks next m)).0 in
      let j = (pick_idx (after_picks next n)).0 in (2 ≤ i) × (i < 255) × (i ≢ j)
unfolding pick_idx
picks_differ next m n lo hi lt near =
    let e = after_picks_lem next m lo hi in let e' = after_picks_lem next n lo hi in ground arith

-- From any index below 255, that of a new tunnel included, which is 0, the indices that successive
-- opens use lie between 2 and 254, and any 253 opens in a row use different ones: two opens fewer than
-- 253 apart never share an index.
pub pick_idx-fresh :
    (next m n : ℕ)
    → next < 255
    → m < n
    → n - m < 253
    → let i = (pick_idx (after_picks next m)).0 in
      let j = (pick_idx (after_picks next n)).0 in (2 ≤ i) × (i < 255) × (i ≢ j)
pick_idx-fresh next m n hi lt near = elim (Bool-cases (ltb next 2)) [
  | inl low ↦
      rw (after_picks-unset next m (ground arith), after_picks-unset next n (ground arith))
        (picks_differ 2 m n (omega arith) (omega arith) lt near)
  | inr high ↦ picks_differ next m n (ground arith) hi lt near
]

-- The state that an open leaves, and its record.
abbrev opening : Channels → ℕ → Channels × VOpen
opening t port =
    let pv : VOpen = record {
      port = port;
      idx = (pick_idx t.next_idx).0;
      sent_port_conn = false;
      ticket = t.tickets;
    } in
    (
      record t {
        pending = some pv;
        next_idx = (pick_idx t.next_idx).1;
        last_idx = (pick_idx t.next_idx).0;
        chans = insert (pick_idx t.next_idx).0 [] t.chans;
        tickets = t.tickets + 1;
      },
      pv,
    )

open_idle :
    (t : Channels) (port : ℕ) → t.pending ≡ none → open_channel t port ≡ some (opening t port)
unfolding open_channel
open_idle t port idle = rw idle refl

open_free : (t : Channels) (port : ℕ) → t.pending ≡ none → open_channel t port ≢ none
open_free t port idle e = let done = open_idle t port idle in absurd (cc)

opening_asks :
    (t : Channels) (port : ℕ)
    → let (t₁, sent) = start_open (opening t port).0 in
      (sent ≡ some (p2p_port_connect (pick_idx t.next_idx).0 port))
      × (t₁.pending ≡ some (record (opening t port).1 { sent_port_conn = true }))
unfolding start_open
opening_asks t port = (refl, refl)

opening_created :
    (t : Channels) (port : ℕ) (m : PTunMsg)
    → m.type ≡ 0x0d
    → (route (start_open (opening t port).0).0 m).0.chans
      ≡ insert (pick_idx t.next_idx).0 [] t.chans
unfolding start_open route created
opening_created t port m e = simp e refl

created_asked :
    (t : Channels) (pv : VOpen)
    → t.pending ≡ some pv
    → pv.sent_port_conn ≡ true
    → ((created t).1 ≡ some (p2p_connect_addr pv.idx pv.port)) × ((created t).0.pending ≡ none)
unfolding created
created_asked t pv busy asked = rw (busy, asked) (refl, refl)

route-created : (t : Channels) (m : PTunMsg) → m.type ≡ 0x0d → route t m ≡ created t
unfolding route
route-created t m e = simp e refl

read_empty :
    (t : Channels) (idx n : ℕ) → lookup idx t.chans ≡ some [] → (read_chan t false idx n).1 ≡ waits
unfolding read_chan
read_empty t idx n e = rw (e, read_chan) refl

-- A message that is not the reply leaves the open as it is.
route-pending : (t : Channels) (m : PTunMsg) → m.type ≢ 0x0d → (route t m).0.pending ≡ t.pending
unfolding route deliver
route-pending t m other = ground arith

route_all-pending :
    (t : Channels) (ms : List PTunMsg)
    → All (λ m. m.type ≢ 0x0d) ms
    → (route_all t ms).0.pending ≡ t.pending
route_all-pending t [] h = unfold route_all in refl
route_all-pending t (m ∷ ms) (h, hs) =
    ap (λ s. s.pending) (route_all_step t m ms)
    ∙ route_all-pending (route t m).0 ms hs
    ∙ route-pending t m h

open_busy :
    (t : Channels) (pv : VOpen) (port : ℕ) → t.pending ≡ some pv → open_channel t port ≡ none
unfolding open_channel
open_busy t pv port e = rw e refl

start_done :
    (t : Channels) (pv : VOpen)
    → t.pending ≡ some pv
    → pv.sent_port_conn ≡ true
    → (start_open t).1 ≡ none
unfolding start_open
start_done t pv e sent = rw (e, sent) refl

-- A whole open: with none in progress it succeeds; `pump` then sends the port-connect message for
-- its index and port; whatever messages but the reply arrive next, the message is not sent again and
-- an open of any port is refused, as it is before the message has gone out; and the device's reply
-- makes `route` send the connect-address message for the same index and port and ends the open, so
-- that the next one is not refused. Where the reply is the first message, the channel it leaves is
-- fresh and its reader waits.
pub open_channel-exchange :
    (t : Channels) (port n : ℕ) (m : PTunMsg) (others : List PTunMsg)
    → t.pending ≡ none
    → m.type ≡ 0x0d
    → All (λ o. o.type ≢ 0x0d) others
    → (t' : Channels) × (pv : VOpen) × (open_channel t port ≡ some (t', pv))
      × (let (t₁, sent) = start_open t' in
          let t₂ = (route_all t₁ others).0 in
          let (t₃, reply) = route t₂ m in
          (sent ≡ some (p2p_port_connect pv.idx port))
          × ((start_open t₂).1 ≡ none)
          × ((q : ℕ) → (open_channel t' q ≡ none) × (open_channel t₂ q ≡ none))
          × (reply ≡ some (p2p_connect_addr pv.idx port))
          × (t₃.pending ≡ none)
          × ((q : ℕ) → open_channel t₃ q ≢ none)
          × ((read_chan (route t₁ m).0 false pv.idx n).1 ≡ waits))
open_channel-exchange t port n m others idle created_reply strays =
    let t' = (opening t port).0 in
    let t₁ = (start_open t').0 in
    let t₂ = (route_all t₁ others).0 in
    let asked : VOpen = record (opening t port).1 { sent_port_conn = true } in
    let (sent, asks) = opening_asks t port in
    let busy : t₂.pending ≡ some asked = route_all-pending t₁ others strays ∙ asks in
    let (answer, ended) = created_asked t₂ asked busy refl in
    let arrives = route-created t₂ m created_reply in
    let kept = opening_created t port m created_reply in
    (
      t',
      (opening t port).1,
      open_idle t port idle,
      (
        sent,
        start_done t₂ asked busy refl,
        λ q. (open_busy t' (opening t port).1 q refl, open_busy t₂ asked q busy),
        ap (λ r. r.1) arrives ∙ answer,
        ap (λ r. r.0.pending) arrives ∙ ended,
        λ q. open_free (route t₂ m).0 q (ap (λ r. r.0.pending) arrives ∙ ended),
        read_empty _ (pick_idx t.next_idx).0 n (
            ap (lookup (pick_idx t.next_idx).0) kept
            ∙ lookup-insert_self (pick_idx t.next_idx).0 [] t.chans),
      ),
    )
