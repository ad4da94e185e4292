-- ===== src/Kalay/Tunnel/Routing.antt =====
-- Where the bytes of routed messages go.
use seestar_remote.Base.{
  ℕ, ◌≡◌, ◌≢◌, refl, sym, ap, ◌∙◌, ◌&&◌, not, Option, none, some, List, [], ◌∷◌, ◌++◌, append_assoc,
  append-nil, flatten, ◌==◌, if◌then◌else◌, Bool-cases, Option-cases, inl, inr, All, arith,
}
use seestar_remote.Base.Bytes.{Bytes}
use seestar_remote.Base.AssocMap.{lookup, lookup-insert}
use seestar_remote.Kalay.Channel.{PTunMsg, feed}
use seestar_remote.Kalay.Channel.Demux.{framed, delivered, IsChunk, feed-framed}
use seestar_remote.Kalay.Tunnel.{Channels, put, created, deliver, route, route_all}

-- The data that messages carry for a channel.
abbrev pub data_for : ℕ → List PTunMsg → Bytes
data_for k [] = []
data_for k (m ∷ ms) =
    if m.type == 0x02 && m.chan == k then m.payload ++ data_for k ms else data_for k ms

abbrev pub grown : Option Bytes → Bytes → Option Bytes
grown none bs = none
grown (some buf) bs = some (buf ++ bs)

lookup-put :
    (chan k : ℕ) (bs : Bytes) (m : List (ℕ × Bytes))
    → lookup k (put chan bs m) ≡ (if chan == k then grown (lookup k m) bs else lookup k m)
unfolding put
lookup-put chan k bs m = elim (Option-cases (lookup chan m)) [
  | inl e ↦ ground (arith)
  | inr (buf, e) ↦ ground (arith, lookup-insert chan k (buf ++ bs) m)
]

-- One message.
route_kept :
    (t : Channels) (m : PTunMsg)
    → let t' = (route t m).0 in
      (t'.ctrl_idx ≡ t.ctrl_idx)
      × (t'.rbuf ≡ (if m.type == 0x02 && m.chan == t.ctrl_idx then t.rbuf ++ m.payload else t.rbuf))
unfolding route deliver created
route_kept t m = ground arith

route_chans :
    (t : Channels) (m : PTunMsg)
    → (route t m).0.chans ≡ (
        if m.type == 0x02 && not (m.chan == t.ctrl_idx)
        then put m.chan m.payload t.chans
        else t.chans)
unfolding route deliver created
route_chans t m = ground arith

route-grown :
    (t : Channels) (m : PTunMsg) (k : ℕ)
    → k ≢ t.ctrl_idx
    → lookup k (route t m).0.chans ≡ (
        if m.type == 0x02 && m.chan == k
        then grown (lookup k t.chans) m.payload
        else lookup k t.chans)
route-grown t m k other = ground (arith, route_chans t m, lookup-put m.chan k m.payload t.chans)

grown-nil : (o : Option Bytes) → grown o [] ≡ o
grown-nil none = refl
grown-nil (some buf) = ap some (append-nil buf)

grown-append : (o : Option Bytes) (b c : Bytes) → grown (grown o b) c ≡ grown o (b ++ c)
grown-append none b c = refl
grown-append (some buf) b c = ap some (append_assoc buf b c)

pub route_all_step :
    (t : Channels) (m : PTunMsg) (ms : List PTunMsg)
    → (route_all t (m ∷ ms)).0 ≡ (route_all (route t m).0 ms).0
unfolding route_all
route_all_step t m ms = elim (Option-cases (route t m).1) [
  | inl e ↦ ground arith
  | inr (p, e) ↦ ground arith
]

grown_step :
    (o o' : Option Bytes) (k : ℕ) (m : PTunMsg) (ms : List PTunMsg)
    → o' ≡ (if m.type == 0x02 && m.chan == k then grown o m.payload else o)
    → grown o' (data_for k ms) ≡ grown o (data_for k (m ∷ ms))
grown_step o o' k m ms e = elim (Bool-cases (m.type == 0x02 && m.chan == k)) [
  | inl hit ↦ rw e (simp hit (grown-append o m.payload (data_for k ms)))
  | inr miss ↦ rw e (simp miss refl)
]

rbuf_step :
    (b b' : Bytes) (k : ℕ) (m : PTunMsg) (ms : List PTunMsg)
    → b' ≡ (if m.type == 0x02 && m.chan == k then b ++ m.payload else b)
    → b' ++ data_for k ms ≡ b ++ data_for k (m ∷ ms)
rbuf_step b b' k m ms e = elim (Bool-cases (m.type == 0x02 && m.chan == k)) [
  | inl hit ↦ rw e (simp hit (append_assoc b m.payload (data_for k ms)))
  | inr miss ↦ rw e (simp miss refl)
]

route_all-nil : (t : Channels) → route_all t [] ≡ (t, [])
unfolding route_all
route_all-nil t = refl

-- Routing any messages leaves in an open channel's buffer what it held, followed by the data for
-- that channel in order, and opens and closes no channel other than the control channel's; and the
-- control channel's buffer gets the data for it in the same way.
pub route_all-grown :
    (t : Channels) (ms : List PTunMsg) (k : ℕ)
    → k ≢ t.ctrl_idx
    → let t' = (route_all t ms).0 in
      (lookup k t'.chans ≡ grown (lookup k t.chans) (data_for k ms))
      × (t'.rbuf ≡ t.rbuf ++ data_for t.ctrl_idx ms)
route_all-grown t [] k other =
    rw (route_all-nil t) (sym (grown-nil (lookup k t.chans)), sym (append-nil t.rbuf))
route_all-grown t (m ∷ ms) k other =
    let (ctrl, rbuf) = route_kept t m in
    let here = route-grown t m k other in
    let (chans', rbuf') = route_all-grown (route t m).0 ms k (rw ctrl other) in
    rw (route_all_step t m ms) (
      chans' ∙ grown_step (lookup k t.chans) _ k m ms here,
      rbuf'
          ∙ ap (λ c. (route t m).0.rbuf ++ data_for c ms) ctrl
          ∙ rbuf_step t.rbuf _ t.ctrl_idx m ms rbuf,
    )

-- What was written to a channel.
abbrev pub written_to : ℕ → List (ℕ × Bytes) → Bytes
written_to k [] = []
written_to k ((idx, p) ∷ ws) = if idx == k then p ++ written_to k ws else written_to k ws

data_for-delivered : (k : ℕ) (ws : List (ℕ × Bytes)) → data_for k (delivered ws) ≡ written_to k ws
data_for-delivered k [] = refl
data_for-delivered k ((idx, p) ∷ ws) = ground (arith, data_for-delivered k ws)

-- Writes on several channels, each of 1 to 8192 bytes on a channel other than 0, interleaved in one
-- stream of chunks that arrives in any pieces: each open extra channel's buffer gets exactly the bytes written to that channel, in order, and so does
-- the control channel's.
pub route_all-written :
    (t : Channels) (ws : List (ℕ × Bytes)) (segments : List Bytes) (k : ℕ)
    → All IsChunk ws
    → flatten segments ≡ framed ws
    → k ≢ t.ctrl_idx
    → let t' = (route_all t (feed [] segments).1).0 in
      (lookup k t'.chans ≡ grown (lookup k t.chans) (written_to k ws))
      × (t'.rbuf ≡ t.rbuf ++ written_to t.ctrl_idx ws)
route_all-written t ws segments k h e other =
    let (chans', rbuf') = route_all-grown t (delivered ws) k other in
    rw (feed-framed ws segments h e) (
      chans' ∙ ap (grown (lookup k t.chans)) (data_for-delivered k ws),
      rbuf' ∙ ap (λ z. t.rbuf ++ z) (data_for-delivered t.ctrl_idx ws),
    )
