-- ===== src/Kalay/Examples/Streams.antt =====
-- The reassembler and the inbound half of `pump` on frames that arrive out of order.
use seestar_remote.Base.{ℕ, zero, suc, ◌≡◌, ◌↔◌, refl, true, List, [], ◌∷◌, arith}
use seestar_remote.Base.Bytes.{Bytes}
use seestar_remote.Base.AssocMap.{lookup, insert, delete}
use seestar_remote.Base.Scan.{scan, scan_loop}
use seestar_remote.Kalay.Rdt.{RdtPacket}
use seestar_remote.Kalay.Channel.{parse, demux_round, demux_pass}
use seestar_remote.Kalay.Reassembler.{
  new_reassembler, add, ingest, cum_loop, take_seq, missing, gapless,
}
use seestar_remote.Kalay.Reassembler.Contiguous.{IsRunEnd, add_all}
use seestar_remote.Kalay.Reassembler.Added.{IsLowest, cum-IsRunEnd}
use seestar_remote.Kalay.Reassembler.Gaps.{gapless-iff-missing}
use seestar_remote.Kalay.Inbound.{
  new_inbound, inbound, inbound_round, pull, start_pump, receive, pull_loop,
}
use seestar_remote.Kalay.Inbound.EndToEnd.{IsDelivered, inbound-IsDelivered}

-- Frame 6 before frame 5, frame 5 twice, frame 8 beyond a gap.
abbrev scattered : List (ℕ × Bytes)
scattered = (6, 1 ∷ []) ∷ (5, 2 ∷ []) ∷ (5, 2 ∷ []) ∷ (8, 3 ∷ []) ∷ []

cum-IsRunEnd_example :
    let r = add_all new_reassembler scattered in
    ((k : ℕ) → lookup k r.frames ≡ lookup k scattered)
    × IsLowest scattered r.base
    × IsRunEnd scattered r.base r.cum
cum-IsRunEnd_example = cum-IsRunEnd scattered (ground arith) (omega arith)

gapless-iff-missing_example :
    let r = add_all new_reassembler scattered in (gapless r ≡ true) ↔ (missing r ≡ [])
unfolding add_all add ingest cum_loop lookup insert delete
gapless-iff-missing_example = gapless-iff-missing scattered (ground arith) (ground arith) refl

-- A device stream of one chunk in two frames.
abbrev chunk_stream : ℕ → Bytes
chunk_stream zero = 0x02 ∷ 0x01 ∷ 0x03 ∷ 0x00 ∷ 0x61 ∷ []
chunk_stream (suc zero) = 0x62 ∷ 0x63 ∷ []
chunk_stream (suc (suc k)) = []

abbrev frame : ℕ → RdtPacket
frame k = record { type = 0x02; seq = k; b16 = 1; conn_id = 1; payload = chunk_stream k }

-- The second frame first, then the first one again.
abbrev batches : List (List RdtPacket)
batches = (frame 1 ∷ frame 0 ∷ []) ∷ (frame 0 ∷ []) ∷ []

inbound-IsDelivered_example :
    let (t, ms) = inbound new_inbound batches in
    (first : ℕ) × IsDelivered chunk_stream batches first t ms
unfolding inbound inbound_round pull start_pump receive pull_loop add ingest cum_loop lookup insert
    delete
inbound-IsDelivered_example =
    inbound-IsDelivered chunk_stream batches
      (
        ((λ _. (refl, omega arith)), ((λ _. (refl, omega arith)), tt)),
        (((λ _. (refl, omega arith)), tt), tt),
      )
      refl

-- What comes out: the chunk, whole, and no tail.
inbound_out :
    (inbound new_inbound batches).1
    ≡ record { type = 0x02; chan = 1; payload = 0x61 ∷ 0x62 ∷ 0x63 ∷ [] } ∷ []
unfolding inbound inbound_round pull start_pump receive pull_loop add ingest cum_loop lookup insert
    delete demux_pass scan scan_loop parse take_seq demux_round
inbound_out = refl
