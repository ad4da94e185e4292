-- ===== src/Kalay/Reassembler.antt =====
-- kalay/tunnel.go: the reassembler of one connection's reliable stream.
pub mod Contiguous
pub mod Gaps
pub mod Added
use seestar_remote.Base.{
  ℕ, zero, suc, ◌+◌, ◌-◌, ◌%◌, ◌^◌, Bool, true, false, ◌&&◌, ◌||◌, not, Option, none, some, List,
  [], ◌∷◌, ◌++◌, ltb, leb, ◌==◌, if◌then◌else◌, length,
}
use seestar_remote.Base.Bytes.{Bytes, add64}
use seestar_remote.Base.AssocMap.{lookup, insert, delete}
use seestar_remote.Kalay.Channel.{deframe_tunnel}

-- `Reassembler`
pub record Reassembler : Type 0 where
  pub frames : List (ℕ × Bytes)
  pub base : ℕ
  pub cum : ℕ
  pub max_seq : ℕ
  pub base_set : Bool
  pub consumed : ℕ
  pub consumed_set : Bool

-- `NewReassembler`
abbrev pub new_reassembler : Reassembler
new_reassembler = record {
  frames = [];
  base = 0;
  cum = 0;
  max_seq = 0;
  base_set = false;
  consumed = 0;
  consumed_set = false;
}

-- `_, ok := r.frames[seq]`
abbrev pub is_present : Option Bytes → Bool
is_present none = false
is_present (some p) = true

-- `r.frames[s] != nil`. The map holds `append([]byte(nil), payload...)`, which is nil where the
-- payload is empty: such a frame is present, and its entry is nil all the same.
abbrev pub non_nil : Option Bytes → Bool
non_nil none = false
non_nil (some []) = false
non_nil (some (x ∷ xs)) = true

-- `for r.frames[c+1] != nil { c++ }`. Each round passes one more frame, so the number of frames is
-- fuel enough.
unfoldable pub cum_loop : ℕ → List (ℕ × Bytes) → ℕ → ℕ
cum_loop zero frames c = c
cum_loop (suc fuel) frames c =
    let rest = cum_loop fuel frames (add64 c 1) in
    if non_nil (lookup (add64 c 1) frames) then rest else c

-- `Add` behind its two early returns.
unfoldable pub ingest : Reassembler → ℕ → Bytes → Reassembler
ingest r seq payload =
    let frames = insert seq payload r.frames in
    let base0 = if r.base_set then r.base else seq in
    let max0 = if r.base_set then r.max_seq else seq in
    let base = if ltb seq base0 then seq else base0 in
    record r {
      frames = frames;
      base = base;
      max_seq = if ltb max0 seq then seq else max0;
      base_set = true;
      cum = cum_loop (length frames) frames base;
    }

-- `Add`
unfoldable pub add : Reassembler → ℕ → Bytes → Reassembler × Bool
add r seq payload =
    if r.consumed_set && leb seq r.consumed
    then (r, false)
    else if is_present (lookup seq r.frames)
    then (r, false)
    else (ingest r seq payload, true)

-- `Take` at a present sequence number.
abbrev pub consume : Reassembler → ℕ → Reassembler
consume r seq = record r {
  frames = delete seq r.frames;
  consumed = if not r.consumed_set || ltb r.consumed seq then seq else r.consumed;
  consumed_set = true;
}

-- `Take`
unfoldable pub take_seq : Reassembler → ℕ → Reassembler × Option Bytes
take_seq r seq = elim (lookup seq r.frames) [ none ↦ (r, none) | some p ↦ (consume r seq, some p) ]

-- The loop of `Missing` from `s` on, with its rounds left.
unfoldable pub missing_from : ℕ → ℕ → List (ℕ × Bytes) → List ℕ
missing_from zero s frames = []
missing_from (suc rounds) s frames =
    let rest = missing_from rounds (s + 1) frames in
    if non_nil (lookup s frames) then rest else s ∷ rest

-- `Missing`
unfoldable pub missing : Reassembler → List ℕ
missing r = if r.base_set then missing_from (r.max_seq + 1 - r.base) r.base r.frames else []

-- `Gapless`
unfoldable pub gapless : Reassembler → Bool
gapless r = r.base_set && (r.cum == r.max_seq)

abbrev payload_or_nil : Option Bytes → Bytes
payload_or_nil none = []
payload_or_nil (some p) = p

-- The loop of `Raw` from `s` on, with its rounds left.
unfoldable pub raw_from : ℕ → ℕ → List (ℕ × Bytes) → Bytes
raw_from zero s frames = []
raw_from (suc rounds) s frames = payload_or_nil (lookup s frames) ++ raw_from rounds (s + 1) frames

-- `Raw`
unfoldable pub raw : Reassembler → Bytes
raw r = if r.base_set then raw_from (r.cum + 1 - r.base) r.base r.frames else []

-- `Stream`
unfoldable pub stream : Reassembler → Bytes
stream r = deframe_tunnel (raw r)
