-- ===== src/Download.antt =====
-- cmd/download/main.go: which files of the device the program mirrors, and the passes that fetch
-- them. A string is its bytes; a path's separator is `/`.
pub mod Listing
pub mod Streaming
pub mod Progress
pub mod Passes
pub mod Verify
pub mod Fetch
mod Examples
use seestar_remote.Base.{
  ℕ, zero, suc, ◌+◌, ◌-◌, Bool, true, false, ◌&&◌, ◌||◌, not, Option, none, some, List, [], ◌∷◌,
  ◌++◌, map, ltb, leb, ◌==◌, if◌then◌else◌, length,
}
use seestar_remote.Base.Bytes.{Bytes, same_bytes}

-- The sets of `TARGETS` and `EXCLUDE_EXT`.
pub record Filters : Type 0 where
  pub targets : List Bytes
  pub exclude_ext : List Bytes

-- What the program uses of an `os.FileInfo`.
pub record FileInfo : Type 0 where
  pub name : Bytes
  pub is_dir : Bool
  pub size : ℕ

-- `fileEnt`
pub record FileEnt : Type 0 where
  pub rel : Bytes
  pub size : ℕ

-- A mounted share, as its `ReadDir`; `none` is an error.
abbrev pub Share : Type 0
Share = Bytes → Option (List FileInfo)

unfoldable pub elem : Bytes → List Bytes → Bool
elem s [] = false
elem s (t ∷ set) = same_bytes s t || elem s set

abbrev pub is_empty {ℓ} : {A : Type ℓ} → List A → Bool
is_empty [] = true
is_empty (x ∷ xs) = false

-- `strings.Cut(rel, "/")`, the part before.
unfoldable pub top_of : Bytes → Bytes
top_of [] = []
top_of (b ∷ bs) = let top = top_of bs in if b == 0x2f then [] else b ∷ top

unfoldable pub in_scope : Filters → Bytes → Bool
in_scope fs rel = is_empty fs.targets || is_empty rel || elem (top_of rel) fs.targets

-- `strings.ToLower` on ASCII.
abbrev pub lower : ℕ → ℕ
lower b = if leb 0x41 b && leb b 0x5a then b + 0x20 else b

abbrev pub is_in : ℕ → Bytes → Bool
is_in c [] = false
is_in c (b ∷ bs) = b == c || is_in c bs

-- `filepath.Ext`: from the last dot on, in the last element of the path.
unfoldable pub ext : Bytes → Bytes
ext [] = []
ext (b ∷ bs) =
    let later = ext bs in
    if not (is_empty later) then later else if b == 0x2e && not (is_in 0x2f bs) then b ∷ bs else []

unfoldable pub want_file : Filters → Bytes → Bool
want_file fs name = is_empty fs.exclude_ext || not (elem (map lower (ext name)) fs.exclude_ext)

-- `devPath`: under the share, with backslashes.
unfoldable pub dev_path : Bytes → Bytes → Bytes
dev_path root rel =
    map (λ b. if b == 0x2f then 0x5c else b) (if is_empty rel then root else root ++ (0x2f ∷ rel))

abbrev pub is_dots : Bytes → Bool
is_dots n = same_bytes n (0x2e ∷ []) || same_bytes n (0x2e ∷ 0x2e ∷ [])

abbrev pub child_of : Bytes → Bytes → Bytes
child_of rel n = if is_empty rel then n else rel ++ (0x2f ∷ n)

abbrev pub both {ℓ} : {A : Type ℓ} → Option (List A) → Option (List A) → Option (List A)
both none ys = none
both (some xs) none = none
both (some xs) (some ys) = some (xs ++ ys)

module _ (fs : Filters) where
  -- An iteration of `walk`'s loop, and the loop; `deeper` is `walk` itself.
  unfoldable pub walk_entry :
      (Bytes → Option (List FileEnt)) → Bytes → FileInfo → Option (List FileEnt)
  walk_entry deeper rel e =
      let child = child_of rel e.name in
      if is_dots e.name
      then some []
      else if e.is_dir
      then if not (in_scope fs child) then some [] else deeper child
      else if not (in_scope fs child) || not (want_file fs e.name)
      then some []
      else some (record { rel = child; size = e.size } ∷ [])

  unfoldable pub walk_entries :
      (Bytes → Option (List FileEnt)) → Bytes → List FileInfo → Option (List FileEnt)
  walk_entries deeper rel [] = some []
  walk_entries deeper rel (e ∷ es) = both (walk_entry deeper rel e) (walk_entries deeper rel es)

  -- `walk`, which goes down as many levels as its first argument.
  unfoldable pub walk : Share → Bytes → ℕ → Bytes → Option (List FileEnt)
  walk share root zero rel = none
  walk share root (suc depth) rel = elim (share (dev_path root rel)) [
    | none ↦ none
    | some es ↦ walk_entries (walk share root depth) rel es
  ]

-- What the passes keep: the sizes of the local files, `failCount`, `got`, `pass`, and the number of
-- fetches so far.
pub record Pass : Type 0 where
  pub local : Bytes → Option ℕ
  pub fail_count : Bytes → ℕ
  pub got : ℕ
  pub seen : List FileEnt
  pub tries : ℕ

abbrev pub max_fails : ℕ
max_fails = 4

-- A session's fetches by their number: the size of the file committed, or `none` for an error.
abbrev pub Fetches : Type 0
Fetches = ℕ → Bytes → Option ℕ

abbrev pub with_key {ℓ} : {A : Type ℓ} → Bytes → A → (Bytes → A) → Bytes → A
with_key key v m k = if same_bytes k key then v else m k

abbrev pub is_size : Option ℕ → ℕ → Bool
is_size none n = false
is_size (some m) n = m == n

-- `streamWalk` at a file that is in scope and wanted; the Boolean is false where it returns
-- `errReconnect`.
unfoldable pub visit_file : Fetches → Pass → FileEnt → Pass × Bool
visit_file fetch st f =
    let st' : Pass = record st { seen = st.seen ++ (f ∷ []) } in
    if is_size (st.local f.rel) f.size
    then (st', true)
    else if leb max_fails (st.fail_count f.rel)
    then (st', true)
    else elim (fetch st.tries f.rel) [
      | none ↦ (
        record st' {
          fail_count = with_key f.rel (st.fail_count f.rel + 1) st.fail_count;
          tries = st.tries + 1;
        },
        false,
      )
      | some n ↦ (
        record st' {
          local = with_key f.rel (some n) st.local;
          got = st.got + 1;
          tries = st.tries + 1;
        },
        true,
      )
    ]

-- To go on with `next` if nothing has ended the walk.
abbrev pub and_then : (Pass → Pass × Bool) → Pass × Bool → Pass × Bool
and_then next (st, true) = next st
and_then next (st, false) = (st, false)

module _ (fs : Filters) (fetch : Fetches) where
  unfoldable pub stream_entry : (Bytes → Pass → Pass × Bool) → Bytes → FileInfo → Pass → Pass × Bool
  stream_entry deeper rel e st =
      let child = child_of rel e.name in
      if is_dots e.name
      then (st, true)
      else if e.is_dir
      then if not (in_scope fs child) then (st, true) else deeper child st
      else if not (in_scope fs child) || not (want_file fs e.name)
      then (st, true)
      else visit_file fetch st (record { rel = child; size = e.size })

  unfoldable pub stream_entries :
      (Bytes → Pass → Pass × Bool) → Bytes → List FileInfo → Pass → Pass × Bool
  stream_entries deeper rel [] st = (st, true)
  stream_entries deeper rel (e ∷ es) st =
      and_then (stream_entries deeper rel es) (stream_entry deeper rel e st)

  -- `streamWalk`, bounded in depth as `walk`.
  unfoldable pub stream_walk : Share → Bytes → ℕ → Bytes → Pass → Pass × Bool
  stream_walk share root zero rel st = (st, false)
  stream_walk share root (suc depth) rel st = elim (share (dev_path root rel)) [
    | none ↦ (st, false)
    | some es ↦ stream_entries (stream_walk share root depth) rel es st
  ]

-- What a round of the main loop meets: `connect` fails, or a share and its fetches.
pub data Session : Type 0 where
  refused : Session
  served : Share → Fetches → Session

module _ (fs : Filters) (root : Bytes) (depth : ℕ) where
  -- A round of the main loop; the Boolean tells whether it breaks.
  unfoldable pub download_round : Pass → Session → Pass × Bool
  download_round st refused = (st, false)
  download_round st (served share fetch) =
      let (st', complete) =
        stream_walk fs fetch share root depth [] (record st { got = 0; seen = [] }) in
      (st', complete && (st'.got == 0))

  unfoldable pub download : Pass → List Session → Pass × Bool
  download st [] = (st, false)
  download st (s ∷ later) =
      let (st', over) = download_round st s in
      let rest = download st' later in if over then (st', true) else rest

-- The final verification: the files missing and those of another size.
unfoldable pub verify : (Bytes → Option ℕ) → List FileEnt → List Bytes × List Bytes
verify local [] = ([], [])
verify local (f ∷ files) =
    let (missing, mismatch) = verify local files in
    elim (local f.rel) [
      | none ↦ (f.rel ∷ missing, mismatch)
      | some n ↦ if not (n == f.size) then (missing, f.rel ∷ mismatch) else (missing, mismatch)
    ]

abbrev pub is_complete : List Bytes × List Bytes → Bool
is_complete (missing, mismatch) = (length missing == 0) && (length mismatch == 0)
