-- ===== src/Download/Examples.antt =====
-- The download on a small device.
use seestar_remote.Base.{
  ℕ, ◌≡◌, refl, Bool, true, false, Option, none, some, List, [], ◌∷◌, if◌then◌else◌, All, arith,
}
use seestar_remote.Base.Bytes.{Bytes, same_bytes}
use seestar_remote.Download.{
  Filters, FileInfo, FileEnt, Share, elem, top_of, ext, in_scope, want_file, dev_path, walk_entry,
  walk_entries, walk, Pass, Fetches, Session, refused, served, stream_walk, download,
}
use seestar_remote.Download.Listing.{
  Tree, leaf, file, dir, levels, all_files, wanted, walk-all_files,
}
use seestar_remote.Download.Streaming.{visit_files, stream_walk-walk}
use seestar_remote.Download.Progress.{IsWhole}
use seestar_remote.Download.Passes.{IsDone, download-IsDone}
use seestar_remote.Download.Fetch.{
  PartFile, open_truncated, jobs_from, work, start, committed, finish, Timeouts, is_hopeless, Step,
  works, ticks, fetch_loop, fetch_file,
}
use seestar_remote.Download.Fetch.Whole.{IsWholeFile, finish-whole}
use seestar_remote.Download.Fetch.Good.{finish-good}

-- Only below `m`, and no `.a`.
abbrev filters : Filters
filters = record { targets = (0x6d ∷ []) ∷ []; exclude_ext = (0x2e ∷ 0x61 ∷ []) ∷ [] }

-- `m/x.a`, `m/y` and `o/z`.
abbrev device_tree : Tree
device_tree =
    dir (0x6d ∷ []) 0 (file (0x78 ∷ 0x2e ∷ 0x61 ∷ []) 5 (file (0x79 ∷ []) 7 leaf))
      (dir (0x6f ∷ []) 0 (file (0x7a ∷ []) 9 leaf) leaf)

abbrev root : Bytes
root = 0x52 ∷ []

abbrev entry : Bytes → Bool → ℕ → FileInfo
entry name is_dir size = record { name = name; is_dir = is_dir; size = size }

abbrev device : Share
device path =
    if same_bytes path (0x52 ∷ [])
    then some (entry (0x2e ∷ []) true 0 ∷ entry (0x6d ∷ []) true 0 ∷ entry (0x6f ∷ []) true 0 ∷ [])
    else if same_bytes path (0x52 ∷ 0x5c ∷ 0x6d ∷ [])
    then some (entry (0x78 ∷ 0x2e ∷ 0x61 ∷ []) false 5 ∷ entry (0x79 ∷ []) false 7 ∷ [])
    else if same_bytes path (0x52 ∷ 0x5c ∷ 0x6f ∷ [])
    then some (entry (0x7a ∷ []) false 9 ∷ [])
    else none

walk-all_files_example :
    walk filters device root 3 [] ≡ some (wanted filters (all_files [] device_tree))
unfolding same_bytes dev_path levels
walk-all_files_example =
    walk-all_files filters device root 3 device_tree (_, refl, refl)
      ((_, refl, refl), tt, ((_, refl, refl), tt, tt))
      (
        (refl, refl, refl),
        ((refl, refl, refl), ((refl, refl, refl), tt)),
        ((refl, refl, refl), ((refl, refl, refl), tt), tt),
      )
      (omega arith)

-- The file in scope.
abbrev y : FileEnt
y = record { rel = 0x6d ∷ 0x2f ∷ 0x79 ∷ []; size = 7 }

walk_listed : walk filters device root 2 [] ≡ some (y ∷ [])
unfolding walk walk_entries walk_entry in_scope want_file elem top_of ext same_bytes dev_path
walk_listed = refl

-- A session whose fetches fail, and one whose fetches succeed.
abbrev failing : Fetches
failing k path = none

abbrev working : Fetches
working k path = some 7

abbrev fresh : Pass
fresh = record { local = λ path. none; fail_count = λ path. 0; got = 0; seen = []; tries = 0 }

stream_walk-walk_example :
    stream_walk filters working device root 2 [] fresh ≡ visit_files working fresh (y ∷ [])
stream_walk-walk_example =
    stream_walk-walk working filters device root 2 [] (y ∷ []) walk_listed fresh

abbrev sessions : List Session
sessions =
    refused
    ∷ served device failing
    ∷ served device failing
    ∷ served device working
    ∷ refused
    ∷ served device working
    ∷ served device working
    ∷ served device working
    ∷ []

working-IsWhole : All (IsWhole working) (y ∷ [])
working-IsWhole = ((λ k n e. cc), tt)

failing-IsWhole : All (IsWhole failing) (y ∷ [])
failing-IsWhole = ((λ k n e. cc), tt)

download-IsDone_example :
    let (st, over) = download filters root 2 fresh sessions in
    (over ≡ true) × All (IsDone st) (y ∷ [])
download-IsDone_example =
    download-IsDone filters root 2 (y ∷ []) fresh sessions (((λ e. refl), tt), tt)
      (
        tt,
        (
          (walk_listed, failing-IsWhole),
          (
            (walk_listed, failing-IsWhole),
            (
              (walk_listed, working-IsWhole),
              (
                tt,
                (
                  (walk_listed, working-IsWhole),
                  ((walk_listed, working-IsWhole), ((walk_listed, working-IsWhole), tt)),
                ),
              ),
            ),
          ),
        ),
      )
      (omega arith)

abbrev archive : Bytes → Option ℕ
archive path = some 7

-- Three bytes in ranges of two, the second range first.
abbrev content : Bytes
content = 0x61 ∷ 0x62 ∷ 0x63 ∷ []

abbrev committed_size : ℕ
committed_size = 3

-- What an earlier fetch left is longer.
abbrev stale : PartFile
stale = record { byte_at = λ i. 0x7a; size = 9 }

abbrev timeouts : Timeouts
timeouts = record { dead_start = 25; stall_gap = 90; hard_cap = 90 }

abbrev steps : List Step
steps =
    works (record { pick = 1; count = 2; read_err = false; write_err = false })
    ∷ ticks 30
    ∷ works (record { pick = 0; count = 2; read_err = false; write_err = false })
    ∷ ticks 60
    ∷ []

finish-whole_example :
    IsWholeFile 2 content (fetch_file 2 content timeouts stale steps).0 committed_size
unfolding fetch_loop finish work is_hopeless start open_truncated jobs_from
finish-whole_example = finish-whole 2 content timeouts stale steps committed_size (omega arith) refl

finish-good_example : (fetch_file 2 content timeouts stale steps).1 ≡ committed 3
finish-good_example =
    finish-good 2 content timeouts stale steps (omega arith)
      (unfold work is_hopeless start jobs_from in
        ((omega arith, refl, refl), (refl, ((omega arith, refl, refl), (refl, tt)))))
      (unfold fetch_loop work is_hopeless start jobs_from in refl)
