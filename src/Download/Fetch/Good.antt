-- ===== src/Download/Fetch/Good.antt =====
-- cmd/download/main.go: when `fetchFile` commits.
use seestar_remote.Base.{
  ℕ, ◌+◌, ◌-◌, ◌≤◌, ◌<◌, ◌≡◌, refl, ap, true, false, ◌&&◌, List, [], ◌∷◌, ltb, leb, ◌==◌, length,
  min, Bool-cases, inl, inr, arith,
}
use seestar_remote.Base.Bytes.{Bytes}
use seestar_remote.Download.Fetch.{
  PartFile, Turn, Transfer, work, start, committed, finish, Timeouts, is_hopeless, Watch, noted,
  Step, works, ticks, fetch_loop, fetch_file,
}
use seestar_remote.Download.Fetch.Whole.{
  left, left-jobs_from, left-remove_at, range_of, work_idle, work_read,
}

module _ (chunk : ℕ) (remote : Bytes) where
  -- Reads in full, without an error.
  abbrev pub IsGood : Turn → Type 0
  IsGood e = (chunk ≤ e.count) × (e.read_err ≡ false) × (e.write_err ≡ false)

  abbrev IsOnTrack : Transfer → Type 0
  IsOnTrack t = (t.done + left chunk (length remote) t.waiting ≡ length remote) × (t.rerr ≡ false)

  work-good : (t : Transfer) (e : Turn) → IsGood e → IsOnTrack t → IsOnTrack (work chunk remote t e)
  work-good t e (full, read, write) (sum, quiet) =
      elim (Bool-cases (leb (length t.waiting) e.pick)) [
        | inl idle ↦ rw (work_idle chunk remote t e idle) (sum, quiet)
        | inr busy ↦
            let fewer = left-remove_at chunk (length remote) e.pick t.waiting (ground arith) in
            let kept : (ltb 0 (min e.count (range_of chunk remote t e)) && e.write_err) ≡ false =
              ground arith in
            rw (work_read chunk remote t e busy kept) (omega (arith, fewer), ground arith)
      ]

  on_track-finish :
      (t : Transfer)
      → IsOnTrack t
      → t.waiting ≡ []
      → finish (length remote) t ≡ committed (length remote)
  unfolding finish
  on_track-finish t (sum, quiet) none_left =
      let nothing : left chunk (length remote) t.waiting ≡ 0 =
        ap (left chunk (length remote)) none_left in
      let whole : (t.done == length remote) ≡ true = ground (arith, sum, nothing) in
      rw (quiet, whole) refl

  start-IsOnTrack : (old : PartFile) → 0 < chunk → IsOnTrack (start chunk remote old)
  unfolding start
  start-IsOnTrack old h =
      let at_first = left-jobs_from (length remote) chunk (length remote) 0 h (omega arith) in
      (omega (arith, at_first), refl)

  module _ (lim : Timeouts) where
    -- Every range is read in full without an error, and no tick finds the fetch dead, stalled or too
    -- long under way.
    abbrev pub IsPatient : Transfer → Watch → List Step → Type 0
    IsPatient t w [] = Unit
    IsPatient t w (works e ∷ steps) = IsGood e × IsPatient (work chunk remote t e) w steps
    IsPatient t w (ticks now ∷ steps) =
        let w' = noted w t.done now in
        (is_hopeless lim t.done now (now - w'.last_prog) ≡ false) × IsPatient t w' steps

    loop-good :
        (t : Transfer) (w : Watch) (steps : List Step)
        → IsOnTrack t
        → IsPatient t w steps
        → (fetch_loop chunk remote lim t w steps).0.waiting ≡ []
        → (fetch_loop chunk remote lim t w steps).1 ≡ committed (length remote)
    unfolding fetch_loop
    loop-good t w [] h good none_left = on_track-finish t h none_left
    loop-good t w (works e ∷ steps) h (now, good) none_left =
        loop-good (work chunk remote t e) w steps (work-good t e now h) good none_left
    loop-good t w (ticks now ∷ steps) h (goes_on, good) none_left =
        rw goes_on (loop-good t (noted w t.done now) steps h good (rw goes_on at none_left))

    -- Where every range is read in full without an error and none is left, and no tick finds the fetch
    -- dead, stalled or over its cap, the file is committed, in whatever order the ranges are taken.
    pub finish-good :
        (old : PartFile) (steps : List Step)
        → 0 < chunk
        → IsPatient (start chunk remote old) (record { last_done = 0; last_prog = 0 }) steps
        → (fetch_file chunk remote lim old steps).0.waiting ≡ []
        → (fetch_file chunk remote lim old steps).1 ≡ committed (length remote)
    finish-good old steps h good none_left =
        loop-good (start chunk remote old) _ steps (start-IsOnTrack old h) good none_left
