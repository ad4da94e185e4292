-- ===== src/Download/Passes.antt =====
-- cmd/download/main.go: that the passes of the main loop come to an end, and what they have fetched.
use seestar_remote.Base.{
  ℕ, suc, ◌*◌, ◌≤◌, ◌<◌, ◌≡◌, refl, ap, ◌∙◌, true, false, some, List, [], ◌∷◌, ◌==◌, length,
  Bool-cases, Option-cases, inl, inr, ◌⊎◌, All, arith,
}
use seestar_remote.Base.Bytes.{Bytes}
use seestar_remote.Download.{
  Filters, FileEnt, Share, walk, Pass, max_fails, Fetches, Session, refused, served, download_round,
  download,
}
use seestar_remote.Download.Streaming.{visit_files, stream_walk-walk}
use seestar_remote.Download.Progress.{
  total_due, is_settled, total_due-le, IsOneSize, IsWhole, All-imp, visit_files-IsRun,
}

-- How many sessions were connected.
abbrev pub connected : List Session → ℕ
connected [] = 0
connected (refused ∷ later) = connected later
connected (served share fetch ∷ later) = suc (connected later)

-- A file is at its size locally, or has failed four times.
abbrev pub IsDone : Pass → FileEnt → Type 0
IsDone st f = (st.local f.rel ≡ some f.size) ⊎ (max_fails ≤ st.fail_count f.rel)

is_settled-IsDone : (st : Pass) (f : FileEnt) → is_settled st f ≡ true → IsDone st f
is_settled-IsDone st f h = elim (Option-cases (st.local f.rel)) [
  | inl absent ↦ inr (ground (arith, absent))
  | inr (n, there) ↦ elim (Bool-cases (n == f.size)) [
    | inl e ↦ let size : n ≡ f.size = ground arith in inl (there ∙ ap some size)
    | inr e ↦ inr (ground (arith, there))
  ]
]

module _ (fs : Filters) (root : Bytes) (depth : ℕ) (files : List FileEnt) where
  -- The device shows the same files in each session, and a fetch that succeeds commits a whole file.
  abbrev pub IsSteady : Session → Type 0
  IsSteady refused = Unit
  IsSteady (served share fetch) =
      (walk fs share root depth [] ≡ some files) × All (IsWhole fetch) files

  download_round-refused : {st : Pass} → download_round fs root depth st refused ≡ (st, false)
  unfolding download_round
  download_round-refused = refl

  -- A round that does not end the loop brings the end closer.
  download_round-IsDone :
      (st : Pass) (share : Share) (fetch : Fetches)
      → All (IsOneSize files) files
      → IsSteady (served share fetch)
      → let (st', over) = download_round fs root depth st (served share fetch) in
        (over ≡ true → All (IsDone st') files)
        × (over ≡ false → total_due st' files < total_due st files)
  unfolding download_round
  download_round-IsDone st share fetch one (listed, whole) =
      let st₀ : Pass = record st { got = 0; seen = [] } in
      let e = stream_walk-walk fetch fs share root depth [] files listed st₀ in
      let h = visit_files-IsRun fetch files st₀ [] files refl one whole in
      rw e (
        (λ over.
            All-imp (is_settled-IsDone (visit_files fetch st₀ files).0) files
              (h.settled (ground (arith, h.counted)))),
        λ goes. ground (arith, h.counted, h.failed, h.shrinks, h.forward),
      )

  download-total_due :
      (st : Pass) (sessions : List Session)
      → All (IsOneSize files) files
      → All IsSteady sessions
      → total_due st files < connected sessions
      → let (st', over) = download fs root depth st sessions in
        (over ≡ true) × All (IsDone st') files
  unfolding download
  download-total_due st [] one steady many = absurd (omega arith)
  download-total_due st (refused ∷ later) one (h, steady) many =
      rw download_round-refused (download-total_due st later one steady many)
  download-total_due st (served share fetch ∷ later) one (h, steady) many =
      let r = download_round fs root depth st (served share fetch) in
      let (ends, closer) = download_round-IsDone st share fetch one h in
      elim (Bool-cases r.1) [
        | inl over ↦ rw over (refl, ends over)
        | inr goes ↦ rw goes (download-total_due r.0 later one steady (omega (arith, closer goes)))
      ]

  -- Where the walk of every connected session lists the same files without an error, no path with two sizes, and a fetch that
  -- succeeds commits the whole file, the main loop ends within five connected sessions for each file
  -- and one more, however fetches and connections fail between; then each file is there at its size or
  -- has failed four times.
  pub download-IsDone :
      (st : Pass) (sessions : List Session)
      → All (IsOneSize files) files
      → All IsSteady sessions
      → 5 * length files < connected sessions
      → let (st', over) = download fs root depth st sessions in
        (over ≡ true) × All (IsDone st') files
  download-IsDone st sessions one steady many =
      download-total_due st sessions one steady (omega (arith, total_due-le st files))
