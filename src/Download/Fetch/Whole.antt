-- ===== src/Download/Fetch/Whole.antt =====
-- cmd/download/main.go: what `fetchFile` commits.
use seestar_remote.Base.{
  ℕ, zero, suc, ◌+◌, ◌-◌, ◌≤◌, ◌<◌, ◌≡◌, refl, Bool, true, false, ◌&&◌, ◌||◌, List, [], ◌∷◌, ltb,
  leb, if◌then◌else◌, length, get_or, min, Bool-cases, inl, inr, ◌⊎◌, arith,
}
use seestar_remote.Base.Bytes.{Bytes, at}
use seestar_remote.Download.Fetch.{
  PartFile, open_truncated, write_at, jobs_from, Turn, Transfer, remove_at, work, start, committed,
  aborted, finish, Timeouts, is_hopeless, Watch, noted, Step, works, ticks, fetch_loop, fetch_file,
}

-- The bytes of the jobs that wait.
abbrev pub left : ℕ → ℕ → List ℕ → ℕ
left chunk size [] = 0
left chunk size (off ∷ js) = (min (off + chunk) size - off) + left chunk size js

abbrev covers : ℕ → ℕ → List ℕ → ℕ → Bool
covers chunk size [] i = false
covers chunk size (off ∷ js) i = (leb off i && ltb i (off + chunk)) || covers chunk size js i

pub left-jobs_from :
    (fuel chunk size off : ℕ)
    → 0 < chunk
    → size ≤ off + fuel
    → left chunk size (jobs_from fuel chunk size off) ≡ size - off
unfolding jobs_from
left-jobs_from zero chunk size off h enough = omega arith
left-jobs_from (suc fuel) chunk size off h enough =
    let rest = left-jobs_from fuel chunk size (off + chunk) h (omega arith) in
    elim (Bool-cases (ltb off size)) [
      | inl more ↦ rw more (ground (arith, rest))
      | inr over ↦ rw over (ground arith)
    ]

covers-jobs_from :
    (fuel chunk size off i : ℕ)
    → 0 < chunk
    → size ≤ off + fuel
    → off ≤ i
    → i < size
    → covers chunk size (jobs_from fuel chunk size off) i ≡ true
unfolding jobs_from
covers-jobs_from zero chunk size off i h enough low high = absurd (omega arith)
covers-jobs_from (suc fuel) chunk size off i h enough low high =
    let more : ltb off size ≡ true = ground arith in
    elim (Bool-cases (ltb i (off + chunk))) [
      | inl here ↦ rw more (ground arith)
      | inr later ↦
          let rest =
            covers-jobs_from fuel chunk size (off + chunk) i h (omega arith) (ground arith) high in
          rw more (ground (arith, rest))
    ]

module _ (chunk size : ℕ) where
  pub left-remove_at :
      (k : ℕ) (js : List ℕ)
      → k < length js
      → let off = get_or js k 0 in
        left chunk size (remove_at k js) + (min (off + chunk) size - off) ≡ left chunk size js
  left-remove_at k [] h = absurd (omega arith)
  left-remove_at zero (j ∷ js) h = omega arith
  left-remove_at (suc k) (j ∷ js) h = omega (arith, left-remove_at k js (omega arith))

  covers-remove_at :
      (k : ℕ) (js : List ℕ) (i : ℕ)
      → covers chunk size js i ≡ true
      → let off = get_or js k 0 in
        (covers chunk size (remove_at k js) i ≡ true) ⊎ ((off ≤ i) × (i < off + chunk))
  covers-remove_at k [] i h = inl h
  covers-remove_at zero (j ∷ js) i h = elim (Bool-cases (covers chunk size js i)) [
    | inl e ↦ inl e
    | inr e ↦ inr (ground arith, ground arith)
  ]
  covers-remove_at (suc k) (j ∷ js) i h = elim (Bool-cases (leb j i && ltb i (j + chunk))) [
    | inl e ↦ inl (ground arith)
    | inr e ↦ elim (covers-remove_at k js i (ground arith)) [
      | inl e' ↦ inl (ground arith)
      | inr within ↦ inr within
    ]
  ]

  covers-left :
      (js : List ℕ) (i : ℕ) → covers chunk size js i ≡ true → i < size → 0 < left chunk size js
  covers-left [] i h low = cc
  covers-left (j ∷ js) i h low = ground (arith, covers-left js i)

module _ (chunk : ℕ) (remote : Bytes) where
  -- A byte of the partial file is the device's.
  abbrev pub IsRight : PartFile → ℕ → Type 0
  IsRight f i = (f.byte_at i ≡ at remote i) × (i < f.size)

  -- A byte is still to come, or it is there.
  abbrev IsCovered : Transfer → ℕ → Type 0
  IsCovered t i = (covers chunk (length remote) t.waiting i ≡ true) ⊎ IsRight t.part i

  -- What is done and what waits is no more than the file, and if it is all of it, nothing is lost.
  record IsSound (t : Transfer) : Type 0 where
    fits : t.part.size ≤ length remote
    account : t.done + left chunk (length remote) t.waiting ≤ length remote
    filled :
        t.done + left chunk (length remote) t.waiting ≡ length remote
        → (i : ℕ) → i < length remote
        → IsCovered t i

  abbrev pub range_of : Transfer → Turn → ℕ
  range_of t e = let off = get_or t.waiting e.pick 0 in min (off + chunk) (length remote) - off

  module _ (t : Transfer) (e : Turn) where
    pub work_idle : leb (length t.waiting) e.pick ≡ true → work chunk remote t e ≡ t
    unfolding work
    work_idle idle = rw idle refl

    work_lost :
        leb (length t.waiting) e.pick ≡ false
        → (ltb 0 (min e.count (range_of t e)) && e.write_err) ≡ true
        → work chunk remote t e ≡ record t { waiting = remove_at e.pick t.waiting; rerr = true }
    unfolding work
    work_lost busy lost = rw (busy, lost) refl

    pub work_read :
        leb (length t.waiting) e.pick ≡ false
        → (ltb 0 (min e.count (range_of t e)) && e.write_err) ≡ false
        → let n = min e.count (range_of t e) in
          work chunk remote t e ≡ record t {
            waiting = remove_at e.pick t.waiting;
            part = if ltb 0 n then write_at remote (get_or t.waiting e.pick 0) n t.part else t.part;
            done = t.done + n;
            rerr = t.rerr || e.read_err;
          }
    unfolding work
    work_read busy kept = rw (busy, kept) refl

    -- A write of the device's bytes leaves right what is right, and makes right what it covers.
    written :
        (n i : ℕ)
        → let off = get_or t.waiting e.pick 0 in
          IsRight t.part i ⊎ ((off ≤ i) × (i < off + n))
          → IsRight (if ltb 0 n then write_at remote off n t.part else t.part) i
    written n i (inl (same, within)) = elim (Bool-cases (ltb 0 n)) [
      | inl some_bytes ↦ rw some_bytes (ground arith, ground arith)
      | inr nothing ↦ rw nothing (same, within)
    ]
    written n i (inr (low, high)) =
        let some_bytes : ltb 0 n ≡ true = ground arith in rw some_bytes (ground arith, ground arith)

    written_fits :
        (n : ℕ)
        → n ≤ range_of t e
        → t.part.size ≤ length remote
        → (if ltb 0 n then write_at remote (get_or t.waiting e.pick 0) n t.part else t.part).size
          ≤ length remote
    written_fits n low fits = elim (Bool-cases (ltb 0 n)) [
      | inl some_bytes ↦ rw some_bytes (ground arith)
      | inr nothing ↦ rw nothing fits
    ]

    work-IsSound : IsSound t → IsSound (work chunk remote t e)
    work-IsSound h = elim (Bool-cases (leb (length t.waiting) e.pick)) [
      | inl idle ↦ rw (work_idle idle) h
      | inr busy ↦
          let fewer = left-remove_at chunk (length remote) e.pick t.waiting (ground arith) in
          elim (Bool-cases (ltb 0 (min e.count (range_of t e)) && e.write_err)) [
            | inl lost ↦ rw (work_lost busy lost) (record {
              fits = h.fits;
              account = omega (arith, fewer, h.account);
              filled = λ full i low. absurd (ground (arith, fewer, h.account));
            })
            | inr kept ↦ rw (work_read busy kept) (record {
              fits = written_fits (min e.count (range_of t e)) (omega arith) h.fits;
              account = omega (arith, fewer, h.account);
              filled = λ full i low. elim (h.filled (omega (arith, fewer, h.account)) i low) [
                | inl to_come ↦
                    elim (covers-remove_at chunk (length remote) e.pick t.waiting i to_come) [
                      | inl still ↦ inl still
                      | inr (above, below) ↦ inr (
                          written (min e.count (range_of t e)) i
                            (inr (above, omega (arith, fewer, h.account))))
                    ]
                | inr right ↦ inr (written (min e.count (range_of t e)) i (inl right))
              ];
            })
          ]
    ]

  start-IsSound : (old : PartFile) → 0 < chunk → IsSound (start chunk remote old)
  unfolding start open_truncated
  start-IsSound old h = record {
    fits = omega arith;
    account = omega (arith, left-jobs_from (length remote) chunk (length remote) 0 h (omega arith));
    filled = λ full i low. inl (
        covers-jobs_from (length remote) chunk (length remote) 0 i h (omega arith) (omega arith)
          low);
  }

  finish-committed :
      (size n : ℕ) (t : Transfer) → finish size t ≡ committed n → (n ≡ size) × (t.done ≡ size)
  unfolding finish
  finish-committed size n t e = ground arith

  -- The file is committed whole.
  pub record IsWholeFile (t : Transfer) (n : ℕ) : Type 0 where
    pub count : n ≡ length remote
    pub sized : t.part.size ≡ length remote
    pub same : (i : ℕ) → i < length remote → t.part.byte_at i ≡ at remote i

  sound-IsWholeFile :
      (t : Transfer) (n : ℕ) → IsSound t → finish (length remote) t ≡ committed n → IsWholeFile t n
  sound-IsWholeFile t n sound e =
      let (size, all) = finish-committed (length remote) n t e in
      let right : (i : ℕ) → i < length remote → IsRight t.part i = λ i low.
        elim (sound.filled (omega (arith, sound.account)) i low) [
          | inl to_come ↦ absurd (
              omega
                (arith, covers-left chunk (length remote) t.waiting i to_come low, sound.account))
          | inr it ↦ it
        ] in
      record {
        count = size;
        sized = elim (Bool-cases (ltb 0 (length remote))) [
          | inl full ↦
              let last = (right (length remote - 1) (ground arith)).1 in
              ground (arith, last, sound.fits)
          | inr empty ↦ ground (arith, sound.fits)
        ];
        same = λ i low. (right i low).0;
      }

  module _ (lim : Timeouts) where
    loop-whole :
        (t : Transfer) (w : Watch) (steps : List Step) (n : ℕ)
        → IsSound t
        → (fetch_loop chunk remote lim t w steps).1 ≡ committed n
        → IsWholeFile (fetch_loop chunk remote lim t w steps).0 n
    unfolding fetch_loop
    loop-whole t w [] n h e = sound-IsWholeFile t n h e
    loop-whole t w (works turn ∷ steps) n h e =
        loop-whole (work chunk remote t turn) w steps n (work-IsSound t turn h) e
    loop-whole t w (ticks now ∷ steps) n h e =
        let w' = noted w t.done now in
        elim (Bool-cases (is_hopeless lim t.done now (now - w'.last_prog))) [
          | inl over ↦ let gave_up : aborted t.done ≡ committed n = rw over at e in absurd (cc)
          | inr goes_on ↦ rw goes_on (loop-whole t w' steps n h (rw goes_on at e))
        ]

    -- Whatever an earlier fetch left, in whatever order the workers take the ranges and however short
    -- the reads, whenever ticks fall between and whatever fails: where the file is committed, the
    -- count and the file's size are the device's, and so is every byte.
    pub finish-whole :
        (old : PartFile) (steps : List Step) (n : ℕ)
        → 0 < chunk
        → (fetch_file chunk remote lim old steps).1 ≡ committed n
        → IsWholeFile (fetch_file chunk remote lim old steps).0 n
    finish-whole old steps n h e =
        loop-whole (start chunk remote old) _ steps n (start-IsSound old h) e
