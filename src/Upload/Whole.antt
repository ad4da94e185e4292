-- ===== src/Upload/Whole.antt =====
-- cmd/upload/main.go: what is on the device when `writeOneFile` reports no error.
use seestar_remote.Base.{
  ℕ, zero, suc, ◌+◌, ◌-◌, ◌≤◌, ◌<◌, ◌≡◌, refl, sym, ap, ◌∙◌, Bool, true, false, ◌&&◌, ◌||◌, not,
  none, some, List, [], ◌∷◌, ltb, leb, ◌==◌, if◌then◌else◌, length, get_or, min, take, drop,
  length-take, length-drop, drop-drop, Bool-cases, Option-cases, inl, inr, ◌⊎◌, false≢true, All,
  arith,
}
use seestar_remote.Base.Bytes.{Bytes, at}
use seestar_remote.Upload.{
  Job, read_jobs, Turn, Progress, put_bytes, no_job, without, write_job, write_jobs, Closing,
  conclude, write_one_file,
}

abbrev left : List Job → ℕ
left [] = 0
left (j ∷ js) = length j.bytes + left js

abbrev is_covered : List Job → ℕ → Bool
is_covered [] i = false
is_covered (j ∷ js) i = (leb j.off i && ltb i (j.off + length j.bytes)) || is_covered js i

at-drop : (b : Bytes) (k i : ℕ) → at (drop k b) i ≡ at b (k + i)
at-drop b zero i = ap (at b) (omega arith)
at-drop [] (suc k) i = refl
at-drop (x ∷ b) (suc k) i = at-drop b k i ∙ ap (at (x ∷ b)) (the_next k i)
  where
    the_next : (k i : ℕ) → suc (k + i) ≡ suc k + i
    the_next k i = omega arith

at-take : (b : Bytes) (n i : ℕ) → i < n → at (take n b) i ≡ at b i
at-take b zero i h = absurd (omega arith)
at-take [] (suc n) i h = refl
at-take (x ∷ b) (suc n) zero h = refl
at-take (x ∷ b) (suc n) (suc i) h = at-take b n i (omega arith)

module _ (content : Bytes) where
  -- A job carries the bytes of the local file at its offset.
  abbrev IsRight : Job → Type 0
  IsRight j = (i : ℕ) → i < length j.bytes → at j.bytes i ≡ at content (j.off + i)

  -- What the reading loop cuts the rest of the file into.
  record IsCut (off : ℕ) (rest : Bytes) (jobs : List Job) : Type 0 where
    right : All IsRight jobs
    sum : left jobs ≡ length rest
    covered : (i : ℕ) → off ≤ i → i < off + length rest → is_covered jobs i ≡ true

  -- A piece that was read, in front of what the rest is cut into.
  IsCut-cons :
      (off r : ℕ) (rest : Bytes) (jobs : List Job)
      → drop off content ≡ rest
      → IsCut (off + r) (drop r rest) jobs
      → IsCut off rest (record { off = off; bytes = take r rest } ∷ jobs)
  IsCut-cons off r rest jobs e h =
      let l = length-take r rest in
      let l' = length-drop r rest in
      record {
        right = (
          λ i low.
              at-take rest r i (omega (arith, l))
              ∙ ap (λ bs. at bs i) (sym e)
              ∙ at-drop content off i,
          h.right,
        );
        sum = omega (arith, h.sum, l, l');
        covered = λ i low high. elim (Bool-cases (ltb i (off + length (take r rest)))) [
          | inl near ↦ ground arith
          | inr far ↦
              let later = h.covered i (ground (arith, l)) (ground (arith, l, l')) in ground arith
        ];
      }

  IsCut-none :
      (off r : ℕ) (rest : Bytes) (jobs : List Job)
      → r ≡ 0
      → IsCut (off + r) (drop r rest) jobs
      → IsCut off rest jobs
  IsCut-none off r rest jobs nothing h =
      let l' = length-drop r rest in
      record {
        right = h.right;
        sum = omega (arith, h.sum, l');
        covered = λ i low high. h.covered i (omega arith) (omega (arith, l'));
      }

  read_jobs_step :
      (chunk off : ℕ) (b : ℕ) (rest : Bytes) (size : ℕ) (sizes : List ℕ)
      → let r = min size chunk in
        let (jobs, ended) = read_jobs chunk (drop r (b ∷ rest)) (off + r) sizes in
        read_jobs chunk (b ∷ rest) off (size ∷ sizes)
        ≡ (if ltb 0 r then record { off = off; bytes = take r (b ∷ rest) } ∷ jobs else jobs, ended)
  unfolding read_jobs
  read_jobs_step chunk off b rest size sizes = refl

  read_jobs-IsCut :
      (chunk off : ℕ) (rest : Bytes) (sizes : List ℕ)
      → drop off content ≡ rest
      → let (jobs, ended) = read_jobs chunk rest off sizes in ended ≡ true → IsCut off rest jobs
  read_jobs-IsCut chunk off [] sizes e =
      unfold read_jobs in
      λ ended. record { right = tt; sum = refl; covered = λ i low high. absurd (omega arith) }
  read_jobs-IsCut chunk off (b ∷ rest) [] e = unfold read_jobs in λ ended. absurd (false≢true ended)
  read_jobs-IsCut chunk off (b ∷ rest) (size ∷ sizes) e =
      let r = min size chunk in
      let here = b ∷ rest in
      let below : drop (off + r) content ≡ drop r here =
        sym (drop-drop r off content) ∙ ap (drop r) e in
      let later = read_jobs-IsCut chunk (off + r) (drop r here) sizes below in
      rw (read_jobs_step chunk off b rest size sizes) (λ ended. elim (Bool-cases (ltb 0 r)) [
        | inl some_read ↦ rw some_read (IsCut-cons off r here _ e (later ended))
        | inr none_read ↦ rw none_read (IsCut-none off r here _ (ground arith) (later ended))
      ])

  left-without :
      (k : ℕ) (js : List Job)
      → k < length js
      → left (without k js) + length (get_or js k no_job).bytes ≡ left js
  left-without k [] h = absurd (omega arith)
  left-without zero (j ∷ js) h = omega arith
  left-without (suc k) (j ∷ js) h = omega (arith, left-without k js (omega arith))

  IsRight-without : (k : ℕ) (js : List Job) → All IsRight js → All IsRight (without k js)
  IsRight-without k [] h = tt
  IsRight-without zero (j ∷ js) (_, hs) = hs
  IsRight-without (suc k) (j ∷ js) (h, hs) = (h, IsRight-without k js hs)

  IsRight-at : (k : ℕ) (js : List Job) → All IsRight js → IsRight (get_or js k no_job)
  IsRight-at k [] h = λ i low. absurd (omega arith)
  IsRight-at zero (j ∷ js) (h, hs) = h
  IsRight-at (suc k) (j ∷ js) (h, hs) = IsRight-at k js hs

  covered-without :
      (k : ℕ) (js : List Job) (i : ℕ)
      → is_covered js i ≡ true
      → let j = get_or js k no_job in
        (is_covered (without k js) i ≡ true) ⊎ ((j.off ≤ i) × (i < j.off + length j.bytes))
  covered-without k [] i h = inl h
  covered-without zero (j ∷ js) i h = elim (Bool-cases (is_covered js i)) [
    | inl e ↦ inl e
    | inr e ↦ inr (ground arith, ground arith)
  ]
  covered-without (suc k) (j ∷ js) i h =
      elim (Bool-cases (leb j.off i && ltb i (j.off + length j.bytes))) [
        | inl e ↦ inl (ground arith)
        | inr e ↦ elim (covered-without k js i (ground arith)) [
          | inl e' ↦ inl (ground arith)
          | inr within ↦ inr within
        ]
      ]

  -- As long as no write has failed, each byte is still to be written, or is the local file's.
  record IsSent (t : Progress) : Type 0 where
    right : All IsRight t.waiting
    sum : t.write_err ≡ false → t.n + left t.waiting ≡ length content
    placed :
        t.write_err ≡ false
        → (i : ℕ) → i < length content
        → (is_covered t.waiting i ≡ true) ⊎ (t.remote i ≡ at content i)

  module _ (t : Progress) (e : Turn) where
    abbrev job : Job
    job = get_or t.waiting e.pick no_job

    abbrev done : ℕ
    done = min e.count (length job.bytes)

    job_idle : leb (length t.waiting) e.pick ≡ true → write_job t e ≡ t
    unfolding write_job
    job_idle idle = rw idle refl

    job_written :
        leb (length t.waiting) e.pick ≡ false
        → write_job t e ≡ record {
          waiting = without e.pick t.waiting;
          remote = put_bytes job.off job.bytes done t.remote;
          n = t.n + done;
          write_err = t.write_err || e.failed || ltb done (length job.bytes);
        }
    unfolding write_job
    job_written busy = rw busy refl

    -- A job's bytes, written in full, are the local file's at their place, and the others stay.
    put_right :
        IsRight job
        → (i : ℕ) → (t.remote i ≡ at content i) ⊎ ((job.off ≤ i) × (i < job.off + length job.bytes))
        → done ≡ length job.bytes
        → put_bytes job.off job.bytes done t.remote i ≡ at content i
    put_right right i there full = elim (Bool-cases (leb job.off i && ltb i (job.off + done))) [
      | inl within ↦
          let back : job.off + (i - job.off) ≡ i = ground arith in
          rw within (right (i - job.off) (ground (arith, full)) ∙ ap (at content) back)
      | inr outside ↦ elim there [
        | inl same ↦ rw outside same
        | inr (low, high) ↦ absurd (ground (arith, full))
      ]
    ]

    write_job-IsSent : IsSent t → IsSent (write_job t e)
    write_job-IsSent h = elim (Bool-cases (leb (length t.waiting) e.pick)) [
      | inl idle ↦ rw (job_idle idle) h
      | inr busy ↦
          let fewer = left-without e.pick t.waiting (ground arith) in
          rw (job_written busy) (record {
            right = IsRight-without e.pick t.waiting h.right;
            sum = λ quiet. let before = h.sum (ground arith) in ground (arith, fewer);
            placed = λ quiet i low.
                let full : done ≡ length job.bytes = ground arith in
                let right = IsRight-at e.pick t.waiting h.right in
                elim (h.placed (ground arith) i low) [
                  | inl to_come ↦ elim (covered-without e.pick t.waiting i to_come) [
                    | inl still ↦ inl still
                    | inr within ↦ inr (put_right right i (inr within) full)
                  ]
                  | inr there ↦ inr (put_right right i (inl there) full)
                ];
          })
    ]

  write_jobs-IsSent : (t : Progress) (turns : List Turn) → IsSent t → IsSent (write_jobs t turns)
  unfolding write_jobs
  write_jobs-IsSent t [] h = h
  write_jobs-IsSent t (e ∷ turns) h =
      write_jobs-IsSent (write_job t e) turns (write_job-IsSent t e h)

conclude-some :
    (ended : Bool) (expect : ℕ) (c : Closing) (t : Progress) (n : ℕ)
    → conclude ended expect c t ≡ some n
    → (ended ≡ true) × (t.write_err ≡ false) × (c.size ≡ some expect) × (n ≡ t.n)
unfolding conclude
conclude-some ended expect c t n e = elim (Bool-cases (not ended || t.write_err || c.close_err)) [
  | inl bad ↦ let nothing : none ≡ some n = rw bad at e in cc
  | inr good ↦ elim (Option-cases c.size) [
    | inl unknown ↦ let nothing : none ≡ some n = rw (good, unknown) at e in cc
    | inr (size, known) ↦ elim (Bool-cases (size == expect)) [
      | inr other ↦ let nothing : none ≡ some n = rw (good, known, other) at e in cc
      | inl same ↦
          let it : some t.n ≡ some n = rw (good, known, same) at e in
          let size' : size ≡ expect = ground arith in
          (ground arith, ground arith, known ∙ ap some size', cc)
    ]
  ]
]

-- Where `writeOneFile` reports no error once its workers have handled every job, in whatever order, the
-- device holds every byte of the local file at its place, the count is the local file's length, and the
-- device reports the size expected.
pub write_one_file-whole :
    (chunk : ℕ) (content : Bytes) (expect : ℕ) (sizes : List ℕ) (turns : List Turn) (c : Closing)
    (n : ℕ)
    → let (t, result) = write_one_file chunk content expect sizes turns c in
      t.waiting ≡ []
      → result ≡ some n
      → (n ≡ length content)
        × (c.size ≡ some expect)
        × ((i : ℕ) → i < length content → t.remote i ≡ at content i)
unfolding write_one_file
write_one_file-whole chunk content expect sizes turns c n idle e =
    let cut = read_jobs chunk content 0 sizes in
    let t₀ : Progress = record { waiting = cut.0; remote = λ i. 0; n = 0; write_err = false } in
    let t = write_jobs t₀ turns in
    let (ended, quiet, size, count) = conclude-some cut.1 expect c t n e in
    let h = read_jobs-IsCut content chunk 0 content sizes refl ended in
    let sent = write_jobs-IsSent content t₀ turns (record {
      right = h.right;
      sum = λ _. omega (arith, h.sum);
      placed = λ _ i low. inl (h.covered i (omega arith) (omega arith));
    }) in
    let nothing : left t.waiting ≡ 0 = ap left idle in
    (
      omega (arith, sent.sum quiet, nothing, count),
      size,
      λ i low. elim (sent.placed quiet i low) [
        | inl to_come ↦ absurd (false≢true (sym (ap (λ js. is_covered js i) idle) ∙ to_come))
        | inr there ↦ there
      ],
    )
