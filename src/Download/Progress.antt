-- ===== src/Download/Progress.antt =====
-- cmd/download/main.go: how far the files are from their end, and what visiting them does to it.
use seestar_remote.Base.{
  ℕ, suc, ◌+◌, ◌-◌, ◌*◌, ◌≤◌, ◌<◌, ◌≡◌, refl, sym, ap, ◌∙◌, subst, Bool, true, false, ◌||◌, none,
  some, List, [], ◌∷◌, ◌++◌, append_assoc, leb, if◌then◌else◌, length, Bool-cases, Option-cases,
  inl, inr, All, arith,
}
use seestar_remote.Base.Bytes.{same_bytes, same_bytes_refl, same_bytes→≡}
use seestar_remote.Download.{
  FileEnt, Pass, max_fails, Fetches, with_key, is_size, visit_file, and_then,
}
use seestar_remote.Download.Streaming.{visit_files}

-- A file is there, at its size.
abbrev pub is_present : Pass → FileEnt → Bool
is_present st f = is_size (st.local f.rel) f.size

-- The fetches a file may still take: none when it is there, else one more than it may still fail.
abbrev due : Pass → FileEnt → ℕ
due st f = if is_present st f then 0 else suc (max_fails - st.fail_count f.rel)

abbrev pub total_due : Pass → List FileEnt → ℕ
total_due st [] = 0
total_due st (f ∷ files) = due st f + total_due st files

-- Nothing is left to do for a file: it is there, or has failed too often.
abbrev pub is_settled : Pass → FileEnt → Bool
is_settled st f = is_present st f || leb max_fails (st.fail_count f.rel)

pub total_due-le : (st : Pass) (files : List FileEnt) → total_due st files ≤ 5 * length files
total_due-le st [] = omega arith
total_due-le st (f ∷ files) = ground (arith, total_due-le st files)

-- No path has two sizes.
abbrev pub IsOneSize : List FileEnt → FileEnt → Type 0
IsOneSize all f = All (λ g. same_bytes g.rel f.rel ≡ true → g.size ≡ f.size) all

-- A fetch that succeeds commits the whole file.
abbrev pub IsWhole : Fetches → FileEnt → Type 0
IsWhole fetch f = (k n : ℕ) → fetch k f.rel ≡ some n → n ≡ f.size

abbrev add_fail : Pass → FileEnt → Pass
add_fail st f = record st {
  seen = st.seen ++ (f ∷ []);
  fail_count = with_key f.rel (st.fail_count f.rel + 1) st.fail_count;
  tries = st.tries + 1;
}

abbrev add_local : Pass → FileEnt → ℕ → Pass
add_local st f n = record st {
  seen = st.seen ++ (f ∷ []);
  local = with_key f.rel (some n) st.local;
  got = st.got + 1;
  tries = st.tries + 1;
}

module _ (fetch : Fetches) (st : Pass) (f : FileEnt) where
  visit-settled :
      is_settled st f ≡ true
      → visit_file fetch st f ≡ (record st { seen = st.seen ++ (f ∷ []) }, true)
  unfolding visit_file
  visit-settled h = elim (Bool-cases (is_present st f)) [
    | inl e ↦ rw e refl
    | inr e ↦
        let out : leb max_fails (st.fail_count f.rel) ≡ true = ground arith in rw (e, out) refl
  ]

  visit-failed :
      is_settled st f ≡ false
      → fetch st.tries f.rel ≡ none
      → visit_file fetch st f ≡ (add_fail st f, false)
  unfolding visit_file
  visit-failed h e =
      let absent : is_present st f ≡ false = ground arith in
      let may : leb max_fails (st.fail_count f.rel) ≡ false = ground arith in
      rw (absent, may, e) refl

  visit-fetched :
      (n : ℕ)
      → is_settled st f ≡ false
      → fetch st.tries f.rel ≡ some n
      → visit_file fetch st f ≡ (add_local st f n, true)
  unfolding visit_file
  visit-fetched n h e =
      let absent : is_present st f ≡ false = ground arith in
      let may : leb max_fails (st.fail_count f.rel) ≡ false = ground arith in
      rw (absent, may, e) refl

add_fail-due : (st : Pass) (f g : FileEnt) → due (add_fail st f) g ≤ due st g
add_fail-due st f g = elim (Bool-cases (same_bytes g.rel f.rel)) [
  | inl e ↦ ground (arith, ap st.fail_count (same_bytes→≡ g.rel f.rel e))
  | inr e ↦ ground arith
]

add_fail-due_self :
    (st : Pass) (f : FileEnt) → is_settled st f ≡ false → due (add_fail st f) f < due st f
add_fail-due_self st f h = ground (arith, same_bytes_refl f.rel)

add_local-due :
    (st : Pass) (f g : FileEnt)
    → (same_bytes g.rel f.rel ≡ true → g.size ≡ f.size)
    → due (add_local st f f.size) g ≤ due st g
add_local-due st f g one = elim (Bool-cases (same_bytes g.rel f.rel)) [
  | inl e ↦ let same = one e in ground arith
  | inr e ↦ ground arith
]

add_local-due_self :
    (st : Pass) (f : FileEnt) → is_settled st f ≡ false → due (add_local st f f.size) f < due st f
add_local-due_self st f h = ground (arith, same_bytes_refl f.rel)

pub All-imp :
    {A : Type 0} {P Q : A → Type 0} → ((a : A) → P a → Q a) → (xs : List A) → All P xs → All Q xs
All-imp h [] hs = tt
All-imp h (x ∷ xs) (p, ps) = (h x p, All-imp h xs ps)

All-of : {A : Type 0} {P : A → Type 0} → ((a : A) → P a) → (xs : List A) → All P xs
All-of h [] = tt
All-of h (x ∷ xs) = (h x, All-of h xs)

module _ (st st' : Pass) where
  total_due_mono :
      (files : List FileEnt)
      → All (λ g. due st' g ≤ due st g) files
      → total_due st' files ≤ total_due st files
  total_due_mono [] h = omega arith
  total_due_mono (f ∷ files) (h, hs) = omega (arith, total_due_mono files hs)

  total_due-less :
      (front : List FileEnt) (f : FileEnt) (rest : List FileEnt)
      → All (λ g. due st' g ≤ due st g) (front ++ (f ∷ rest))
      → due st' f < due st f
      → total_due st' (front ++ (f ∷ rest)) < total_due st (front ++ (f ∷ rest))
  total_due-less [] f rest (h, hs) less = omega (arith, total_due_mono rest hs)
  total_due-less (g ∷ front) f rest (h, hs) less =
      omega (arith, total_due-less front f rest hs less)

-- What visiting `files` does, from `st`.
pub record IsRun (all files : List FileEnt) (st : Pass) (r : Pass × Bool) : Type 0 where
  pub shrinks : total_due r.0 all + r.0.tries ≤ total_due st all + st.tries
  pub forward : st.tries ≤ r.0.tries
  pub counted : r.1 ≡ true → r.0.got + st.tries ≡ st.got + r.0.tries
  pub failed : r.1 ≡ false → st.tries < r.0.tries
  pub same : r.0.tries ≡ st.tries → (r.0.local ≡ st.local) × (r.0.fail_count ≡ st.fail_count)
  pub settled : r.0.tries ≡ st.tries → All (λ f. is_settled r.0 f ≡ true) files

module _ (fetch : Fetches) (all : List FileEnt) where
  visit_file-IsRun :
      (st : Pass) (front : List FileEnt) (f : FileEnt) (rest : List FileEnt)
      → all ≡ front ++ (f ∷ rest)
      → IsOneSize all f
      → IsWhole fetch f
      → IsRun all (f ∷ []) st (visit_file fetch st f)
  visit_file-IsRun st front f rest split one whole = elim (Bool-cases (is_settled st f)) [
    | inl over ↦ rw (visit-settled fetch st f over) (record {
      shrinks = omega (
        arith,
        total_due_mono st (record st { seen = st.seen ++ (f ∷ []) }) all
            (All-of (λ g. omega arith) all),
      );
      forward = omega arith;
      counted = λ e. omega arith;
      failed = λ e. cc;
      same = λ e. (refl, refl);
      settled = λ e. (over, tt);
    })
    | inr open_still ↦ elim (Option-cases (fetch st.tries f.rel)) [
      | inl bad ↦
          let st' = add_fail st f in
          let each = All-of {P = λ g. due st' g ≤ due st g} (λ g. add_fail-due st f g) all in
          let less =
            total_due-less st st' front f rest (subst (All (λ g. due st' g ≤ due st g)) split each)
              (add_fail-due_self st f open_still) in
          rw (visit-failed fetch st f open_still bad) (record {
            shrinks = rw split (omega (arith, less));
            forward = omega arith;
            counted = λ e. cc;
            failed = λ e. omega arith;
            same = λ e. absurd (omega arith);
            settled = λ e. absurd (omega arith);
          })
      | inr (n, good) ↦
          let st' = add_local st f f.size in
          let each : All (λ g. due st' g ≤ due st g) all =
            All-imp (λ g h. add_local-due st f g h) all one in
          let less =
            total_due-less st st' front f rest (subst (All (λ g. due st' g ≤ due st g)) split each)
              (add_local-due_self st f open_still) in
          let size : n ≡ f.size = whole st.tries n good in
          rw (visit-fetched fetch st f n open_still good, size)
            (record {
              shrinks = rw split (omega (arith, less));
              forward = omega arith;
              counted = λ e. omega arith;
              failed = λ e. cc;
              same = λ e. absurd (omega arith);
              settled = λ e. absurd (omega arith);
            })
    ]
  ]

and_then_go :
    (next : Pass → Pass × Bool) (r : Pass × Bool) → r.1 ≡ true → and_then next r ≡ next r.0
and_then_go next (st, true) e = refl
and_then_go next (st, false) e = cc

and_then_end :
    (next : Pass → Pass × Bool) (r : Pass × Bool) → r.1 ≡ false → and_then next r ≡ (r.0, false)
and_then_end next (st, true) e = cc
and_then_end next (st, false) e = refl

module _ (fetch : Fetches) (all : List FileEnt) where
  pub visit_files-IsRun :
      (st : Pass) (front files : List FileEnt)
      → all ≡ front ++ files
      → All (IsOneSize all) files
      → All (IsWhole fetch) files
      → IsRun all files st (visit_files fetch st files)
  unfolding visit_files
  visit_files-IsRun st front [] split one whole = record {
    shrinks = omega arith;
    forward = omega arith;
    counted = λ e. omega arith;
    failed = λ e. cc;
    same = λ e. (refl, refl);
    settled = λ e. tt;
  }
  visit_files-IsRun st front (f ∷ files) split (one, ones) (whole, wholes) =
      let r = visit_file fetch st f in
      let h = visit_file-IsRun fetch all st front f files split one whole in
      let split' : all ≡ (front ++ (f ∷ [])) ++ files =
        split ∙ sym (append_assoc front (f ∷ []) files) in
      elim (Bool-cases r.1) [
        | inl goes ↦
            let h' = visit_files-IsRun r.0 (front ++ (f ∷ [])) files split' ones wholes in
            rw (and_then_go (λ st'. visit_files fetch st' files) r goes) (record {
              shrinks = omega (arith, h.shrinks, h'.shrinks);
              forward = omega (arith, h.forward, h'.forward);
              counted = λ e. omega (arith, h.counted goes, h'.counted e);
              failed = λ e. omega (arith, h.forward, h'.failed e);
              same = λ e.
                  let late = h'.same (omega (arith, h.forward, h'.forward)) in
                  let soon = h.same (omega (arith, h.forward, h'.forward)) in
                  (late.0 ∙ soon.0, late.1 ∙ soon.1);
              settled = λ e.
                  let here : (visit_files fetch r.0 files).0.tries ≡ r.0.tries =
                    omega (arith, h.forward, h'.forward) in
                  let (l, c) = h'.same here in
                  let was = (h.settled (omega (arith, h.forward, h'.forward))).0 in
                  (
                    ap
                          (λ m.
                            is_size (m f.rel) f.size
                            || leb max_fails ((visit_files fetch r.0 files).0.fail_count f.rel))
                          l
                        ∙ ap (λ m. is_size (r.0.local f.rel) f.size || leb max_fails (m f.rel)) c
                        ∙ was,
                    h'.settled here,
                  );
            })
        | inr ends ↦ rw (and_then_end (λ st'. visit_files fetch st' files) r ends) (record {
          shrinks = h.shrinks;
          forward = h.forward;
          counted = λ e. cc;
          failed = λ e. h.failed ends;
          same = h.same;
          settled = λ e. absurd (omega (arith, h.failed ends));
        })
      ]
