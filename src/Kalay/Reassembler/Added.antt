-- ===== src/Kalay/Reassembler/Added.antt =====
-- What the reassembler holds of the frames that have been added to it.
use seestar_remote.Base.{
  ℕ, ◌+◌, ◌≤◌, ◌<◌, ◌≡◌, refl, sym, ap, ◌∙◌, true, false, Option, none, some, List, [], ◌∷◌, ◌==◌,
  if◌then◌else◌, length, Bool-cases, inl, inr, All, arith,
}
use seestar_remote.Base.Bytes.{Bytes}
use seestar_remote.Base.AssocMap.{lookup, lookup-insert}
use seestar_remote.Kalay.Reassembler.{
  Reassembler, new_reassembler, is_present, non_nil, ingest, add,
}
use seestar_remote.Kalay.Reassembler.Contiguous.{
  IsRunEnd, SeqBounded, add_all, add_all-IsFilled, new_reassembler-IsFilled, is_present-some,
}

-- The first of two values.
abbrev or_else : Option Bytes → Option Bytes → Option Bytes
or_else none o = o
or_else (some v) o = some v

or_else-none : (o : Option Bytes) → or_else o none ≡ o
or_else-none none = refl
or_else-none (some v) = refl

or_else_assoc : (a b c : Option Bytes) → or_else (or_else a b) c ≡ or_else a (or_else b c)
or_else_assoc none b c = refl
or_else_assoc (some v) b c = refl

not_present : (o : Option Bytes) → is_present o ≡ false → o ≡ none
not_present none e = refl
not_present (some v) e = cc

or_else_self : (o : Option Bytes) (p : Bytes) → is_present o ≡ true → o ≡ or_else o (some p)
or_else_self none p e = cc
or_else_self (some v) p e = refl

module _ (r : Reassembler) (seq : ℕ) (payload : Bytes) (untaken : r.consumed_set ≡ false) where
  add-untaken : (add r seq payload).0.consumed_set ≡ false
  unfolding add ingest
  add-untaken = ground arith

  lookup-add :
      (k : ℕ)
      → lookup k (add r seq payload).0.frames
        ≡ or_else (lookup k r.frames) (if seq == k then some payload else none)
  unfolding add ingest
  lookup-add k = elim (Bool-cases (is_present (lookup seq r.frames))) [
    | inl old ↦ elim (Bool-cases (seq == k)) [
      | inl here ↦
          let same : seq ≡ k = ground arith in
          rw (untaken, old, here)
            (or_else_self (lookup k r.frames) payload
              (ap is_present (ap (λ z. lookup z r.frames) (sym same)) ∙ old))
      | inr other ↦ rw (untaken, old, other) (sym (or_else-none (lookup k r.frames)))
    ]
    | inr new ↦ elim (Bool-cases (seq == k)) [
      | inl here ↦
          let same : seq ≡ k = ground arith in
          let absent : lookup k r.frames ≡ none =
            ap (λ z. lookup z r.frames) (sym same) ∙ not_present _ new in
          rw (untaken, new, absent, here) (lookup-insert seq k payload r.frames ∙ rw here refl)
      | inr other ↦
          rw (untaken, new, other)
            (lookup-insert seq k payload r.frames
              ∙ rw other (sym (or_else-none (lookup k r.frames))))
    ]
  ]

lookup-add_all :
    (r : Reassembler) (fs : List (ℕ × Bytes)) (k : ℕ)
    → r.consumed_set ≡ false
    → lookup k (add_all r fs).frames ≡ or_else (lookup k r.frames) (lookup k fs)
unfolding add_all lookup
lookup-add_all r [] k untaken = sym (or_else-none (lookup k r.frames))
lookup-add_all r ((seq, payload) ∷ fs) k untaken =
    lookup-add_all (add r seq payload).0 fs k (add-untaken r seq payload untaken)
    ∙ ap (λ o. or_else o (lookup k fs)) (lookup-add r seq payload untaken k)
    ∙ or_else_assoc (lookup k r.frames) _ (lookup k fs)
    ∙ ap (or_else (lookup k r.frames))
        (elim (Bool-cases (seq == k)) [ inl here ↦ rw here refl | inr other ↦ rw other refl ])

-- A number that no frame goes below, and that one has.
pub record IsLowest (fs : List (ℕ × Bytes)) (base : ℕ) : Type 0 where
  pub below : All (λ f. base ≤ f.0) fs
  pub among : is_present (lookup base fs) ≡ true

-- Each frame of a list is found under its number.
lookup_head :
    (fs : List (ℕ × Bytes)) (s : ℕ) (p : Bytes) → is_present (lookup s ((s, p) ∷ fs)) ≡ true
unfolding lookup
lookup_head fs s p = let same : (s == s) ≡ true = ground arith in rw same refl

lookup_tail :
    (fs : List (ℕ × Bytes)) (f : ℕ × Bytes) (s : ℕ)
    → is_present (lookup s fs) ≡ true
    → is_present (lookup s (f ∷ fs)) ≡ true
unfolding lookup
lookup_tail fs f s e = elim (Bool-cases (f.0 == s)) [
  | inl here ↦ rw here refl
  | inr other ↦ rw other e
]

all_below :
    (base : ℕ) (fs gs : List (ℕ × Bytes))
    → ((s : ℕ) → is_present (lookup s gs) ≡ true → is_present (lookup s fs) ≡ true)
    → ((s : ℕ) → is_present (lookup s fs) ≡ true → base ≤ s)
    → All (λ f. base ≤ f.0) gs
all_below base fs [] sub low = tt
all_below base fs ((s, p) ∷ gs) sub low = (
  low s (sub s (lookup_head gs s p)),
  all_below base fs gs (λ k e. sub k (lookup_tail gs (s, p) k e)) low,
)

-- After any frames have been added to a new reassembler, in any order and with duplicates, it holds
-- under each number the first frame added with it, and no others; `base` is the lowest of the
-- numbers, and `cum` is the end of the run of frames that are not empty that goes up from it: all of
-- them up to `cum` have been added, and the next one has not, or is empty.
pub cum-IsRunEnd :
    (fs : List (ℕ × Bytes))
    → SeqBounded fs
    → 0 < length fs
    → let r = add_all new_reassembler fs in
      ((k : ℕ) → lookup k r.frames ≡ lookup k fs) × IsLowest fs r.base × IsRunEnd fs r.base r.cum
unfolding lookup
cum-IsRunEnd [] h more = absurd (omega arith)
cum-IsRunEnd ((s, p) ∷ rest) h more =
    let fs = (s, p) ∷ rest in
    let r = add_all new_reassembler fs in
    let same : (k : ℕ) → lookup k r.frames ≡ lookup k fs =
      λ k. lookup-add_all new_reassembler fs k refl in
    let f = add_all-IsFilled new_reassembler fs new_reassembler-IsFilled h in
    let within = λ (k : ℕ) (e : is_present (lookup k fs) ≡ true).
      let (v, there) = is_present-some (lookup k fs) e in f.within k v (same k ∙ there) in
    let set = (within s (lookup_head rest s p)).0 in
    let run = f.run set in
    (
      same,
      record {
        below = all_below r.base fs fs (λ k e. e) (λ k e. (within k e).1);
        among = ap is_present (sym (same r.base)) ∙ f.base_held set;
      },
      record {
        above = run.above;
        held = λ k lo hi. ap non_nil (sym (same k)) ∙ run.held k lo hi;
        ended = ap non_nil (sym (same (r.cum + 1))) ∙ run.ended;
      },
    )
