-- ===== src/Kalay/Reassembler/Gaps.antt =====
-- What `Missing` and `Gapless` report of the frames that have been added.
use seestar_remote.Base.{
  ℕ, zero, suc, ◌+◌, ◌-◌, ◌≤◌, ◌<◌, ◌≡◌, ◌↔◌, refl, true, some, List, [], ◌∷◌, ltb, ◌==◌,
  Bool-cases, inl, inr, All, arith,
}
use seestar_remote.Base.Bytes.{Bytes}
use seestar_remote.Base.AssocMap.{lookup, lookup-insert}
use seestar_remote.Kalay.Reassembler.{
  Reassembler, new_reassembler, non_nil, ingest, add, missing_from, missing, gapless,
}
use seestar_remote.Kalay.Reassembler.Contiguous.{
  IsFilled, SeqBounded, add_all, add_all-IsFilled, new_reassembler-IsFilled, is_present-some,
}

-- No frame is empty.
abbrev HasPayloads : List (ℕ × Bytes) → Type 0
HasPayloads frames = (k : ℕ) (v : Bytes) → lookup k frames ≡ some v → non_nil (some v) ≡ true

-- Every number of a range has a non-nil frame.
abbrev Holds : List (ℕ × Bytes) → ℕ → ℕ → Type 0
Holds frames s e = (k : ℕ) → s ≤ k → k < e → non_nil (lookup k frames) ≡ true

missing_from-nil :
    (n s : ℕ) (frames : List (ℕ × Bytes)) → missing_from n s frames ≡ [] → Holds frames s (s + n)
unfolding missing_from
missing_from-nil zero s frames h k lo hi = absurd (omega arith)
missing_from-nil (suc n) s frames h k lo hi = elim (Bool-cases (s == k)) [
  | inl e ↦ ground arith
  | inr ne ↦ missing_from-nil n (s + 1) frames (ground arith) k (ground arith) (omega arith)
]

nil-missing_from :
    (n s : ℕ) (frames : List (ℕ × Bytes)) → Holds frames s (s + n) → missing_from n s frames ≡ []
unfolding missing_from
nil-missing_from zero s frames h = refl
nil-missing_from (suc n) s frames h =
    rw (h s (omega arith) (omega arith))
      (nil-missing_from n (s + 1) frames (λ k lo hi. h k (omega arith) (omega arith)))

ingest-HasPayloads :
    (r : Reassembler) (seq : ℕ) (payload : Bytes)
    → HasPayloads r.frames
    → non_nil (some payload) ≡ true
    → HasPayloads (ingest r seq payload).frames
unfolding ingest
ingest-HasPayloads r seq payload h ne k v e =
    ground (arith, lookup-insert seq k payload r.frames, h k v)

add-HasPayloads :
    (r : Reassembler) (seq : ℕ) (payload : Bytes)
    → HasPayloads r.frames
    → non_nil (some payload) ≡ true
    → HasPayloads (add r seq payload).0.frames
unfolding add
add-HasPayloads r seq payload h ne k v e =
    ground (arith, h k v, ingest-HasPayloads r seq payload h ne k v)

add_all-HasPayloads :
    (r : Reassembler) (fs : List (ℕ × Bytes))
    → HasPayloads r.frames
    → All (λ f. non_nil (some f.1) ≡ true) fs
    → HasPayloads (add_all r fs).frames
unfolding add_all
add_all-HasPayloads r [] h ne = h
add_all-HasPayloads r ((seq, payload) ∷ fs) h ne =
    add_all-HasPayloads (add r seq payload).0 fs (add-HasPayloads r seq payload h ne.0) ne.1

base_non_nil :
    (r : Reassembler)
    → IsFilled r
    → HasPayloads r.frames
    → r.base_set ≡ true
    → non_nil (lookup r.base r.frames) ≡ true
base_non_nil r f full started =
    let (v, e) = is_present-some (lookup r.base r.frames) (f.base_held started) in
    rw e (full r.base v e)

-- The run of a filled reassembler does not go past the highest number seen.
cum-le_max : (r : Reassembler) → IsFilled r → r.base_set ≡ true → r.cum ≤ r.max_seq
cum-le_max r f started =
    let run = f.run started in
    let (v, e) = is_present-some (lookup r.base r.frames) (f.base_held started) in
    elim (Bool-cases (ltb r.base r.cum)) [
      | inl more ↦
          let (w, e') =
            is_present-some (lookup r.cum r.frames)
              (ground (arith, run.held r.cum (ground arith) (omega arith))) in
          (f.within r.cum w e').2
      | inr same ↦ ground (arith, f.within r.base v e)
    ]

-- The whole range is held where the run reaches the highest number.
Holds-of_gapless :
    (r : Reassembler)
    → IsFilled r
    → HasPayloads r.frames
    → r.base_set ≡ true
    → r.cum ≡ r.max_seq
    → Holds r.frames r.base (r.base + (r.max_seq + 1 - r.base))
Holds-of_gapless r f full started e k lo hi = elim (Bool-cases (r.base == k)) [
  | inl at_base ↦
      let same : r.base ≡ k = ground arith in rw (← same) (base_non_nil r f full started)
  | inr above ↦ (f.run started).held k (ground arith) (ground (arith, cum-le_max r f started))
]

gapless_iff :
    (r : Reassembler)
    → IsFilled r
    → HasPayloads r.frames
    → r.base_set ≡ true
    → (gapless r ≡ true) ↔ (missing r ≡ [])
unfolding gapless missing
gapless_iff r f full started = (
  λ g. ground (
    arith,
    nil-missing_from (r.max_seq + 1 - r.base) r.base r.frames
        (Holds-of_gapless r f full started (ground arith)),
  ),
  λ m.
      let all = missing_from-nil (r.max_seq + 1 - r.base) r.base r.frames (ground arith) in
      let run = f.run started in
      ground (arith, cum-le_max r f started, run.ended, run.above, all (r.cum + 1)),
)

-- Of a reassembler that at least one frame has been added to, in any order, none of them empty, and
-- from which none has been taken, `Gapless` is true exactly when `Missing` is empty.
pub gapless-iff-missing :
    (fs : List (ℕ × Bytes))
    → SeqBounded fs
    → All (λ f. non_nil (some f.1) ≡ true) fs
    → (add_all new_reassembler fs).base_set ≡ true
    → let r = add_all new_reassembler fs in (gapless r ≡ true) ↔ (missing r ≡ [])
gapless-iff-missing fs h ne =
    gapless_iff (add_all new_reassembler fs)
      (add_all-IsFilled new_reassembler fs new_reassembler-IsFilled h)
      (add_all-HasPayloads new_reassembler fs (unfold lookup in λ k v e. cc) ne)
