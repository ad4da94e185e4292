-- ===== src/Kalay/Reassembler/Contiguous.antt =====
-- What `cum`, `Missing` and `Gapless` say of the frames that have been added.
use seestar_remote.Base.{
  ℕ, zero, suc, ◌+◌, ◌-◌, ◌^◌, ◌≤◌, ◌<◌, ◌≡◌, refl, true, false, Option, none, some, List, [], ◌∷◌,
  leb, leb→le, length, Bool-cases, inl, inr, All, arith,
}
use seestar_remote.Base.Bytes.{Bytes, add64}
use seestar_remote.Base.AssocMap.{
  lookup, lookup-insert, count_above, count_above-le, count_above_step,
}
use seestar_remote.Kalay.Reassembler.{
  Reassembler, new_reassembler, non_nil, is_present, cum_loop, ingest, add,
}

-- Every key lies below the last `uint64`, so `c+1` does not wrap at one.
abbrev pub Bounded : List (ℕ × Bytes) → Type 0
Bounded frames = (k : ℕ) (v : Bytes) → lookup k frames ≡ some v → k < 2 ^ 64 - 1

-- `c` is the end of the run of non-nil frames that goes up from `base`.
pub record IsRunEnd (frames : List (ℕ × Bytes)) (base c : ℕ) : Type 0 where
  pub above : base ≤ c
  pub held : (s : ℕ) → base < s → s ≤ c → non_nil (lookup s frames) ≡ true
  pub ended : non_nil (lookup (c + 1) frames) ≡ false

non_nil-some : (o : Option Bytes) → non_nil o ≡ true → (v : Bytes) × (o ≡ some v)
non_nil-some none h = cc
non_nil-some (some v) h = (v, refl)

pub is_present-some : (o : Option Bytes) → is_present o ≡ true → (v : Bytes) × (o ≡ some v)
is_present-some none h = cc
is_present-some (some v) h = (v, refl)

held_further :
    (frames : List (ℕ × Bytes)) (base c : ℕ)
    → non_nil (lookup (c + 1) frames) ≡ true
    → ((s : ℕ) → base < s → s ≤ c → non_nil (lookup s frames) ≡ true)
    → (s : ℕ) → base < s
    → s ≤ c + 1
    → non_nil (lookup s frames) ≡ true
held_further frames base c more held s lo hi = elim (Bool-cases (leb s c)) [
  | inl below ↦ held s lo (leb→le s c below)
  | inr last ↦ let e : s ≡ c + 1 = ground arith in rw e more
]

cum_loop_lem :
    (fuel : ℕ) (frames : List (ℕ × Bytes)) (base c : ℕ)
    → Bounded frames
    → count_above c frames ≤ fuel
    → base ≤ c
    → c < 2 ^ 64 - 1
    → ((s : ℕ) → base < s → s ≤ c → non_nil (lookup s frames) ≡ true)
    → IsRunEnd frames base (cum_loop fuel frames c)
unfolding cum_loop
cum_loop_lem zero frames base c bounded few le lt held =
    elim (Bool-cases (non_nil (lookup (c + 1) frames))) [
      | inl more ↦
          let (v, e) = non_nil-some (lookup (c + 1) frames) more in
          absurd (omega (arith, count_above_step c v frames e))
      | inr ended ↦ record { above = le; held = held; ended = ended }
    ]
cum_loop_lem (suc fuel) frames base c bounded few le lt held =
    let next : add64 c 1 ≡ c + 1 = omega arith in
    elim (Bool-cases (non_nil (lookup (c + 1) frames))) [
      | inl more ↦
          let (v, e) = non_nil-some (lookup (c + 1) frames) more in
          rw (next, more)
            (cum_loop_lem fuel frames base (c + 1) bounded
              (omega (arith, count_above_step c v frames e)) (omega arith) (bounded (c + 1) v e)
              (held_further frames base c more held))
      | inr ended ↦ rw (next, ended) (record { above = le; held = held; ended = ended })
    ]

-- A reassembler that frames have been added to and none taken from.
pub record IsFilled (r : Reassembler) : Type 0 where
  pub bounded : Bounded r.frames
  pub untaken : r.consumed_set ≡ false
  pub within :
      (k : ℕ) (v : Bytes)
      → lookup k r.frames ≡ some v
      → (r.base_set ≡ true) × (r.base ≤ k) × (k ≤ r.max_seq)
  pub base_held : r.base_set ≡ true → is_present (lookup r.base r.frames) ≡ true
  pub max_held : r.base_set ≡ true → is_present (lookup r.max_seq r.frames) ≡ true
  pub run : r.base_set ≡ true → IsRunEnd r.frames r.base r.cum

pub new_reassembler-IsFilled : IsFilled new_reassembler
unfolding lookup
new_reassembler-IsFilled = record {
  bounded = λ k v e. cc;
  untaken = refl;
  within = λ k v e. cc;
  base_held = λ e. cc;
  max_held = λ e. cc;
  run = λ e. cc;
}

module _ (r : Reassembler) (seq : ℕ) (payload : Bytes) (f : IsFilled r)
    (lt : seq < 2 ^ 64 - 1) where
  ingest-Bounded : Bounded (ingest r seq payload).frames
  unfolding ingest
  ingest-Bounded k v e = ground (arith, lookup-insert seq k payload r.frames, f.bounded k v)

  ingest_within :
      (k : ℕ) (v : Bytes)
      → lookup k (ingest r seq payload).frames ≡ some v
      → ((ingest r seq payload).base_set ≡ true)
        × ((ingest r seq payload).base ≤ k)
        × (k ≤ (ingest r seq payload).max_seq)
  unfolding ingest
  ingest_within k v e = ground (arith, lookup-insert seq k payload r.frames, f.within k v)

  ingest_base : is_present (lookup (ingest r seq payload).base (ingest r seq payload).frames) ≡ true
  unfolding ingest
  ingest_base = ground (
    arith,
    lookup-insert seq seq payload r.frames,
    lookup-insert seq r.base payload r.frames,
    f.base_held,
  )

  ingest_max :
      is_present (lookup (ingest r seq payload).max_seq (ingest r seq payload).frames) ≡ true
  unfolding ingest
  ingest_max = ground (
    arith,
    lookup-insert seq seq payload r.frames,
    lookup-insert seq r.max_seq payload r.frames,
    f.max_held,
  )

  ingest_run :
      IsRunEnd (ingest r seq payload).frames (ingest r seq payload).base (ingest r seq payload).cum
  ingest_run =
      let r' = ingest r seq payload in
      let (v, e) = is_present-some (lookup r'.base r'.frames) ingest_base in
      unfold ingest in
      cum_loop_lem (length r'.frames) r'.frames r'.base r'.base ingest-Bounded
        (count_above-le r'.base r'.frames) (omega arith) (ingest-Bounded r'.base v e)
        (λ s lo hi. absurd (omega arith))

  ingest-IsFilled : IsFilled (ingest r seq payload)
  ingest-IsFilled = record {
    bounded = ingest-Bounded;
    untaken = unfold ingest in f.untaken;
    within = ingest_within;
    base_held = λ _. ingest_base;
    max_held = λ _. ingest_max;
    run = λ _. ingest_run;
  }

pub add-IsFilled :
    (r : Reassembler) (seq : ℕ) (payload : Bytes)
    → IsFilled r
    → seq < 2 ^ 64 - 1
    → IsFilled (add r seq payload).0
unfolding add
add-IsFilled r seq payload f lt = elim (Bool-cases (is_present (lookup seq r.frames))) [
  | inl old ↦ simp (f.untaken, old) f
  | inr new ↦ simp (f.untaken, new) (ingest-IsFilled r seq payload f lt)
]

-- Frames added to a new reassembler in the order of the list.
unfoldable pub add_all : Reassembler → List (ℕ × Bytes) → Reassembler
add_all r [] = r
add_all r ((seq, payload) ∷ fs) = add_all (add r seq payload).0 fs

abbrev pub SeqBounded : List (ℕ × Bytes) → Type 0
SeqBounded = All (λ f. f.0 < 2 ^ 64 - 1)

pub add_all-IsFilled :
    (r : Reassembler) (fs : List (ℕ × Bytes)) → IsFilled r → SeqBounded fs → IsFilled (add_all r fs)
unfolding add_all
add_all-IsFilled r [] f h = f
add_all-IsFilled r ((seq, payload) ∷ fs) f h =
    add_all-IsFilled (add r seq payload).0 fs (add-IsFilled r seq payload f h.0) h.1
