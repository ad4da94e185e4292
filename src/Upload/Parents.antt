-- ===== src/Upload/Parents.antt =====
-- cmd/upload/main.go: which directories there are after `mkdirP`.
use seestar_remote.Base.{
  ◌≡◌, ◌↔◌, refl, sym, ◌∙◌, true, false, ◌||◌, List, [], ◌∷◌, if◌then◌else◌, Bool-cases, inl, inr,
  false≢true, All, arith,
}
use seestar_remote.Base.Bytes.{Bytes, same_bytes}
use seestar_remote.Download.{is_empty}
use seestar_remote.Upload.{
  Dirs, split_slash, forward_slashes, joined, make_dir, mkdir_loop, mkdir_p,
}

-- A directory that was made is there, and those that are there stay.
pub record IsDirs {ℓ} {S : Type ℓ} (fs : Dirs S) : Type ℓ where
  pub made :
      (path : Bytes) (s : S)
      → (fs.mkdir path s).1 ≡ true
      → fs.is_dir path (fs.mkdir path s).0 ≡ true
  pub stays :
      (path other : Bytes) (s : S)
      → fs.is_dir path s ≡ true
      → fs.is_dir path (fs.mkdir other s).0 ≡ true

-- The directory and its parents, from the first down.
unfoldable pub chain : Bytes → List Bytes → List Bytes
chain cur [] = []
chain cur (seg ∷ segs) =
    let cur' = if is_empty seg then cur else joined cur seg in
    let below = chain cur' segs in if is_empty seg then below else cur' ∷ below

unfoldable pub chain_of : Bytes → List Bytes
chain_of dir =
    if is_empty dir || same_bytes dir (0x2e ∷ []) || same_bytes dir (0x5c ∷ [])
    then []
    else chain [] (split_slash (forward_slashes dir))

module _ {ℓ} {S : Type ℓ} (fs : Dirs S) (h : IsDirs fs) where
  make_dir-is_dir :
      (s : S) (path : Bytes) → (make_dir fs s path).1 ≡ fs.is_dir path (make_dir fs s path).0
  unfolding make_dir
  make_dir-is_dir s path = elim (Bool-cases (fs.mkdir path s).1) [
    | inl ok ↦ ground (arith, h.made path s ok)
    | inr bad ↦ ground arith
  ]

  make_dir_stays :
      (s : S) (path other : Bytes)
      → fs.is_dir path s ≡ true
      → fs.is_dir path (make_dir fs s other).0 ≡ true
  unfolding make_dir
  make_dir_stays s path other e = h.stays path other s e

  loop_skip :
      (s : S) (cur seg : Bytes) (segs : List Bytes)
      → is_empty seg ≡ true
      → mkdir_loop fs s cur (seg ∷ segs) ≡ mkdir_loop fs s cur segs
  unfolding mkdir_loop
  loop_skip s cur seg segs e = rw e refl

  loop_stop :
      (s : S) (cur seg : Bytes) (segs : List Bytes)
      → is_empty seg ≡ false
      → (make_dir fs s (joined cur seg)).1 ≡ false
      → mkdir_loop fs s cur (seg ∷ segs) ≡ ((make_dir fs s (joined cur seg)).0, false)
  unfolding mkdir_loop
  loop_stop s cur seg segs e bad = rw (e, bad) refl

  loop_down :
      (s : S) (cur seg : Bytes) (segs : List Bytes)
      → is_empty seg ≡ false
      → (make_dir fs s (joined cur seg)).1 ≡ true
      → mkdir_loop fs s cur (seg ∷ segs)
        ≡ mkdir_loop fs (make_dir fs s (joined cur seg)).0 (joined cur seg) segs
  unfolding mkdir_loop
  loop_down s cur seg segs e ok = rw (e, ok) refl

  mkdir_loop_stays :
      (s : S) (cur : Bytes) (segs : List Bytes) (path : Bytes)
      → fs.is_dir path s ≡ true
      → fs.is_dir path (mkdir_loop fs s cur segs).0 ≡ true
  mkdir_loop_stays s cur [] path e = unfold mkdir_loop in e
  mkdir_loop_stays s cur (seg ∷ segs) path e = elim (Bool-cases (is_empty seg)) [
    | inl none_here ↦ rw (loop_skip s cur seg segs none_here) (mkdir_loop_stays s cur segs path e)
    | inr here ↦
        let e' = make_dir_stays s path (joined cur seg) e in
        elim (Bool-cases (make_dir fs s (joined cur seg)).1) [
          | inl ok ↦
              rw (loop_down s cur seg segs here ok)
                (mkdir_loop_stays (make_dir fs s (joined cur seg)).0 (joined cur seg) segs path e')
          | inr bad ↦ rw (loop_stop s cur seg segs here bad) e'
        ]
  ]

  mkdir_loop_iff :
      (s : S) (cur : Bytes) (segs : List Bytes)
      → let (s', ok) = mkdir_loop fs s cur segs in
        (ok ≡ true) ↔ All (λ path. fs.is_dir path s' ≡ true) (chain cur segs)
  unfolding chain
  mkdir_loop_iff s cur [] = unfold mkdir_loop in (λ e. tt, λ e. refl)
  mkdir_loop_iff s cur (seg ∷ segs) = elim (Bool-cases (is_empty seg)) [
    | inl none_here ↦ rw (loop_skip s cur seg segs none_here, none_here) (mkdir_loop_iff s cur segs)
    | inr here ↦
        let path = joined cur seg in
        let s' = (make_dir fs s path).0 in
        let there = make_dir-is_dir s path in
        elim (Bool-cases (make_dir fs s path).1) [
          | inl ok ↦
              let (out, back) = mkdir_loop_iff s' path segs in
              rw (loop_down s cur seg segs here ok, here)
                (
                  λ e. (mkdir_loop_stays s' path segs path (sym there ∙ ok), out e),
                  λ all. back all.1,
                )
          | inr bad ↦
              rw (loop_stop s cur seg segs here bad, here)
                (λ e. absurd (false≢true e), λ all. absurd (false≢true (sym bad ∙ there ∙ all.0)))
        ]
  ]

  -- `mkdirP` succeeds exactly when, in the end, the directory and each of its parents are directories of
  -- the share.
  pub mkdir_p_iff :
      (s : S) (dir : Bytes)
      → let (s', ok) = mkdir_p fs s dir in
        (ok ≡ true) ↔ All (λ path. fs.is_dir path s' ≡ true) (chain_of dir)
  unfolding mkdir_p chain_of
  mkdir_p_iff s dir =
      elim (Bool-cases (is_empty dir || same_bytes dir (0x2e ∷ []) || same_bytes dir (0x5c ∷ []))) [
        | inl trivial ↦ rw trivial (λ e. tt, λ e. refl)
        | inr named ↦ rw named (mkdir_loop_iff s [] (split_slash (forward_slashes dir)))
      ]
