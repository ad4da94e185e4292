-- ===== src/Download/Verify.antt =====
-- cmd/download/main.go: what the final verification reports.
use seestar_remote.Base.{
  ℕ, ◌≡◌, ◌↔◌, refl, ap, ◌∙◌, true, false, Option, none, some, List, [], ◌∷◌, ◌==◌, Bool-cases,
  Option-cases, inl, inr, false≢true, All, arith,
}
use seestar_remote.Base.Bytes.{Bytes}
use seestar_remote.Download.{FileEnt, verify, is_complete}

module _ (local : Bytes → Option ℕ) (f : FileEnt) (files : List FileEnt) where
  verify-absent : local f.rel ≡ none → is_complete (verify local (f ∷ files)) ≡ false
  unfolding verify
  verify-absent absent = rw (verify, absent) (ground arith)

  verify-other :
      (n : ℕ)
      → local f.rel ≡ some n
      → (n == f.size) ≡ false
      → is_complete (verify local (f ∷ files)) ≡ false
  unfolding verify
  verify-other n there e = rw (verify, there, e) (ground arith)

  verify-same :
      (n : ℕ)
      → local f.rel ≡ some n
      → (n == f.size) ≡ true
      → is_complete (verify local (f ∷ files)) ≡ is_complete (verify local files)
  unfolding verify
  verify-same n there e = rw (verify, there, e) refl

  verify_file :
      (is_complete (verify local (f ∷ files)) ≡ true)
      ↔ ((local f.rel ≡ some f.size) × (is_complete (verify local files) ≡ true))
  verify_file = elim (Option-cases (local f.rel)) [
    | inl absent ↦ rw (verify-absent absent) (λ e. absurd (false≢true e), λ h. cc)
    | inr (n, there) ↦ elim (Bool-cases (n == f.size)) [
      | inl e ↦
          let size : n ≡ f.size = ground arith in
          rw (verify-same n there e) (λ h. (there ∙ ap some size, h), λ h. h.1)
      | inr e ↦
          rw (verify-other n there e)
            (λ e'. absurd (false≢true e'), λ h. ground (arith, there, h.0))
    ]
  ]

-- The final verification reports the archive complete exactly when each file that the device lists is
-- there at its size.
pub verify_iff :
    (local : Bytes → Option ℕ) (files : List FileEnt)
    → (is_complete (verify local files) ≡ true) ↔ All (λ f. local f.rel ≡ some f.size) files
verify_iff local [] = unfold verify in (λ h. tt, λ h. refl)
verify_iff local (f ∷ files) =
    let (out, back) = verify_file local f files in
    let (all, here) = verify_iff local files in
    (λ h. ((out h).0, all (out h).1), λ h. back (h.0, here h.1))
