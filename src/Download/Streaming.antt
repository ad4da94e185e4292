-- ===== src/Download/Streaming.antt =====
-- cmd/download/main.go: `streamWalk` against `walk`.
use seestar_remote.Base.{
  ℕ, zero, suc, ◌≡◌, refl, sym, ◌∙◌, Bool, true, false, ◌||◌, not, Option, none, some, List, [],
  ◌∷◌, ◌++◌, Bool-cases, Option-cases, inl, inr, arith,
}
use seestar_remote.Base.Bytes.{Bytes}
use seestar_remote.Download.{
  Filters, FileInfo, FileEnt, Share, in_scope, want_file, dev_path, is_dots, child_of, both,
  walk_entry, walk_entries, walk, Pass, Fetches, visit_file, and_then, stream_entry, stream_entries,
  stream_walk,
}

-- The files visited one behind the other, as far as the session goes.
unfoldable pub visit_files : Fetches → Pass → List FileEnt → Pass × Bool
visit_files fetch st [] = (st, true)
visit_files fetch st (f ∷ files) =
    and_then (λ st'. visit_files fetch st' files) (visit_file fetch st f)

and_then-same :
    (f g : Pass → Pass × Bool) (r : Pass × Bool)
    → ((st : Pass) → f st ≡ g st)
    → and_then f r ≡ and_then g r
and_then-same f g (st, true) e = e st
and_then-same f g (st, false) e = refl

and_then_assoc :
    (f g : Pass → Pass × Bool) (r : Pass × Bool)
    → and_then g (and_then f r) ≡ and_then (λ st. and_then g (f st)) r
and_then_assoc f g (st, true) = refl
and_then_assoc f g (st, false) = refl

and_then-true : (r : Pass × Bool) → and_then (λ st. (st, true)) r ≡ r
and_then-true (st, true) = refl
and_then-true (st, false) = refl

both-some :
    {A : Type 0} (a b : Option (List A)) (zs : List A)
    → both a b ≡ some zs
    → (xs : List A) × (ys : List A) × (a ≡ some xs) × (b ≡ some ys) × (zs ≡ xs ++ ys)
both-some none b zs e = cc
both-some (some xs) none zs e = cc
both-some (some xs) (some ys) zs e = (xs, ys, refl, refl, cc)

module _ (fetch : Fetches) where
  visit_files-append :
      (st : Pass) (xs ys : List FileEnt)
      → visit_files fetch st (xs ++ ys)
        ≡ and_then (λ st'. visit_files fetch st' ys) (visit_files fetch st xs)
  unfolding visit_files
  visit_files-append st [] ys = refl
  visit_files-append st (f ∷ xs) ys =
      and_then-same _ _ (visit_file fetch st f) (λ st'. visit_files-append st' xs ys)
      ∙ sym (
          and_then_assoc (λ st'. visit_files fetch st' xs) (λ st'. visit_files fetch st' ys)
            (visit_file fetch st f))

  module _ (fs : Filters) where
    -- What the walk lists is what the other walk visits.
    abbrev IsVisited : (Pass → Pass × Bool) → Option (List FileEnt) → Type 0
    IsVisited visits listed =
        (xs : List FileEnt) → listed ≡ some xs → (st : Pass) → visits st ≡ visit_files fetch st xs

    stream_entry-walk_entry :
        (deeper : Bytes → Option (List FileEnt)) (deeper' : Bytes → Pass → Pass × Bool)
        (rel : Bytes) (e : FileInfo)
        → ((child : Bytes) → IsVisited (deeper' child) (deeper child))
        → IsVisited (stream_entry fs fetch deeper' rel e) (walk_entry fs deeper rel e)
    unfolding stream_entry walk_entry visit_files
    stream_entry-walk_entry deeper deeper' rel e h xs listed st =
        elim (Bool-cases (is_dots e.name)) [
          | inl dots ↦ let none_listed : xs ≡ [] = ground arith in rw (none_listed, dots) refl
          | inr named ↦ elim (Bool-cases e.is_dir) [
            | inl is_dir ↦ elim (Bool-cases (in_scope fs (child_of rel e.name))) [
              | inl within ↦
                  rw (named, is_dir, within)
                    (h (child_of rel e.name) xs (rw (named, is_dir, within) at listed) st)
              | inr outside ↦
                  let none_listed : xs ≡ [] = ground arith in
                  rw (none_listed, named, is_dir, outside) refl
            ]
            | inr is_file ↦
                elim (Bool-cases
                  (not (in_scope fs (child_of rel e.name)) || not (want_file fs e.name))) [
                    | inl skipped ↦
                        let none_listed : xs ≡ [] = ground arith in
                        rw (none_listed, named, is_file, skipped) refl
                    | inr kept ↦
                        let one : xs ≡ record { rel = child_of rel e.name; size = e.size } ∷ [] =
                          ground arith in
                        rw (one, named, is_file, kept) (sym (and_then-true (visit_file fetch st _)))
                  ]
          ]
        ]

    stream_entries-walk_entries :
        (deeper : Bytes → Option (List FileEnt)) (deeper' : Bytes → Pass → Pass × Bool)
        (rel : Bytes) (es : List FileInfo)
        → ((child : Bytes) → IsVisited (deeper' child) (deeper child))
        → IsVisited (stream_entries fs fetch deeper' rel es) (walk_entries fs deeper rel es)
    unfolding stream_entries walk_entries
    stream_entries-walk_entries deeper deeper' rel [] h zs listed st =
        let none_listed : zs ≡ [] = cc in rw none_listed (unfold visit_files in refl)
    stream_entries-walk_entries deeper deeper' rel (e ∷ es) h zs listed st =
        let (xs, ys, e₁, e₂, zs≡) =
          both-some (walk_entry fs deeper rel e) (walk_entries fs deeper rel es) zs listed in
        rw (zs≡, visit_files-append, stream_entry-walk_entry deeper deeper' rel e h xs e₁ st)
          (and_then-same _ _ (visit_files fetch st xs)
            (λ st'. stream_entries-walk_entries deeper deeper' rel es h ys e₂ st'))

    -- Where `walk` lists the files of a directory, `streamWalk` visits those files, in that order, and
    -- stops with the first at which the session ends.
    pub stream_walk-walk :
        (share : Share) (root : Bytes) (depth : ℕ) (rel : Bytes) (files : List FileEnt)
        → walk fs share root depth rel ≡ some files
        → (st : Pass) → stream_walk fs fetch share root depth rel st ≡ visit_files fetch st files
    unfolding stream_walk walk
    stream_walk-walk share root zero rel files listed st = cc
    stream_walk-walk share root (suc depth) rel files listed st =
        elim (Option-cases (share (dev_path root rel))) [
          | inl unread ↦ absurd (ground arith)
          | inr (es, read) ↦
              rw (stream_walk, read)
                (stream_entries-walk_entries (walk fs share root depth)
                  (stream_walk fs fetch share root depth) rel es
                  (λ child files' listed' st'.
                    stream_walk-walk share root depth child files' listed' st')
                  files (rw (walk, read) at listed) st)
        ]
