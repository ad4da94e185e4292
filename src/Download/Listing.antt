-- ===== src/Download/Listing.antt =====
-- cmd/download/main.go: what `walk` lists of a share that shows a tree of files.
use seestar_remote.Base.{
  ℕ, zero, suc, ◌≤◌, ◌≡◌, refl, ap, ◌∙◌, Bool, true, false, ◌&&◌, Option, none, some, List, [], ◌∷◌,
  ◌++◌, leb, if◌then◌else◌, Bool-cases, inl, inr, arith,
}
use seestar_remote.Base.Bytes.{Bytes}
use seestar_remote.Download.{
  Filters, FileInfo, FileEnt, Share, is_empty, top_of, ext, in_scope, want_file, is_in, dev_path,
  is_dots, child_of, both, walk_entry, walk_entries, walk,
}

-- The entries of a directory, with the directories' own entries.
pub data Tree : Type 0 where
  leaf : Tree
  file : Bytes → ℕ → Tree → Tree
  dir : Bytes → ℕ → Tree → Tree → Tree

abbrev pub infos : Tree → List FileInfo
infos leaf = []
infos (file n size rest) = record { name = n; is_dir = false; size = size } ∷ infos rest
infos (dir n size below rest) = record { name = n; is_dir = true; size = size } ∷ infos rest

-- How many levels of directories it has.
unfoldable pub levels : Tree → ℕ
levels leaf = 1
levels (file n size rest) = levels rest
levels (dir n size below rest) =
    let inner = suc (levels below) in
    let outer = levels rest in if leb inner outer then outer else inner

-- All files, in or out of scope, in order.
unfoldable pub all_files : Bytes → Tree → List FileEnt
all_files rel leaf = []
all_files rel (file n size rest) = record { rel = child_of rel n; size = size } ∷ all_files rel rest
all_files rel (dir n size below rest) = all_files (child_of rel n) below ++ all_files rel rest

-- The filters, on the whole path.
abbrev pub is_wanted : Filters → FileEnt → Bool
is_wanted fs f = in_scope fs f.rel && want_file fs f.rel

abbrev pub wanted : Filters → List FileEnt → List FileEnt
wanted fs [] = []
wanted fs (f ∷ files) = let rest = wanted fs files in if is_wanted fs f then f ∷ rest else rest

-- A name of an entry: not empty, without a separator, and neither `.` nor `..`.
abbrev pub IsName : Bytes → Type 0
IsName n = (is_empty n ≡ false) × (is_in 0x2f n ≡ false) × (is_dots n ≡ false)

abbrev pub IsNamed : Tree → Type 0
IsNamed leaf = Unit
IsNamed (file n size rest) = IsName n × IsNamed rest
IsNamed (dir n size below rest) = IsName n × IsNamed below × IsNamed rest

abbrev pub real : List FileInfo → List FileInfo
real [] = []
real (e ∷ es) = let rest = real es in if is_dots e.name then rest else e ∷ rest

-- The share lists each directory of the tree, with `.` and `..` or without.
abbrev pub Lists : Share → Bytes → Bytes → Tree → Type 0
Lists share root rel t =
    (es : List FileInfo) × (share (dev_path root rel) ≡ some es) × (real es ≡ infos t)

abbrev pub Below : Share → Bytes → Bytes → Tree → Type 0
Below share root rel leaf = Unit
Below share root rel (file n size rest) = Below share root rel rest
Below share root rel (dir n size below rest) =
    Lists share root (child_of rel n) below
    × Below share root (child_of rel n) below
    × Below share root rel rest

top_of-under : (xs ys : Bytes) → top_of (xs ++ (0x2f ∷ ys)) ≡ top_of xs
unfolding top_of
top_of-under [] ys = refl
top_of-under (x ∷ xs) ys = rw (top_of-under xs ys) refl

is_in-under : (xs ys : Bytes) → is_in 0x2f (xs ++ (0x2f ∷ ys)) ≡ true
is_in-under [] ys = refl
is_in-under (x ∷ xs) ys = ground (arith, is_in-under xs ys)

ext-under : (xs n : Bytes) → is_in 0x2f n ≡ false → ext (xs ++ (0x2f ∷ n)) ≡ ext n
unfolding ext
ext-under [] n h = elim (Bool-cases (is_empty (ext n))) [
  | inl e ↦ rw e (nothing (ext n) e)
  | inr e ↦ rw e refl
]
  where
    nothing : (r : Bytes) → is_empty r ≡ true → [] ≡ r
    nothing [] e' = refl
    nothing (b ∷ r) e' = cc
ext-under (x ∷ xs) n h = ground (arith, ext-under xs n h, is_in-under xs n)

is_empty-append : (xs ys : Bytes) → is_empty ys ≡ false → is_empty (xs ++ ys) ≡ false
is_empty-append [] ys h = h
is_empty-append (x ∷ xs) ys h = refl

module _ (fs : Filters) where
  -- The filters see the same in the path as in the name.
  want_file-child_of :
      (rel n : Bytes) → is_in 0x2f n ≡ false → want_file fs (child_of rel n) ≡ want_file fs n
  unfolding want_file
  want_file-child_of [] n h = refl
  want_file-child_of (b ∷ rel) n h = rw (ext-under (b ∷ rel) n h) refl

  child_of-is_empty : (rel n : Bytes) → is_empty n ≡ false → is_empty (child_of rel n) ≡ false
  child_of-is_empty [] n h = h
  child_of-is_empty (b ∷ rel) n h = refl

  -- What lies below a directory is in scope as the directory is.
  in_scope-child_of :
      (rel n : Bytes) → is_empty rel ≡ false → in_scope fs (child_of rel n) ≡ in_scope fs rel
  unfolding in_scope
  in_scope-child_of [] n h = absurd (ground arith)
  in_scope-child_of (b ∷ rel) n h = rw (top_of-under (b ∷ rel) n) refl

  wanted-append : (xs ys : List FileEnt) → wanted fs (xs ++ ys) ≡ wanted fs xs ++ wanted fs ys
  wanted-append [] ys = refl
  wanted-append (f ∷ xs) ys = elim (Bool-cases (is_wanted fs f)) [
    | inl e ↦ rw (e, wanted-append xs ys) refl
    | inr e ↦ rw (e, wanted-append xs ys) refl
  ]

  -- A directory out of scope has nothing to list.
  wanted-pruned :
      (rel : Bytes) (t : Tree)
      → is_empty rel ≡ false
      → in_scope fs rel ≡ false
      → IsNamed t
      → wanted fs (all_files rel t) ≡ []
  unfolding all_files
  wanted-pruned rel leaf h out named = refl
  wanted-pruned rel (file n size rest) h out (name, named) =
      let out' : in_scope fs (child_of rel n) ≡ false = in_scope-child_of rel n h ∙ out in
      rw out' (wanted-pruned rel rest h out named)
  wanted-pruned rel (dir n size below rest) h out (name, named, named') =
      let out' : in_scope fs (child_of rel n) ≡ false = in_scope-child_of rel n h ∙ out in
      rw (
        wanted-append,
        wanted-pruned (child_of rel n) below (child_of-is_empty rel n name.0) out' named,
        wanted-pruned rel rest h out named',
      )

  both-nil : {A : Type 0} (ys : Option (List A)) → both (some []) ys ≡ ys
  both-nil none = refl
  both-nil (some ys) = refl

  walk_entries-real :
      (deeper : Bytes → Option (List FileEnt)) (rel : Bytes) (es : List FileInfo)
      → walk_entries fs deeper rel es ≡ walk_entries fs deeper rel (real es)
  unfolding walk_entries walk_entry
  walk_entries-real deeper rel [] = refl
  walk_entries-real deeper rel (e ∷ es) = elim (Bool-cases (is_dots e.name)) [
    | inl dots ↦ rw (dots) (both-nil _ ∙ walk_entries-real deeper rel es)
    | inr named ↦
        let shown : real (e ∷ es) ≡ e ∷ real es = rw named refl in
        rw shown (ap (both (walk_entry fs deeper rel e)) (walk_entries-real deeper rel es))
  ]

  module _ (share : Share) (root : Bytes) where
    -- What `walk` gives at a directory that the share lists.
    abbrev IsListed : ℕ → Type 0
    IsListed depth =
        (rel : Bytes) (t : Tree)
        → Lists share root rel t
        → Below share root rel t
        → IsNamed t
        → levels t ≤ depth
        → walk fs share root depth rel ≡ some (wanted fs (all_files rel t))

    walk_entries-infos :
        (depth : ℕ) (rel : Bytes) (t : Tree)
        → IsListed depth
        → Below share root rel t
        → IsNamed t
        → levels t ≤ suc depth
        → walk_entries fs (walk fs share root depth) rel (infos t)
          ≡ some (wanted fs (all_files rel t))
    unfolding walk_entries walk_entry all_files levels
    walk_entries-infos depth rel leaf deep below named enough = refl
    walk_entries-infos depth rel (file n size rest) deep below (name, named) enough =
        let later = walk_entries-infos depth rel rest deep below named enough in
        let same = want_file-child_of rel n name.1 in
        elim (Bool-cases (in_scope fs (child_of rel n))) [
          | inl within ↦ elim (Bool-cases (want_file fs n)) [
            | inl kept ↦ rw (name.2, within, same, kept, later) refl
            | inr dropped ↦ rw (name.2, within, same, dropped, later) refl
          ]
          | inr outside ↦ rw (name.2, outside, later) refl
        ]
    walk_entries-infos depth rel (dir n size inner rest) deep (listed, below, below')
          (name, named, named') enough =
        let later = walk_entries-infos depth rel rest deep below' named' (ground arith) in
        elim (Bool-cases (in_scope fs (child_of rel n))) [
          | inl within ↦
              let first = deep (child_of rel n) inner listed below named (ground arith) in
              rw (name.2, within, wanted-append, first, later) refl
          | inr outside ↦
              let nothing =
                wanted-pruned (child_of rel n) inner (child_of-is_empty rel n name.0) outside
                  named in
              rw (name.2, outside, wanted-append, nothing, later) refl
        ]

    walk-IsListed : (depth : ℕ) → IsListed depth
    unfolding walk levels
    walk-IsListed zero rel t listed below named enough = absurd (omega (arith, levels-pos t))
      where
        levels-pos : (t : Tree) → 1 ≤ levels t
        levels-pos leaf = omega arith
        levels-pos (file n size rest) = levels-pos rest
        levels-pos (dir n size below' rest) = ground (arith, levels-pos rest)
    walk-IsListed (suc depth) rel t (es, read, shown) below named enough =
        rw (walk, read, walk_entries-real (walk fs share root depth) rel es, shown)
          (walk_entries-infos depth rel t (walk-IsListed depth) below named enough)

    -- On a share that shows a tree of files, a walk as deep as the tree lists exactly the tree's files
    -- that both filters let through, judged by their whole paths, once each and in the order of the
    -- tree: a directory that the walk does not open contains none of them.
    pub walk-all_files :
        (depth : ℕ) (t : Tree)
        → Lists share root [] t
        → Below share root [] t
        → IsNamed t
        → levels t ≤ depth
        → walk fs share root depth [] ≡ some (wanted fs (all_files [] t))
    walk-all_files depth t listed below named enough =
        walk-IsListed depth [] t listed below named enough
