-- ===== src/Upload/Examples.antt =====
-- An upload on concrete inputs.
use seestar_remote.Base.{
  ℕ, ◌<◌, ◌≡◌, ◌↔◌, refl, Bool, true, false, some, List, [], ◌∷◌, length, All, arith,
}
use seestar_remote.Base.Bytes.{Bytes, at, same_bytes, same_bytes_refl}
use seestar_remote.Download.{elem}
use seestar_remote.Upload.{
  Dirs, mkdir_p, split_slash, Turn, Closing, read_jobs, write_job, write_jobs, conclude,
  write_one_file,
}
use seestar_remote.Upload.Parents.{IsDirs, chain, chain_of, mkdir_p_iff}
use seestar_remote.Upload.Whole.{write_one_file-whole}

-- A share that makes every directory asked for but those that it has.
abbrev share : Dirs (List Bytes)
share = record { mkdir = λ path s. (path ∷ s, if_new (elem path s)); is_dir = elem }
  where
    if_new : Bool → Bool
    if_new true = false
    if_new false = true

share-IsDirs : IsDirs share
unfolding elem
share-IsDirs = record {
  made = λ path s e. ground (arith, same_bytes_refl path);
  stays = λ path other s e. ground arith;
}

-- `a\b`, where `a` is there.
mkdir_p_iff_example :
    let (s, ok) = mkdir_p share ((0x61 ∷ []) ∷ []) (0x61 ∷ 0x5c ∷ 0x62 ∷ []) in
    (ok ≡ true) ↔ All (λ path. elem path s ≡ true) (chain_of (0x61 ∷ 0x5c ∷ 0x62 ∷ []))
mkdir_p_iff_example = mkdir_p_iff share share-IsDirs ((0x61 ∷ []) ∷ []) (0x61 ∷ 0x5c ∷ 0x62 ∷ [])

parents : chain_of (0x61 ∷ 0x5c ∷ 0x62 ∷ []) ≡ (0x61 ∷ []) ∷ (0x61 ∷ 0x5c ∷ 0x62 ∷ []) ∷ []
unfolding chain_of chain split_slash same_bytes
parents = refl

-- Three bytes in pieces of two, the second piece first.
abbrev content : Bytes
content = 0x61 ∷ 0x62 ∷ 0x63 ∷ []

abbrev turns : List Turn
turns =
    record { pick = 1; count = 2; failed = false }
    ∷ record { pick = 0; count = 2; failed = false }
    ∷ []

abbrev closing : Closing
closing = record { close_err = false; size = some 3 }

abbrev written : ℕ
written = 3

write_one_file-whole_example :
    let (t, result) = write_one_file 2 content 3 (2 ∷ 2 ∷ []) turns closing in
    (written ≡ length content)
    × (closing.size ≡ some 3)
    × ((i : ℕ) → i < length content → t.remote i ≡ at content i)
unfolding write_one_file read_jobs write_jobs write_job conclude
write_one_file-whole_example =
    write_one_file-whole 2 content 3 (2 ∷ 2 ∷ []) turns closing written refl refl
