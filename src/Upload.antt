-- ===== src/Upload.antt =====
-- cmd/upload/main.go: the directories that an upload needs, and the writing of a file by concurrent
-- workers. The share is a parameter.
pub mod Parents
pub mod Whole
mod Examples
use seestar_remote.Base.{
  ℕ, zero, suc, ◌+◌, ◌-◌, Bool, true, false, ◌&&◌, ◌||◌, not, Option, none, some, List, [], ◌∷◌,
  ◌++◌, map, ltb, leb, ◌==◌, if◌then◌else◌, length, get_or, min, take, drop,
}
use seestar_remote.Base.Bytes.{Bytes, at, same_bytes}
use seestar_remote.Download.{is_empty}

-- What `mkdirP` uses of a share in a state: `Mkdir`, which may fail, and whether `Stat` finds a
-- directory.
pub record Dirs {ℓ} (S : Type ℓ) : Type ℓ where
  pub mkdir : Bytes → S → S × Bool
  pub is_dir : Bytes → S → Bool

abbrev pub with_first : ℕ → List Bytes → List Bytes
with_first b [] = (b ∷ []) ∷ []
with_first b (s ∷ ss) = (b ∷ s) ∷ ss

-- `strings.Split(dir, "/")`
unfoldable pub split_slash : Bytes → List Bytes
split_slash [] = [] ∷ []
split_slash (b ∷ bs) = let ss = split_slash bs in if b == 0x2f then [] ∷ ss else with_first b ss

-- `strings.ReplaceAll(dir, "\", "/")`
abbrev pub forward_slashes : Bytes → Bytes
forward_slashes dir = map (λ b. if b == 0x5c then 0x2f else b) dir

abbrev pub joined : Bytes → Bytes → Bytes
joined cur seg = if is_empty cur then seg else cur ++ (0x5c ∷ seg)

module _ {ℓ} {S : Type ℓ} (fs : Dirs S) where
  -- A segment's directory: made, or there already.
  unfoldable pub make_dir : S → Bytes → S × Bool
  make_dir s path = let (s', ok) = fs.mkdir path s in (s', ok || fs.is_dir path s')

  unfoldable pub mkdir_loop : S → Bytes → List Bytes → S × Bool
  mkdir_loop s cur [] = (s, true)
  mkdir_loop s cur (seg ∷ segs) =
      let made = if is_empty seg then (s, true) else make_dir s (joined cur seg) in
      let rest = mkdir_loop made.0 (if is_empty seg then cur else joined cur seg) segs in
      if not made.1 then (made.0, false) else rest

  -- `mkdirP`; the Boolean is false for an error.
  unfoldable pub mkdir_p : S → Bytes → S × Bool
  mkdir_p s dir =
      if is_empty dir || same_bytes dir (0x2e ∷ []) || same_bytes dir (0x5c ∷ [])
      then (s, true)
      else mkdir_loop s [] (split_slash (forward_slashes dir))

-- A range of the file to write.
pub record Job : Type 0 where
  pub off : ℕ
  pub bytes : Bytes

-- The reading loop of `writeOneFile`, on what is left of the local file and the sizes that `Read`
-- returns; the Boolean is false where `Read` fails before the end of the file.
unfoldable pub read_jobs : ℕ → Bytes → ℕ → List ℕ → List Job × Bool
read_jobs chunk [] off sizes = ([], true)
read_jobs chunk (b ∷ rest) off [] = ([], false)
read_jobs chunk (b ∷ rest) off (size ∷ sizes) =
    let r = min size chunk in
    let (jobs, ended) = read_jobs chunk (drop r (b ∷ rest)) (off + r) sizes in
    (if ltb 0 r then record { off = off; bytes = take r (b ∷ rest) } ∷ jobs else jobs, ended)

-- The job that a worker handles next, of those not handled; how many bytes `WriteAt` writes, and
-- whether it fails otherwise.
pub record Turn : Type 0 where
  pub pick : ℕ
  pub count : ℕ
  pub failed : Bool

-- The device's file: a byte at each offset, 0 where nothing was written.
abbrev pub Sparse : Type 0
Sparse = ℕ → ℕ

pub record Progress : Type 0 where
  pub waiting : List Job
  pub remote : Sparse
  pub n : ℕ
  pub write_err : Bool

abbrev pub put_bytes : ℕ → Bytes → ℕ → Sparse → Sparse
put_bytes off b w f i = if leb off i && ltb i (off + w) then at b (i - off) else f i

abbrev pub no_job : Job
no_job = record { off = 0; bytes = [] }

abbrev pub without : ℕ → List Job → List Job
without k [] = []
without zero (j ∷ js) = js
without (suc k) (j ∷ js) = j ∷ without k js

-- A worker at a job; a short write is an error.
unfoldable pub write_job : Progress → Turn → Progress
write_job t e =
    let j = get_or t.waiting e.pick no_job in
    let w = min e.count (length j.bytes) in
    if leb (length t.waiting) e.pick then t else record {
      waiting = without e.pick t.waiting;
      remote = put_bytes j.off j.bytes w t.remote;
      n = t.n + w;
      write_err = t.write_err || e.failed || ltb w (length j.bytes);
    }

unfoldable pub write_jobs : Progress → List Turn → Progress
write_jobs t [] = t
write_jobs t (e ∷ es) = write_jobs (write_job t e) es

-- How `Close` and `Stat` of the remote file end.
pub record Closing : Type 0 where
  pub close_err : Bool
  pub size : Option ℕ

-- The tests at the end of `writeOneFile`, once the workers are finished: `none` is an error.
unfoldable pub conclude : Bool → ℕ → Closing → Progress → Option ℕ
conclude ended expect c t =
    if not ended || t.write_err || c.close_err
    then none
    else elim c.size [ none ↦ none | some size ↦ if not (size == expect) then none else some t.n ]

-- `writeOneFile` on the local file's content.
unfoldable pub write_one_file : ℕ → Bytes → ℕ → List ℕ → List Turn → Closing → Progress × Option ℕ
write_one_file chunk content expect sizes turns c =
    let (jobs, ended) = read_jobs chunk content 0 sizes in
    let t =
      write_jobs (record { waiting = jobs; remote = λ i. 0; n = 0; write_err = false }) turns in
    (t, conclude ended expect c t)
