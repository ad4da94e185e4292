-- ===== src/Download/Fetch.antt =====
-- cmd/download/main.go: `fetchFile`, whose workers read the ranges of a file in any order.
pub mod Whole
pub mod Good
use seestar_remote.Base.{
  ℕ, zero, suc, ◌+◌, ◌-◌, ◌*◌, ◌≤◌, ◌<◌, ◌≡◌, refl, sym, ap, ◌∙◌, Bool, true, false, ◌&&◌, ◌||◌,
  not, Option, none, some, List, [], ◌∷◌, ◌++◌, ltb, leb, ◌==◌, if◌then◌else◌, length, get_or, min,
  Bool-cases, inl, inr, ◌⊎◌, All, arith,
}
use seestar_remote.Base.Bytes.{Bytes, at}

-- The partial file: a byte at each offset, 0 where nothing was written, and its size.
pub record PartFile : Type 0 where
  pub byte_at : ℕ → ℕ
  pub size : ℕ

-- `os.OpenFile` with `O_TRUNC`, on what an earlier fetch may have left.
unfoldable pub open_truncated : PartFile → PartFile
open_truncated old = record { byte_at = λ i. 0; size = 0 }

-- `f.WriteAt(buf[:n], off)`, of the `n` bytes read of the device's file.
abbrev pub write_at : Bytes → ℕ → ℕ → PartFile → PartFile
write_at remote off n f = record {
  byte_at = λ i. if leb off i && ltb i (off + n) then at remote i else f.byte_at i;
  size = if ltb f.size (off + n) then off + n else f.size;
}

-- The offsets of the ranges, `for off := int64(0); off < size; off += readChunk`.
unfoldable pub jobs_from : ℕ → ℕ → ℕ → ℕ → List ℕ
jobs_from zero chunk size off = []
jobs_from (suc fuel) chunk size off =
    let rest = jobs_from fuel chunk size (off + chunk) in if ltb off size then off ∷ rest else []

abbrev pub jobs : ℕ → ℕ → List ℕ
jobs chunk size = jobs_from size chunk size 0

-- The job that is handled next, of those not handled yet; how many bytes `ReadAt` reads, and whether
-- it or `WriteAt` fails. `io.EOF` counts as no failure.
pub record Turn : Type 0 where
  pub pick : ℕ
  pub count : ℕ
  pub read_err : Bool
  pub write_err : Bool

pub record Transfer : Type 0 where
  pub waiting : List ℕ
  pub part : PartFile
  pub done : ℕ
  pub rerr : Bool

abbrev pub remove_at : ℕ → List ℕ → List ℕ
remove_at k [] = []
remove_at zero (j ∷ js) = js
remove_at (suc k) (j ∷ js) = j ∷ remove_at k js

module _ (chunk : ℕ) (remote : Bytes) where
  -- A worker at a job: `end := min(off+readChunk, size)`, and no more than `end-off` bytes are read.
  unfoldable pub work : Transfer → Turn → Transfer
  work t e =
      let off = get_or t.waiting e.pick 0 in
      let n = min e.count (min (off + chunk) (length remote) - off) in
      if leb (length t.waiting) e.pick
      then t
      else if ltb 0 n && e.write_err
      then record t { waiting = remove_at e.pick t.waiting; rerr = true }
      else record t {
        waiting = remove_at e.pick t.waiting;
        part = if ltb 0 n then write_at remote off n t.part else t.part;
        done = t.done + n;
        rerr = t.rerr || e.read_err;
      }

  unfoldable pub start : PartFile → Transfer
  start old = record {
    waiting = jobs chunk (length remote);
    part = open_truncated old;
    done = 0;
    rerr = false;
  }

-- The end of `fetchFile`: the bytes committed, where `os.Rename` succeeds, or the count done where it
-- aborts.
pub data Verdict : Type 0 where
  committed : ℕ → Verdict
  aborted : ℕ → Verdict

-- Once the workers are finished.
unfoldable pub finish : ℕ → Transfer → Verdict
finish size t =
    if t.rerr
    then aborted t.done
    else if not (t.done == size)
    then aborted t.done
    else committed size

pub record Timeouts : Type 0 where
  pub dead_start : ℕ
  pub stall_gap : ℕ
  pub hard_cap : ℕ

-- The test of a tick that aborts, of the bytes done and the times since the start and the last progress.
unfoldable pub is_hopeless : Timeouts → ℕ → ℕ → ℕ → Bool
is_hopeless lim done since_start since_progress =
    ((done == 0) && ltb lim.dead_start since_start)
    || ltb lim.stall_gap since_progress
    || ltb lim.hard_cap since_start

-- `lastDone` and `lastProg`, the latter counted from the start.
pub record Watch : Type 0 where
  pub last_done : ℕ
  pub last_prog : ℕ

abbrev pub noted : Watch → ℕ → ℕ → Watch
noted w done now = if ltb w.last_done done then record { last_done = done; last_prog = now } else w

-- A worker handles a job, or the ticker ticks, at a time counted from the start.
pub data Step : Type 0 where
  works : Turn → Step
  ticks : ℕ → Step

module _ (chunk : ℕ) (remote : Bytes) (lim : Timeouts) where
  -- The loop of `fetchFile` beside its workers, up to when they are finished.
  unfoldable pub fetch_loop : Transfer → Watch → List Step → Transfer × Verdict
  fetch_loop t w [] = (t, finish (length remote) t)
  fetch_loop t w (works e ∷ steps) = fetch_loop (work chunk remote t e) w steps
  fetch_loop t w (ticks now ∷ steps) =
      let w' = noted w t.done now in
      let rest = fetch_loop t w' steps in
      if is_hopeless lim t.done now (now - w'.last_prog) then (t, aborted t.done) else rest

  -- `fetchFile`, on what an earlier fetch left.
  abbrev pub fetch_file : PartFile → List Step → Transfer × Verdict
  fetch_file old = fetch_loop (start chunk remote old) (record { last_done = 0; last_prog = 0 })
