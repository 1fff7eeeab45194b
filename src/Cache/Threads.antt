-- ===== src/Cache/Threads.antt =====
-- Concurrent queries of src/cache.rs: any number of threads interleave their critical sections, and
-- each build runs between two of them, outside the lock.
pub mod Answers
pub mod Safety
use laterite_duckdb.Base.{
  ℕ, zero, suc, ◌+◌, ◌≤◌, ◌<◌, ◌≡◌, refl, List, [], ◌∷◌, arith, All, ◌==◌, nat_eq, Result, ok, err,
  panic, if◌then◌else◌, Bool-cases, inl, inr, subst, sym,
}
use laterite_duckdb.Cache.{
  Key, Entry, Cache, Probe, disabled, hit, miss, probe, publish, new_cache, u64_mod,
}

-- What a thread is doing: nothing, a build that it will publish, or a build for a disabled cache.
pub data Job : Type 0 where
  idle : Job
  building : Key → Job
  building_only : Key → Job

-- The shared cache, the threads, and the results of the calls that have returned.
pub record System (A : Type 0) : Type 0 where
  pub cache : Cache A
  pub jobs : ℕ → Job
  pub log : List (Key × Result A)

abbrev pub set_job : (ℕ → Job) → ℕ → Job → ℕ → Job
set_job jobs i job j = if i == j then job else jobs j

module _ {A : Type 0} where
  abbrev pub init : ℕ → System A
  init bytes = record { cache = new_cache bytes; jobs = λ i. idle; log = [] }

  unfoldable after_probe : ℕ → Key → Probe A → Cache A → System A → System A
  after_probe i key disabled c s = record s {
    cache = c;
    jobs = set_job s.jobs i (building_only key);
  }
  after_probe i key (hit a) c s = record s { cache = c; log = (key, ok a) ∷ s.log }
  after_probe i key miss c s = record s { cache = c; jobs = set_job s.jobs i (building key) }

  -- Thread `i` calls with `key` and runs its first critical section.
  unfoldable pub enter : ℕ → Key → System A → System A
  unfolding after_probe
  enter i key s = let (p, c) = probe key s.cache in after_probe i key p c s

  module _ (word : ℕ) where
    -- The build of thread `i` is over: an `ok` is published by the second critical section.
    unfoldable pub publish_built : ℕ → Key → Result A → System A → System A
    publish_built i key (ok a) s = record {
      cache = publish word key a s.cache;
      jobs = set_job s.jobs i idle;
      log = (key, ok a) ∷ s.log;
    }
    publish_built i key r s = record s { jobs = set_job s.jobs i idle; log = (key, r) ∷ s.log }

    -- A disabled cache is left alone.
    unfoldable pub return_built : ℕ → Key → Result A → System A → System A
    return_built i key r s = record s { jobs = set_job s.jobs i idle; log = (key, r) ∷ s.log }

-- The systems that threads can reach in `n` critical sections. `answer` is what the builder of a key
-- returns.
pub data Reach {A : Type 0} (word limit bytes : ℕ) (answer : Key → Result A)
    : ℕ → System A → Type 0 where
  start : Reach word limit bytes answer zero (init bytes)
  call :
      {n : ℕ} {s : System A} (i : ℕ) (key : Key)
      → Reach word limit bytes answer n s
      → s.jobs i ≡ idle
      → key.size ≤ limit
      → Reach word limit bytes answer (suc n) (enter i key s)
  built :
      {n : ℕ} {s : System A} (i : ℕ) (key : Key)
      → Reach word limit bytes answer n s
      → s.jobs i ≡ building key
      → Reach word limit bytes answer (suc n) (publish_built word i key (answer key) s)
  built_only :
      {n : ℕ} {s : System A} (i : ℕ) (key : Key)
      → Reach word limit bytes answer n s
      → s.jobs i ≡ building_only key
      → Reach word limit bytes answer (suc n) (return_built word i key (answer key) s)
