-- ===== src/Tests/Caching.antt =====
-- A cache of numbers with room for one large entry, for src/cache.rs.
use laterite_duckdb.Base.{
  ℕ, ◌+◌, ◌^◌, ◌≡◌, refl, ap, some, arith, inl, inr, ◌⊎◌, [], ◌∷◌, Result, ok, err,
}
use laterite_duckdb.Base.HashMap
use laterite_duckdb.Cache.{
  Entry, key_beq_iff, Key, key_eq, Cache, evict_to_cap, probe, publish, get_or_try_insert, touch,
}
use laterite_duckdb.Cache.Evict.{IsCounted, IsDone, evict_to_cap-IsDone}
use laterite_duckdb.Cache.Invariant.{HasRoom, IsValid}
use laterite_duckdb.Cache.Memo.{second_call_is_hit, error_is_not_cached}
use laterite_duckdb.Cache.Order.{IsSame}
use laterite_duckdb.Cache.Order.Calls.{IsSameOutcome, get_or_try_insert-IsSameOutcome}
use laterite_duckdb.Cache.Recency.{IsNewest, evict_to_cap-IsNewest}
use laterite_duckdb.Cache.Threads.{System, enter, publish_built, Reach, start, call, built, init}
use laterite_duckdb.Cache.Threads.Safety.{IsSafe, Reach-IsSafe}

abbrev pub word : ℕ
word = 2 ^ 64

abbrev pub limit : ℕ
limit = 2 ^ 32

abbrev pub cap : ℕ
cap = 10000

abbrev pub site_a : Key
site_a = record { path = "a.ags"; size = 6000; encoding = "UTF-8" }

abbrev pub site_b : Key
site_b = record { path = "b.ags"; size = 7000; encoding = "UTF-8" }

abbrev site_c : Key
site_c = record { path = "c.ags"; size = 8000; encoding = "UTF-8" }

-- Two entries, over the cap together.
abbrev full : Cache ℕ
full = record {
  map =
      (site_b, record { parsed = 2; cost = 7000; tick = 2 })
      ∷ (site_a, record { parsed = 1; cost = 6000; tick = 1 })
      ∷ [];
  total = 13000;
  cap = cap;
  clock = 2;
}

abbrev one : Cache ℕ
one = record {
  map = (site_a, record { parsed = 1; cost = 6000; tick = 1 }) ∷ [];
  total = 6000;
  cap = cap;
  clock = 1;
}

full-IsCounted : IsCounted word full
unfolding HashMap.get
full-IsCounted = record { distinct = (refl, (refl, tt)); counted = refl; small = omega arith }

one-IsValid : IsValid word limit one
unfolding HashMap.get
one-IsValid = record {
  counted = record { distinct = (refl, tt); counted = refl; small = omega arith };
  entries = ((omega arith, (omega arith, omega arith)), tt);
  done = inl (omega arith);
}

pub room : HasRoom word limit cap
room = record { floor = omega arith; two = omega arith; over = omega arith }

evict_to_cap-IsDone_example :
    IsCounted word (evict_to_cap word full) × IsDone (evict_to_cap word full)
evict_to_cap-IsDone_example = evict_to_cap-IsDone word full full-IsCounted

full-IsNewest : IsNewest site_b (record { parsed = 2; cost = 7000; tick = 2 }) full
unfolding HashMap.get
full-IsNewest = record {
  distinct = (refl, (refl, tt));
  stored = refl;
  others = (inl refl, (inr (omega arith), tt));
}

evict_to_cap-IsNewest_example :
    IsNewest site_b (record { parsed = 2; cost = 7000; tick = 2 }) (evict_to_cap word full)
evict_to_cap-IsNewest_example =
    evict_to_cap-IsNewest site_b (record { parsed = 2; cost = 7000; tick = 2 }) word full
      full-IsCounted full-IsNewest

-- Two threads miss the same file, build it, and publish one after the other.
abbrev answer : Key → Result ℕ
answer key = ok 7

abbrev both_in : System ℕ
both_in = enter 1 site_a (enter 0 site_a (init cap))

abbrev both_out : System ℕ
both_out =
    publish_built word 1 site_a (answer site_a)
      (publish_built word 0 site_a (answer site_a) both_in)

both_out-Reach : Reach word limit cap answer 4 both_out
unfolding enter publish_built probe touch publish
both_out-Reach =
    built 1 site_a
      (built 0 site_a (call 1 site_a (call 0 site_a start refl (omega arith)) refl (omega arith))
        refl)
      refl

Reach-IsSafe_example : IsSafe answer word limit cap room 4 both_out
Reach-IsSafe_example = Reach-IsSafe answer word limit cap room 4 (omega arith) both_out-Reach

-- The outside world counts the builds.
abbrev build : ℕ → Result ℕ × ℕ
build n = (ok 5, n + 1)

abbrev failing : ℕ → Result ℕ × ℕ
failing n = (err "malformed", n + 1)

abbrev after_build : Cache ℕ
after_build = (get_or_try_insert word site_b build one 0).1

build_runs : get_or_try_insert word site_b build one 0 ≡ (ok 5, after_build, 1)
unfolding get_or_try_insert
build_runs = refl

second_call_is_hit_example :
    get_or_try_insert word site_b failing after_build 1 ≡ (ok 5, (probe site_b after_build).1, 1)
second_call_is_hit_example =
    second_call_is_hit word limit site_b one (λ e. omega (arith, e)) room (omega arith)
      (omega arith) one-IsValid build failing 0 1 build_runs

abbrev after_failure : Cache ℕ
after_failure = (get_or_try_insert word site_b failing one 0).1

failure_runs : get_or_try_insert word site_b failing one 0 ≡ (err "malformed", after_failure, 1)
unfolding get_or_try_insert
failure_runs = refl

error_is_not_cached_example :
    (after_failure.map ≡ one.map)
    × (after_failure.total ≡ one.total)
    × ((get_or_try_insert word site_b build after_failure 1).2 ≡ (build 1).1)
error_is_not_cached_example = error_is_not_cached word site_b failing build one 0 1 failure_runs

-- The same two entries in the other order.
abbrev turned : Cache ℕ
turned = record full {
  map =
      (site_a, record { parsed = 1; cost = 6000; tick = 1 })
      ∷ (site_b, record { parsed = 2; cost = 7000; tick = 2 })
      ∷ [];
}

a_not_b : site_a ≡ site_b → ⊥
a_not_b h = omega (arith, ap (λ (k : Key). k.size) h)

either :
    (k : Key) (e : Entry ℕ)
    → HashMap.get k full.map ≡ some e
    → ((site_b ≡ k) × (e.tick ≡ 2)) ⊎ ((site_a ≡ k) × (e.tick ≡ 1))
unfolding HashMap.get
either k e h = ground (arith, key_beq_iff site_a k, key_beq_iff site_b k)

turned-IsSame : IsSame full turned
unfolding HashMap.get
turned-IsSame = record {
  agree = λ k. ground (arith, key_beq_iff site_a k, key_beq_iff site_b k, a_not_b);
  total = refl;
  cap = refl;
  clock = refl;
  distinct = (refl, (refl, tt));
  distinct' = (refl, (refl, tt));
  past = λ k e h. ground (arith, either k e h);
  apart = λ k j e f g h same. ground (arith, either k e g, either j f h);
}

get_or_try_insert-IsSameOutcome_example :
    IsSameOutcome
      (get_or_try_insert word site_c build full 0)
      (get_or_try_insert word site_c build turned 0)
get_or_try_insert-IsSameOutcome_example =
    get_or_try_insert-IsSameOutcome word site_c build 0 full turned (omega arith) turned-IsSame
