-- ===== src/Lifecycle/Reads.antt =====
-- src/source.rs: what a cached read holds of DuckDB's at its end, and the scope of a producer.
use laterite_duckdb.Base.{ℕ, ◌≡◌, refl, String, Result, ok, err, panic}
use laterite_duckdb.Base.Io.{Io, finally}
use laterite_duckdb.Cache.{Cache, Key, Probe, disabled, hit, miss, probe, finish, get_or_try_insert}
use laterite_duckdb.Functions.{Outside, Process}
use laterite_duckdb.Host.{Host}
use laterite_duckdb.Lifecycle.{Held, idle, bound, opened, traced, Account}
use laterite_duckdb.Lifecycle.Rules.{Stays, Stays-still, Stays-bind, Moves, Acquires, Stays-scope}
use laterite_duckdb.Lifecycle.Files.{StaysOpened, StaysBound, slurp-StaysOpened}
use laterite_duckdb.Lifecycle.Scopes.{from_bind-Acquires, drop_vfs_lem, open_for_read-Acquires}
use laterite_duckdb.Reader.{io, on_world, with_vfs, cached, parse_file, read_parsed_with_encoding}
use laterite_duckdb.Source.{from_bind, open_for_read, slurp}

-- All that is outside, with the account of the host.
abbrev pub traced_outside : Outside → Outside
traced_outside O = record O { H = traced O.H }

finish-end :
    {A V : Type 0} (held : V → Held) (a : Held) (word : ℕ) (key : Key) (r : Result A) (w : V)
    (c : Cache A)
    → held w ≡ a
    → held (finish word key (r, w) c).2 ≡ a
unfolding finish
finish-end held a word key (ok x) w c h = h
finish-end held a word key (err e) w c h = h
finish-end held a word key panic w c h = h

get_or_try_insert-end :
    {A V : Type 0} (held : V → Held) (a : Held) (word : ℕ) (key : Key) (build : Io V A)
    (c : Cache A) (w : V) (found : Probe A)
    → (probe key c).0 ≡ found
    → Stays held a build
    → held w ≡ a
    → held (get_or_try_insert word key build c w).2 ≡ a
unfolding get_or_try_insert
get_or_try_insert-end held a word key build c w disabled e k h =
    rw (e, get_or_try_insert) (k.run w h)
get_or_try_insert-end held a word key build c w (hit x) e k h = rw (e, get_or_try_insert) h
get_or_try_insert-end held a word key build c w miss e k h =
    rw (e, get_or_try_insert)
      (finish-end held a word key (build w).0 (build w).1 (probe key c).1 (k.run w h))

module _ (O : Outside) where
  open O use {C, E, T, R, D, J, word}

  abbrev pub S : Outside
  S = traced_outside O

  abbrev pub L : Host
  L = traced (Outside.H O)

  abbrev pub held : Process S → Held
  held s = s.world.0

  abbrev pub Idle : {X : Type 0} → Io (Process S) X → Type 0
  Idle m = Stays held idle m

  abbrev pub Bound : {X : Type 0} → Io (Process S) X → Type 0
  Bound m = Stays held bound m

  pub io-Bound :
      {A : Type 0} (m : Io (Account (Outside.H O)) A)
      → StaysBound (Outside.H O) m
      → Bound (io C E L word m)
  io-Bound m k = record { run = λ s h. k.run s.world h }

  io-Acquires :
      {A : Type 0} (a b : Held) (m : Io (Account (Outside.H O)) A)
      → Acquires (λ w. w.0) a b m
      → Acquires held a b (io C E L word m)
  io-Acquires a b m k = record { run = λ s h. k.run s.world h }

  parse_file-StaysOpened :
      (path : String) (encoding : C.Encoding) (handle : L.Handle) (size : ℕ)
      → StaysOpened (Outside.H O) (parse_file C E L word path encoding handle size)
  unfolding parse_file
  parse_file-StaysOpened path encoding handle size =
      Stays-bind _ opened (slurp L handle path size)
        (slurp-StaysOpened (Outside.H O) handle path size) (λ buf. Stays-still _ opened _)

  cached-Stays :
      (key : Key) (build : Io L.World E.ParsedAgs4)
      → StaysOpened (Outside.H O) build
      → Stays held opened (cached C E L word key build)
  unfolding cached
  cached-Stays key build k = record {
    run = λ s h. get_or_try_insert-end (λ w. w.0) opened word key build s.cache s.world _ refl k h;
  }

  dropped-Moves :
      {A : Type 0} (handle : L.Handle) (m : Io (Process S) A)
      → Stays held opened m
      → Moves held opened bound (finally (on_world C E L word (L.destroy_handle handle)) m)
  dropped-Moves handle m k = record { run = λ s h. rw (k.run s h) refl }

  pub read_parsed_with_encoding-Bound :
      (path : String) (encoding : C.Encoding)
      → Bound (read_parsed_with_encoding C E L word path encoding)
  unfolding read_parsed_with_encoding
  read_parsed_with_encoding-Bound path encoding =
      Stays-scope held bound opened (io C E L word (open_for_read L path))
        (io-Acquires bound opened _ (open_for_read-Acquires (Outside.H O) path))
        (λ o. dropped-Moves o.0 _ (cached-Stays _ _ (parse_file-StaysOpened path encoding o.0 o.1)))

  pub with_vfs-Idle : {A : Type 0} (m : Io (Process S) A) → Bound m → Idle (with_vfs C E L word m)
  unfolding with_vfs
  with_vfs-Idle m k =
      Stays-scope held idle bound (io C E L word (from_bind L))
        (io-Acquires idle bound _ (from_bind-Acquires (Outside.H O)))
        (λ _. record { run = λ s h. drop_vfs_lem (Outside.H O) (m s).1.world (k.run s h) })
