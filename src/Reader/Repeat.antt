-- ===== src/Reader/Repeat.antt =====
-- src/source.rs and src/cache.rs: two reads of one file.
use laterite_duckdb.Base.{ℕ, ◌+◌, ◌<◌, ◌≡◌, ◌≢◌, sym, ◌∙◌, ap, arith, ◌≤◌, String, ok}
use laterite_duckdb.Base.Io.{finally, >>=-give}
use laterite_duckdb.Cache.{Cache, Key, u64_mod, get_or_try_insert}
use laterite_duckdb.Cache.Invariant.{HasRoom, IsValid}
use laterite_duckdb.Cache.Memo.{second_call_is_hit}
use laterite_duckdb.Engine.{Engine}
use laterite_duckdb.Host.{Host}
use laterite_duckdb.Reader.{
  Encodings, State, io, on_world, cached, parse_file, read_parsed_with_encoding,
}
use laterite_duckdb.Source.{max_file_bytes, open_for_read}
use laterite_duckdb.Source.Opened.{open_for_read-le}

module _ (C : Encodings) (E : Engine) (H : Host) (word : ℕ) (path : String)
    (encoding : C.Encoding) where
  key_of : ℕ → Key
  key_of size = record { path = path; size = size; encoding = C.name encoding }

  -- The state once the file is open.
  opened_state : State C E H word → State C E H word
  opened_state s = record s { world = (open_for_read H path s.world).1 }

  read_lem :
      (s : State C E H word) (handle : H.Handle) (size : ℕ)
      → (open_for_read H path s.world).0 ≡ ok (handle, size)
      → read_parsed_with_encoding C E H word path encoding s
        ≡ finally
            (on_world C E H word (H.destroy_handle handle))
            (cached C E H word (key_of size) (parse_file C E H word path encoding handle size))
            (opened_state s)
  unfolding read_parsed_with_encoding key_of opened_state
  read_lem s handle size e = >>=-give (io C E H word (open_for_read H path)) _ s (handle, size) e

  -- In an enabled and valid cache, with a byte limit on files of at most `limit` and before the
  -- clock's last two values: after a read that succeeded, a read of the same path and encoding,
  -- with that cache and the same reported size, gives the same parse and touches the world only to
  -- open the file and to close its handle.
  pub second_read_is_hit :
      (limit : ℕ) (s s' : State C E H word) (handle handle' : H.Handle) (size : ℕ)
      (parsed : E.ParsedAgs4)
      → max_file_bytes H ≤ limit
      → s.cache.cap ≢ 0
      → HasRoom word limit s.cache.cap
      → s.cache.clock + 2 < u64_mod
      → IsValid word limit s.cache
      → (open_for_read H path s.world).0 ≡ ok (handle, size)
      → (read_parsed_with_encoding C E H word path encoding s).0 ≡ ok parsed
      → s'.cache ≡ (read_parsed_with_encoding C E H word path encoding s).1.cache
      → (open_for_read H path s'.world).0 ≡ ok (handle', size)
      → ((read_parsed_with_encoding C E H word path encoding s').0 ≡ ok parsed)
        × ((read_parsed_with_encoding C E H word path encoding s').1.world
            ≡ H.destroy_handle handle' (open_for_read H path s'.world).1)
  unfolding cached key_of opened_state
  second_read_is_hit limit s s' handle handle' size parsed bounded on room young v opened first same
        opened' =
      let build = parse_file C E H word path encoding handle size in
      let build' = parse_file C E H word path encoding handle' size in
      let w = (open_for_read H path s.world).1 in
      let w' = (open_for_read H path s'.world).1 in
      let read = read_lem s handle size opened in
      let call = get_or_try_insert word (key_of size) build s.cache w in
      let made : call ≡ (ok parsed, call.1, call.2) =
        ap (λ r. (r, call.1, call.2)) (ap (λ r. r.0) (sym read) ∙ first) in
      let hit =
        second_call_is_hit word limit (key_of size) s.cache on room
          (let small = open_for_read-le H path s.world (handle, size) opened in
            omega (arith, small, bounded))
          young v build build' w w' made in
      let moved : s'.cache ≡ call.1 = same ∙ ap (λ r. r.1.cache) read in
      let again = read_lem s' handle' size opened' in
      let key = key_of size in
      (
        ap (λ r. r.0) again
            ∙ ap (λ (c : Cache E.ParsedAgs4). (get_or_try_insert word key build' c w').0) moved
            ∙ ap (λ t. t.0) hit,
        ap (λ r. r.1.world) again
            ∙ ap
                (λ (c : Cache E.ParsedAgs4).
                  H.destroy_handle handle' (get_or_try_insert word key build' c w').2)
                moved
            ∙ ap (λ t. H.destroy_handle handle' t.2) hit,
      )
