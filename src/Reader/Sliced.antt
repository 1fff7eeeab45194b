-- ===== src/Reader/Sliced.antt =====
-- src/read_ags.rs and src/cert.rs: a query that the certificate serves, beside a parse of the whole
-- file.
use laterite_duckdb.Base.{
  ℕ, ◌^◌, ◌<◌, ◌≡◌, refl, sym, ◌∙◌, String, some, List, length, ok, ap, arith,
}
use laterite_duckdb.Base.Attempt.{>>=-give}
use laterite_duckdb.Cert.{load_sidecar, sliced_group, slice_open}
use laterite_duckdb.Cert.Agree.{Certifies, slice_open-agrees}
use laterite_duckdb.Cert.Span.{Placed}
use laterite_duckdb.Engine.{Engine}
use laterite_duckdb.Host.{Host, IsFile}
use laterite_duckdb.ReadAgs.{Binding, resolve_group, binding_for}
use laterite_duckdb.Reader.{
  Encodings, State, io, cached, read_parsed_with_encoding, serve, whole_file, output_of,
  build_output,
}
use laterite_duckdb.Source.{closing, open_for_read}
use laterite_duckdb.Typing.{Types}

module _ (C : Encodings) (E : Engine) (H : Host) (word : ℕ) (T : Types) where
  resolved-output :
      (parsed : E.ParsedAgs4) (group : String) (ags : E.AgsGroup) (binding : Binding E)
      (s : State C E H word)
      → resolve_group E parsed group ≡ ok ags
      → binding_for E parsed group ≡ ok binding
      → output_of C E H word T parsed group s ≡ build_output C E H word T ags group binding s
  unfolding output_of
  resolved-output parsed group ags binding s found bound = rw (found, bound) refl

  read_parsed-pool :
      (path : String) (encoding : C.Encoding) (s : State C E H word)
      → (read_parsed_with_encoding C E H word path encoding s).1.pool ≡ s.pool
  unfolding read_parsed_with_encoding cached
  read_parsed-pool path encoding s = ground arith

  -- Two states with one pool make the same of a group.
  whole_file-output :
      (parsed : E.ParsedAgs4) (group : String) (ags : E.AgsGroup) (binding : Binding E)
      (path : String) (encoding : C.Encoding) (s t : State C E H word)
      → (read_parsed_with_encoding C E H word path encoding s).0 ≡ ok parsed
      → t.pool ≡ s.pool
      → resolve_group E parsed group ≡ ok ags
      → binding_for E parsed group ≡ ok binding
      → ((build_output C E H word T ags group binding t).0
          ≡ (whole_file C E H word T path encoding group s).0)
        × ((build_output C E H word T ags group binding t).1.pool
            ≡ (whole_file C E H word T path encoding group s).1.pool)
  unfolding whole_file build_output
  whole_file-output parsed group ags binding path encoding s t read pool found bound =
      rw
        (
          read,
          resolved-output parsed group ags binding
              (read_parsed_with_encoding C E H word path encoding s).1 found bound,
          read_parsed-pool path encoding s,
          pool,
        )
        (refl, refl)

  module _ {handle : H.Handle} {content : List ℕ} (file : IsFile H handle content)
      (small : length content < 2 ^ 63) (word_room : length content < word) where
    opened_slice :
        (sidecar : E.Sidecar) (path group : String) (w : H.World)
        → (load_sidecar E H word path w).0 ≡ ok (some sidecar)
        → (open_for_read H path (load_sidecar E H word path w).1).0 ≡ ok (handle, length content)
        → sliced_group E H word path group w
          ≡ closing H handle
              (slice_open E H word sidecar handle (length content) group)
              (open_for_read H path (load_sidecar E H word path w).1).1
    unfolding sliced_group
    opened_slice sidecar path group w loaded opened =
        rw (>>=-give (load_sidecar E H word path) _ w sidecar loaded, opened) refl

    -- On a regular file of its reported size, less than 2 ^ 63 and a `usize`, with a loaded
    -- certificate that vouches for the file's content: when the sliced read gives a group, and the
    -- read of the whole file, from the same process, gives the parse that the certificate vouches
    -- for, serving the slice has the result that serving the whole file has, and leaves the same
    -- pool of names.
    pub serve-sliced :
        (sidecar : E.Sidecar) (parsed : E.ParsedAgs4)
        → Certifies E H word file (length content) refl small word_room sidecar parsed
        → (path group : String) (encoding : C.Encoding) (served : E.AgsGroup × Binding E)
          (s t : State C E H word)
        → (load_sidecar E H word path s.world).0 ≡ ok (some sidecar)
        → (open_for_read H path (load_sidecar E H word path s.world).1).0
          ≡ ok (handle, length content)
        → Placed E H word file (open_for_read H path (load_sidecar E H word path s.world).1).1
        → io C E H word (sliced_group E H word path group) s ≡ (ok (some served), t)
        → (read_parsed_with_encoding C E H word path encoding s).0 ≡ ok parsed
        → ((serve C E H word T path encoding group (some served) t).0
            ≡ (whole_file C E H word T path encoding group s).0)
          × ((serve C E H word T path encoding group (some served) t).1.pool
              ≡ (whole_file C E H word T path encoding group s).1.pool)
    unfolding serve closing
    serve-sliced sidecar parsed certified path group encoding (ags, binding) s t loaded opened
          placed sliced read =
        let same = opened_slice sidecar path group s.world loaded opened in
        let given : (sliced_group E H word path group s.world).0 ≡ ok (some (ags, binding)) =
          ap (λ r. r.0) sliced in
        let pool : t.pool ≡ s.pool = sym (ap (λ r. r.1.pool) sliced) in
        let (found, bound) =
          slice_open-agrees E H word file (length content) refl small word_room certified group
            (ags, binding) (open_for_read H path (load_sidecar E H word path s.world).1).1 placed
            (ap (λ r. r.0) (sym same) ∙ given) in
        whole_file-output parsed group ags binding path encoding s t read pool found bound
