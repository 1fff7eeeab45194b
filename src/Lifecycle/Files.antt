-- ===== src/Lifecycle/Files.antt =====
-- src/source.rs and src/cert.rs: what they hold of DuckDB's at the end.
use laterite_duckdb.Base.{
  ℕ, zero, suc, ◌+◌, ◌-◌, ◌%◌, ◌≡◌, refl, String, Option, none, some, List, [], ◌∷◌, ◌++◌, ltb, leb,
  take, length, not, ◌||◌,
}
use laterite_duckdb.Base.Attempt.{of_option, ok_of}
use laterite_duckdb.Cert.{
  sliceable_span, fill, read_group_span, declaring, file_dict_declaring, admit, slice_open, denies,
  has_spans,
}
use laterite_duckdb.Engine.{Engine}
use laterite_duckdb.Host.{Host}
use laterite_duckdb.Lifecycle.{Held, bound, opened, traced, Account}
use laterite_duckdb.Lifecycle.Rules.{
  Stays, Stays-still, Stays-bind, Stays-attempt, Stays-ok_of, branches, Stays-if,
}
use laterite_duckdb.Source.{read, seek, slurp_loop, slurp, max_file_bytes, read_chunk_bytes}

module _ (H : Host) where
  abbrev L : Host
  L = traced H

  abbrev held : Account H → Held
  held w = w.0

  -- Code between the opening of a file and its end.
  abbrev pub StaysOpened : {X : Type 0} → (Account H → X × Account H) → Type 0
  StaysOpened m = Stays held opened m

  -- Code in the scope of a `Vfs`.
  abbrev pub StaysBound : {X : Type 0} → (Account H → X × Account H) → Type 0
  StaysBound m = Stays held bound m

  read-StaysOpened : (handle : H.Handle) (n : ℕ) → StaysOpened (read L handle n)
  unfolding read
  read-StaysOpened handle n = record { run = λ w h. rw h refl }

  seek-StaysOpened : (handle : H.Handle) (n : ℕ) → StaysOpened (seek L handle n)
  unfolding seek
  seek-StaysOpened handle n = record { run = λ w h. rw h refl }

  -- A round of the loop of `slurp`, by what the read gives.
  loop_round :
      (fuel : ℕ) (handle : H.Handle) (path : String) (buf : List ℕ) (w : Account H)
      → ((buf : List ℕ) → StaysOpened (slurp_loop L fuel handle path buf))
      → (r : Option (List ℕ)) → (H.file_read handle read_chunk_bytes w.1).0 ≡ r
      → held w ≡ opened
      → held (slurp_loop L (suc fuel) handle path buf w).1 ≡ opened
  unfolding slurp_loop
  loop_round fuel handle path buf w rest none e h = rw (e, slurp_loop) (rw h refl)
  loop_round fuel handle path buf w rest (some []) e h = rw (e, slurp_loop) (rw h refl)
  loop_round fuel handle path buf w rest (some (b ∷ bs)) e h =
      let here = (read-StaysOpened handle read_chunk_bytes).run w h in
      let after = (rest (buf ++ b ∷ bs)).run (read L handle read_chunk_bytes w).1 here in
      rw (e, slurp_loop)
        (branches held opened (ltb (max_file_bytes L) (length buf + length (b ∷ bs))) _ _ here
          (branches held opened (leb (length (b ∷ bs)) read_chunk_bytes) _ _ after here))

  slurp_loop-StaysOpened :
      (fuel : ℕ) (handle : H.Handle) (path : String) (buf : List ℕ)
      → StaysOpened (slurp_loop L fuel handle path buf)
  unfolding slurp_loop
  slurp_loop-StaysOpened zero handle path buf = record { run = λ w h. h }
  slurp_loop-StaysOpened (suc fuel) handle path buf = record {
    run =
        λ w h. loop_round fuel handle path buf w (slurp_loop-StaysOpened fuel handle path) _ refl h;
  }

  pub slurp-StaysOpened :
      (handle : H.Handle) (path : String) (size : ℕ) → StaysOpened (slurp L handle path size)
  unfolding slurp
  slurp-StaysOpened handle path size =
      Stays-bind held opened (slurp_loop L (max_file_bytes L + 2) handle path [])
        (slurp_loop-StaysOpened (max_file_bytes L + 2) handle path [])
        (λ buf. Stays-still held opened _)

  module _ (E : Engine) (word : ℕ) where
    fill_round :
        (fuel : ℕ) (handle : H.Handle) (len : ℕ) (sofar : List ℕ) (w : Account H)
        → ((sofar : List ℕ) → StaysOpened (fill E L word fuel handle len sofar))
        → (r : Option (List ℕ)) → (H.file_read handle (len - length sofar) w.1).0 ≡ r
        → held w ≡ opened
        → held (fill E L word (suc fuel) handle len sofar w).1 ≡ opened
    unfolding fill
    fill_round fuel handle len sofar w rest none e h =
        let here = (read-StaysOpened handle (len - length sofar)).run w h in
        rw (e, fill) (branches held opened (ltb (length sofar) len) _ _ here h)
    fill_round fuel handle len sofar w rest (some []) e h =
        let here = (read-StaysOpened handle (len - length sofar)).run w h in
        rw (e, fill) (branches held opened (ltb (length sofar) len) _ _ here h)
    fill_round fuel handle len sofar w rest (some (b ∷ bs)) e h =
        let here = (read-StaysOpened handle (len - length sofar)).run w h in
        let after =
          (rest (sofar ++ take (len - length sofar) (b ∷ bs))).run
            (read L handle (len - length sofar) w).1 here in
        rw (e, fill) (branches held opened (ltb (length sofar) len) _ _ after h)

    fill-StaysOpened :
        (fuel : ℕ) (handle : H.Handle) (len : ℕ) (sofar : List ℕ)
        → StaysOpened (fill E L word fuel handle len sofar)
    unfolding fill
    fill-StaysOpened zero handle len sofar = record { run = λ w h. h }
    fill-StaysOpened (suc fuel) handle len sofar = record {
      run = λ w h. fill_round fuel handle len sofar w (fill-StaysOpened fuel handle len) _ refl h;
    }

    still : {X : Type 0} (f : Account H → X) → StaysOpened (λ w. (f w, w))
    still f = Stays-still held opened f

    read_group_span-StaysOpened :
        (handle : H.Handle) (size : ℕ) (span : ℕ × ℕ) (group : String)
        → StaysOpened (read_group_span E L word handle size span group)
    unfolding read_group_span
    read_group_span-StaysOpened handle size (start, end) group =
        Stays-if held opened (ltb end start || ltb size end) _ _ (still _) (
          Stays-attempt held opened (ok_of (seek L handle start))
            (Stays-ok_of held opened (seek L handle start) (seek-StaysOpened handle start))
            (λ _.
              Stays-attempt held opened
                (fill E L word ((end - start) % word) handle ((end - start) % word) [])
                (fill-StaysOpened ((end - start) % word) handle ((end - start) % word) [])
                (λ buf. still _)))

    file_dict_declaring-StaysOpened :
        (sidecar : E.Sidecar) (handle : H.Handle) (size : ℕ) (group : String)
        → StaysOpened (
            file_dict_declaring E sidecar group
              (λ span. read_group_span E L word handle size span "DICT"))
    unfolding file_dict_declaring declaring
    file_dict_declaring-StaysOpened sidecar handle size group =
        Stays-if held opened (denies (E.defines sidecar) group) _ _ (still _) (
          Stays-if held opened (not (has_spans E (E.spans sidecar "DICT"))) _ _ (still _) (
            Stays-attempt held opened (of_option (sliceable_span E sidecar "DICT")) (still _)
              (λ span.
                Stays-attempt held opened (read_group_span E L word handle size span "DICT")
                  (read_group_span-StaysOpened handle size span "DICT")
                  (λ dict.
                    Stays-if held opened
                      (E.declares (E.file_dict_of (E.from_groups (dict ∷ []))) group) _ _ (still _)
                      (still _)))))

    admit-StaysOpened :
        (sidecar : E.Sidecar) (handle : H.Handle) (size : ℕ) (group : String)
        → StaysOpened (admit E L word sidecar handle size group)
    unfolding admit
    admit-StaysOpened sidecar handle size group =
        Stays-if held opened (E.is_standard group) _ _ (still _) (
          Stays-attempt held opened _ (file_dict_declaring-StaysOpened sidecar handle size group)
            (λ fd. still _))

    pub slice_open-StaysOpened :
        (sidecar : E.Sidecar) (handle : H.Handle) (size : ℕ) (group : String)
        → StaysOpened (slice_open E L word sidecar handle size group)
    unfolding slice_open
    slice_open-StaysOpened sidecar handle size group =
        Stays-if held opened (not (E.size_matches sidecar size)) _ _ (still _) (
          Stays-attempt held opened (admit E L word sidecar handle size group)
            (admit-StaysOpened sidecar handle size group)
            (λ binding.
              Stays-attempt held opened (of_option (sliceable_span E sidecar group)) (still _)
                (λ span.
                  Stays-attempt held opened (read_group_span E L word handle size span group)
                    (read_group_span-StaysOpened handle size span group) (λ ags. still _))))
