-- ===== src/DictFns/Editions.antt =====
-- src/dict_fns.rs and `parse_edition` of src/cert.rs: which dictionary an edition names.
use Prim.Native.Char.{Char}
use text.Mathlib.TextLemmas.{nil-append, cons-append}
use laterite_duckdb.Base.{
  ◌≡◌, refl, ap, sym, subst, ◌∙◌, String, ◌<>◌, string_eq, true, false, some, ok, Bool-cases, inl,
  inr, ◌==◌, ok-inj, and_then-ok,
}
use laterite_duckdb.Base.Text.{is_whitespace, trim, trim_start, trim_end}
use laterite_duckdb.Cert.{parse_edition}
use laterite_duckdb.DictFns.{
  dictionary_columns, dictionary_rows, edition_rows, parse_version, ags_dictionary,
}
use laterite_duckdb.Engine.{Registry, Dictionaries}
use laterite_duckdb.Table.{Columns, Rows}
use laterite_duckdb.Typing.{Types}

-- Nothing but white space.
abbrev pub IsBlank : String → Type 0
IsBlank String.[] = Unit
IsBlank (String.◌∷◌ c s) = (is_whitespace c ≡ true) × IsBlank s

trim_start-blank : (before s : String) → IsBlank before → trim_start (before <> s) ≡ trim_start s
unfolding trim_start
trim_start-blank String.[] s blank = rw (nil-append s)
trim_start-blank (String.◌∷◌ c before) s (h, blank) =
    rw (cons-append c before s, trim_start, h) (trim_start-blank before s blank)

trim_start-visible :
    (c : Char) (s after : String)
    → is_whitespace c ≡ false
    → trim_start (String.◌∷◌ c s <> after) ≡ String.◌∷◌ c s <> after
unfolding trim_start
trim_start-visible c s after h = rw (cons-append c s after, trim_start, h) refl

trim_end_blank : (after : String) → IsBlank after → trim_end after ≡ String.[]
unfolding trim_end
trim_end_blank String.[] blank = refl
trim_end_blank (String.◌∷◌ c after) (h, blank) = rw (trim_end_blank after blank, h) refl

trim_end-blank : (s after : String) → IsBlank after → trim_end (s <> after) ≡ trim_end s
unfolding trim_end
trim_end-blank String.[] after blank = rw (nil-append after) (trim_end_blank after blank)
trim_end-blank (String.◌∷◌ c s) after blank =
    rw (cons-append c s after, trim_end, trim_end-blank s after blank)

module _ (D : Dictionaries) where
  -- The editions, each with its bundled version.
  pub data IsEdition : String → D.DictVersion → Type 0 where
    names_4_0_3 : IsEdition "4.0.3" D.v4_0_3
    names_4_0_4 : IsEdition "4.0.4" D.v4_0_4
    names_4_1 : IsEdition "4.1" D.v4_1
    names_4_1_1 : IsEdition "4.1.1" D.v4_1_1
    names_4_2 : IsEdition "4.2" D.v4_2

  trimmed :
      (text : String) (version : D.DictVersion) (after : String)
      → IsEdition text version
      → (trim_start (text <> after) ≡ text <> after) × (trim_end text ≡ text)
  unfolding trim_start trim_end is_whitespace
  trimmed _ _ after names_4_0_3 = (trim_start-visible _ _ after refl, refl)
  trimmed _ _ after names_4_0_4 = (trim_start-visible _ _ after refl, refl)
  trimmed _ _ after names_4_1 = (trim_start-visible _ _ after refl, refl)
  trimmed _ _ after names_4_1_1 = (trim_start-visible _ _ after refl, refl)
  trimmed _ _ after names_4_2 = (trim_start-visible _ _ after refl, refl)

  module _ (T : Types) where
    parse_version-IsEdition :
        (e text : String) (version : D.DictVersion)
        → trim e ≡ text
        → IsEdition text version
        → parse_version D T e ≡ ok version
    unfolding parse_edition
    parse_version-IsEdition e _ _ h names_4_0_3 = rw h refl
    parse_version-IsEdition e _ _ h names_4_0_4 = rw h refl
    parse_version-IsEdition e _ _ h names_4_1 = rw h refl
    parse_version-IsEdition e _ _ h names_4_1_1 = rw h refl
    parse_version-IsEdition e _ _ h names_4_2 = rw h refl

    named :
        (e text : String) (v version : D.DictVersion)
        → IsEdition text v
        → (trim e == text) ≡ true
        → ok v ≡ ok version
        → IsEdition (trim e) version
    named e text v version edition same made =
        subst (λ t. IsEdition t version) (sym ((string_eq.beq_iff (trim e) text).0 same))
          (subst (IsEdition text) (ok-inj made) edition)

    parse_version-some :
        (e : String) (version : D.DictVersion)
        → parse_version D T e ≡ ok version
        → IsEdition (trim e) version
    unfolding parse_edition
    parse_version-some e version h = elim (Bool-cases (trim e == "4.0.3")) [
      | inl a ↦ named e "4.0.3" D.v4_0_3 version names_4_0_3 a (rw a at h)
      | inr a ↦ elim (Bool-cases (trim e == "4.0.4")) [
        | inl b ↦ named e "4.0.4" D.v4_0_4 version names_4_0_4 b (rw (a, b) at h)
        | inr b ↦ elim (Bool-cases (trim e == "4.1")) [
          | inl c ↦ named e "4.1" D.v4_1 version names_4_1 c (rw (a, b, c) at h)
          | inr c ↦ elim (Bool-cases (trim e == "4.1.1")) [
            | inl d ↦ named e "4.1.1" D.v4_1_1 version names_4_1_1 d (rw (a, b, c, d) at h)
            | inr d ↦ elim (Bool-cases (trim e == "4.2")) [
              | inl f ↦ named e "4.2" D.v4_2 version names_4_2 f (rw (a, b, c, d, f) at h)
              | inr f ↦ absurd (cc (rw (a, b, c, d, f) at h))
            ]
          ]
        ]
      ]
    ]

    module _ (R : Registry) where
      -- An edition is read with any white space around it: `ags_dictionary` gives the rows of its
      -- bundled version.
      pub ags_dictionary-IsEdition :
          (before text after : String) (version : D.DictVersion)
          → IsBlank before
          → IsBlank after
          → IsEdition text version
          → ags_dictionary R D T (some (before <> (text <> after)))
            ≡ ok (dictionary_columns, edition_rows D T version)
      unfolding ags_dictionary dictionary_rows trim
      ags_dictionary-IsEdition before text after version blank clean named =
          let (start, end) = trimmed text version after named in
          let bare : trim (before <> (text <> after)) ≡ text =
            ap trim_end (trim_start-blank before (text <> after) blank ∙ start)
            ∙ trim_end-blank text after clean
            ∙ end in
          rw (parse_version-IsEdition (before <> (text <> after)) text version bare named) refl

      -- When `ags_dictionary` succeeds with an edition, that is one of the five, white space
      -- around it apart, and the table has the rows of its bundled version: it never falls back to
      -- another dictionary.
      pub ags_dictionary-table :
          (e : String) (table : Columns × Rows T.F64)
          → ags_dictionary R D T (some e) ≡ ok table
          → (version : D.DictVersion) × IsEdition (trim e) version
            × (table ≡ (dictionary_columns, edition_rows D T version))
      unfolding ags_dictionary dictionary_rows
      ags_dictionary-table e table h =
          let (rows, made, whole) = and_then-ok (dictionary_rows R D T (some e)) _ h in
          let (version, known, listed) = and_then-ok (parse_version D T e) _ made in
          (
            version,
            parse_version-some e version known,
            sym (ap (λ r. (dictionary_columns, r)) (ok-inj listed) ∙ ok-inj whole),
          )
