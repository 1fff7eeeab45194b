-- ===== src/Cert/Agree.antt =====
-- src/cert.rs: what the sliced read serves is what a full parse of the file gives.
use laterite_duckdb.Base.{
  ℕ, ◌-◌, ◌^◌, ◌≤◌, ◌<◌, ◌≡◌, refl, sym, ◌∙◌, subst, arith, String, Bool, true, false, ◌||◌, Option,
  none, some, List, [], ◌∷◌, length, take, drop, ltb, Result, ok, err, panic, not, if◌then◌else◌,
  inl, inr, Bool-cases,
}
use laterite_duckdb.Base.Attempt.{
  Attempt, give, give_up, of_option, forget_error, ◌>>=◌, >>=-some, >>=-give,
}
use laterite_duckdb.Engine.{Engine}
use laterite_duckdb.Host.{Host, IsFile}
use laterite_duckdb.ReadAgs.{Binding, keyed, declared, binding_for, resolve_group}
use laterite_duckdb.Cert.{
  only_span, sliceable_span, read_group_span, denies, has_spans, declaring, file_dict_declaring,
  admit, slice_open,
}
use laterite_duckdb.Cert.Span.{Placed, read_group_span_file}

forget_error-some : {A : Type 0} (r : Result A) {a : A} → forget_error r ≡ ok (some a) → r ≡ ok a
forget_error-some (ok x) h = cc
forget_error-some (err e) h = cc
forget_error-some panic h = cc

none_is_not_some : {A : Type 0} {a : A} → ◌≡◌ {A = Result (Option A)} (ok none) (ok (some a)) → ⊥
none_is_not_some h = cc

ok_some-inj :
    {A : Type 0} {a b : A} → ◌≡◌ {A = Result (Option A)} (ok (some a)) (ok (some b)) → a ≡ b
ok_some-inj h = cc

ok-inj : {A : Type 0} {a b : A} → ok a ≡ ok b → a ≡ b
ok-inj h = cc

only_span-some :
    (spans : Option (List (ℕ × ℕ))) (span : ℕ × ℕ)
    → only_span spans ≡ some span
    → spans ≡ some (span ∷ [])
unfolding only_span
only_span-some none span h = cc
only_span-some (some []) span h = cc
only_span-some (some (only ∷ [])) span h = cc
only_span-some (some (first ∷ second ∷ rest)) span h = cc

module _ (E : Engine) (H : Host) (word : ℕ) {handle : H.Handle} {content : List ℕ}
    (file : IsFile H handle content) where
  -- The parsed bytes of a span that lies within the file.
  abbrev pub SpanParses : ℕ × ℕ → String → E.AgsGroup → Type 0
  SpanParses (start, end) group ags =
      (start ≤ end)
      × (end ≤ length content)
      × (E.parse_group_slice (take (end - start) (drop start content)) (0, end - start) group
          ≡ ok ags)

  sliceable_span-some :
      (sidecar : E.Sidecar) (group : String) (span : ℕ × ℕ)
      → sliceable_span E sidecar group ≡ some span
      → E.spans sidecar group ≡ some (span ∷ [])
  unfolding sliceable_span
  sliceable_span-some sidecar group span h = only_span-some (E.spans sidecar group) span h

  refused :
      (size start end : ℕ) (group : String) (w : H.World)
      → (ltb end start || ltb size end) ≡ true
      → (read_group_span E H word handle size (start, end) group w).0 ≡ ok none
  unfolding read_group_span
  refused size start end group w e = rw e

  bounds :
      (size start end : ℕ) → (ltb end start || ltb size end) ≡ false → (start ≤ end) × (end ≤ size)
  bounds size start end h = ground arith

  -- What an attempt gives, if it gives anything from within the file, has `P`, and the handle stays
  -- within the file.
  pub record Gives {A : Type 0} (m : Attempt H.World A) (P : A → Type 0) : Type 0 where
    pub run :
        (a : A) (w : H.World)
        → Placed E H word file w
        → (m w).0 ≡ ok (some a)
        → P a × Placed E H word file (m w).1

  Gives-give : {A : Type 0} {P : A → Type 0} (x : A) → P x → Gives (give x) P
  Gives-give {P} x px = record { run = λ a w placed h. (subst P (ok_some-inj h) px, placed) }

  Gives-give_up : {A : Type 0} {P : A → Type 0} → Gives give_up P
  Gives-give_up = record { run = λ a w placed h. absurd (none_is_not_some h) }

  Gives-of_option : {A : Type 0} (o : Option A) → Gives (of_option o) (λ x. o ≡ some x)
  Gives-of_option o = record { run = λ a w placed h. (ok-inj h, placed) }

  Gives-if :
      {A : Type 0} {P : A → Type 0} (b : Bool) {m n : Attempt H.World A}
      → (b ≡ true → Gives m P)
      → (b ≡ false → Gives n P)
      → Gives (if b then m else n) P
  Gives-if true hm hn = hm refl
  Gives-if false hm hn = hn refl

  Gives-bind :
      {A B : Type 0} {P : A → Type 0} {Q : B → Type 0} {m : Attempt H.World A}
      {f : A → Attempt H.World B}
      → Gives m P
      → ((a : A) → P a → Gives (f a) Q)
      → Gives (m >>= f) Q
  Gives-bind {Q} {m} {f} hm hf = record {
    run = λ b w placed h.
        let (a, e, k) = >>=-some m f w h in
        let (pa, there) = hm.run a w placed e in
        let (qb, last) = (hf a pa).run b (m w).1 there k in
        (qb, subst (λ r. Placed E H word file r.1) (sym (>>=-give m f w a e)) last);
  }

  module _ (size : ℕ) (same : size ≡ length content) (small : size < 2 ^ 63)
      (word_room : size < word) where
    -- What a ranged read gave is the parsed span, and the handle is still within the file.
    pub read_group_span-some :
        (span : ℕ × ℕ) (group : String)
        → Gives (read_group_span E H word handle size span group) (SpanParses span group)
    read_group_span-some (start, end) group = record {
      run = λ ags w placed h. elim (Bool-cases (ltb end start || ltb size end)) [
        | inl outside ↦ absurd (none_is_not_some (sym (refused size start end group w outside) ∙ h))
        | inr within ↦
            let (ordered, ends) = bounds size start end within in
            let (parsed, there) =
              read_group_span_file E H word file size start end group w placed ordered ends
                (omega arith) small word_room in
            ((ordered, omega arith, forget_error-some _ (sym parsed ∙ h)), there)
      ];
    }

    -- What a certificate of the file's own content vouches for: the engine's parse of a certified
    -- span is that group of the whole parse, where the certificate lists it as the group's only
    -- one, and the dictionary reads the `DICT` group alone.
    pub record Certifies (sidecar : E.Sidecar) (parsed : E.ParsedAgs4) : Type 0 where
      pub slice :
          (span : ℕ × ℕ) (group : String) (ags : E.AgsGroup)
          → E.spans sidecar group ≡ some (span ∷ [])
          → SpanParses span group ags
          → E.get_group parsed group ≡ some ags
      pub dict :
          (d : E.AgsGroup)
          → E.get_group parsed "DICT" ≡ some d
          → E.file_dict_of (E.from_groups (d ∷ [])) ≡ E.file_dict_of parsed

    module _ {sidecar : E.Sidecar} {parsed : E.ParsedAgs4}
        (certified : Certifies sidecar parsed) where
      declaring-Gives :
          (group : String) (d : E.AgsGroup)
          → E.get_group parsed "DICT" ≡ some d
          → Gives (declaring E group d) (λ fd.
            (fd ≡ E.file_dict_of parsed) × (E.declares (E.file_dict_of parsed) group ≡ true))
      unfolding declaring
      declaring-Gives group d found =
          let e = certified.dict d found in
          Gives-if (E.declares (E.file_dict_of (E.from_groups (d ∷ []))) group)
            (λ yes. Gives-give _ (e, subst (λ fd. E.declares fd group ≡ true) e yes))
            (λ no. Gives-give_up)

      file_dict_declaring-Gives :
          (group : String)
          → Gives
              (file_dict_declaring E sidecar group
                (λ span. read_group_span E H word handle size span "DICT"))
              (λ fd.
                (fd ≡ E.file_dict_of parsed) × (E.declares (E.file_dict_of parsed) group ≡ true))
      unfolding file_dict_declaring
      file_dict_declaring-Gives group =
          Gives-if (denies (E.defines sidecar) group) (λ _. Gives-give_up)
            (λ _.
              Gives-if (not (has_spans E (E.spans sidecar "DICT"))) (λ _. Gives-give_up)
                (λ _. Gives-bind (Gives-of_option (sliceable_span E sidecar "DICT")) (λ span found.
                  Gives-bind (read_group_span-some span "DICT") (λ d parses.
                    declaring-Gives group d (
                      certified.slice span "DICT" d (sliceable_span-some sidecar "DICT" span found)
                        parses)))))

      admit-Gives :
          (group : String)
          → Gives
              (admit E H word sidecar handle size group)
              (λ binding. binding_for E parsed group ≡ ok binding)
      unfolding admit binding_for
      admit-Gives group =
          Gives-if (E.is_standard group) (λ standard. Gives-give keyed (rw standard))
            (λ custom.
              Gives-bind (file_dict_declaring-Gives group)
                (λ fd found. Gives-give (declared fd) (rw (custom, found.1, found.0))))

      -- On a regular file of the reported size, with a certificate that vouches for the file's
      -- content: the group and the identity binding that the sliced read serves, if it serves any,
      -- are the ones that a parse of the whole file resolves.
      pub slice_open-agrees :
          (group : String) (served : E.AgsGroup × Binding E) (w : H.World)
          → Placed E H word file w
          → (slice_open E H word sidecar handle size group w).0 ≡ ok (some served)
          → (resolve_group E parsed group ≡ ok served.0)
            × (binding_for E parsed group ≡ ok served.1)
      unfolding slice_open resolve_group
      slice_open-agrees group served w placed h =
          let serves =
            Gives-if
              {P = λ served.
                (resolve_group E parsed group ≡ ok served.0)
                × (binding_for E parsed group ≡ ok served.1)}
              (not (E.size_matches sidecar size)) (λ _. Gives-give_up)
              (λ _. Gives-bind (admit-Gives group) (λ binding bound.
                Gives-bind (Gives-of_option (sliceable_span E sidecar group)) (λ span found.
                  Gives-bind (read_group_span-some span group) (λ ags parses.
                    Gives-give (ags, binding)
                      (
                        rw
                            (certified.slice span group ags
                              (sliceable_span-some sidecar group span found) parses)
                            refl,
                        bound,
                      ))))) in
          (serves.run served w placed h).0
