-- ===== src/Cert/Serves.antt =====
-- src/cert.rs: when the sliced read is taken.
use laterite_duckdb.Base.{
  arith, ℕ, ◌^◌, ◌<◌, ◌≡◌, refl, ◌∙◌, ap, String, true, false, not, some, List, [], string_eq, ◌∷◌,
  length, ok,
}
use laterite_duckdb.Base.Attempt.{Attempt, of_option, give, forget_error, ◌>>=◌, >>=-give}
use laterite_duckdb.Cert.{
  only_span, sliceable_span, read_group_span, has_spans, declaring, file_dict_declaring, admit,
  slice_open,
}
use laterite_duckdb.Cert.Agree.{SpanParses, Certifies, slice_open-agrees}
use laterite_duckdb.Cert.Span.{Placed, read_group_span_file}
use laterite_duckdb.Engine.{Engine}
use laterite_duckdb.Host.{Host, IsFile}
use laterite_duckdb.ReadAgs.{Binding, keyed, declared, resolve_group, binding_for}
use laterite_duckdb.Cert.Denied.{MayDefine, denies-MayDefine}

module _ (E : Engine) (H : Host) (word : ℕ) {handle : H.Handle} {content : List ℕ}
    (file : IsFile H handle content) (small : length content < 2 ^ 63)
    (word_room : length content < word) where
  abbrev size : ℕ
  size = length content

  -- What admits a group, and with which identities.
  pub data IsAdmitted (sidecar : E.Sidecar) (group : String) : Binding E → Type 0 where
    standard : E.is_standard group ≡ true → IsAdmitted sidecar group keyed
    defined :
        (span : ℕ × ℕ) (d : E.AgsGroup)
        → E.is_standard group ≡ false
        → MayDefine E sidecar group
        → E.spans sidecar "DICT" ≡ some (span ∷ [])
        → SpanParses E H word file span "DICT" d
        → E.declares (E.file_dict_of (E.from_groups (d ∷ []))) group ≡ true
        → IsAdmitted sidecar group (declared (E.file_dict_of (E.from_groups (d ∷ []))))

  -- The attempt gives the value, and the handle stays within the file.
  abbrev Succeeds : {A : Type 0} → Attempt H.World A → H.World → A → Type 0
  Succeeds m w a = ((m w).0 ≡ ok (some a)) × Placed E H word file (m w).1

  Succeeds-bind :
      {A B : Type 0} (m : Attempt H.World A) (f : A → Attempt H.World B) (w : H.World) (a : A)
      (b : B)
      → Succeeds m w a
      → Succeeds (f a) (m w).1 b
      → Succeeds (m >>= f) w b
  Succeeds-bind m f w a b (e, _) next = rw (>>=-give m f w a e) next

  span_read :
      (span : ℕ × ℕ) (group : String) (ags : E.AgsGroup) (w : H.World)
      → Placed E H word file w
      → SpanParses E H word file span group ags
      → Succeeds (read_group_span E H word handle size span group) w ags
  span_read (start, end) group ags w placed (ordered, within, parses) =
      let (e, there) =
        read_group_span_file E H word file size start end group w placed ordered within
          (omega arith) small word_room in
      (e ∙ ap forget_error parses, there)

  sliceable_span-single :
      (sidecar : E.Sidecar) (group : String) (span : ℕ × ℕ)
      → E.spans sidecar group ≡ some (span ∷ [])
      → sliceable_span E sidecar group ≡ some span
  unfolding sliceable_span only_span
  sliceable_span-single sidecar group span h = rw h refl

  dict_at : ℕ × ℕ → Attempt H.World E.AgsGroup
  dict_at span = read_group_span E H word handle size span "DICT"

  file_dict_declaring-Succeeds :
      (sidecar : E.Sidecar) (group : String) (span : ℕ × ℕ) (d : E.AgsGroup) (w : H.World)
      → Placed E H word file w
      → MayDefine E sidecar group
      → E.spans sidecar "DICT" ≡ some (span ∷ [])
      → SpanParses E H word file span "DICT" d
      → E.declares (E.file_dict_of (E.from_groups (d ∷ []))) group ≡ true
      → Succeeds
          (file_dict_declaring E sidecar group dict_at)
          w
          (E.file_dict_of (E.from_groups (d ∷ [])))
  unfolding file_dict_declaring declaring dict_at
  file_dict_declaring-Succeeds sidecar group span d w placed may found parses owns =
      let fd = E.file_dict_of (E.from_groups (d ∷ [])) in
      let read = span_read span "DICT" d w placed parses in
      rw (denies-MayDefine E sidecar group may, ap (λ s. not (has_spans E s)) found)
        (Succeeds-bind (of_option (sliceable_span E sidecar "DICT")) _ w span fd
          (ap ok (sliceable_span-single sidecar "DICT" span found), placed)
          (Succeeds-bind (dict_at span) (declaring E group) w d fd read (rw owns (refl, read.1))))

  admit-Succeeds :
      (sidecar : E.Sidecar) (group : String) (binding : Binding E) (w : H.World)
      → Placed E H word file w
      → IsAdmitted sidecar group binding
      → Succeeds (admit E H word sidecar handle size group) w binding
  unfolding admit dict_at
  admit-Succeeds sidecar group _ w placed (standard h) = rw h (refl, placed)
  admit-Succeeds sidecar group _ w placed (defined span d custom may found parses owns) =
      let fd = E.file_dict_of (E.from_groups (d ∷ [])) in
      let dict = file_dict_declaring-Succeeds sidecar group span d w placed may found parses owns in
      rw custom (
        Succeeds-bind (file_dict_declaring E sidecar group dict_at) (λ f. give (declared f)) w fd
          (declared fd) dict (refl, dict.1))

  slice_open-serves :
      (sidecar : E.Sidecar) (group : String) (binding : Binding E) (span : ℕ × ℕ) (ags : E.AgsGroup)
      (w : H.World)
      → Placed E H word file w
      → E.size_matches sidecar size ≡ true
      → IsAdmitted sidecar group binding
      → E.spans sidecar group ≡ some (span ∷ [])
      → SpanParses E H word file span group ags
      → Succeeds (slice_open E H word sidecar handle size group) w (ags, binding)
  unfolding slice_open
  slice_open-serves sidecar group binding span ags w placed matches admitted found parses =
      let bound = admit-Succeeds sidecar group binding w placed admitted in
      let read = span_read span group ags _ bound.1 parses in
      rw matches (
        Succeeds-bind (admit E H word sidecar handle size group) _ w binding (ags, binding) bound
          (Succeeds-bind (of_option (sliceable_span E sidecar group)) _ _ span (ags, binding)
            (ap ok (sliceable_span-single sidecar group span found), bound.1)
            (Succeeds-bind (read_group_span E H word handle size span group) _ _ ags (ags, binding)
              read (refl, read.1))))

  -- On a regular file of its reported size, less than 2 ^ 63 and a `usize`, with a certificate of
  -- that size that vouches for the file's content: a group is served, if it is standard, or else
  -- if the certificate lists it or did not measure which groups the file defines, and the file's
  -- one certified `DICT` section declares it; the group has one certified span, and its bytes
  -- parse. What is served, with the identities of the standard or of the file's dictionary, is
  -- what a parse of the whole file resolves.
  pub slice_open-Succeeds :
      (sidecar : E.Sidecar) (parsed : E.ParsedAgs4)
      → Certifies E H word file size refl small word_room sidecar parsed
      → (group : String) (binding : Binding E) (span : ℕ × ℕ) (ags : E.AgsGroup) (w : H.World)
      → Placed E H word file w
      → E.size_matches sidecar size ≡ true
      → IsAdmitted sidecar group binding
      → E.spans sidecar group ≡ some (span ∷ [])
      → SpanParses E H word file span group ags
      → ((slice_open E H word sidecar handle size group w).0 ≡ ok (some (ags, binding)))
        × (resolve_group E parsed group ≡ ok ags)
        × (binding_for E parsed group ≡ ok binding)
  slice_open-Succeeds sidecar parsed certified group binding span ags w placed matches admitted
        found parses =
      let served =
        slice_open-serves sidecar group binding span ags w placed matches admitted found parses in
      let (resolved, bound) =
        slice_open-agrees E H word file size refl small word_room certified group (ags, binding) w
          placed served.0 in
      (served.0, resolved, bound)
