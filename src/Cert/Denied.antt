-- ===== src/Cert/Denied.antt =====
-- src/cert.rs: the groups that a certificate denies, and the ones that it may define.
use laterite_duckdb.Base.{
  arith, ℕ, ◌≡◌, refl, String, true, false, not, none, some, List, [], ◌++◌, ◌≢◌, string_eq,
  eq_self, All, ◌∷◌, length, ok, Bool-cases, inl, inr,
}
use laterite_duckdb.Base.Attempt.{Attempt}
use laterite_duckdb.Cert.{
  any_eq, only_span, sliceable_span, read_group_span, denies, file_dict_declaring, admit,
  slice_open,
}
use laterite_duckdb.Engine.{Engine}
use laterite_duckdb.Host.{Host}

any_eq-append :
    (group : String) (before after : List String) → any_eq group (before ++ group ∷ after) ≡ true
any_eq-append group [] after = rw (eq_self group) refl
any_eq-append group (g ∷ before) after = ground (arith, any_eq-append group before after)

any_eq-absent :
    (group : String) (groups : List String)
    → All (λ g. g ≢ group) groups
    → any_eq group groups ≡ false
any_eq-absent group [] absent = refl
any_eq-absent group (g ∷ groups) (other, absent) =
    ground (arith, other, any_eq-absent group groups absent, string_eq.beq_iff g group)

only_span-none : (spans : List (ℕ × ℕ)) → length spans ≢ 1 → only_span (some spans) ≡ none
unfolding only_span
only_span-none [] several = refl
only_span-none (only ∷ []) several = absurd (several refl)
only_span-none (first ∷ second ∷ rest) several = refl

module _ (E : Engine) where
  -- Whether the certificate allows that the file defines the group: it did not measure which groups
  -- the file defines, or it lists this one.
  pub data MayDefine (sidecar : E.Sidecar) (group : String) : Type 0 where
    unmeasured : E.defines sidecar ≡ none → MayDefine sidecar group
    listed :
        (before after : List String)
        → E.defines sidecar ≡ some (before ++ group ∷ after)
        → MayDefine sidecar group

  pub denies-MayDefine :
      (sidecar : E.Sidecar) (group : String)
      → MayDefine sidecar group
      → denies (E.defines sidecar) group ≡ false
  unfolding denies
  denies-MayDefine sidecar group (unmeasured h) = rw h refl
  denies-MayDefine sidecar group (listed before after h) =
      rw (h, any_eq-append group before after) refl

  -- Why no group is admitted by the file's own dictionary: the certificate measured which groups the
  -- file defines, and this one is not among them; or it does not list exactly one `DICT` section.
  pub data IsDenied (sidecar : E.Sidecar) (group : String) : Type 0 where
    undefined :
        (groups : List String)
        → E.defines sidecar ≡ some groups
        → All (λ g. g ≢ group) groups
        → IsDenied sidecar group
    no_dict : E.spans sidecar "DICT" ≡ none → IsDenied sidecar group
    not_single :
        (spans : List (ℕ × ℕ))
        → E.spans sidecar "DICT" ≡ some spans
        → length spans ≢ 1
        → IsDenied sidecar group

  file_dict_declaring-IsDenied :
      {W : Type 0} (sidecar : E.Sidecar) (group : String) (fetch : ℕ × ℕ → Attempt W E.AgsGroup)
      (w : W)
      → IsDenied sidecar group
      → file_dict_declaring E sidecar group fetch w ≡ (ok none, w)
  unfolding file_dict_declaring denies sliceable_span
  file_dict_declaring-IsDenied sidecar group fetch w (undefined groups h absent) =
      rw (h, any_eq-absent group groups absent) refl
  file_dict_declaring-IsDenied sidecar group fetch w (no_dict h) =
      elim (Bool-cases (denies (E.defines sidecar) group)) [
        | inl d ↦ rw d refl
        | inr d ↦ rw (d, h) refl
      ]
  file_dict_declaring-IsDenied sidecar group fetch w (not_single spans h several) =
      elim (Bool-cases (denies (E.defines sidecar) group)) [
        | inl d ↦ rw d refl
        | inr d ↦ rw (d, h, only_span-none spans several) refl
      ]

  -- A group that is not standard, when the certificate measured which groups the file defines and
  -- does not list it, or does not list exactly one `DICT` section: the sliced read of an open
  -- source gives up, whatever size it has, and has read nothing of it: the world is as it was.
  pub slice_open-IsDenied :
      (H : Host) (word : ℕ) (sidecar : E.Sidecar) (handle : H.Handle) (size : ℕ) (group : String)
      (w : H.World)
      → E.is_standard group ≡ false
      → IsDenied sidecar group
      → slice_open E H word sidecar handle size group w ≡ (ok none, w)
  unfolding slice_open admit
  slice_open-IsDenied H word sidecar handle size group w custom denied =
      let fetch : ℕ × ℕ → Attempt H.World E.AgsGroup =
        λ span. read_group_span E H word handle size span "DICT" in
      let none_declared = file_dict_declaring-IsDenied sidecar group fetch w denied in
      elim (Bool-cases (not (E.size_matches sidecar size))) [
        | inl other ↦ rw other refl
        | inr same ↦ rw (same, custom, none_declared) refl
      ]
