-- ===== src/Tests/Files.antt =====
-- A file of five bytes behind a host that hands out at most two at a time, for src/source.rs and
-- src/cert.rs.
use laterite_duckdb.Base.{
  ◌≢◌, ap, ◌==◌, string_eq, ℕ, zero, suc, ◌+◌, ◌-◌, ◌^◌, min, ◌≤◌, ◌<◌, ◌≡◌, refl, sym,
  some-injective, length-take, subst, arith, String, Bool, true, false, Option, none, some, List,
  [], ◌∷◌, length, take, drop, ok,
}
use laterite_duckdb.Base.Int.{ℤ, pos, negsuc}
use laterite_duckdb.Cert.{read_group_span, slice_open}
use laterite_duckdb.Cert.Agree.{SpanParses, Certifies, slice_open-agrees}
use laterite_duckdb.Cert.Denied.{unmeasured, undefined, slice_open-IsDenied}
use laterite_duckdb.Cert.Serves.{defined, slice_open-Succeeds}
use laterite_duckdb.Cert.Span.{Placed, read_group_span_file}
use laterite_duckdb.Engine.{Engine}
use laterite_duckdb.Host.{Host, ReadsFit, IsFile}
use laterite_duckdb.ReadAgs.{Binding, declared, resolve_group, binding_for}
use laterite_duckdb.Source.{open_for_read, slurp, max_file_bytes, sized, check_size, unless_ok}
use laterite_duckdb.Base.Text.{has_nul}
use laterite_duckdb.Source.Slurp.{slurp_file, slurp-Returns, Returns}

abbrev pub content : List ℕ
content = 65 ∷ 66 ∷ 67 ∷ 68 ∷ 69 ∷ []

abbrev got : ℕ → ℕ → ℕ
got n p = min (min n 2) (5 - p)

-- The world is the position of the one handle.
abbrev seek_to : ℤ → ℕ → Bool × ℕ
seek_to (pos q) w = (true, q)
seek_to (negsuc q) w = (false, w)

abbrev pub host : Host
host = record {
  World = ℕ;
  Handle = Unit;
  env_var = λ name. some "64";
  client_context = λ w. (true, w);
  file_system = λ w. (true, w);
  open_file = λ path w. (some tt, 0);
  file_size = λ handle w. (pos 5, w);
  file_read = λ handle n w. (some (take (got n w) (drop w content)), w + got n w);
  file_seek = λ handle q w. seek_to q w;
  create_options = λ w. w;
  destroy_options = λ w. w;
  destroy_handle = λ handle w. w;
  destroy_file_system = λ w. w;
  destroy_context = λ w. w;
}

read_at :
    (n p w : ℕ)
    → 0 < n
    → p ≤ length content
    → w ≡ p
    → (k : ℕ) × (k ≤ n)
      × (p + k ≤ length content)
      × ((host.file_read tt n w).0 ≡ some (take k (drop p content)))
      × ((host.file_read tt n w).1 ≡ p + k)
      × (k ≡ 0 → p ≡ length content)
read_at n p w h inside here =
    (got n p, omega arith, omega arith, rw here refl, rw here refl, λ e. omega (arith, e))

pub file : IsFile host tt content
file = record { at = λ p w. w ≡ p; read_at = read_at; seek_at = λ p q w inside here. (refl, refl) }

length-take_le : (n : ℕ) (xs : List ℕ) → length (take n xs) ≤ n
length-take_le n xs = omega (arith, length-take n xs)

host-ReadsFit : ReadsFit host
host-ReadsFit = record {
  within = λ handle n w bytes e. subst (λ b. length b ≤ n) (some-injective _ _ e) (fits n w);
}
  where
    fits : (n w : ℕ) → length (take (got n w) (drop w content)) ≤ n
    fits n w = omega (arith, length-take_le (got n w) (drop w content))

limit_64 : max_file_bytes host ≡ 64
unfolding max_file_bytes mathlib.Core.Option.bind
limit_64 = refl

slurp_file_example : (slurp host tt "a.ags" 5 0).0 ≡ ok content
unfolding file
slurp_file_example = slurp_file host file "a.ags" 0 host-ReadsFit (omega (arith, limit_64)) refl

slurp-Returns_example :
    Returns
      (λ out. (7 ≤ length out) × (length out ≤ max_file_bytes host))
      (slurp host tt "a.ags" 7 0).0
slurp-Returns_example = slurp-Returns host host-ReadsFit tt "a.ags" 7 0

abbrev pub ids : ℕ → List (String × Option String)
ids zero = []
ids (suc n) = ("id", none) ∷ ids n

-- An engine whose groups are their bytes. Each group is certified to be the middle three bytes.
abbrev pub engine : Engine
engine = record {
  ParsedAgs4 = List ℕ;
  AgsGroup = List ℕ;
  FileDict = Unit;
  Sidecar = Unit;
  read_ags4_bytes = λ bytes. ok bytes;
  from_groups = λ groups. [];
  order = λ parsed. "GEOX" ∷ [];
  get_group = λ parsed group. some (take 3 (drop 1 parsed));
  headings = λ ags. "GEOX_REF" ∷ "GEOX_TOP" ∷ [];
  types = λ ags. "X" ∷ "2DP" ∷ [];
  units = λ ags. "" ∷ "m" ∷ [];
  n_rows = λ ags. 1;
  cell = λ ags r c. some "1.50";
  file_dict_of = λ parsed. tt;
  declares = λ fd group. true;
  declared_parent = λ fd group. none;
  declared_status = λ fd group heading. some "Key+Required";
  is_standard = λ group. false;
  registry_parent = λ group. none;
  group_row_ids = λ group hs n cell. ids n;
  group_row_ids_effective = λ fd group hs n cell. [];
  content_hash = λ group cells. "hash";
  from_json = λ bytes. ok tt;
  spans = λ sidecar group. some ((1, 4) ∷ []);
  defines = λ sidecar. none;
  size_matches = λ sidecar size. true;
  parse_group_slice = λ bytes span group. ok bytes;
  to_uppercase = λ s. s;
  to_lowercase = λ s. s;
}

open_world : (w : ℕ) → (open_for_read host "a.ags" w).1 ≡ 0
unfolding file open_for_read sized unless_ok check_size max_file_bytes has_nul
    mathlib.Core.Option.bind
open_world w = refl

pub at_start : (w : ℕ) → Placed engine host (2 ^ 64) file (open_for_read host "a.ags" w).1
unfolding file
at_start w = (0, omega arith, open_world w)

read_group_span_file_example :
    ((read_group_span engine host (2 ^ 64) tt 5 (1, 4) "GEOX" 0).0 ≡ ok (some (66 ∷ 67 ∷ 68 ∷ [])))
    × Placed engine host (2 ^ 64) file (read_group_span engine host (2 ^ 64) tt 5 (1, 4) "GEOX" 0).1
unfolding file
read_group_span_file_example =
    read_group_span_file engine host (2 ^ 64) file 5 1 4 "GEOX" 0 (0, omega arith, refl)
      (omega arith) (omega arith) (omega arith) (omega arith) (omega arith)

first_span :
    (span : ℕ × ℕ)
    → ◌≡◌ {A = Option (List (ℕ × ℕ))} (some ((1, 4) ∷ [])) (some (span ∷ []))
    → (1, 4) ≡ span
first_span span h = cc

same_slice :
    (group : String) (ags : List ℕ)
    → SpanParses engine host (2 ^ 64) file (1, 4) group ags
    → engine.get_group content group ≡ some ags
same_slice group ags (ordered, inside, parses) = cc

pub certified : Certifies engine host (2 ^ 64) file 5 refl (omega arith) (omega arith) tt content
certified = record {
  slice = λ span group ags found parses. same_slice group ags (
      subst (λ sp. SpanParses engine host (2 ^ 64) file sp group ags) (sym (first_span span found))
        parses);
  dict = λ d found. refl;
}

-- A certificate that measured that the file defines no group but LOCA.
abbrev measured : Engine
measured = record engine { defines = λ sidecar. some ("LOCA" ∷ []) }

abbrev pub served : List ℕ × Binding engine
served = (66 ∷ 67 ∷ 68 ∷ [], declared tt)

pub serves : (slice_open engine host (2 ^ 64) tt tt 5 "GEOX" 0).0 ≡ ok (some served)
unfolding slice_open
serves = refl

slice_open-agrees_example :
    (resolve_group engine content "GEOX" ≡ ok served.0)
    × (binding_for engine content "GEOX" ≡ ok served.1)
unfolding file
slice_open-agrees_example =
    slice_open-agrees engine host (2 ^ 64) file 5 refl (omega arith) (omega arith) certified "GEOX"
      served 0 (0, omega arith, refl) serves

true_is_not_false : true ≢ false
true_is_not_false h = cc

loca_is_not_geox : ◌≢◌ {A = String} "LOCA" "GEOX"
loca_is_not_geox h = true_is_not_false (ap (λ g. g == "LOCA") h)

slice_open-IsDenied_example : slice_open measured host (2 ^ 64) tt tt 5 "GEOX" 0 ≡ (ok none, 0)
slice_open-IsDenied_example =
    slice_open-IsDenied measured host (2 ^ 64) tt tt 5 "GEOX" 0 refl
      (undefined ("LOCA" ∷ []) refl (loca_is_not_geox, tt))

slice_open-Succeeds_example :
    ((slice_open engine host (2 ^ 64) tt tt 5 "GEOX" 0).0 ≡ ok (some served))
    × (resolve_group engine content "GEOX" ≡ ok served.0)
    × (binding_for engine content "GEOX" ≡ ok served.1)
unfolding file
slice_open-Succeeds_example =
    slice_open-Succeeds engine host (2 ^ 64) file (omega arith) (omega arith) tt content certified
      "GEOX" (declared tt) (1, 4) (66 ∷ 67 ∷ 68 ∷ []) 0 (0, omega arith, refl) refl
      (defined (1, 4) (66 ∷ 67 ∷ 68 ∷ []) refl (unmeasured refl) refl
        (omega arith, omega arith, refl) refl)
      refl (omega arith, omega arith, refl)
