-- ===== src/Table/Values/Released.antt =====
-- src/ffi_table.rs: reading a parameter gives the text of its value, and releases what it got.
use laterite_duckdb.Base.{
  ℕ, ◌<>◌, ◌≡◌, refl, ap, ◌∙◌, String, true, false, Option, none, some, List, ◌∷◌, ok_or,
}
use laterite_duckdb.Base.Text.{has_nul, show}
use laterite_duckdb.Table
use laterite_duckdb.Table.Values.{
  get_parameter, get_named_parameter, get_varchar, free, destroy_value, Log, Info, is_some, copied,
  value_to_string, param_text, param_str, not_blank, named_text, named_str, text_of, step,
  allocated,
}
use mathlib.Core.Option

-- What is allocated and then released changes nothing.
string_freed :
    (o : Option (ℕ × ℕ)) → Option.bind (Option.bind o (step (get_varchar true))) (step free) ≡ o
unfolding Option.bind
string_freed none = refl
string_freed (some (values, strings)) = refl

no_string : (o : Option (ℕ × ℕ)) → Option.bind o (step (get_varchar false)) ≡ o
unfolding Option.bind
no_string none = refl
no_string (some (values, strings)) = refl

no_parameter :
    (o : Option (ℕ × ℕ)) (index : ℕ) → Option.bind o (step (get_parameter index false)) ≡ o
unfolding Option.bind
no_parameter none index = refl
no_parameter (some (values, strings)) index = refl

no_named :
    (o : Option (ℕ × ℕ)) (name : String) → Option.bind o (step (get_named_parameter name false)) ≡ o
unfolding Option.bind
no_named none name = refl
no_named (some (values, strings)) name = refl

parameter_destroyed :
    (o : Option (ℕ × ℕ)) (index : ℕ)
    → Option.bind (Option.bind o (step (get_parameter index true))) (step destroy_value) ≡ o
unfolding Option.bind
parameter_destroyed none index = refl
parameter_destroyed (some (values, strings)) index = refl

named_destroyed :
    (o : Option (ℕ × ℕ)) (name : String)
    → Option.bind (Option.bind o (step (get_named_parameter name true))) (step destroy_value) ≡ o
unfolding Option.bind
named_destroyed none name = refl
named_destroyed (some (values, strings)) name = refl

module _ (I : Info) where
  copied-text :
      (raw : Option (List ℕ)) (log : Log)
      → ((copied I raw (get_varchar (is_some raw) ∷ log)).0 ≡ Option.map I.lossy raw)
        × (allocated (copied I raw (get_varchar (is_some raw) ∷ log)).1 ≡ allocated log)
  copied-text none log = (refl, no_string (allocated log))
  copied-text (some raw) log = (refl, string_freed (allocated log))

  -- A value becomes its text, and the string is freed.
  value_to_string-text :
      (val : I.Value) (log : Log)
      → ((value_to_string I val log).0 ≡ Option.map I.lossy (I.varchar val))
        × (allocated (value_to_string I val log).1 ≡ allocated log)
  unfolding value_to_string
  value_to_string-text val log = copied-text (I.varchar val) log

  param_text-text :
      (index : ℕ) (val : Option I.Value) (log : Log)
      → let r = param_text I index val (get_parameter index (is_some val) ∷ log) in
        (r.0 ≡ Table.param_str index (text_of I val)) × (allocated r.1 ≡ allocated log)
  param_text-text index none log =
      (unfold Table.param_str in refl, no_parameter (allocated log) index)
  param_text-text index (some val) log =
      let (text, left) = value_to_string-text val (get_parameter index true ∷ log) in
      (
        ap (λ s. ok_or s ("positional parameter " <> (show index <> " is not a string"))) text
            ∙ said (Option.map I.lossy (I.varchar val)),
        ap (λ o. Option.bind o (step destroy_value)) left
            ∙ parameter_destroyed (allocated log) index,
      )
    where
      said :
          (s : Option String)
          → ok_or s ("positional parameter " <> (show index <> " is not a string"))
            ≡ Table.param_str index (some s)
      said none = unfold Table.param_str in refl
      said (some s) = unfold Table.param_str in refl

  param_str-text :
      (index : ℕ) (log : Log)
      → ((param_str I index log).0 ≡ Table.param_str index (text_of I (I.parameter index)))
        × (allocated (param_str I index log).1 ≡ allocated log)
  unfolding param_str
  param_str-text index log = param_text-text index (I.parameter index) log

  named_text-text :
      (name : String) (val : Option I.Value) (log : Log)
      → let r = named_text I val (get_named_parameter name (is_some val) ∷ log) in
        (r.0 ≡ Table.named_str (text_of I val)) × (allocated r.1 ≡ allocated log)
  named_text-text name none log = (unfold Table.named_str in refl, no_named (allocated log) name)
  named_text-text name (some val) log =
      let (text, left) = value_to_string-text val (get_named_parameter name true ∷ log) in
      (
        ap (not_blank I) text ∙ said (Option.map I.lossy (I.varchar val)),
        ap (λ o. Option.bind o (step destroy_value)) left ∙ named_destroyed (allocated log) name,
      )
    where
      said : (s : Option String) → not_blank I s ≡ Table.named_str (some s)
      said none = unfold Table.named_str in refl
      said (some s) = unfold Table.named_str in refl

  named_str-text :
      (name : String) (log : Log)
      → has_nul name ≡ false
      → ((named_str I name log).0 ≡ Table.named_str (text_of I (I.named_parameter name)))
        × (allocated (named_str I name log).1 ≡ allocated log)
  named_str-text name log plain =
      unfold named_str in rw (plain, named_str) (named_text-text name (I.named_parameter name) log)

  -- For a name without a NUL: `param_str` and `named_str`, as sequences of C calls, return what
  -- they return for the text of the value, on every branch, and leave exactly the values and
  -- strings allocated that were so before, with none released twice.
  pub bind_texts :
      (index : ℕ) (name : String) (log : Log)
      → has_nul name ≡ false
      → ((param_str I index log).0 ≡ Table.param_str index (text_of I (I.parameter index)))
        × (allocated (param_str I index log).1 ≡ allocated log)
        × ((named_str I name log).0 ≡ Table.named_str (text_of I (I.named_parameter name)))
        × (allocated (named_str I name log).1 ≡ allocated log)
  bind_texts index name log plain =
      let (text, released) = param_str-text index log in
      let (named, released') = named_str-text name log plain in (text, released, named, released')
