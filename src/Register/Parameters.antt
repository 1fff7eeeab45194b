-- ===== src/Register/Parameters.antt =====
-- src/ffi_table.rs: the parameters that `register_table` adds to a table function.
use laterite_duckdb.Base.{
  ℕ, zero, suc, ◌+◌, ◌-◌, ◌≡◌, refl, ap, ◌∙◌, arith, String, false, List, [], ◌∷◌, ◌++◌, map, All,
  ok,
}
use laterite_duckdb.Base.Text.{has_nul}
use laterite_duckdb.Register.{Call, Log, add_parameters, add_named_parameters}
use laterite_duckdb.Register.Session.{Signature, Session, after, session}
use laterite_duckdb.Table.{LogicalType, type_varchar}
use mathlib.Core.List.{append_assoc, append-nil}

abbrev pub replicate : {A : Type 0} → ℕ → A → List A
replicate zero a = []
replicate (suc n) a = a ∷ replicate n a

-- The signature that a registration asks for: all parameters are texts.
abbrev pub text_function : String → ℕ → List String → Signature
text_function name n named = record {
  name = name;
  positional = replicate n type_varchar;
  named = map (λ p. (p, type_varchar)) named;
}

abbrev pub with_positional : Session → List LogicalType → Session
with_positional s ts = record s {
  making = record s.making { positional = s.making.positional ++ ts };
}

abbrev pub with_named : Session → List (String × LogicalType) → Session
with_named s ps = record s { making = record s.making { named = s.making.named ++ ps } }

add_parameter_step :
    (log : Log)
    → session (
        Call.destroy_logical_type
        ∷ Call.add_parameter type_varchar
        ∷ Call.create_logical_type type_varchar
        ∷ log)
      ≡ with_positional (session log) (type_varchar ∷ [])
unfolding session after
add_parameter_step log =
    let e : (session log).types + 1 - 1 ≡ (session log).types = omega arith in rw e

add_named_parameter_step :
    (p : String) (log : Log)
    → session (
        Call.destroy_logical_type
        ∷ Call.add_named_parameter p type_varchar
        ∷ Call.create_logical_type type_varchar
        ∷ log)
      ≡ with_named (session log) ((p, type_varchar) ∷ [])
unfolding session after
add_named_parameter_step p log =
    let e : (session log).types + 1 - 1 ≡ (session log).types = omega arith in rw e

pub add_parameters_lem :
    (n : ℕ) (log : Log)
    → ((add_parameters n log).0 ≡ ok tt)
      × (session (add_parameters n log).1
          ≡ with_positional (session log) (replicate n type_varchar))
unfolding add_parameters
add_parameters_lem zero log = (refl, rw (append-nil (session log).making.positional))
add_parameters_lem (suc n) log =
    let log' =
      Call.destroy_logical_type
      ∷ Call.add_parameter type_varchar
      ∷ Call.create_logical_type type_varchar
      ∷ log in
    let (done, left) = add_parameters_lem n log' in
    (
      done,
      left
          ∙ ap (λ s. with_positional s (replicate n type_varchar)) (add_parameter_step log)
          ∙ ap
              (λ ts. record (session log) {
                making = record (session log).making { positional = ts };
              })
              (append_assoc (session log).making.positional (type_varchar ∷ [])
                (replicate n type_varchar)),
    )

-- No text has a NUL.
abbrev pub NoNuls : List String → Type 0
NoNuls = All (λ s. has_nul s ≡ false)

pub add_named_parameters_lem :
    (named : List String) (log : Log)
    → NoNuls named
    → ((add_named_parameters named log).0 ≡ ok tt)
      × (session (add_named_parameters named log).1
          ≡ with_named (session log) (map (λ p. (p, type_varchar)) named))
unfolding add_named_parameters
add_named_parameters_lem [] log clean = (refl, rw (append-nil (session log).making.named))
add_named_parameters_lem (p ∷ named) log (clean, rest) =
    let log' =
      Call.destroy_logical_type
      ∷ Call.add_named_parameter p type_varchar
      ∷ Call.create_logical_type type_varchar
      ∷ log in
    let (done, left) = add_named_parameters_lem named log' rest in
    let ps : List (String × LogicalType) = map (λ q. (q, type_varchar)) named in
    rw clean (
      done,
      left
          ∙ ap (λ s. with_named s ps) (add_named_parameter_step p log)
          ∙ ap (λ qs. record (session log) { making = record (session log).making { named = qs } })
              (append_assoc (session log).making.named ((p, type_varchar) ∷ []) ps),
    )
