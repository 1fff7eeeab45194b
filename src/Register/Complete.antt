-- ===== src/Register/Complete.antt =====
-- src/ffi_table.rs and src/lib.rs: what the registration leaves behind, however DuckDB answers.
use laterite_duckdb.Base.{
  ℕ, ◌+◌, ◌-◌, ◌<◌, ◌≡◌, refl, sym, ap, ◌∙◌, subst, arith, String, true, List, [], ◌∷◌, ◌++◌, map,
  length, length-append, take, take_within-append, take_past-append, Result, ok, err, ◌⊎◌, inl, inr,
  Bool-cases,
}
use laterite_duckdb.Base.Io.{Io, ◌>>◌, >>=-give, >>=-err}
use laterite_duckdb.Register.{
  Call, Log, Replies, add_parameters, add_named_parameters, finish_table, describe_table,
  register_table,
}
use laterite_duckdb.Register.Session.{Signature, Session, after, session}
use laterite_duckdb.Table.{type_varchar}
use mathlib.Core.List.{append_assoc, append-nil}
use laterite_duckdb.Register.Parameters.{
  text_function, NoNuls, add_parameters_lem, add_named_parameters_lem, replicate, with_positional,
  with_named,
}

-- The objects that are held are the same.
pub record IsBalanced (before later : Session) : Type 0 where
  pub types : later.types ≡ before.types
  pub functions : later.functions ≡ before.functions
  pub connections : later.connections ≡ before.connections

module _ (D : Replies) where
  -- How a table function that was created and described is handed over.
  abbrev Handed : Result (Unit {0}) → Session → Session → Type 0
  Handed r later s =
      ((r ≡ ok tt) × (later.catalog ≡ s.catalog ++ s.making ∷ [])
        ⊎ ((e : String) × (r ≡ err e) × (later.catalog ≡ s.catalog)))
      × (later.types ≡ s.types)
      × (later.functions ≡ s.functions - 1)
      × (later.connections ≡ s.connections)

  finish_table_lem :
      (name : String) (log : Log)
      → Handed (finish_table D name log).0 (session (finish_table D name log).1) (session log)
  unfolding finish_table session after
  finish_table_lem name log =
      elim (Bool-cases (
        D.registers
          (Call.set_extra_info ∷ Call.set_function ∷ Call.set_init ∷ Call.set_bind ∷ log))) [
            | inl done ↦ rw (done, after) (inl (refl, refl), refl, refl, refl)
            | inr refused ↦ rw (refused, after) (inr (_, refl, refl), refl, refl, refl)
          ]

  -- Either all signatures were registered in order, or there was an error and those before it were.
  pub data Outcome (r : Result (Unit {0})) (before later : Session) (sigs : List Signature)
      : Type 0 where
    all : r ≡ ok tt → later.catalog ≡ before.catalog ++ sigs → Outcome r before later sigs
    part :
        (k : ℕ) (e : String)
        → k < length sigs
        → r ≡ err e
        → later.catalog ≡ before.catalog ++ take k sigs
        → Outcome r before later sigs

  -- How a registration goes from one log.
  abbrev pub Registered : Result (Unit {0}) → Session → Session → List Signature → Type 0
  Registered r before later sigs = Outcome r before later sigs × IsBalanced before later

  pub record Registers (m : Io Log (Unit {0})) (sigs : List Signature) : Type 0 where
    pub run : (log : Log) → Registered (m log).0 (session log) (session (m log).1) sigs

  describe_table_lem :
      (name : String) (n : ℕ) (named : List String) (log : Log)
      → NoNuls (name ∷ named)
      → let log' = Call.set_name name ∷ log in
        (log'' : Log) × (describe_table D name n named log ≡ finish_table D name log'')
        × (session log''
            ≡ with_named
                (with_positional (session log') (replicate n type_varchar))
                (map (λ p. (p, type_varchar)) named))
  unfolding describe_table
  describe_table_lem name n named log (clean, rest) =
      let log' = Call.set_name name ∷ log in
      let (done, left) = add_parameters_lem n log' in
      let (done', left') = add_named_parameters_lem named (add_parameters n log').1 rest in
      (
        (add_named_parameters named (add_parameters n log').1).1,
        rw
            (
              clean,
              >>=-give (add_parameters n) (λ _. add_named_parameters named >> finish_table D name)
                  log' tt done,
            )
            (>>=-give (add_named_parameters named) (λ _. finish_table D name)
              (add_parameters n log').1 tt done'),
        left' ∙ ap (λ s. with_named s (map (λ p. (p, type_varchar)) named)) left,
      )

  Handed-Registered :
      (r : Result (Unit {0})) (later s : Session) (sig : Signature)
      → Handed r later (record s { making = sig; functions = s.functions + 1 })
      → Registered r s later (sig ∷ [])
  Handed-Registered r later s sig (h, types, functions, connections) = (
    elim h [
      | inl (done, listed) ↦ all done listed
      | inr (e, failed, kept) ↦ part 0 e (omega arith) failed (kept ∙ sym (append-nil s.catalog))
    ],
    record { types = types; functions = omega (arith, functions); connections = connections },
  )

  described :
      (name : String) (n : ℕ) (named : List String) (log : Log)
      → NoNuls (name ∷ named)
      → let m = describe_table D name n named in
        let log' = Call.create_table_function true ∷ log in
        Registered (m log').0 (session log) (session (m log').1) (text_function name n named ∷ [])
  unfolding session after
  described name n named log clean =
      let log' = Call.create_table_function true ∷ log in
      let (log'', e, left) = describe_table_lem name n named log' clean in
      rw e (
        Handed-Registered _ _ (session log) (text_function name n named) (
          subst (Handed (finish_table D name log'').0 (session (finish_table D name log'').1)) left
            (finish_table_lem name log'')))

  -- For names without a NUL and however DuckDB answers: a registration succeeds and adds exactly
  -- the asked function to the catalog, or fails and adds none; it leaves no more logical types,
  -- table functions or connections open than before.
  pub register_table-Registers :
      (name : String) (n : ℕ) (named : List String)
      → NoNuls (name ∷ named)
      → Registers (register_table D name n named) (text_function name n named ∷ [])
  unfolding register_table session after
  register_table-Registers name n named clean = record {
    run = λ log. elim (Bool-cases (D.creates log)) [
      | inl created ↦ rw created (described name n named log clean)
      | inr null ↦
          rw (null, session, after)
            (
              part 0 _ (omega arith) refl (sym (append-nil (session log).catalog)),
              record { types = refl; functions = refl; connections = refl },
            )
    ];
  }

  IsBalanced-trans : {a b c : Session} → IsBalanced a b → IsBalanced b c → IsBalanced a c
  IsBalanced-trans h k = record {
    types = k.types ∙ h.types;
    functions = k.functions ∙ h.functions;
    connections = k.connections ∙ h.connections;
  }

  -- What follows a registration that was complete.
  later-Registered :
      (r : Result (Unit {0})) (a b c : Session) (ms ns : List Signature)
      → b.catalog ≡ a.catalog ++ ms
      → IsBalanced a b
      → Registered r b c ns
      → Registered r a c (ms ++ ns)
  later-Registered r a b c ms ns listed kept (outcome, balanced) = (
    elim outcome [
      | all done more ↦ all done (more ∙ ap (λ l. l ++ ns) listed ∙ append_assoc a.catalog ms ns)
      | part k e few failed more ↦
          part (length ms + k) e (omega (arith, length-append ms ns)) failed (
            more
            ∙ ap (λ l. l ++ take k ns) listed
            ∙ append_assoc a.catalog ms (take k ns)
            ∙ ap (◌++◌ a.catalog) (sym (take_past-append ms ns k)))
    ],
    IsBalanced-trans kept balanced,
  )

  -- Two registrations in a row.
  pub >>-Registers :
      (m n : Io Log (Unit {0})) (ms ns : List Signature)
      → Registers m ms
      → Registers n ns
      → Registers (m >> n) (ms ++ ns)
  >>-Registers m n ms ns hm hn = record {
    run = λ log.
        let (outcome, balanced) = hm.run log in
        elim outcome [
          | all done listed ↦ rw (>>=-give m (λ _. n) log tt done) (
              later-Registered _ (session log) (session (m log).1) _ ms ns listed balanced
                (hn.run (m log).1))
          | part k e few failed listed ↦ rw (>>=-err m (λ _. n) log e failed) (
            part k e (omega (arith, length-append ms ns)) refl (
                listed
                ∙ ap (◌++◌ (session log).catalog) (sym (take_within-append k ms ns (omega arith)))),
            balanced,
          )
        ];
  }
