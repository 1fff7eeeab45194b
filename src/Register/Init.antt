-- ===== src/Register/Init.antt =====
-- src/lib.rs: what loading the extension leaves in DuckDB's catalog, however DuckDB answers.
use laterite_duckdb.Base.{
  ℕ, ◌+◌, ◌<◌, ◌≡◌, ◌≢◌, refl, sym, arith, String, Bool, true, false, not, ◌&&◌, Option, none, some,
  List, [], ◌∷◌, ◌++◌, length, take, Result, ok, err, panic, if◌then◌else◌, ◌⊎◌, inl, inr,
  Bool-cases,
}
use laterite_duckdb.Base.Io.{pure, continue}
use laterite_duckdb.Base.Text.{has_nul}
use laterite_duckdb.Register.{
  Call, Log, Replies, register_table, register, register_connected, with_database, init_database,
  init_internal, report, init_c_api,
}
use laterite_duckdb.Register.Session.{Signature, Session, after, session}
use laterite_duckdb.Register.Parameters.{text_function}
use laterite_duckdb.Register.Complete.{
  IsBalanced, all, part, Registers, register_table-Registers, >>-Registers,
}
use mathlib.Core.List.{append-nil}

-- The table functions of the extension.
abbrev pub functions : List Signature
functions =
    text_function "ags_groups" 1 []
    ∷ text_function "ags_headings" 1 []
    ∷ text_function "read_ags" 2 ("encoding" ∷ [])
    ∷ text_function "read_ags_text" 2 []
    ∷ text_function "ags_dictionary" 0 ("edition" ∷ [])
    ∷ text_function "ags_relationships" 0 []
    ∷ text_function "ags_rules" 0 []
    ∷ text_function "load_ags" 1 []
    ∷ text_function "to_duckdb" 2 []
    ∷ []

module _ (D : Replies) where
  one :
      (name : String) (n : ℕ)
      → has_nul name ≡ false
      → Registers D (register_table D name n []) (text_function name n [] ∷ [])
  one name n clean = register_table-Registers D name n [] (clean, tt)

  register-Registers : Registers D (register D) functions
  unfolding register has_nul
  register-Registers =
      >>-Registers D _ _ _ _
        (>>-Registers D _ _ _ _ (one "ags_groups" 1 refl) (one "ags_headings" 1 refl))
        (>>-Registers D _ _ _ _
          (register_table-Registers D "read_ags" 2 ("encoding" ∷ []) (refl, (refl, tt)))
          (>>-Registers D _ _ _ _ (one "read_ags_text" 2 refl) (
            >>-Registers D _ _ _ _
              (>>-Registers D _ _ _ _
                (register_table-Registers D "ags_dictionary" 0 ("edition" ∷ []) (refl, (refl, tt)))
                (>>-Registers D _ _ _ _ (one "ags_relationships" 0 refl) (one "ags_rules" 0 refl)))
              (>>-Registers D _ _ _ _ (one "load_ags" 1 refl) (one "to_duckdb" 2 refl)))))

  -- How an initialisation ends: with every function registered, or with the first of them.
  abbrev pub Ended : {A : Type 0} → A → A → Session → Session → Type 0
  Ended success r before later =
      ((r ≡ success) × (later.catalog ≡ before.catalog ++ functions)
        ⊎ (r ≢ success)
          × ((k : ℕ) × (k < length functions)
              × (later.catalog ≡ before.catalog ++ take k functions)))
      × IsBalanced before later

  nothing_registered :
      {A : Type 0} (success r : A) (before later : Session)
      → r ≢ success
      → later ≡ before
      → Ended success r before later
  nothing_registered success r before later fails same = (
    inr (fails, (0, omega arith, rw same (sym (append-nil before.catalog)))),
    rw same (record { types = refl; functions = refl; connections = refl }),
  )

  err_not_true : (e : String) → ◌≢◌ {A = Result Bool} (err e) (ok true)
  err_not_true e h = cc

  false_not_true : ◌≢◌ {A = Result Bool} (ok false) (ok true)
  false_not_true h = cc

  disconnected :
      (s later : Session)
      → IsBalanced (record s { connections = s.connections + 1 }) later
      → IsBalanced s (after Call.disconnect later)
  unfolding after
  disconnected s later h = record {
    types = h.types;
    functions = h.functions;
    connections = omega (arith, h.connections);
  }

  register_connected-Ended :
      (log : Log)
      → let out = register_connected D (Call.connect true ∷ log) in
        Ended (ok true) out.0 (session log) (session out.1)
  unfolding register_connected session after
  register_connected-Ended log =
      let log' = Call.connect true ∷ log in
      let (outcome, balanced) = register-Registers.run log' in
      let kept = disconnected (session log) (session (register D log').1) balanced in
      elim outcome [
        | all done listed ↦ rw done (inl (refl, listed), kept)
        | part k e few failed listed ↦ rw failed (inr (err_not_true e, (k, few, listed)), kept)
      ]

  with_database-Ended :
      (log : Log)
      → let out = with_database D log in Ended (ok true) out.0 (session log) (session out.1)
  unfolding with_database session after
  with_database-Ended log = elim (Bool-cases (D.connects log)) [
    | inl connected ↦ rw connected (register_connected-Ended log)
    | inr refused ↦
        rw (refused, session, after)
          (nothing_registered (ok true) _ (session log) (session log) (err_not_true _) refl)
  ]

  found_database-Ended :
      (found : Bool) (log : Log)
      → let out = (if found then with_database D else pure false) log in
        Ended (ok true) out.0 (session log) (session out.1)
  found_database-Ended true log = with_database-Ended log
  found_database-Ended false log =
      nothing_registered (ok true) _ (session log) (session log) false_not_true refl

  init_database-Ended :
      (log : Log)
      → let out = init_database D log in Ended (ok true) out.0 (session log) (session out.1)
  unfolding init_database session after
  init_database-Ended log = elim (Bool-cases D.has_get_database) [
    | inl has ↦ simp has (found_database-Ended (D.finds_database log) (Call.get_database ∷ log))
    | inr missing ↦
        simp missing
          (nothing_registered (ok true) _ (session log) (session log) (err_not_true _) refl)
  ]

  with_api-Ended :
      (r : Result Bool) (log : Log)
      → let out = continue r (λ have_api. if have_api then init_database D else pure false) log in
        Ended (ok true) out.0 (session log) (session out.1)
  with_api-Ended (ok true) log = init_database-Ended log
  with_api-Ended (ok false) log =
      nothing_registered (ok true) _ (session log) (session log) false_not_true refl
  with_api-Ended (err e) log =
      nothing_registered (ok true) _ (session log) (session log) (err_not_true e) refl
  with_api-Ended panic log =
      nothing_registered (ok true) _ (session log) (session log) (λ h. cc) refl

  init_internal-Ended :
      (log : Log)
      → let out = init_internal D log in Ended (ok true) out.0 (session log) (session out.1)
  unfolding init_internal session after
  init_internal-Ended log = with_api-Ended (D.has_api log) (Call.api_init "v1.5.6" ∷ log)

  reported :
      (b : Bool) (e : String) (log : Log)
      → session (if b then Call.set_error e ∷ log else log) ≡ session log
  unfolding session after
  reported true e log = refl
  reported false e log = refl

  -- A failure that is reported.
  failed-Ended :
      (r : Result Bool) (out : Option Bool) (before later same : Session)
      → r ≢ ok true
      → out ≢ some true
      → same ≡ later
      → Ended (ok true) r before later
      → Ended (some true) out before same
  failed-Ended r out before later same fails fails' e (inl (h, _), kept) = absurd (fails h)
  failed-Ended r out before later same fails fails' e (inr (_, (k, few, listed)), kept) =
      rw e (inr (fails', (k, few, listed)), kept)

  report-Ended :
      (r : Result Bool) (before : Session) (log : Log)
      → Ended (ok true) r before (session log)
      → let out = report D r log in Ended (some true) out.0 before (session out.1)
  unfolding report
  report-Ended (ok true) before log (inl (_, listed), kept) = (inl (refl, listed), kept)
  report-Ended (ok true) before log (inr (fails, _), kept) = absurd (fails refl)
  report-Ended (ok false) before log h =
      failed-Ended (ok false) (some false) before (session log) (session log) false_not_true
        (λ e. cc) refl h
  report-Ended (err e) before log h =
      failed-Ended (err e) (some false) before (session log) _ (err_not_true e) (λ e'. cc)
        (reported (D.has_set_error && not (has_nul e)) e log) h
  report-Ended panic before log h =
      failed-Ended panic none before (session log) (session log) (λ e. cc) (λ e. cc) refl h

  -- However DuckDB answers, the entry point returns true exactly when all nine functions are
  -- registered, in order; otherwise it returns false or unwinds with the first ones registered,
  -- fewer than nine. Either way it leaves no more logical types, table functions or connections
  -- open than before.
  pub init_c_api-Ended :
      (log : Log)
      → let out = init_c_api D log in Ended (some true) out.0 (session log) (session out.1)
  unfolding init_c_api
  init_c_api-Ended log =
      report-Ended (init_internal D log).0 (session log) (init_internal D log).1
        (init_internal-Ended log)
