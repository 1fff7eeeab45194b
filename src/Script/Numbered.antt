-- ===== src/Script/Numbered.antt =====
-- src/load.rs and src/to_duckdb.rs: the sequence numbers are the positions of the statements.
use laterite_duckdb.Base.{
  ℕ, suc, ◌+◌, ◌<>◌, ◌≡◌, refl, ap, ◌∙◌, arith, String, List, [], ◌∷◌, ◌++◌, length,
}
use laterite_duckdb.Base.Int.{as_i64}
use laterite_duckdb.Base.Text.{double_quotes}
use laterite_duckdb.Engine.{Engine}
use laterite_duckdb.Table.{str, int, Rows}
use laterite_duckdb.Script.{
  push, push_all, push_groups, load_stmts, load_rows, to_duckdb_stmts, to_duckdb_rows,
}
use mathlib.Core.List.{append_assoc, append-nil}

-- The statements of the groups in order.
abbrev pub all_stmts : (String → List String) → List String → List String
all_stmts stmts [] = []
all_stmts stmts (code ∷ order) = stmts code ++ all_stmts stmts order

module _ {F : Type 0} where
  -- The statements numbered from `n` on.
  abbrev pub numbered : ℕ → List String → Rows F
  numbered n [] = []
  numbered n (s ∷ stmts) = (int (as_i64 n) ∷ str s ∷ []) ∷ numbered (suc n) stmts

  length-numbered :
      (n : ℕ) (stmts : List String) (rows : Rows F)
      → rows ≡ numbered n stmts
      → length rows ≡ length stmts
  length-numbered n [] rows h = ap length h
  length-numbered n (s ∷ stmts) rows h =
      ap length h ∙ ap suc (length-numbered (suc n) stmts (numbered (suc n) stmts) refl)

  numbered-snoc :
      (n : ℕ) (stmts : List String) (s : String)
      → numbered n (stmts ++ s ∷ [])
        ≡ numbered n stmts ++ ((int (as_i64 (n + length stmts)) ∷ str s ∷ []) ∷ [])
  numbered-snoc n [] s = let e : n + 0 ≡ n = omega arith in rw e
  numbered-snoc n (t ∷ stmts) s =
      let e : n + suc (length stmts) ≡ suc n + length stmts = omega arith in
      rw (e, numbered-snoc (suc n) stmts s)

  push-numbered :
      (stmts : List String) (s : String) → push (numbered 0 stmts) s ≡ numbered 0 (stmts ++ s ∷ [])
  unfolding push
  push-numbered stmts s =
      let e : 0 + length stmts ≡ length stmts = omega arith in
      rw (numbered-snoc 0 stmts s, length-numbered 0 stmts (numbered 0 stmts) refl, e)

  push_all-numbered :
      (done stmts : List String) → push_all (numbered 0 done) stmts ≡ numbered 0 (done ++ stmts)
  unfolding push_all
  push_all-numbered done [] = rw (append-nil done)
  push_all-numbered done (s ∷ stmts) =
      rw (push-numbered done s, push_all-numbered (done ++ s ∷ []) stmts)
        (ap (numbered 0) (append_assoc done (s ∷ []) stmts))

  push_groups-numbered :
      (stmts : String → List String) (done order : List String)
      → push_groups stmts (numbered 0 done) order ≡ numbered 0 (done ++ all_stmts stmts order)
  unfolding push_groups
  push_groups-numbered stmts done [] = rw (append-nil done)
  push_groups-numbered stmts done (code ∷ order) =
      rw
        (push_all-numbered done (stmts code), push_groups-numbered stmts (done ++ stmts code) order)
        (ap (numbered 0) (append_assoc done (stmts code) (all_stmts stmts order)))

  module _ (E : Engine) where
    -- `load_ags` returns the statements of the groups in file order, each with its position, from
    -- zero on and as an `i64`.
    pub load_rows-numbered :
        (path : String) (parsed : E.ParsedAgs4)
        → load_rows E path parsed
          ≡ numbered 0 (all_stmts (load_stmts E (double_quotes path)) (E.order parsed))
    unfolding load_rows
    load_rows-numbered path parsed =
        push_groups-numbered (load_stmts E (double_quotes path)) [] (E.order parsed)

    -- `to_duckdb` returns the attachment of the destination, the statements of the groups in file
    -- order and the detachment, each with its position, from zero on and as an `i64`.
    pub to_duckdb_rows-numbered :
        (path out : String) (parsed : E.ParsedAgs4)
        → to_duckdb_rows E path out parsed
          ≡ numbered 0 (
              (("ATTACH '" <> (double_quotes out <> "' AS _lat_out;"))
                ∷ all_stmts (to_duckdb_stmts E (double_quotes path)) (E.order parsed))
              ++ "DETACH _lat_out;" ∷ [])
    unfolding to_duckdb_rows
    to_duckdb_rows-numbered path out parsed =
        rw
          (push_groups-numbered (to_duckdb_stmts E (double_quotes path))
            (("ATTACH '" <> (double_quotes out <> "' AS _lat_out;")) ∷ []) (E.order parsed))
          (push-numbered
            ((("ATTACH '" <> (double_quotes out <> "' AS _lat_out;")) ∷ [])
              ++ all_stmts (to_duckdb_stmts E (double_quotes path)) (E.order parsed))
            "DETACH _lat_out;")
