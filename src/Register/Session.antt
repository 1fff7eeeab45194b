-- ===== src/Register/Session.antt =====
-- The reading of a log of C calls in src/ffi_table.rs and src/lib.rs: the functions that it registered, and the
-- objects that it created and has not destroyed.
use laterite_duckdb.Base.{ℕ, ◌+◌, ◌-◌, String, true, List, [], ◌∷◌, ◌++◌}
use laterite_duckdb.Register.{Call, Log}
use laterite_duckdb.Table.{LogicalType}

pub record Signature : Type 0 where
  pub name : String
  pub positional : List LogicalType
  pub named : List (String × LogicalType)

-- The registered functions in order, the table function in the making, and the objects not yet destroyed.
pub record Session : Type 0 where
  pub catalog : List Signature
  pub making : Signature
  pub types : ℕ
  pub functions : ℕ
  pub connections : ℕ

abbrev pub unnamed : Signature
unnamed = record { name = ""; positional = []; named = [] }

-- What one call does.
unfoldable pub after : Call → Session → Session
after (Call.connect true) s = record s { connections = s.connections + 1 }
after Call.disconnect s = record s { connections = s.connections - 1 }
after (Call.create_table_function true) s = record s {
  functions = s.functions + 1;
  making = unnamed;
}
after (Call.set_name name) s = record s { making = record s.making { name = name } }
after (Call.create_logical_type t) s = record s { types = s.types + 1 }
after (Call.add_parameter t) s = record s {
  making = record s.making { positional = s.making.positional ++ t ∷ [] };
}
after (Call.add_named_parameter name t) s = record s {
  making = record s.making { named = s.making.named ++ (name, t) ∷ [] };
}
after Call.destroy_logical_type s = record s { types = s.types - 1 }
after (Call.register_table_function true) s = record s { catalog = s.catalog ++ s.making ∷ [] }
after Call.destroy_table_function s = record s { functions = s.functions - 1 }
after _ s = s

-- The session that a log leaves, from nothing.
unfoldable pub session : Log → Session
unfolding after
session [] = record { catalog = []; making = unnamed; types = 0; functions = 0; connections = 0 }
session (c ∷ log) = after c (session log)
