-- ===== src/Base/Int.antt =====
-- `i64` values, as integers. `negsuc n` is -(n + 1).
use Prim.Native.Nat.{ℕ, suc, ◌-◌, ◌%◌, ◌^◌}
use Prim.Native.String.{String, ◌++◌ as ◌<>◌}
use laterite_duckdb.Base.Tests.{ltb, if◌then◌else◌}
use laterite_duckdb.Base.Text.{show}

pub data ℤ : Type 0 where
  pos : ℕ → ℤ
  negsuc : ℕ → ℤ

-- `n as i64` for a `u64` or a `usize`: the upper half of the words is negative.
abbrev pub as_i64 : ℕ → ℤ
as_i64 n = let m = n % 2 ^ 64 in if ltb m (2 ^ 63) then pos m else negsuc (2 ^ 64 - 1 - m)

unfoldable pub show_i64 : ℤ → String
unfolding show
show_i64 (pos n) = show n
show_i64 (negsuc n) = "-" <> show (suc n)
