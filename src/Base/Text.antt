-- ===== src/Base/Text.antt =====
-- What the source uses of Rust's `str`, `format!` and integer parsing.
use Prim.Native.Char.{Char, code}
use Prim.Native.Nat.{ℕ, zero, suc, ◌+◌, ◌-◌, ◌*◌, ◌/◌, ◌%◌}
use Prim.Native.String.{String, ◌++◌ as ◌<>◌}
use mathlib.Core.Bool.{Bool, true, false, ◌&&◌, ◌||◌}
use mathlib.Core.List.{List, [], ◌∷◌}
use mathlib.Core.Option.{Option, none, some}
use laterite_duckdb.Base.Tests.{ltb, leb, nat_eq, ◌==◌, if◌then◌else◌}

-- `char::is_whitespace`, the property White_Space.
unfoldable pub is_whitespace : Char → Bool
is_whitespace c =
    let n = code c in
    (leb 9 n && leb n 13)
    || (n == 32
        || (n == 0x85
            || (n == 0xA0
                || (n == 0x1680
                    || ((leb 0x2000 n && leb n 0x200A)
                        || (n == 0x2028
                            || (n == 0x2029 || (n == 0x202F || (n == 0x205F || n == 0x3000)))))))))

-- `is_empty`
abbrev pub is_empty : String → Bool
is_empty String.[] = true
is_empty (String.◌∷◌ c s) = false

-- `trim`, from both ends.
unfoldable pub trim_start : String → String
unfolding is_whitespace
trim_start String.[] = String.[]
trim_start (String.◌∷◌ c s) =
    let rest = trim_start s in if is_whitespace c then rest else String.◌∷◌ c s

unfoldable pub trim_end : String → String
unfolding is_whitespace
trim_end String.[] = String.[]
trim_end (String.◌∷◌ c s) =
    let rest = trim_end s in
    if is_empty rest && is_whitespace c then String.[] else String.◌∷◌ c rest

unfoldable pub trim : String → String
unfolding trim_start trim_end
trim s = trim_end (trim_start s)

-- Whether `CString::new` fails: the text holds a NUL.
unfoldable pub has_nul : String → Bool
has_nul String.[] = false
has_nul (String.◌∷◌ c s) = code c == 0 || has_nul s

-- `replace('\'', "''")`
unfoldable pub double_quotes : String → String
double_quotes String.[] = String.[]
double_quotes (String.◌∷◌ c s) =
    let rest = double_quotes s in
    if code c == 39 then String.◌∷◌ c (String.◌∷◌ c rest) else String.◌∷◌ c rest

-- `join`
unfoldable pub join : List String → String → String
join [] sep = ""
join (s ∷ []) sep = s
join (s ∷ t ∷ rest) sep = s <> (sep <> join (t ∷ rest) sep)

-- `parse::<u64>` and `parse::<usize>`: digits behind an optional `+`, and an error past the word.
unfoldable pub parse_digits : ℕ → ℕ → String → Option ℕ
parse_digits word acc String.[] = some acc
parse_digits word acc (String.◌∷◌ c s) =
    let n = acc * 10 + (code c - 48) in
    let rest = parse_digits word n s in
    if (leb 48 (code c) && leb (code c) 57) && ltb n word then rest else none

unfoldable pub parse_nonempty : ℕ → String → Option ℕ
unfolding parse_digits
parse_nonempty word s = if is_empty s then none else parse_digits word 0 s

unfoldable pub parse_uint : ℕ → String → Option ℕ
unfolding parse_nonempty
parse_uint word String.[] = none
parse_uint word (String.◌∷◌ c s) =
    if code c == 43 then parse_nonempty word s else parse_nonempty word (String.◌∷◌ c s)

abbrev digit : ℕ → String
digit n =
    if n == 0
    then "0"
    else if n == 1
    then "1"
    else if n == 2
    then "2"
    else if n == 3
    then "3"
    else if n == 4
    then "4"
    else if n == 5
    then "5"
    else if n == 6
    then "6"
    else if n == 7
    then "7"
    else if n == 8
    then "8"
    else "9"

-- `{n}` of a number with at most as many digits as the fuel.
unfoldable pub show_digits : ℕ → ℕ → String
show_digits zero n = ""
show_digits (suc fuel) n =
    let rest = show_digits fuel (n / 10) in if ltb n 10 then digit n else rest <> digit (n % 10)

-- A 64-bit number has at most twenty digits.
unfoldable pub show : ℕ → String
unfolding show_digits
show n = show_digits 20 n

-- The bytes of a text in UTF-8 before its first NUL.
unfoldable pub nul_position : String → ℕ
nul_position String.[] = 0
nul_position (String.◌∷◌ c s) =
    let rest = nul_position s in
    if code c == 0
    then 0
    else (if ltb (code c) 0x80
        then 1
        else if ltb (code c) 0x800
        then 2
        else if ltb (code c) 0x10000
        then 3
        else 4)
      + rest

-- `NulError`, as `CString::new` reports it.
unfoldable pub nul_error : String → String
unfolding show nul_position
nul_error s = "nul byte found in provided data at position: " <> show (nul_position s)

-- `to_ascii_uppercase`, as the codes of the characters, and `contains` on them.
abbrev ascii_upper : Char → ℕ
ascii_upper c = if leb 97 (code c) && leb (code c) 122 then code c - 32 else code c

unfoldable pub upper_starts : String → String → Bool
upper_starts s String.[] = true
upper_starts String.[] (String.◌∷◌ p pattern) = false
upper_starts (String.◌∷◌ c s) (String.◌∷◌ p pattern) =
    ascii_upper c == code p && upper_starts s pattern

unfoldable pub upper_contains : String → String → Bool
unfolding upper_starts
upper_contains String.[] pattern = upper_starts String.[] pattern
upper_contains (String.◌∷◌ c s) pattern =
    upper_starts (String.◌∷◌ c s) pattern || upper_contains s pattern
