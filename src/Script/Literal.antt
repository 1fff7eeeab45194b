-- ===== src/Script/Literal.antt =====
-- src/load.rs and src/to_duckdb.rs: the escape of a path in a SQL string literal.
use Prim.Native.Char.{Char, code}
use laterite_duckdb.Base.{
  ◌<>◌, ◌≡◌, refl, String, Bool, true, false, Option, none, some, inl, inr, Bool-cases, ◌==◌,
  nat_eq, if◌then◌else◌,
}
use laterite_duckdb.Base.Text.{double_quotes}
use mathlib.Core.Option
use text.Mathlib.TextLemmas.{nil-append, cons-append}

abbrev pub quote : Char
quote = "'"

abbrev is_quote : Char → Bool
is_quote c = code c == 39

abbrev push : Char → String × String → String × String
push c (text, rest) = (String.◌∷◌ c text, rest)

-- A reader of the body of a SQL string literal: the text up to the quote that no other follows, in
-- which a doubled quote stands for one, and what comes after it. The flag is whether a quote came
-- just before.
unfoldable pub read_body : Bool → String → Option (String × String)
read_body false String.[] = none
read_body true String.[] = some ("", "")
read_body false (String.◌∷◌ c s) =
    let closing = read_body true s in
    let next = read_body false s in if is_quote c then closing else Option.map (push c) next
read_body true (String.◌∷◌ c s) =
    let next = read_body false s in
    if is_quote c then Option.map (push c) next else some ("", String.◌∷◌ c s)

-- What follows does not go on with a quote.
abbrev pub Ends : String → Type 0
Ends String.[] = Unit
Ends (String.◌∷◌ d rest) = is_quote d ≡ false

closed : (rest : String) → Ends rest → read_body true rest ≡ some ("", rest)
unfolding read_body
closed String.[] h = refl
closed (String.◌∷◌ d rest) h = rw h

-- The escaped text, closed by a quote that no other follows, reads back as the text: no path can
-- end its literal early.
pub read_body-double_quotes :
    (s rest : String)
    → Ends rest
    → read_body false (double_quotes s <> (String.◌∷◌ quote rest)) ≡ some (s, rest)
unfolding read_body double_quotes
read_body-double_quotes String.[] rest h = rw (nil-append (String.◌∷◌ quote rest)) (closed rest h)
read_body-double_quotes (String.◌∷◌ c s) rest h = elim (Bool-cases (is_quote c)) [
  | inl doubled ↦
      rw
        (
          doubled,
          cons-append c (String.◌∷◌ c (double_quotes s)) (String.◌∷◌ quote rest),
          cons-append c (double_quotes s) (String.◌∷◌ quote rest),
          read_body,
        )
        (rw (doubled, read_body) (rw (read_body-double_quotes s rest h)))
  | inr plain ↦
      rw (plain, cons-append c (double_quotes s) (String.◌∷◌ quote rest), read_body)
        (rw (plain, read_body-double_quotes s rest h))
]
