-- ===== src/Config.antt =====
-- server/internal/config/dotenv.go: the settings that a file adds to the process environment.
pub mod Load
pub mod Kept
use Prim.Native.Char.{Char, code}
use Prim.Native.String.{String, [], ◌∷◌}
use arran.Prelude.{
  ℕ, ◌+◌, ◌%◌, Bool, true, false, not, ◌&&◌, ◌||◌, Option, none, some, List, ◌==◌, ltb, eqb,
  if◌then◌else◌,
}
use arran.Prelude.Text.{is_space, trim_space, has_prefix, trim_prefix, ends_with, text_append}
use arran.World.Monad.{Result, ok, err, failure}
use arran.Csv.Digits.{format_nat}

-- What of Go the program calls: `unicode.IsLetter`, `unicode.IsDigit`, `strconv.Unquote`, and
-- whether `os.Setenv` accepts a key and a value.
pub record Platform : Type 0 where
  pub is_letter : ℕ → Bool
  pub is_digit : ℕ → Bool
  pub unquote : String → Option String
  pub accepts : String → String → Bool

abbrev pub onto_key : Char → Option (String × String) → Option (String × String)
onto_key c none = none
onto_key c (some (key, rest)) = some (c ∷ key, rest)

-- `strings.Cut(line, "=")`, where "=" is found
unfoldable pub cut : String → Option (String × String)
cut [] = none
cut (c ∷ s) = let rest = cut s in if eqb (code c) b'=' then some ([], s) else onto_key c rest

abbrev pub is_key_start : Platform → ℕ → Bool
is_key_start platform c = eqb c b'_' || platform.is_letter c

unfoldable pub is_key_rest : Platform → String → Bool
is_key_rest platform [] = true
is_key_rest platform (c ∷ s) =
    (is_key_start platform (code c) || platform.is_digit (code c)) && is_key_rest platform s

-- `validEnvKey`
unfoldable pub valid_env_key : Platform → String → Bool
unfolding is_key_rest
valid_env_key platform [] = false
valid_env_key platform (c ∷ s) = is_key_start platform (code c) && is_key_rest platform s

-- The last byte of a character in UTF-8.
abbrev pub last_byte : Char → ℕ
last_byte c = if ltb (code c) 0x80 then code c else 0x80 + code c % 0x40

-- The text before the first `#` that comes after a byte which is a space as a code point, with the
-- character before the rest.
unfoldable pub before_comment : Char → String → String
unfolding is_space
before_comment before [] = []
before_comment before (c ∷ s) =
    let rest = before_comment c s in
    if eqb (code c) b'#' && is_space (last_byte before) then [] else c ∷ rest

-- `stripInlineComment`
unfoldable pub strip_inline_comment : String → String
unfolding before_comment trim_space
strip_inline_comment [] = []
strip_inline_comment (c ∷ s) = trim_space (c ∷ before_comment c s)

-- A text without its last character.
unfoldable pub drop_last : String → String
drop_last [] = []
drop_last (c ∷ []) = []
drop_last (c ∷ d ∷ s) = c ∷ drop_last (d ∷ s)

abbrev pub unquoted : Option String → Result String
unquoted none = err (failure "invalid double-quoted value")
unquoted (some value) = ok value

-- The value of an assignment, without the spaces around it.
unfoldable pub parse_value : Platform → String → Result String
unfolding strip_inline_comment ends_with drop_last
parse_value platform [] = ok ""
parse_value platform (c ∷ s) =
    if eqb (code c) b'\''
    then (if ends_with "'" s
        then ok (drop_last s)
        else err (failure "unterminated single-quoted value"))
    else if eqb (code c) b'"'
    then unquoted (platform.unquote (c ∷ s))
    else ok (strip_inline_comment (c ∷ s))

abbrev pub Assignment : Type 0
Assignment = Result (Option (String × String))

abbrev pub invalid_assignment : Assignment
invalid_assignment = err (failure "invalid environment assignment")

abbrev pub assigned : String → Result String → Assignment
assigned key (ok value) = ok (some (key, value))
assigned key (err e) = err e

unfoldable pub parse_assignment : Platform → Option (String × String) → Assignment
unfolding valid_env_key parse_value trim_space
parse_assignment platform none = invalid_assignment
parse_assignment platform (some (key, value)) =
    if valid_env_key platform (trim_space key)
    then assigned (trim_space key) (parse_value platform (trim_space value))
    else invalid_assignment

abbrev pub without_export : String → String
without_export line =
    if has_prefix line "export " then trim_space (trim_prefix line "export ") else line

-- `parseDotEnvLine`: nothing for an empty line and a comment.
unfoldable pub parse_dot_env_line : Platform → String → Assignment
unfolding parse_assignment cut trim_space has_prefix trim_prefix
parse_dot_env_line platform text =
    let line = trim_space text in
    if line == "" || has_prefix line "#"
    then ok none
    else parse_assignment platform (cut (without_export line))
