-- ===== src/Config/Load.antt =====
-- `loadDotEnv` of server/internal/config/dotenv.go, over an environment of keys and values.
use arran.Prelude.{ℕ, suc, String, Option, none, some, List, [], ◌∷◌, ◌==◌, if◌then◌else◌}
use arran.Prelude.Text.{trim_space, text_append}
use arran.World.Monad.{Error, ok, err, failure, not_found}
use arran.Csv.Digits.{format_nat}
use arran.Config.{Platform, Assignment, parse_dot_env_line}

abbrev pub Environment : Type 0
Environment = List (String × String)

-- `os.LookupEnv`
unfoldable pub lookup_env : String → Environment → Option String
lookup_env key [] = none
lookup_env key ((name, value) ∷ rest) =
    let found = lookup_env key rest in if name == key then some value else found

-- A file, as `os.Open` and the scanner see it: none, one that does not open, or its lines with the
-- error of the scanner at their end.
pub data File : Type 0 where
  missing : Error → File
  closed : Error → File
  opened : List String → Option Error → File

abbrev pub Outcome : Type 0
Outcome = Option Error × Environment

abbrev pub line_error : String → ℕ → Error → Error
line_error path number (failure text) = failure (
    text_append "load " (
      text_append path
        (text_append " line " (text_append (format_nat number) (text_append ": " text)))))
line_error path number not_found = not_found

abbrev pub set_unless : Option String → Platform → String → String → String → Environment → Outcome
set_unless (some old) platform path key value env = (none, env)
set_unless none platform path key value env =
    if platform.accepts key value
    then (none, (key, value) ∷ env)
    else (some (failure (text_append "set " (text_append key (text_append " from " path)))), env)

-- One assignment: a variable that exists is left.
unfoldable pub set_new : Platform → String → String → String → Environment → Outcome
unfolding lookup_env text_append
set_new platform path key value env = set_unless (lookup_env key env) platform path key value env

abbrev pub set_parsed : Platform → String → ℕ → Assignment → Environment → Outcome
set_parsed platform path number (err e) env = (some (line_error path number e), env)
set_parsed platform path number (ok none) env = (none, env)
set_parsed platform path number (ok (some (key, value))) env = set_new platform path key value env

abbrev pub and_then : Outcome → (Environment → Outcome) → Outcome
and_then (some e, env) rest = (some e, env)
and_then (none, env) rest = rest env

-- The loop over the lines, and the scanner's error after it.
unfoldable pub load_lines :
    Platform → String → ℕ → List String → Option Error → Environment → Outcome
unfolding parse_dot_env_line set_new format_nat text_append
load_lines platform path number [] error env = (error, env)
load_lines platform path number (line ∷ lines) error env =
    let rest = load_lines platform path (suc number) lines error in
    and_then (set_parsed platform path number (parse_dot_env_line platform line) env) rest

-- `loadDotEnvFile`
unfoldable pub load_file : Platform → String → File → Environment → Outcome
unfolding load_lines
load_file platform path (missing error) env = (some error, env)
load_file platform path (closed error) env = (some error, env)
load_file platform path (opened lines error) env = load_lines platform path 1 lines error env

abbrev pub found_or : Platform → String → File → Environment → Outcome → Outcome
found_or platform path (missing error) env rest = rest
found_or platform path file env rest = load_file platform path file env

-- The loop over `.env` and `../.env`: a file that does not exist is passed over.
unfoldable pub load_first : Platform → (String → File) → List String → Environment → Outcome
unfolding load_file
load_first platform files [] env = (none, env)
load_first platform files (path ∷ paths) env =
    found_or platform path (files path) env (load_first platform files paths env)

abbrev pub or_empty : Option String → String
or_empty none = ""
or_empty (some value) = value

abbrev pub default_paths : List String
default_paths = ".env" ∷ "../.env" ∷ []

-- `loadDotEnv`
unfoldable pub load_dot_env : Platform → (String → File) → Environment → Outcome
unfolding lookup_env load_file load_first trim_space
load_dot_env platform files env =
    let path = trim_space (or_empty (lookup_env "ENV_FILE" env)) in
    if path == ""
    then load_first platform files default_paths env
    else load_file platform path (files path) env
