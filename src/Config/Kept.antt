-- ===== src/Config/Kept.antt =====
-- What `loadDotEnv` of server/internal/config/dotenv.go does to the environment.
use arran.Prelude.{
  ℕ, suc, ◌≡◌, refl, ap, ◌⊎◌, inl, inr, String, Bool, true, false, ◌||◌, Option, none, some, List,
  ◌==◌, if◌then◌else◌, arith, eq_iff, Bool-cases,
}
use arran.Prelude.Text.{trim_space, has_prefix}
use arran.World.Monad.{Error, Result, ok, err}
use arran.Config.{
  Platform, Assignment, assigned, cut, without_export, valid_env_key, parse_assignment,
  parse_dot_env_line, parse_value,
}
use arran.Config.Load.{
  Environment, lookup_env, File, missing, closed, opened, Outcome, set_unless, set_new, set_parsed,
  and_then, load_lines, load_file, found_or, load_first, default_paths, load_dot_env, or_empty,
}

-- Every variable of `before` keeps its value, and a variable of `after` that has another value than
-- before has a valid key.
pub record Grows (platform : Platform) (before after : Environment) : Type 0 where
  pub kept :
      (key value : String) → lookup_env key before ≡ some value → lookup_env key after ≡ some value
  pub valid :
      (key value : String)
      → lookup_env key after ≡ some value
      → (lookup_env key before ≡ some value) ⊎ (valid_env_key platform key ≡ true)

module _ (platform : Platform) where
  Grows-refl : (env : Environment) → Grows platform env env
  Grows-refl env = record { kept = λ key value h. h; valid = λ key value h. inl h }

  Grows-trans : (a b c : Environment) → Grows platform a b → Grows platform b c → Grows platform a c
  Grows-trans a b c g h = record {
    kept = λ key value e. h.kept key value (g.kept key value e);
    valid =
        λ key value e. elim (h.valid key value e) [ inl e' ↦ g.valid key value e' | inr v ↦ inr v ];
  }

  add-Grows :
      (key value : String) (env : Environment)
      → valid_env_key platform key ≡ true
      → lookup_env key env ≡ none
      → Grows platform env (List.◌∷◌ (key, value) env)
  unfolding lookup_env
  add-Grows key value env v new = record {
    kept = λ name old e.
        ground (arith, eq_iff key name, λ (same : key ≡ name). ap (λ k. lookup_env k env) same);
    valid = λ name found e.
        ground
          (arith, eq_iff key name, λ (same : key ≡ name). ap (λ k. valid_env_key platform k) same);
  }

  set_unless-Grows :
      (found : Option String) (path key value : String) (env : Environment)
      → valid_env_key platform key ≡ true
      → lookup_env key env ≡ found
      → Grows platform env (set_unless found platform path key value env).1
  set_unless-Grows (some old) path key value env v e = Grows-refl env
  set_unless-Grows none path key value env v e = elim (Bool-cases (platform.accepts key value)) [
    | inl a ↦ rw a (add-Grows key value env v e)
    | inr a ↦ rw a (Grows-refl env)
  ]

  set_new-Grows :
      (path key value : String) (env : Environment)
      → valid_env_key platform key ≡ true
      → Grows platform env (set_new platform path key value env).1
  unfolding set_new
  set_new-Grows path key value env v =
      set_unless-Grows (lookup_env key env) path key value env v refl

-- The key of an assignment that is read.
abbrev IsValid : Platform → Assignment → Type 0
IsValid platform (ok (some (key, value))) = valid_env_key platform key ≡ true
IsValid platform (ok none) = Unit
IsValid platform (err e) = Unit

assigned-IsValid :
    (platform : Platform) (key : String) (value : Result String)
    → valid_env_key platform key ≡ true
    → IsValid platform (assigned key value)
assigned-IsValid platform key (ok value) v = v
assigned-IsValid platform key (err e) v = tt

if-IsValid :
    (platform : Platform) (b : Bool) (x y : Assignment)
    → (b ≡ true → IsValid platform x)
    → (b ≡ false → IsValid platform y)
    → IsValid platform (if b then x else y)
if-IsValid platform true x y f g = f refl
if-IsValid platform false x y f g = g refl

parse_assignment-IsValid :
    (platform : Platform) (parts : Option (String × String))
    → IsValid platform (parse_assignment platform parts)
unfolding parse_assignment
parse_assignment-IsValid platform none = tt
parse_assignment-IsValid platform (some (key, value)) =
    if-IsValid platform (valid_env_key platform (trim_space key)) _ _
      (assigned-IsValid platform (trim_space key) (parse_value platform (trim_space value)))
      (λ _. tt)

parse_dot_env_line-IsValid :
    (platform : Platform) (text : String) → IsValid platform (parse_dot_env_line platform text)
unfolding parse_dot_env_line
parse_dot_env_line-IsValid platform text =
    let line = trim_space text in
    if-IsValid platform (line == "" || has_prefix line "#") _ _ (λ _. tt)
      (λ _. parse_assignment-IsValid platform (cut (without_export line)))

module _ (platform : Platform) where
  set_parsed-Grows :
      (path : String) (number : ℕ) (parsed : Assignment) (env : Environment)
      → IsValid platform parsed
      → Grows platform env (set_parsed platform path number parsed env).1
  set_parsed-Grows path number (ok (some (key, value))) env v =
      set_new-Grows platform path key value env v
  set_parsed-Grows path number (ok none) env v = Grows-refl platform env
  set_parsed-Grows path number (err e) env v = Grows-refl platform env

  and_then-Grows :
      (env : Environment) (first : Outcome) (rest : Environment → Outcome)
      → Grows platform env first.1
      → ((between : Environment) → Grows platform between (rest between).1)
      → Grows platform env (and_then first rest).1
  and_then-Grows env (some e, between) rest g f = g
  and_then-Grows env (none, between) rest g f = Grows-trans platform env between _ g (f between)

  load_lines-Grows :
      (path : String) (number : ℕ) (lines : List String) (error : Option Error) (env : Environment)
      → Grows platform env (load_lines platform path number lines error env).1
  unfolding load_lines
  load_lines-Grows path number List.[] error env = Grows-refl platform env
  load_lines-Grows path number (List.◌∷◌ line lines) error env =
      and_then-Grows env _ _
        (set_parsed-Grows path number (parse_dot_env_line platform line) env
          (parse_dot_env_line-IsValid platform line))
        (load_lines-Grows path (suc number) lines error)

  load_file-Grows :
      (path : String) (file : File) (env : Environment)
      → Grows platform env (load_file platform path file env).1
  unfolding load_file
  load_file-Grows path (missing e) env = Grows-refl platform env
  load_file-Grows path (closed e) env = Grows-refl platform env
  load_file-Grows path (opened lines error) env = load_lines-Grows path 1 lines error env

  found-Grows :
      (path : String) (file : File) (env : Environment) (rest : Outcome)
      → Grows platform env rest.1
      → Grows platform env (found_or platform path file env rest).1
  found-Grows path (missing e) env rest g = g
  found-Grows path (closed e) env rest g = load_file-Grows path (closed e) env
  found-Grows path (opened lines error) env rest g = load_file-Grows path (opened lines error) env

  load_first-Grows :
      (files : String → File) (paths : List String) (env : Environment)
      → Grows platform env (load_first platform files paths env).1
  unfolding load_first
  load_first-Grows files List.[] env = Grows-refl platform env
  load_first-Grows files (List.◌∷◌ path paths) env =
      found-Grows path (files path) env _ (load_first-Grows files paths env)

  if-Grows :
      (b : Bool) (env : Environment) (x y : Outcome)
      → Grows platform env x.1
      → Grows platform env y.1
      → Grows platform env (if b then x else y).1
  if-Grows true env x y g h = g
  if-Grows false env x y g h = h

-- For every platform, files and environment, whether it succeeds or fails: loadDotEnv leaves the
-- value of every variable that there was, and a variable that has another value than before has a
-- valid key.
pub load_dot_env-Grows :
    (platform : Platform) (files : String → File) (env : Environment)
    → Grows platform env (load_dot_env platform files env).1
unfolding load_dot_env
load_dot_env-Grows platform files env =
    let path = trim_space (or_empty (lookup_env "ENV_FILE" env)) in
    if-Grows platform (path == "") env (load_first platform files default_paths env)
      (load_file platform path (files path) env) (load_first-Grows platform files default_paths env)
      (load_file-Grows platform path (files path) env)
