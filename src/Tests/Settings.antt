-- ===== src/Tests/Settings.antt =====
-- A file of settings, of which one is set already.
use arran.Prelude.{◌≡◌, refl, String, true, leb, ◌||◌, ◌&&◌, none, some, [], ◌∷◌}
use arran.World.Monad.{ok, failure}
use arran.Config.{Platform, parse_dot_env_line}
use arran.Config.Load.{Environment, File, opened, load_dot_env}
use arran.Config.Kept.{Grows, load_dot_env-Grows}

abbrev platform : Platform
platform = record {
  is_letter = λ c. leb b'A' c && leb c b'Z' || leb b'a' c && leb c b'z';
  is_digit = λ c. leb b'0' c && leb c b'9';
  unquote = λ text. none;
  accepts = λ key value. true;
}

abbrev settings_file : String → File
settings_file path =
    opened ("# local" ∷ "export PORT = 8080 # web" ∷ "MODE='a #b'" ∷ "1X=2" ∷ []) none

abbrev before : Environment
before = ("PORT", "80") ∷ []

loaded : load_dot_env platform settings_file before ≡ (
  some (failure "load .env line 4: invalid environment assignment"),
  ("MODE", "a #b") ∷ ("PORT", "80") ∷ [],
)
unfolding load_dot_env
loaded = refl

-- The last byte of the katakana is that of a space.
cut_short : parse_dot_env_line platform "ALBUM=アルバム#1" ≡ ok (some ("ALBUM", "アルバム"))
unfolding parse_dot_env_line
cut_short = refl

load_dot_env-Grows_example : Grows platform before (load_dot_env platform settings_file before).1
load_dot_env-Grows_example = load_dot_env-Grows platform settings_file before
