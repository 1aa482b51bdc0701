-- ===== src/Auth/Password.antt =====
-- server/internal/auth/password.go. The base64 decoding and PBKDF2-SHA256 are parameters: the first
-- gives bytes or an error, the second a key or an error.
use Prim.Native.String.{len}
use arran.Prelude.{
  ℕ, String, Bool, true, false, ◌||◌, ◌&&◌, not, Option, none, some, List, [], ◌∷◌, eqb, ltb,
  if◌then◌else◌, length,
}
use arran.Prelude.Text.{has_prefix, trim_prefix, split_at, text_append}

-- `base64.RawStdEncoding` and `pbkdf2.Key` with the fixed rounds.
pub record Crypto : Type 0 where
  pub decode : String → Option (List ℕ)
  pub encode : List ℕ → String
  pub derive : String → List ℕ → Option (List ℕ)

abbrev pub password_prefix : String
password_prefix = "pbkdf2-sha256$600000$"

unfoldable pub same_bytes : List ℕ → List ℕ → Bool
same_bytes [] [] = true
same_bytes (x ∷ xs) (y ∷ ys) = eqb x y && same_bytes xs ys
same_bytes _ _ = false

-- The decoded bytes, if there are as many as wanted.
unfoldable pub decode_exactly : Crypto → ℕ → String → Option (List ℕ)
decode_exactly crypto n text = elim (crypto.decode text) [
  | none ↦ none
  | some bytes ↦ if eqb (length bytes) n then some bytes else none
]

unfoldable pub check_key : Crypto → String → Option (List ℕ) → Option (List ℕ) → Bool
unfolding same_bytes
check_key crypto password (some salt) (some expected) = elim (crypto.derive password salt) [
  | none ↦ false
  | some actual ↦ same_bytes actual expected
]
check_key crypto password _ _ = false

unfoldable pub check_parts : Crypto → String → List String → Bool
unfolding check_key decode_exactly
check_parts crypto password (salt ∷ key ∷ []) =
    check_key crypto password (decode_exactly crypto 16 salt) (decode_exactly crypto 32 key)
check_parts crypto password _ = false

-- `VerifyPassword`
unfoldable pub verify_password : Crypto → String → String → Bool
unfolding check_parts has_prefix trim_prefix split_at
verify_password crypto encoded password =
    if ltb 1024 (len password) || not (has_prefix encoded password_prefix)
    then false
    else check_parts crypto password (split_at "$" (trim_prefix encoded password_prefix))

-- `HashPassword` with the random salt it draws; `none` is its error.
unfoldable pub hash_password : Crypto → List ℕ → String → Option String
unfolding text_append
hash_password crypto salt password =
    if ltb (len password) 12 || ltb 1024 (len password)
    then none
    else elim (crypto.derive password salt) [
      | none ↦ none
      | some key ↦ some (
          text_append password_prefix
            (text_append (crypto.encode salt) (text_append "$" (crypto.encode key))))
    ]
