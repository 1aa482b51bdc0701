-- ===== src/Auth/RoundTrip.antt =====
-- `HashPassword` and `VerifyPassword` of server/internal/auth/password.go together.
use Prim.Native.String.{String, [], ◌∷◌, len}
use Prim.Native.Char.{code}
use arran.Prelude.{
  ℕ, ◌<◌, All, ◌≡◌, refl, Bool, true, false, ◌&&◌, not, Option, none, some, List, eqb, ltb, arith,
  length, eqb_refl,
}
use arran.Prelude.Text.{has_prefix, drop_prefix, trim_prefix, text_append, split_at, onto_first}
use arran.Prelude.{ap, ◌∙◌, inl, inr, Option-cases}
use arran.Auth.Password.{
  Crypto, password_prefix, same_bytes, decode_exactly, check_key, check_parts, verify_password,
  hash_password,
}

-- A text without the separator of the encoded parts.
unfoldable pub no_dollar : String → Bool
no_dollar [] = true
no_dollar (c ∷ s) = not (eqb (code c) (code "$")) && no_dollar s

has_prefix-append : (p s : String) → has_prefix (text_append p s) p ≡ true
unfolding has_prefix text_append
has_prefix-append [] s = refl
has_prefix-append (c ∷ p) s = ground (arith, has_prefix-append p s, eqb_refl (code c))

drop_prefix-append : (p s : String) → drop_prefix (text_append p s) p ≡ s
unfolding drop_prefix text_append
drop_prefix-append [] s = refl
drop_prefix-append (c ∷ p) s = drop_prefix-append p s

split_at-no_dollar : (s : String) → no_dollar s ≡ true → split_at "$" s ≡ List.◌∷◌ s List.[]
unfolding split_at onto_first no_dollar
split_at-no_dollar [] h = refl
split_at-no_dollar (c ∷ s) h = ground (arith, split_at-no_dollar s)

split_at-append :
    (s t : String)
    → no_dollar s ≡ true
    → no_dollar t ≡ true
    → split_at "$" (text_append s ("$" ∷ t)) ≡ List.◌∷◌ s (List.◌∷◌ t List.[])
unfolding split_at onto_first no_dollar text_append
split_at-append [] t h k = ground (arith, split_at-no_dollar t k)
split_at-append (c ∷ s) t h k = ground (arith, split_at-append s t)

same_bytes_refl : (xs : List ℕ) → same_bytes xs xs ≡ true
unfolding same_bytes
same_bytes_refl List.[] = refl
same_bytes_refl (List.◌∷◌ x xs) = ground (arith, eqb_refl x, same_bytes_refl xs)

-- What the base64 encoding and the key derivation are relied on for: the encoding decodes again
-- and has no `$`, and a key is 32 bytes.
pub record CryptoLaws (crypto : Crypto) : Type 0 where
  pub decode-encode :
      (bytes : List ℕ) → All (λ b. b < 256) bytes → crypto.decode (crypto.encode bytes) ≡ some bytes
  pub no_dollar-encode : (bytes : List ℕ) → no_dollar (crypto.encode bytes) ≡ true
  pub length-derive :
      (password : String) (salt key : List ℕ)
      → crypto.derive password salt ≡ some key
      → (length key ≡ 32) × All (λ b. b < 256) key

abbrev same_key : Option (List ℕ) → List ℕ → Bool
same_key (some a) b = same_bytes a b
same_key none b = false

abbrev encoded_with : Crypto → List ℕ → List ℕ → String
encoded_with crypto salt key =
    text_append password_prefix
      (text_append (crypto.encode salt) (text_append "$" (crypto.encode key)))

decode_exactly-encode :
    (crypto : Crypto) (laws : CryptoLaws crypto) (n : ℕ) (bytes : List ℕ)
    → All (λ b. b < 256) bytes
    → length bytes ≡ n
    → decode_exactly crypto n (crypto.encode bytes) ≡ some bytes
unfolding decode_exactly
decode_exactly-encode crypto laws n bytes all h = ground (arith, laws.decode-encode bytes all)

check_key-same_key :
    (crypto : Crypto) (attempt : String) (salt key : List ℕ)
    → check_key crypto attempt (some salt) (some key) ≡ same_key (crypto.derive attempt salt) key
unfolding check_key
check_key-same_key crypto attempt salt key = ground arith

trim_prefix-append : (p s : String) → trim_prefix (text_append p s) p ≡ s
unfolding trim_prefix
trim_prefix-append p s = rw (trim_prefix, has_prefix-append p s, drop_prefix-append p s)

verify_password-prefixed :
    (crypto : Crypto) (encoded attempt : String)
    → has_prefix encoded password_prefix ≡ true
    → verify_password crypto encoded attempt ≡ (
        not (ltb 1024 (len attempt))
        && check_parts crypto attempt (split_at "$" (trim_prefix encoded password_prefix)))
unfolding verify_password
verify_password-prefixed crypto encoded attempt h = ground arith

check_parts-encode :
    (crypto : Crypto) (laws : CryptoLaws crypto) (salt key : List ℕ) (attempt : String)
    → All (λ b. b < 256) salt
    → All (λ b. b < 256) key
    → length salt ≡ 16
    → length key ≡ 32
    → check_parts crypto attempt
        (List.◌∷◌ (crypto.encode salt) (List.◌∷◌ (crypto.encode key) List.[]))
      ≡ same_key (crypto.derive attempt salt) key
unfolding check_parts
check_parts-encode crypto laws salt key attempt a b n m = rw (
  decode_exactly-encode crypto laws 16 salt a n,
  decode_exactly-encode crypto laws 32 key b m,
  check_key-same_key crypto attempt salt key,
)

-- The check of an encoded key.
verify_password-encoded_with :
    (crypto : Crypto) (laws : CryptoLaws crypto) (salt key : List ℕ) (attempt : String)
    → All (λ b. b < 256) salt
    → All (λ b. b < 256) key
    → length salt ≡ 16
    → length key ≡ 32
    → verify_password crypto (encoded_with crypto salt key) attempt
      ≡ (not (ltb 1024 (len attempt)) && same_key (crypto.derive attempt salt) key)
unfolding text_append
verify_password-encoded_with crypto laws salt key attempt a b n m =
    let tail = text_append (crypto.encode salt) ("$" ∷ crypto.encode key) in
    let long = not (ltb 1024 (len attempt)) in
    verify_password-prefixed crypto (text_append password_prefix tail) attempt
      (has_prefix-append password_prefix tail)
    ∙ ap (λ s. long && check_parts crypto attempt (split_at "$" s))
        (trim_prefix-append password_prefix tail)
    ∙ ap (λ parts. long && check_parts crypto attempt parts)
        (split_at-append (crypto.encode salt) (crypto.encode key) (laws.no_dollar-encode salt)
          (laws.no_dollar-encode key))
    ∙ ap (λ x. long && x) (check_parts-encode crypto laws salt key attempt a b n m)

-- With the laws of the encoding and the key derivation, and a salt of 16 bytes: a password that was
-- hashed is accepted with its hash.
pub verify_password-hash_password :
    (crypto : Crypto) (laws : CryptoLaws crypto) (salt : List ℕ) (password encoded : String)
    → All (λ b. b < 256) salt
    → length salt ≡ 16
    → hash_password crypto salt password ≡ some encoded
    → verify_password crypto encoded password ≡ true
unfolding hash_password
verify_password-hash_password crypto laws salt password encoded a n h =
    elim (Option-cases (crypto.derive password salt)) [
      | inl e ↦ ground arith
      | inr (key, e) ↦ ground (
        arith,
        verify_password-encoded_with crypto laws salt key password a
            (laws.length-derive password salt key e).1 n (laws.length-derive password salt key e).0,
        same_bytes_refl key,
      )
    ]
