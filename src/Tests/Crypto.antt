-- ===== src/Tests/Crypto.antt =====
-- A toy encoding in place of base64 and of PBKDF2, which has the laws they are relied on for.
use Prim.Native.String.{String, [], ◌∷◌, len}
use Prim.Native.Char.{code}
use arran.Prelude.{
  ℕ, zero, suc, ◌%◌, ◌<◌, ◌≡◌, refl, ap, sym, ◌∙◌, true, Option, none, some, List, eqb, arith, All,
  length, if◌then◌else◌,
}
use mathlib.Core.Path.{subst}
use arran.Auth.Password.{Crypto}
use arran.Auth.RoundTrip.{no_dollar, CryptoLaws}

-- A number in unary, up to a `b`.
unfoldable pub encode_byte : ℕ → String → String
encode_byte zero s = "b" ∷ s
encode_byte (suc n) s = "a" ∷ encode_byte n s

unfoldable pub encode : List ℕ → String
encode List.[] = []
encode (List.◌∷◌ n ns) = encode_byte n (encode ns)

unfoldable pub cons_zero : Option (List ℕ) → Option (List ℕ)
cons_zero none = none
cons_zero (some ns) = some (List.◌∷◌ 0 ns)

unfoldable pub bump : Option (List ℕ) → Option (List ℕ)
bump (some (List.◌∷◌ n ns)) = some (List.◌∷◌ (suc n) ns)
bump _ = none

unfoldable pub decode : String → Option (List ℕ)
unfolding cons_zero bump
decode [] = some List.[]
decode (c ∷ s) =
    let rest = decode s in if eqb (code c) (code "b") then cons_zero rest else bump rest

decode-encode_byte :
    (n : ℕ) (s : String) (ns : List ℕ)
    → decode s ≡ some ns
    → decode (encode_byte n s) ≡ some (List.◌∷◌ n ns)
unfolding decode encode_byte cons_zero bump
decode-encode_byte zero s ns h = ap cons_zero h
decode-encode_byte (suc n) s ns h = ap bump (decode-encode_byte n s ns h)

decode-encode : (ns : List ℕ) → decode (encode ns) ≡ some ns
unfolding decode encode
decode-encode List.[] = refl
decode-encode (List.◌∷◌ n ns) = decode-encode_byte n (encode ns) ns (decode-encode ns)

no_dollar-encode_byte :
    (n : ℕ) (s : String) → no_dollar s ≡ true → no_dollar (encode_byte n s) ≡ true
unfolding no_dollar encode_byte
no_dollar-encode_byte zero s h = h
no_dollar-encode_byte (suc n) s h = no_dollar-encode_byte n s h

no_dollar-encode : (ns : List ℕ) → no_dollar (encode ns) ≡ true
unfolding no_dollar encode
no_dollar-encode List.[] = refl
no_dollar-encode (List.◌∷◌ n ns) = no_dollar-encode_byte n (encode ns) (no_dollar-encode ns)

-- As many times the number.
abbrev pub times : ℕ → ℕ → List ℕ
times zero n = List.[]
times (suc k) n = List.◌∷◌ n (times k n)

pub times-All : (k n : ℕ) → n < 256 → All (λ b. b < 256) (times k n)
times-All zero n h = tt
times-All (suc k) n h = (h, times-All k n h)

length-times : (k n : ℕ) → length (times k n) ≡ k
length-times zero n = refl
length-times (suc k) n = ap suc (length-times k n)

abbrev pub crypto : Crypto
crypto = record {
  decode = decode;
  encode = encode;
  derive = λ password salt. some (times 32 (len password % 256));
}

pub crypto-CryptoLaws : CryptoLaws crypto
crypto-CryptoLaws = record {
  decode-encode = λ ns h. decode-encode ns;
  no_dollar-encode = no_dollar-encode;
  length-derive = λ password salt key h.
      let e : times 32 (len password % 256) ≡ key = ground arith in
      (
        sym (ap length e) ∙ length-times 32 (len password % 256),
        subst (All (λ b. b < 256)) e (times-All 32 (len password % 256) (omega arith)),
      );
}
