-- ===== src/Prelude/Text.antt =====
-- Go's `strings` functions that the program calls, over native texts.
use Prim.Native.Char.{Char, code}
use Prim.Native.String.{String, [], ◌∷◌}
use Prim.Native.Nat.{ℕ, zero, suc}
use mathlib.Core.Bool.{Bool, true, false, ◌&&◌, ◌||◌}
use mathlib.Core.List.{List}
use text.Mathlib.Text.{◌==◌}
use arran.Prelude.Tests.{ltb, leb, eqb, if◌then◌else◌}

-- `unicode.IsSpace`
unfoldable pub is_space : ℕ → Bool
is_space c =
    leb 9 c && leb c 13
    || eqb c 32
    || eqb c 0x85
    || eqb c 0xA0
    || eqb c 0x1680
    || leb 0x2000 c && leb c 0x200a
    || eqb c 0x2028
    || eqb c 0x2029
    || eqb c 0x202f
    || eqb c 0x205f
    || eqb c 0x3000

unfoldable pub trim_left : String → String
unfolding is_space
trim_left [] = []
trim_left (c ∷ s) = if is_space (code c) then trim_left s else c ∷ s

unfoldable pub trim_right : String → String
unfolding is_space
trim_right [] = []
trim_right (c ∷ s) =
    let rest = trim_right s in if is_space (code c) && rest == "" then [] else c ∷ rest

-- `strings.TrimSpace`
unfoldable pub trim_space : String → String
unfolding trim_left trim_right
trim_space s = trim_right (trim_left s)

-- `strings.HasPrefix(s, p)`
unfoldable pub has_prefix : String → String → Bool
has_prefix s [] = true
has_prefix [] (d ∷ p) = false
has_prefix (c ∷ s) (d ∷ p) = eqb (code c) (code d) && has_prefix s p

-- `strings.Contains(s, p)`
unfoldable pub contains : String → String → Bool
unfolding has_prefix
contains [] p = p == ""
contains (c ∷ s) p = has_prefix (c ∷ s) p || contains s p

-- `s < t` on strings: the order of UTF-8 bytes is that of code points.
unfoldable pub str_lt : String → String → Bool
str_lt s [] = false
str_lt [] (d ∷ t) = true
str_lt (c ∷ s) (d ∷ t) = ltb (code c) (code d) || eqb (code c) (code d) && str_lt s t

-- `slices.Contains(list, x)`
unfoldable pub member : String → List String → Bool
member x List.[] = false
member x (List.◌∷◌ y ys) = y == x || member x ys

-- `substr(s, 1, n)`
unfoldable pub text_take : ℕ → String → String
text_take zero s = []
text_take (suc n) [] = []
text_take (suc n) (c ∷ s) = c ∷ text_take n s

-- `s + t`
unfoldable pub text_append : String → String → String
text_append [] t = t
text_append (c ∷ s) t = c ∷ text_append s t

-- `strings.TrimPrefix(s, p)`, where `s` begins with `p`; the whole of `s` otherwise.
unfoldable pub drop_prefix : String → String → String
drop_prefix s [] = s
drop_prefix [] (d ∷ p) = []
drop_prefix (c ∷ s) (d ∷ p) = drop_prefix s p

unfoldable pub trim_prefix : String → String → String
unfolding drop_prefix has_prefix
trim_prefix s p = if has_prefix s p then drop_prefix s p else s

-- Puts a character before the first of some texts.
unfoldable pub onto_first : Char → List String → List String
onto_first c List.[] = List.◌∷◌ (c ∷ []) List.[]
onto_first c (List.◌∷◌ t ts) = List.◌∷◌ (c ∷ t) ts

-- `strings.Split(s, sep)` at a separator of one character
unfoldable pub split_at : Char → String → List String
unfolding onto_first
split_at sep [] = List.◌∷◌ [] List.[]
split_at sep (c ∷ s) =
    let rest = split_at sep s in
    if eqb (code c) (code sep) then List.◌∷◌ [] rest else onto_first c rest

-- The n-th character as a text.
unfoldable pub nth_text : ℕ → String → String
nth_text n [] = []
nth_text zero (c ∷ s) = c ∷ []
nth_text (suc n) (c ∷ s) = nth_text n s

-- `strings.HasSuffix(s, t)` for a text of one character
unfoldable pub ends_with : Char → String → Bool
ends_with d [] = false
ends_with d (c ∷ []) = eqb (code c) (code d)
ends_with d (c ∷ e ∷ s) = ends_with d (e ∷ s)

-- `strings.Join(texts, sep)`
unfoldable pub join : String → List String → String
unfolding text_append
join sep List.[] = []
join sep (List.◌∷◌ t List.[]) = t
join sep (List.◌∷◌ t (List.◌∷◌ u ts)) = text_append t (text_append sep (join sep (List.◌∷◌ u ts)))

-- `strings.Fields`: the first argument is the field that is being read.
unfoldable pub fields_from : String → String → List String
unfolding is_space text_append
fields_from [] [] = List.[]
fields_from field [] = List.◌∷◌ field List.[]
fields_from [] (c ∷ s) = fields_from (if is_space (code c) then [] else c ∷ []) s
fields_from (b ∷ field) (c ∷ s) =
    let next = fields_from [] s in
    let more = fields_from (b ∷ text_append field (c ∷ [])) s in
    if is_space (code c) then List.◌∷◌ (b ∷ field) next else more
