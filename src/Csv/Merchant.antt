-- ===== src/Csv/Merchant.antt =====
-- `NormalizeMerchant`, `Categorize` and `Fingerprint` of importer.go. Lower case in all of Unicode
-- and SHA-256 are parameters.
pub mod Known
use Prim.Native.Char.{Char, code}
use Prim.Native.String.{String, [], ◌∷◌}
use arran.Prelude.{
  ℕ, Bool, true, false, not, ◌&&◌, ◌||◌, Option, none, some, List, ◌==◌, eqb, leb, ltb,
  if◌then◌else◌, map,
}
use arran.Prelude.Text.{trim_space, fields_from, join, has_prefix, drop_prefix, contains}
use arran.Prelude.Int.{ℤ}
use arran.Csv.Digits.{is_digit, format_int}

-- `\s` of a regular expression
unfoldable pub is_blank : ℕ → Bool
is_blank c = leb 9 c && leb c 10 || leb 12 c && leb c 13 || eqb c b' '

-- `[0-9０-９-]`
unfoldable pub is_branch_digit : ℕ → Bool
is_branch_digit c = leb b'0' c && leb c b'9' || leb 0xff10 c && leb c 0xff19 || eqb c b'-'

unfoldable pub all_branch_digits : String → Bool
unfolding is_branch_digit
all_branch_digits [] = true
all_branch_digits (c ∷ s) = is_branch_digit (code c) && all_branch_digits s

-- `\s*[0-9０-９-]+$`
unfoldable pub number_end : String → Bool
unfolding all_branch_digits is_blank
number_end [] = false
number_end (c ∷ s) =
    let rest = number_end s in
    if is_blank (code c) then rest else is_branch_digit (code c) && all_branch_digits s

abbrev pub after_word : String → String → Bool
after_word word s = has_prefix s word && number_end (drop_prefix s word)

-- `(支店|店|店舗)?\s*[0-9０-９-]+$`
unfoldable pub branch_end : String → Bool
unfolding number_end has_prefix drop_prefix
branch_end s = number_end s || after_word "支店" s || after_word "店" s || after_word "店舗" s

-- `[\s\u3000]*(支店|店|店舗)?\s*[0-9０-９-]+$`: a space that is skipped before the word is skipped before
-- the digits as well, so the blanks can all be taken first.
unfoldable pub suffix_matches : String → Bool
unfolding branch_end
suffix_matches [] = false
suffix_matches (c ∷ s) =
    let rest = suffix_matches s in
    if is_blank (code c) || eqb (code c) 0x3000 then rest else branch_end (c ∷ s)

-- `re.ReplaceAllString(s, "")`: the leftmost match goes to the end of the text.
unfoldable pub drop_suffix : String → String
unfolding suffix_matches
drop_suffix [] = []
drop_suffix (c ∷ s) = let rest = drop_suffix s in if suffix_matches (c ∷ s) then [] else c ∷ rest

-- `NormalizeMerchant`
unfoldable pub normalize_merchant : (String → String) → String → String
unfolding trim_space fields_from join drop_suffix
normalize_merchant lower description =
    trim_space (drop_suffix (join " " (fields_from "" (lower (trim_space description)))))

-- The rules of `Categorize`: the category of the first with a keyword in the text.
abbrev pub keyword_rules : List (List String × String)
keyword_rules =
    List.◌∷◌
      (
        List.◌∷◌ "居酒屋" (List.◌∷◌ "bar" (List.◌∷◌ "ビール" (List.◌∷◌ "ワイン" (List.◌∷◌ "鳥貴族" List.[])))),
        "酒・飲み会",
      )
      (List.◌∷◌
        (
          List.◌∷◌ "netflix"
              (List.◌∷◌ "spotify" (List.◌∷◌ "apple.com/bill" (List.◌∷◌ "subscription" List.[]))),
          "サブスクリプション",
        )
        (List.◌∷◌
          (
            List.◌∷◌ "コンビニ" (
                List.◌∷◌ "セブン" (List.◌∷◌ "lawson" (List.◌∷◌ "ローソン" (List.◌∷◌ "ファミリーマート" List.[])))),
            "コンビニ",
          )
          (List.◌∷◌
            (
              List.◌∷◌ "タクシー" (List.◌∷◌ "taxi" (List.◌∷◌ "uber trip" (List.◌∷◌ "go taxi" List.[]))),
              "タクシー",
            )
            (List.◌∷◌
              (
                List.◌∷◌ "jr"
                    (List.◌∷◌ "suica" (List.◌∷◌ "pasmo" (List.◌∷◌ "鉄道" (List.◌∷◌ "交通" List.[])))),
                "交通",
              )
              (List.◌∷◌
                (List.◌∷◌ "書籍" (List.◌∷◌ "book" (List.◌∷◌ "udemy" (List.◌∷◌ "技術書" List.[]))), "学習")
                (List.◌∷◌
                  (List.◌∷◌ "病院" (List.◌∷◌ "クリニック" (List.◌∷◌ "薬局" (List.◌∷◌ "ジム" List.[]))), "健康")
                  (List.◌∷◌
                    (
                      List.◌∷◌ "レストラン" (
                          List.◌∷◌ "食堂"
                            (List.◌∷◌ "カフェ" (List.◌∷◌ "cafe" (List.◌∷◌ "restaurant" List.[])))),
                      "外食",
                    )
                    (List.◌∷◌ (List.◌∷◌ "スーパー" (List.◌∷◌ "market" (List.◌∷◌ "食品" List.[])), "食費")
                      (List.◌∷◌ (List.◌∷◌ "amazon" (List.◌∷◌ "楽天" (List.◌∷◌ "百貨店" List.[])), "買い物")
                        (List.◌∷◌ (List.◌∷◌ "映画" (List.◌∷◌ "cinema" (List.◌∷◌ "ゲーム" List.[])), "娯楽")
                          List.[]))))))))))

unfoldable pub any_keyword : (String → String) → String → List String → Bool
unfolding contains
any_keyword lower text List.[] = false
any_keyword lower text (List.◌∷◌ keyword keywords) =
    contains text (lower keyword) || any_keyword lower text keywords

unfoldable pub keyword_category : (String → String) → String → List (List String × String) → String
unfolding any_keyword
keyword_category lower text List.[] = "未分類"
keyword_category lower text (List.◌∷◌ (keywords, category) rules) =
    if any_keyword lower text keywords then category else keyword_category lower text rules

-- A missing key of the map reads as the empty text.
unfoldable pub rule_for : String → List (String × String) → String
rule_for merchant List.[] = ""
rule_for merchant (List.◌∷◌ (key, category) rules) =
    if key == merchant then category else rule_for merchant rules

-- The category of the user's rule, or that of the keywords.
unfoldable pub category_or : (String → String) → String → String → String
unfolding keyword_category
category_or lower normalized category =
    if not (category == "") then category else keyword_category lower normalized keyword_rules

-- `Categorize`
unfoldable pub categorize : (String → String) → String → List (String × String) → String
unfolding normalize_merchant category_or rule_for
categorize lower merchant rules =
    let normalized = normalize_merchant lower merchant in
    category_or lower normalized (rule_for normalized rules)

-- `Fingerprint`: the digest of the parts, joined by bars.
unfoldable pub fingerprint :
    (String → String) → (String → String) → String → ℤ → String → String → String → String
unfolding join format_int normalize_merchant trim_space
fingerprint lower digest date amount description source account = digest (
    join "|" (
      List.◌∷◌ date (
        List.◌∷◌ (format_int amount) (
          List.◌∷◌ (normalize_merchant lower description) (
            List.◌∷◌ (lower (trim_space source))
              (List.◌∷◌ (lower (trim_space account)) List.[]))))))
