-- ===== src/Tests/Csv.antt =====
-- The parts of a CSV import on concrete texts; lower case is left out where it changes nothing.
use arran.Prelude.{◌≡◌, refl, String, [], ◌∷◌}
use arran.Prelude.Int.{pos, negsuc}
use arran.World.Monad.{ok, err, failure}
use arran.Csv.Amount.{parse_amount}
use arran.Csv.Dates.{parse_date}
use arran.Csv.Merchant.{normalize_merchant, categorize}

abbrev id : String → String
id s = s

yen_amount : parse_amount id " ￥1,234円 " ≡ ok (pos 1234)
unfolding parse_amount
yen_amount = refl

wide_amount : parse_amount id "－１２" ≡ ok (negsuc 11)
unfolding parse_amount
wide_amount = refl

parenthesised_amount : parse_amount id "(500)" ≡ ok (negsuc 499)
unfolding parse_amount
parenthesised_amount = refl

fraction_refused : parse_amount id "12.5" ≡ err (failure "金額 12.5 を解釈できません")
unfolding parse_amount
fraction_refused = refl

japanese_date : parse_date id " 2026年2月9日 " ≡ ok "2026-02-09"
unfolding parse_date
japanese_date = refl

leap_date : parse_date id "29-fEb-2024" ≡ ok "2024-02-29"
unfolding parse_date
leap_date = refl

no_leap_date : parse_date id "2023/02/29" ≡ err (failure "日付 2023/02/29 を解釈できません")
unfolding parse_date
no_leap_date = refl

branch_dropped : normalize_merchant id " カフェ  本店 12" ≡ "カフェ 本"
unfolding normalize_merchant
branch_dropped = refl

one_number_dropped : normalize_merchant id "カフェ 1 2" ≡ "カフェ 1"
unfolding normalize_merchant
one_number_dropped = refl

rule_missed : categorize id "カフェ 1" (("カフェ 1", "学習") ∷ []) ≡ "外食"
unfolding categorize
rule_missed = refl
