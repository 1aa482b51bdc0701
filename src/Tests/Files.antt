-- ===== src/Tests/Files.antt =====
-- A whole file through the import, with a library that knows its bytes.
use arran.Prelude.{◌≡◌, refl, String, false, some, List, [], ◌∷◌}
use arran.Prelude.Int.{pos}
use arran.World.Monad.{ok, err, failure}
use arran.Domain.{Transaction}
use arran.Prelude.{arith}
use arran.Prelude.Text.{trim_space, has_prefix, member}
use arran.Csv.Digits.{format_int, is_digit}
use arran.Csv.Amount.{parse_amount, signed, is_removed}
use arran.Csv.Amount.RoundTrip.{Decorates, done, same, extra, wide, parse_amount-Decorates}
use arran.Csv.Dates.{Date, is_date, format_date, parse_date}
use arran.Csv.Dates.RoundTrip.{Canonical, parse_date-Canonical, parse_date-format_date}
use arran.Csv.Merchant.{categorize, normalize_merchant}
use arran.Csv.Rows.{Library, Options}
use arran.Csv.Parse.{ParseResult, parse, decode}
use arran.Csv.Parse.Accounts.{Accounts, parse-Accounts}
use arran.Repository.Transactions.{upsert_rule, rules_of}
use arran.Application.Imports.Remembered.{categorize-upsert_rule}
use arran.Tests.{noon}

abbrev id : String → String
id s = s

abbrev header : List String
header = "日付" ∷ "摘要" ∷ "金額" ∷ []

abbrev rows : List (List String)
rows = ("2026/11/03" ∷ "カフェ 本店 12" ∷ "￥650" ∷ []) ∷ ("2026/11/31" ∷ "家賃" ∷ "80000" ∷ []) ∷ []

abbrev pub library : Library
library = record {
  lower = id;
  quote = id;
  digest = id;
  read_records = λ text. ok (header ∷ rows);
  utf8 = λ bytes. some "file";
  shift_jis = λ bytes. err (failure "");
}

abbrev options : Options
options = record {
  mapping = record {
    date_column = "";
    description_column = "";
    amount_column = "";
    debit_column = "";
    credit_column = "";
  };
  source = "";
  source_account_name = "";
  merchant_rules = ("カフェ", "学習") ∷ [];
  now = some noon;
  clock = noon;
}

abbrev cafe : Transaction
cafe = record {
  id = 0;
  transaction_date = "2026-11-03";
  description = "カフェ 本店 12";
  normalized_merchant = "カフェ 本";
  amount = pos 650;
  transaction_type = "expense";
  category = "外食";
  source = "csv";
  source_account_name = "";
  fingerprint = "2026-11-03|650|カフェ 本|csv|";
  imported_at = "2026-11-26T03:00:00Z";
  raw_data = some (("日付", "2026/11/03") ∷ ("摘要", "カフェ 本店 12") ∷ ("金額", "￥650") ∷ []);
}

abbrev parsed_file : ParseResult
parsed_file = record {
  encoding = "UTF-8";
  headers = header;
  mapping = record {
    date_column = "日付";
    description_column = "摘要";
    amount_column = "金額";
    debit_column = "";
    credit_column = "";
  };
  needs_mapping = false;
  transactions = cafe ∷ [];
  warnings = "3行目: 日付 2026/11/31 を解釈できません" ∷ [];
}

file_parsed : parse library options (65 ∷ []) ≡ ok parsed_file
unfolding parse
file_parsed = refl

parse-Accounts_example : Accounts library 2 (parse library options (65 ∷ []))
unfolding decode member
parse-Accounts_example =
    parse-Accounts library options (65 ∷ []) "file" "UTF-8" header rows (refl, tt) refl refl

-- `￥1,2３4円`: separators, signs and a digit in full width.
abbrev decorated : String
decorated = " ￥1,2３4円 "

decorated-Decorates : Decorates (format_int (pos 1234)) (trim_space decorated)
unfolding format_int trim_space is_removed is_digit
decorated-Decorates =
    extra "￥" refl (
      same "1"
        (extra "," refl (same "2" (wide "3" "３" refl refl (same "4" (extra "円" refl done))))))

parse_amount-Decorates_example : parse_amount id decorated ≡ ok (pos 1234)
unfolding trim_space has_prefix signed
parse_amount-Decorates_example =
    parse_amount-Decorates id (pos 1234) decorated (omega arith, omega arith) decorated-Decorates

parse_date-Canonical_example : Canonical id (parse_date id "29-Feb-2024")
parse_date-Canonical_example = parse_date-Canonical id "29-Feb-2024"

abbrev leap_day : Date
leap_day = record { year = 2024; month = 2; day = 29 }

parse_date-format_date_example : parse_date id (format_date leap_day) ≡ ok (format_date leap_day)
unfolding is_date
parse_date-format_date_example = parse_date-format_date id leap_day refl

categorize-upsert_rule_example :
    categorize id "カフェ" (rules_of 7 (upsert_rule 7 "カフェ" "学習" "2026-11-26T03:00:00Z" [])) ≡ "学習"
unfolding normalize_merchant
categorize-upsert_rule_example =
    categorize-upsert_rule id 7 "カフェ" "学習" "2026-11-26T03:00:00Z" [] refl refl
