-- ===== src/Csv/Rows.antt =====
-- `normalizeRecord` of importer.go: from the fields of a row to a transaction.
pub mod Accepted
use arran.Prelude.{
  ℕ, zero, suc, String, Bool, not, Option, none, some, List, [], ◌∷◌, ◌==◌, if◌then◌else◌,
}
use arran.Prelude.Text.{trim_space}
use arran.Prelude.Int.{ℤ, pos, ltb_ℤ, eqb_ℤ}
use arran.World.Monad.{Result, ok, err, failure}
use arran.Domain.{Transaction, CsvMapping, Moment}
use arran.Csv.Amount.{negate, parse_amount}
use arran.Csv.Dates.{parse_date}
use arran.Csv.Merchant.{normalize_merchant, categorize, fingerprint}
use arran.Csv.Columns.{ColumnIndexes}

-- What the import takes from Go's library and golang.org/x/text: lower case in Unicode,
-- `strconv.Quote`, SHA-256 in hexadecimal, the CSV reader, the UTF-8 check with the text of valid
-- bytes, and the Shift_JIS decoder; those that fail do so with a text.
pub record Library : Type 0 where
  pub lower : String → String
  pub quote : String → String
  pub digest : String → String
  pub read_records : String → Result (List (List String))
  pub utf8 : List ℕ → Option String
  pub shift_jis : List ℕ → Result (List ℕ)

-- `Options`; `now` is `none` for the zero time, in place of which the clock is read.
pub record Options : Type 0 where
  pub mapping : CsvMapping
  pub source : String
  pub source_account_name : String
  pub merchant_rules : List (String × String)
  pub now : Option Moment
  pub clock : Moment

infixl 5 ◌>>=◌
abbrev pub ◌>>=◌ : {A B : Type 0} → Result A → (A → Result B) → Result B
ok a >>= f = f a
err e >>= f = err e

unfoldable pub field_at : ℕ → List String → String
field_at i [] = ""
field_at zero (field ∷ fields) = field
field_at (suc i) (field ∷ fields) = field_at i fields

-- `valueAt`
unfoldable pub value_at : Option ℕ → List String → String
unfolding field_at trim_space
value_at none fields = ""
value_at (some i) fields = trim_space (field_at i fields)

-- `abs`
unfoldable pub abs : ℤ → ℤ
unfolding negate
abs n = if ltb_ℤ n (pos 0) then negate n else n

-- An amount with the type of its transaction.
unfoldable pub split_amount : ℤ → String × ℤ
unfolding negate
split_amount n = if ltb_ℤ n (pos 0) then ("income", negate n) else ("expense", n)

unfoldable pub debit_or_credit : ℤ → ℤ → Result (String × ℤ)
unfolding abs
debit_or_credit debit credit =
    if not (eqb_ℤ debit (pos 0))
    then ok ("expense", abs debit)
    else if not (eqb_ℤ credit (pos 0))
    then ok ("income", abs credit)
    else err (failure "入出金額が空です")

-- Without an amount column; an error of the debit goes before one of the credit.
unfoldable pub amount_of :
    (String → String) → ColumnIndexes → Option ℕ → List String → Result (String × ℤ)
unfolding parse_amount value_at split_amount debit_or_credit
amount_of quote indexes (some i) fields = do
  n ← parse_amount quote (value_at (some i) fields)
  ok (split_amount n)
amount_of quote indexes none fields = do
  debit ← parse_amount quote (value_at indexes.debit fields)
  credit ← parse_amount quote (value_at indexes.credit fields)
  debit_or_credit debit credit

unfoldable pub or_csv : String → String
or_csv source = if source == "" then "csv" else source

abbrev pub or_clock : Moment → Option Moment → Moment
or_clock clock none = clock
or_clock clock (some now) = now

-- The transaction of a row whose parts have been read.
unfoldable pub row_transaction :
    Library → Options → List (String × String) → String → String → String × ℤ → Transaction
unfolding normalize_merchant categorize fingerprint trim_space or_csv
row_transaction library options raw date description (transaction_type, amount) =
    let merchant = normalize_merchant library.lower description in
    let source = or_csv (trim_space options.source) in
    let account = trim_space options.source_account_name in
    record {
      id = 0;
      transaction_date = date;
      description = description;
      normalized_merchant = merchant;
      amount = amount;
      transaction_type = transaction_type;
      category = categorize library.lower merchant options.merchant_rules;
      source = source;
      source_account_name = account;
      fingerprint = fingerprint library.lower library.digest date amount description source account;
      imported_at = (or_clock options.clock options.now).rfc3339;
      raw_data = some raw;
    }

-- The checks on a description and an amount.
unfoldable pub not_empty : String → Result (Unit {0})
not_empty description = if description == "" then err (failure "摘要が空です") else ok tt

unfoldable pub not_zero : ℤ → Result (Unit {0})
not_zero amount = if eqb_ℤ amount (pos 0) then err (failure "金額が0円です") else ok tt

-- `normalizeRecord`, whose warning is always empty.
unfoldable pub normalize_record :
    Library → Options → ColumnIndexes → List (String × String) → List String → Result Transaction
unfolding value_at parse_date amount_of not_empty not_zero row_transaction
normalize_record library options indexes raw fields =
    let description = value_at (some indexes.description) fields in
    parse_date library.quote (value_at (some indexes.date) fields) >>= λ date.
    not_empty description >>= λ _.
    amount_of library.quote indexes indexes.amount fields >>= λ typed.
    not_zero typed.1 >>= λ _. ok (row_transaction library options raw date description typed)
