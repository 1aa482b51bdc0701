-- ===== src/Csv/Rows/Accepted.antt =====
-- The rows that importer.go accepts.
use arran.Prelude.{
  ℕ, suc, ◌-◌, All, ◌^◌, ◌<◌, ◌≡◌, ◌⊎◌, inl, inr, refl, ap, String, true, false, Option, none, some,
  List, ◌==◌, arith, Bool-cases,
}
use arran.Prelude.Int.{ℤ, pos, negsuc, neg_part, IsInt64, ltb_ℤ, eqb_ℤ, ◌-ℤ◌, wrap64}
use mathlib.Core.Path.{subst}
use arran.Prelude.Text.{trim_space}
use arran.World.Monad.{Result, ok, err}
use arran.Domain.{Transaction}
use arran.Csv.Amount.{negate, parse_amount}
use arran.Csv.Amount.Bounds.{InRange, parse_amount-InRange, negate-IsInt64}
use arran.Csv.Dates.{parse_date}
use arran.Csv.Dates.RoundTrip.{Canonical, parse_date-Canonical}
use arran.Csv.Merchant.{normalize_merchant, fingerprint}
use arran.Csv.Merchant.Known.{IsKnown, categorize-IsKnown}
use arran.Csv.Columns.{ColumnIndexes}
use arran.Csv.Rows.{
  Library, Options, abs, split_amount, debit_or_credit, amount_of, or_csv, not_empty, not_zero,
  value_at, row_transaction, normalize_record, ◌>>=◌,
}

-- A type with an amount: positive, or the least int64, which has no absolute value.
abbrev pub Typed : String × ℤ → Type 0
Typed (transaction_type, n) =
    ((transaction_type ≡ "expense") ⊎ (transaction_type ≡ "income"))
    × IsInt64 n
    × ((neg_part n ≡ 0) ⊎ (n ≡ negsuc (2 ^ 63 - 1)))

negate_pos : (n : ℕ) → n < 2 ^ 63 → negate (negsuc n) ≡ wrap64 (pos (suc n))
unfolding negate ◌-ℤ◌
negate_pos n h = let e : pos 0 -ℤ negsuc n ≡ pos (suc n) = ground arith in ap wrap64 e

negate_cases :
    (n : ℤ)
    → IsInt64 n
    → ltb_ℤ n (pos 0) ≡ true
    → (neg_part (negate n) ≡ 0) ⊎ (negate n ≡ negsuc (2 ^ 63 - 1))
unfolding wrap64
negate_cases (pos n) h k = absurd (ground arith)
negate_cases (negsuc n) h k = rw (negate_pos n (omega (arith, h))) (ground arith)

split_amount-Typed : (n : ℤ) → IsInt64 n → Typed (split_amount n)
unfolding split_amount
split_amount-Typed n h = elim (Bool-cases (ltb_ℤ n (pos 0))) [
  | inl t ↦ rw t (inr refl, negate-IsInt64 n, negate_cases n h t)
  | inr t ↦ rw t (inl refl, h, inl (ground arith))
]

abs_cases :
    (n : ℤ) → IsInt64 n → IsInt64 (abs n) × ((neg_part (abs n) ≡ 0) ⊎ (abs n ≡ negsuc (2 ^ 63 - 1)))
unfolding abs
abs_cases n h = elim (Bool-cases (ltb_ℤ n (pos 0))) [
  | inl t ↦ rw t (negate-IsInt64 n, negate_cases n h t)
  | inr t ↦ rw t (h, inl (ground arith))
]

abbrev pub TypedResult : Result (String × ℤ) → Type 0
TypedResult (ok typed) = Typed typed
TypedResult (err e) = Unit

debit_or_credit-TypedResult :
    (debit credit : ℤ) → IsInt64 debit → IsInt64 credit → TypedResult (debit_or_credit debit credit)
unfolding debit_or_credit
debit_or_credit-TypedResult debit credit h k = elim (Bool-cases (eqb_ℤ debit (pos 0))) [
  | inr d ↦ rw d (inl refl, (abs_cases debit h).0, (abs_cases debit h).1)
  | inl d ↦ rw d (elim (Bool-cases (eqb_ℤ credit (pos 0))) [
    | inr c ↦ rw c (inr refl, (abs_cases credit k).0, (abs_cases credit k).1)
    | inl c ↦ rw c tt
  ])
]

single-TypedResult : (r : Result ℤ) → InRange r → TypedResult (r >>= λ n. ok (split_amount n))
single-TypedResult (ok n) h = split_amount-Typed n h
single-TypedResult (err e) h = tt

double-TypedResult :
    (r q : Result ℤ)
    → InRange r
    → InRange q
    → TypedResult (r >>= λ debit. q >>= λ credit. debit_or_credit debit credit)
double-TypedResult (ok n) (ok m) h k = debit_or_credit-TypedResult n m h k
double-TypedResult (ok n) (err e) h k = tt
double-TypedResult (err e) q h k = tt

amount_of-TypedResult :
    (quote : String → String) (indexes : ColumnIndexes) (amount : Option ℕ) (fields : List String)
    → TypedResult (amount_of quote indexes amount fields)
unfolding amount_of
amount_of-TypedResult quote indexes (some i) fields =
    single-TypedResult (parse_amount quote (value_at (some i) fields))
      (parse_amount-InRange quote (value_at (some i) fields))
amount_of-TypedResult quote indexes none fields =
    double-TypedResult (parse_amount quote (value_at indexes.debit fields))
      (parse_amount quote (value_at indexes.credit fields))
      (parse_amount-InRange quote (value_at indexes.debit fields))
      (parse_amount-InRange quote (value_at indexes.credit fields))

-- A transaction as an import makes it: a date of the calendar in the one form, a description, an
-- amount that is not 0 with its type, a known category, a source, and the fingerprint of these.
abbrev pub IsImported : Library → Transaction → Type 0
IsImported library item =
    Canonical library.quote (ok item.transaction_date)
    × ((item.description == "") ≡ false)
    × (item.normalized_merchant ≡ normalize_merchant library.lower item.description)
    × Typed (item.transaction_type, item.amount)
    × (eqb_ℤ item.amount (pos 0) ≡ false)
    × IsKnown item.category
    × ((item.source == "") ≡ false)
    × (item.fingerprint
        ≡ fingerprint library.lower library.digest item.transaction_date item.amount
            item.description item.source item.source_account_name)

abbrev pub Accepted : Library → Result Transaction → Type 0
Accepted library (ok item) = IsImported library item
Accepted library (err e) = Unit

bind-Accepted :
    {A : Type 0} (library : Library) (r : Result A) (f : A → Result Transaction)
    → ((a : A) → r ≡ ok a → Accepted library (f a))
    → Accepted library (r >>= f)
bind-Accepted library (ok a) f h = h a refl
bind-Accepted library (err e) f h = tt

or_csv_ne : (source : String) → (or_csv source == "") ≡ false
unfolding or_csv
or_csv_ne source = elim (Bool-cases (source == "")) [ inl t ↦ rw t refl | inr t ↦ rw t t ]

not_empty-ok : (description : String) → not_empty description ≡ ok tt → (description == "") ≡ false
unfolding not_empty
not_empty-ok description h = ground arith

not_zero-ok : (n : ℤ) → not_zero n ≡ ok tt → eqb_ℤ n (pos 0) ≡ false
unfolding not_zero
not_zero-ok n h = ground arith

-- Where the rules have known categories, a row that is not refused gives such a transaction.
pub normalize_record-Accepted :
    (library : Library) (options : Options) (indexes : ColumnIndexes) (raw : List (String × String))
    (fields : List String)
    → All (λ rule. IsKnown rule.1) options.merchant_rules
    → Accepted library (normalize_record library options indexes raw fields)
unfolding normalize_record row_transaction
normalize_record-Accepted library options indexes raw fields known =
    let description = value_at (some indexes.description) fields in
    let cell = value_at (some indexes.date) fields in
    bind-Accepted library (parse_date library.quote cell) _ (λ date d.
      bind-Accepted library (not_empty description) _ (λ u e.
        bind-Accepted library (amount_of library.quote indexes indexes.amount fields) _ (λ typed a.
          bind-Accepted library (not_zero typed.1) _ (λ v z. (
            subst (Canonical library.quote) d (parse_date-Canonical library.quote cell),
            not_empty-ok description e,
            refl,
            subst TypedResult a (amount_of-TypedResult library.quote indexes indexes.amount fields),
            not_zero-ok typed.1 z,
            categorize-IsKnown library.lower (normalize_merchant library.lower description)
                options.merchant_rules known,
            or_csv_ne (trim_space options.source),
            refl,
          )))))
