-- ===== src/Csv/Columns.antt =====
-- The columns of importer.go: `DetectColumns` and `mappingIndexes`.
use Prim.Native.Char.{code}
use Prim.Native.String.{String, [], ◌∷◌}
use arran.Prelude.{
  ℕ, zero, suc, ◌+◌, Bool, true, false, ◌&&◌, Option, none, some, List, ◌==◌, eqb, leb,
  if◌then◌else◌, map,
}
use arran.Prelude.Text.{trim_space, trim_prefix}
use arran.World.Monad.{Result, ok, err, failure}
use arran.Domain.{CsvMapping}

-- Folds a character's case. The letters of the candidates are small ASCII letters, and only these
-- two letters outside ASCII fold to one of them.
unfoldable pub fold_case : ℕ → ℕ
fold_case c =
    if leb b'A' c && leb c b'Z'
    then c + 32
    else if eqb c 0x17f
    then b's'
    else if eqb c 0x212a
    then b'k'
    else c

-- `strings.EqualFold` with a candidate
unfoldable pub equal_fold : String → String → Bool
unfolding fold_case
equal_fold [] [] = true
equal_fold (c ∷ s) (d ∷ t) = eqb (fold_case (code c)) (fold_case (code d)) && equal_fold s t
equal_fold _ _ = false

unfoldable pub header_for : String → List String → Option String
unfolding equal_fold trim_space
header_for candidate List.[] = none
header_for candidate (List.◌∷◌ header headers) =
    if equal_fold (trim_space header) candidate then some header else header_for candidate headers

-- `detect`: the first candidate that is a header.
unfoldable pub detect : List String → List String → String
unfolding header_for
detect headers List.[] = ""
detect headers (List.◌∷◌ candidate candidates) =
    let rest = detect headers candidates in
    elim (header_for candidate headers) [ none ↦ rest | some header ↦ header ]

-- `columnCandidates`
abbrev pub date_candidates : List String
date_candidates = List.◌∷◌ "日付" (
    List.◌∷◌ "利用日"
      (List.◌∷◌ "ご利用日" (List.◌∷◌ "取引日" (List.◌∷◌ "date" (List.◌∷◌ "transaction_date" List.[])))))

abbrev pub description_candidates : List String
description_candidates = List.◌∷◌ "摘要" (
    List.◌∷◌ "内容" (
      List.◌∷◌ "利用先"
        (List.◌∷◌ "ご利用先" (List.◌∷◌ "加盟店名" (List.◌∷◌ "description" (List.◌∷◌ "merchant" List.[]))))))

abbrev pub amount_candidates : List String
amount_candidates =
    List.◌∷◌ "金額" (List.◌∷◌ "利用金額" (List.◌∷◌ "ご利用金額" (List.◌∷◌ "支払金額" (List.◌∷◌ "amount" List.[]))))

abbrev pub debit_candidates : List String
debit_candidates =
    List.◌∷◌ "出金"
      (List.◌∷◌ "出金額" (List.◌∷◌ "支出" (List.◌∷◌ "debit" (List.◌∷◌ "withdrawal" List.[]))))

abbrev pub credit_candidates : List String
credit_candidates =
    List.◌∷◌ "入金" (List.◌∷◌ "入金額" (List.◌∷◌ "収入" (List.◌∷◌ "credit" (List.◌∷◌ "deposit" List.[]))))

-- `DetectColumns`
unfoldable pub detect_columns : List String → CsvMapping
unfolding detect
detect_columns headers = record {
  date_column = detect headers date_candidates;
  description_column = detect headers description_candidates;
  amount_column = detect headers amount_candidates;
  debit_column = detect headers debit_candidates;
  credit_column = detect headers credit_candidates;
}

-- `normalizeHeaders`; the byte order mark is U+FEFF.
unfoldable pub normalize_headers : List String → List String
unfolding trim_space trim_prefix
normalize_headers headers = map (λ header. trim_space (trim_prefix header "\u{feff}")) headers

abbrev pub next_index : Option ℕ → Option ℕ
next_index none = none
next_index (some i) = some (suc i)

-- `slices.Index`; -1 is `none`.
unfoldable pub index_of : String → List String → Option ℕ
index_of name List.[] = none
index_of name (List.◌∷◌ header headers) =
    let rest = next_index (index_of name headers) in if header == name then some zero else rest

pub record ColumnIndexes : Type 0 where
  pub date : ℕ
  pub description : ℕ
  pub amount : Option ℕ
  pub debit : Option ℕ
  pub credit : Option ℕ

unfoldable pub amount_indexes : ℕ → ℕ → Option ℕ → Option ℕ → Option ℕ → Result ColumnIndexes
amount_indexes date description none none none = err (failure "指定された金額列がありません")
amount_indexes date description amount debit credit = ok (record {
  date = date;
  description = description;
  amount = amount;
  debit = debit;
  credit = credit;
})

abbrev pub all_indexes : Option ℕ → Option ℕ → Option ℕ → Option ℕ → Option ℕ → Result ColumnIndexes
all_indexes (some date) (some description) amount debit credit =
    amount_indexes date description amount debit credit
all_indexes _ _ amount debit credit = err (failure "指定された日付または摘要列がありません")

-- `mappingIndexes`
unfoldable pub mapping_indexes : List String → CsvMapping → Result ColumnIndexes
unfolding index_of amount_indexes
mapping_indexes headers mapping =
    all_indexes (index_of mapping.date_column headers) (index_of mapping.description_column headers)
      (index_of mapping.amount_column headers) (index_of mapping.debit_column headers)
      (index_of mapping.credit_column headers)
