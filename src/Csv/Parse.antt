-- ===== src/Csv/Parse.antt =====
-- `Decode` and `Parse` of importer.go.
pub mod Accounts
use arran.Prelude.{
  ℕ, ◌+◌, String, Bool, true, false, not, ◌&&◌, ◌||◌, Option, none, some, List, [], ◌∷◌, ◌++◌, ◌==◌,
  eqb, if◌then◌else◌,
}
use arran.Prelude.Text.{trim_space, text_append}
use arran.World.Monad.{Error, Result, ok, err, failure, not_found}
use arran.Domain.{Transaction, CsvMapping}
use arran.Csv.Digits.{format_nat}
use arran.Csv.Columns.{ColumnIndexes, detect_columns, normalize_headers, mapping_indexes}
use arran.Csv.Rows.{Library, Options, ◌>>=◌, field_at, normalize_record}

pub record ParseResult : Type 0 where
  pub encoding : String
  pub headers : List String
  pub mapping : CsvMapping
  pub needs_mapping : Bool
  pub transactions : List Transaction
  pub warnings : List String

-- The text of an error.
abbrev pub error_text : Error → String
error_text not_found = "spendable today: not found"
error_text (failure text) = text

-- `bytes.TrimPrefix` of the byte order mark
unfoldable pub trim_mark : List ℕ → List ℕ
trim_mark (a ∷ b ∷ c ∷ rest) =
    if eqb a 0xef && eqb b 0xbb && eqb c 0xbf then rest else a ∷ b ∷ c ∷ rest
trim_mark bytes = bytes

abbrev pub from_shift_jis : Library → Result (List ℕ) → Result (String × String)
from_shift_jis library (err e) =
    err (failure (text_append "Shift_JIS/CP932をUTF-8へ変換できません: " (error_text e)))
from_shift_jis library (ok decoded) = elim (library.utf8 decoded) [
  | none ↦ err (failure "文字コードを判定できません")
  | some text ↦ ok (text, "Shift_JIS/CP932")
]

-- `Decode`
unfoldable pub decode : Library → List ℕ → Result (String × String)
unfolding trim_mark text_append
decode library bytes =
    let data' = trim_mark bytes in
    let other = from_shift_jis library (library.shift_jis data') in
    elim (library.utf8 data') [ none ↦ other | some text ↦ ok (text, "UTF-8") ]

-- `raw[header] = value`
unfoldable pub set_raw : String → String → List (String × String) → List (String × String)
set_raw key value [] = (key, value) ∷ []
set_raw key value ((k, v) ∷ raw) =
    if k == key then (key, value) ∷ raw else (k, v) ∷ set_raw key value raw

-- The row by header, from the column with this index on.
unfoldable pub raw_row :
    ℕ → List String → List String → List (String × String) → List (String × String)
unfolding set_raw field_at trim_space
raw_row i [] fields raw = raw
raw_row i (header ∷ headers) fields raw =
    raw_row (i + 1) headers fields (set_raw header (trim_space (field_at i fields)) raw)

-- The warning of a row by its line in the file.
unfoldable pub row_warning : ℕ → Error → String
unfolding format_nat text_append
row_warning line e = text_append (format_nat line) (text_append "行目: " (error_text e))

abbrev pub add_row : ℕ → Result Transaction → ParseResult → ParseResult
add_row line (ok item) result = record result { transactions = result.transactions ++ item ∷ [] }
add_row line (err e) result = record result {
  warnings = result.warnings ++ row_warning line e ∷ [];
}

-- The loop over the rows after the header, from this line on.
unfoldable pub parse_rows :
    Library
    → Options
    → List String
    → ColumnIndexes
    → ℕ
    → List (List String)
    → ParseResult
    → ParseResult
unfolding normalize_record raw_row row_warning
parse_rows library options headers indexes line [] result = result
parse_rows library options headers indexes line (fields ∷ rows) result =
    parse_rows library options headers indexes (line + 1) rows (
      add_row line (normalize_record library options indexes (raw_row 0 headers fields []) fields)
        result)

-- The mapping that was asked for, or the detected one where no column but the credit's is named.
unfoldable pub chosen_mapping : CsvMapping → List String → CsvMapping
unfolding detect_columns
chosen_mapping mapping headers =
    if mapping.date_column == ""
      && mapping.description_column == ""
      && mapping.amount_column == ""
      && mapping.debit_column == ""
    then detect_columns headers
    else mapping

unfoldable pub is_incomplete : CsvMapping → Bool
is_incomplete mapping =
    mapping.date_column == ""
    || mapping.description_column == ""
    || mapping.amount_column == "" && mapping.debit_column == "" && mapping.credit_column == ""

-- The file whose columns are known.
unfoldable pub parse_mapped :
    Library → Options → List String → List (List String) → ParseResult → Result ParseResult
unfolding mapping_indexes parse_rows
parse_mapped library options headers rows result =
    mapping_indexes headers result.mapping >>= λ indexes.
    ok (parse_rows library options headers indexes 2 rows result)

-- The records of the file: the header and the rows.
unfoldable pub parse_records : Library → Options → String → List (List String) → Result ParseResult
unfolding normalize_headers chosen_mapping is_incomplete parse_mapped
parse_records library options encoding [] = err (failure "CSVが空です")
parse_records library options encoding ([] ∷ rows) = err (failure "ヘッダーがありません")
parse_records library options encoding ((name ∷ names) ∷ rows) =
    let headers = normalize_headers (name ∷ names) in
    let mapping = chosen_mapping options.mapping headers in
    let result : ParseResult = record {
      encoding = encoding;
      headers = headers;
      mapping = mapping;
      needs_mapping = is_incomplete mapping;
      transactions = [];
      warnings = [];
    } in
    if is_incomplete mapping then ok result else parse_mapped library options headers rows result

abbrev pub read_error : Result (List (List String)) → Result (List (List String))
read_error (ok records) = ok records
read_error (err e) = err (failure (text_append "CSVを解析できません: " (error_text e)))

-- `Parse`
unfoldable pub parse : Library → Options → List ℕ → Result ParseResult
unfolding decode parse_records text_append
parse library options bytes = decode library bytes >>= λ decoded.
    read_error (library.read_records decoded.0) >>= λ records.
    parse_records library options decoded.1 records
