-- ===== src/Csv/Parse/Accounts.antt =====
-- What `Parse` of importer.go makes of the rows of a file.
use arran.Prelude.{
  ℕ, suc, ◌+◌, ◌≡◌, refl, sym, ap, ◌⊎◌, inl, inr, String, true, false, List, [], ◌∷◌, ◌∙◌, arith,
  All, All-append, length, length-append, Bool-cases,
}
use mathlib.Core.Path.{subst}
use arran.World.Monad.{Result, ok, err}
use arran.Domain.{Transaction}
use arran.Csv.Columns.{ColumnIndexes, mapping_indexes, normalize_headers}
use arran.Csv.Merchant.Known.{IsKnown}
use arran.Csv.Rows.{Library, Options, ◌>>=◌, normalize_record}
use arran.Csv.Rows.Accepted.{IsImported, Accepted, normalize_record-Accepted}
use arran.Csv.Parse.{
  ParseResult, decode, read_error, raw_row, row_warning, add_row, parse_rows, parse_mapped,
  parse_records, chosen_mapping, is_incomplete, parse,
}

abbrev counted : ParseResult → ℕ
counted result = length result.transactions + length result.warnings

counted-add_row :
    (line : ℕ) (r : Result Transaction) (result : ParseResult)
    → counted (add_row line r result) ≡ suc (counted result)
counted-add_row line (ok item) result =
    omega (arith, length-append {0} result.transactions (item ∷ []))
counted-add_row line (err e) result =
    omega (arith, length-append {0} result.warnings (row_warning line e ∷ []))

needs_mapping-add_row :
    (line : ℕ) (r : Result Transaction) (result : ParseResult)
    → (add_row line r result).needs_mapping ≡ result.needs_mapping
needs_mapping-add_row line (ok item) result = refl
needs_mapping-add_row line (err e) result = refl

-- The file's columns are not known, and no row is read; or every row is a transaction or a
-- warning. The transactions are as an import makes them.
abbrev pub Accounts : Library → ℕ → Result ParseResult → Type 0
Accounts library rows (ok result) =
    (((result.needs_mapping ≡ true) × (counted result ≡ 0))
      ⊎ ((result.needs_mapping ≡ false) × (counted result ≡ rows)))
    × All (IsImported library) result.transactions
Accounts library rows (err e) = Unit

needs_mapping-parse_rows :
    (library : Library) (options : Options) (headers : List String) (indexes : ColumnIndexes)
    (line : ℕ) (rows : List (List String)) (result : ParseResult)
    → (parse_rows library options headers indexes line rows result).needs_mapping
      ≡ result.needs_mapping
unfolding parse_rows
needs_mapping-parse_rows library options headers indexes line [] result = refl
needs_mapping-parse_rows library options headers indexes line (fields ∷ rows) result =
    let r = normalize_record library options indexes (raw_row 0 headers fields []) fields in
    needs_mapping-parse_rows library options headers indexes (line + 1) rows (add_row line r result)
    ∙ needs_mapping-add_row line r result

module _ (library : Library) (options : Options) where
  counted-parse_rows :
      (headers : List String) (indexes : ColumnIndexes) (line : ℕ) (rows : List (List String))
      (result : ParseResult)
      → counted (parse_rows library options headers indexes line rows result)
        ≡ counted result + length rows
  unfolding parse_rows
  counted-parse_rows headers indexes line [] result = omega arith
  counted-parse_rows headers indexes line (fields ∷ rows) result =
      let r = normalize_record library options indexes (raw_row 0 headers fields []) fields in
      omega (
        arith,
        counted-add_row line r result,
        counted-parse_rows headers indexes (line + 1) rows (add_row line r result),
      )

  add_row-All :
      (line : ℕ) (r : Result Transaction) (result : ParseResult)
      → Accepted library r
      → All (IsImported library) result.transactions
      → All (IsImported library) (add_row line r result).transactions
  add_row-All line (ok item) result h k =
      All-append (IsImported library) result.transactions (item ∷ []) k (h, tt)
  add_row-All line (err e) result h k = k

  module _ (known : All (λ rule. IsKnown rule.1) options.merchant_rules) where
    parse_rows-All :
        (headers : List String) (indexes : ColumnIndexes) (line : ℕ) (rows : List (List String))
        (result : ParseResult)
        → All (IsImported library) result.transactions
        → All
            (IsImported library)
            (parse_rows library options headers indexes line rows result).transactions
    unfolding parse_rows
    parse_rows-All headers indexes line [] result h = h
    parse_rows-All headers indexes line (fields ∷ rows) result h =
        let raw = raw_row 0 headers fields [] in
        let r = normalize_record library options indexes raw fields in
        parse_rows-All headers indexes (line + 1) rows (add_row line r result) (
          add_row-All line r result
            (normalize_record-Accepted library options indexes raw fields known) h)

    indexed-Accounts :
        (headers : List String) (rows : List (List String)) (result : ParseResult)
        (indexes : Result ColumnIndexes)
        → result.needs_mapping ≡ false
        → counted result ≡ 0
        → All (IsImported library) result.transactions
        → Accounts library
            (length rows)
            (indexes >>= λ i. ok (parse_rows library options headers i 2 rows result))
    indexed-Accounts headers rows result (err e) n c h = tt
    indexed-Accounts headers rows result (ok indexes) n c h = (
      inr (
        needs_mapping-parse_rows library options headers indexes 2 rows result ∙ n,
        omega (arith, counted-parse_rows headers indexes 2 rows result, c),
      ),
      parse_rows-All headers indexes 2 rows result h,
    )

    parse_records-Accounts :
        (encoding : String) (header : List String) (rows : List (List String))
        → Accounts library (length rows) (parse_records library options encoding (header ∷ rows))
    unfolding parse_records parse_mapped
    parse_records-Accounts encoding [] rows = tt
    parse_records-Accounts encoding (name ∷ names) rows =
        let headers = normalize_headers (name ∷ names) in
        let mapping = chosen_mapping options.mapping headers in
        elim (Bool-cases (is_incomplete mapping)) [
          | inl t ↦ rw t (inl (refl, refl), tt)
          | inr t ↦ rw t (
              indexed-Accounts headers rows
                (record {
                  encoding = encoding;
                  headers = headers;
                  mapping = mapping;
                  needs_mapping = false;
                  transactions = [];
                  warnings = [];
                })
                (mapping_indexes headers mapping) refl refl tt)
        ]

read-Accounts :
    (library : Library) (options : Options) (decoded : Result (String × String))
    (text encoding : String) (header : List String) (rows : List (List String))
    → All (λ rule. IsKnown rule.1) options.merchant_rules
    → decoded ≡ ok (text, encoding)
    → library.read_records text ≡ ok (header ∷ rows)
    → Accounts library (length rows) (
        decoded >>= λ d. read_error (library.read_records d.0) >>= λ records.
        parse_records library options d.1 records)
read-Accounts library options decoded text encoding header rows known d r =
    let records : read_error (library.read_records text) ≡ ok (header ∷ rows) = ap read_error r in
    subst
      (λ x. Accounts library (length rows) (
        x >>= λ y. read_error (library.read_records y.0) >>= λ records.
        parse_records library options y.1 records))
      (sym d)
      (subst (λ x. Accounts library (length rows) (x >>= parse_records library options encoding))
        (sym records) (parse_records-Accounts library options known encoding header rows))

-- Where the file decodes to a header and rows, and the user's rules have known categories: Parse
-- is an error, or reads no row for want of columns, or makes of every row one transaction or one
-- warning; and each transaction has a date of the calendar in the form 2006-01-02, a description,
-- an amount that is not 0, positive or the least int64, with its type, a known category, a source,
-- and the fingerprint of these.
pub parse-Accounts :
    (library : Library) (options : Options) (bytes : List ℕ) (text encoding : String)
    (header : List String) (rows : List (List String))
    → All (λ rule. IsKnown rule.1) options.merchant_rules
    → decode library bytes ≡ ok (text, encoding)
    → library.read_records text ≡ ok (header ∷ rows)
    → Accounts library (length rows) (parse library options bytes)
unfolding parse
parse-Accounts library options bytes text encoding header rows known d r =
    read-Accounts library options (decode library bytes) text encoding header rows known d r
