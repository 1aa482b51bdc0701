-- ===== src/Handler/Ids.antt =====
-- The ids of paths in server/internal/handler/handler.go.
use arran.Prelude.{ℕ, zero, suc, ◌≤◌, ◌<◌, ◌^◌, ◌≡◌, ◌↔◌, ap, String, Option, none, some, arith}
use arran.Prelude.Int.{ℤ, pos, negsuc}
use arran.Csv.Digits.{parse_int, format_nat, format_int}
use arran.Csv.Digits.RoundTrip.{parse_int-format_int}
use arran.Csv.Amount.Bounds.{SomeInRange, parse_int-SomeInRange}
use arran.Handler.{positive_id, parse_id}

abbrev IsId : ℕ → Type 0
IsId n = (1 ≤ n) × (n < 2 ^ 63)

parse_id-format_nat : (n : ℕ) → IsId n → parse_id (format_nat n) ≡ some n
unfolding parse_id format_int
parse_id-format_nat zero h = ground arith
parse_id-format_nat (suc n) h =
    ap positive_id (parse_int-format_int (pos (suc n)) (h.1, omega arith))

positive_id-IsId : (z : Option ℤ) (n : ℕ) → SomeInRange z → positive_id z ≡ some n → IsId n
positive_id-IsId none n h e = ground arith
positive_id-IsId (some (pos zero)) n h e = ground arith
positive_id-IsId (some (pos (suc m))) n h e = ground arith
positive_id-IsId (some (negsuc m)) n h e = ground arith

-- The ids that parseID reads from some text are exactly the numbers from 1 to the greatest int64.
pub parse_id_range :
    (n : ℕ) → ((1 ≤ n) × (n < 2 ^ 63)) ↔ ((text : String) × (parse_id text ≡ some n))
unfolding parse_id
parse_id_range n = (
  λ h. (format_nat n, parse_id-format_nat n h),
  λ (text, e). positive_id-IsId (parse_int text) n (parse_int-SomeInRange text) e,
)
