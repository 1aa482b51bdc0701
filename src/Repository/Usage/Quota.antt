-- ===== src/Repository/Usage/Quota.antt =====
-- The count of consultations of a user and a month under the statements of postgres/repository.go.
use arran.Prelude.{
  ℕ, suc, ◌-◌, ◌≡◌, refl, inl, inr, String, Bool, true, false, ◌&&◌, List, [], ◌∷◌, ◌==◌, eqb, ltb,
  if◌then◌else◌, arith, any, update_where, All, eq_iff, Bool-cases,
}
use mathlib.Core.Path.{subst₂}
use arran.World.Tables.{UsageRow}
use arran.Repository.Usage.{is_usage, count_in, upsert_usage, is_reserved}

-- PRIMARY KEY (user_id, month)
abbrev pub IsKeyed : List UsageRow → Type 0
IsKeyed [] = Unit
IsKeyed (row ∷ rows) =
    All (λ other. is_usage row.user_id row.month other ≡ false) rows × IsKeyed rows

-- Whether two keys are one.
abbrev pub same_key : ℕ → String → ℕ → String → Bool
same_key u m uid month = eqb u uid && m == month

-- Reserving adds one to the count of its key, and leaves the other counts.
pub count_in-upsert_usage :
    (u : ℕ) (m : String) (uid : ℕ) (month : String) (rows : List UsageRow)
    → count_in u m (upsert_usage uid month rows)
      ≡ (if same_key u m uid month then suc (count_in u m rows) else count_in u m rows)
unfolding count_in upsert_usage
count_in-upsert_usage u m uid month [] = ground (arith, eq_iff m month, eq_iff month m)
count_in-upsert_usage u m uid month (row ∷ rows) = ground (
  arith,
  count_in-upsert_usage u m uid month rows,
  eq_iff row.month month,
  eq_iff row.month m,
  eq_iff m month,
  eq_iff month m,
)

is_usage_sym :
    (row : UsageRow) (uid : ℕ) (month : String) (n : ℕ)
    → is_usage uid month row ≡ false
    → is_usage row.user_id row.month
        (record { user_id = uid; month = month; consultation_count = n })
      ≡ false
unfolding is_usage
is_usage_sym row uid month n h = ground (arith, eq_iff row.month month, eq_iff month row.month)

All-upsert_usage :
    (u : ℕ) (m : String) (uid : ℕ) (month : String) (rows : List UsageRow)
    → same_key u m uid month ≡ false
    → All (λ other. is_usage u m other ≡ false) rows
    → All (λ other. is_usage u m other ≡ false) (upsert_usage uid month rows)
unfolding upsert_usage
All-upsert_usage u m uid month [] h a = ground (arith, eq_iff m month, eq_iff month m)
All-upsert_usage u m uid month (row ∷ rows) h a = elim (Bool-cases (is_usage uid month row)) [
  | inl here ↦ rw here (a.0, a.1)
  | inr other ↦ rw other (a.0, All-upsert_usage u m uid month rows h a.1)
]

same_key_of_is_usage :
    (row : UsageRow) (uid : ℕ) (month : String)
    → is_usage uid month row ≡ false
    → same_key row.user_id row.month uid month ≡ false
unfolding is_usage
same_key_of_is_usage row uid month h = h

-- Reserving keeps one row to a key.
pub upsert_usage-IsKeyed :
    (uid : ℕ) (month : String) (rows : List UsageRow)
    → IsKeyed rows
    → IsKeyed (upsert_usage uid month rows)
unfolding upsert_usage
upsert_usage-IsKeyed uid month [] h = (tt, tt)
upsert_usage-IsKeyed uid month (row ∷ rows) h = elim (Bool-cases (is_usage uid month row)) [
  | inl here ↦ rw here (h.0, h.1)
  | inr other ↦ rw other (
    All-upsert_usage row.user_id row.month uid month rows (same_key_of_is_usage row uid month other)
        h.0,
    upsert_usage-IsKeyed uid month rows h.1,
  )
]

-- The rows after a release.
abbrev pub released : ℕ → String → List UsageRow → List UsageRow
released uid month =
    update_where (is_reserved uid month)
      (λ row. record row { consultation_count = row.consultation_count - 1 })

All-released :
    (u : ℕ) (m : String) (uid : ℕ) (month : String) (rows : List UsageRow)
    → All (λ other. is_usage u m other ≡ false) rows
    → All (λ other. is_usage u m other ≡ false) (released uid month rows)
unfolding update_where is_usage
All-released u m uid month [] a = tt
All-released u m uid month (row ∷ rows) a = elim (Bool-cases (is_reserved uid month row)) [
  | inl here ↦ rw here (a.0, All-released u m uid month rows a.1)
  | inr other ↦ rw other (a.0, All-released u m uid month rows a.1)
]

-- Releasing keeps one row to a key.
pub released-IsKeyed :
    (uid : ℕ) (month : String) (rows : List UsageRow)
    → IsKeyed rows
    → IsKeyed (released uid month rows)
unfolding update_where
released-IsKeyed uid month [] h = tt
released-IsKeyed uid month (row ∷ rows) h = elim (Bool-cases (is_reserved uid month row)) [
  | inl here ↦
      rw here
        (All-released row.user_id row.month uid month rows h.0, released-IsKeyed uid month rows h.1)
  | inr other ↦
      rw other
        (All-released row.user_id row.month uid month rows h.0, released-IsKeyed uid month rows h.1)
]

-- Where no row has the key, nothing is released.
released_absent :
    (uid : ℕ) (month : String) (rows : List UsageRow)
    → All (λ other. is_usage uid month other ≡ false) rows
    → (released uid month rows ≡ rows) × (any (is_reserved uid month) rows ≡ false)
unfolding update_where any is_reserved
released_absent uid month [] a = (refl, refl)
released_absent uid month (row ∷ rows) a = ground (arith, released_absent uid month rows a.1)

count_in_absent :
    (u : ℕ) (m : String) (rows : List UsageRow)
    → All (λ other. is_usage u m other ≡ false) rows
    → count_in u m rows ≡ 0
unfolding count_in
count_in_absent u m [] a = refl
count_in_absent u m (row ∷ rows) a = ground (arith, count_in_absent u m rows a.1)

-- The count of the released key falls by one, if it was not 0, and no other count changes.
pub count_in-released :
    (u : ℕ) (m : String) (uid : ℕ) (month : String) (rows : List UsageRow)
    → IsKeyed rows
    → count_in u m (released uid month rows)
      ≡ (if same_key u m uid month then count_in u m rows - 1 else count_in u m rows)
unfolding count_in update_where is_reserved is_usage
count_in-released u m uid month [] h = ground arith
count_in-released u m uid month (row ∷ rows) h = ground (
  arith,
  count_in-released u m uid month rows h.1,
  eq_iff row.month month,
  eq_iff row.month m,
  eq_iff m month,
)

key_of_is_usage :
    (row : UsageRow) (uid : ℕ) (month : String)
    → is_usage uid month row ≡ true
    → (row.user_id ≡ uid) × (row.month ≡ month)
unfolding is_usage
key_of_is_usage row uid month h = ground (arith, eq_iff row.month month)

none_reserved :
    (row : UsageRow) (uid : ℕ) (month : String) (rows : List UsageRow)
    → is_usage uid month row ≡ true
    → All (λ other. is_usage row.user_id row.month other ≡ false) rows
    → any (is_reserved uid month) rows ≡ false
none_reserved row uid month rows here a =
    let (u, m) = key_of_is_usage row uid month here in
    (released_absent uid month rows
      (subst₂ (λ v n. All (λ other. is_usage v n other ≡ false) rows) u m a)).1

-- A release finds a row exactly if the count is not 0.
pub any-is_reserved :
    (uid : ℕ) (month : String) (rows : List UsageRow)
    → IsKeyed rows
    → any (is_reserved uid month) rows ≡ ltb 0 (count_in uid month rows)
unfolding any is_reserved count_in
any-is_reserved uid month [] h = refl
any-is_reserved uid month (row ∷ rows) h = elim (Bool-cases (is_usage uid month row)) [
  | inl here ↦ rw here (ground (arith, none_reserved row uid month rows here h.0))
  | inr other ↦ rw other (any-is_reserved uid month rows h.1)
]

-- What was reserved is released again: every count is as before.
pub released-upsert_usage :
    (u : ℕ) (m : String) (uid : ℕ) (month : String) (rows : List UsageRow)
    → IsKeyed rows
    → count_in u m (released uid month (upsert_usage uid month rows)) ≡ count_in u m rows
released-upsert_usage u m uid month rows h =
    rw
      (count_in-released u m uid month (upsert_usage uid month rows)
        (upsert_usage-IsKeyed uid month rows h))
      (rw count_in-upsert_usage (ground arith))
