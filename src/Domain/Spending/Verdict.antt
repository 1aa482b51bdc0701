-- ===== src/Domain/Spending/Verdict.antt =====
-- What the judgement of server/internal/domain/spending.go promises.
use arran.Prelude.{
  ℕ, ◌≤◌, ◌≡◌, ◌&&◌, ◌||◌, refl, ◌⊎◌, inl, inr, ◌↔◌, String, Bool, true, false, not, some, arith,
  ◌==◌, Option-cases, Bool-cases, ap, if◌then◌else◌,
}
use arran.Prelude.Text.{member}
use arran.Prelude.Int.{ℤ, pos, ltb_ℤ, ◌≤ℤ◌, ◌<ℤ◌, ◌-ℤ◌, IsInt64, wrap64_exact, quot, -ℤ_parts}
use arran.Domain.{categories}
use arran.Domain.Spending.{
  SpendingEvaluationInput, max_ℤ, judge, regret_pattern, known_category, base_facts, planned_facts,
  judge_planned, evaluate_spending,
}

-- How strict a verdict is.
abbrev pub severity : String → ℕ
severity v = if v == "avoid" then 2 else if v == "caution" then 1 else 0

quot_mono_5 : (a b : ℤ) → a ≤ℤ b → quot a 5 ≤ℤ quot b 5
unfolding quot
quot_mono_5 a b h = ground arith

quot_mono_4 : (a b : ℤ) → a ≤ℤ b → quot a 4 ≤ℤ quot b 4
unfolding quot
quot_mono_4 a b h = ground arith

max_mono : (a b c : ℤ) → a ≤ℤ b → max_ℤ a c ≤ℤ max_ℤ b c
unfolding max_ℤ
max_mono a b c h = ground arith

-- The switch over its tests, each of which may turn on.
tests-le :
    (a b c a' b' c' : Bool)
    → (a ≡ true → a' ≡ true)
    → (b ≡ true → b' ≡ true)
    → (c ≡ true → c' ≡ true)
    → severity (if a then "avoid" else if b then "avoid" else if c then "caution" else "safe")
      ≤ severity (if a' then "avoid" else if b' then "avoid" else if c' then "caution" else "safe")
tests-le true b c a' b' c' h k l = rw (h refl) (omega arith)
tests-le false true c true b' c' h k l = omega arith
tests-le false true c false b' c' h k l = rw (k refl) (omega arith)
tests-le false false true true b' c' h k l = omega arith
tests-le false false true false true c' h k l = omega arith
tests-le false false true false false c' h k l = rw (l refl) (omega arith)
tests-le false false false a' b' c' h k l = omega arith

ltb_mono : (a b c d : ℤ) → c ≤ℤ a → b ≤ℤ d → ltb_ℤ a b ≡ true → ltb_ℤ c d ≡ true
ltb_mono a b c d h k t = ground arith

or_mono : (a b c : Bool) → (a ≡ true → b ≡ true) → (a || c) ≡ true → (b || c) ≡ true
or_mono a b c h t = ground arith

and_mono : (c a b : Bool) → (a ≡ true → b ≡ true) → (c && a) ≡ true → (c && b) ≡ true
and_mono c a b h t = ground arith

judge-le :
    (regret reduced : Bool) (strictness : String) (r r' p p' : ℤ)
    → r' ≤ℤ r
    → p ≤ℤ p'
    → severity (judge (ltb_ℤ r p) regret reduced strictness r p)
      ≤ severity (judge (ltb_ℤ r' p') regret reduced strictness r' p')
unfolding judge
judge-le regret reduced strictness r r' p p' hr hp =
    let least = quot_mono_5 r' r hr in
    let reduced_limit = max_mono (quot r' 5) (quot r 5) (pos 3000) least in
    let strict = strictness == "厳しい" in
    let m = max_ℤ (quot r 5) (pos 3000) in
    let m' = max_ℤ (quot r' 5) (pos 3000) in
    let q = quot r 4 in
    let q' = quot r' 4 in
    tests-le (ltb_ℤ r p || regret) (reduced && ltb_ℤ m p) (strict && ltb_ℤ q p)
      (ltb_ℤ r' p' || regret) (reduced && ltb_ℤ m' p') (strict && ltb_ℤ q' p')
      (or_mono (ltb_ℤ r p) (ltb_ℤ r' p') regret (ltb_mono r p r' p' hr hp))
      (and_mono reduced (ltb_ℤ m p) (ltb_ℤ m' p') (ltb_mono m p m' p' reduced_limit hp))
      (and_mono strict (ltb_ℤ q p) (ltb_ℤ q' p') (ltb_mono q p q' p' (quot_mono_4 r' r hr) hp))

-- Whether the memories hold a regret that speaks against the expense.
abbrev regretful : SpendingEvaluationInput → Bool
regretful a = not (regret_pattern (known_category a.category) a.message a.memories == "")

abbrev reduces : SpendingEvaluationInput → Bool
reduces a = member (known_category a.category) a.profile.reduce_categories

evaluate_spending-eq :
    (a : SpendingEvaluationInput) (p : ℤ)
    → a.planned_amount ≡ some p
    → evaluate_spending a ≡ planned_facts a (base_facts a) p
unfolding evaluate_spending
evaluate_spending-eq a p h = ap (judge_planned a (base_facts a)) h

verdict-evaluate_spending :
    (a : SpendingEvaluationInput) (p : ℤ)
    → a.planned_amount ≡ some p
    → let r = a.dashboard.free_budget_remaining in
      (evaluate_spending a).verdict
      ≡ judge (ltb_ℤ r p) (regretful a) (reduces a) a.profile.advice_strictness r p
unfolding planned_facts base_facts
verdict-evaluate_spending a p h = rw (evaluate_spending-eq a p h)

-- Two inputs that differ at most in the planned amount and in what is left of the free budget.
pub record SameButAmounts (a b : SpendingEvaluationInput) : Type 0 where
  pub memories : a.memories ≡ b.memories
  pub message : a.message ≡ b.message
  pub category : a.category ≡ b.category
  pub reduced : a.profile.reduce_categories ≡ b.profile.reduce_categories
  pub strictness : a.profile.advice_strictness ≡ b.profile.advice_strictness

-- If of two inputs that agree in the memories, the message, the category, the reduced categories
-- and the strictness the second plans at least as much and has at most as much of the free budget
-- left, then its verdict is at least as strict, in the order safe, caution, avoid.
pub severity-evaluate_spending :
    (a b : SpendingEvaluationInput) (p q : ℤ)
    → SameButAmounts a b
    → a.planned_amount ≡ some p
    → b.planned_amount ≡ some q
    → p ≤ℤ q
    → b.dashboard.free_budget_remaining ≤ℤ a.dashboard.free_budget_remaining
    → severity (evaluate_spending a).verdict ≤ severity (evaluate_spending b).verdict
severity-evaluate_spending a b p q same ha hb hp hr =
    simp (verdict-evaluate_spending a p ha, verdict-evaluate_spending b q hb)
      (simp (same.memories, same.message, same.category, same.reduced, same.strictness)
        (judge-le (regretful b) (reduces b) b.profile.advice_strictness
          a.dashboard.free_budget_remaining b.dashboard.free_budget_remaining p q hr hp))

budget_facts : (r p : ℤ) → (ltb_ℤ r p ≡ true) ↔ (r <ℤ p)
budget_facts r p = ground arith

budget_sign : (r p : ℤ) → (ltb_ℤ r p ≡ true) ↔ (r -ℤ p <ℤ pos 0)
budget_sign r p = ground (arith, -ℤ_parts r p)

exceeded_avoid :
    (r p : ℤ) (regret reduced : Bool) (strictness : String)
    → (ltb_ℤ r p ≡ false) ⊎ (judge (ltb_ℤ r p) regret reduced strictness r p ≡ "avoid")
unfolding judge
exceeded_avoid r p regret reduced strictness = elim (Bool-cases (ltb_ℤ r p)) [
  | inl over ↦ inr (rw over refl)
  | inr under ↦ inl under
]

known_category_lem : (c : String) → member (known_category c) categories ≡ true
unfolding known_category
known_category_lem c = elim (Bool-cases (member c categories)) [
  | inl known ↦ rw known known
  | inr other ↦ rw other refl
]

-- The facts of a planned amount: the budget counts as exceeded exactly when the amount is greater
-- than what is left, and where the difference of the two fits an int64 the remaining amount is
-- that difference, and negative exactly then. An exceeded budget has the verdict avoid.
pub budget-evaluate_spending :
    (a : SpendingEvaluationInput) (p : ℤ)
    → a.planned_amount ≡ some p
    → IsInt64 (a.dashboard.free_budget_remaining -ℤ p)
    → let facts = evaluate_spending a in
      ((facts.budget_exceeded ≡ true) ↔ (a.dashboard.free_budget_remaining <ℤ p))
      × (facts.remaining_after_planned ≡ a.dashboard.free_budget_remaining -ℤ p)
      × ((facts.budget_exceeded ≡ true) ↔ (facts.remaining_after_planned <ℤ pos 0))
      × ((facts.budget_exceeded ≡ false) ⊎ (facts.verdict ≡ "avoid"))
unfolding planned_facts base_facts
budget-evaluate_spending a p ha fits = rw (evaluate_spending-eq a p ha) (
    rw (wrap64_exact (a.dashboard.free_budget_remaining -ℤ p) fits) (
      budget_facts a.dashboard.free_budget_remaining p,
      refl,
      budget_sign a.dashboard.free_budget_remaining p,
      exceeded_avoid a.dashboard.free_budget_remaining p (regretful a) (reduces a)
          a.profile.advice_strictness,
    ))

-- Whatever category is given, the facts carry one of the program's categories.
pub category-evaluate_spending :
    (a : SpendingEvaluationInput) → member (evaluate_spending a).category categories ≡ true
unfolding evaluate_spending planned_facts base_facts
category-evaluate_spending a = elim (Option-cases a.planned_amount) [
  | inl e ↦ rw e (known_category_lem a.category)
  | inr (p, e) ↦ rw e (known_category_lem a.category)
]
