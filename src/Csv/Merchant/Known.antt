-- ===== src/Csv/Merchant/Known.antt =====
-- The categories that `Categorize` of importer.go gives.
use arran.Prelude.{
  ◌≡◌, refl, ◌⊎◌, inl, inr, String, true, List, [], ◌∷◌, ◌==◌, arith, Bool-cases, All, eq_iff,
}
use arran.Prelude.Text.{member}
use arran.Domain.{categories}
use arran.Csv.Merchant.{
  normalize_merchant, any_keyword, keyword_category, keyword_rules, rule_for, category_or,
  categorize,
}

abbrev pub IsKnown : String → Type 0
IsKnown category = member category categories ≡ true

keyword_category-IsKnown :
    (lower : String → String) (text : String) (rules : List (List String × String))
    → All (λ rule. IsKnown rule.1) rules
    → IsKnown (keyword_category lower text rules)
unfolding keyword_category member
keyword_category-IsKnown lower text [] h = refl
keyword_category-IsKnown lower text ((keywords, category) ∷ rules) h =
    elim (Bool-cases (any_keyword lower text keywords)) [
      | inl t ↦ rw t h.0
      | inr t ↦ rw t (keyword_category-IsKnown lower text rules h.1)
    ]

keyword_rules-IsKnown : All (λ rule. IsKnown rule.1) keyword_rules
unfolding member
keyword_rules-IsKnown =
    (refl, (refl, (refl, (refl, (refl, (refl, (refl, (refl, (refl, (refl, (refl, tt)))))))))))

rule_for-IsKnown :
    (merchant : String) (rules : List (String × String))
    → All (λ rule. IsKnown rule.1) rules
    → (rule_for merchant rules ≡ "") ⊎ IsKnown (rule_for merchant rules)
unfolding rule_for
rule_for-IsKnown merchant [] h = inl refl
rule_for-IsKnown merchant ((key, category) ∷ rules) h = elim (Bool-cases (key == merchant)) [
  | inl t ↦ rw t (inr h.0)
  | inr t ↦ rw t (rule_for-IsKnown merchant rules h.1)
]

categorize_of :
    (lower : String → String) (normalized category : String)
    → (category ≡ "") ⊎ IsKnown category
    → IsKnown (category_or lower normalized category)
unfolding category_or
categorize_of lower normalized category h = elim (Bool-cases (category == "")) [
  | inl t ↦ rw t (keyword_category-IsKnown lower normalized keyword_rules keyword_rules-IsKnown)
  | inr t ↦ rw t (elim h [ inl e ↦ absurd (ground (arith, eq_iff category "")) | inr k ↦ k ])
]

-- Where the user's rules have known categories, every merchant gets a known category.
pub categorize-IsKnown :
    (lower : String → String) (merchant : String) (rules : List (String × String))
    → All (λ rule. IsKnown rule.1) rules
    → IsKnown (categorize lower merchant rules)
unfolding categorize
categorize-IsKnown lower merchant rules h =
    categorize_of lower (normalize_merchant lower merchant)
      (rule_for (normalize_merchant lower merchant) rules)
      (rule_for-IsKnown (normalize_merchant lower merchant) rules h)
