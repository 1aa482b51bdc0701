-- ===== src/Application/Imports/Remembered.antt =====
-- A category that the user has remembered for a merchant, in the next import: the repository's
-- rules and `Categorize` of csvimport/importer.go together.
use arran.Prelude.{
  ℕ, ◌≡◌, refl, ap, ◌∙◌, String, false, List, [], ◌∷◌, ◌==◌, arith, eq_refl, eqb_refl,
}
use arran.World.Tables.{RuleRow}
use arran.Repository.Transactions.{is_rule, upsert_rule, rules_of}
use arran.Csv.Merchant.{normalize_merchant, rule_for, category_or, categorize}

rule_for-upsert_rule :
    (uid : ℕ) (merchant category now : String) (rows : List RuleRow)
    → rule_for merchant (rules_of uid (upsert_rule uid merchant category now rows)) ≡ category
unfolding rule_for rules_of upsert_rule is_rule
rule_for-upsert_rule uid merchant category now [] = ground (arith, eqb_refl uid, eq_refl merchant)
rule_for-upsert_rule uid merchant category now (row ∷ rows) =
    ground
      (arith, eqb_refl uid, eq_refl merchant, rule_for-upsert_rule uid merchant category now rows)

category_or_rule :
    (lower : String → String) (merchant category : String)
    → (category == "") ≡ false
    → category_or lower merchant category ≡ category
unfolding category_or
category_or_rule lower merchant category c = rw c refl

categorize_rule :
    (lower : String → String) (merchant category : String) (rules : List (String × String))
    → normalize_merchant lower merchant ≡ merchant
    → rule_for merchant rules ≡ category
    → (category == "") ≡ false
    → categorize lower merchant rules ≡ category
unfolding categorize
categorize_rule lower merchant category rules n r c =
    ap (λ m. category_or lower m (rule_for m rules)) n
    ∙ ap (category_or lower merchant) r
    ∙ category_or_rule lower merchant category c

-- Where a merchant is its own normal form and the category is not empty: once the category is
-- remembered for the merchant, an import of the user categorizes the merchant by it.
pub categorize-upsert_rule :
    (lower : String → String) (uid : ℕ) (merchant category now : String) (rows : List RuleRow)
    → normalize_merchant lower merchant ≡ merchant
    → (category == "") ≡ false
    → categorize lower merchant (rules_of uid (upsert_rule uid merchant category now rows))
      ≡ category
categorize-upsert_rule lower uid merchant category now rows n c =
    categorize_rule lower merchant category
      (rules_of uid (upsert_rule uid merchant category now rows)) n
      (rule_for-upsert_rule uid merchant category now rows) c
