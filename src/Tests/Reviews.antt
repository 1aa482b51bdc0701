-- ===== src/Tests/Reviews.antt =====
-- Monthly reviews: a fast month, a subscription that is found, and a review that is stored.
use arran.Prelude.{◌≡◌, refl, ◌≤◌, map, List, [], ◌∷◌, All, length}
use mathlib.Core.List.Permᴰ
use arran.Prelude.Int.{pos}
use arran.Domain.{Transaction, ReviewCandidate, Dashboard}
use arran.World.{World}
use arran.Application.Review.{create_monthly_review}
use arran.Application.Review.Subscriptions.{Sorting, detect_subscription_candidates}
use arran.Application.Review.Candidates.{build_review_candidates}
use arran.Application.Review.Labels.{IsDistinct, build_review_candidates-IsDistinct}
use arran.Application.Review.Intervals.{
  Permutes, StandsFor, detect_subscription_candidates-StandsFor,
}
use arran.Application.Review.Saved.{Saved, create_monthly_review-Saved}
use arran.Adapter.Disclosure.{SameSpending}
use arran.Tests.{noon, env, profile, rent, world, services}

-- An order of Go that leaves everything where it is.
abbrev pub in_place : Sorting
in_place = record {
  keys = λ names. names;
  transactions = λ before items. items;
  candidates = λ before items. items;
}

in_place-Permutes : Permutes in_place
in_place-Permutes = record {
  transactions = λ before items. Permᴰ.refl items;
  candidates = λ before items. Permᴰ.refl items;
}

abbrev earlier_rent : Transaction
earlier_rent = record rent { transaction_date = "2026-10-04" }

abbrev items : List Transaction
items = earlier_rent ∷ rent ∷ []

abbrev pub dashboard : Dashboard
dashboard = record {
  month = "2026-11";
  expense_total = pos 80000;
  fixed_expense_estimate = pos 0;
  free_expense_total = pos 40000;
  monthly_free_budget = pos 60000;
  free_budget_remaining = pos 20000;
  drinking_total = pos 5000;
  subscription_total = pos 0;
  by_category = [];
  recent_transactions = [];
}

abbrev candidates : List ReviewCandidate
candidates =
    build_review_candidates in_place "2026-11" (record noon { jst_day = 10 }) profile dashboard
      items []

labels : map (λ c. c.label) candidates ≡ "酒・飲み会" ∷ "カフェ" ∷ "月前半の支出ペース" ∷ []
unfolding build_review_candidates
labels = refl

detected : map (λ c. c.count) (detect_subscription_candidates in_place items) ≡ 2 ∷ []
unfolding detect_subscription_candidates
detected = refl

build_review_candidates-IsDistinct_example : (length candidates ≤ 5) × IsDistinct candidates
build_review_candidates-IsDistinct_example =
    build_review_candidates-IsDistinct in_place "2026-11" (record noon { jst_day = 10 }) profile
      dashboard items []

detect_subscription_candidates-StandsFor_example :
    All (StandsFor items) (detect_subscription_candidates in_place items)
detect_subscription_candidates-StandsFor_example =
    detect_subscription_candidates-StandsFor in_place items in_place-Permutes

abbrev spent : World
spent = record world { db = record world.db { transactions = (7, earlier_rent) ∷ (7, rent) ∷ [] } }

create_monthly_review-Saved_example :
    Saved [] 7 (create_monthly_review in_place services env "" spent)
create_monthly_review-Saved_example = create_monthly_review-Saved in_place services env "" spent

abbrev renamed : Transaction
renamed = record earlier_rent { description = ""; normalized_merchant = "別"; source = "card" }

abbrev same_spending : (item : Transaction) → SameSpending item item
same_spending item = record { date = refl; amount = refl; category = refl }
