-- ===== src/Application/Review/Candidates.antt =====
-- `BuildReviewCandidates` of application.go, and the sums that it takes.
use arran.Prelude.{
  ℕ, suc, String, Bool, false, ◌&&◌, Option, none, some, List, [], ◌∷◌, ◌++◌, ◌==◌, leb,
  if◌then◌else◌, take, any,
}
use arran.Prelude.Int.{ℤ, pos, ◌+ℤ◌, ◌*ℤ◌, wrap64, ltb_ℤ, leb_ℤ}
use arran.Prelude.Text.{has_prefix, text_append}
use arran.Domain.{Moment, Transaction, Profile, Dashboard, Consultation, ReviewCandidate}
use arran.Csv.Digits.{format_int}
use arran.Application.Review.Subscriptions.{Sorting, annualized, detect_subscription_candidates}

-- `yen`
unfoldable pub yen : ℤ → String
unfolding format_int text_append
yen value = text_append (format_int value) "円"

-- `pointerValue`
abbrev pub pointer_value : Option ℤ → ℤ
pointer_value none = pos 0
pointer_value (some value) = value

unfoldable pub is_expense_in : String → Transaction → Bool
unfolding has_prefix
is_expense_in month item =
    has_prefix item.transaction_date month && item.transaction_type == "expense"

abbrev pub count_in : Transaction → ℤ × ℕ → ℤ × ℕ
count_in item (total, count) = (wrap64 (total +ℤ item.amount), suc count)

-- The loop of `categoryStats`, with the total and the count so far.
unfoldable pub stats_from : ℤ × ℕ → String → String → List Transaction → ℤ × ℕ
unfolding is_expense_in wrap64 ◌+ℤ◌
stats_from stats month category [] = stats
stats_from stats month category (item ∷ items) =
    stats_from
      (if is_expense_in month item && item.category == category then count_in item stats else stats)
      month category items

unfoldable pub category_stats : List Transaction → String → String → ℤ × ℕ
unfolding stats_from
category_stats items month category = stats_from (pos 0, 0) month category items

-- `countExpenses`
unfoldable pub count_expenses : List Transaction → String → ℕ
unfolding is_expense_in
count_expenses [] month = 0
count_expenses (item ∷ items) month =
    let rest = count_expenses items month in if is_expense_in month item then suc rest else rest

abbrev pub larger : Option Transaction → Transaction → Option Transaction
larger none item = some item
larger (some largest) item = if ltb_ℤ largest.amount item.amount then some item else some largest

-- The loop of `largestExpense`, with the largest so far.
unfoldable pub largest_from : Option Transaction → String → List Transaction → Option Transaction
unfolding is_expense_in
largest_from largest month [] = largest
largest_from largest month (item ∷ items) =
    largest_from (if is_expense_in month item then larger largest item else largest) month items

unfoldable pub largest_expense : List Transaction → String → Option Transaction
unfolding largest_from
largest_expense items month = largest_from none month items

abbrev pub has_label : String → ReviewCandidate → Bool
has_label label candidate = candidate.label == label

-- `add`: a candidate whose label is there already is left out.
unfoldable pub add_candidate : List ReviewCandidate → ReviewCandidate → List ReviewCandidate
unfolding any
add_candidate candidates candidate =
    if any (has_label candidate.label) candidates then candidates else candidates ++ candidate ∷ []

unfoldable pub add_all : List ReviewCandidate → List ReviewCandidate → List ReviewCandidate
unfolding add_candidate
add_all candidates [] = candidates
add_all candidates (candidate ∷ rest) = add_all (add_candidate candidates candidate) rest

abbrev candidate_of : String → String → ℤ → ℕ → String → String → ReviewCandidate
candidate_of label judgement total count reason question = record {
  label = label;
  judgement = judgement;
  total_amount = total;
  count = count;
  reason = reason;
  annualized_amount = annualized total;
  question = question;
}

-- The candidate of a category to reduce.
unfoldable pub reduced_candidate : String → ℤ × ℕ → ReviewCandidate
unfolding wrap64 ◌*ℤ◌
reduced_candidate category (total, count) =
    candidate_of category "見直し候補" total count "プロフィールで減らしたいカテゴリに指定されています。"
      "このカテゴリのうち、満足度が低かった支出はどれですか？"

-- The loop over the categories to reduce.
unfoldable pub add_reduced :
    List Transaction → String → List String → List ReviewCandidate → List ReviewCandidate
unfolding category_stats add_candidate reduced_candidate
add_reduced items month [] candidates = candidates
add_reduced items month (category ∷ rest) candidates =
    let stats = category_stats items month category in
    add_reduced items month rest (
      if ltb_ℤ (pos 0) stats.0
      then add_candidate candidates (reduced_candidate category stats)
      else candidates)

abbrev pub drinking_label : String
drinking_label = "酒・飲み会"

abbrev pub subscription_label : String
subscription_label = "サブスクリプション"

unfoldable pub add_drinking :
    List Transaction → String → Dashboard → List ReviewCandidate → List ReviewCandidate
unfolding category_stats add_candidate wrap64 ◌*ℤ◌
add_drinking items month dashboard candidates =
    if ltb_ℤ (pos 0) dashboard.drinking_total
    then add_candidate candidates (
        candidate_of drinking_label "見直し候補" dashboard.drinking_total
          (category_stats items month drinking_label).1 "今月の飲酒関連支出をまとめました。"
          "人間関係など、価値を感じた会だけを残せていますか？")
    else candidates

unfoldable pub add_subscription :
    List Transaction → String → Dashboard → List ReviewCandidate → List ReviewCandidate
unfolding category_stats add_candidate wrap64 ◌*ℤ◌
add_subscription items month dashboard candidates =
    if ltb_ℤ (pos 0) dashboard.subscription_total
    then add_candidate candidates (
        candidate_of subscription_label "見直し候補" dashboard.subscription_total
          (category_stats items month subscription_label).1 "定期支出は使っていなくても継続しやすいためです。"
          "先月から一度も使っていないサービスはありますか？")
    else candidates

abbrev pub pace_label : String
pace_label = "月前半の支出ペース"

-- More than half of the budget is spent in the first half of the month.
unfoldable pub is_fast : String → Moment → Dashboard → Bool
unfolding wrap64 ◌*ℤ◌
is_fast month now dashboard =
    ltb_ℤ (pos 0) dashboard.monthly_free_budget
    && now.jst_month == month
    && leb now.jst_day 15
    && ltb_ℤ dashboard.monthly_free_budget (wrap64 (dashboard.free_expense_total *ℤ pos 2))

unfoldable pub add_pace :
    List Transaction → String → Moment → Dashboard → List ReviewCandidate → List ReviewCandidate
unfolding is_fast count_expenses add_candidate wrap64 ◌*ℤ◌
add_pace items month now dashboard candidates =
    if is_fast month now dashboard
    then add_candidate candidates (
        candidate_of pace_label "不要の可能性が高い" dashboard.free_expense_total
          (count_expenses items month) "月前半の時点で自由予算の半分を超えています。" "月後半に優先したい予定の予算を残せていますか？")
    else candidates

unfoldable pub add_largest : Option Transaction → List ReviewCandidate → List ReviewCandidate
unfolding add_candidate wrap64 ◌*ℤ◌
add_largest none candidates = candidates
add_largest (some largest) candidates = add_candidate candidates (
    candidate_of largest.normalized_merchant "判断に追加情報が必要" largest.amount 1 "今月の中で金額が大きい支出です。"
      "この支出から、金額に見合う価値を得られましたか？")

abbrev pub is_high_regret : Option ℤ → Bool
is_high_regret none = false
is_high_regret (some score) = leb_ℤ (pos 4) score

unfoldable pub regret_candidate : Consultation → ReviewCandidate
unfolding text_append wrap64 ◌*ℤ◌
regret_candidate consultation =
    candidate_of (text_append consultation.inferred_category "（高後悔）") "不要の可能性が高い"
      (pointer_value consultation.actual_amount) 1 "過去の相談結果で後悔度が高く記録されています。" "次回はどの条件なら見送れそうですか？"

-- The loop over the consultations.
unfoldable pub add_regrets : List Consultation → List ReviewCandidate → List ReviewCandidate
unfolding add_candidate regret_candidate
add_regrets [] candidates = candidates
add_regrets (consultation ∷ rest) candidates = add_regrets rest (
    if is_high_regret consultation.regret_score
    then add_candidate candidates (regret_candidate consultation)
    else candidates)

-- The candidates before the cut to five.
unfoldable pub collect_candidates :
    Sorting
    → String
    → Moment
    → Profile
    → Dashboard
    → List Transaction
    → List Consultation
    → List ReviewCandidate
unfolding add_reduced add_drinking add_subscription add_all detect_subscription_candidates add_pace
    add_largest largest_expense add_regrets
collect_candidates sorting month now profile dashboard items consultations =
    let reduced = add_reduced items month profile.reduce_categories [] in
    let totals =
      add_subscription items month dashboard (add_drinking items month dashboard reduced) in
    let detected = add_all totals (detect_subscription_candidates sorting items) in
    let paced = add_pace items month now dashboard detected in
    add_regrets consultations (add_largest (largest_expense items month) paced)

-- `BuildReviewCandidates`
unfoldable pub build_review_candidates :
    Sorting
    → String
    → Moment
    → Profile
    → Dashboard
    → List Transaction
    → List Consultation
    → List ReviewCandidate
unfolding collect_candidates take
build_review_candidates sorting month now profile dashboard items consultations =
    take 5 (collect_candidates sorting month now profile dashboard items consultations)
