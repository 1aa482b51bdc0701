-- ===== src/Application/Review/Labels.antt =====
-- The labels of the candidates of `BuildReviewCandidates` of application.go.
use arran.Prelude.{
  ℕ, zero, suc, ◌≤◌, ◌≡◌, refl, String, Bool, true, false, ◌||◌, Option, none, some, List, [], ◌∷◌,
  ◌++◌, arith, any, take, length, length-take, if◌then◌else◌, eq_iff, Bool-cases, inl, inr,
}
use arran.Domain.{Moment, Transaction, Profile, Dashboard, Consultation, ReviewCandidate}
use arran.Application.Review.Subscriptions.{Sorting, detect_subscription_candidates}
use arran.Application.Review.Candidates.{
  has_label, add_candidate, add_all, add_reduced, add_drinking, add_subscription, add_pace,
  add_largest, largest_expense, add_regrets, collect_candidates, build_review_candidates,
}

-- No two candidates have one label.
abbrev pub IsDistinct : List ReviewCandidate → Type 0
IsDistinct [] = Unit
IsDistinct (c ∷ cs) = (any (has_label c.label) cs ≡ false) × IsDistinct cs

any-append :
    (label : String) (cs ds : List ReviewCandidate)
    → any (has_label label) (cs ++ ds) ≡ (any (has_label label) cs || any (has_label label) ds)
unfolding any
any-append label [] ds = refl
any-append label (c ∷ cs) ds = ground (arith, any-append label cs ds)

append_new-IsDistinct :
    (cs : List ReviewCandidate) (new : ReviewCandidate)
    → any (has_label new.label) cs ≡ false
    → IsDistinct cs
    → IsDistinct (cs ++ new ∷ [])
unfolding any
append_new-IsDistinct [] new h d = (refl, tt)
append_new-IsDistinct (c ∷ cs) new h d = (
  rw any-append (ground (arith, eq_iff c.label new.label, eq_iff new.label c.label)),
  append_new-IsDistinct cs new (ground arith) d.1,
)

add_candidate-IsDistinct :
    (cs : List ReviewCandidate) (new : ReviewCandidate)
    → IsDistinct cs
    → IsDistinct (add_candidate cs new)
unfolding add_candidate
add_candidate-IsDistinct cs new d = elim (Bool-cases (any (has_label new.label) cs)) [
  | inl e ↦ rw e d
  | inr e ↦ rw e (append_new-IsDistinct cs new e d)
]

if-IsDistinct :
    (b : Bool) (cs : List ReviewCandidate) (new : ReviewCandidate)
    → IsDistinct cs
    → IsDistinct (if b then add_candidate cs new else cs)
if-IsDistinct true cs new d = add_candidate-IsDistinct cs new d
if-IsDistinct false cs new d = d

add_all-IsDistinct : (cs new : List ReviewCandidate) → IsDistinct cs → IsDistinct (add_all cs new)
unfolding add_all
add_all-IsDistinct cs [] d = d
add_all-IsDistinct cs (c ∷ new) d =
    add_all-IsDistinct (add_candidate cs c) new (add_candidate-IsDistinct cs c d)

add_reduced-IsDistinct :
    (items : List Transaction) (month : String) (names : List String) (cs : List ReviewCandidate)
    → IsDistinct cs
    → IsDistinct (add_reduced items month names cs)
unfolding add_reduced
add_reduced-IsDistinct items month [] cs d = d
add_reduced-IsDistinct items month (name ∷ names) cs d =
    add_reduced-IsDistinct items month names _ (if-IsDistinct _ cs _ d)

add_largest-IsDistinct :
    (largest : Option Transaction) (cs : List ReviewCandidate)
    → IsDistinct cs
    → IsDistinct (add_largest largest cs)
unfolding add_largest
add_largest-IsDistinct none cs d = d
add_largest-IsDistinct (some item) cs d = add_candidate-IsDistinct cs _ d

add_regrets-IsDistinct :
    (consultations : List Consultation) (cs : List ReviewCandidate)
    → IsDistinct cs
    → IsDistinct (add_regrets consultations cs)
unfolding add_regrets
add_regrets-IsDistinct [] cs d = d
add_regrets-IsDistinct (c ∷ consultations) cs d =
    add_regrets-IsDistinct consultations _ (if-IsDistinct _ cs _ d)

add_drinking-IsDistinct :
    (items : List Transaction) (month : String) (dashboard : Dashboard) (cs : List ReviewCandidate)
    → IsDistinct cs
    → IsDistinct (add_drinking items month dashboard cs)
unfolding add_drinking
add_drinking-IsDistinct items month dashboard cs d = if-IsDistinct _ cs _ d

add_subscription-IsDistinct :
    (items : List Transaction) (month : String) (dashboard : Dashboard) (cs : List ReviewCandidate)
    → IsDistinct cs
    → IsDistinct (add_subscription items month dashboard cs)
unfolding add_subscription
add_subscription-IsDistinct items month dashboard cs d = if-IsDistinct _ cs _ d

add_pace-IsDistinct :
    (items : List Transaction) (month : String) (now : Moment) (dashboard : Dashboard)
    (cs : List ReviewCandidate)
    → IsDistinct cs
    → IsDistinct (add_pace items month now dashboard cs)
unfolding add_pace
add_pace-IsDistinct items month now dashboard cs d = if-IsDistinct _ cs _ d

any-take :
    (n : ℕ) (label : String) (cs : List ReviewCandidate)
    → any (has_label label) cs ≡ false
    → any (has_label label) (take n cs) ≡ false
unfolding any take
any-take zero label cs h = refl
any-take (suc n) label [] h = refl
any-take (suc n) label (c ∷ cs) h = ground (arith, any-take n label cs)

take-IsDistinct : (n : ℕ) (cs : List ReviewCandidate) → IsDistinct cs → IsDistinct (take n cs)
unfolding take
take-IsDistinct zero cs d = tt
take-IsDistinct (suc n) [] d = tt
take-IsDistinct (suc n) (c ∷ cs) d = (any-take n c.label cs d.0, take-IsDistinct n cs d.1)

-- For every input, and whatever order Go gives the merchants and the sorted lists: the candidates
-- of BuildReviewCandidates are at most five, and no two of them have one label.
pub build_review_candidates-IsDistinct :
    (sorting : Sorting) (month : String) (now : Moment) (profile : Profile) (dashboard : Dashboard)
    (items : List Transaction) (consultations : List Consultation)
    → (length (build_review_candidates sorting month now profile dashboard items consultations) ≤ 5)
      × IsDistinct (build_review_candidates sorting month now profile dashboard items consultations)
unfolding build_review_candidates collect_candidates
build_review_candidates-IsDistinct sorting month now profile dashboard items consultations = (
  omega (
    arith,
    length-take 5 (collect_candidates sorting month now profile dashboard items consultations),
  ),
  take-IsDistinct 5 _ (
      add_regrets-IsDistinct consultations _ (
        add_largest-IsDistinct (largest_expense items month) _ (
          add_pace-IsDistinct items month now dashboard _ (
            add_all-IsDistinct _ (detect_subscription_candidates sorting items) (
              add_subscription-IsDistinct items month dashboard _ (
                add_drinking-IsDistinct items month dashboard _
                  (add_reduced-IsDistinct items month profile.reduce_categories [] tt))))))),
)
