-- ===== src/Application/Outcome.antt =====
-- The results of consultations of application.go, and what is remembered of them.
pub mod Recorded
pub mod Remembered
use arran.Prelude.{
  ℕ, String, Bool, false, ◌||◌, not, Option, none, some, List, [], ◌∷◌, ◌==◌, ltb, if◌then◌else◌,
}
use arran.Prelude.Text.{trim_space, member}
use arran.Prelude.Int.{ℤ, pos, ltb_ℤ}
use arran.Domain.{MemoryItem, Consultation, ConsultationResultUpdate}
use arran.World.{Action, Env, World, read_clock, call}
use arran.World.Monad.{Result, ok, err, Error, failure, pure, attempt, ◌>>=◌, ◌>>◌}
use arran.Repository.Usage.{ConsultationUsage, monthly_consultation_usage}
use arran.Repository.Records.{update_consultation_result, save_memory}
use arran.Application.{Services}
use arran.Application.Settings.{check}

abbrev pub result_statuses : List String
result_statuses = "spent" ∷ "skipped" ∷ "reduced" ∷ "pending" ∷ []

-- `validateScore`
unfoldable pub bad_score : Option ℤ → Bool
bad_score none = false
bad_score (some score) = ltb_ℤ score (pos 1) || ltb_ℤ (pos 5) score

unfoldable pub validate_result : ConsultationResultUpdate → Option Error
unfolding bad_score member
validate_result update =
    if not (member update.status result_statuses)
    then some (failure "結果の選択肢が不正です")
    else if bad_score update.satisfaction_score || bad_score update.regret_score
    then some (failure "評価は1から5で指定してください")
    else none

abbrev pub allowed : Result ConsultationUsage × World → Result Bool × World
allowed (ok usage, w) = (ok (ltb usage.count usage.limit), w)
allowed (err e, w) = (ok false, w)

-- `externalModelAllowed`: an error of the repository counts as no.
unfoldable pub external_model_allowed : Env → Action Bool
unfolding ◌>>=◌
external_model_allowed env = do
  now ← read_clock env
  λ w. allowed (monthly_consultation_usage env.user_id now.jst_month w)

-- A candidate with evidence and a confidence of 0.7 or more.
unfoldable pub is_worth_saving : MemoryItem → Bool
unfolding trim_space
is_worth_saving candidate = not (
    ltb_ℤ candidate.confidence (pos 700)
    || trim_space candidate.content == ""
    || trim_space candidate.evidence == "")

-- The loop over the candidates; the error of a save is dropped.
unfoldable pub save_candidates : Env → List MemoryItem → Action (Unit {0})
unfolding is_worth_saving attempt
save_candidates env [] = pure tt
save_candidates env (candidate ∷ candidates) =
    let rest = save_candidates env candidates in
    if is_worth_saving candidate then attempt (save_memory env candidate) rest else rest

-- The items of the agent are taken whatever its error.
unfoldable pub remember_outcome : Services → Env → Consultation → Action (Unit {0})
unfolding external_model_allowed save_candidates ◌>>=◌
remember_outcome services env consultation = do
  external ← external_model_allowed env
  (candidates, ignored) ← call (λ tick.
      ok ((if external then services.memory_agent else services.fallback_memory) tick consultation))
  save_candidates env candidates

unfoldable pub update_consultation_result_use :
    Services → Env → ℕ → ConsultationResultUpdate → Action Consultation
unfolding validate_result check remember_outcome attempt ◌>>=◌
update_consultation_result_use services env id update = do
  check (validate_result update)
  consultation ← update_consultation_result env.user_id id update
  attempt (remember_outcome services env consultation) (pure consultation)
