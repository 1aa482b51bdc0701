-- ===== src/Application/Outcome/Recorded.antt =====
-- What `UpdateConsultationResult` of application.go records, whatever becomes of the memories.
use arran.Prelude.{ℕ, ◌≡◌, refl, String, Option, none, some, List, [], ◌∷◌}
use arran.Domain.{MemoryItem, Consultation, ConsultationResultUpdate}
use arran.World.{World, Env, read_clock}
use arran.World.Keeps.{
  Keeps, Keeps-if, Keeps-attempt, Keeps-read_clock, Keeps-statement, Keeps-bind, Keeps-pure,
  keeps_rules,
}
use arran.World.Monad.{Error, Result, ok, err, raise, pure, attempt, continue, ◌>>=◌}
use arran.World.Tables.{Db}
use arran.Repository.Usage.{ConsultationUsage, monthly_consultation_usage}
use arran.Repository.Records.{update_consultation_result, save_memory}
use arran.Application.{Services}
use arran.Application.Settings.{check}
use arran.Application.Outcome.{
  validate_result, allowed, external_model_allowed, save_candidates, remember_outcome,
  update_consultation_result_use,
}

abbrev HasConsultations : List (ℕ × Consultation) → Db → Type 0
HasConsultations rows db = db.consultations ≡ rows

module _ (rows : List (ℕ × Consultation)) where
  save_memory-HasConsultations :
      (env : Env) (item : MemoryItem) → Keeps (HasConsultations rows) (save_memory env item)
  unfolding save_memory
  save_memory-HasConsultations env item = search (keeps_rules, Keeps-statement)

  save_candidates-HasConsultations :
      (env : Env) (items : List MemoryItem)
      → Keeps (HasConsultations rows) (save_candidates env items)
  unfolding save_candidates
  save_candidates-HasConsultations env [] = Keeps-pure tt
  save_candidates-HasConsultations env (item ∷ items) =
      let rest = save_candidates-HasConsultations env items in
      Keeps-if _ _ _ (Keeps-attempt _ _ (save_memory-HasConsultations env item) rest) rest

  usage-HasConsultations :
      (uid : ℕ) (month : String)
      → Keeps (HasConsultations rows) (monthly_consultation_usage uid month)
  unfolding monthly_consultation_usage
  usage-HasConsultations uid month = search keeps_rules

  allowed-HasConsultations :
      (out : Result ConsultationUsage × World)
      → HasConsultations rows out.1.db
      → HasConsultations rows (allowed out).1.db
  allowed-HasConsultations (ok usage, w) h = h
  allowed-HasConsultations (err e, w) h = h

  external-HasConsultations :
      (env : Env) → Keeps (HasConsultations rows) (external_model_allowed env)
  unfolding external_model_allowed
  external-HasConsultations env = Keeps-bind (read_clock env) _ (Keeps-read_clock env) (λ now.
      record {
        at = λ w h.
            allowed-HasConsultations _ ((usage-HasConsultations env.user_id now.jst_month).at w h);
      })

  remember_outcome-HasConsultations :
      (services : Services) (env : Env) (consultation : Consultation)
      → Keeps (HasConsultations rows) (remember_outcome services env consultation)
  unfolding remember_outcome
  remember_outcome-HasConsultations services env consultation =
      search (keeps_rules, external-HasConsultations, save_candidates-HasConsultations)

-- An input that is not valid changes nothing; else the outcome and the consultations are those of
-- the repository's update.
abbrev pub Recorded :
    Option Error → Result Consultation × World → World → Result Consultation × World → Type 0
Recorded (some e) updated w out = out ≡ (err e, w)
Recorded none updated w out =
    (out.0 ≡ updated.0) × (out.1.db.consultations ≡ updated.1.db.consultations)

remember-Recorded :
    (services : Services) (env : Env) (w : World) (updated : Result Consultation × World)
    → Recorded none updated w
        (continue updated.0 (λ c. attempt (remember_outcome services env c) (pure c)) updated.1)
unfolding attempt pure
remember-Recorded services env w (ok c, v) =
    (refl, (remember_outcome-HasConsultations v.db.consultations services env c).at v refl)
remember-Recorded services env w (err e, v) = (refl, refl)

check-Recorded :
    (services : Services) (env : Env) (id : ℕ) (update : ConsultationResultUpdate)
    (invalid : Option Error) (w : World)
    → Recorded invalid (update_consultation_result env.user_id id update w) w (
        (check invalid >>= λ _. update_consultation_result env.user_id id update >>= λ c.
        attempt (remember_outcome services env c) (pure c))
          w)
unfolding check pure raise ◌>>=◌
check-Recorded services env id update (some e) w = refl
check-Recorded services env id update none w =
    remember-Recorded services env w (update_consultation_result env.user_id id update w)

-- For every world and input: with a status or a score that is not valid, UpdateConsultationResult
-- is that error and changes nothing; else its outcome, and the consultations it leaves, are those
-- of the repository's update, whatever becomes of the memories after it.
pub update_consultation_result_use-Recorded :
    (services : Services) (env : Env) (id : ℕ) (update : ConsultationResultUpdate) (w : World)
    → Recorded
        (validate_result update)
        (update_consultation_result env.user_id id update w)
        w
        (update_consultation_result_use services env id update w)
unfolding update_consultation_result_use ◌>>=◌
update_consultation_result_use-Recorded services env id update w =
    check-Recorded services env id update (validate_result update) w
