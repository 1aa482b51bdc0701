-- ===== src/Tests/Outcomes.antt =====
-- The results of a consultation, recorded and refused.
use arran.Prelude.{◌≡◌, refl, some, none, map, ◌∷◌, []}
use arran.Prelude.Int.{pos}
use arran.Domain.{ConsultationResultUpdate}
use arran.World.{statement, read_clock, call}
use arran.Repository.Usage.{monthly_consultation_usage, effective_limit, count_in}
use arran.World.Monad.{err, failure, not_found}
use arran.Repository.Records.{update_consultation_result}
use arran.Application.Outcome.{validate_result, update_consultation_result_use}
use arran.Application.Outcome.Recorded.{Recorded, update_consultation_result_use-Recorded}
use arran.Prelude.{All}
use arran.Application.Outcome.Remembered.{Remembered, update_consultation_result_use-Remembered}
use arran.Domain.{MemoryItem}
use arran.World.{World}
use arran.Repository.Records.{create_consultation, save_memory}
use arran.Application.{Services}
use arran.Application.Consult.{draft_to_consultation}
use arran.Tests.Reviews.{dashboard}
use arran.Tests.{world, env, services, draft, noon}

abbrev update : ConsultationResultUpdate
update = record {
  status = "skipped";
  actual_amount = none;
  user_decision_reason = "";
  satisfaction_score = some (pos 5);
  regret_score = none;
  note = "";
}

abbrev unscored : ConsultationResultUpdate
unscored = record update { regret_score = some (pos 6) }

refused :
    update_consultation_result_use services env 1 unscored world
    ≡ (err (failure "評価は1から5で指定してください"), world)
unfolding update_consultation_result_use
refused = refl

unknown : (update_consultation_result_use services env 1 update world).0 ≡ err not_found
unfolding update_consultation_result_use update_consultation_result statement
unknown = refl

update_consultation_result_use-Recorded_example :
    Recorded
      (validate_result update)
      (update_consultation_result 7 1 update world)
      world
      (update_consultation_result_use services env 1 update world)
update_consultation_result_use-Recorded_example =
    update_consultation_result_use-Recorded services env 1 update world

-- A memory agent whose second item has no evidence, and an error beside them.
abbrev found : MemoryItem
found = record {
  id = 0;
  type = "habit";
  content = "飲み会は二次会を断ると満足";
  evidence = "満足度5";
  confidence = pos 900;
  created_at = "";
  updated_at = "";
}

abbrev remembering : Services
remembering = record services {
  memory_agent = λ tick c. (found ∷ record found { evidence = " " } ∷ [], some (failure "timeout"));
  fallback_memory = λ tick c. (found ∷ [], none);
}

abbrev asked : World
asked =
    (create_consultation 7 (draft_to_consultation draft "買う" none dashboard noon "mock") world).1

abbrev after : World
after = (update_consultation_result_use remembering env 1 update asked).1

kept : map (λ row. row.1.evidence) after.db.memories ≡ "満足度5" ∷ []
unfolding update_consultation_result_use update_consultation_result statement create_consultation
    read_clock monthly_consultation_usage effective_limit call count_in save_memory
kept = refl

update_consultation_result_use-Remembered_example : All (Remembered [] 7) after.db.memories
unfolding create_consultation statement
update_consultation_result_use-Remembered_example =
    update_consultation_result_use-Remembered remembering env 1 update asked
