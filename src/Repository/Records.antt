-- ===== src/Repository/Records.antt =====
-- The profiles, consultations, messages, memories and reviews of postgres/repository.go.
use arran.Prelude.{
  ℕ, suc, String, Bool, ◌&&◌, ◌||◌, not, Option, none, some, List, [], ◌∷◌, ◌++◌, ◌==◌, eqb, ltb,
  if◌then◌else◌, find, any, keep, take, update_where,
}
use arran.Prelude.Text.{str_lt}
use arran.Domain.{Profile, Consultation, ConsultationResultUpdate, MemoryItem, MonthlyReview}
use arran.World.{Action, Env, statement, query, execute, read_clock}
use arran.World.Monad.{Result, ok, err, not_found, failure, pure, raise, ◌>>=◌}
use arran.Repository.Transactions.{owned}

module _ {ℓ} {A : Type ℓ} where
  unfoldable pub head_or : Option A → Result A
  head_or none = err not_found
  head_or (some a) = ok a

  unfoldable pub first : List A → Option A
  first [] = none
  first (x ∷ xs) = some x

-- `ORDER BY <time> DESC, id DESC` over the times and the ids of the rows
module _ {ℓ} {A : Type ℓ} (time : A → String) (id : A → ℕ) where
  unfoldable pub insert_latest : A → List A → List A
  insert_latest a [] = a ∷ []
  insert_latest a (x ∷ xs) =
      if str_lt (time a) (time x) || time a == time x && ltb (id a) (id x)
      then x ∷ insert_latest a xs
      else a ∷ x ∷ xs

  unfoldable pub sort_latest : List A → List A
  unfolding insert_latest
  sort_latest [] = []
  sort_latest (x ∷ xs) = insert_latest x (sort_latest xs)

unfoldable pub get_profile : ℕ → Action Profile
unfolding owned head_or first
get_profile uid = query (λ db. head_or (first (owned uid db.profiles)))

unfoldable pub upsert_profile : ℕ → Profile → List (ℕ × Profile) → List (ℕ × Profile)
upsert_profile uid profile [] = (uid, profile) ∷ []
upsert_profile uid profile ((u, p) ∷ rows) =
    if eqb u uid then (u, profile) ∷ rows else (u, p) ∷ upsert_profile uid profile rows

unfoldable pub put_profile : ℕ → Profile → Action (Unit {0})
unfolding upsert_profile
put_profile uid profile =
    execute (λ db. record db { profiles = upsert_profile uid profile db.profiles })

unfoldable pub create_consultation : ℕ → Consultation → Action Consultation
create_consultation uid consultation = statement (λ db.
    let created = record consultation { id = db.next_consultation } in
    (
      ok created,
      record db {
        consultations = db.consultations ++ (uid, created) ∷ [];
        next_consultation = suc db.next_consultation;
      },
    ))

unfoldable pub is_consultation : ℕ → ℕ → (ℕ × Consultation) → Bool
is_consultation uid id row = eqb row.0 uid && eqb row.1.id id

unfoldable pub get_consultation : ℕ → ℕ → Action Consultation
unfolding is_consultation find
get_consultation uid id = query (λ db. elim (find (is_consultation uid id) db.consultations) [
  | none ↦ err not_found
  | some row ↦ ok row.1
])

-- `UPDATE consultations … WHERE user_id AND id`, whether a row was affected.
unfoldable pub update_consultation : ℕ → ℕ → (Consultation → Consultation) → Action Bool
unfolding is_consultation any update_where
update_consultation uid id change = statement (λ db. (
  ok (any (is_consultation uid id) db.consultations),
  record db {
    consultations =
        update_where (is_consultation uid id) (λ row. (row.0, change row.1)) db.consultations;
  },
))

-- The columns that new advice replaces.
unfoldable pub with_advice : Consultation → Consultation → Consultation
with_advice new old = record old {
  planned_amount = new.planned_amount;
  inferred_category = new.inferred_category;
  ai_recommendation = new.ai_recommendation;
  ai_reasoning_summary = new.ai_reasoning_summary;
  current_situation = new.current_situation;
  alternative = new.alternative;
  final_question = new.final_question;
  budget_snapshot = new.budget_snapshot;
  status = new.status;
  response_source = new.response_source;
  needs_follow_up = new.needs_follow_up;
  follow_up_question = new.follow_up_question;
}

unfoldable pub update_consultation_advice : ℕ → Consultation → Action Consultation
unfolding update_consultation get_consultation with_advice ◌>>=◌
update_consultation_advice uid consultation = do
  affected ← update_consultation uid consultation.id (with_advice consultation)
  if not affected then raise not_found else get_consultation uid consultation.id

-- The columns that a result replaces.
unfoldable pub with_result : ConsultationResultUpdate → Consultation → Consultation
with_result update old = record old {
  status = update.status;
  actual_amount = update.actual_amount;
  user_decision_reason = update.user_decision_reason;
  satisfaction_score = update.satisfaction_score;
  regret_score = update.regret_score;
  note = update.note;
}

unfoldable pub update_consultation_result : ℕ → ℕ → ConsultationResultUpdate → Action Consultation
unfolding update_consultation get_consultation with_result ◌>>=◌
update_consultation_result uid id update = do
  affected ← update_consultation uid id (with_result update)
  if not affected then raise not_found else get_consultation uid id

unfoldable pub list_consultations : ℕ → ℕ → Action (List Consultation)
unfolding sort_latest owned take
list_consultations uid limit = query (λ db.
    ok (take limit (sort_latest (λ c. c.created_at) (λ c. c.id) (owned uid db.consultations))))

-- The moment of a message is `time.Now()`.
unfoldable pub add_message : Env → ℕ → String → String → Action (Unit {0})
unfolding read_clock ◌>>=◌
add_message env id role content = do
  now ← read_clock env
  execute (λ db. record db {
    messages =
        db.messages
        ++ record {
          user_id = env.user_id;
          consultation_id = id;
          role = role;
          content = content;
          created_at = now.rfc3339;
        }
          ∷ [];
  })

unfoldable pub list_memories : ℕ → Action (List MemoryItem)
unfolding sort_latest owned
list_memories uid =
    query (λ db. ok (sort_latest (λ m. m.updated_at) (λ m. m.id) (owned uid db.memories)))

unfoldable pub insert_memory : ℕ → MemoryItem → Action MemoryItem
insert_memory uid item = statement (λ db.
    let created = record item { id = db.next_memory } in
    (
      ok created,
      record db { memories = db.memories ++ (uid, created) ∷ []; next_memory = suc db.next_memory },
    ))

unfoldable pub is_memory : ℕ → ℕ → (ℕ × MemoryItem) → Bool
is_memory uid id row = eqb row.0 uid && eqb row.1.id id

unfoldable pub with_memory : MemoryItem → MemoryItem → MemoryItem
with_memory new old = record old {
  type = new.type;
  content = new.content;
  evidence = new.evidence;
  confidence = new.confidence;
  updated_at = new.updated_at;
}

unfoldable pub update_memory : ℕ → MemoryItem → Action Bool
unfolding is_memory with_memory any update_where
update_memory uid item = statement (λ db. (
  ok (any (is_memory uid item.id) db.memories),
  record db {
    memories =
        update_where (is_memory uid item.id) (λ row. (row.0, with_memory item row.1)) db.memories;
  },
))

unfoldable pub replace_memory : ℕ → MemoryItem → Action MemoryItem
unfolding update_memory ◌>>=◌
replace_memory uid item = do
  affected ← update_memory uid item
  if not affected then raise not_found else pure item

-- A memory without a number is inserted; another replaces the row of its number.
unfoldable pub save_memory : Env → MemoryItem → Action MemoryItem
unfolding read_clock insert_memory replace_memory ◌>>=◌
save_memory env item = do
  now ← read_clock env
  let updated = record item { updated_at = now.rfc3339 }
  if eqb item.id 0
      then insert_memory env.user_id (record updated { created_at = now.rfc3339 })
      else replace_memory env.user_id updated

unfoldable pub delete_memory : ℕ → ℕ → Action (Unit {0})
unfolding is_memory any keep
delete_memory uid id = statement (λ db.
    if any (is_memory uid id) db.memories
    then (ok tt, record db { memories = keep (λ row. not (is_memory uid id row)) db.memories })
    else (err not_found, db))

unfoldable pub save_review : ℕ → MonthlyReview → Action MonthlyReview
save_review uid review = statement (λ db.
    let created = record review { id = db.next_review } in
    (
      ok created,
      record db { reviews = db.reviews ++ (uid, created) ∷ []; next_review = suc db.next_review },
    ))

-- Without a review the error is `sql.ErrNoRows`, which is not `domain.ErrNotFound`.
unfoldable pub latest_review : ℕ → Action MonthlyReview
unfolding sort_latest owned first
latest_review uid = query (λ db.
    elim (first (sort_latest (λ r. r.created_at) (λ r. r.id) (owned uid db.reviews))) [
      | none ↦ err (failure "sql: no rows in result set")
      | some review ↦ ok review
    ])
