-- ===== src/Application/Outcome/Remembered.antt =====
-- What `UpdateConsultationResult` of application.go adds to the memories.
use arran.Prelude.Text.{trim_space}
use arran.Prelude.Int.{pos, ◌≤ℤ◌}
use arran.Prelude.{
  ◌≢◌, eq_iff, ℕ, ◌≡◌, refl, sym, ◌⊎◌, inl, inr, String, true, ◌&&◌, Option, none, some, List, [],
  ◌∷◌, eqb, eqb→eq, arith, All, All-append, All-Memᴰ, All-imp, Memᴰ, update_where, Bool-cases, not,
}
use mathlib.Core.Path.{subst}
use arran.Domain.{MemoryItem, Consultation, ConsultationResultUpdate}
use arran.World.{World, Env, read_clock}
use arran.World.Keeps.{
  Keeps, Keeps-if, Keeps-attempt, Keeps-read_clock, Keeps-statement, Keeps-bind, Keeps-pure,
  Keeps-raise, Keeps-call, Keeps-query, keeps_rules,
}
use arran.World.Monad.{Error, Result, ok, err}
use arran.World.Tables.{Db}
use arran.Repository.Usage.{ConsultationUsage, monthly_consultation_usage}
use arran.Repository.Records.{
  update_consultation, update_consultation_result, get_consultation, insert_memory, is_memory,
  with_memory, update_memory, replace_memory, save_memory,
}
use arran.Application.{Services}
use arran.Application.Settings.{check}
use arran.Application.Outcome.{
  validate_result, allowed, external_model_allowed, is_worth_saving, save_candidates,
  remember_outcome, update_consultation_result_use,
}

module _ (Q : ℕ × MemoryItem → Type 0) (env : Env)
    (worth : (item : MemoryItem) → is_worth_saving item ≡ true → Q (env.user_id, item)) where
  abbrev AllQ : Db → Type 0
  AllQ db = All Q db.memories

  update-All :
      (item : MemoryItem) (rows : List (ℕ × MemoryItem))
      → is_worth_saving item ≡ true
      → All Q rows
      → All Q (
          update_where
            (is_memory env.user_id item.id)
            (λ row. (row.0, with_memory item row.1))
            rows)
  unfolding update_where is_memory with_memory is_worth_saving
  update-All item [] h a = tt
  update-All item ((u, old) ∷ rows) h a =
      elim (Bool-cases (eqb u env.user_id && eqb old.id item.id)) [
        | inl e ↦ rw e (
          subst (λ v. Q (v, with_memory item old)) (sym (eqb→eq u env.user_id (ground arith)))
              (worth (with_memory item old) h),
          update-All item rows h a.1,
        )
        | inr e ↦ rw e (a.0, update-All item rows h a.1)
      ]

  insert-AllQ :
      (item : MemoryItem)
      → is_worth_saving item ≡ true
      → Keeps AllQ (insert_memory env.user_id item)
  unfolding insert_memory is_worth_saving
  insert-AllQ item h =
      Keeps-statement _
        (λ db a. All-append Q db.memories _ a (worth (record item { id = db.next_memory }) h, tt))

  replace-AllQ :
      (item : MemoryItem)
      → is_worth_saving item ≡ true
      → Keeps AllQ (replace_memory env.user_id item)
  unfolding replace_memory update_memory
  replace-AllQ item h =
      Keeps-bind _ _ (Keeps-statement _ (λ db a. update-All item db.memories h a))
        (λ affected. Keeps-if (not affected) _ _ (Keeps-raise _) (Keeps-pure item))

  save-AllQ : (item : MemoryItem) → is_worth_saving item ≡ true → Keeps AllQ (save_memory env item)
  unfolding save_memory is_worth_saving
  save-AllQ item h = Keeps-bind (read_clock env) _ (Keeps-read_clock env) (λ now.
      Keeps-if (eqb item.id 0) _ _
        (insert-AllQ (record item { updated_at = now.rfc3339; created_at = now.rfc3339 }) h)
        (replace-AllQ (record item { updated_at = now.rfc3339 }) h))

  candidates-AllQ : (items : List MemoryItem) → Keeps AllQ (save_candidates env items)
  unfolding save_candidates
  candidates-AllQ [] = Keeps-pure tt
  candidates-AllQ (item ∷ items) = elim (Bool-cases (is_worth_saving item)) [
    | inl h ↦ rw h (Keeps-attempt _ _ (save-AllQ item h) (candidates-AllQ items))
    | inr h ↦ rw h (candidates-AllQ items)
  ]

  usage-AllQ : (month : String) → Keeps AllQ (monthly_consultation_usage env.user_id month)
  unfolding monthly_consultation_usage
  usage-AllQ month = search keeps_rules

  allowed-AllQ : (out : Result ConsultationUsage × World) → AllQ out.1.db → AllQ (allowed out).1.db
  allowed-AllQ (ok usage, w) h = h
  allowed-AllQ (err e, w) h = h

  external-AllQ : Keeps AllQ (external_model_allowed env)
  unfolding external_model_allowed
  external-AllQ =
      Keeps-bind (read_clock env) _ (Keeps-read_clock env)
        (λ now. record { at = λ w h. allowed-AllQ _ ((usage-AllQ now.jst_month).at w h) })

  remember-AllQ :
      (services : Services) (consultation : Consultation)
      → Keeps AllQ (remember_outcome services env consultation)
  unfolding remember_outcome
  remember-AllQ services consultation =
      Keeps-bind _ _ external-AllQ
        (λ external. Keeps-bind _ _ (Keeps-call _) (λ found. candidates-AllQ found.0))

  result-AllQ :
      (id : ℕ) (update : ConsultationResultUpdate)
      → Keeps AllQ (update_consultation_result env.user_id id update)
  unfolding update_consultation_result update_consultation get_consultation
  result-AllQ id update =
      Keeps-bind _ _ (Keeps-statement _ (λ db a. a))
        (λ affected. Keeps-if (not affected) _ _ (Keeps-raise _) (Keeps-query _))

  check-AllQ : (found : Option Error) → Keeps AllQ (check found)
  unfolding check
  check-AllQ none = Keeps-pure tt
  check-AllQ (some e) = Keeps-raise e

  use-AllQ :
      (services : Services) (id : ℕ) (update : ConsultationResultUpdate)
      → Keeps AllQ (update_consultation_result_use services env id update)
  unfolding update_consultation_result_use
  use-AllQ services id update = Keeps-bind _ _ (check-AllQ (validate_result update)) (λ _.
      Keeps-bind _ _ (result-AllQ id update)
        (λ c. Keeps-attempt _ _ (remember-AllQ services c) (Keeps-pure c)))

-- A memory with a confidence of at least 0.7, a content and evidence that are not blank.
pub record IsGrounded (item : MemoryItem) : Type 0 where
  pub confident : pos 700 ≤ℤ item.confidence
  pub content : trim_space item.content ≢ ""
  pub evidence : trim_space item.evidence ≢ ""

is_worth_saving-IsGrounded : (item : MemoryItem) → is_worth_saving item ≡ true → IsGrounded item
unfolding is_worth_saving
is_worth_saving-IsGrounded item h = record {
  confident = ground arith;
  content = λ e. ground (arith, eq_iff (trim_space item.content) "");
  evidence = λ e. ground (arith, eq_iff (trim_space item.evidence) "");
}

-- A memory that there was, or a grounded one of this user.
abbrev pub Remembered : List (ℕ × MemoryItem) → ℕ → ℕ × MemoryItem → Type 0
Remembered before uid row = Memᴰ row before ⊎ ((row.0 ≡ uid) × IsGrounded row.1)

-- For every world, input and services, whatever items and errors the memory agents return: each
-- memory after UpdateConsultationResult was there before as it is, or is one of the user of the
-- request with a confidence of at least 0.7 and a content and evidence that are not blank.
pub update_consultation_result_use-Remembered :
    (services : Services) (env : Env) (id : ℕ) (update : ConsultationResultUpdate) (w : World)
    → All
        (Remembered w.db.memories env.user_id)
        (update_consultation_result_use services env id update w).1.db.memories
update_consultation_result_use-Remembered services env id update w =
    (use-AllQ (Remembered w.db.memories env.user_id) env
        (λ item h. inr (refl, is_worth_saving-IsGrounded item h)) services id update).at
      w (All-imp _ _ _ (λ row m. inl m) (All-Memᴰ w.db.memories))
