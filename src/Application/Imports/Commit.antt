-- ===== src/Application/Imports/Commit.antt =====
-- What becomes of a preview: `CommitImport` of application.go.
use arran.Prelude.{
  ℕ, suc, ◌≡◌, refl, ap, ◌∙◌, String, Bool, true, false, Option, none, some, List, [], ◌∷◌, eqb,
  ltb, arith, if◌then◌else◌, keep, eq_refl,
}
use mathlib.Core.Path.{subst}
use arran.Domain.{Transaction, ImportCommitResult}
use arran.World.{
  World, Env, Action, CachedPreview, consume, next_fault, statement, rollback, transaction,
  read_clock,
}
use arran.World.Monad.{Result, ok, err, pure, raise, continue, ◌>>=◌}
use arran.World.Tables.{Db}
use arran.Repository.Transactions.{
  no_rows, insert_transaction, import_rows, count_row, import_transactions,
}
use arran.Repository.Transactions.Import.{Atomic, insert_all, import_transactions-Atomic}
use arran.Csv.Parse.{ParseResult}
use arran.Application.Imports.{
  find_preview, delete_preview, owned_preview, take_found, commit_cached, commit_import, expired,
  cached_for, preview_parsed, set_previews, random_id, cache_preview,
}

-- An action that leaves the previews.
record Leaves {A : Type 0} (m : Action A) : Type 0 where
  at : (w : World) → (m w).1.previews ≡ w.previews

consume-previews :
    (faults : List (Option String)) (w : World) → (consume faults w).1.previews ≡ w.previews
unfolding consume
consume-previews [] w = refl
consume-previews (none ∷ rest) w = refl
consume-previews (some text ∷ rest) w = refl

next_fault-Leaves : Leaves next_fault
unfolding next_fault
next_fault-Leaves = record { at = λ w. consume-previews w.faults w }

module _ {A : Type 0} where
  pure-Leaves : (a : A) → Leaves (pure a)
  unfolding pure
  pure-Leaves a = record { at = λ w. refl }

  rollback-previews :
      (db : Db) (r : Result A) (w : World) → (rollback db (r, w)).1.previews ≡ w.previews
  rollback-previews db (ok a) w = refl
  rollback-previews db (err e) w = refl

module _ {A B : Type 0} where
  continue-previews :
      (r : Result A) (f : A → Action B) (w : World)
      → ((a : A) → Leaves (f a))
      → (continue r f w).1.previews ≡ w.previews
  continue-previews (ok a) f w h = (h a).at w
  continue-previews (err e) f w h = refl

  bind-Leaves :
      (m : Action A) (f : A → Action B) → Leaves m → ((a : A) → Leaves (f a)) → Leaves (m >>= f)
  unfolding ◌>>=◌
  bind-Leaves m f hm hf = record { at = λ w. continue-previews (m w).0 f (m w).1 hf ∙ hm.at w }

module _ {A : Type 0} where
  statement-Leaves : (run : Db → Result A × Db) → Leaves (statement run)
  unfolding statement
  statement-Leaves run = bind-Leaves next_fault _ next_fault-Leaves (λ _. record { at = λ w. refl })

  transaction-Leaves : (m : Action A) → Leaves m → Leaves (transaction m)
  unfolding transaction
  transaction-Leaves m h = bind-Leaves next_fault _ next_fault-Leaves (λ _. record {
    at = λ w.
        rollback-previews w.db _ _
        ∙ (bind-Leaves m _ h
              (λ a. bind-Leaves next_fault _ next_fault-Leaves (λ _. pure-Leaves a))).at
            w;
  })

import_rows-Leaves :
    (uid : ℕ) (result : ImportCommitResult) (items : List Transaction)
    → Leaves (import_rows uid result items)
unfolding import_rows insert_transaction
import_rows-Leaves uid result [] = pure-Leaves result
import_rows-Leaves uid result (item ∷ items) =
    bind-Leaves (insert_transaction uid item) _ (statement-Leaves _)
      (λ affected. import_rows-Leaves uid (count_row affected result) items)

import_transactions-Leaves :
    (uid : ℕ) (items : List Transaction) → Leaves (import_transactions uid items)
unfolding import_transactions
import_transactions-Leaves uid items =
    transaction-Leaves (import_rows uid no_rows items) (import_rows-Leaves uid no_rows items)

find_preview-delete_preview :
    (id : String) (previews : List (String × CachedPreview))
    → find_preview id (delete_preview id previews) ≡ none
unfolding find_preview delete_preview keep
find_preview-delete_preview id [] = refl
find_preview-delete_preview id (entry ∷ rest) = ground (arith, find_preview-delete_preview id rest)

-- What a commit does with the user's preview, if there is one: without one, or with one that is
-- over, there is an error and the tables stay; else its transactions are imported atomically. It
-- is used up in any case.
abbrev pub Commits :
    Env → String → World → Option CachedPreview → Result ImportCommitResult × World → Type 0
Commits env id w none (r, v) = (r ≡ err expired) × (v ≡ w)
Commits env id w (some cached) (r, v) =
    (find_preview id v.previews ≡ none)
    × (if ltb cached.expires_at (env.now w.tick).instant
        then (r ≡ err expired) × (v.db ≡ w.db)
        else Atomic (insert_all env.user_id no_rows cached.transactions w.db) w.db (r, v))

-- The end of a commit, once the preview is out.
settle :
    (over : Bool) (env : Env) (id : String) (w : World) (items : List Transaction)
    (previews : List (String × CachedPreview)) (tick : ℕ)
    → find_preview id previews ≡ none
    → let out =
        (if over then raise expired else import_transactions env.user_id items)
          (record w { previews = previews; tick = tick }) in
      (find_preview id out.1.previews ≡ none)
      × (if over
          then (out.0 ≡ err expired) × (out.1.db ≡ w.db)
          else Atomic (insert_all env.user_id no_rows items w.db) w.db out)
unfolding raise
settle true env id w items previews tick h = (h, (refl, refl))
settle false env id w items previews tick h =
    let v : World = record w { previews = previews; tick = tick } in
    (
      ap (find_preview id) ((import_transactions-Leaves env.user_id items).at v) ∙ h,
      import_transactions-Atomic env.user_id items v,
    )

take_found-Commits :
    (env : Env) (id : String) (w : World) (found : Option CachedPreview)
    → Commits env id w found ((take_found id found >>= commit_cached env) w)
unfolding commit_cached read_clock raise ◌>>=◌
take_found-Commits env id w none = (refl, refl)
take_found-Commits env id w (some cached) =
    settle (ltb cached.expires_at (env.now w.tick).instant) env id w cached.transactions
      (delete_preview id w.previews) (suc w.tick) (find_preview-delete_preview id w.previews)

-- For every user, id and world: without a preview of this id and user, `CommitImport` is an error
-- that changes nothing. Else the preview is gone after it, whatever the outcome, and its
-- transactions are imported atomically, or, if it is over, there is an error and the tables stay.
pub commit_import-Commits :
    (env : Env) (id : String) (w : World)
    → Commits env id w
        (owned_preview env.user_id (find_preview id w.previews))
        (commit_import env id w)
unfolding commit_import ◌>>=◌
commit_import-Commits env id w =
    take_found-Commits env id w (owned_preview env.user_id (find_preview id w.previews))

-- The preview that was cached is found by its id.
find_preview-preview_parsed :
    (env : Env) (parsed : ParseResult) (w : World)
    → parsed.needs_mapping ≡ false
    → find_preview (env.random_id w.tick) (preview_parsed env parsed w).1.previews
      ≡ some (cached_for env.user_id parsed.transactions (env.now (suc (suc w.tick))).instant)
unfolding preview_parsed cache_preview find_preview random_id read_clock set_previews pure ◌>>=◌
find_preview-preview_parsed env parsed w n = ground (arith, eq_refl (env.random_id w.tick))

-- Where a parsed file was previewed, and no other preview or commit came between: a commit of that
-- preview by its user, before it is over, imports exactly the parsed transactions, atomically; one
-- that is over, or by another user, is an error that leaves the tables.
pub commit_import-preview_parsed :
    (env other : Env) (parsed : ParseResult) (w v : World)
    → parsed.needs_mapping ≡ false
    → v.previews ≡ (preview_parsed env parsed w).1.previews
    → Commits other
        (env.random_id w.tick)
        v
        (if eqb env.user_id other.user_id
          then some
              (cached_for env.user_id parsed.transactions (env.now (suc (suc w.tick))).instant)
          else none)
        (commit_import other (env.random_id w.tick) v)
unfolding preview_parsed find_preview
commit_import-preview_parsed env other parsed w v n h =
    let id = env.random_id w.tick in
    subst (λ found. Commits other id v found (commit_import other id v))
      (ap (λ previews. owned_preview other.user_id (find_preview id previews)) h
        ∙ ap (owned_preview other.user_id) (find_preview-preview_parsed env parsed w n))
      (commit_import-Commits other id v)
