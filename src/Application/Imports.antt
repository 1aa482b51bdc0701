-- ===== src/Application/Imports.antt =====
-- The import of application.go: `PreviewImport`, the
-- previews that the process holds, and `CommitImport`. Their lock makes each change of the previews
-- one step.
pub mod Commit
pub mod Remembered
use arran.Prelude.{
  ℕ, suc, ◌+◌, ◌*◌, String, Bool, true, false, not, ◌||◌, ◌&&◌, Option, none, some, List, [], ◌∷◌,
  ◌==◌, eqb, ltb, if◌then◌else◌, keep, take, length,
}
use arran.Prelude.Int.{ℤ, pos, ◌+ℤ◌, wrap64}
use arran.Prelude.Text.{str_lt}
use arran.Domain.{Moment, Transaction, ImportCommitResult, CsvMapping, ImportPreview}
use arran.World.{World, Env, Action, CachedPreview, read_clock}
use arran.World.Monad.{Error, ok, lift, failure, raise, pure, ◌>>=◌, ◌>>◌}
use arran.Repository.Transactions.{import_transactions, merchant_rules}
use arran.Csv.Rows.{Library, Options}
use arran.Csv.Parse.{ParseResult, parse}

abbrev pub preview_lifetime : ℕ
preview_lifetime = 30 * 60 * 1000000000

unfoldable pub count_preview : ImportPreview → List Transaction → ImportPreview
unfolding wrap64
count_preview preview [] = preview
count_preview preview (item ∷ items) =
    count_preview
      (record preview {
        period_start =
            if preview.period_start == "" || str_lt item.transaction_date preview.period_start
            then item.transaction_date
            else preview.period_start;
        period_end =
            if str_lt preview.period_end item.transaction_date
            then item.transaction_date
            else preview.period_end;
        expense_total =
            if item.transaction_type == "expense"
            then wrap64 (preview.expense_total +ℤ item.amount)
            else preview.expense_total;
      })
      items

unfoldable pub preview_of : ParseResult → ImportPreview
unfolding count_preview
preview_of parsed =
    count_preview
      (record {
        preview_id = "";
        detected_encoding = parsed.encoding;
        headers = parsed.headers;
        mapping = parsed.mapping;
        needs_mapping = parsed.needs_mapping;
        read_count = length parsed.transactions;
        period_start = "";
        period_end = "";
        expense_total = pos 0;
        rows = take 10 parsed.transactions;
        warnings = parsed.warnings;
      })
      parsed.transactions

unfoldable pub find_preview : String → List (String × CachedPreview) → Option CachedPreview
find_preview id [] = none
find_preview id ((key, cached) ∷ rest) = if key == id then some cached else find_preview id rest

unfoldable pub delete_preview :
    String → List (String × CachedPreview) → List (String × CachedPreview)
unfolding keep
delete_preview id previews = keep (λ entry. not (entry.0 == id)) previews

-- `cleanupPreviewsLocked`
unfoldable pub cleanup_previews : ℕ → List (String × CachedPreview) → List (String × CachedPreview)
unfolding keep
cleanup_previews now previews = keep (λ entry. not (ltb entry.1.expires_at now)) previews

unfoldable pub set_previews : List (String × CachedPreview) → Action (Unit {0})
set_previews previews w = (ok tt, record w { previews = previews })

unfoldable pub random_id : Env → Action String
random_id env w = (ok (env.random_id w.tick), record w { tick = suc w.tick })

abbrev pub cached_for : ℕ → List Transaction → ℕ → CachedPreview
cached_for uid items now = record {
  user_id = uid;
  transactions = items;
  expires_at = now + preview_lifetime;
}

-- The part under the lock, with a random id drawn before it.
unfoldable pub cache_preview : Env → List Transaction → Action String
unfolding random_id read_clock delete_preview cleanup_previews set_previews ◌>>=◌
cache_preview env items = do
  id ← random_id env
  now ← read_clock env
  later ← read_clock env
  λ w.
      set_previews
        ((id, cached_for env.user_id items later.instant)
          ∷ delete_preview id (cleanup_previews now.instant w.previews))
        w
  pure id

-- `PreviewImport` after `Parse`
unfoldable pub preview_parsed : Env → ParseResult → Action ImportPreview
unfolding cache_preview preview_of
preview_parsed env parsed = if parsed.needs_mapping then pure (preview_of parsed) else do
  id ← cache_preview env parsed.transactions
  pure (record (preview_of parsed) { preview_id = id })

abbrev pub import_options : CsvMapping → String → String → List (String × String) → Moment → Options
import_options mapping source account rules now = record {
  mapping = mapping;
  source = source;
  source_account_name = account;
  merchant_rules = rules;
  now = some now;
  clock = now;
}

-- `PreviewImport`
unfoldable pub preview_import :
    Library → Env → List ℕ → CsvMapping → String → String → Action ImportPreview
unfolding merchant_rules read_clock parse preview_parsed lift ◌>>=◌
preview_import library env bytes mapping source account = do
  rules ← merchant_rules env.user_id
  now ← read_clock env
  parsed ← lift (parse library (import_options mapping source account rules now) bytes)
  preview_parsed env parsed

abbrev pub owned_preview : ℕ → Option CachedPreview → Option CachedPreview
owned_preview uid none = none
owned_preview uid (some cached) = if eqb cached.user_id uid then some cached else none

abbrev pub take_found : String → Option CachedPreview → Action (Option CachedPreview)
take_found id none w = (ok none, w)
take_found id (some cached) w =
    (ok (some cached), record w { previews = delete_preview id w.previews })

-- The part of `CommitImport` under the lock: the user's preview of this id is taken out.
unfoldable pub take_preview : ℕ → String → Action (Option CachedPreview)
unfolding find_preview delete_preview
take_preview uid id w = take_found id (owned_preview uid (find_preview id w.previews)) w

abbrev pub expired : Error
expired = failure "プレビューの有効期限が切れています"

unfoldable pub commit_cached : Env → Option CachedPreview → Action ImportCommitResult
unfolding read_clock import_transactions ◌>>=◌
commit_cached env none = raise expired
commit_cached env (some cached) = do
  now ← read_clock env
  if ltb cached.expires_at now.instant
      then raise expired
      else import_transactions env.user_id cached.transactions

-- `CommitImport`
unfoldable pub commit_import : Env → String → Action ImportCommitResult
unfolding take_preview commit_cached ◌>>=◌
commit_import env id = do cached ← take_preview env.user_id id; commit_cached env cached
