-- ===== src/Tests/Previews.antt =====
-- A preview and its commit, by its user and by another.
use arran.Prelude.{◌≡◌, refl, false, some, [], ◌∷◌}
use arran.World.{World, Env, statement, transaction}
use arran.World.Monad.{ok, err}
use arran.Domain.{ImportCommitResult}
use arran.Repository.Transactions.{import_transactions}
use arran.Csv.Parse.{ParseResult}
use arran.Application.Imports.{
  preview_parsed, commit_import, owned_preview, find_preview, expired, cached_for,
}
use arran.Application.Imports.Commit.{Commits, commit_import-Commits, commit_import-preview_parsed}
use arran.Tests.{world, env, coffee, rent}

abbrev parsed : ParseResult
parsed = record {
  encoding = "utf-8";
  headers = [];
  mapping = record {
    date_column = "日付";
    description_column = "内容";
    amount_column = "金額";
    debit_column = "";
    credit_column = "";
  };
  needs_mapping = false;
  transactions = coffee ∷ rent ∷ [];
  warnings = [];
}

abbrev previewed : World
previewed = (preview_parsed env parsed world).1

abbrev stranger : Env
stranger = record env { user_id = 8 }

abbrev two_rows : ImportCommitResult
two_rows = record { imported_count = 2; duplicate_count = 0 }

owner_commits : (commit_import env "p1" previewed).0 ≡ ok two_rows
unfolding commit_import preview_parsed import_transactions transaction statement
owner_commits = refl

stranger_commits : commit_import stranger "p1" previewed ≡ (err expired, previewed)
unfolding commit_import preview_parsed
stranger_commits = refl

commit_import-Commits_example :
    Commits env "p1" previewed
      (owned_preview 7 (find_preview "p1" previewed.previews))
      (commit_import env "p1" previewed)
commit_import-Commits_example = commit_import-Commits env "p1" previewed

commit_import-preview_parsed_example :
    Commits env "p1" previewed
      (some (cached_for 7 (coffee ∷ rent ∷ []) 1000))
      (commit_import env "p1" previewed)
commit_import-preview_parsed_example =
    commit_import-preview_parsed env env parsed world previewed refl refl
