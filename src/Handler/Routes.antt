-- ===== src/Handler/Routes.antt =====
-- The handlers of server/internal/handler/handler.go and its table of routes. The multiplexer,
-- which finds the pattern of a request, and the decoders of JSON and of forms are net/http's and
-- encoding/json's: a request comes with what they make of it.
use arran.Prelude.{ℕ, ◌*◌, ◌^◌, String, Option, none, some, List, ◌==◌, take, if◌then◌else◌}
use arran.Domain.{CsvMapping, categories}
use arran.World.{Env}
use arran.Repository.Records as Records
use arran.Application.Settings as Settings
use arran.Application.Settings.{
  put_profile, list_transactions_use, list_consultations_use, update_category,
}
use arran.Application.Imports.{preview_import, commit_import}
use arran.Application.Consult.{start_consultation, continue_consultation}
use arran.Application.Outcome.{update_consultation_result_use}
use arran.Application.Review.{create_monthly_review}
use arran.Handler.Requests.{Form, Input, Server}
use arran.Handler.{
  empty, healthy, profile_body, preview_body, commit_body, transactions_body, transaction_body,
  dashboard_body, consultation_body, consultations_body, review_body, memory_body, memories_body,
  Handler, write_json, write_error, respond, decode_json, decode_optional_json, for_id, parse_limit,
}

-- The routes of `New`, with the text at `{id}`.
pub data Route : Type 0 where
  get_health get_profile_route put_profile_route : Route
  preview_route commit_route list_transactions_route : Route
  update_transaction_route : String → Route
  dashboard_route start_route : Route
  continue_route update_result_route : String → Route
  list_consultations_route : Route
  get_consultation_route : String → Route
  create_review_route latest_review_route list_memories_route create_memory_route : Route
  update_memory_route delete_memory_route : String → Route

-- The pattern that `New` gives each route to the multiplexer with; health has `GET /healthz` too.
abbrev pub pattern : Route → String
pattern get_health = "GET /health"
pattern get_profile_route = "GET /profile"
pattern put_profile_route = "PUT /profile"
pattern preview_route = "POST /transactions/import/preview"
pattern commit_route = "POST /transactions/import/commit"
pattern list_transactions_route = "GET /transactions"
pattern (update_transaction_route id) = "PATCH /transactions/{id}"
pattern dashboard_route = "GET /dashboard/monthly"
pattern start_route = "POST /consultations"
pattern (continue_route id) = "POST /consultations/{id}/messages"
pattern (update_result_route id) = "PATCH /consultations/{id}/result"
pattern list_consultations_route = "GET /consultations"
pattern (get_consultation_route id) = "GET /consultations/{id}"
pattern create_review_route = "POST /reviews/monthly"
pattern latest_review_route = "GET /reviews/latest"
pattern list_memories_route = "GET /memories"
pattern create_memory_route = "POST /memories"
pattern (update_memory_route id) = "PATCH /memories/{id}"
pattern (delete_memory_route id) = "DELETE /memories/{id}"

abbrev pub no_mapping : CsvMapping
no_mapping = record {
  date_column = "";
  description_column = "";
  amount_column = "";
  debit_column = "";
  credit_column = "";
}

abbrev pub chosen : Server → String → Option CsvMapping
chosen server text = if text == "" then some no_mapping else server.codec.mapping text

-- `previewImport` with the bytes of the file, of which it reads 20 MiB.
unfoldable pub preview_file : Server → Env → Form → List ℕ → Option CsvMapping → Handler
unfolding respond preview_import take
preview_file server env form bytes none w = (write_error 400 "invalid_mapping" "列マッピングが不正です。", w)
preview_file server env form bytes (some mapping) w =
    respond 200 preview_body
      (preview_import server.library env (take (20 * 2 ^ 20) bytes) mapping form.source
        form.source_account_name)
      w

unfoldable pub preview_form : Server → Env → Form → Option (Option (List ℕ)) → Handler
unfolding preview_file
preview_form server env form none w = (write_error 400 "file_required" "CSVファイルを選択してください。", w)
preview_form server env form (some none) w = (write_error 400 "invalid_csv" "CSVファイルを読み取れません。", w)
preview_form server env form (some (some bytes)) w =
    preview_file server env form bytes (chosen server form.mapping) w

-- `previewImport`
unfoldable pub preview_handler : Server → Env → Option Form → Handler
unfolding preview_form
preview_handler server env none w = (write_error 400 "invalid_csv" "CSVファイルを読み取れません。", w)
preview_handler server env (some form) w = preview_form server env form form.file w

unfoldable pub health_handler : Server → Env → Input → Handler
health_handler server env input = write_json 200 healthy

unfoldable pub get_profile_handler : Server → Env → Input → Handler
unfolding respond Records.get_profile
get_profile_handler server env input = respond 200 profile_body (Records.get_profile env.user_id)

unfoldable pub put_profile_handler : Server → Env → Input → Handler
unfolding respond decode_json put_profile
put_profile_handler server env input =
    decode_json server.codec.profile input.body
      λ profile. respond 200 profile_body (put_profile env profile)

unfoldable pub commit_handler : Server → Env → Input → Handler
unfolding respond decode_json commit_import
commit_handler server env input =
    decode_json server.codec.preview_id input.body
      λ id. respond 200 commit_body (commit_import env id)

unfoldable pub list_transactions_handler : Server → Env → Input → Handler
unfolding respond parse_limit list_transactions_use
list_transactions_handler server env input =
    respond 200 (λ items. transactions_body items categories)
      (list_transactions_use env input.month (parse_limit input.limit))

unfoldable pub update_transaction_handler : Server → Env → String → Input → Handler
unfolding respond decode_json for_id update_category
update_transaction_handler server env id input = for_id id λ id.
    decode_json server.codec.category input.body λ request.
      respond 200 transaction_body
        (update_category env id request.category request.remember_merchant)

unfoldable pub dashboard_handler : Server → Env → Input → Handler
unfolding respond Settings.dashboard
dashboard_handler server env input = respond 200 dashboard_body (Settings.dashboard env input.month)

unfoldable pub start_handler : Server → Env → Input → Handler
unfolding respond decode_json start_consultation
start_handler server env input = decode_json server.codec.message input.body λ request.
    respond 201 consultation_body
      (start_consultation server.services env request.message request.planned_amount)

unfoldable pub continue_handler : Server → Env → String → Input → Handler
unfolding respond decode_json for_id continue_consultation
continue_handler server env id input = for_id id λ id.
    decode_json server.codec.message input.body λ request.
      respond 200 consultation_body
        (continue_consultation server.services env id request.message request.planned_amount)

unfoldable pub update_result_handler : Server → Env → String → Input → Handler
unfolding respond decode_json for_id update_consultation_result_use
update_result_handler server env id input = for_id id λ id.
    decode_json server.codec.result input.body λ update.
      respond 200 consultation_body (update_consultation_result_use server.services env id update)

unfoldable pub list_consultations_handler : Server → Env → Input → Handler
unfolding respond parse_limit list_consultations_use
list_consultations_handler server env input =
    respond 200 consultations_body (list_consultations_use env (parse_limit input.limit))

unfoldable pub get_consultation_handler : Server → Env → String → Input → Handler
unfolding respond for_id Records.get_consultation
get_consultation_handler server env id input =
    for_id id λ id. respond 200 consultation_body (Records.get_consultation env.user_id id)

unfoldable pub create_review_handler : Server → Env → Input → Handler
unfolding respond decode_optional_json create_monthly_review
create_review_handler server env input =
    decode_optional_json server.codec.month "" input.content_length input.body λ month.
      respond 201 review_body (create_monthly_review server.sorting server.services env month)

unfoldable pub latest_review_handler : Server → Env → Input → Handler
unfolding respond Records.latest_review
latest_review_handler server env input = respond 200 review_body (Records.latest_review env.user_id)

unfoldable pub list_memories_handler : Server → Env → Input → Handler
unfolding respond Records.list_memories
list_memories_handler server env input =
    respond 200 memories_body (Records.list_memories env.user_id)

unfoldable pub create_memory_handler : Server → Env → Input → Handler
unfolding respond decode_json Settings.save_memory
create_memory_handler server env input =
    decode_json server.codec.memory input.body
      λ item. respond 201 memory_body (Settings.save_memory env (record item { id = 0 }))

unfoldable pub update_memory_handler : Server → Env → String → Input → Handler
unfolding respond decode_json for_id Settings.save_memory
update_memory_handler server env id input = for_id id λ id.
    decode_json server.codec.memory input.body
      λ item. respond 200 memory_body (Settings.save_memory env (record item { id = id }))

unfoldable pub delete_memory_handler : Server → Env → String → Input → Handler
unfolding respond for_id Records.delete_memory
delete_memory_handler server env id input =
    for_id id λ id. respond 204 (λ _. empty) (Records.delete_memory env.user_id id)

-- The handler of each route.
unfoldable pub handle : Server → Env → Route → Input → Handler
unfolding preview_handler health_handler get_profile_handler put_profile_handler commit_handler
    list_transactions_handler update_transaction_handler dashboard_handler start_handler
    continue_handler update_result_handler list_consultations_handler get_consultation_handler
    create_review_handler latest_review_handler list_memories_handler create_memory_handler
    update_memory_handler delete_memory_handler
handle server env get_health input = health_handler server env input
handle server env get_profile_route input = get_profile_handler server env input
handle server env put_profile_route input = put_profile_handler server env input
handle server env preview_route input = preview_handler server env input.form
handle server env commit_route input = commit_handler server env input
handle server env list_transactions_route input = list_transactions_handler server env input
handle server env (update_transaction_route id) input =
    update_transaction_handler server env id input
handle server env dashboard_route input = dashboard_handler server env input
handle server env start_route input = start_handler server env input
handle server env (continue_route id) input = continue_handler server env id input
handle server env (update_result_route id) input = update_result_handler server env id input
handle server env list_consultations_route input = list_consultations_handler server env input
handle server env (get_consultation_route id) input = get_consultation_handler server env id input
handle server env create_review_route input = create_review_handler server env input
handle server env latest_review_route input = latest_review_handler server env input
handle server env list_memories_route input = list_memories_handler server env input
handle server env create_memory_route input = create_memory_handler server env input
handle server env (update_memory_route id) input = update_memory_handler server env id input
handle server env (delete_memory_route id) input = delete_memory_handler server env id input

-- `corsMiddleware` before the handler of a route
unfoldable pub cors : String → Handler → Handler
cors method next w = if method == "OPTIONS" then write_json 204 empty w else next w
