-- ===== src/Handler.antt =====
-- server/internal/handler/handler.go: how a request is read and an outcome is answered. The headers
-- and the log, which no answer depends on, are left out.
pub mod Requests
pub mod Routes
pub mod Refused
pub mod Ids
pub mod Reads
pub mod Guarded
use arran.Prelude.{
  ℕ, zero, suc, String, Bool, true, false, Option, none, some, List, [], ◌∷◌, if◌then◌else◌, any,
}
use arran.Prelude.Int.{ℤ, pos, negsuc}
use arran.Prelude.Text.{contains}
use arran.Domain.{
  Transaction, Profile, Dashboard, MemoryItem, Consultation, ConsultationResultUpdate,
  MonthlyReview, CsvMapping, ImportPreview, ImportCommitResult,
}
use arran.World.{World, Action}
use arran.World.Monad.{Error, not_found, failure, Result, ok, err}
use arran.Csv.Digits.{parse_int}

-- The value that `writeJSON` encodes.
pub data Body : Type 0 where
  empty : Body
  healthy : Body
  error_body : String → String → Body
  profile_body : Profile → Body
  preview_body : ImportPreview → Body
  commit_body : ImportCommitResult → Body
  -- The items, and the categories beside them.
  transactions_body : List Transaction → List String → Body
  transaction_body : Transaction → Body
  dashboard_body : Dashboard → Body
  consultation_body : Consultation → Body
  consultations_body : List Consultation → Body
  review_body : MonthlyReview → Body
  memory_body : MemoryItem → Body
  memories_body : List MemoryItem → Body

pub record Response : Type 0 where
  pub status : ℕ
  pub body : Body

abbrev pub Handler : Type 0
Handler = World → Response × World

abbrev pub write_json : ℕ → Body → Handler
write_json status body w = (record { status = status; body = body }, w)

-- `writeError`
abbrev pub write_error : ℕ → String → String → Response
write_error status code message = record { status = status; body = error_body code message }

abbrev pub user_keywords : List String
user_keywords =
    "入力" ∷ "必須" ∷ "不正" ∷ "選択" ∷ "指定" ∷ "CSV" ∷ "列" ∷ "日付" ∷ "金額" ∷ "プレビュー" ∷ "カテゴリ" ∷ "メッセージ"
    ∷ "相談内容" ∷ "評価" ∷ []

-- `isUserError`
unfoldable pub is_user_error : String → Bool
unfolding any contains
is_user_error text = any (contains text) user_keywords

abbrev pub invalid_request : String → Response
invalid_request text = write_error 400 "invalid_request" text

abbrev pub internal_error : Response
internal_error = write_error 500 "internal_error" "処理に失敗しました。再試行してください。"

-- `writeServiceError`
unfoldable pub service_error : Error → Response
unfolding is_user_error
service_error not_found = write_error 404 "not_found" "対象データがありません。"
service_error (failure text) = if is_user_error text then invalid_request text else internal_error

abbrev pub answer_of : {A : Type 0} → ℕ → (A → Body) → Result A × World → Response × World
answer_of status body (ok a, w) = (record { status = status; body = body a }, w)
answer_of status body (err e, w) = (service_error e, w)

-- Calls the application and writes its value with this status, or its error.
unfoldable pub respond : {A : Type 0} → ℕ → (A → Body) → Action A → Handler
unfolding service_error
respond status body action w = answer_of status body (action w)

-- What a JSON decoder makes of a text: an error (`none`), or the first value, and whether nothing
-- else follows it.
abbrev pub Decoder : Type 0 → Type 0
Decoder A = String → Option (A × Bool)

abbrev pub bad_json : String → Response
bad_json text = write_error 400 "invalid_json" text

abbrev pub with_decoded : {A : Type 0} → (A → Handler) → Option (A × Bool) → Handler
with_decoded rest none w = (bad_json "JSONリクエストを読み取れません。", w)
with_decoded rest (some (a, false)) w = (bad_json "JSONは1つだけ送信してください。", w)
with_decoded rest (some (a, true)) w = rest a w

-- `decodeJSON`
unfoldable pub decode_json : {A : Type 0} → Decoder A → String → (A → Handler) → Handler
decode_json decoder text rest = with_decoded rest (decoder text)

-- `decodeOptionalJSON`: `length` is the content length, `none` where it is not known.
unfoldable pub decode_optional_json :
    {A : Type 0} → Decoder A → A → Option ℕ → String → (A → Handler) → Handler
unfolding decode_json
decode_optional_json decoder absent (some zero) text rest = rest absent
decode_optional_json decoder absent length text rest = decode_json decoder text rest

abbrev pub positive_id : Option ℤ → Option ℕ
positive_id (some (pos (suc n))) = some (suc n)
positive_id _ = none

-- `strconv.ParseInt` and the test of `parseID`
unfoldable pub parse_id : String → Option ℕ
unfolding parse_int
parse_id text = positive_id (parse_int text)

abbrev pub bad_id : Response
bad_id = write_error 400 "invalid_id" "IDが不正です。"

abbrev pub with_id : (ℕ → Handler) → Option ℕ → Handler
with_id rest none w = (bad_id, w)
with_id rest (some id) w = rest id w

-- `parseID`, and the rest of a handler
unfoldable pub for_id : String → (ℕ → Handler) → Handler
unfolding parse_id
for_id text rest = with_id rest (parse_id text)

abbrev pub limit_value : Option ℤ → ℕ
limit_value (some (pos n)) = n
limit_value _ = 0

-- `limit, _ := strconv.Atoi(text)`. A negative limit, and one that is no int, are 0 here; the
-- application takes its usual limit for each of these.
unfoldable pub parse_limit : String → ℕ
unfolding parse_int
parse_limit text = limit_value (parse_int text)
