-- ===== src/Handler/Refused/Invalid.antt =====
-- What server/internal/handler/handler.go answers to input that application.go finds invalid.
use arran.Prelude.{
  ℕ, ◌≡◌, refl, ap, String, Bool, true, false, not, ◌⊎◌, inl, inr, Option, none, some,
  if◌then◌else◌, arith,
}
use mathlib.Core.Path.{subst}
use mathlib.Core.Option.{some-injective}
use arran.Prelude.Text.{member, trim_space}
use arran.Domain.{Profile, MemoryItem, ConsultationResultUpdate, categories}
use arran.World.{World, Env, Action}
use arran.World.Monad.{Error, not_found, failure, raise, ◌>>=◌}
use arran.Application.Settings as Settings
use arran.Application.Settings.{
  validate_profile, validate_memory, check, put_profile, update_category,
}
use arran.Application.Consult.{validate_start, start_consultation}
use arran.Application.Outcome.{validate_result, update_consultation_result_use}
use arran.Handler.{
  Body, profile_body, transaction_body, consultation_body, memory_body, Handler, service_error,
  invalid_request, internal_error, respond, decode_json, with_decoded, with_id, for_id, parse_id,
  is_user_error,
}
use arran.Handler.Requests.{Input, Server, CategoryRequest, MessageRequest}
use arran.Handler.Routes.{
  Route, get_health, get_profile_route, put_profile_route, preview_route, commit_route,
  list_transactions_route, update_transaction_route, dashboard_route, start_route, continue_route,
  update_result_route, list_consultations_route, get_consultation_route, create_review_route,
  latest_review_route, list_memories_route, create_memory_route, update_memory_route,
  delete_memory_route, handle,
}

abbrev pub checked : {A : Type 0} → (A → Option Error) → Option (A × Bool) → Option Error
checked validate (some (a, true)) = validate a
checked validate _ = none

abbrev pub of_id : Option ℕ → Option Error → Option Error
of_id (some id) e = e
of_id none e = none

abbrev pub validate_category : CategoryRequest → Option Error
validate_category request =
    if not (member request.category categories) then some (failure "未対応のカテゴリです") else none

abbrev pub validate_message : MessageRequest → Option Error
validate_message request = validate_start (trim_space request.message) request.planned_amount

-- The error that the application finds at once in what the route reads.
abbrev pub fault_of : Server → Route → Input → Option Error
fault_of server put_profile_route input = checked validate_profile (server.codec.profile input.body)
fault_of server (update_transaction_route id) input =
    of_id (parse_id id) (checked validate_category (server.codec.category input.body))
fault_of server start_route input = checked validate_message (server.codec.message input.body)
fault_of server (update_result_route id) input =
    of_id (parse_id id) (checked validate_result (server.codec.result input.body))
fault_of server create_memory_route input = checked validate_memory (server.codec.memory input.body)
fault_of server (update_memory_route id) input =
    of_id (parse_id id) (checked validate_memory (server.codec.memory input.body))
fault_of server _ input = none

-- An error of input is answered by 400 and its text; that of a negative planned amount by 500.
abbrev pub Told : Error → Type 0
Told not_found = ⊥
Told (failure text) =
    (service_error (failure text) ≡ invalid_request text)
    ⊎ ((text ≡ "予定額は0円以上にしてください") × (service_error (failure text) ≡ internal_error))

record SomeTold (found : Option Error) : Type 0 where
  at : (e : Error) → found ≡ some e → Told e

none-SomeTold : SomeTold none
none-SomeTold = record { at = λ e h. ground arith }

some-SomeTold : (e : Error) → Told e → SomeTold (some e)
some-SomeTold e t = record { at = λ f h. subst Told (some-injective _ _ h) t }

user_error-Told : (text : String) → is_user_error text ≡ true → Told (failure text)
unfolding service_error
user_error-Told text h = inl (rw h)

negative_amount-Told : Told (failure "予定額は0円以上にしてください")
unfolding service_error
negative_amount-Told = inr (refl, refl)

if-SomeTold :
    (b : Bool) (e : Error) (rest : Option Error)
    → Told e
    → SomeTold rest
    → SomeTold (if b then some e else rest)
if-SomeTold true e rest t k = some-SomeTold e t
if-SomeTold false e rest t k = k

validate_profile-Told : (p : Profile) → SomeTold (validate_profile p)
unfolding validate_profile is_user_error
validate_profile-Told p = search (if-SomeTold, none-SomeTold, user_error-Told)

validate_memory-Told : (item : MemoryItem) → SomeTold (validate_memory item)
unfolding validate_memory is_user_error
validate_memory-Told item = search (if-SomeTold, none-SomeTold, user_error-Told)

validate_result-Told : (update : ConsultationResultUpdate) → SomeTold (validate_result update)
unfolding validate_result is_user_error
validate_result-Told update = search (if-SomeTold, none-SomeTold, user_error-Told)

validate_message-Told : (request : MessageRequest) → SomeTold (validate_message request)
unfolding validate_start is_user_error
validate_message-Told request =
    search (if-SomeTold, none-SomeTold, user_error-Told, negative_amount-Told)

validate_category-Told : (request : CategoryRequest) → SomeTold (validate_category request)
unfolding is_user_error
validate_category-Told request = search (if-SomeTold, none-SomeTold, user_error-Told)

checked-SomeTold :
    {A : Type 0} (validate : A → Option Error) (o : Option (A × Bool))
    → ((a : A) → SomeTold (validate a))
    → SomeTold (checked validate o)
checked-SomeTold validate none t = none-SomeTold
checked-SomeTold validate (some (a, true)) t = t a
checked-SomeTold validate (some (a, false)) t = none-SomeTold

of_id-SomeTold : (id : Option ℕ) (o : Option Error) → SomeTold o → SomeTold (of_id id o)
of_id-SomeTold none o t = none-SomeTold
of_id-SomeTold (some id) o t = t

-- A handler answers with this error, if there is one, and changes nothing.
abbrev Fails : Option Error → Handler → Type 0
Fails found handler = (e : Error) (w : World) → found ≡ some e → handler w ≡ (service_error e, w)

check-Fails :
    {A : Type 0} (found : Option Error) (status : ℕ) (body : A → Body) (rest : Unit {0} → Action A)
    → Fails found (respond status body (check found >>= rest))
unfolding respond check raise ◌>>=◌
check-Fails none status body rest e w h = ground arith
check-Fails (some f) status body rest e w h = ap (λ g. (service_error g, w)) (some-injective _ _ h)

decoded-Fails :
    {A : Type 0} (validate : A → Option Error) (o : Option (A × Bool)) (rest : A → Handler)
    → ((a : A) → Fails (validate a) (rest a))
    → Fails (checked validate o) (with_decoded rest o)
decoded-Fails validate none rest f e w h = ground arith
decoded-Fails validate (some (a, true)) rest f e w h = f a e w h
decoded-Fails validate (some (a, false)) rest f e w h = ground arith

id-Fails :
    (id : Option ℕ) (found : Option Error) (rest : ℕ → Handler)
    → ((n : ℕ) → Fails found (rest n))
    → Fails (of_id id found) (with_id rest id)
id-Fails none found rest f e w h = ground arith
id-Fails (some n) found rest f e w h = f n e w h

if-Fails :
    {A : Type 0} (b : Bool) (found : Error) (status : ℕ) (body : A → Body) (action : Action A)
    → Fails
        (if b then some found else none)
        (respond status body (if b then raise found else action))
unfolding respond raise
if-Fails true found status body action e w h = ap (λ g. (service_error g, w)) (some-injective _ _ h)
if-Fails false found status body action e w h = ground arith

none-Fails : (handler : Handler) → Fails none handler
none-Fails handler e w h = ground arith

fault_of-SomeTold :
    (server : Server) (route : Route) (input : Input) → SomeTold (fault_of server route input)
fault_of-SomeTold server put_profile_route input =
    checked-SomeTold validate_profile _ validate_profile-Told
fault_of-SomeTold server (update_transaction_route id) input =
    of_id-SomeTold (parse_id id) _ (checked-SomeTold validate_category _ validate_category-Told)
fault_of-SomeTold server start_route input =
    checked-SomeTold validate_message _ validate_message-Told
fault_of-SomeTold server (update_result_route id) input =
    of_id-SomeTold (parse_id id) _ (checked-SomeTold validate_result _ validate_result-Told)
fault_of-SomeTold server create_memory_route input =
    checked-SomeTold validate_memory _ validate_memory-Told
fault_of-SomeTold server (update_memory_route id) input =
    of_id-SomeTold (parse_id id) _ (checked-SomeTold validate_memory _ validate_memory-Told)
fault_of-SomeTold server get_health input = none-SomeTold
fault_of-SomeTold server get_profile_route input = none-SomeTold
fault_of-SomeTold server preview_route input = none-SomeTold
fault_of-SomeTold server commit_route input = none-SomeTold
fault_of-SomeTold server list_transactions_route input = none-SomeTold
fault_of-SomeTold server dashboard_route input = none-SomeTold
fault_of-SomeTold server (continue_route id) input = none-SomeTold
fault_of-SomeTold server list_consultations_route input = none-SomeTold
fault_of-SomeTold server (get_consultation_route id) input = none-SomeTold
fault_of-SomeTold server create_review_route input = none-SomeTold
fault_of-SomeTold server latest_review_route input = none-SomeTold
fault_of-SomeTold server list_memories_route input = none-SomeTold
fault_of-SomeTold server (delete_memory_route id) input = none-SomeTold

handle-Fails :
    (server : Server) (env : Env) (route : Route) (input : Input)
    → Fails (fault_of server route input) (handle server env route input)
unfolding handle for_id decode_json put_profile update_category start_consultation
    update_consultation_result_use Settings.save_memory
handle-Fails server env put_profile_route input =
    decoded-Fails validate_profile (server.codec.profile input.body) _
      (λ profile. check-Fails (validate_profile profile) 200 profile_body _)
handle-Fails server env (update_transaction_route id) input =
    id-Fails (parse_id id) (checked validate_category (server.codec.category input.body)) _ (λ n.
      decoded-Fails validate_category (server.codec.category input.body) _
        (λ request. if-Fails (not (member request.category categories)) _ 200 transaction_body _))
handle-Fails server env start_route input =
    decoded-Fails validate_message (server.codec.message input.body) _
      (λ request. check-Fails (validate_message request) 201 consultation_body _)
handle-Fails server env (update_result_route id) input =
    id-Fails (parse_id id) (checked validate_result (server.codec.result input.body)) _ (λ n.
      decoded-Fails validate_result (server.codec.result input.body) _
        (λ update. check-Fails (validate_result update) 200 consultation_body _))
handle-Fails server env create_memory_route input =
    decoded-Fails validate_memory (server.codec.memory input.body) _
      (λ item. check-Fails (validate_memory item) 201 memory_body _)
handle-Fails server env (update_memory_route id) input =
    id-Fails (parse_id id) (checked validate_memory (server.codec.memory input.body)) _ (λ n.
      decoded-Fails validate_memory (server.codec.memory input.body) _
        (λ item. check-Fails (validate_memory item) 200 memory_body _))
handle-Fails server env get_health input = none-Fails _
handle-Fails server env get_profile_route input = none-Fails _
handle-Fails server env preview_route input = none-Fails _
handle-Fails server env commit_route input = none-Fails _
handle-Fails server env list_transactions_route input = none-Fails _
handle-Fails server env dashboard_route input = none-Fails _
handle-Fails server env (continue_route id) input = none-Fails _
handle-Fails server env list_consultations_route input = none-Fails _
handle-Fails server env (get_consultation_route id) input = none-Fails _
handle-Fails server env create_review_route input = none-Fails _
handle-Fails server env latest_review_route input = none-Fails _
handle-Fails server env list_memories_route input = none-Fails _
handle-Fails server env (delete_memory_route id) input = none-Fails _

-- For every server, user, route, input and world: where the application finds a fault in the
-- profile, category, message, result or memory that the route reads, the answer is that error's, and
-- nothing has changed. The answer is 400 with the error's text, but 500 for a planned amount below
-- 0.
pub handle-Told :
    (server : Server) (env : Env) (route : Route) (input : Input) (w : World) (e : Error)
    → fault_of server route input ≡ some e
    → (handle server env route input w ≡ (service_error e, w)) × Told e
handle-Told server env route input w e h =
    (handle-Fails server env route input e w h, (fault_of-SomeTold server route input).at e h)
