-- ===== src/Handler/Refused.antt =====
-- The requests that server/internal/handler/handler.go refuses: those that it cannot read, and those
-- that the application finds invalid.
pub mod Invalid
use arran.Prelude.{
  ℕ, zero, suc, ◌≡◌, refl, String, Bool, true, false, ◌&&◌, Option, none, some, List, arith,
  Option-cases, inl, inr,
}
use arran.Domain.{CsvMapping}
use arran.World.{World, Env}
use arran.Handler.{
  Response, Handler, Decoder, with_decoded, with_id, decode_json, decode_optional_json, for_id,
  parse_id,
}
use arran.Handler.Requests.{Input, Server, Form}
use arran.Handler.Routes.{
  Route, get_health, get_profile_route, put_profile_route, preview_route, commit_route,
  list_transactions_route, update_transaction_route, dashboard_route, start_route, continue_route,
  update_result_route, list_consultations_route, get_consultation_route, create_review_route,
  latest_review_route, list_memories_route, create_memory_route, update_memory_route,
  delete_memory_route, chosen, preview_handler, preview_form, preview_file, handle,
}

abbrev pub is_one : {A : Type 0} → Option (A × Bool) → Bool
is_one (some (a, true)) = true
is_one _ = false

abbrev pub is_some : {A : Type 0} → Option A → Bool
is_some (some a) = true
is_some none = false

abbrev pub is_month_text : Decoder String → Option ℕ → String → Bool
is_month_text decoder (some zero) text = true
is_month_text decoder (some (suc n)) text = is_one (decoder text)
is_month_text decoder none text = is_one (decoder text)

abbrev pub is_file : Option (Option (List ℕ)) → Bool
is_file (some (some bytes)) = true
is_file _ = false

abbrev pub is_form : Server → Option Form → Bool
is_form server none = false
is_form server (some form) = is_file form.file && is_some (chosen server form.mapping)

-- Whether the id, the JSON and the form that a route takes can be read.
abbrev pub is_readable : Server → Route → Input → Bool
is_readable server put_profile_route input = is_one (server.codec.profile input.body)
is_readable server preview_route input = is_form server input.form
is_readable server commit_route input = is_one (server.codec.preview_id input.body)
is_readable server (update_transaction_route id) input =
    is_some (parse_id id) && is_one (server.codec.category input.body)
is_readable server start_route input = is_one (server.codec.message input.body)
is_readable server (continue_route id) input =
    is_some (parse_id id) && is_one (server.codec.message input.body)
is_readable server (update_result_route id) input =
    is_some (parse_id id) && is_one (server.codec.result input.body)
is_readable server (get_consultation_route id) input = is_some (parse_id id)
is_readable server create_review_route input =
    is_month_text server.codec.month input.content_length input.body
is_readable server create_memory_route input = is_one (server.codec.memory input.body)
is_readable server (update_memory_route id) input =
    is_some (parse_id id) && is_one (server.codec.memory input.body)
is_readable server (delete_memory_route id) input = is_some (parse_id id)
is_readable server _ input = true

-- The status is 400 and the world is as it was.
abbrev pub IsRefused : World → Response × World → Type 0
IsRefused w out = (out.0.status ≡ 400) × (out.1 ≡ w)

decoded-IsRefused :
    {A : Type 0} (o : Option (A × Bool)) (rest : A → Handler) (w : World)
    → is_one o ≡ false
    → IsRefused w (with_decoded rest o w)
decoded-IsRefused none rest w h = (refl, refl)
decoded-IsRefused (some (a, true)) rest w h = ground arith
decoded-IsRefused (some (a, false)) rest w h = (refl, refl)

id-IsRefused :
    {A : Type 0} (id : Option ℕ) (o : Option (A × Bool)) (rest : ℕ → A → Handler) (w : World)
    → (is_some id && is_one o) ≡ false
    → IsRefused w (with_id (λ n. with_decoded (rest n) o) id w)
id-IsRefused none o rest w h = (refl, refl)
id-IsRefused (some n) o rest w h = decoded-IsRefused o (rest n) w (ground arith)

id_only-IsRefused :
    (o : Option ℕ) (rest : ℕ → Handler) (w : World)
    → is_some o ≡ false
    → IsRefused w (with_id rest o w)
id_only-IsRefused none rest w h = (refl, refl)
id_only-IsRefused (some n) rest w h = ground arith

optional-IsRefused :
    (decoder : Decoder String) (length : Option ℕ) (text : String) (rest : String → Handler)
    (w : World)
    → is_month_text decoder length text ≡ false
    → IsRefused w (decode_optional_json decoder "" length text rest w)
unfolding decode_optional_json decode_json
optional-IsRefused decoder (some zero) text rest w h = ground arith
optional-IsRefused decoder (some (suc n)) text rest w h = decoded-IsRefused (decoder text) rest w h
optional-IsRefused decoder none text rest w h = decoded-IsRefused (decoder text) rest w h

mapping-IsRefused :
    (server : Server) (env : Env) (form : Form) (bytes : List ℕ) (o : Option CsvMapping) (w : World)
    → is_some o ≡ false
    → IsRefused w (preview_file server env form bytes o w)
unfolding preview_file
mapping-IsRefused server env form bytes none w h = (refl, refl)
mapping-IsRefused server env form bytes (some m) w h = ground arith

file-IsRefused :
    (server : Server) (env : Env) (form : Form) (file : Option (Option (List ℕ))) (w : World)
    → (is_file file && is_some (chosen server form.mapping)) ≡ false
    → IsRefused w (preview_form server env form file w)
unfolding preview_form
file-IsRefused server env form none w h = (refl, refl)
file-IsRefused server env form (some none) w h = (refl, refl)
file-IsRefused server env form (some (some bytes)) w h =
    mapping-IsRefused server env form bytes (chosen server form.mapping) w (ground arith)

form-IsRefused :
    (server : Server) (env : Env) (form : Option Form) (w : World)
    → is_form server form ≡ false
    → IsRefused w (preview_handler server env form w)
unfolding preview_handler
form-IsRefused server env none w h = (refl, refl)
form-IsRefused server env (some form) w h = file-IsRefused server env form form.file w h

-- For every server, user, route, input and world: where the id, the JSON or the form that the route
-- takes cannot be read, the answer has the status 400, and nothing has changed.
pub handle-IsRefused :
    (server : Server) (env : Env) (route : Route) (input : Input) (w : World)
    → is_readable server route input ≡ false
    → IsRefused w (handle server env route input w)
unfolding handle for_id decode_json
handle-IsRefused server env put_profile_route input w h =
    decoded-IsRefused (server.codec.profile input.body) _ w h
handle-IsRefused server env preview_route input w h = form-IsRefused server env input.form w h
handle-IsRefused server env commit_route input w h =
    decoded-IsRefused (server.codec.preview_id input.body) _ w h
handle-IsRefused server env (update_transaction_route id) input w h =
    id-IsRefused (parse_id id) (server.codec.category input.body) _ w h
handle-IsRefused server env start_route input w h =
    decoded-IsRefused (server.codec.message input.body) _ w h
handle-IsRefused server env (continue_route id) input w h =
    id-IsRefused (parse_id id) (server.codec.message input.body) _ w h
handle-IsRefused server env (update_result_route id) input w h =
    id-IsRefused (parse_id id) (server.codec.result input.body) _ w h
handle-IsRefused server env (get_consultation_route id) input w h =
    id_only-IsRefused (parse_id id) _ w h
handle-IsRefused server env create_review_route input w h =
    optional-IsRefused server.codec.month input.content_length input.body _ w h
handle-IsRefused server env create_memory_route input w h =
    decoded-IsRefused (server.codec.memory input.body) _ w h
handle-IsRefused server env (update_memory_route id) input w h =
    id-IsRefused (parse_id id) (server.codec.memory input.body) _ w h
handle-IsRefused server env (delete_memory_route id) input w h =
    id_only-IsRefused (parse_id id) _ w h
handle-IsRefused server env get_health input w h = ground arith
handle-IsRefused server env get_profile_route input w h = ground arith
handle-IsRefused server env list_transactions_route input w h = ground arith
handle-IsRefused server env dashboard_route input w h = ground arith
handle-IsRefused server env list_consultations_route input w h = ground arith
handle-IsRefused server env latest_review_route input w h = ground arith
handle-IsRefused server env list_memories_route input w h = ground arith
