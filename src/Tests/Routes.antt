-- ===== src/Tests/Routes.antt =====
-- Requests to the handlers: read, refused, and behind the authentication.
use arran.Prelude.{◌≡◌, refl, ◌<◌, ◌≤◌, ◌^◌, ◌↔◌, arith, String, true, false, Option, none, some}
use arran.Prelude.Int.{negsuc}
use arran.Domain.{Profile}
use arran.World.{statement}
use arran.Auth.Password.{verify_password, hash_password}
use arran.Tests.Crypto.{encode, encode_byte, decode}
use arran.World.Monad.{failure}
use arran.Application.Settings.{validate_profile}
use arran.Auth.Service.{Request, wrap}
use arran.Handler.{profile_body, internal_error, service_error, parse_id}
use arran.Handler.Requests.{Input, Codec, Server}
use arran.Handler.Routes.{
  Route, get_profile_route, put_profile_route, start_route, update_memory_route, handle,
}
use arran.Handler.Ids.{parse_id_range}
use arran.Handler.Reads.{is_get, handle_get}
use arran.Handler.Refused.{IsRefused, handle-IsRefused}
use arran.Handler.Refused.Invalid.{Told, handle-Told}
use arran.Handler.Guarded.{
  handled, IsGuarded, KeepsAccounts, serve_request, serve_request-IsGuarded,
}
use arran.Tests.{env, world, profile, services}
use arran.Tests.Files.{library}
use arran.Tests.Reviews.{in_place}
use arran.Tests.Auth.{service, profile_request, logged_in}

abbrev strict : Profile
strict = record profile { advice_strictness = "普通" }

-- Decoders that know one text each.
abbrev codec : Codec
codec = record {
  profile = λ text. some (strict, true);
  preview_id = λ text. some (text, true);
  category = λ text. none;
  message = λ text. some (record { message = text; planned_amount = some (negsuc 0) }, true);
  result = λ text. none;
  month = λ text. some (text, false);
  memory = λ text. none;
  mapping = λ text. none;
}

abbrev server : Server
server = record { library = library; codec = codec; sorting = in_place; services = services }

abbrev input : Input
input = record {
  limit = "-3";
  month = "2026-11";
  content_length = some 4;
  body = "買う";
  form = none;
}

handle_get_example : (handle server env get_profile_route input world).1.db ≡ world.db
unfolding is_get
handle_get_example = handle_get server env get_profile_route input world refl

handle-IsRefused_example : IsRefused world (handle server env (update_memory_route "0") input world)
unfolding parse_id
handle-IsRefused_example = handle-IsRefused server env (update_memory_route "0") input world refl

handle-Told_example :
    (handle server env put_profile_route input world
      ≡ (service_error (failure "AIの厳しさを選択してください"), world))
    × Told (failure "AIの厳しさを選択してください")
unfolding validate_profile
handle-Told_example =
    handle-Told server env put_profile_route input world (failure "AIの厳しさを選択してください") refl

-- A negative planned amount is the user's error, and is answered as the server's.
negative_planned : handle server env start_route input world ≡ (internal_error, world)
unfolding handle
negative_planned = refl

parse_id_range_example : ((1 ≤ 42) × (42 < 2 ^ 63)) ↔ ((text : String) × (parse_id text ≡ some 42))
parse_id_range_example = parse_id_range 42

abbrev mux : Request → Option Route
mux request = some get_profile_route

serve_request-IsGuarded_example :
    IsGuarded service server env profile_request (mux profile_request) input logged_in.1 world (
      let out = serve_request service server mux env profile_request input (logged_in.1, world) in
      (out.0, out.2))
    × KeepsAccounts profile_request logged_in.1
        (serve_request service server mux env profile_request input (logged_in.1, world)).1
serve_request-IsGuarded_example =
    serve_request-IsGuarded service server mux env profile_request input logged_in.1 world
      (λ h. ground arith)

let_in :
    (serve_request service server mux env profile_request input (logged_in.1, world)).0
    ≡ handled (record { status = 200; body = profile_body profile })
unfolding serve_request wrap verify_password hash_password encode encode_byte decode statement
let_in = refl
