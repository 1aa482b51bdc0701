-- ===== src/Handler/Requests.antt =====
-- What the handlers of server/internal/handler/handler.go read of a request, and what they run with.
use arran.Prelude.{ℕ, String, Bool, Option, List}
use arran.Prelude.Int.{ℤ}
use arran.Domain.{Profile, MemoryItem, ConsultationResultUpdate, CsvMapping}
use arran.Csv.Rows.{Library}
use arran.Application.{Services}
use arran.Application.Review.Subscriptions.{Sorting}
use arran.Handler.{Decoder}

pub record CategoryRequest : Type 0 where
  pub category : String
  pub remember_merchant : Bool

pub record MessageRequest : Type 0 where
  pub message : String
  pub planned_amount : Option ℤ

-- A form of several parts: its file, `some none` where reading it fails, and three of its values.
pub record Form : Type 0 where
  pub file : Option (Option (List ℕ))
  pub mapping : String
  pub source : String
  pub source_account_name : String

-- What a handler reads of a request: its query, its body, and its form, if that can be read.
pub record Input : Type 0 where
  pub limit : String
  pub month : String
  pub content_length : Option ℕ
  pub body : String
  pub form : Option Form

-- The decoders of JSON, one for each type.
pub record Codec : Type 0 where
  pub profile : Decoder Profile
  pub preview_id : Decoder String
  pub category : Decoder CategoryRequest
  pub message : Decoder MessageRequest
  pub result : Decoder ConsultationResultUpdate
  pub month : Decoder String
  pub memory : Decoder MemoryItem
  pub mapping : String → Option CsvMapping

-- What the handlers run with.
pub record Server : Type 0 where
  pub library : Library
  pub codec : Codec
  pub sorting : Sorting
  pub services : Services
