-- ===== src/Lib.antt =====
-- The server of Spendable Today (server/): a household budget that is asked before one spends. A
-- user uploads the transactions of cards and accounts, keeps a profile with the month's budget,
-- and asks whether to buy something; the server judges the purchase by arithmetic and has a
-- language model put the judgement in words. Users log in for a bearer token.
--
-- The parts and their files, with the sources under server/internal/:
--
-- Domain, Domain/Spending: the records of domain/*.go and `EvaluateSpending` of
-- domain/spending.go. Domain/Spending/Verdict is about its verdict. Amounts are int64: additions
-- and subtractions wrap. A confidence is counted in thousandths, and an id is a natural number.
--
-- World, World/Monad, World/Tables, World/Keeps: what the program changes. A handler is an action
-- over a `World`: the tables of the .sql files beside repository.go, the previews that the
-- application keeps in memory, the failures that the database will answer with, one for each call
-- of it, and how many times the clock and the random ids were read. An action returns a result or
-- an error, and what it has written before an error stays written. An SQL table is a list of rows,
-- an upsert changes the first row of its key or adds one, and a column of JSON holds the value.
-- `transaction` puts back the rows of the tables where it returns an error, and leaves the
-- sequence of the transactions as it is.
--
-- Repository and its children: infrastructure/persistence/postgres/repository.go. Usage holds
-- the monthly quota of consultations, Notifications the claim, retry and completion of the
-- administrator's notification, Transactions the imports and queries, Transactions/Dashboard the
-- totals, Records the profile, consultations, memories and reviews. Usage/Quota, Usage/Actions,
-- Frame, Transactions/Dashboard/Totals, Transactions/Import, Transactions/Import/Duplicates,
-- Notifications/Status and Notifications/Protocol are about them; the last is a relation of steps,
-- for any number of requests at a time.
--
-- Adapter, Adapter/Disclosure: agentadapter/adapter.go, what is sent to a language model. The
-- models behind it (infrastructure/openai) are parameters, as functions of what they are sent.
--
-- Application and its children: application/application.go. Settings holds the profile, memories
-- and queries, Imports the previews and their commit (Imports/Commit and Imports/Remembered are
-- about them), Consult the consultations, Outcome what came of them (Outcome/Recorded and
-- Outcome/Remembered are about it), Review the monthly review
-- (Review/Subscriptions and Review/Candidates hold its candidates; Review/Labels,
-- Review/Intervals, Review/Saved and Review/Disclosure are about them). The agents and the
-- notifier are parameters. The order in which Go visits a map, and that of `sort.Slice` among
-- equals, is a parameter, `Sorting`.
--
-- Csv and its children: csvimport/importer.go. Digits are decimal numbers, Amount is ParseAmount,
-- Dates parseDate with time.Parse on the program's layouts, Merchant NormalizeMerchant, Categorize
-- and Fingerprint, Columns the detection and the mapping of columns, Rows normalizeRecord, Parse
-- Decode and Parse. Digits/RoundTrip, Digits/Plain, Amount/RoundTrip, Amount/Bounds,
-- Dates/RoundTrip, Merchant/Known, Rows/Accepted and Parse/Accounts are about them. The CSV
-- reader, the check of UTF-8, the Shift_JIS decoder, lower case in Unicode, the quoting of values
-- and SHA-256 are parameters.
--
-- Auth and its children: auth/auth.go, auth/password.go and
-- infrastructure/persistence/postgres/auth.go, over a state of their own, `AuthState`: the
-- tables of users, sessions and attempts, the coming failures, the time, and how many of the
-- four password checks run. RoundTrip, Sessions, RateLimit, Access and Unchanged are about them.
-- `Service` is what goes before every handler. SHA-256, base64,
-- PBKDF2, the JSON decoder and the split of an address are parameters.
--
-- Handler and its children: handler/handler.go, over the world. Handler holds the reading of ids
-- and JSON and the answers to errors, Handler/Requests what a request holds, Handler/Routes the
-- pattern and the handler of each route, Handler/Guarded their place behind `Wrap` (app/app.go).
-- Handler/Refused, Handler/Refused/Invalid, Handler/Reads and Handler/Ids are about them. The
-- multiplexer and the decoders of JSON and forms are parameters; headers, logs and the recovery
-- from panics are left out.
--
-- Config, Config/Load, Config/Kept: config/dotenv.go, the lines of a .env file and their place in
-- the process environment, an association list; Config/Kept is about it. The classes of
-- characters, `strconv.Unquote`, the files and what `os.Setenv` accepts are parameters.
--
-- Tests: concrete inputs, on which the theorems are applied and the definitions run.
--
-- Every loop is a recursion on its list or text; only the digits of a number are written with
-- fuel, 20, which is enough below 10 ^ 20. A time is a natural number
-- of seconds or, where a month is taken from it, a `Moment` with the texts that the program
-- formats.
--
-- Not modelled: the clients of the language model and of PagerDuty, the record of its usage, the
-- SQLite adapter, the rest of the configuration and the start of the program, the mobile
-- application and the infrastructure.
pub mod Prelude
pub mod Domain
pub mod World
pub mod Repository
pub mod Adapter
pub mod Application
pub mod Auth
pub mod Csv
pub mod Handler
pub mod Config
mod Tests
