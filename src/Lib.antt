-- ===== src/Lib.antt =====
-- The Telegram gateway adapter of Orka: a model of its Go code, and proofs about it.
--
-- The program. Orka posts deliveries to the adapter, which sends them to Telegram once; Telegram
-- posts updates to the adapter, which admits them to Orka. A SQLite database remembers what was
-- sent and what was admitted, so that a repeated request or a restart does not send a message twice.
--
-- The files.
--   Prelude       the library's names that the rest uses; bytes as ℕ, strings as lists of bytes
--   Text          what the program uses of Go's strings, strconv, unicode/utf8 and encoding/json:
--                 TrimSpace, Fields, ReplaceAll, Split, ValidString, ToValidUTF8, the runes of a
--                 string, IsControl, ParseInt, FormatInt, PathEscape, QueryEscape, json.Valid and
--                 json.Compact
--   Store         internal/store: the tables (Db), SQL statements (Statements), transactions (Exec),
--                 queries (Query), the methods on deliveries (Deliveries for createOrBeginDelivery
--                 and its callers, Completion for updateDelivery, the Mark methods, the readers and
--                 recoverInterruptedDeliveries) and on updates (Updates); the migrations on a file
--                 (Migrate) and OpenContext (Open). Keeps, Ensures and Atomic are predicates on code
--                 that may fail; Reflects, Claims, Content, Finished, Fresh, Delivered, Messages,
--                 Extends, Responses, Lifecycle and History hold the proofs
--   Telegram      internal/telegram: ReplyTarget for reply_target.go and types.go, Update for the
--                 updates of types.go, Mapping for mapping.go, Client for how client.go classifies
--                 what an exchange comes to, Client/Send for SendMessage, Client/Setup for NewClient,
--                 GetMe, SetWebhook and Initialize
--   Protocol      internal/protocol: types.go and validate.go
--   Adapter       internal/adapter: Delivery for handleDelivery of server.go and for
--                 delivery_idempotency.go; Webhook for handleTelegramWebhook and admitEvent; Http for
--                 the bounded reads, the strict decoding and the index of the chat locks; Server for
--                 New, the routes, authentication and validateIngressURL. The children of Delivery
--                 and Webhook are about their calls, their answers and the database; Routing and
--                 Identities are about what an event and a later delivery request share
--   Config        internal/config/config.go: System for the environment and the file system, Secret
--                 for secret files, Load for Load and Validate
--   Command       cmd/orka-gateway-telegram/main.go: run, up to the server that listens
--
-- How the parts interact. Both handlers keep their state in the store only. The delivery handler
-- claims a delivery, calls the client and stores the outcome; the webhook handler maps an update,
-- admits it to the store, posts the event to Orka and stores the answer. The reply target that
-- mapping prints into an event comes back in a delivery request, where ParseReplyTarget reads it.
-- The command loads the configuration, opens the store, which recovers interrupted deliveries, asks
-- Telegram who the bot is, makes the server and sets the webhook.
--
-- How the state corresponds. A table is an association list in which the first row of a key counts;
-- Db has the five tables that the migrations of internal/store/store.go end with. A method is a
-- function from the database to a result and a database. SQLite runs writing transactions one at a
-- time, so what concurrent callers do is a list of calls (Store/History); the handlers take the
-- calls that reach the store while they wait as lists in their Environment. Each call is given the
-- clock that it reads and whether SQLite serves it. A transaction that fails at its start or at its
-- commit is one that SQLite does not serve. The migrations work on a File, which has
-- the recorded versions, the tables, column and index that exist, and the rows as a Db; OpenContext
-- migrates the file and then recovers its rows.
--
-- Bounds and fuel. Recursion is structural. FormatInt is given twenty rounds, the number of digits
-- of 2 ^ 64. The JSON scanner keeps the nesting limit of encoding/json. int64 values are integers
-- in the model; ParseInt refuses what does not fit, and the product in retryAfterDuration and the
-- limit + 1 of a bounded read wrap. Theorems that print and read an int64 value take its range as a
-- hypothesis. Times are milliseconds since 1970, the resolution of the store, but for the clock
-- reading to which the delivery handler adds the retry_after of Telegram, which is in nanoseconds.
--
-- Parameters: the segmentation of a text into grapheme clusters (github.com/rivo/uniseg), the
-- Unicode tables, the JSON decoder and encoder, SHA-256, what the HTTP exchanges with Telegram and
-- Orka come to, net/url and net/netip, time.ParseDuration, the environment and the file system, and
-- what the connection of SQLite answers.
--
-- Not modelled: the matching of requests by net/http, its headers and writeJSON, listening, signals
-- and shutdown, logging, the texts of the data source name and of the pragmas, and Close: they are
-- input and output. Of the chat locks the index is modelled and not the mutual exclusion: other
-- requests are calls that may reach the store at any of the handler's waits.
pub mod Prelude
pub mod Text
pub mod Store
pub mod Telegram
pub mod Protocol
pub mod Adapter
pub mod Config
pub mod Command
