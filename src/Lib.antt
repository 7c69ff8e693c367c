-- ===== src/Lib.antt =====
-- SecureVault: an encrypted, content-addressed file server with sharing. This library models the Go
-- program under internal/ and cmd/ and states what makes its parts correct.
--
-- The parts and their files:
--   Platform     what the program uses and does not implement (AES-GCM, SHA-256, the random source,
--                the clock, unicode, mime and net/http, the outcome of each external call), as a
--                parameter; Platform/Laws has the documented behaviour that theorems assume
--   Database     the rows of internal/database/migrations, and tables read and written by a column
--   Effect       a call as a function of the world (tables, audit log, disk, `done` flags, number of
--                the next external call) to a result and a world, with early returns, deferred
--                cleanups and transactions with rollback; its child modules take calls apart
--   Authz        internal/authz/authz.go (Can, CanAdministrate)
--   Auth         internal/auth: User is the principal; Sessions is token.go, and createSession,
--                ValidateSession, Logout and isThrottled of service.go; Login is Login, loginFailed and
--                ChangePassword; Registration is Register and admitRegistration, and Policy, Codes and
--                Invites are the rest of registration.go; Password is password.go, with Base64 and
--                Scan (fmt.Sscanf)
--   Audit        internal/audit/audit.go (Record)
--   Storage      internal/storage: Crypto is crypto.go, Store is store.go (New, Stage, Commit, Abort,
--                Open, Exists, Remove), Disk the file operations that they use
--   Files        internal/files: Validate is validate.go (SanitizeFilename, ValidateContent);
--                Statements is the SQL of files.go; Node (NewRepo, loadNode, authorize), Upload
--                (Upload, insertUpload), Listing (List, Stat), Access (Download, Rename, Delete) and
--                Sharing (Share, Revoke) are files.go; Requests is a sequence of all of these. Quiet
--                and Preserved say what they all keep; Counts, Shared and Stored are the invariants
--                of the references, the grants and the objects (Held); Listed is about List, and
--                Granted about Share and Revoke
--   Text         the functions of strings, strconv, unicode/utf8 and encoding/hex that are used
--   Config       internal/config/config.go (Load), over an environment as a function
--   Database/Migrations  internal/database/database.go (loadMigrations, applyOne, Migrate), over what
--                PostgreSQL does with a script, as a parameter
--   Startup      cmd/server/main.go (run), from the environment to the server that listens
--   Api          internal/api: Server is the table of the endpoints, Guards the guards of middleware.go,
--                Middleware its chain with the other routes, Answer the mapping of errors and the shared
--                helpers of server.go; FileHandlers, AuthHandlers and AdminHandlers are the handlers
--   Tests        concrete runs
--
-- A handler authorizes through Authz, reads and writes the tables in statements and transactions,
-- calls the store for content, and records audit events. An external call fails where the platform
-- says so for its number, so every error path of the source is a run of the model. Bytes are natural
-- numbers and texts that the program looks into are lists of bytes; times are numbers of nanoseconds.
-- Loops are structural recursion, and no fuel is used. int64 is written out where it overflows
-- (`read_limit`, and `wrap64` for the hours of an invite). Requests are served one after another,
-- but for a delete, whose transaction and removal are also taken apart, with requests between them
-- (Files/Stored/Interleaved).
--
-- Not modelled: the decoding of JSON and of multipart bodies (a request of the model carries the
-- decoded parts, or that decoding failed), net/http's routing and its file server; log lines;
-- http.Server and the exit of the process; the time that a password check takes; loss of power
-- between two writes; a COMMIT that is carried out although the connection is lost before its answer;
-- a panic of a handler (withRecovery is modelled, and only passes answers on); the web client.
pub mod Base
pub mod Text
pub mod Config
pub mod Platform
pub mod Database
pub mod Startup
pub mod Effect
pub mod Auth
pub mod Authz
pub mod Storage
pub mod Audit
pub mod Files
pub mod Api
pub mod Tests
