-- ===== src/Lib.antt =====
-- A model of the Lectern server, the C++ server under src/ of this repository, with proofs of what
-- makes its parts correct.
--
-- The program. Clients keep workspaces of files on the server over HTTP. A request is answered by
-- a handler, which finds out who sent it (src/auth.cpp, src/session.cpp), works on the file tree
-- and the database (src/workspace.cpp, src/share.cpp), and tells the change hub (src/sync_hub.cpp)
-- which paths changed. The hub announces them over WebSockets to the owner's devices and to
-- whoever follows a shared path, and closes a connection that does not acknowledge in time. Limits
-- on logins, registrations and anonymous comments are kept by src/state.cpp. Accounts keep fonts
-- (src/fonts.cpp), which the PDF export (src/export.cpp) puts into the documents that it has a
-- browser print; src/downloads.cpp passes on the releases of the desktop program from GitHub.
--
-- How code and model correspond.
-- - Util: the string functions of src/util.cpp (fTrim to fExtensionOf). Strings are lists of
--   bytes.
-- - Paths: fSafeRelPath and fIsWorkFile of src/workspace.cpp; the loop is a structural recursion.
-- - Limiter: RateLimiter of src/state.cpp, a table from (client, bucket) to a counter.
-- - Hub: src/sync_hub.cpp. Hub.step is one call of it, Hub.run a sequence of calls in the order in
--   which the mutex lets them through; sends, closes and timers are a list of effects.
-- - Files: the file tree and the std::filesystem calls made on it, where ".." leads up a folder,
--   fWriteFileAtomic and fReadFile of src/util.cpp, fDirSizeBytes, fCollectFilesUnder and
--   fCheckQuota of src/workspace.cpp.
-- - Database: the tables of migrations/ and each SQL statement of the handlers as a function.
-- - World: the process-wide state (src/state.h), the handlers' monad (a state and an error that is
--   thrown; what was done before the throw stays done), requests and responses (src/http.h).
-- - Session, Auth: src/session.cpp and src/auth.cpp. Workspace: the handlers of src/workspace.cpp.
-- - Share: src/share.cpp, with the handlers in Share.Grants, Share.Links, Share.Shared and
--   Share.Comments. Json: what the code reads of nlohmann's values. Error: src/error.h.
-- - Listing: fWalkWorkDir of src/workspace.cpp and the three handlers that answer with its
--   listing.
-- - Fonts: src/fonts.cpp, with its statements in Database.Fonts. Downloads: src/downloads.cpp.
-- - Export: src/export.cpp. Export.Cdp is its class CdpSession, in a monad of its own with the
--   session for a state; what the browser sends while a call waits is a list of arrivals.
-- - Settings: the .env loader and the environment readers of src/util.cpp, and the settings that
--   src/main.cpp makes of them.
-- - Socket: src/sync_ws.cpp, what becomes of a new socket and of what arrives on it.
-- - Migrations: the readers of a row and the migration runner of src/db.cpp.
-- - Prelude holds the shared names and lemmas, Sample and the modules named Tests concrete runs.
--
-- Bounds. uint32_t and uint64_t counters wrap as written; theorems about the hub ask that its two
-- 64-bit counters have room. Sizes of files are below 2^64 where a theorem says so. On fuel run
-- digits and decimal (a number is below ten to the power of its successor, and a quota in
-- megabytes has fewer than twenty digits) and the walk of a folder, whose fuel is one more than
-- the length of the longest path in the tree: every step down makes the path longer by one.
--
-- Taken from outside, as fields of World.Env: libsodium's hashes and password functions,
-- nlohmann's parser and dump, the clocks and the random bytes; GitHub's answers, the base64
-- decoder and what the browser writes and sends are arguments of the functions that use them. The
-- wall clock stands still during a request, and requests run one after the other. Texts of errors
-- that quote the renderer are cut to their fixed part, and JSON numbers are the unsigned ones.
--
-- A handler's JSON is dumped where guard answers, with nothing left to do. A folder reads as an
-- empty text, as libstdc++ has it. A migration's transaction keeps what the database was at BEGIN.
--
-- Not modelled: drogon's event loop and the registration of the routes (src/main.cpp), SQLite and
-- the wrapper of its C API (src/db.cpp; what a migration's script does to a schema is a
-- parameter), the browser's process, its temporary folder and the semaphore of the renders
-- (src/export.cpp), modification times other than the time of the last write, symbolic links, and
-- failing disks. The order of rows that a statement's ORDER BY leaves open is that of the table.
pub mod Prelude
pub mod Error
pub mod Util
pub mod Paths
pub mod Limiter
pub mod Json
pub mod Hub
pub mod Files
pub mod Database
pub mod World
pub mod Session
pub mod Auth
pub mod Workspace
pub mod Fonts
pub mod Share
pub mod Listing
pub mod Downloads
pub mod Export
pub mod Settings
pub mod Socket
pub mod Migrations
pub mod Sample
