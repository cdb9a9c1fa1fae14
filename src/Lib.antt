-- ===== src/Lib.antt =====
-- Agent Discovery Board: a directory in which agent services list themselves. A listing is a row of
-- one PostgreSQL table; it is written by anonymous POSTs, by requests that a wallet has signed, by
-- imports from other directories and by a purge of test data. This library models the code that
-- decides what may be written and what a write does, in app/ and scripts/.
--
-- The parts, and the files that model them:
--   app/core/rate_limit.py: RateLimit. `RateLimiter.check_ip` is `check_ip`, on a monotonic clock and
--     a UTC clock in microseconds; RateLimit/PerClient and RateLimit/Cap are about its two limits,
--     RateLimit/Windows about the table of windows and RateLimit/Wait about the wait of a refusal.
--   app/core/wallet_auth.py: WalletAuth. `verify_wallet_auth` takes and returns the nonce table; base64,
--     JSON, SHA-256 and the recovery of a signer are the record `Libraries`. Its theorems are in
--     WalletAuth/Sound, WalletAuth/Replay and WalletAuth/Message; WalletAuth/Gaps is about the inputs
--     on which the checks fall short.
--   app/core/endpoint.py: Endpoint. The key under which duplicates are found; `urllib.parse` is the
--     record `UrlLibrary`. Endpoint/Same is about the spellings of one service, and TextOrder about
--     the order that sorts a query's fields and a page's rows.
--   app/core/models.py, reserved.py, constants.py: Models, with the regular expressions in
--     Models/Shapes, payment options in Models/Payment and prices in Models/Pricing.
--   app/core/db.py: Listing (the row), Store (the statements on listings, with the unique indexes as
--     `clash`), ImportStore (imports, the do-not-import list, the marking of missing rows, the purge),
--     and Tables, where every statement is a step of one relation. A statement runs on the whole
--     table at once; a write that an index refuses is `violation` and changes nothing.
--   app/core/db.py and pagination.py: Search (the filters, the three modes of a search and the order of each;
--     Search/Pages is about a page and the rows that follow it), Facets (the counts of the buckets),
--     Stablecoins (the price filter) and Pagination (the cursors). What PostgreSQL's full text and
--     trigrams say of a row is the record `Engine`.
--   app/core/activity.py and maintenance.py, demo_data.py: Activity and Maintenance.
--   app/core/imports.py and import_sync.py: Imports and ImportSync, with the parsing of a batch in
--     ImportSync/Records, the counts of a dry run in ImportSync/DryRun, the writes in ImportSync/Apply
--     and the choice of the board address in ImportSync/BoardUrl.
--   app/core/import_auth.py and app/api/routes/admin_import.py: ImportAuth and AdminImport. `_handle` and
--     `import_listings` are in AdminImport/Handler, in the monad of AdminImport/Monad, whose state holds
--     the tables, two limiters, the lock and the audit log; AdminImport/Effects says what a handler
--     changes if its parts do, for any relation of states.
--   app/core/errors.py: Errors (the codes and statuses), Errors/Actions (the next actions) and
--     Errors/Response (the bodies, and the handlers that `install_error_handlers` registers).
--   app/core/limits.py: BodyLimit. The application is what it receives: a list of messages, and whether
--     an exception ends it.
--   app/core/score_client.py: ScoreClient, with the lookups of a page of results in ScoreClient/Page.
--   app/core/verifier_info.py: Verifier, with the parsing in Verifier/Documents. Verifier/History is about a
--     process as a sequence of refreshes, Verifier/Threads about requests and background threads as
--     the steps of one system.
--   app/api/routes/listings.py: Board. `Run` is a state and error monad whose state survives a
--     failure; its state holds the tables, the nonces, two limiters and the purge's throttle. A handler
--     takes an `Env`: the request, the clocks, the libraries, and in `between n` what other requests
--     do to the tables before its n-th statement, so that every race between a check and a write is a
--     value. Board/Create, Board/Change and Board/Owner hold the handlers, Board/Requests a sequence
--     of requests. Board/Search holds `search_listings` and `list_facets`, Board/Search/Walk the client that
--     follows the cursors; Board/Facts is `_next_actions` and Board/Responses what is shown of a row.
--     Board/FactTypes has the types of the verifier's facts, and Board/Typed what they mean for a response.
--     Board/Answers and Board/Search/Crash are about the exceptions of a POST and a search, with the
--     rules of Board/Ends. Of the handlers that return a row `post_listing` alone is modelled with its
--     response, the others up to their row; all end in the same `_to_response`.
--   scripts/admin_update_listing.py: AdminScript. Its monad is like the others; AdminScript/Commands holds
--     the commands and `main`, AdminScript/Commands/Effects and Tables say what a run changes if its
--     statements do, for any relation of states or tables.
--   Tests holds concrete values and the theorems at them.
--
-- Times are whole microseconds, and subtraction on them stops at 0; where the source subtracts a
-- length from the present, the present is later than that length. A float in JSON is known by its
-- integral part. Nothing here loops on fuel but the byte length of a base58 number, where 33 rounds
-- are enough for 44 digits, and the client that follows cursors, where as many pages as rows are enough.
--
-- PostgreSQL and psycopg refuse some values, as a text with a NUL. Which they take are the parameters
-- `storable` of a POST's row and `takes` of a search's texts; every other statement is modelled on
-- values that they take. A statement fails for no other reason: lost connections and timeouts of the
-- database are not modelled.
--
-- Not modelled: the descriptions of next actions, which are prose; the discovery documents, which are
-- constants; the MCP server, whose tools call the modelled functions; the other scripts; logging and
-- the wiring of the framework.
pub mod Prelude
pub mod RateLimit
pub mod Errors
pub mod WalletAuth
pub mod Endpoint
pub mod Listing
pub mod Models
pub mod Store
pub mod ImportStore
pub mod Tables
pub mod TextOrder
pub mod Activity
pub mod Maintenance
pub mod Board
pub mod Imports
pub mod ImportSync
pub mod Tests
pub mod Search
pub mod Facets
pub mod Pagination
pub mod Stablecoins
pub mod Verifier
pub mod ImportAuth
pub mod AdminImport
pub mod AdminScript
pub mod BodyLimit
pub mod ScoreClient
