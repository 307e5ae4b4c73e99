-- ===== src/Lib.antt =====
-- RustMail, an SMTP server that catches mail for development: a model of its core and what holds of it.
--
-- The program. `crates/rustmail-smtp` speaks SMTP with a client and hands each message it receives to a
-- consumer together with a channel for the verdict. `crates/rustmail-server` is that consumer: it
-- groups waiting messages into transactions, stores them through `crates/rustmail-storage` and
-- announces what was stored. `crates/rustmail-api` serves the messages over HTTP and announces changes
-- over a WebSocket; `crates/rustmail-tui` is a terminal client of it.
--
-- The model.
--   Prelude        the names shared: native numbers, lists, texts (lists of code points), UTF-8.
--   Smtp.Stream    crates/rustmail-smtp/src/session.rs: `read_line_untimed`, `drain_data`. A stream is
--                  what the buffer holds, the reads still to come, and how it ends.
--   Smtp.Data      `receive_data`: terminator, dot-unstuffing, the size budget.
--   Smtp.Command   the verbs, `extract_address`, `declared_size_refusal`, `redact_auth`, `command_verb`.
--   Smtp.Session   `Session` with its reads and writes, in a monad of state and errors. The log of a session
--                  is what it wrote and the messages it handed over, in order; a `World` says how
--                  each write ends, what becomes of each message, and how a TLS handshake ends.
--   Smtp.Handle    `Session::handle` with every command it serves.
--   Server         crates/rustmail-server/src/main.rs: `transactions`, `store_group`,
--                  `store_one_by_one`, `reject_rest` and `store_and_announce`, over the interface `Store`
--                  of the repository, whose four laws say that an insert happens whole or not at all. A
--                  log tells which deliveries were answered, skipped or announced, and which batches
--                  were not stored; which deliveries are abandoned, and whether the deadline has
--                  passed, may change with each entry.
--   Tui            crates/rustmail-tui/src/app.rs with the types of api.rs and event.rs: the state `App`,
--                  all its event handlers, and `event_loop`. A spawned task is an entry of
--                  `spawned`; what it answers is an event, which may come at any time or never.
--                  Between events time may pass, tasks may end or panic, and frames may be drawn,
--                  which set the areas, the offset of the list and the bound of the preview's scroll.
--                  Tui.WellFormed is its invariant, Tui.Selection the cursor, Tui.Replay and
--                  Tui.Fetches with Tui.Fetches.Lost what becomes of updates that race with a list request.
--                  Tui.Pump is `pump_ws_frames`, over the choices of its `select!`.
--   Api.Origin     crates/rustmail-api/src/origin.rs: `Origin::from_str` and `origin_allowed`. A header is
--                  what `to_str` makes of it.
--   Api.Host       crates/rustmail-api/src/host.rs and `hostname_of`: `Hostname`, `is_browser_request`,
--                  `host_allowed`, and the decision of `guard_host`. The parser of IP addresses is
--                  a parameter.
--   Storage        crates/rustmail-storage/src. Storage.Schema has the tables of schema.rs as lists of rows in
--                  the order of their keys; Storage.Exec a request as a function on a connection, which may fail at any
--                  moment, transactions that roll back, and `retry_on_lock`. Storage.Insert, Delete, Update
--                  and Read are the operations of repo.rs and query.rs, every SQL statement being what SQL
--                  says it does to the tables, cascades and triggers included; Storage.Like is
--                  `count_matching`. Storage.Attachments, Locator and Content are prepared.rs,
--                  locator.rs and content.rs with the attachment reads of repo.rs. Storage.WellFormed is
--                  the invariant of the tables, and Storage.Refines fills the interface `Store` of Server.
--   Server.Retention  main.rs, `run_retention_tick`, over Storage.Delete.
--   Api.Messages   crates/rustmail-api/src/handlers.rs: `ListParams::parse` and `list_messages`, over Storage.Read.
--   Api.Changes    the handlers `update_message`, `delete_message` and `delete_all_messages` with the events of state.rs
--                  that they broadcast, `validate_tags` and `sanitize_filename`. Api.Responses is
--                  `AppError::into_response`, with what a status says of a change.
--   Api.Headers    `read_header_section` and `ends_header_section`, over Storage.Attachments.
--   Api.Asserts    `assert_count`, over Storage.Like.
--
-- Bounds. Fuel stands in five places: the command loop has one more than the bytes that can arrive, the
-- DATA loop one more than the bytes at hand, a retried write five rounds, the chunks of a batch one for each
-- row, and a client that follows cursors one page more than the messages that are listed; each is
-- shown to be enough. Counts and
-- sizes that the API sends as `i64` are natural numbers, and limits and offsets integers; `u64` and
-- `u16` counters keep their wrap-around or their saturation. A new row takes one more than the greatest
-- key in its table, as SQLite does below the key 2^63 - 1. Timeouts fire where the awaited step never
-- completes; time itself is a clock that the client or the statement reads.
--
-- An order that SQLite leaves open is fixed: a deletion returns the identifiers in the order of their
-- keys. `LIKE` is what SQL says of it, without the limit on the length of a pattern and for texts
-- without NUL characters.
--
-- Not modelled: sockets and TLS, opening and migrating database files, the pool of connections, the delays
-- between retries, giving back space, drawing, configuration, and log lines. Of the HTTP handlers, those
-- that serve or export one message, its source or its parts, or release it are left out.
-- The texts of SMTP replies and of error reasons are constructors. The full-text index of SQLite, its order
-- of texts and its reading of JSON arrays, the MIME, JSON and zstd libraries, Unicode's tables,
-- identifiers, the parser of WebSocket events and the geometry of the terminal library are
-- parameters.
pub mod Prelude
pub mod Smtp
pub mod Server
pub mod Tui
pub mod Api
pub mod Storage
