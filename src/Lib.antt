-- ===== src/Lib.antt =====
-- A model of dataspace-in-a-box, a dataspace connector in Go: one process that offers datasets to
-- other connectors over the Dataspace Protocol, negotiates contracts in both roles and moves data
-- under the agreements that result.
--
-- The parts and how they interact. An HTTP handler of internal/dsp decodes a message, checks it,
-- makes one or more calls to the SQLite store of internal/store, answers, and may start a goroutine
-- that pushes the next message to the counterparty and records the state that it led to. Handlers
-- and goroutines run at the same time and share nothing but the store, whose conditional updates
-- decide races.
--
--   Base            shared names, tests on numbers and texts, small lemmas
--   Config          internal/config/config.go: the fields that the protocol reads; Config.Settings is
--                   Load and validate; Config.Loaded: a theorem
--   Message         the messages and answers of internal/dsp/negotiation.go, transfer.go, error.go
--   Task            the goroutines that a handler may start
--   Action          how a handler runs: a sequence of effects in an environment
--   Envelope        internal/dsp/auth_middleware.go (refuseIfNotParty), checkEnvelope
--   Initiate        what the two initiate hooks of the management API share; Laws: a theorem
--   Store           internal/store/store.go. Table: rows under a primary key, with INSERT and UPDATE;
--                   Rows: the record types; Negotiations, Agreements, Transfers: the operations,
--                   named as in the source (SetState is set_state). Abstract: the tables
--                   as functions from keys to rows, and that the statements implement it. Evolution, Moves, Safety: how
--                   the database may change, and that each operation changes it so. Swap, Insertion,
--                   Roster, Follow: laws of single operations
--   Negotiation     internal/dsp/negotiation*.go. State, Decision, Build: the pure part; Provider,
--                   Consumer, Endpoints: the handlers (handleReRequest is handle_re_request) and the
--                   goroutines (startNegotiation is run_start_negotiation, `dispatch` is
--                   run_dispatch, pushAndStore is push_then_store); Service: which handler serves
--                   which call. Safety, Answers, Refusal, Reactions, Issuance, Accepting,
--                   Dispatching: theorems
--   Transfer        internal/dsp/transfer*.go, internal/dsp/transfer_client.go. State, Sequence, Build:
--                   the pure part; Provider, Consumer: requests, and the drivers of a configured
--                   sequence (driveTransfer is run_drive_transfer); Endpoints: what serves both roles
--                   (applyTransition is apply_transition); Service: which handler serves which
--                   call. Safety, Answers, Refusal, Driving: theorems
--   Auth            internal/auth. Token: token.go (Mint and Verify); Roster: roster.go (LoadRoster
--                   is load_roster, whose part behind the file is load_document); Middleware:
--                   requireParticipant of internal/dsp/auth_middleware.go. Laws, Entries, Admitting:
--                   theorems
--   Data            internal/dsp/data_handler.go (handleData is handle_data); Access, Laws: theorems
--   Range           the Range and Content-Range headers: parseRangeStart, parseContentRange and what
--                   is written; Laws: theorems
--   Pull            pullTransferData of internal/dsp/transfer_consumer_handler.go, which is
--                   run_pull_transfer_data. Outcome, Response, Copy, Run: the code in its order;
--                   Described, Recorded, Finishing, Exchange, Safety: theorems; Yields: what an action
--                   returns
--   Callback        internal/dsp/callback.go: pushCallback with its retries, and the minter of
--                   internal/dsp/router.go; Guard: validateCallbackURL; Retries: theorems
--   Catalog         internal/dsp/catalog.go and the handlers of catalog_handler.go (buildCatalog is
--                   build_catalog); Remote: remoteCatalog; Lookup: catalog_client.go (handleCatalogLookup
--                   is handle_catalog_lookup); Format, Vetting, Discovery: theorems
--   Gate            cmd/tckgate/main.go: evaluate, OK (is_ok) and gatedSuite (gated_suite); Lines: its
--                   regular expressions; Suites, Counting, Verdict: theorems
--   Script          cmd/mdscript/main.go: extract, openFence (open_fence) and parseInfo (parse_info);
--                   Blocks, Laws: theorems
--   Mgmt            internal/mgmt/router.go: importAgreement is import_agreement, authenticated is
--                   authenticated, listTransfers is handle_list_transfers; Import, Listing: theorems
--   Service         what each goroutine runs; Laws: theorems
--   Guarantee       rely and guarantee for actions; Answering: how often an action answers; Sending:
--                   what an action may push
--   Tests           test data, and a concrete use of each theorem
--
-- How code with effects is read. An action takes an environment and a world. The world has the
-- database, the answers, the pushes and the goroutines started so far, and the number of effects.
-- The environment says for each effect, by its number, what the other goroutines did to the database
-- just before it, whether a database call fails, and what the clock, the random source, the network
-- and the address guard answer. So a theorem for all environments is one for all interleavings and
-- all faults. A `return` in the middle of a handler is the outcome `halt`; a `go f(x)` is a
-- constructor of Task.
--
-- Representation. A state is one of the constructors that the program's constants name; a body
-- that does not decode is `none`; a time is a number of nanoseconds, an RFC 3339 operand its
-- second; a refusal's sentence is a constructor; a file is a list of bytes, and so is a header
-- that is parsed byte by byte. An int64 is a number below 2 ^ 63, with its wrap-around written out
-- where the code can meet it (copy_limit). Nothing runs on fuel but the printing of a number in
-- decimal, which is given the number plus one and divides it by ten in each round: tables, lists of
-- policies, backoffs and sequences of states are lists, and every other function recurses on one.
-- A pull has two files of its own, which are a state of their own (Disk) beside the world.
--
-- Not modelled: log lines; the constant @context and the random @id of what is sent; the bytes of
-- JSON, of which a catalog's number is an argument; opening and migrating the database file;
-- sockets, TLS and timers, of which a response, its end and the time of an answer are arguments;
-- base64, JSON, Ed25519 and URL parsing, the fields of a codec; the reading of keys; the commands
-- cmd/dsbox and cmd/dsops. The protocol handlers read of a push only whether it is delivered and of
-- an address only whether it is allowed, through the environment; Callback says how these answers
-- come about.
pub mod Base
pub mod Range
pub mod Config
pub mod Message
pub mod Task
pub mod Action
pub mod Envelope
pub mod Initiate
pub mod Guarantee
pub mod Answering
pub mod Sending
pub mod Store
pub mod Negotiation
pub mod Transfer
pub mod Auth
pub mod Data
pub mod Pull
pub mod Callback
pub mod Catalog
pub mod Gate
pub mod Script
pub mod Mgmt
pub mod Service
pub mod Tests
