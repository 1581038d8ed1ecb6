-- ===== src/Lib.antt =====
-- Livy-Next: a REST server for interactive Spark Connect sessions, modelled from its Go source.
--
-- A session (pkg/session/session.go) holds statements, each of which one goroutine executes on the
-- Spark client; a manager (pkg/session/manager.go) keeps the sessions by number and removes those
-- that have expired; the HTTP layer (pkg/api) translates requests into calls of both; pkg/spark
-- talks to Spark Connect and turns its answers into JSON values.
--
-- Which file models what:
--   Prelude, and its children: native numbers, lists, int and int64 with their wrap-around (Int64),
--     strings as lists of bytes (Strings), Go maps as association lists (Assoc), panics (Outcome).
--   Strconv, Time, Base64: what the program uses of Go's packages strconv, time and encoding/base64.
--   Time.Duration: time.ParseDuration; Duration.Units and Duration.Plain are about numerals with and
--     without a unit, Duration.Fuel about the rounds of its loop.
--   Net: what the program uses of packages net and strings for addresses; Net.Parts is about texts
--     that are put together and taken apart again.
--   Value: what an interface{} may hold, told apart as far as pkg/spark/client.go does.
--   Session.Types, Lifecycle, Statements, Page: the types and methods of session.go. A method that
--     changes its receiver returns the new record, time.Now() is an argument of each call, a
--     *Statement is its index in the list. runStatement is two steps, before and after ExecuteSQL,
--     since it gives the lock up in between. Session.Statements.Steps says what the methods do at a
--     statement in a given state.
--   Session.Run: a session with its goroutines as a step relation; a step is one critical section,
--     so an interleaving is a sequence of steps. Run.Fit, Run.Tidy and Run.Invariant hold the
--     invariant, Run.Final what never changes, Run.Closing when Close may panic, Run.Progress that
--     statements come to an end.
--   Session.Page.Bounds, Page.Output, Page.Returns: the pages of rows and of statements, and when
--     they do not panic; Api.Statements.Returns is about the handlers of these.
--   Manager: manager.go over a heap of sessions, since handlers and goroutines hold pointers to
--     sessions that have left the map. Manager.Registry, Cleanup, Shutdown, Identifier and
--     Order are about the registry, cleanupIdleSessions, DeleteSession and CloseAll, lookups,
--     and the order in which a range visits the map; Cleanup.Expiry is about when a session has
--     expired. Manager.Lock is the lock of a session in cleanupIdleSessions, with its waiting
--     readers and writers. Manager.Spec is the specification of the manager, a function from
--     numbers to sessions: Spec.Keeps says what each request keeps, Spec.Seen and Spec.Steps
--     compare one request with its specification, Spec.Runs any number of them.
--   Api.Types, Query, Sessions, Statements: pkg/api/handler.go. A handler is a function of the store
--     and of what it reads from the request; a body that does not decode is none. Api.Sessions.Opening
--     and Creation are about CreateSession, Ending about DeleteSession; Api.Statements.Found,
--     Replies, Sequence and Listing about the statement handlers; Api.Query.Bounds about from and size.
--     Between the calls of one handler no other step is taken; what happens when a Close comes
--     between them is in Session.Run.Closing.
--   Api.Entry: NewHandler, and the path that its reverse proxy passes on.
--   Api.Cors: the CORS middleware of pkg/api/router.go.
--   Api.Router: SetupRouter of pkg/api/router.go, its table of routes and what each leads to. What chi
--     does is the record Chi: which route it finds, and what it answers after a panic. Router.Table is
--     about the methods of the routes; Router.Matching is a matcher for concrete inputs.
--   Spark.Client: NewClient and the methods of Client in pkg/spark/client.go, over a record of what a
--     session of spark-connect-go answers; Client.Limits is about the limit of rows.
--   Spark.Table: ArrowTableToQueryResult of pkg/spark/client.go, with a panic where an index is out
--     of range; Table.Grid is about one column, Table.Cells about the whole result.
--   Spark.Sanitize: SanitizeValue and detectSparkType. Sanitize.Clean is about what SanitizeValue
--     answers, Sanitize.Twice about sanitising that again.
--   Spark.Extract: extractArrowValue, one constructor of Cell for each array type. Extract.Clean and
--     Extract.Kinds are about one cell, Extract.Schema about a table and its schema.
--   Spark.Remote: ExtractHostFromRemote and DiscoverSparkUIEndpoint; the HTTP client is what it answers
--     to each URL. Remote.Host is about the first, Remote.Discovery about the second.
--   Spark.Duration: ParseSparkDuration; Duration.Texts and Duration.Units are about numerals.
--   Spark.Client.Info: GetSessionTimeout, GetMaintenanceInterval and GetSparkVersion.
--   Spark.Client.Release: GetSessionID, Close and releaseSparkSession, over what reflection finds in
--     the session of spark-connect-go.
--   Spark.Format: the texts of decimals and intervals in pkg/spark/client.go; Format.Padding is about
--     the loop that puts zeros before a decimal, Format.Fields about numerals of a given width,
--     the others about the texts. Spark.Mock: pkg/spark/mock.go.
--   Server: cmd/livy-next/main.go, the URI of the remote and the creation of a client, with the calls
--     of the client that it makes; uuid.New and spark.NewClient are fields of Server.Settings.
--   Server.Startup: the flags of main by default, the manager that it makes and the start-up probe;
--     Startup.Keeps is about the probe, Startup.Timeouts about the environment.
--   World: the parts together, as a step relation: requests, the critical sections of the
--     goroutines of statements, clean-ups, the Closes that both start in goroutines of their
--     own, changes of the order of the map, the start-up probe and CloseAll, in any order. Each
--     step gets its locks. World.Creates and World.Keeps say what a step keeps, World.Steps
--     what a run keeps, World.Requests what a request through the router amounts to,
--     World.Replies which requests are answered without a panic. A handler is one step there
--     too.
--
-- Bounds: int and time.Duration are integers that wrap at 64 bits where the code adds or multiplies
-- them. Numbers of sessions and lengths of lists are taken below 2 ^ 63 where a theorem says so.
-- The only fuel is that of a decimal numeral (Strconv.Decimal), which takes n + 1 rounds for n,
-- of the zeros before a decimal (Spark.Format.pad_zeros), scale + 1 rounds, since each adds one, and
-- of the parts of a duration (Time.Duration.parse_parts), as many rounds as there are bytes, since
-- each takes one at least.
--
-- Not modelled: waiting for locks, but for that of the clean-up, which locks a session for
-- reading twice (Manager.Lock): everywhere else a step gets its locks; the panic of ExecuteSQL
-- on a nil client, which CreateSession never passes; floating-point arithmetic, which is a
-- parameter, the printing of values and keys by package fmt and the decoding of JSON, which are
-- parameters or part of a value, values that hold themselves, white space beyond ASCII, how chi
-- matches a path, the parsing of flags, signals, sockets, logging, the generated Swagger
-- document, the static page and icon, the reverse proxy of the Spark UI, and Spark Connect and
-- its client, whose answers are arguments.
pub mod Prelude
pub mod Strconv
pub mod Time
pub mod Base64
pub mod Net
pub mod Value
pub mod Session
pub mod Manager
pub mod Spark
pub mod Api
pub mod Server
pub mod World
