-- ===== src/Lib.antt =====
-- Lawang: permission-aware connectors that deliver every change of a source to its sink, once and
-- in order. This library models the parts of the Go program that decide what happens to a
-- delivery, and proves of them what the list at the end says.
--
-- The program and how its parts interact. A webhook arrives (internal/ingress), the hub
-- (internal/hub) finds the one connection that owns it and writes it to the outbox
-- (internal/outbox) under an id hashed from its bytes (internal/ids). A worker (internal/worker)
-- claims rows of the outbox, has the pipeline (internal/pipeline) normalize, mask and record them,
-- hands the records to a sink (internal/sink) and writes the outcome back to the row.
--
-- Which file models what:
--   Prelude            Go strings as lists of bytes, Boolean tests, searches of lists, and Result, a
--                      Go call that returns a value or an error.
--   Ids                internal/ids/ids.go: RecordID and DeliveryID. BLAKE3 is the parameter `sum`;
--                      the messages that are hashed are written out byte by byte. Ids/Injective
--                      has the proofs.
--   Tenancy            internal/tenancy/tenancy.go: Parse.
--   Outbox             the rows of migrations' `outbox` and `outbox_record` and the errors of
--                      internal/outbox/outbox.go. Below it: Cause and Ladder (cause.go, ladder.go),
--                      Queries and RecordQueries (each SQL statement of
--                      outboxdb/queries.sql.go as a function of the table), Operations (Accept,
--                      Park, Claim, Get, Work and Release of outbox.go) and Transitions (its other
--                      methods). Marker is the well-formedness of a table, with its proofs and the
--                      steps that reach a table below it; Claims, Progress, Leases, Duplicates,
--                      Arrivals, Landing and Settle have the other proofs.
--   Worker             internal/worker/worker.go: NewDrain (Options), one turn of the drain with the
--                      work on each claimed row, over the operations of the outbox. The pipeline,
--                      the sink and what others commit meanwhile are parameters. Signed has the
--                      integers of the options; Verdicts, Landing and
--                      HttpSink have the proofs.
--   Sink               internal/sink/sink.go and, in Http, http.go: how a batch is cut into
--                      requests and how each reply is read. The transport, the credential and JSON
--                      are parameters. Replies, Batching, Accounts, Offers, Requests and Totals
--                      have the proofs.
--   Provider           internal/provider: what a webhook source exchanges with the accept path
--                      (provider.go) and the registry (registry.go), with its proof in Lookup.
--   Ingress            internal/ingress/ingress.go: the reading of a body and each answer. Edge is
--                      serveHTTP over any hub; path.Clean and mime.ParseMediaType are parameters.
--                      Answers and Serving have the proofs.
--   Webhook            the edge over the hub, as cmd/lawang/serve.go builds them, with the theorems
--                      of the whole accept path.
--   Hub                internal/hub/hub.go and the statements of hubdb/queries.sql.go: Accept, from
--                      the keys of a delivery to the row of the outbox. A provider's DeliveryKeys
--                      and Verify are parameters. Subscriptions is subscriptions.go; Owning,
--                      Verifying, Routing and Registered have the proofs.
--   Record             internal/record: Names (validate.go: provider keys, kinds and sources) and
--                      Scope (scope.go: scope ids).
--   Pipeline           internal/pipeline: Mask and its children (mask.go: which spans of a text
--                      are secrets, and their replacement by tokens), Ledger and its children
--                      (ledger.go with pipelinedb/queries.sql.go: the order of versions, the chain
--                      of the records of one entity, and the order of the locks), Stages (pipeline.go:
--                      Prepare up to the masking). The decoders of encoding/base64 are parameters.
--
-- State and time. The table is a list of rows and the next value of its sequence; each operation
-- takes the time as an argument, in one unit for times and durations. Ids and lease tokens that
-- the code draws at random are arguments. Each operation is one step of the table: the code runs
-- it in one transaction under the advisory lock of the ordering key, and the rows that another
-- claimer has locked (SKIP LOCKED) are a predicate that Claim takes. Row-level security is the
-- test `visible`. A constraint that a statement can break is an error of the statement.
--
-- Bounds and fuel. Numbers are natural; the source's int32 counters of attempts and its int64
-- sequence are not wrapped: the values at which they would are far beyond the ladder's rungs.
-- Where an operation of the outbox takes a duration or a batch size, 0 stands for all that is not
-- positive, which the code refuses alike. The options of the drain are signed.
-- The only fuel is that of `decimal`, which prints a number with as many steps as its value and
-- one more, more than it has digits. Every other recursion is on the structure of a list.
--
-- What is not modelled: the HTTP server and the router of ingress, the documents of a record with
-- their JSON, Normalize and the storing of the masker's tokens, the providers, the vault and the
-- configuration, which this library does not cover; the file and stub sinks, the migrations, the
-- network and the database drivers, which are I/O; logs; and the regular expressions of the masker,
-- whose matches are an argument of the model. The pool of goroutines of the worker is what the
-- others commit between the steps of one of them.
pub mod Hub
pub mod Ids
pub mod Ingress
pub mod Outbox
pub mod Pipeline
pub mod Prelude
pub mod Provider
pub mod Record
pub mod Sink
pub mod Tenancy
pub mod Webhook
pub mod Worker
