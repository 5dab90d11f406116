-- ===== src/Lib.antt =====
-- Costroid prices the work of coding agents and holds it to a budget. A run's token counts become
-- rows with a list price, the rows reach a check (from a file, or from the ledger that gateways
-- and servers keep), and the check states a verdict on a pull request: success, neutral or
-- failure. This library models the price catalog, the rows of a charge, when two figures agree,
-- the parts that decide such a verdict, the telemetry that usage comes in as, the key that a gateway
-- holds a run to, the gate of outbound calls and the limiter in front of the code host.
--
-- Files, and the code each one models:
-- * Decimal.antt, Decimal/: internal/decimal/decimal.go. `Decimal` is a big integer and a scale,
--   as in the code. Decimal.antt has the arithmetic (`normal`, `add`, `sub`, `mul`, `div_pow10`,
--   `shift`, `cmp`, `sign`), Decimal/Text.antt the texts (`parse`, `parse_number`, `string`). The
--   other children hold proofs.
-- * Limiter.antt, Limiter/: internal/scm/limiter.go. `Bucket` is the ring of the instants at
--   which tokens were spent, `wait` and `spend` are `wait` and `take`, `admit` and `release` are
--   `Admit` and the function that it returns. Limiter/Steps.antt has the sequences of calls.
-- * Policy.antt, Policy/: internal/policy. Rows.antt is usage.go and `ledgerUsage`; Config.antt
--   and Approval.antt are settings.go; Period.antt is period.go and `endAtPullRequests`;
--   Pack.antt is default.rego, one function for each of its rules, with `evaluatePack` of
--   engine.go; Request.antt is baseline.go and `packInput`; Results.antt is what policy.go does
--   to the pack's results; Verdict.antt is `Evaluate` and `EvaluateLedger`. The other children
--   hold proofs.
-- * Catalog.antt, Catalog/: internal/catalog/catalog.go. `lookup_price` is `Lookup`, and each of
--   its helpers has a function. First.antt, Priced.antt,
--   Source.antt and Quote.antt of Catalog/ hold proofs: which row a price comes from, and its amount.
-- * Focus.antt, Focus/: internal/focus/charge.go and row.go. `new_row` is `NewRow` and
--   `check_row` says whether `Check` gives no error.
-- * Reconcile.antt, Reconcile/: `WithinRounding` of internal/reconcile/tolerance.go, and `within`
--   and `absolute` of reconcile.go.
-- * Fanout.antt, Fanout/: internal/fanout/fanout.go. `each` is `Each` with its workers one after the
--   other, Fanout/Schedule.antt has the workers in any order, a call of `fn` or a return a step.
-- * Egress.antt, Egress/: internal/egress. `round_trip` and `dial` are the gate's `RoundTrip` and
--   `DialContext`; `take_pending` and `end_flush` are the two halves of `Flush`, between which
--   other calls and flushes come. Egress/Conserved.antt has their sequences.
-- * Otlp.antt, Otlp/: internal/otlp. Wire.antt is `walk` and `field.read`; Fields.antt is fields.go;
--   Protobuf.antt and Messages.antt are the decoders of protobuf.go; Counts.antt and Dialect.antt
--   are dialect.go, from a record to a usage; Batch.antt is `Parse` for protobuf and
--   `keepStatedSplits`. Varint.antt and RoundTrip.antt have an encoder of the wire format. The others hold proofs.
-- * Gateway.antt, Gateway/: internal/gateway. `inspect` and `holds` are `Inspect` and `Holds` of
--   session.go, one function for each of its checks; Watch.antt is the `watcher`; `count_keys`,
--   `round_up` and `spend_for` are count.go. The other children hold proofs.
-- * History.antt, History/: `Earlier` of internal/history/history.go, as `earlier_total`, with
--   `FigureCost` of internal/comment/lifetime.go, as `cost_of`.
-- * Prelude.antt, Prelude/: shared helpers, among them integers over the native natural numbers,
--   powers of ten and texts as bytes.
-- * Examples.antt, Examples/: runs on concrete inputs.
--
-- A verdict is put together as the code does it: `read_usage` or `ledger_usage` totals the rows
-- by currency, `parse_settings` reads costroid.yml, `pack_input` writes the amounts as texts, the
-- pack compares them through `compare_decimal`, and `settle` demotes what unmeasured spend cannot
-- prove.
--
-- Conventions. An error is `none`; its words are not modelled. An instant is in nanoseconds since
-- Go's zero time, and 0 is the zero time. A duration that subtraction would make longer than an
-- int64 holds is cut at the longest one, as `time.Time.Sub` does. A big integer is an integer
-- without bound, and counts of rows are natural numbers. A map is an association list, or a
-- function where its keys are a closed set. The limiter's mutex makes each of its calls one step.
-- `walk` has the length of its message as fuel, and each field takes a byte. A count of tokens is a
-- natural number, which `parse_count` bounds. `digits_loop` has the number itself as its fuel, which is at least its count of digits.
--
-- Parameters. The YAML library is the record `Yaml`: what it makes of a file, and how it decodes
-- an integer. The day of an instant, which the time package formats, is an argument of the
-- catalog's functions, and the record `Calendar` holds what a row takes from that package. Rows
-- and sheets come decoded: of encoding/json, only which lines are rows is used.
--
-- `Names` holds what the gate takes of the strings and net packages, `Library` what the telemetry edge
-- takes of strings and crypto/sha256.
--
-- Not modelled: the SHA-256 digests and the commit's id of a verdict, the reading of costroid.yml
-- through the code host, the Rego engine (its rules are read as functions), and the packages
-- around: the telemetry's JSON bodies, the adapters, the comment's rendering, the gateway's HTTP
-- client and its waiting loops, the server, the store, the code hosts' clients and the command line.

pub mod Prelude
pub mod Decimal
pub mod Limiter
pub mod Otlp
pub mod Fanout
pub mod Egress
pub mod Policy
pub mod Catalog
pub mod Focus
pub mod Gateway
pub mod History
pub mod Reconcile
pub mod Examples
