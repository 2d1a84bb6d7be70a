-- ===== src/Lib.antt =====
-- Verification of the core logic of pkgsite, the Go package discovery site.
--
-- The worker (internal/worker) fetches module versions through a proxy, inserts them into a
-- database and records how each fetch ended; a load shedder bounds the work in progress, and
-- internal/derrors translates between errors and the statuses that are recorded.
-- internal/version and internal/stdlib order versions and choose the latest one.
-- The frontend (internal/frontend) serves pages: it parses URL paths, paginates results, and asks
-- internal/vuln for the vulnerabilities (internal/osv) that affect a version. internal/lru and
-- internal/poller hold cached data for it. For a path that is not in the database, the frontend
-- queues candidate module paths for the worker and polls for their results. internal/godoc/codec
-- encodes documentation for the database.
--
-- Files, and the code that they model (names are the source's in snake case):
--   Worker/Fetch/Env, Insert, Update: internal/worker/fetch.go. `fetch_and_update_state` is
--     FetchAndUpdateState, from its parts `after_info`, `insert_and_process`,
--     `update_latest_and_process`, `process` and `record_state`, one for each stretch between two
--     of its early returns. Env holds the answers of the proxy, the fetching code, the database and
--     the page cache; calls that write are recorded as effects, in order. Worker/Fetch/Composed puts the
--     fetching of modules in; Last, Deletes, Status and Shedder hold the theorems.
--   Worker/LoadShedder: internal/worker/loadshedding.go. Each function is one step, since it holds
--     the mutex; LoadShedder/Bounded has the system of requests that begin and end.
--   Derrors: internal/derrors/derrors.go. Paths: internal/paths.go, internal/discovery.go.
--   Version, Version/Sorting: internal/version/version.go. Stdlib: internal/stdlib/stdlib.go.
--   Osv: internal/osv. Vuln/Schema, Compact, Client, Report: internal/vuln.
--   Lru: internal/lru/lru.go; Lru/Recency has the list of items that a cache stands for.
--   Poller: internal/poller/poller.go.
--   Frontend/Paginate, UrlInfo: internal/frontend/paginate.go and internal/frontend/urlinfo.
--   Frontend/FetchServer, Verdict, NotFound: internal/frontend/fetchserver/fetch.go and 404.go. A
--     `Look` is what the database answers to one call of checkForPath, a `Run` all of them for one
--     module path; `fetch_and_poll` is fetchAndPoll on every order of such answers. Update is
--     FetchAndUpdateState. The other files of the folder hold the theorems.
--   Paths/Candidates: CandidateModulePaths with path.Dir; its loop has fuel for the path's length.
--   Symbol: internal/symbol.go, internal/symbol/intro.go and internal/build_context.go. A history is
--     the list of the entries of its nested maps; Symbol/First and Earliest are about
--     IntroducedHistory.
--   Latest: internal/latest.go and internal/fetch/latest.go, over the answers of a proxy.
--   Codec: internal/godoc/codec/codec.go. A decoder's buffer is what is left to read. Codec/Skip
--     has `skip`, whose fuel bounds the nested calls; twice the bytes left is enough.
--   Queue: internal/queue/queue.go. Its goroutines are a step relation; Queue/Conserves has the
--     invariant, Queue/Drains that a closed queue can be finished.
--   Fetch: internal/fetch. Fetch/Load is load.go, Fetch/Package the two passes of package.go, Fetch/Unit
--     unit.go, Fetch/Readme readme.go, Fetch/Module and Fetch/Result fetch.go with the rest of
--     package.go. Fetch/Files has what io/fs answers. The fuel of Fetch/Unit is the length of a path.
--     Fetch/Accounts and Fetch/Whole hold the theorems on whole fetches.
--   Licenses: internal/licenses/licenses.go, over the answers of the classifier.
--   Requeue: GetNextModulesToFetch of internal/postgres/requeue.go, over the rows of its query.
--   Proxy: internal/proxy. A client carries its cache; Proxy/Cached compares it with one without.
--   Source: internal/source/source.go. Source/Expand is about templates, Source/Stored about what the
--     database keeps, Source/Sites has the known templates, Source/Found
--     ModuleInfo, Source/Dynamic what it makes of the tags of a page, and Source/Meta (meta-tags.go)
--     the scan for these tags.
--   Quota: internal/middleware/quota.go, over the answers of Redis's limiter.
--   Semver: golang.org/x/mod/semver, a parameter, with the laws that the code relies on.
--   Prelude: shared helpers: texts as lists of bytes, tests, lists, integers, regular expressions.
--   Tests: every property with hypotheses at a concrete input.
--
-- A text is a list of bytes. An error is `none` or an error of the model's own, without its
-- message. Go's int is an unbounded integer in Frontend/Paginate; the sizes and requests in flight
-- of the load shedder and the tick of the cache wrap at 2 ^ 64, the shedder's totals do not. All
-- loops but those of Codec/Skip, Paths/Candidates and Fetch/Unit are structural recursion, on a
-- list or on the number of rounds, so no fuel runs out. A Go map is a list with unique keys.
-- Goroutines that only wait for one another are run in sequence, as each writes its own variable.
--
-- Not modelled: logs, metrics, traces and timings; HTTP, SQL and HTML templates; the reading of
-- module zips and of the Go repository; loading of documents from Go files, and their rendering;
-- the codec's references between structs and its registry of types; third-party code.
pub mod Prelude
pub mod Semver
pub mod Version
pub mod Osv
pub mod Stdlib
pub mod Vuln
pub mod Poller
pub mod Lru
pub mod Derrors
pub mod Paths
pub mod Worker
pub mod Codec
pub mod Symbol
pub mod Latest
pub mod Queue
pub mod Frontend
pub mod Fetch
pub mod Licenses
pub mod Requeue
pub mod Proxy
pub mod Source
pub mod Quota
pub mod Tests
