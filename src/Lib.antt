-- ===== src/Lib.antt =====
-- A verification library for tortui, a terminal torrent client: its search fan-out, its HTTP
-- client's retries and redirects, the templates of its scrapers, its download engine's bookkeeping,
-- its session and shutdown, its store, its results table and the form for a source, translated from
-- the Go source, with the theorems that make them correct.
--
-- The program. internal/indexer holds the search sources: a Registry of adapters that fans a query
-- out to them, one goroutine a source, spaces the requests to each source, caches their answers,
-- and merges the results into one ordered list. internal/engine/anacrolix holds the downloads: a
-- map of tracked torrents, each in one of six states, and a queue behind max_active_downloads, all
-- under one mutex. internal/tui calls both, and shows results and downloads in tables; the two
-- parts do not call each other.
--
-- The files.
--   Base               shared helpers: the tests of Go, lists, texts as code points, maps as
--                      functions, integers, a stable sort and its theorems.
--   Indexer            internal/indexer/indexer.go and minseeders.go: queries, results, capabilities.
--   Indexer/Categories internal/indexer/category.go.
--   Indexer/Registry   internal/indexer/registry.go: the registry's state and one function for each
--                      critical section of Registry.mu (register, unregister, set_enabled,
--                      snapshot, select_sources, cached_results, store_results, reserve_fetch). The
--                      clock's readings are arguments; a *source is its address. Its children have
--                      the sequences of critical sections (Trace) and the invariants.
--   Indexer/Merge      mergeResults, dedupKey, normaliseTitle, sortResults of the same file.
--   Indexer/Search     SearchAll and searchOne: a goroutine is a Thread that goes from one critical
--                      section to the next, a schedule is a list of Turn, and callSearch's four ways
--                      to end are Answer.
--   Indexer/Http       internal/indexer/httpx: the per-host limiter (ratelimit.go), the backoff
--                      (retry.go) and Client.Do's loop (client.go). A Round is what one attempt
--                      meets: the limiter's wait, the reply, the deadline, the sleep. Its child
--                      Redirects has the redirect rules of client.go, and RetryAfter the header.
--   Indexer/Scraper/Template  internal/indexer/scraper/template.go: the loops of checkPlaceholders
--                      and expandWith, and what stands on them; Expansion and Fields have the proofs.
--   Indexer/Scraper/Escapes   its escapeSegment, over url.PathEscape.
--   Engine             internal/engine/engine.go and policy.go: states and the seeding policy.
--   Engine/Downloads   internal/engine/anacrolix/engine.go, policy.go and resume.go: the tracked
--                      torrents and the queue, one function for each critical section of Engine.mu;
--                      Intake has those that bring a torrent in. Events orders them; the other
--                      children prove what holds under every order.
--   Engine/Downloads/Space  the free-space checks of policy.go: an int64 is its bit pattern.
--   Engine/Removal     which data Remove deletes or keeps (engine.go), the comparison of destinations
--                      (samedir.go), and the checks before the delete. An Entry is what a tracked
--                      entry says of its data.
--   Engine/Paths       internal/engine/paths.go: the checks of the paths that a torrent declares.
--   Engine/Listen      internal/engine/listen.go: the probe of the listen port.
--   Lifecycle/Session  internal/lifecycle/session.go: Save, Close, Resume, and the records
--                      of store/torrents.go.
--                      What the engine answers meanwhile is an argument.
--   Lifecycle/Shutdown internal/lifecycle/shutdown.go: the steps, and how each may end.
--   Storage            internal/store: the store's calls, the buckets of its file, load; Flushes has
--                      the flushes and Close as steps between the store's lock and the file's
--                      transactions (a Process), with every flush in flight as its copy. Schema has
--                      the version of the file.
--   Tui/SourceForm     internal/tui/settings.go and pathcomplete.go: the form's fields, what a key
--                      makes of it (Keys), and the completion of a path (Completion).
--   Tui/Table          internal/tui/components/table.go: rows, sorting, selection; Layout has the
--                      columns and rows that are shown.
--   Examples           the test data of each part, and the theorems applied to it.
--
-- Representation. Times are nanoseconds since Go's zero time and durations are natural numbers; the
-- Go code that is modelled only adds and compares them, and int64 does not wrap on times of this
-- era. A Go int that may be negative is the integer ℤ. The maps are functions from keys; where the
-- code walks a map its order does not matter. The map of torrents and the slice of their order,
-- written together, are one list. A ratio is a fraction of natural numbers where the code has a
-- float64; the backoff's doubling keeps its wrap-around at 64 bits. Client.Do's loop runs on fuel,
-- one unit for each attempt that is allowed, the loops of a template on one more than its length, the
-- shortening of a prefix on its length, and mintIDLocked's on one more than the torrents; theorems
-- say that this is enough. Every other loop is structural recursion. Schedules may stop early, and a theorem says how many turns are enough.
--
-- Parameters. The tables of package unicode (Unicode), an adapter's answers (Answer), what a claim
-- reads from disk (LeftView), the library's torrent (Torrent), the ids that an Add gets from
-- mintIDLocked, the texts of these ids and how each Restore goes (Numbering, Restoring), the folding
-- of names and what net/url parses (Names, Url, Location), package filepath's functions (Platform),
-- the filesystems and their free space (Disk), the disk each time that a Remove reads it (DiskView),
-- what a bind and a close get (Sockets), strings.EqualFold, engine.SafeName, which stands on net/url,
-- strings.ToLower on a placeholder's name, the helpers of the form on bytes (Helpers), and the
-- comparisons of a table's columns.
--
-- Not modelled: rendering, configuration, logging, platform calls, JSON and bbolt, the adapters'
-- parsing and the torrent library, the other screens of the interface; what Restore does besides
-- giving ids, and the wait of a new torrent for a delete in flight; a shutdown step that panics; the
-- cancellation of a search by its caller, which only adds to a source's failures.
pub mod Base
pub mod Engine
pub mod Indexer
pub mod Lifecycle
pub mod Storage
pub mod Tui
