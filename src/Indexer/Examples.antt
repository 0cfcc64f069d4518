-- ===== src/Indexer/Examples.antt =====
-- internal/indexer: two sources, their answers, a fan-out of two goroutines and the HTTP client, for
-- the tests.
use tortui.Indexer.{Indexer, Caps, Query, search_mode, Category, text, Result, unknown}
use tortui.Indexer.Registry.{
  key_eqb, CacheKey, Registry, Selection, new_registry, cached_results, reserve_fetch, register,
  store_results, unregister, set_enabled, select_sources, select_named,
}
use tortui.Indexer.Registry.Integrity.{IsIntact, run-new-IsIntact}
use tortui.Base.{
  List, Text, Unicode, codes, ℕ, ◌<◌, [], false, if◌then◌else◌, length, true, ℤ, ◌+◌, leb, pos, ◌≡◌,
  ◌&&◌, Any, arith, refl, some, ◌∷◌, map, ◌||◌, empty_map, All, Perm, none, ◌≤◌, suc, space_trimmed,
  zero, Bool, ◌==◌, joined, stable_sort, text_eq, min, ◌≢◌, ◌*◌, ◌^◌, max, ◌-◌, text_eqb,
  trimmed_right,
}
use tortui.Indexer.Registry.Floor.{Spaced}
use tortui.Indexer.Registry.Trace.{
  run_claims, Op, run, registers, enables, reserves, stores, unregisters, claims, step,
}
use tortui.Indexer.Search.{
  new_cache_key, Outcome, Turn, outcomes, outside, run_turns, thread_turn, spawn, timed_out,
  replied, category_key, Answers, search_all,
}
use tortui.Indexer.Registry.Freshness.{IsStored, run_stores, cached_results-fresh}
use tortui.Indexer.Search.Honesty.{AllHonest, run_turns-AllHonest}
use tortui.Indexer.Merge.Rows.{Covers, merged_rows-Covers}
use tortui.Indexer.Merge.{Group, merge_results, merged_rows, finished}
use tortui.Indexer.Search.Sections.{run_requests, run_requests-Spaced}
use tortui.Indexer.Search.Progress.{turns_of, fan_out-total}
use tortui.Indexer.Search.Outcomes.{Ends, error_of, group_of, search_all-Ends}
use mathlib.Core.List.{filter_map}
use tortui.Indexer.Merge.Order.{merge_results-InOrder, InOrder}
use tortui.Indexer.Merge.Origins.{IsOrigin, DistinctKeys, merged_rows-IsOrigin}
use tortui.Indexer.Http.Spacing.{AllApart, run_grants, run_grants-AllApart}
use tortui.Indexer.Http.{
  Client, Round, backoff_for, do_request, do_from, status, after_reply, out_of_fuel, response,
  after_status, is_retryable_status, retry_delay, doubled,
}
use tortui.Indexer.Http.Attempts.{only_retried, do_request-bounded}
use tortui.Indexer.Http.Backoff.{backoff_for-min}
use tortui.Indexer.Http.Redirects.{
  Hop, Names, Url, followed, check_redirect, same_origin_userinfo, is_subdomain_of,
  is_scheme_downgrade, has_suffix, trimmed_dot, empty_label,
}
use tortui.Indexer.Http.Confinement.{stays, never_downgrades, followed-confined}
use tortui.Indexer.Categories.Tokens.{HasAscii}
use tortui.Indexer.Http.RetryAfter.{HeaderForms}

abbrev full : Caps
full = record {
  search = true;
  latest = true;
  categories = false;
  pagination = false;
  requires_auth = false;
  provides_magnet = true;
}

abbrev alpha : Indexer
alpha = record { id = codes "alpha"; name = codes "Alpha"; caps = full }

abbrev beta : Indexer
beta = record { id = codes "beta"; name = codes "Beta"; caps = record full { latest = false } }

abbrev item : Text → ℤ → Category → Result
item name seeders category = record {
  indexer_id = codes "alpha";
  id = name;
  title = name;
  info_hash = codes "ABCD";
  magnet = codes "magnet:?";
  torrent_url = [];
  size_bytes = pos 10;
  seeders = seeders;
  leechers = pos 0;
  category = category;
  source_category = [];
  published = 7;
  uploader = [];
  trust = unknown;
  source_url = [];
  extra = empty_map;
}

abbrev query : Query
query = record {
  mode = search_mode;
  text = codes "go";
  categories = text ∷ [];
  min_seeders = pos 0;
  limit = pos 0;
  offset = pos 0;
}

-- ASCII, for the tables of package unicode.
abbrev ascii : Unicode
ascii = record {
  to_lower = λ c. if leb 65 c && leb c 90 then c + 32 else c;
  is_letter = λ c. (leb 65 c && leb c 90) || (leb 97 c && leb c 122);
  is_digit = λ c. leb 48 c && leb c 57;
}

abbrev key : CacheKey
key = new_cache_key (codes "alpha") query

-- A claim, a second one that is throttled, a re-registration that keeps the last fetch, and a
-- claim after the interval.
abbrev calls : List Op
calls =
    registers (some alpha) 5
    ∷ reserves (codes "alpha") 0 10
    ∷ stores key 0 [] 11
    ∷ reserves (codes "alpha") 0 12
    ∷ unregisters (codes "alpha") 13 13
    ∷ registers (some alpha) 14
    ∷ reserves (codes "alpha") 1 15
    ∷ reserves (codes "alpha") 1 1_000_000_010
    ∷ []

abbrev fresh : Registry
fresh = new_registry (pos 0) (pos 0) (pos 0)

two_claims : length (run_claims calls fresh []) ≡ 2
unfolding run_claims claims reserve_fetch step register space_trimmed unregister store_results
    new_registry new_cache_key
two_claims = refl

run-new-IsIntact_example : IsIntact (run calls fresh)
run-new-IsIntact_example = run-new-IsIntact (pos 0) (pos 0) (pos 0) calls

abbrev two_sources : List Op
two_sources = registers (some alpha) 5 ∷ registers (some beta) 5 ∷ enables (codes "beta") false ∷ []

abbrev both : Registry
both = run two_sources fresh

both-IsIntact : IsIntact both
both-IsIntact = run-new-IsIntact (pos 0) (pos 0) (pos 0) two_sources

abbrev stocked : List Op
stocked = registers (some alpha) 5 ∷ stores key 0 (item (codes "one") (pos 3) text ∷ []) 11 ∷ []

stocked_hit :
    (cached_results key 20 (run stocked fresh)).1 ≡ some (item (codes "one") (pos 3) text ∷ [])
unfolding run cached_results step store_results register space_trimmed new_registry new_cache_key
    key_eqb category_key joined stable_sort
stocked_hit = refl

cached_results-fresh_example :
    (at : ℕ) × (20 < at + (run stocked fresh).cfg.cache_ttl)
    × Any (IsStored key (item (codes "one") (pos 3) text ∷ []) at) (run_stores stocked [])
cached_results-fresh_example =
    cached_results-fresh (pos 0) (pos 0) (pos 0) stocked key 20
      (item (codes "one") (pos 3) text ∷ []) stocked_hit

abbrev groups : List Group
groups =
    record {
      id = codes "alpha";
      cached = false;
      results = item (codes "one") (pos 3) text ∷ item (codes "two") (pos 5) text ∷ [];
    }
    ∷ record { id = codes "beta"; cached = true; results = item (codes "three") (pos 5) text ∷ [] }
    ∷ []

merged_rows-Covers_example : All (Covers ascii (merged_rows ascii groups)) groups
merged_rows-Covers_example = merged_rows-Covers ascii groups

-- The id is that of the group with this cache flag.
abbrev OfGroup : Text → Bool → Result → Type 0
OfGroup id cached res = (if cached then id == codes "beta" else id == codes "alpha") ≡ true

merged_rows-IsOrigin_example :
    All (IsOrigin ascii OfGroup) (merged_rows ascii groups)
    × DistinctKeys (merged_rows ascii groups)
merged_rows-IsOrigin_example =
    merged_rows-IsOrigin ascii OfGroup groups ((refl, (refl, tt)), ((refl, tt), tt))

merge_results-InOrder_example :
    Perm (merge_results ascii search_mode groups) (map finished (merged_rows ascii groups))
    × InOrder search_mode (merge_results ascii search_mode groups)
merge_results-InOrder_example = merge_results-InOrder ascii search_mode groups

abbrev chosen : List Selection
chosen =
    record { id = codes "alpha"; src = some (record { ix = alpha; addr = 0 }) }
    ∷ record { id = codes "gone"; src = none }
    ∷ []

-- The turns of two goroutines, mixed, with a removal in between.
abbrev schedule : List Turn
schedule =
    thread_turn 0 10 timed_out
    ∷ thread_turn 1 10 timed_out
    ∷ thread_turn 0 11 timed_out
    ∷ thread_turn 1 11 timed_out
    ∷ thread_turn 0 12 (replied (item (codes "one") (pos 3) text ∷ []))
    ∷ outside (unregisters (codes "alpha") 12 13)
    ∷ thread_turn 1 13 timed_out
    ∷ thread_turn 0 14 timed_out
    ∷ thread_turn 1 14 timed_out
    ∷ []

four_each : (i : ℕ) → i < length chosen → 4 ≤ turns_of i schedule
four_each zero h = omega arith
four_each (suc zero) h = omega arith
four_each (suc (suc i)) h = omega arith

fan_out-total_example :
    (os : List (Text × Outcome)) × (outcomes chosen
        (run_turns schedule (record { registry = both; tasks = spawn query chosen })).tasks
      ≡ some os)
    × (map (λ p. p.0) os ≡ map (λ s. s.id) chosen)
fan_out-total_example = fan_out-total query chosen both schedule four_each

run_turns-AllHonest_example :
    AllHonest (run_turns schedule (record { registry = both; tasks = spawn query chosen })).tasks
run_turns-AllHonest_example = run_turns-AllHonest query chosen both schedule

run_requests-Spaced_example : Spaced fresh.cfg.min_refresh_interval (
    run_requests
      (outside (registers (some alpha) 5) ∷ schedule)
      (record { registry = fresh; tasks = spawn query chosen })
      [])
run_requests-Spaced_example =
    run_requests-Spaced (pos 0) (pos 0) (pos 0) 5 (spawn query chosen)
      (outside (registers (some alpha) 5) ∷ schedule) (omega arith) (ground arith)

-- Both sources by name, one of them without a registration.
abbrev by_name : List Text
by_name = codes "alpha" ∷ codes "gone" ∷ []

by_name-chosen : select_sources by_name both ≡ some chosen
unfolding select_sources select_named run step register space_trimmed new_registry set_enabled
by_name-chosen = refl

search_all-Ends_example :
    let w = run_turns schedule (record { registry = both; tasks = spawn query chosen }) in
    (os : List (Text × Outcome)) × (a : Answers) × (r' : Registry) × (search_all ascii query by_name
        schedule both
      ≡ some (a, r'))
    × (outcomes chosen w.tasks ≡ some os)
    × (map (λ o. o.0) os ≡ map (λ s. s.id) chosen)
    × Ends os a.err
    × (a.source_errs ≡ filter_map error_of os)
    × (a.results ≡ merge_results ascii query.mode (filter_map group_of os))
search_all-Ends_example =
    search_all-Ends ascii query by_name schedule both chosen by_name-chosen four_each

abbrev patient : Client
patient = record {
  max_attempts = 3;
  base_backoff = 500;
  max_backoff = 800;
  max_retry_after = 10_000;
  jitter = λ d. d;
}

-- Two overloads, then the response.
abbrev overloaded : ℕ → Round
overloaded attempt = record {
  admitted = true;
  reply = if leb attempt 2 then status 503 none else response;
  fits_deadline = λ d. true;
  slept = true;
}

do_request-bounded_example :
    ((do_request patient overloaded).ending ≢ out_of_fuel)
    × (length (do_request patient overloaded).requests ≤ max 1 patient.max_attempts)
    × (only_retried (do_request patient overloaded).requests ≡ true)
do_request-bounded_example = do_request-bounded patient overloaded

overload_waits : (do_request patient overloaded).waits ≡ 500 ∷ 800 ∷ []
unfolding do_request do_from after_reply after_status is_retryable_status retry_delay backoff_for
    doubled
overload_waits = refl

backoff_for-min_example : backoff_for 3 500 800 ≡ min (500 * 2 ^ (3 - 1)) 800
backoff_for-min_example = backoff_for-min 3 500 800 (omega arith) (omega arith)

-- The clock goes back between the last two claims.
abbrev asked : List (Text × ℕ)
asked =
    (codes "a.org", 100) ∷ (codes "b.org", 101) ∷ (codes "a.org", 120) ∷ (codes "a.org", 90) ∷ []

run_grants-AllApart_example :
    AllApart 50 (run_grants asked (record { interval = 50; next = empty_map }) [])
run_grants-AllApart_example = run_grants-AllApart 50 asked

-- Names in lower case, none of them an address.
abbrev plain_names : Names
plain_names = record { equal_fold = text_eqb; lower = λ s. s; is_ip = λ s. false }

abbrev url : Text → Text → Url
url scheme host = record { scheme = scheme; host = host; hostname = host; port = []; user = none }

abbrev hop : Text → Text → Hop
hop scheme host = record { url = url scheme host; location = none }

-- An upgrade, a subdomain, and a hop back to http.
abbrev hops : List Hop
hops =
    hop (codes "https") (codes "a.org")
    ∷ hop (codes "https") (codes "x.a.org")
    ∷ hop (codes "http") (codes "a.org")
    ∷ []

abbrev start : Url
start = url (codes "http") (codes "a.org")

two_followed : length (followed plain_names true start start 1 hops) ≡ 2
unfolding followed check_redirect same_origin_userinfo is_subdomain_of is_scheme_downgrade
    has_suffix trimmed_dot empty_label
two_followed = refl

followed-confined_example :
    All (λ u. stays plain_names true start u ≡ true) (followed plain_names true start start 1 hops)
    × (never_downgrades plain_names start (followed plain_names true start start 1 hops) ≡ true)
    × (length (followed plain_names true start start 1 hops) ≤ 4)
followed-confined_example = followed-confined plain_names true start hops

-- A thousand years of seconds.
abbrev long_wait : HeaderForms
long_wait = record { parse_int = λ s. some (pos 31536000000); parse_time = λ s. none }

long_wait-named : (space_trimmed (codes "31536000000") == []) ≡ false
unfolding space_trimmed trimmed_right
long_wait-named = refl

abbrev ascii_tables : Unicode
ascii_tables = record {
  to_lower = λ r. r;
  is_letter = λ r. leb 97 r && leb r 122;
  is_digit = λ r. false;
}

ascii_tables-HasAscii : HasAscii ascii_tables
ascii_tables-HasAscii r low high = (refl, ground arith)
