-- ===== src/Indexer/Registry.antt =====
-- internal/indexer/registry.go: the registry's state and each of its critical sections. A call
-- that reads the clock takes the reading as an argument, in the order of the source's readings.
-- A *source is its registration number `addr`: of a pointer that a fan-out still holds after the
-- source is unregistered the code reads only the immutable `ix`.
pub mod Integrity
pub mod Listing
pub mod Trace
pub mod Floor
pub mod Freshness
use tortui.Base.{
  ℕ, suc, ◌+◌, ◌*◌, ◌≡◌, ◌↔◌, ℤ, pos, pos_part, lt_ℤ, eqb_ℤ_iff, Text, text_eqb_iff, arith, Map,
  empty_map, insert, erase, retain, Bool, true, false, Option, none, some, List, [], ◌∷◌, ◌++◌,
  ◌&&◌, ◌==◌, leb, not, if◌then◌else◌, keep, contains, space_trimmed, Eq, text_eq, int_eq, nat_eq,
  without,
}
use tortui.Indexer.{Indexer, Result, Mode, search_mode, latest_mode, unnamed}

pub data Error : Type 0 where
  nil_indexer empty_id duplicate_id unknown_indexer no_sources : Error
  unsupported_mode throttled source_panic : Error
  -- how many of how many
  all_sources_failed : ℕ → ℕ → Error
  -- the adapter's own error, and the deadline's
  adapter_error : Text → Error
  no_answer : Error

pub record Config : Type 0 where
  pub timeout : ℕ
  pub cache_ttl : ℕ
  pub min_refresh_interval : ℕ

pub record Source : Type 0 where
  pub ix : Indexer
  pub addr : ℕ
  pub enabled : Bool
  pub last_fetch : ℕ

pub record CacheKey : Type 0 where
  pub indexer_id : Text
  pub mode : Mode
  pub text : Text
  pub categories : Text
  pub min_seeders : ℤ
  pub limit : ℤ
  pub offset : ℤ

pub record CacheEntry : Type 0 where
  pub results : List Result
  pub fetched : ℕ

pub record Registry : Type 0 where
  pub cfg : Config
  pub sources : Map Text Source
  pub order : List Text
  pub cache : Map CacheKey CacheEntry
  pub retired_fetch : Map Text ℕ
  pub next_addr : ℕ

mode_eqb : Mode → Mode → Bool
mode_eqb search_mode search_mode = true
mode_eqb latest_mode latest_mode = true
mode_eqb (unnamed m) (unnamed n) = m == n
mode_eqb _ _ = false

unfoldable pub key_eqb : CacheKey → CacheKey → Bool
unfolding mode_eqb
key_eqb a b =
    a.indexer_id == b.indexer_id
    && mode_eqb a.mode b.mode
    && a.text == b.text
    && a.categories == b.categories
    && a.min_seeders == b.min_seeders
    && a.limit == b.limit
    && a.offset == b.offset

mode_eqb_iff : (a b : Mode) → (mode_eqb a b ≡ true) ↔ (a ≡ b)
unfolding mode_eqb
mode_eqb_iff search_mode b = ground arith
mode_eqb_iff latest_mode b = ground arith
mode_eqb_iff (unnamed m) search_mode = ground arith
mode_eqb_iff (unnamed m) latest_mode = ground arith
mode_eqb_iff (unnamed m) (unnamed n) = ground (arith, eqb_ℤ_iff m n)

pub key_eqb_iff : (a b : CacheKey) → (key_eqb a b ≡ true) ↔ (a ≡ b)
unfolding key_eqb
key_eqb_iff a b = ground (
  arith,
  text_eqb_iff a.indexer_id b.indexer_id,
  mode_eqb_iff a.mode b.mode,
  text_eqb_iff a.text b.text,
  text_eqb_iff a.categories b.categories,
  eqb_ℤ_iff a.min_seeders b.min_seeders,
  eqb_ℤ_iff a.limit b.limit,
  eqb_ℤ_iff a.offset b.offset,
)

instance abbrev pub key_eq : Eq CacheKey
key_eq = record { beq = key_eqb; beq_iff = key_eqb_iff }

-- A zero or negative setting selects the default.
or_default : ℤ → ℕ → ℕ
or_default d default = if lt_ℤ (pos 0) d then pos_part d else default

abbrev second : ℕ
second = 1_000_000_000

-- NewRegistry
unfoldable pub new_registry : ℤ → ℤ → ℤ → Registry
unfolding or_default
new_registry timeout cache_ttl min_refresh_interval = record {
  cfg = record {
    timeout = or_default timeout (15 * second);
    cache_ttl = or_default cache_ttl (60 * second);
    min_refresh_interval = or_default min_refresh_interval second;
  };
  sources = empty_map;
  order = [];
  cache = empty_map;
  retired_fetch = empty_map;
  next_addr = 0;
}

-- `now.Sub(last) < interval` for a positive interval, whichever of the times is later.
abbrev pub within : ℕ → ℕ → ℕ → Bool
within interval last now = not (leb (last + interval) now)

prune_retired_fetch : ℕ → Registry → Registry
prune_retired_fetch now r = record r {
  retired_fetch = retain (λ id last. within r.cfg.min_refresh_interval last now) r.retired_fetch;
}

-- The part of Register behind its checks.
registered : Indexer → ℕ → Registry → Registry
unfolding prune_retired_fetch
registered ix now r =
    let p = prune_retired_fetch now r in
    record p {
      sources = insert ix.id (source (p.retired_fetch ix.id)) p.sources;
      order = p.order ++ ix.id ∷ [];
      retired_fetch = erase ix.id p.retired_fetch;
      next_addr = suc p.next_addr;
    }
  where
    source : Option ℕ → Source
    source last = record {
      ix = ix;
      addr = r.next_addr;
      enabled = true;
      last_fetch = elim last [ none ↦ 0 | some t ↦ t ];
    }

unfoldable pub register : Option Indexer → ℕ → Registry → Registry × Option Error
unfolding registered
register none now r = (r, some nil_indexer)
register (some ix) now r =
    if space_trimmed ix.id == [] then (r, some empty_id) else elim (r.sources ix.id) [
      | some _ ↦ (r, some duplicate_id)
      | none ↦ (registered ix now r, none)
    ]

pub get : Text → Registry → Option Indexer
get id r = elim (r.sources id) [ none ↦ none | some s ↦ some s.ix ]

unfoldable pub set_enabled : Text → Bool → Registry → Registry × Option Error
set_enabled id enabled r = elim (r.sources id) [
  | none ↦ (r, some unknown_indexer)
  | some s ↦ (record r { sources = insert id (record s { enabled = enabled }) r.sources }, none)
]

-- The part of Unregister behind its check; it reads the clock to prune, and again.
unregistered : Text → Source → ℕ → ℕ → Registry → Registry
unfolding prune_retired_fetch
unregistered id src prune_now now r =
    let p = prune_retired_fetch prune_now r in
    record p {
      sources = erase id p.sources;
      order = without id p.order;
      cache = retain (λ k _. not (k.indexer_id == id)) p.cache;
      retired_fetch =
          if not (src.last_fetch == 0) && within p.cfg.min_refresh_interval src.last_fetch now
          then insert id src.last_fetch p.retired_fetch
          else p.retired_fetch;
    }

unfoldable pub unregister : Text → ℕ → ℕ → Registry → Registry × Option Error
unfolding unregistered
unregister id prune_now now r = elim (r.sources id) [
  | none ↦ (r, some unknown_indexer)
  | some src ↦ (unregistered id src prune_now now r, none)
]

-- The loop of snapshot. `none` is a panic: a nil *source in `order`.
unfoldable pub listed : Bool → Map Text Source → List Text → Option (List Indexer)
listed enabled_only sources [] = some []
listed enabled_only sources (id ∷ ids) =
    let rest = listed enabled_only sources ids in
    elim (sources id) [
      | none ↦ none
      | some s ↦
          if enabled_only && not s.enabled
          then rest
          else elim rest [ none ↦ none | some ixs ↦ some (s.ix ∷ ixs) ]
    ]

-- snapshot; List is `snapshot false` and Enabled is `snapshot true`.
unfoldable pub snapshot : Bool → Registry → Option (List Indexer)
unfolding listed
snapshot enabled_only r = listed enabled_only r.sources r.order

-- What a fan-out keeps of a *source.
pub record Handle : Type 0 where
  pub ix : Indexer
  pub addr : ℕ

pub record Selection : Type 0 where
  pub id : Text
  pub src : Option Handle

abbrev pub handle : Source → Handle
handle s = record { ix = s.ix; addr = s.addr }

unfoldable pub select_enabled : Map Text Source → List Text → Option (List Selection)
select_enabled sources [] = some []
select_enabled sources (id ∷ ids) =
    let rest = select_enabled sources ids in
    elim (sources id) [
      | none ↦ none
      | some s ↦
          if s.enabled
          then elim rest [
            | none ↦ none
            | some out ↦ some (record { id = id; src = some (handle s) } ∷ out)
          ]
          else rest
    ]

unfoldable pub select_named : Map Text Source → List Text → List Text → List Selection
select_named sources seen [] = []
select_named sources seen (id ∷ ids) =
    let rest = select_named sources (if contains seen id then seen else id ∷ seen) ids in
    if contains seen id
    then rest
    else record { id = id; src = elim (sources id) [ none ↦ none | some s ↦ some (handle s) ] }
      ∷ rest

-- selectSources; `none` is a panic, as in `snapshot`.
unfoldable pub select_sources : List Text → Registry → Option (List Selection)
unfolding select_enabled select_named
select_sources [] r = select_enabled r.sources r.order
select_sources (id ∷ ids) r = some (select_named r.sources [] (id ∷ ids))

-- cachedResults. Results are values here, so the clone is the value itself.
unfoldable pub cached_results : CacheKey → ℕ → Registry → Registry × Option (List Result)
cached_results key now r = elim (r.cache key) [
  | none ↦ (r, none)
  | some entry ↦
      if leb (entry.fetched + r.cfg.cache_ttl) now
      then (record r { cache = erase key r.cache }, none)
      else (r, some entry.results)
]

-- The part of storeResults behind its check.
stored : CacheKey → ℕ → List Result → Registry → Registry
stored key now results r = record r {
  cache =
      insert key (record { results = results; fetched = now })
        (retain (λ _ entry. within r.cfg.cache_ttl entry.fetched now) r.cache);
}

unfoldable pub store_results : CacheKey → ℕ → List Result → ℕ → Registry → Registry
unfolding stored
store_results key owner results now r = elim (r.sources key.indexer_id) [
  | none ↦ r
  | some s ↦ if s.addr == owner then stored key now results r else r
]

pub data FetchSlot : Type 0 where
  fetch_claimed fetch_throttled fetch_gone : FetchSlot

unfoldable pub reserve_fetch : Text → ℕ → ℕ → Registry → Registry × FetchSlot
reserve_fetch id addr now r = elim (r.sources id) [
  | none ↦ (r, fetch_gone)
  | some s ↦
      if not (s.addr == addr)
      then (r, fetch_gone)
      else if not (s.last_fetch == 0) && within r.cfg.min_refresh_interval s.last_fetch now
      then (r, fetch_throttled)
      else (
        record r { sources = insert id (record s { last_fetch = now }) r.sources },
        fetch_claimed,
      )
]
