-- ===== src/Indexer/Registry/Listing.antt =====
-- internal/indexer/registry.go: what List, Enabled and selectSources return.
use tortui.Indexer.Registry.{
  Registry, listed, select_enabled, select_named, select_sources, snapshot, Source, Selection,
  handle,
}
use tortui.Base.{
  Bool, List, Map, Text, ◌∷◌, All, contains, if◌then◌else◌, map, [], is_some, ◌≡◌, arith, some,
  text_eq, true, keep, refl, All-contains, none, false, not, ◌||◌,
}
use tortui.Indexer.Registry.Integrity.{IsIntact}
use tortui.Indexer.{Indexer}

-- Whether a listing shows an id.
abbrev pub shown : Bool → Map Text Source → Text → Bool
shown enabled_only sources id = elim (sources id) [
  | none ↦ false
  | some s ↦ not enabled_only || s.enabled
]

registered_source :
    (r : Registry) (id : Text)
    → IsIntact r
    → contains r.order id ≡ true
    → (s : Source) × (r.sources id ≡ some s)
registered_source r id v h = ground (arith, v.listed id)

listed-cons :
    (enabled_only : Bool) (sources : Map Text Source) (id : Text) (ids : List Text) (s : Source)
    (ixs : List Indexer)
    → sources id ≡ some s
    → listed enabled_only sources ids ≡ some ixs
    → listed enabled_only sources (id ∷ ids)
      ≡ some (if shown enabled_only sources id then s.ix ∷ ixs else ixs)
unfolding listed
listed-cons enabled_only sources id ids s ixs e h = ground arith

listed-total :
    (enabled_only : Bool) (r : Registry) (ids : List Text)
    → IsIntact r
    → All (λ id. contains r.order id ≡ true) ids
    → (ixs : List Indexer) × (listed enabled_only r.sources ids ≡ some ixs)
      × (map (λ ix. ix.id) ixs ≡ keep (shown enabled_only r.sources) ids)
listed-total enabled_only r [] v h = ([], unfold listed in refl, refl)
listed-total enabled_only r (id ∷ ids) v h =
    let (s, e) = registered_source r id v h.0 in
    let (ixs, e', m) = listed-total enabled_only r ids v h.1 in
    (
      if shown enabled_only r.sources id then s.ix ∷ ixs else ixs,
      listed-cons enabled_only r.sources id ids s ixs e e',
      ground (arith, v.owned id s e),
    )

-- In a registry that its operations built, List and Enabled never meet a missing source, and
-- return the registered sources, or those of them that are enabled, in registration order.
pub snapshot-total :
    (enabled_only : Bool) (r : Registry)
    → IsIntact r
    → (ixs : List Indexer) × (snapshot enabled_only r ≡ some ixs)
      × (map (λ ix. ix.id) ixs ≡ keep (shown enabled_only r.sources) r.order)
unfolding snapshot
snapshot-total enabled_only r v = listed-total enabled_only r r.order v (All-contains r.order)

select_enabled-cons :
    (sources : Map Text Source) (id : Text) (ids : List Text) (s : Source) (out : List Selection)
    → sources id ≡ some s
    → select_enabled sources ids ≡ some out
    → select_enabled sources (id ∷ ids)
      ≡ some
          (if shown true sources id then record { id = id; src = some (handle s) } ∷ out else out)
unfolding select_enabled
select_enabled-cons sources id ids s out e h = ground arith

select_enabled-total :
    (r : Registry) (ids : List Text)
    → IsIntact r
    → All (λ id. contains r.order id ≡ true) ids
    → (out : List Selection) × (select_enabled r.sources ids ≡ some out)
      × (map (λ x. x.id) out ≡ keep (shown true r.sources) ids)
      × All (λ x. is_some x.src ≡ true) out
select_enabled-total r [] v h = ([], unfold select_enabled in refl, refl, tt)
select_enabled-total r (id ∷ ids) v h =
    let (s, e) = registered_source r id v h.0 in
    let (out, e', m, known) = select_enabled-total r ids v h.1 in
    (
      if shown true r.sources id then record { id = id; src = some (handle s) } ∷ out else out,
      select_enabled-cons r.sources id ids s out e e',
      ground arith,
      ground arith,
    )

-- With no ids a fan-out goes to the enabled sources, each once, in registration order.
pub select_sources-enabled :
    (r : Registry)
    → IsIntact r
    → (out : List Selection) × (select_sources [] r ≡ some out)
      × (map (λ x. x.id) out ≡ keep (shown true r.sources) r.order)
      × All (λ x. is_some x.src ≡ true) out
unfolding select_sources
select_sources-enabled r v = select_enabled-total r r.order v (All-contains r.order)

-- The ids given, each at its first place.
abbrev pub firsts : List Text → List Text → List Text
firsts seen [] = []
firsts seen (id ∷ ids) =
    let rest = firsts (if contains seen id then seen else id ∷ seen) ids in
    if contains seen id then rest else id ∷ rest

abbrev IsOf : Map Text Source → Selection → Type 0
IsOf sources x = is_some x.src ≡ is_some (sources x.id)

select_named-firsts :
    (sources : Map Text Source) (seen ids : List Text)
    → (map (λ x. x.id) (select_named sources seen ids) ≡ firsts seen ids)
      × All (IsOf sources) (select_named sources seen ids)
unfolding select_named
select_named-firsts sources seen [] = (refl, tt)
select_named-firsts sources seen (id ∷ ids) =
    ground (arith, select_named-firsts sources (if contains seen id then seen else id ∷ seen) ids)
