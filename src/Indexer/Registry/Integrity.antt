-- ===== src/Indexer/Registry/Integrity.antt =====
-- internal/indexer/registry.go: what every critical section keeps of the registry's maps.
use tortui.Indexer.Registry.{
  Registry, new_registry, register, set_enabled, unregister, Source, CacheKey, cached_results,
  reserve_fetch, store_results, key_eqb_iff,
}
use tortui.Base.{
  Text, Bool, Option, contains, ℕ, ℤ, arith, contains-without, text_eqb_iff, Distinct-without, some,
  ◌≡◌, contains-append, is_some, Distinct, Distinct-append, ◌<◌, true, none, text_eq, List,
  Option-cases, insert, refl, inl, inr, ◌∷◌, [],
}
use tortui.Indexer.{Indexer, Result}
use tortui.Indexer.Registry.Trace.{
  run, step, Op, registers, unregisters, enables, reads_cache, reserves, stores,
}

-- `order` lists the registered ids once each, and everything kept for an id is in step with it.
pub record IsIntact (r : Registry) : Type 0 where
  pub listed : (id : Text) → contains r.order id ≡ is_some (r.sources id)
  pub distinct : Distinct r.order
  pub owned :
      (id : Text) (s : Source) → r.sources id ≡ some s → (s.ix.id ≡ id) × (s.addr < r.next_addr)
  pub apart :
      (id id' : Text) (s s' : Source)
      → r.sources id ≡ some s
      → r.sources id' ≡ some s'
      → s.addr ≡ s'.addr
      → id ≡ id'
  -- a cached answer belongs to a registered id
  pub cached : (k : CacheKey) → is_some (r.cache k) ≡ true → is_some (r.sources k.indexer_id) ≡ true
  -- a floor is kept for an unregistered id only
  pub retired : (id : Text) → is_some (r.retired_fetch id) ≡ true → r.sources id ≡ none

new_registry-IsIntact : (t c m : ℤ) → IsIntact (new_registry t c m)
unfolding new_registry
new_registry-IsIntact t c m = record {
  listed = λ id. refl;
  distinct = tt;
  owned = λ id s h. cc;
  apart = λ id id' s s' h h' e. cc;
  cached = λ k h. cc;
  retired = λ id h. refl;
}

register-IsIntact :
    (ix : Option Indexer) (now : ℕ) (r : Registry) → IsIntact r → IsIntact (register ix now r).0
unfolding register
register-IsIntact none now r v = v
register-IsIntact (some ix) now r v = record {
  listed = λ id. ground (arith, v.listed id, contains-append r.order ix.id id);
  distinct = ground (arith, v.distinct, v.listed ix.id, Distinct-append r.order ix.id);
  owned = λ id s h. ground (arith, v.owned id s, text_eqb_iff ix.id id);
  apart = λ id id' s s' h h' e. ground (
    arith,
    v.apart id id' s s',
    v.owned id s,
    v.owned id' s',
    text_eqb_iff ix.id id,
    text_eqb_iff ix.id id',
  );
  cached = λ k h. ground (arith, v.cached k);
  retired = λ id h. ground (arith, v.retired id, text_eqb_iff ix.id id);
}

unregister-IsIntact :
    (id : Text) (prune_now now : ℕ) (r : Registry)
    → IsIntact r
    → IsIntact (unregister id prune_now now r).0
unfolding unregister
unregister-IsIntact id prune_now now r v = record {
  listed = λ j. ground (arith, v.listed j, contains-without r.order id j);
  distinct = ground (arith, v.distinct, Distinct-without r.order id);
  owned = λ j s h. ground (arith, v.owned j s, text_eqb_iff id j);
  apart =
      λ j j' s s' h h' e. ground (arith, v.apart j j' s s', text_eqb_iff id j, text_eqb_iff id j');
  cached =
      λ k h. ground (arith, v.cached k, text_eqb_iff k.indexer_id id, text_eqb_iff id k.indexer_id);
  retired = λ j h. ground (arith, v.retired j, text_eqb_iff id j);
}

-- A source may change its flag and its last fetch in place.
update-IsIntact :
    (id : Text) (s s' : Source) (r : Registry)
    → r.sources id ≡ some s
    → s'.ix ≡ s.ix
    → s'.addr ≡ s.addr
    → IsIntact r
    → IsIntact (record r { sources = insert id s' r.sources })
update-IsIntact id s s' r e e' e'' v = record {
  listed = λ j. ground (arith, v.listed j, text_eqb_iff id j);
  distinct = v.distinct;
  owned = λ j t h. ground (arith, v.owned id s, v.owned j t, text_eqb_iff id j);
  apart = λ j j' t t' h h' q. ground (
    arith,
    v.apart j j' t t',
    v.apart id j' s t',
    v.apart j id t s,
    text_eqb_iff id j,
    text_eqb_iff id j',
  );
  cached = λ k h. ground (arith, v.cached k, text_eqb_iff id k.indexer_id);
  retired = λ j h. ground (arith, v.retired j, text_eqb_iff id j);
}

set_enabled-IsIntact :
    (id : Text) (enabled : Bool) (r : Registry) → IsIntact r → IsIntact (set_enabled id enabled r).0
unfolding set_enabled
set_enabled-IsIntact id enabled r v = elim (Option-cases (r.sources id)) [
  | inl e ↦ rw (e, set_enabled) v
  | inr (s, e) ↦
      rw (e, set_enabled) (update-IsIntact id s (record s { enabled = enabled }) r e refl refl v)
]

reserve_fetch-IsIntact :
    (id : Text) (addr now : ℕ) (r : Registry)
    → IsIntact r
    → IsIntact (reserve_fetch id addr now r).0
unfolding reserve_fetch
reserve_fetch-IsIntact id addr now r v = elim (Option-cases (r.sources id)) [
  | inl e ↦ rw (e, reserve_fetch) v
  | inr (s, e) ↦
      let claimed = update-IsIntact id s (record s { last_fetch = now }) r e refl refl v in
      rw (e, reserve_fetch) (ground arith)
]

cached_results-IsIntact :
    (key : CacheKey) (now : ℕ) (r : Registry) → IsIntact r → IsIntact (cached_results key now r).0
unfolding cached_results
cached_results-IsIntact key now r v = record {
  listed = λ j. ground (arith, v.listed j);
  distinct = ground (arith, v.distinct);
  owned = λ j s h. ground (arith, v.owned j s);
  apart = λ j j' s s' h h' e. ground (arith, v.apart j j' s s');
  cached = λ k h. ground (arith, v.cached k);
  retired = λ j h. ground (arith, v.retired j);
}

store_results-IsIntact :
    (key : CacheKey) (owner now : ℕ) (results : List Result) (r : Registry)
    → IsIntact r
    → IsIntact (store_results key owner results now r)
unfolding store_results
store_results-IsIntact key owner now results r v = record {
  listed = λ j. ground (arith, v.listed j);
  distinct = ground (arith, v.distinct);
  owned = λ j s h. ground (arith, v.owned j s);
  apart = λ j j' s s' h h' e. ground (arith, v.apart j j' s s');
  cached = λ k h. ground (arith, v.cached k, key_eqb_iff key k);
  retired = λ j h. ground (arith, v.retired j);
}

step-IsIntact : (op : Op) (r : Registry) → IsIntact r → IsIntact (step op r)
unfolding step
step-IsIntact (registers ix now) r v = register-IsIntact ix now r v
step-IsIntact (unregisters id prune_now now) r v = unregister-IsIntact id prune_now now r v
step-IsIntact (enables id enabled) r v = set_enabled-IsIntact id enabled r v
step-IsIntact (reads_cache key now) r v = cached_results-IsIntact key now r v
step-IsIntact (reserves id addr now) r v = reserve_fetch-IsIntact id addr now r v
step-IsIntact (stores key owner results now) r v = store_results-IsIntact key owner now results r v

run-IsIntact : (ops : List Op) (r : Registry) → IsIntact r → IsIntact (run ops r)
unfolding run
run-IsIntact [] r v = v
run-IsIntact (op ∷ ops) r v = run-IsIntact ops (step op r) (step-IsIntact op r v)

-- After any calls, in any order: `order` holds exactly the registered ids, each once; each
-- source is kept under its own id, and no two ids share one; every cached answer is of a
-- registered id, and every retired last fetch is of an id that is not registered.
pub run-new-IsIntact : (t c m : ℤ) (ops : List Op) → IsIntact (run ops (new_registry t c m))
run-new-IsIntact t c m ops = run-IsIntact ops (new_registry t c m) (new_registry-IsIntact t c m)
