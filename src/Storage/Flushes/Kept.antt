-- ===== src/Storage/Flushes/Kept.antt =====
-- internal/store: the records of a store, however calls and flushes interleave.
use tortui.Base.{
  refl, Bool, ◌≡◌, List, subst, ℕ, Distinct, Option, ◌+◌, true, false, length, some, sym, ◌<◌, ◌^◌,
  none, ◌≤◌, ◌∷◌, inl, text_eq, ◌⊎◌, arith, ap, inr, [], get_elem?,
}
use tortui.Storage.{
  Store, change, Contents, load, set_torrent, File, delete_torrent, add_history, last_seq,
  set_prefs, touch_destination, clear_history, Change, max_history_entries, sets, deletes, adds,
  prefers, touches, clears,
}
use tortui.Storage.Valid.{IsValid, Ascending, change-IsValid}
use tortui.Storage.Flushes.{
  Closing, commit, opened, run, step, Process, start_flush, Event, committed, drained_from,
  finish_flush, flushed_from, shut_from, begin_close, flushing, landed, close_drained, flushed,
  close_flushed, shut, without_at, close_shut, not_closing, draining, changes, writes, close_writes,
  shuts, starts, closes, drains,
}
use tortui.Lifecycle.Session.{record_ids}

change-seq : (c : Change) (s : Store) → (change c s).0.history_seq ≤ s.history_seq + 1
unfolding change set_torrent delete_torrent add_history set_prefs touch_destination clear_history
change-seq (sets rec) s = ground arith
change-seq (deletes id) s = ground arith
change-seq (adds text now) s = ground arith
change-seq (prefers p) s = ground arith
change-seq (touches path) s = ground arith
change-seq clears s = ground arith

-- Where the contents and the counter are the same, so is what `IsValid` says.
abbrev IsSame : Store → Store → Type 0
IsSame s t = (s.contents ≡ t.contents) × (s.history_seq ≡ t.history_seq)

IsSame-IsValid : (s t : Store) → IsSame s t → IsValid t → IsValid s
IsSame-IsValid s t (c, n) v = record {
  ids = subst (λ (x : Contents). Distinct (record_ids x.torrents)) (sym c) v.ids;
  queries =
      subst (λ (x : Contents). Ascending 0 s.history_seq x.history) (sym c)
        (subst (λ k. Ascending 0 k t.contents.history) (sym n) v.queries);
  few = subst (λ (x : Contents). length x.history ≤ max_history_entries) (sym c) v.few;
  paths = subst (λ (x : Contents). Distinct x.destinations) (sym c) v.paths;
}

committed-IsSame :
    (is_open ok : Bool) (c : Contents) (p : Process)
    → IsSame (committed is_open ok c p).0.store p.store
committed-IsSame false ok c p = (refl, refl)
committed-IsSame true false c p = (refl, refl)
committed-IsSame true true c p = (refl, refl)

landed-IsSame :
    (ok : Bool) (i : ℕ) (o : Option Contents) (p : Process) → IsSame (landed ok i o p).store p.store
unfolding commit
landed-IsSame ok i none p = (refl, refl)
landed-IsSame ok i (some c) p =
    committed-IsSame p.is_open ok c (record p { flights = without_at i p.flights })

drained_from-IsSame : (c : Closing) (p : Process) → IsSame (drained_from c p).store p.store
drained_from-IsSame not_closing p = (refl, refl)
drained_from-IsSame draining p = (refl, refl)
drained_from-IsSame (flushing c) p = (refl, refl)
drained_from-IsSame (flushed err) p = (refl, refl)
drained_from-IsSame (shut err) p = (refl, refl)

flushed_from-IsSame :
    (ok : Bool) (c : Closing) (p : Process) → IsSame (flushed_from ok c p).store p.store
unfolding commit
flushed_from-IsSame ok not_closing p = (refl, refl)
flushed_from-IsSame ok draining p = (refl, refl)
flushed_from-IsSame ok (flushing none) p = (refl, refl)
flushed_from-IsSame ok (flushing (some c)) p = committed-IsSame p.is_open ok c p
flushed_from-IsSame ok (flushed err) p = (refl, refl)
flushed_from-IsSame ok (shut err) p = (refl, refl)

shut_from-IsSame : (ok : Bool) (c : Closing) (p : Process) → IsSame (shut_from ok c p).store p.store
shut_from-IsSame ok not_closing p = (refl, refl)
shut_from-IsSame ok draining p = (refl, refl)
shut_from-IsSame ok (flushing c) p = (refl, refl)
shut_from-IsSame ok (flushed none) p = (refl, refl)
shut_from-IsSame ok (flushed (some err)) p = (refl, refl)
shut_from-IsSame ok (shut err) p = (refl, refl)

-- A step is a call of the store, or leaves the records alone.
step-change :
    (e : Event) (p : Process)
    → ((c : Change) × ((step e p).store ≡ (change c p.store).0)) ⊎ IsSame (step e p).store p.store
unfolding step start_flush finish_flush begin_close close_drained close_flushed close_shut
step-change (changes c) p = inl (c, refl)
step-change starts p = inr (ground arith)
step-change (writes i ok) p = inr (landed-IsSame ok i (get_elem? p.flights i) p)
step-change closes p = inr (ground arith)
step-change drains p = inr (drained_from-IsSame p.closing p)
step-change (close_writes ok) p = inr (flushed_from-IsSame ok p.closing p)
step-change (shuts ok) p = inr (shut_from-IsSame ok p.closing p)

run_from-IsValid :
    (es : List Event) (p : Process)
    → IsValid p.store
    → p.store.history_seq + length es < 2 ^ 64
    → IsValid (run es p).store
unfolding run
run_from-IsValid [] p v h = v
run_from-IsValid (e ∷ es) p v h = elim (step-change e p) [
  | inl (c, q) ↦
      run_from-IsValid es (step e p)
        (subst IsValid (sym q) (change-IsValid c p.store (omega arith) v))
        (omega (arith, ap (λ (s : Store). s.history_seq) q, change-seq c p.store))
  | inr same ↦
      run_from-IsValid es (step e p) (IsSame-IsValid (step e p).store p.store same v)
        (omega (arith, same.1))
]

pub run-IsValid :
    (file : File) (es : List Event)
    → IsValid (load file)
    → last_seq 0 file.history + length es < 2 ^ 64
    → IsValid (run es (opened file)).store
unfolding opened load
run-IsValid file es v h = run_from-IsValid es (opened file) v h
