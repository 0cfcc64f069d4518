-- ===== src/Storage/Flushes/Unsaved.antt =====
-- internal/store/store.go: the dirty flag, whatever the flushes do.
use tortui.Base.{
  Bool, List, ◌≡◌, true, arith, ◌∷◌, [], get_elem?, inl, inr, ap, ℕ, Option, ◌∙◌, some, none, false,
  ◌⊎◌, Bool-cases, refl, subst, sym, ◌==◌, false≢true, contains, space_trimmed, text_eq,
}
use tortui.Storage.{
  Store, File, change, Contents, set_torrent, delete_torrent, load, add_history, set_prefs,
  touch_destination, clear_history, Change, sets, deletes, adds, prefers, touches, clears,
}
use tortui.Storage.Flushes.{
  commit, run, step, start_flush, Event, Process, finish_flush, begin_close, close_drained,
  close_flushed, close_shut, changes, writes, without_at, close_writes, shuts, starts, closes,
  drains, Closing, drained_from, flushed_from, shut_from, flushing, landed, flushed, shut,
  not_closing, draining, opened,
}
use tortui.Lifecycle.Session.{record_ids}

-- The file holds what the store holds.
abbrev pub Saved : File → Contents → Type 0
Saved file c = (load file).contents ≡ c

change-dirty : (c : Change) (s : Store) → s.dirty ≡ true → (change c s).0.dirty ≡ true
unfolding change set_torrent delete_torrent add_history set_prefs touch_destination clear_history
change-dirty (sets rec) s h = ground arith
change-dirty (deletes id) s h = ground arith
change-dirty (adds text now) s h = ground arith
change-dirty (prefers p) s h = ground arith
change-dirty (touches path) s h = ground arith
change-dirty clears s h = ground arith

commit-dirty :
    (ok : Bool) (c : Contents) (p : Process)
    → p.store.dirty ≡ true
    → (commit ok c p).0.store.dirty ≡ true
unfolding commit
commit-dirty ok c p h = ground arith

landed-dirty :
    (ok : Bool) (i : ℕ) (c : Option Contents) (p : Process)
    → p.store.dirty ≡ true
    → (landed ok i c p).store.dirty ≡ true
landed-dirty ok i none p h = h
landed-dirty ok i (some c) p h = commit-dirty ok c (record p { flights = without_at i p.flights }) h

drained_from-store : (c : Closing) (p : Process) → (drained_from c p).store ≡ p.store
drained_from-store not_closing p = refl
drained_from-store draining p = refl
drained_from-store (flushing c) p = refl
drained_from-store (flushed err) p = refl
drained_from-store (shut err) p = refl

flushed_from-dirty :
    (ok : Bool) (c : Closing) (p : Process)
    → p.store.dirty ≡ true
    → (flushed_from ok c p).store.dirty ≡ true
flushed_from-dirty ok not_closing p h = h
flushed_from-dirty ok draining p h = h
flushed_from-dirty ok (flushing none) p h = h
flushed_from-dirty ok (flushing (some c)) p h = commit-dirty ok c p h
flushed_from-dirty ok (flushed err) p h = h
flushed_from-dirty ok (shut err) p h = h

shut_from-store : (ok : Bool) (c : Closing) (p : Process) → (shut_from ok c p).store ≡ p.store
shut_from-store ok not_closing p = refl
shut_from-store ok draining p = refl
shut_from-store ok (flushing c) p = refl
shut_from-store ok (flushed none) p = refl
shut_from-store ok (flushed (some err)) p = refl
shut_from-store ok (shut err) p = refl

step-dirty : (e : Event) (p : Process) → p.store.dirty ≡ true → (step e p).store.dirty ≡ true
unfolding step start_flush finish_flush begin_close close_drained close_flushed close_shut
step-dirty (changes c) p h = change-dirty c p.store h
step-dirty starts p h = ground arith
step-dirty (writes i ok) p h = landed-dirty ok i (get_elem? p.flights i) p h
step-dirty closes p h = ground arith
step-dirty drains p h = ap (λ (s : Store). s.dirty) (drained_from-store p.closing p) ∙ h
step-dirty (close_writes ok) p h = flushed_from-dirty ok p.closing p h
step-dirty (shuts ok) p h = ap (λ (s : Store). s.dirty) (shut_from-store ok p.closing p) ∙ h

-- Once a call has changed the store, or a write has failed, the store is dirty for good: no flush,
-- whatever its outcome, clears the flag.
pub run-dirty :
    (es : List Event) (p : Process) → p.store.dirty ≡ true → (run es p).store.dirty ≡ true
unfolding run
run-dirty [] p h = h
run-dirty (e ∷ es) p h = run-dirty es (step e p) (step-dirty e p h)

-- A call that leaves the store clean leaves it as it was.
change-clean : (c : Change) (s : Store) → ((change c s).0 ≡ s) ⊎ ((change c s).0.dirty ≡ true)
unfolding change set_torrent delete_torrent add_history set_prefs touch_destination clear_history
change-clean (sets rec) s = elim (Bool-cases (rec.id == [])) [
  | inl p ↦ inl (simp p refl)
  | inr p ↦ elim (Bool-cases s.closed) [
    | inl q ↦ inl (simp (p, q) refl)
    | inr q ↦ inr (simp (p, q) refl)
  ]
]
change-clean (deletes id) s = elim (Bool-cases s.closed) [
  | inl q ↦ inl (simp q refl)
  | inr q ↦ elim (Bool-cases (contains (record_ids s.contents.torrents) id)) [
    | inl p ↦ inr (simp (q, p) refl)
    | inr p ↦ inl (simp (q, p) refl)
  ]
]
change-clean (adds text now) s = elim (Bool-cases s.closed) [
  | inl q ↦ inl (simp q refl)
  | inr q ↦ inr (simp q refl)
]
change-clean (prefers p) s = elim (Bool-cases s.closed) [
  | inl q ↦ inl (simp q refl)
  | inr q ↦ inr (simp q refl)
]
change-clean (touches path) s = elim (Bool-cases (space_trimmed path == [])) [
  | inl p ↦ inl (simp p refl)
  | inr p ↦ elim (Bool-cases s.closed) [
    | inl q ↦ inl (simp (p, q) refl)
    | inr q ↦ inr (simp (p, q) refl)
  ]
]
change-clean clears s = elim (Bool-cases s.closed) [
  | inl q ↦ inl (simp q refl)
  | inr q ↦ inr (simp q refl)
]

abbrev holds_copy : Closing → Bool
holds_copy (flushing (some c)) = true
holds_copy (flushing none) = false
holds_copy not_closing = false
holds_copy draining = false
holds_copy (flushed err) = false
holds_copy (shut err) = false

-- Nothing was changed since the file was opened.
record IsUntouched (file : File) (p : Process) : Type 0 where
  clean : p.store.dirty ≡ false
  same_file : p.file ≡ file
  same : p.store.contents ≡ (load file).contents
  quiet : p.flights ≡ []
  idle : holds_copy p.closing ≡ false

module _ (file : File) where
  drained_from-IsUntouched :
      (c : Closing) (p : Process) → IsUntouched file p → IsUntouched file (drained_from c p)
  drained_from-IsUntouched not_closing p u = u
  drained_from-IsUntouched draining p u = record {
    clean = u.clean;
    same_file = u.same_file;
    same = u.same;
    quiet = u.quiet;
    idle = rw u.clean refl;
  }
  drained_from-IsUntouched (flushing c) p u = u
  drained_from-IsUntouched (flushed err) p u = u
  drained_from-IsUntouched (shut err) p u = u

  flushed_from-IsUntouched :
      (ok : Bool) (c : Closing) (p : Process)
      → holds_copy c ≡ false
      → IsUntouched file p
      → IsUntouched file (flushed_from ok c p)
  flushed_from-IsUntouched ok not_closing p h u = u
  flushed_from-IsUntouched ok draining p h u = u
  flushed_from-IsUntouched ok (flushing none) p h u = record {
    clean = u.clean;
    same_file = u.same_file;
    same = u.same;
    quiet = u.quiet;
    idle = refl;
  }
  flushed_from-IsUntouched ok (flushing (some c)) p h u = absurd (ground arith)
  flushed_from-IsUntouched ok (flushed err) p h u = u
  flushed_from-IsUntouched ok (shut err) p h u = u

  shut_from-IsUntouched :
      (ok : Bool) (c : Closing) (p : Process)
      → IsUntouched file p
      → IsUntouched file (shut_from ok c p)
  shut_from-IsUntouched ok not_closing p u = u
  shut_from-IsUntouched ok draining p u = u
  shut_from-IsUntouched ok (flushing c) p u = u
  shut_from-IsUntouched ok (flushed none) p u = record {
    clean = u.clean;
    same_file = u.same_file;
    same = u.same;
    quiet = u.quiet;
    idle = refl;
  }
  shut_from-IsUntouched ok (flushed (some err)) p u = record {
    clean = u.clean;
    same_file = u.same_file;
    same = u.same;
    quiet = u.quiet;
    idle = refl;
  }
  shut_from-IsUntouched ok (shut err) p u = u

  step-IsUntouched :
      (e : Event) (p : Process)
      → (step e p).store.dirty ≡ false
      → IsUntouched file p
      → IsUntouched file (step e p)
  unfolding step start_flush finish_flush begin_close close_drained close_flushed close_shut
  step-IsUntouched (changes c) p h u = elim (change-clean c p.store) [
    | inl q ↦ subst (λ s. IsUntouched file (record p { store = s })) (sym q) u
    | inr q ↦ absurd (false≢true (sym h ∙ q))
  ]
  step-IsUntouched starts p h u = simp u.clean u
  step-IsUntouched (writes i ok) p h u =
      subst (λ l. IsUntouched file (landed ok i (get_elem? l i) p)) (sym u.quiet) u
  step-IsUntouched closes p h u = elim (Bool-cases p.store.closed) [
    | inl q ↦ simp q u
    | inr q ↦ simp q (record {
      clean = u.clean;
      same_file = u.same_file;
      same = u.same;
      quiet = u.quiet;
      idle = refl;
    })
  ]
  step-IsUntouched drains p h u = drained_from-IsUntouched p.closing p u
  step-IsUntouched (close_writes ok) p h u = flushed_from-IsUntouched ok p.closing p u.idle u
  step-IsUntouched (shuts ok) p h u = shut_from-IsUntouched ok p.closing p u

  run-IsUntouched :
      (es : List Event) (p : Process)
      → (run es p).store.dirty ≡ false
      → IsUntouched file p
      → IsUntouched file (run es p)
  unfolding run
  run-IsUntouched [] p h u = u
  run-IsUntouched (e ∷ es) p h u = elim (Bool-cases (step e p).store.dirty) [
    | inl q ↦ absurd (false≢true (sym h ∙ run-dirty es (step e p) q))
    | inr q ↦ run-IsUntouched es (step e p) h (step-IsUntouched e p q u)
  ]

-- However calls and flushes interleave after Open, a store that is not dirty holds what its file
-- holds: no change, and no failed write, goes unmarked.
pub run-clean :
    (file : File) (es : List Event)
    → (run es (opened file)).store.dirty ≡ false
    → Saved (run es (opened file)).file (run es (opened file)).store.contents
unfolding opened load
run-clean file es h =
    let u =
      run-IsUntouched file es (opened file) h
        (record { clean = refl; same_file = refl; same = refl; quiet = refl; idle = refl }) in
    ap (λ f. (load f).contents) u.same_file ∙ sym u.same
