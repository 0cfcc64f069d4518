-- ===== src/Storage/Flushes/Closed.antt =====
-- internal/store/store.go: what Close leaves in the file, whatever else flushes meanwhile.
use tortui.Base.{
  ◌≡◌, Bool, List, true, ℕ, All, Bool-cases, Option, some, ◌++◌, false, get_elem?, inl, subst, ◌∷◌,
  [], arith, inr, suc, sym, zero, none, refl, ◌+◌, length, ◌<◌, ◌^◌,
}
use tortui.Storage.{Contents, File, written, load, last_seq}
use tortui.Storage.Valid.{change-closed, IsValid}
use tortui.Storage.Reopened.{load-written}
use tortui.Storage.Flushes.{
  Process, Closing, commit, drained_from, flushing, run, step, without_at, Event, committed,
  flushed_from, shut_from, start_flush, finish_flush, flushed, begin_close, landed, shut,
  with_outcome, close_drained, not_closing, close_flushed, draining, close_shut, changes, writes,
  close_writes, shuts, starts, closes, drains, opened,
}
use tortui.Storage.Flushes.Kept.{run-IsValid}
use tortui.Storage.Flushes.Unsaved.{Saved, run-clean}

-- What Close holds at each point when `m` is what the store holds.
Final : Contents → File → Closing → Type 0
Final m file not_closing = Unit
Final m file draining = Unit
Final m file (flushing none) = Saved file m
Final m file (flushing (some c)) = c ≡ m
Final m file (flushed none) = Saved file m
Final m file (flushed (some err)) = Unit
Final m file (shut none) = Saved file m
Final m file (shut (some err)) = Unit

-- A store that no call changes any more, with no older copy in flight.
record IsFrozen (m : Contents) (p : Process) : Type 0 where
  closed : p.store.closed ≡ true
  kept : p.store.contents ≡ m
  copies : All (λ c. c ≡ m) p.flights
  clean : p.store.dirty ≡ false → Saved p.file m
  final : Final m p.file p.closing

module _ (m : Contents) (saves : Saved (written m) m) where
  Final-written : (file : File) (c : Closing) → Final m file c → Final m (written m) c
  unfolding Final
  Final-written file not_closing h = tt
  Final-written file draining h = tt
  Final-written file (flushing none) h = saves
  Final-written file (flushing (some c)) h = h
  Final-written file (flushed none) h = saves
  Final-written file (flushed (some err)) h = tt
  Final-written file (shut none) h = saves
  Final-written file (shut (some err)) h = tt

  committed-IsFrozen :
      (is_open ok : Bool) (p : Process)
      → IsFrozen m p
      → IsFrozen m (committed is_open ok m p).0
        × Final m (committed is_open ok m p).0.file (flushed (committed is_open ok m p).1)
  unfolding Final
  committed-IsFrozen false ok p f = (
    record {
      closed = f.closed;
      kept = f.kept;
      copies = f.copies;
      clean = λ h. ground arith;
      final = f.final;
    },
    tt,
  )
  committed-IsFrozen true false p f = (
    record {
      closed = f.closed;
      kept = f.kept;
      copies = f.copies;
      clean = λ h. ground arith;
      final = f.final;
    },
    tt,
  )
  committed-IsFrozen true true p f = (
    record {
      closed = f.closed;
      kept = f.kept;
      copies = f.copies;
      clean = λ h. saves;
      final = Final-written p.file p.closing f.final;
    },
    saves,
  )

  All-without_at :
      (i : ℕ) (cs : List Contents) → All (λ c. c ≡ m) cs → All (λ c. c ≡ m) (without_at i cs)
  unfolding without_at
  All-without_at i [] h = tt
  All-without_at zero (c ∷ cs) (h, k) = k
  All-without_at (suc i) (c ∷ cs) (h, k) = (h, All-without_at i cs k)

  All-get :
      (i : ℕ) (cs : List Contents) (c : Contents)
      → All (λ c. c ≡ m) cs
      → get_elem? cs i ≡ some c
      → c ≡ m
  All-get i [] c h q = absurd (ground arith)
  All-get zero (x ∷ cs) c (h, k) q = ground arith
  All-get (suc i) (x ∷ cs) c (h, k) q = All-get i cs c k q

  All-last :
      (cs : List Contents) (c : Contents)
      → All (λ c. c ≡ m) cs
      → c ≡ m
      → All (λ c. c ≡ m) (cs ++ c ∷ [])
  All-last [] c h q = (q, tt)
  All-last (x ∷ cs) c (h, k) q = (h, All-last cs c k q)

  landed-IsFrozen :
      (ok : Bool) (i : ℕ) (o : Option Contents) (p : Process)
      → get_elem? p.flights i ≡ o
      → IsFrozen m p
      → IsFrozen m (landed ok i o p)
  unfolding commit
  landed-IsFrozen ok i none p q f = f
  landed-IsFrozen ok i (some c) p q f =
      subst
        (λ c.
          IsFrozen m (committed p.is_open ok c (record p { flights = without_at i p.flights })).0)
        (sym (All-get i p.flights c f.copies q))
        (committed-IsFrozen p.is_open ok (record p { flights = without_at i p.flights })
          (record {
            closed = f.closed;
            kept = f.kept;
            copies = All-without_at i p.flights f.copies;
            clean = f.clean;
            final = f.final;
          })).0

  drained_from-IsFrozen : (c : Closing) (p : Process) → IsFrozen m p → IsFrozen m (drained_from c p)
  unfolding Final
  drained_from-IsFrozen not_closing p f = f
  drained_from-IsFrozen draining p f = record {
    closed = f.closed;
    kept = f.kept;
    copies = f.copies;
    clean = f.clean;
    final = elim (Bool-cases p.store.dirty) [ inl q ↦ rw q f.kept | inr q ↦ rw q (f.clean q) ];
  }
  drained_from-IsFrozen (flushing c) p f = f
  drained_from-IsFrozen (flushed err) p f = f
  drained_from-IsFrozen (shut err) p f = f

  flushed_from-IsFrozen :
      (ok : Bool) (c : Closing) (p : Process)
      → p.closing ≡ c
      → IsFrozen m p
      → IsFrozen m (flushed_from ok c p)
  unfolding Final commit
  flushed_from-IsFrozen ok not_closing p q f = f
  flushed_from-IsFrozen ok draining p q f = f
  flushed_from-IsFrozen ok (flushing none) p q f = record {
    closed = f.closed;
    kept = f.kept;
    copies = f.copies;
    clean = f.clean;
    final = subst (Final m p.file) q f.final;
  }
  flushed_from-IsFrozen ok (flushing (some c)) p q f =
      let (g, out) = committed-IsFrozen p.is_open ok p f in
      subst (λ c. IsFrozen m (with_outcome (committed p.is_open ok c p)))
        (sym (subst (Final m p.file) q f.final))
        (record {
          closed = g.closed;
          kept = g.kept;
          copies = g.copies;
          clean = g.clean;
          final = out;
        })
  flushed_from-IsFrozen ok (flushed err) p q f = f
  flushed_from-IsFrozen ok (shut err) p q f = f

  shut_from-IsFrozen :
      (ok : Bool) (c : Closing) (p : Process)
      → p.closing ≡ c
      → IsFrozen m p
      → IsFrozen m (shut_from ok c p)
  unfolding Final
  shut_from-IsFrozen ok not_closing p q f = f
  shut_from-IsFrozen ok draining p q f = f
  shut_from-IsFrozen ok (flushing c) p q f = f
  shut_from-IsFrozen true (flushed none) p q f = record {
    closed = f.closed;
    kept = f.kept;
    copies = f.copies;
    clean = f.clean;
    final = subst (Final m p.file) q f.final;
  }
  shut_from-IsFrozen false (flushed none) p q f = record {
    closed = f.closed;
    kept = f.kept;
    copies = f.copies;
    clean = f.clean;
    final = tt;
  }
  shut_from-IsFrozen ok (flushed (some err)) p q f = record {
    closed = f.closed;
    kept = f.kept;
    copies = f.copies;
    clean = f.clean;
    final = tt;
  }
  shut_from-IsFrozen ok (shut err) p q f = f

  step-IsFrozen : (e : Event) (p : Process) → IsFrozen m p → IsFrozen m (step e p)
  unfolding step start_flush finish_flush begin_close close_drained close_flushed close_shut
  step-IsFrozen (changes c) p f =
      subst (λ s. IsFrozen m (record p { store = s })) (sym (change-closed c p.store f.closed)) f
  step-IsFrozen starts p f = elim (Bool-cases p.store.dirty) [
    | inl q ↦ simp q (record {
      closed = f.closed;
      kept = f.kept;
      copies = All-last p.flights p.store.contents f.copies f.kept;
      clean = f.clean;
      final = f.final;
    })
    | inr q ↦ simp q f
  ]
  step-IsFrozen (writes i ok) p f = landed-IsFrozen ok i (get_elem? p.flights i) p refl f
  step-IsFrozen closes p f = simp f.closed f
  step-IsFrozen drains p f = drained_from-IsFrozen p.closing p f
  step-IsFrozen (close_writes ok) p f = flushed_from-IsFrozen ok p.closing p refl f
  step-IsFrozen (shuts ok) p f = shut_from-IsFrozen ok p.closing p refl f

  run-IsFrozen : (es : List Event) (p : Process) → IsFrozen m p → IsFrozen m (run es p)
  unfolding run
  run-IsFrozen [] p f = f
  run-IsFrozen (e ∷ es) p f = run-IsFrozen es (step e p) (step-IsFrozen e p f)

-- Close, called on a store that was opened and used in any way, with no flush in flight: if it
-- returns no error, then whatever calls and flushes came in meanwhile and after, Open reads from the
-- file what the store held when Close was called. Fewer than 2^64 queries are ever made.
pub close_saves :
    (file : File) (es es' : List Event)
    → IsValid (load file)
    → last_seq 0 file.history + length es < 2 ^ 64
    → (run es (opened file)).store.closed ≡ false
    → (run es (opened file)).flights ≡ []
    → (run es' (step closes (run es (opened file)))).closing ≡ shut none
    → Saved
        (run es' (step closes (run es (opened file)))).file
        (run es (opened file)).store.contents
unfolding Final step begin_close
close_saves file es es' v bound live quiet done =
    let p = run es (opened file) in
    let m = p.store.contents in
    let frozen : IsFrozen m (step closes p) = simp live (record {
      closed = refl;
      kept = refl;
      copies = subst (All (λ c. c ≡ m)) (sym quiet) tt;
      clean = λ h. run-clean file es h;
      final = tt;
    }) in
    let f =
      run-IsFrozen m (load-written p.store (run-IsValid file es v bound)).0 es' (step closes p)
        frozen in
    subst (Final m (run es' (step closes p)).file) done f.final
