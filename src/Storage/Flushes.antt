-- ===== src/Storage/Flushes.antt =====
-- internal/store/store.go, history.go: flushes, which write outside the lock what they copied under
-- it, beside the calls of other goroutines, and Close. A step is what one goroutine does between two
-- points where another can come in.
pub mod Unsaved
pub mod Kept
pub mod Closed
use tortui.Base.{
  Bool, List, Option, if◌then◌else◌, ℕ, ◌++◌, false, get_elem?, some, true, ◌∷◌, [], none, not, suc,
  zero,
}
use tortui.Storage.{
  Store, Change, File, change, load, Contents, Error, write_failed, not_open, written, close_failed,
}

-- Where Close stands: not called; waiting for the flush loop; with the copy of its last flush, `none`
-- where the store was not dirty; with that flush's outcome; returned with its outcome.
pub data Closing : Type 0 where
  not_closing draining : Closing
  flushing : Option Contents → Closing
  flushed : Option Error → Closing
  shut : Option Error → Closing

-- `flights` are the copies of the flushes that have yet to write, in the order they were made.
pub record Process : Type 0 where
  pub store : Store
  pub file : File
  pub is_open : Bool
  pub flights : List Contents
  pub closing : Closing

pub data Event : Type 0 where
  changes : Change → Event
  -- A tick of the flush loop, a Flush, or ClearHistory after its change.
  starts : Event
  -- The transaction of the flush at this place; whether the disk takes it.
  writes : ℕ → Bool → Event
  closes drains : Event
  -- The transaction of Close's flush; whether the disk takes it.
  close_writes : Bool → Event
  -- db.Close, and whether it succeeds.
  shuts : Bool → Event

unfoldable pub without_at {ℓ} : {A : Type ℓ} → ℕ → List A → List A
without_at i [] = []
without_at zero (x ∷ xs) = xs
without_at (suc i) (x ∷ xs) = x ∷ without_at i xs

-- The first half of flush, under the lock.
unfoldable pub start_flush : Process → Process
start_flush p =
    if p.store.dirty then record p { flights = p.flights ++ p.store.contents ∷ [] } else p

-- The store is dirty again, with the flush's error.
abbrev pub unwritten : Error → Process → Process × Option Error
unwritten err p = (record p { store = record p.store { dirty = true } }, some err)

-- What the transaction gives, by whether the file is open and whether the disk takes it.
abbrev pub committed : Bool → Bool → Contents → Process → Process × Option Error
committed false accepts snapshot p = unwritten not_open p
committed true false snapshot p = unwritten write_failed p
committed true true snapshot p = (record p { file = written snapshot }, none)

-- The second half of flush, from the transaction on.
unfoldable pub commit : Bool → Contents → Process → Process × Option Error
commit accepts snapshot p = committed p.is_open accepts snapshot p

abbrev pub landed : Bool → ℕ → Option Contents → Process → Process
landed accepts i none p = p
landed accepts i (some snapshot) p =
    (commit accepts snapshot (record p { flights = without_at i p.flights })).0

unfoldable pub finish_flush : ℕ → Bool → Process → Process
unfolding commit
finish_flush i accepts p = landed accepts i (get_elem? p.flights i) p

unfoldable pub begin_close : Process → Process
begin_close p =
    if p.store.closed
    then p
    else record p { store = record p.store { closed = true }; closing = draining }

-- After the flush loop: the first half of Close's flush.
abbrev pub drained_from : Closing → Process → Process
drained_from draining p = record p {
  closing = flushing (if p.store.dirty then some p.store.contents else none);
}
drained_from not_closing p = p
drained_from (flushing c) p = p
drained_from (flushed err) p = p
drained_from (shut err) p = p

-- After the flush loop: the first half of Close's flush.
unfoldable pub close_drained : Process → Process
close_drained p = drained_from p.closing p

abbrev pub with_outcome : Process × Option Error → Process
with_outcome (p, err) = record p {
  store = record p.store { close_flush_err = err };
  closing = flushed err;
}

abbrev pub flushed_from : Bool → Closing → Process → Process
flushed_from accepts (flushing none) p = with_outcome (p, none)
flushed_from accepts (flushing (some snapshot)) p = with_outcome (commit accepts snapshot p)
flushed_from accepts not_closing p = p
flushed_from accepts draining p = p
flushed_from accepts (flushed err) p = p
flushed_from accepts (shut err) p = p

unfoldable pub close_flushed : Bool → Process → Process
unfolding commit
close_flushed accepts p = flushed_from accepts p.closing p

abbrev pub shut_from : Bool → Closing → Process → Process
shut_from succeeds (flushed none) p = record p {
  is_open = false;
  closing = shut (if succeeds then none else some close_failed);
}
shut_from succeeds (flushed (some err)) p = record p { is_open = false; closing = shut (some err) }
shut_from succeeds not_closing p = p
shut_from succeeds draining p = p
shut_from succeeds (flushing c) p = p
shut_from succeeds (shut err) p = p

unfoldable pub close_shut : Bool → Process → Process
close_shut succeeds p = shut_from succeeds p.closing p

unfoldable pub step : Event → Process → Process
unfolding change start_flush finish_flush begin_close close_drained close_flushed close_shut
step (changes c) p = record p { store = (change c p.store).0 }
step starts p = start_flush p
step (writes i accepts) p = finish_flush i accepts p
step closes p = begin_close p
step drains p = close_drained p
step (close_writes accepts) p = close_flushed accepts p
step (shuts succeeds) p = close_shut succeeds p

unfoldable pub run : List Event → Process → Process
unfolding step
run [] p = p
run (e ∷ es) p = run es (step e p)

-- Open.
unfoldable pub opened : File → Process
unfolding load
opened file = record {
  store = load file;
  file = file;
  is_open = true;
  flights = [];
  closing = not_closing;
}
