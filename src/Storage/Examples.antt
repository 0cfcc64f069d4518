-- ===== src/Storage/Examples.antt =====
-- internal/store: a store that is opened, used, flushed and closed, for the tests.
use tortui.Lifecycle.Session.{zero_record, TorrentRecord, set_torrent}
use tortui.Base.{refl, List, codes, [], none, ◌≡◌, arith, ◌∷◌, true, space_trimmed}
use tortui.Storage.{
  File, load, write_torrents, written, change, add_history, adds, clears, sets, touch_destination,
  clear_history, touches, capped,
}
use tortui.Storage.Valid.{Ascending, IsValid, change-IsValid}
use tortui.Storage.Reopened.{load-written}
use tortui.Storage.Flushes.{
  run, step, Event, opened, changes, drains, start_flush, starts, close_writes, finish_flush,
  writes, closes, commit, shuts, begin_close, close_drained, close_flushed, close_shut, without_at,
  shut,
}
use tortui.Storage.Flushes.Unsaved.{Saved, run-dirty}
use tortui.Storage.Flushes.Closed.{close_saves}

abbrev fresh : File
fresh = record { torrents = []; history = []; prefs = none; destinations = none }

abbrev debian : TorrentRecord
debian = record zero_record { id = codes "deb"; name = codes "debian" }

fresh-IsValid : IsValid (load fresh)
unfolding load write_torrents Ascending
fresh-IsValid = record { ids = tt; queries = omega arith; few = omega arith; paths = tt }

-- A query, a torrent, a flush that works, a destination.
abbrev used : List Event
used =
    changes (adds (codes "debian") 7)
    ∷ changes (sets debian)
    ∷ starts
    ∷ writes 0 true
    ∷ changes (touches (codes "/data"))
    ∷ []

abbrev closes_well : List Event
closes_well = drains ∷ changes clears ∷ starts ∷ close_writes true ∷ writes 0 true ∷ shuts true ∷ []

change-IsValid_example : IsValid (change (adds (codes "x") 1) (load fresh)).0
unfolding load write_torrents
change-IsValid_example =
    change-IsValid (adds (codes "x") 1) (load fresh) (omega arith) fresh-IsValid

load-written_example :
    ((load (written (load fresh).contents)).contents ≡ (load fresh).contents)
    × IsValid (load (written (load fresh).contents))
load-written_example = load-written (load fresh) fresh-IsValid

run-dirty_example :
    (run closes_well (step (changes (adds (codes "x") 1)) (opened fresh))).store.dirty ≡ true
unfolding step opened load change add_history
run-dirty_example = run-dirty closes_well (step (changes (adds (codes "x") 1)) (opened fresh)) refl

close_saves_example :
    Saved
      (run closes_well (step closes (run used (opened fresh)))).file
      (run used (opened fresh)).store.contents
unfolding run step opened load change add_history set_torrent touch_destination clear_history
    start_flush finish_flush commit begin_close close_drained close_flushed close_shut
    write_torrents capped space_trimmed without_at
close_saves_example = close_saves fresh used closes_well fresh-IsValid (omega arith) refl refl refl

-- An older copy that is written between Close's flush and the closing of the file.
abbrev stale : List Event
stale =
    changes (adds (codes "debian") 7)
    ∷ starts
    ∷ changes (touches (codes "/data"))
    ∷ closes
    ∷ drains
    ∷ close_writes true
    ∷ writes 0 true
    ∷ shuts true
    ∷ []

stale_copy_wins :
    ((run stale (opened fresh)).closing ≡ shut none)
    × ((run stale (opened fresh)).store.contents.destinations ≡ codes "/data" ∷ [])
    × ((load (run stale (opened fresh)).file).contents.destinations ≡ [])
unfolding run step opened load written change add_history touch_destination start_flush finish_flush
    commit begin_close close_drained close_flushed close_shut write_torrents capped space_trimmed
    without_at
stale_copy_wins = (refl, refl, refl)
