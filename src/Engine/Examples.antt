-- ===== src/Engine/Examples.antt =====
-- internal/engine: an engine of one slot, and a platform for paths, for the tests.
use tortui.Engine.{queued, seed_off, downloading}
use tortui.Engine.Downloads.Events.{
  AllResumesStartable, after_promotion, Event, run_events, adds, publishes, pauses, resumes,
  removes, promotes, handle,
}
use tortui.Engine.Downloads.{
  Engine, Torrent, Tracked, promote_one, refuse, metadata_timeout, find, holds_slot, active,
  enqueue, amend, pause, pause_locked, paused_tracked, remove_first, resumed_tracked, startable,
}
use tortui.Engine.Downloads.Slots.{Fits}
use tortui.Engine.Downloads.Queue.{IsQueue, known}
use tortui.Engine.Downloads.Intake.{
  LeftView, Provenance, begun, new_tracked, publish, find_or_track, claim_fetched, scan_claim,
  claim_info_hash, check_left, take_claim, untrack_all, published,
}
use tortui.Base.{
  List, codes, false, true, ◌∷◌, [], ◌≡◌, arith, inr, some, none, refl, ltb, joined, All,
  trimmed_right, inl, String, ℕ, ◌^◌, ◌+◌, ◌≤◌, ◌⊎◌,
}
use tortui.Engine.Downloads.Fetched.{TwoEntries, fetched_twice}
use tortui.Engine.Downloads.Bound.{run_events-Fits}
use tortui.Engine.Downloads.NoPanic.{promote_one-total}
use tortui.Engine.Downloads.Refusal.{promotes_refused}
use tortui.Engine.Paths.{
  Platform, check_torrent_path, check_components, check_path_component, stem, contained_in,
  has_prefix, windows_reserved_names, traverses,
}
use tortui.Engine.Paths.Below.{walked, descended, is_single, check_torrent_path-below}
use tortui.Engine.Downloads.Space.{Disk, Writer, is_writing, space_shortfall, recheck}
use tortui.Engine.Downloads.Space.Shortfall.{total_on, space_shortfall_overflow}
use tortui.Engine.Downloads.Space.Recheck.{recheck-Room}
use tortui.Engine.Downloads.Space.Turns.{downloads, writing_on}

abbrev plain : Provenance
plain = record { paused = false; seed_done = false; uploaded = 0; completed_at = 0 }

abbrev gone_view : LeftView
gone_view = record { same_dir = λ p. true; gone = λ p n. true }

abbrev library_torrent : Torrent
library_torrent = record {
  info_hash = codes "ab";
  has_info = false;
  length = 0;
  completed = 0;
  written = 0;
  download_allowed = false;
  upload_allowed = false;
}

abbrev idle : Engine
idle = record { closed = false; max_active = 1; seed = seed_off; torrents = []; queue = [] }

-- The first torrent is paused while its metadata is pending, the second takes its slot, and the
-- first is resumed into the queue; then the second goes and a promotion starts the first.
abbrev day : List Event
day =
    adds (codes "ab") (codes "1") (codes "/d") plain gone_view
    ∷ publishes (codes "1") library_torrent false
    ∷ pauses (codes "1")
    ∷ adds (codes "cd") (codes "2") (codes "/d") plain gone_view
    ∷ resumes (codes "1")
    ∷ removes (codes "2")
    ∷ promotes
    ∷ []

day-AllResumesStartable : AllResumesStartable day idle
unfolding AllResumesStartable handle find_or_track claim_info_hash scan_claim check_left take_claim
    untrack_all begun new_tracked active enqueue publish published amend pause pause_locked
    paused_tracked remove_first find resumed_tracked startable
day-AllResumesStartable = (tt, (tt, (tt, (tt, (refl, (tt, (tt, tt)))))))

idle-Fits : Fits idle
unfolding active
idle-Fits = omega arith

run_events-Fits_example : Fits (run_events day idle)
run_events-Fits_example = run_events-Fits day idle day-AllResumesStartable idle-Fits

idle-IsQueue : IsQueue idle
unfolding known
idle-IsQueue = (refl, tt)

promote_one-total_example : ¬ (promote_one (run_events day idle) ≡ inr none)
promote_one-total_example = promote_one-total day idle idle-IsQueue

-- Resumed into the queue while its info dictionary is still pending.
abbrev waiting : Tracked
waiting = record (begun (new_tracked (codes "1") (codes "/d") plain)) {
  info_hash = codes "ab";
  t = some library_torrent;
  state = queued;
}

abbrev waits : Engine
waits = record idle { torrents = waiting ∷ []; queue = codes "1" ∷ [] }

waits-found : find (codes "1") waits.torrents ≡ some waiting
unfolding find begun new_tracked
waits-found = refl

waits-live : waiting.paused ≡ false
unfolding begun new_tracked
waits-live = refl

waits-free : ltb (active waits.torrents) waits.max_active ≡ true
unfolding active begun new_tracked
waits-free = refl

promotes_refused_example :
    let e' =
      after_promotion
        (refuse (codes "1") metadata_timeout [] waits)
        (promote_one (refuse (codes "1") metadata_timeout [] waits)) in
    (r : Tracked) × (find (codes "1") e'.torrents ≡ some r)
    × (holds_slot r ≡ true)
    × (r.err ≡ some metadata_timeout)
    × (r.refused ≡ true)
promotes_refused_example =
    promotes_refused waits (codes "1") [] [] waiting library_torrent metadata_timeout refl refl
      waits-found refl waits-live refl waits-free

-- A .torrent that is still being fetched.
abbrev fetching : Tracked
fetching = begun (new_tracked (codes "1") (codes "/d") plain)

abbrev fetches : Engine
fetches = record idle { max_active = 3; torrents = fetching ∷ [] }

fetches-found : find (codes "1") fetches.torrents ≡ some fetching
unfolding find begun new_tracked
fetches-found = refl

fetches-live : fetching.refused ≡ false
unfolding begun new_tracked
fetches-live = refl

fetches-new : find (codes "2") fetches.torrents ≡ none
unfolding find begun new_tracked
fetches-new = refl

fetches-free : scan_claim (codes "ab") none fetches.torrents ≡ inr []
unfolding scan_claim begun new_tracked
fetches-free = refl

fetched_twice_example : TwoEntries (codes "ab") (codes "1") (codes "2") (
    publish
      (codes "1")
      library_torrent
      false
      (find_or_track
        (codes "ab")
        (codes "2")
        (codes "/d")
        plain
        gone_view
        (claim_fetched (codes "ab") (codes "1") gone_view fetches).0).0)
fetched_twice_example =
    fetched_twice fetches (codes "ab") (codes "1") (codes "2") (codes "/d") plain gone_view
      gone_view fetching library_torrent false refl refl refl fetches-found fetches-live fetches-new
      fetches-free

-- A platform on which one path is joined and contained.
abbrev posix : Platform
posix = record {
  lower = λ s. s;
  clean_join = λ dest parts. joined (codes "/") (dest ∷ parts);
  rel = λ root candidate. some (codes "film/a.txt");
  is_abs = λ s. false;
  separator = 47;
  too_long = λ s. false;
}

accepted :
    check_torrent_path posix (codes "/d") (codes "film") (codes "a.txt" ∷ [])
    ≡ inr (codes "/d/film/a.txt")
unfolding check_torrent_path check_components check_path_component stem trimmed_right contained_in
    has_prefix joined windows_reserved_names
accepted = refl

refused_dots :
    check_torrent_path posix (codes "/d") (codes "film") (codes ".." ∷ []) ≡ inl traverses
unfolding check_torrent_path check_components check_path_component stem trimmed_right
    windows_reserved_names
refused_dots = refl

check_torrent_path-below_example :
    (walked (codes "d" ∷ []) (codes "film" ∷ codes "a.txt" ∷ [])
      ≡ descended (codes "d" ∷ []) (codes "film" ∷ codes "a.txt" ∷ []))
    × All (λ c. is_single c ≡ true) (codes "film" ∷ codes "a.txt" ∷ [])
    × (contained_in posix (codes "/d") (codes "/d/film/a.txt") ≡ true)
    × (posix.too_long (codes "/d/film/a.txt") ≡ false)
check_torrent_path-below_example =
    check_torrent_path-below posix (codes "/d") (codes "film") (codes "/d/film/a.txt")
      (codes "a.txt" ∷ []) (codes "d" ∷ []) accepted

-- One filesystem of 100 bytes; one torrent that downloads 70 of its 80 bytes still, and one 40.
abbrev small_disk : Disk
small_disk = record { filesystem = λ d. codes "fs"; free = λ d. some 100 }

abbrev sized : ℕ → ℕ → Torrent
sized length completed = record library_torrent {
  has_info = true;
  length = length;
  completed = completed;
}

abbrev loading : String → ℕ → ℕ → Tracked
loading id length completed = record (begun (new_tracked (codes id) (codes "/d") plain)) {
  t = some (sized length completed);
  state = downloading;
}

abbrev loads : Engine
loads = record idle { torrents = loading "1" 80 10 ∷ loading "2" 40 0 ∷ [] }

abbrev load_writers : List Writer
load_writers =
    record { id = codes "1"; dest = codes "/d"; remaining = 70 }
    ∷ record { id = codes "2"; dest = codes "/d"; remaining = 40 }
    ∷ []

load_writers-download : All (λ w. downloads (find w.id loads.torrents) ≡ true) load_writers
unfolding find begun new_tracked is_writing
load_writers-download = (refl, (refl, tt))

load_writers-need : total_on small_disk (codes "fs") load_writers ≡ 110
unfolding total_on
load_writers-need = refl

recheck-Room_example :
    let left =
      writing_on small_disk (codes "fs") (recheck small_disk 5 load_writers loads) load_writers in
    (left + 5 ≤ 100) ⊎ (left ≡ 0)
recheck-Room_example =
    recheck-Room small_disk (codes "fs") 5 100 load_writers loads (λ d q. refl) (refl, (refl, tt))
      load_writers-download (rw load_writers-need (omega arith))

space_shortfall_overflow_example : space_shortfall 0 (2 ^ 62) (2 ^ 62) ≡ 0
space_shortfall_overflow_example =
    space_shortfall_overflow 0 (2 ^ 62) (2 ^ 62) (omega arith) (omega arith) (omega arith)
