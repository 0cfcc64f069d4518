-- ===== src/Storage.antt =====
-- internal/store: the store in memory, its file, and the flushes between them. Times are nanoseconds
-- since Go's zero time. The map of the torrents is a list of records with different ids; JSON and
-- bbolt's pages are left out, so a bucket is its keys and values, and a transaction takes place whole
-- or, where the disk refuses it, not at all.
pub mod Valid
pub mod Reopened
pub mod Flushes
mod Schema
mod Examples
use tortui.Lifecycle.Session.{TorrentRecord, put, record_ids}
use tortui.Base.{
  List, Option, Text, [], ℕ, Bool, false, if◌then◌else◌, some, suc, true, ◌∷◌, ◌+◌, ◌==◌, ltb, none,
  not, space_trimmed, zero, ◌%◌, contains, length, nat_eq, text_eq, without, ◌-◌, ◌^◌, keep, ◌++◌,
}

pub record HistoryEntry : Type 0 where
  pub text : Text
  pub queried_at : ℕ

pub record HistoryRecord : Type 0 where
  pub seq : ℕ
  pub entry : HistoryEntry

pub record Prefs : Type 0 where
  pub sort_column : Text
  pub last_screen : Text
  pub selected_sources : List Text

-- What is flushed.
pub record Contents : Type 0 where
  pub torrents : List TorrentRecord
  pub history : List HistoryRecord
  pub prefs : Prefs
  pub destinations : List Text

pub data Error : Type 0 where
  empty_id closed_store empty_destination not_open write_failed close_failed : Error

-- The fields of the store that the lock guards.
pub record Store : Type 0 where
  pub contents : Contents
  pub history_seq : ℕ
  pub dirty : Bool
  pub closed : Bool
  pub close_flush_err : Option Error

abbrev pub max_history_entries : ℕ
max_history_entries = 50

unfoldable pub drop {ℓ} : {A : Type ℓ} → ℕ → List A → List A
drop zero xs = xs
drop (suc n) [] = []
drop (suc n) (x ∷ xs) = drop n xs

abbrev changed : Store → Contents → Store × Option Error
changed s c = (record s { contents = c; dirty = true }, none)

unfoldable pub set_torrent : TorrentRecord → Store → Store × Option Error
set_torrent rec s =
    if rec.id == []
    then (s, some empty_id)
    else if s.closed
    then (s, some closed_store)
    else changed s (record s.contents { torrents = put rec s.contents.torrents })

unfoldable pub delete_torrent : Text → Store → Store × Option Error
delete_torrent id s =
    if s.closed
    then (s, some closed_store)
    else if not (contains (record_ids s.contents.torrents) id)
    then (s, none)
    else changed s
        (record s.contents { torrents = keep (λ r. not (r.id == id)) s.contents.torrents })

-- The last `max_history_entries` of the queries.
unfoldable pub capped : List HistoryRecord → List HistoryRecord
unfolding drop
capped history =
    if ltb max_history_entries (length history)
    then drop (length history - max_history_entries) history
    else history

-- The increment of a uint64.
abbrev pub next_seq : Store → ℕ
next_seq s = (s.history_seq + 1) % 2 ^ 64

abbrev pub queried : Store → Text → ℕ → HistoryRecord
queried s text now = record { seq = next_seq s; entry = record { text = text; queried_at = now } }

unfoldable pub add_history : Text → ℕ → Store → Store × Option Error
unfolding capped
add_history text now s =
    if s.closed
    then (s, some closed_store)
    else changed (record s { history_seq = next_seq s })
        (record s.contents { history = capped (s.contents.history ++ queried s text now ∷ []) })

unfoldable pub set_prefs : Prefs → Store → Store × Option Error
set_prefs p s =
    if s.closed then (s, some closed_store) else changed s (record s.contents { prefs = p })

unfoldable pub touch_destination : Text → Store → Store × Option Error
touch_destination path s =
    if space_trimmed path == []
    then (s, some empty_destination)
    else if s.closed
    then (s, some closed_store)
    else changed s
        (record s.contents { destinations = path ∷ without path s.contents.destinations })

-- ClearHistory up to its flush.
unfoldable pub clear_history : Store → Store × Option Error
clear_history s =
    if s.closed then (s, some closed_store) else changed s (record s.contents { history = [] })

-- A call that changes the store.
pub data Change : Type 0 where
  sets : TorrentRecord → Change
  deletes : Text → Change
  adds : Text → ℕ → Change
  prefers : Prefs → Change
  touches : Text → Change
  clears : Change

unfoldable pub change : Change → Store → Store × Option Error
unfolding set_torrent delete_torrent add_history set_prefs touch_destination clear_history
change (sets rec) s = set_torrent rec s
change (deletes id) s = delete_torrent id s
change (adds text now) s = add_history text now s
change (prefers p) s = set_prefs p s
change (touches path) s = touch_destination path s
change clears s = clear_history s

-- The buckets of the file. bbolt ranges over a bucket in the order of its keys, and the big-endian
-- keys of the history are in the order of their numbers.
pub record File : Type 0 where
  pub torrents : List TorrentRecord
  pub history : List HistoryRecord
  pub prefs : Option Prefs
  pub destinations : Option (List Text)

-- Bucket.Put at the key `seq`.
unfoldable pub put_history : HistoryRecord → List HistoryRecord → List HistoryRecord
put_history rec [] = rec ∷ []
put_history rec (r ∷ rs) =
    let rest = put_history rec rs in
    if ltb rec.seq r.seq then rec ∷ r ∷ rs else if rec.seq == r.seq then rec ∷ rs else r ∷ rest

unfoldable pub write_torrents : List TorrentRecord → List TorrentRecord → List TorrentRecord
write_torrents [] bucket = bucket
write_torrents (rec ∷ snapshot) bucket = write_torrents snapshot (put rec bucket)

unfoldable pub write_history : List HistoryRecord → List HistoryRecord → List HistoryRecord
unfolding put_history
write_history [] bucket = bucket
write_history (rec ∷ snapshot) bucket = write_history snapshot (put_history rec bucket)

-- The transaction of flush: both buckets are reset, the two keys of the prefs are put.
unfoldable pub written : Contents → File
unfolding write_torrents write_history
written c = record {
  torrents = write_torrents c.torrents [];
  history = write_history c.history [];
  prefs = some c.prefs;
  destinations = some c.destinations;
}

abbrev no_prefs : Prefs
no_prefs = record { sort_column = []; last_screen = []; selected_sources = [] }

-- The greatest sequence number of the history.
abbrev pub last_seq : ℕ → List HistoryRecord → ℕ
last_seq n [] = n
last_seq n (r ∷ rs) = last_seq (if ltb n r.seq then r.seq else n) rs

abbrev pub or_else {ℓ} : {A : Type ℓ} → A → Option A → A
or_else a none = a
or_else a (some b) = b

-- load, into the store that Open makes.
unfoldable pub load : File → Store
unfolding write_torrents
load file = record {
  contents = record {
    torrents = write_torrents file.torrents [];
    history = file.history;
    prefs = or_else no_prefs file.prefs;
    destinations = or_else [] file.destinations;
  };
  history_seq = last_seq 0 file.history;
  dirty = false;
  closed = false;
  close_flush_err = none;
}
