-- ===== src/Lifecycle/Session.antt =====
-- internal/lifecycle/session.go and internal/store/torrents.go: saving what the engine tracks. Times
-- are nanoseconds since Go's zero time, so the zero time is 0; the map of the store's records is a
-- list of records with different ids. The engine is a Resumer.
pub mod Saved
pub mod Merged
pub mod Closed
pub mod Resume
mod Examples
use tortui.Base.{
  Bool, List, Option, Text, [], space_trimmed, ◌==◌, false, if◌then◌else◌, map, none, ℕ, ◌∷◌, ◌++◌,
  contains, not, some, text_eq, ◌||◌, ◌&&◌, keep, true, nat_eq, is_some,
}

-- engine.ResumeData
pub record ResumeData : Type 0 where
  pub id : Text
  pub name : Text
  pub magnet : Text
  pub torrent_url : Text
  pub metainfo : Text
  pub save_path : Text
  pub paused : Bool
  pub seed_done : Bool
  pub uploaded : ℕ
  pub completed_at : ℕ
  pub indexer_id : Text
  pub source_url : Text

-- store.TorrentRecord
pub record TorrentRecord : Type 0 where
  pub id : Text
  pub name : Text
  pub magnet : Text
  pub torrent_url : Text
  pub metainfo : Text
  pub save_path : Text
  pub added_at : ℕ
  pub paused : Bool
  pub seed_done : Bool
  pub uploaded : ℕ
  pub completed_at : ℕ
  pub indexer_id : Text
  pub source_url : Text

pub record Store : Type 0 where
  pub torrents : List TorrentRecord
  pub dirty : Bool
  pub closed : Bool

abbrev pub record_ids : List TorrentRecord → List Text
record_ids = map (λ (r : TorrentRecord). r.id)

abbrev pub put : TorrentRecord → List TorrentRecord → List TorrentRecord
put rec [] = rec ∷ []
put rec (r ∷ rs) = if r.id == rec.id then rec ∷ rs else r ∷ put rec rs

pub data StoreError : Type 0 where
  empty_id closed_store : StoreError

-- Store.SetTorrent
unfoldable pub set_torrent : TorrentRecord → Store → Store × Option StoreError
set_torrent rec s =
    if rec.id == []
    then (s, some empty_id)
    else if s.closed
    then (s, some closed_store)
    else (record s { torrents = put rec s.torrents; dirty = true }, none)

-- Store.DeleteTorrent
unfoldable pub delete_torrent : Text → Store → Store × Option StoreError
delete_torrent id s =
    if s.closed
    then (s, some closed_store)
    else if not (contains (record_ids s.torrents) id)
    then (s, none)
    else (record s { torrents = keep (λ r. not (r.id == id)) s.torrents; dirty = true }, none)

-- Store.GetTorrent
abbrev pub lookup : Text → List TorrentRecord → Option TorrentRecord
lookup id [] = none
lookup id (r ∷ rs) = if r.id == id then some r else lookup id rs

-- The zero TorrentRecord.
abbrev pub zero_record : TorrentRecord
zero_record = record {
  id = [];
  name = [];
  magnet = [];
  torrent_url = [];
  metainfo = [];
  save_path = [];
  added_at = 0;
  paused = false;
  seed_done = false;
  uploaded = 0;
  completed_at = 0;
  indexer_id = [];
  source_url = [];
}

abbrev pub is_empty_text : Text → Bool
is_empty_text s = s == []

-- mergeRecord; `safe_name` is engine.SafeName.
unfoldable pub merge_record : (Text → Text) → TorrentRecord → ResumeData → ℕ → TorrentRecord
unfolding space_trimmed
merge_record safe_name rec d now =
    let has_origin = not (is_empty_text d.indexer_id && is_empty_text d.source_url) in
    let recorded_title =
      not (is_empty_text (space_trimmed rec.name)) && safe_name rec.name == rec.name in
    let has_metainfo = not (is_empty_text d.metainfo) in
    record {
      id = d.id;
      name = if not recorded_title || has_metainfo then safe_name d.name else rec.name;
      magnet = d.magnet;
      torrent_url = d.torrent_url;
      metainfo = if has_metainfo then d.metainfo else rec.metainfo;
      save_path = d.save_path;
      added_at = if rec.added_at == 0 then now else rec.added_at;
      paused = d.paused;
      seed_done = d.seed_done;
      uploaded = d.uploaded;
      completed_at = d.completed_at;
      indexer_id = if has_origin then d.indexer_id else rec.indexer_id;
      source_url = if has_origin then d.source_url else rec.source_url;
    }

abbrev pub found_or_zero : Text → Store → TorrentRecord
found_or_zero id s = elim (lookup id s.torrents) [ none ↦ zero_record | some r ↦ r ]

-- The first loop of saveLocked, over engine.List; `data` is Resumer.ResumeData, `none` an error. The
-- result is the store, the tracked ids, and the failed ids.
unfoldable pub save_each :
    (Text → Text)
    → ℕ
    → (Text → Option ResumeData)
    → List Text
    → Store
    → Store × List Text × List Text
unfolding set_torrent merge_record
save_each safe_name now resume_data [] s = (s, [], [])
save_each safe_name now resume_data (id ∷ ids) s = elim (resume_data id) [
  | none ↦
      let (s', tracked, failed) = save_each safe_name now resume_data ids s in
      (s', tracked, id ∷ failed)
  | some d ↦
      let rec = merge_record safe_name (found_or_zero id s) d now in
      let (s', tracked, failed) = save_each safe_name now resume_data ids (set_torrent rec s).0 in
      (s', id ∷ tracked, failed)
]

-- The last loop of saveLocked.
unfoldable pub prune : List Text → List TorrentRecord → Store → Store
unfolding delete_torrent
prune tracked [] s = s
prune tracked (r ∷ rs) s =
    prune tracked rs (if contains tracked r.id then s else (delete_torrent r.id s).0)

-- saveLocked, after Resume: `ids` is what engine.List gives at the start, and `later` what it gives
-- after the first loop. The errors are left out.
unfoldable pub save_tracked :
    (Text → Text) → ℕ → (Text → Option ResumeData) → List Text → List Text → Store → Store
unfolding save_each prune
save_tracked safe_name now resume_data ids later s =
    let (s', tracked, failed) = save_each safe_name now resume_data ids s in
    prune (tracked ++ keep (contains failed) later) s'.torrents s'

pub record Session : Type 0 where
  pub store : Store
  pub resumed : Bool
  pub closed : Bool

-- Save
unfoldable pub save :
    (Text → Text) → ℕ → (Text → Option ResumeData) → List Text → List Text → Session → Session
unfolding save_tracked
save safe_name now resume_data ids later s =
    if s.closed || not s.resumed
    then s
    else record s { store = save_tracked safe_name now resume_data ids later s.store }

-- Session.SetTorrent; `true` is a nil error.
unfoldable pub set_session_torrent : TorrentRecord → Session → Session × Bool
unfolding set_torrent
set_session_torrent rec s =
    if s.closed
    then (s, false)
    else (let (store, err) = set_torrent rec s.store in
        (record s { store = store }, not (is_some err)))

-- seal
unfoldable pub seal_now : Session → Session
seal_now s = record s { closed = true }

-- Close
unfoldable pub close_session :
    (Text → Text) → ℕ → (Text → Option ResumeData) → List Text → List Text → Session → Session
unfolding save
close_session safe_name now resume_data ids later s =
    if s.closed then s else record (save safe_name now resume_data ids later s) { closed = true }
