-- ===== src/Lifecycle/Session/Examples.antt =====
-- internal/lifecycle/session.go: a session of two records, for the tests.
use tortui.Base.{
  String, Text, Option, ◌∷◌, ◌≡◌, [], codes, if◌then◌else◌, ◌==◌, Bool, arith, contains, false,
  ◌&&◌, some, true, is_some, none, text_eq, ◌||◌, refl, sym, ap, ◌∙◌, text_eqb_iff, ℕ, stable_sort,
  text_lt, ◌++◌, ◌+◌, nat_eq, false≢true,
}
use tortui.Lifecycle.Session.Saved.{HasOwnIds, save-ids}
use tortui.Lifecycle.Session.Resume.{
  resume_session, resume_from, resume_one, is_older, Ids, Numbering, Restoring, retracks, tracks,
  joins, restore, mint_id, next_unused,
}
use tortui.Lifecycle.Session.Resume.Restored.{resume_session-ids}
use tortui.Lifecycle.Session.{
  Session, record_ids, ResumeData, TorrentRecord, save, zero_record, set_torrent, delete_torrent,
}

abbrev data_of : String → ResumeData
data_of id = record {
  id = codes id;
  name = codes "n";
  magnet = [];
  torrent_url = [];
  metainfo = [];
  save_path = codes "/d";
  paused = false;
  seed_done = false;
  uploaded = 0;
  completed_at = 0;
  indexer_id = [];
  source_url = [];
}

abbrev record_of : String → TorrentRecord
record_of id = record zero_record { id = codes id; added_at = 5 }

-- Torrent 1 has data, 2 has none, and any other is unknown.
abbrev engine_data : Text → Option ResumeData
engine_data id = if id == codes "1" then some (data_of "1") else none

abbrev two_records : Session
two_records = record {
  store = record { torrents = record_of "2" ∷ record_of "3" ∷ []; dirty = false; closed = false };
  resumed = true;
  closed = false;
}

engine_data-HasOwnIds : HasOwnIds engine_data
engine_data-HasOwnIds id d h = go (id == codes "1") refl h
  where
    go :
        (b : Bool)
        → (id == codes "1") ≡ b
        → (if b then some (data_of "1") else none) ≡ some d
        → d.id ≡ id
    go true q k =
        sym (ap (λ o. elim o [ none ↦ [] | some x ↦ x.id ]) k)
        ∙ sym ((text_eqb_iff id (codes "1")).0 q)
    go false q k = absurd (ground arith)

save-ids_example :
    let s = two_records in
    let saved =
      record_ids
        (save
          (λ x. x)
          9
          engine_data
          (codes "1" ∷ codes "2" ∷ [])
          (codes "2" ∷ [])
          s).store.torrents in
    contains saved (codes "2")
    ≡ contains (codes "1" ∷ codes "2" ∷ []) (codes "2") && is_some (engine_data (codes "2"))
      || contains (record_ids s.store.torrents) (codes "2")
        && contains (codes "1" ∷ codes "2" ∷ []) (codes "2")
        && contains (codes "2" ∷ []) (codes "2")
save-ids_example =
    save-ids (λ x. x) 9 engine_data (codes "1" ∷ codes "2" ∷ []) (codes "2" ∷ []) two_records
      (codes "2") refl refl refl refl engine_data-HasOwnIds

-- Numbers of one digit.
abbrev digits : Numbering
digits = record {
  format = λ n. codes "an-" ++ (48 + n) ∷ [];
  scan = λ id. if id == codes "an-1" then some 1 else if id == codes "an-2" then some 2 else none;
}

-- The first torrent is tracked, when an attach fails too, and the second is the first once more.
abbrev one_twice : ℕ → Restoring
one_twice i = record { gone = []; attempt = if i == 0 then retracks else joins 0 }

abbrev nothing_tracked : Ids
nothing_tracked = record { tracked = []; next_id = 0 }

drops_one :
    ((resume_session digits one_twice nothing_tracked two_records).1.restored ≡ codes "2" ∷ [])
    × (record_ids (resume_session digits one_twice nothing_tracked two_records).0.store.torrents
        ≡ codes "2" ∷ [])
unfolding resume_session resume_from resume_one restore mint_id set_torrent delete_torrent
    stable_sort is_older text_lt
drops_one = (refl, refl)

resume_session-ids_example :
    contains
      (record_ids (resume_session digits one_twice nothing_tracked two_records).0.store.torrents)
      (codes "2")
    ≡ contains (resume_session digits one_twice nothing_tracked two_records).1.restored (codes "2")
unfolding resume_session resume_from resume_one restore mint_id set_torrent delete_torrent
    stable_sort is_older text_lt
resume_session-ids_example =
    resume_session-ids digits one_twice nothing_tracked two_records (codes "2") refl
      (refl, (refl, tt)) refl (λ t h. absurd (false≢true h)) refl

-- Into an engine that tracks a torrent under the first record's ID: the first is restored under the
-- second's ID, which the second, whose ID is taken then, deletes.
abbrev numbered : Session
numbered = record two_records {
  store = record two_records.store { torrents = record_of "an-1" ∷ record_of "an-2" ∷ [] };
}

abbrev all_new : ℕ → Restoring
all_new i = record { gone = []; attempt = tracks }

tracked_id_loses :
    let (s, z, ok) =
      resume_session digits all_new
        (record { tracked = codes "an-1" ∷ []; next_id = 1 })
        numbered in
    (z.restored ≡ codes "an-2" ∷ codes "an-3" ∷ [])
    × (record_ids s.store.torrents ≡ codes "an-3" ∷ [])
unfolding resume_session resume_from resume_one restore mint_id next_unused set_torrent
    delete_torrent stable_sort is_older text_lt
tracked_id_loses = (refl, refl)
