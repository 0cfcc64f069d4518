-- ===== src/Engine/Removal/Examples.antt =====
-- internal/engine/anacrolix: two downloads at one destination and a small disk, for the tests.
use mathlib.Core.List.Perm
use tortui.Base.{
  List, Perm, String, Text, codes, Bool, false, joined, some, true, ◌∷◌, ◌==◌, [], empty_map,
  if◌then◌else◌, none, text_eq, ◌≡◌, refl, Any, trimmed_right, ◌↔◌, ◌&&◌,
}
use tortui.Engine.Removal.{
  DiskView, Entry, delete_torrent_data, may_be_same_dir, remove_target, Stat, data_name_used,
  dir_matches, inside_any, contained_in_root, data_name, same_dir, file, may_be_same_name, deletes,
  keeps, not_exist, shared_name_kept, removes_all,
}
use tortui.Engine.Paths.{
  Platform, contained_in, check_path_component, has_prefix, stem, windows_reserved_names,
}
use tortui.Engine.Removal.Kept.{own_name, may_claim, remove_target_iff}
use tortui.Engine.Removal.Deleted.{IsBelow, delete_torrent_data-later}
use tortui.Engine.Removal.Names.{any_of, takes}

abbrev same_text : Text → Text → Bool
same_text a b = a == b

abbrev live : String → String → Entry
live id name = record {
  id = codes id;
  save_path = codes "/d";
  refused = false;
  left_name = [];
  shared_name = [];
  torrent = some (some (codes name));
  spec = none;
  is_errored = false;
}

abbrev refused_entry : Entry
refused_entry = record (live "3" "c") { refused = true; left_name = codes "c"; torrent = none }

abbrev entries : List Entry
entries = live "1" "a" ∷ live "2" "b" ∷ refused_entry ∷ []

abbrev entries' : List Entry
entries' = live "2" "b" ∷ live "1" "a" ∷ refused_entry ∷ []

entries-Perm : Perm entries entries'
entries-Perm = Perm.swap (live "2" "b") (live "1" "a") (refused_entry ∷ [])

remove_target_iff_example :
    (remove_target same_text refused_entry true empty_map entries ≡ deletes (codes "c")) ↔ (
      (own_name refused_entry ≡ some (codes "c"))
      × (any_of (takes same_text refused_entry (codes "c") empty_map) entries ≡ false)
      × (refused_entry.refused
            && any_of (may_claim same_text refused_entry (codes "c") empty_map) entries
          ≡ false))
remove_target_iff_example = remove_target_iff same_text refused_entry empty_map entries (codes "c")

-- The data of the refused entry goes; that of a download whose name another has stays.
refused_entry-deletes :
    remove_target same_text refused_entry true empty_map entries ≡ deletes (codes "c")
unfolding remove_target data_name_used data_name may_be_same_dir may_be_same_name shared_name_kept
refused_entry-deletes = refl

shared-keeps :
    remove_target same_text (live "1" "b") true empty_map entries ≡ keeps (codes "b") false
unfolding remove_target data_name_used data_name may_be_same_dir may_be_same_name
shared-keeps = refl

abbrev stat_of : Text → Stat
stat_of p = if p == codes "/d" then file 1 else if p == codes "/e" then file 2 else not_exist

-- A disk without symlinks, and with two directories.
abbrev plain_disk : DiskView
plain_disk = record { resolved = λ p. some p; stat = stat_of; clean_abs = λ p. some p }

e-elsewhere :
    may_be_same_dir
      (codes "/d")
      (codes "/e")
      (dir_matches plain_disk (codes "/d") (codes "/e" ∷ []) empty_map)
    ≡ false
unfolding may_be_same_dir dir_matches same_dir
e-elsewhere = refl

-- Paths joined by "/", none of them over-long, and every path relative to every root.
abbrev joins : Platform
joins = record {
  lower = λ s. s;
  clean_join = λ dest names. joined (codes "/") (dest ∷ names);
  rel = λ root path. some (codes "c");
  is_abs = λ p. false;
  separator = 47;
  too_long = λ p. false;
}

c-removed :
    delete_torrent_data joins plain_disk plain_disk (codes "/d") (codes "c") (codes "/d" ∷ [])
    ≡ removes_all (codes "/d/c")
unfolding delete_torrent_data inside_any contained_in_root contained_in has_prefix
    check_path_component joined trimmed_right stem windows_reserved_names
c-removed = refl

-- The same disk, after a symlink to another directory has taken the place of the file.
abbrev swapped_disk : DiskView
swapped_disk = record plain_disk {
  resolved = λ p. if p == codes "/d/c" then some (codes "/etc") else some p;
}

delete_torrent_data-later_example :
    Any (IsBelow joins plain_disk (codes "/d/c")) (codes "/d" ∷ [])
    × (check_path_component joins (codes "c") ≡ none)
    × (plain_disk.resolved (joins.clean_join (codes "/d") (codes "c" ∷ [])) ≡ some (codes "/d/c"))
    × (delete_torrent_data joins plain_disk swapped_disk (codes "/d") (codes "c") (codes "/d" ∷ [])
        ≡ removes_all (codes "/etc"))
unfolding joined
delete_torrent_data-later_example =
    delete_torrent_data-later joins plain_disk plain_disk swapped_disk (codes "/d") (codes "c")
      (codes "/d/c") (codes "/d/c") (codes "/etc") (codes "/d" ∷ []) refl c-removed refl
