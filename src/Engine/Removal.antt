-- ===== src/Engine/Removal.antt =====
-- internal/engine/anacrolix/samedir.go, and what Remove deletes (engine.go): which data is an
-- entry's own. A name is "" for none.
pub mod Names
pub mod Kept
pub mod Deleted
mod Examples
use tortui.Base.{
  Bool, Map, Option, Text, if◌then◌else◌, ℕ, ◌==◌, List, not, some, true, [], false, nat_eq, ◌||◌,
  ◌∷◌, ◌&&◌, is_some, none, text_eq, insert,
}
use tortui.Engine.Paths.{Platform, UnsafePath, check_path_component, contained_in}

-- dirMatch
pub data DirMatch : Type 0 where
  dir_different dir_same dir_unknown : DirMatch

-- os.Stat: the file's identity, that nothing is there, or another error.
pub data Stat : Type 0 where
  file : ℕ → Stat
  not_exist : Stat
  unreadable : Stat

-- What the disk says when it is read: resolveSymlinks, os.Stat, and cleanAbsPath.
pub record DiskView : Type 0 where
  pub resolved : Text → Option Text
  pub stat : Text → Stat
  pub clean_abs : Text → Option Text

abbrev pub same_resolved : Option Text → Option Text → Bool
same_resolved (some a) (some b) = a == b
same_resolved _ _ = false

-- The switch of sameDir.
abbrev pub stat_match : Stat → Stat → DirMatch
stat_match (file a) (file b) = if a == b then dir_same else dir_different
stat_match (file a) not_exist = dir_different
stat_match not_exist (file b) = dir_different
stat_match _ _ = dir_unknown

-- sameDir
unfoldable pub same_dir : DiskView → Text → Text → DirMatch
same_dir disk a b =
    if a == b || same_resolved (disk.resolved a) (disk.resolved b)
    then dir_same
    else stat_match (disk.stat a) (disk.stat b)

-- dirMatches
unfoldable pub dir_matches : DiskView → Text → List Text → Map Text DirMatch → Map Text DirMatch
unfolding same_dir
dir_matches disk dest [] out = out
dir_matches disk dest (p ∷ paths) out =
    dir_matches disk dest paths
      (if is_some (out p) then out else insert p (same_dir disk dest p) out)

abbrev pub is_different : DirMatch → Bool
is_different dir_different = true
is_different _ = false

-- mayBeSameDir
unfoldable pub may_be_same_dir : Text → Text → Map Text DirMatch → Bool
may_be_same_dir dest save_path dirs =
    save_path == dest || elim (dirs save_path) [ none ↦ true | some m ↦ not (is_different m) ]

-- mayBeSameName; `fold` is strings.EqualFold.
unfoldable pub may_be_same_name : (Text → Text → Bool) → Text → Text → Bool
may_be_same_name fold a b = not (a == []) && not (b == []) && (a == b || fold a b)

-- What a tracked entry says of its data: whether it is refused, with the names it left or shares;
-- the info dictionary's BestName of the torrent it is attached to, or of a queued spec; and whether
-- its state is errored.
pub record Entry : Type 0 where
  pub id : Text
  pub save_path : Text
  pub refused : Bool
  pub left_name : Text
  pub shared_name : Text
  pub torrent : Option (Option Text)
  pub spec : Option (Option Text)
  pub is_errored : Bool

-- dataNameLocked: `none` is not known yet.
unfoldable pub data_name : Entry → Option Text
data_name tr = if tr.refused then some tr.left_name else elim tr.torrent [
  | some info ↦ info
  | none ↦ elim tr.spec [ some info ↦ info | none ↦ if tr.is_errored then some [] else none ]
]

-- tr == self, or at a destination that is shown to be elsewhere
abbrev pub is_elsewhere : Entry → Map Text DirMatch → Entry → Bool
is_elsewhere self dirs tr =
    tr.id == self.id || not (may_be_same_dir self.save_path tr.save_path dirs)

-- dataNameUsedLocked: taken and pending.
unfoldable pub data_name_used :
    (Text → Text → Bool) → Entry → Text → Map Text DirMatch → List Entry → Bool → Bool × Bool
unfolding data_name may_be_same_dir may_be_same_name
data_name_used fold self name dirs [] pending = (false, pending)
data_name_used fold self name dirs (tr ∷ trs) pending =
    let skipped = data_name_used fold self name dirs trs pending in
    let waiting = data_name_used fold self name dirs trs true in
    if is_elsewhere self dirs tr then skipped else elim (data_name tr) [
      | none ↦ waiting
      | some n ↦ if may_be_same_name fold n name then (true, false) else skipped
    ]

-- sharedNameKeptLocked
unfoldable pub shared_name_kept :
    (Text → Text → Bool) → Entry → Text → Map Text DirMatch → List Entry → Bool
unfolding may_be_same_dir may_be_same_name
shared_name_kept fold self name dirs [] = false
shared_name_kept fold self name dirs (tr ∷ trs) =
    let rest = shared_name_kept fold self name dirs trs in
    if not (tr.id == self.id)
      && tr.refused
      && not (tr.shared_name == [])
      && may_be_same_dir self.save_path tr.save_path dirs
      && may_be_same_name fold tr.shared_name name
    then true
    else rest

-- keepLeftLocked: the left and the shared name.
unfoldable pub keep_left :
    (Text → Text → Bool) → Entry → Text → Map Text DirMatch → List Entry → Text × Text
unfolding data_name_used shared_name_kept
keep_left fold self [] dirs trs = ([], [])
keep_left fold self (c ∷ left) dirs trs =
    if (data_name_used fold self (c ∷ left) dirs trs false).0
      || shared_name_kept fold self (c ∷ left) dirs trs
    then ([], c ∷ left)
    else (c ∷ left, [])

-- What a Remove does with the data: `deletes` a name, or `keeps` one, maybe another entry's.
pub data Target : Type 0 where
  leaves_nothing : Target
  deletes : Text → Target
  keeps : Text → Bool → Target

-- The case of removeTargetLocked for an entry that is not refused.
abbrev pub live_target :
    (Text → Text → Bool) → Entry → Map Text DirMatch → List Entry → Option (Option Text) → Target
live_target fold tr dirs trs (some (some own)) =
    if (data_name_used fold tr own dirs trs false).0 then keeps own false else deletes own
live_target fold tr dirs trs _ = leaves_nothing

-- removeTargetLocked
unfoldable pub remove_target :
    (Text → Text → Bool) → Entry → Bool → Map Text DirMatch → List Entry → Target
unfolding data_name_used shared_name_kept
remove_target fold tr false dirs trs = leaves_nothing
remove_target fold tr true dirs trs =
    if not tr.refused
    then live_target fold tr dirs trs tr.torrent
    else if not (tr.left_name == [])
    then (let (taken, pending) = data_name_used fold tr tr.left_name dirs trs false in
        let pending' = pending || shared_name_kept fold tr tr.left_name dirs trs in
        if taken || pending' then keeps tr.left_name (not taken) else deletes tr.left_name)
    else if not (tr.shared_name == [])
    then keeps tr.shared_name (not (data_name_used fold tr tr.shared_name dirs trs false).0)
    else leaves_nothing

-- containedInRoot: `none` is an error.
unfoldable pub contained_in_root : Platform → DiskView → Text → Text → Option Bool
contained_in_root p disk root target = elim (disk.resolved root) [
  | none ↦ none
  | some resolved_root ↦ elim (disk.resolved target) [
    | none ↦ none
    | some resolved_target ↦
        some
          (not (resolved_target == resolved_root) && contained_in p resolved_root resolved_target)
  ]
]

abbrev pub or_false : Option Bool → Bool
or_false none = false
or_false (some b) = b

-- The loop of deleteTorrentData over the roots; a root that cannot be checked is passed over.
unfoldable pub inside_any : Platform → DiskView → Text → List Text → Bool
unfolding contained_in_root
inside_any p disk target [] = false
inside_any p disk target (root ∷ roots) =
    let rest = inside_any p disk target roots in
    elim (disk.clean_abs root) [
      | none ↦ rest
      | some clean_root ↦ or_false (contained_in_root p disk clean_root target) || rest
    ]

-- How deleteTorrentData ends: `removes_all` is the path that it gives to os.RemoveAll.
pub data Deletion : Type 0 where
  nothing_written outside_roots unresolved : Deletion
  unsafe_name : UnsafePath → Deletion
  removes_all : Text → Deletion

-- deleteTorrentData. It reads the disk twice: `checked` is what the loop over the roots sees, and
-- `later` what the second resolveSymlinks, behind it, sees.
unfoldable pub delete_torrent_data :
    Platform → DiskView → DiskView → Text → Text → List Text → Deletion
unfolding inside_any
delete_torrent_data p checked later save_path [] roots = nothing_written
delete_torrent_data p checked later save_path (c ∷ name) roots =
    let target = p.clean_join save_path ((c ∷ name) ∷ []) in
    if not (inside_any p checked target roots)
    then outside_roots
    else (elim (check_path_component p (c ∷ name)) [
      | some e ↦ unsafe_name e
      | none ↦ elim (later.resolved target) [ none ↦ unresolved | some path ↦ removes_all path ]
    ])
