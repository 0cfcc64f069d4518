-- ===== src/Engine/Removal/Kept.antt =====
-- internal/engine/anacrolix/engine.go, samedir.go: which data a Remove deletes, and which it keeps.
use tortui.Base.{
  Text, Bool, Option, List, Map, if◌then◌else◌, ◌==◌, empty_map, Perm, [], true, ◌≡◌, false,
  is_some, none, ◌||◌, contains, refl, some, ◌↔◌, text_eq, ◌∷◌, ◌&&◌, Bool-cases, arith, inr,
  insert, inl, not, sym, ◌∙◌, subst, text_eqb_iff, ap,
}
use tortui.Engine.Removal.{
  Entry, dir_matches, may_be_same_dir, remove_target, DiskView, same_dir, DirMatch, data_name_used,
  deletes, live_target, shared_name_kept, same_resolved, stat_match, dir_different, Target, keeps,
}
use tortui.Engine.Removal.Names.{
  waits, shares, any_of, takes, data_name_used_lem, shared_name_kept_lem, any_of-Perm,
}

data_name_used-Perm :
    (fold : Text → Text → Bool) (self : Entry) (name : Text) (dirs : Map Text DirMatch)
    (xs ys : List Entry)
    → Perm xs ys
    → data_name_used fold self name dirs xs false ≡ data_name_used fold self name dirs ys false
data_name_used-Perm fold self name dirs xs ys p =
    rw
      (
        data_name_used_lem fold self name dirs xs false,
        data_name_used_lem fold self name dirs ys false,
        any_of-Perm (takes fold self name dirs) xs ys p,
        any_of-Perm (waits self dirs) xs ys p,
      )
      refl

shared_name_kept-Perm :
    (fold : Text → Text → Bool) (self : Entry) (name : Text) (dirs : Map Text DirMatch)
    (xs ys : List Entry)
    → Perm xs ys
    → shared_name_kept fold self name dirs xs ≡ shared_name_kept fold self name dirs ys
shared_name_kept-Perm fold self name dirs xs ys p =
    rw (shared_name_kept_lem fold self name dirs xs, shared_name_kept_lem fold self name dirs ys)
      (any_of-Perm (shares fold self name dirs) xs ys p)

live_target-Perm :
    (fold : Text → Text → Bool) (self : Entry) (dirs : Map Text DirMatch) (xs ys : List Entry)
    (torrent : Option (Option Text))
    → Perm xs ys
    → live_target fold self dirs xs torrent ≡ live_target fold self dirs ys torrent
live_target-Perm fold self dirs xs ys none p = refl
live_target-Perm fold self dirs xs ys (some none) p = refl
live_target-Perm fold self dirs xs ys (some (some own)) p =
    rw (data_name_used-Perm fold self own dirs xs ys p) refl

-- What a Remove does with the data does not depend on the order in which Go walks the map of
-- tracked entries.
pub remove_target-Perm :
    (fold : Text → Text → Bool) (self : Entry) (delete_data : Bool) (dirs : Map Text DirMatch)
    (xs ys : List Entry)
    → Perm xs ys
    → remove_target fold self delete_data dirs xs ≡ remove_target fold self delete_data dirs ys
unfolding remove_target
remove_target-Perm fold self false dirs xs ys p = refl
remove_target-Perm fold self true dirs xs ys p =
    rw
      (
        live_target-Perm fold self dirs xs ys self.torrent p,
        data_name_used-Perm fold self self.left_name dirs xs ys p,
        shared_name_kept-Perm fold self self.left_name dirs xs ys p,
        data_name_used-Perm fold self self.shared_name dirs xs ys p,
      )
      refl

-- The data that is an entry's own: its torrent's, once the name is known, or what it left when it
-- was refused.
abbrev pub own_name : Entry → Option Text
own_name tr =
    if tr.refused
    then (if tr.left_name == [] then none else some tr.left_name)
    else elim tr.torrent [ none ↦ none | some info ↦ info ]

-- Another entry that may come to use the data under a name, or may own it.
abbrev pub may_claim : (Text → Text → Bool) → Entry → Text → Map Text DirMatch → Entry → Bool
may_claim fold self name dirs tr = waits self dirs tr || shares fold self name dirs tr

any_of-or :
    (p q : Entry → Bool) (xs : List Entry)
    → any_of (λ x. p x || q x) xs ≡ any_of p xs || any_of q xs
any_of-or p q [] = refl
any_of-or p q (x ∷ xs) = ground (arith, any_of-or p q xs)

live_target_iff :
    (fold : Text → Text → Bool) (self : Entry) (dirs : Map Text DirMatch) (trs : List Entry)
    (name : Text) (torrent : Option (Option Text))
    → (live_target fold self dirs trs torrent ≡ deletes name) ↔ (
        (elim torrent [ none ↦ none | some info ↦ info ] ≡ some name)
        × (any_of (takes fold self name dirs) trs ≡ false))
live_target_iff fold self dirs trs name none = ground arith
live_target_iff fold self dirs trs name (some none) = ground arith
live_target_iff fold self dirs trs name (some (some own)) =
    rw (data_name_used_lem fold self own dirs trs false) ground arith

-- The target of a refused entry that left data.
abbrev left_target : (Text → Text → Bool) → Entry → Map Text DirMatch → List Entry → Text → Target
left_target fold self dirs trs left =
    let (taken, pending) = data_name_used fold self left dirs trs false in
    let pending' = pending || shared_name_kept fold self left dirs trs in
    if taken || pending' then keeps left (not taken) else deletes left

left_target_iff :
    (fold : Text → Text → Bool) (self : Entry) (dirs : Map Text DirMatch) (trs : List Entry)
    (name left : Text)
    → (left_target fold self dirs trs left ≡ deletes name) ↔ (
        (some left ≡ some name)
        × (any_of (takes fold self name dirs) trs ≡ false)
        × (any_of (may_claim fold self name dirs) trs ≡ false))
left_target_iff fold self dirs trs name left =
    rw
      (
        data_name_used_lem fold self left dirs trs false,
        shared_name_kept_lem fold self left dirs trs,
        any_of-or (waits self dirs) (shares fold self name dirs) trs,
      )
      (ground arith)

-- A Remove deletes exactly the data that is the entry's own and that no other tracked entry at a
-- destination that may be the same has under a name that may be the same; a refused entry's data
-- only if no such entry has yet to name its data either, or keeps that data as shared.
pub remove_target_iff :
    (fold : Text → Text → Bool) (self : Entry) (dirs : Map Text DirMatch) (trs : List Entry)
    (name : Text)
    → (remove_target fold self true dirs trs ≡ deletes name) ↔ (
        (own_name self ≡ some name)
        × (any_of (takes fold self name dirs) trs ≡ false)
        × (self.refused && any_of (may_claim fold self name dirs) trs ≡ false))
unfolding remove_target
remove_target_iff fold self dirs trs name = elim (Bool-cases self.refused) [
  | inr q ↦ simp q (
      let (f, g) = live_target_iff fold self dirs trs name self.torrent in
      (λ h. let (own, free) = f h in (own, free, refl), λ h. g (h.0, h.1)))
  | inl q ↦ elim (Bool-cases (self.left_name == [])) [
    | inl l ↦ simp (q, l) (ground arith)
    | inr l ↦ simp (q, l) (left_target_iff fold self dirs trs name self.left_name)
  ]
]

dir_matches_lem :
    (disk : DiskView) (dest : Text) (paths : List Text) (out : Map Text DirMatch) (p : Text)
    → dir_matches disk dest paths out p ≡ (
        if is_some (out p)
        then out p
        else if contains paths p
        then some (same_dir disk dest p)
        else none)
unfolding dir_matches
dir_matches_lem disk dest [] out p = ground arith
dir_matches_lem disk dest (x ∷ paths) out p =
    rw
      (dir_matches_lem disk dest paths
        (if is_some (out x) then out else insert x (same_dir disk dest x) out) p)
      (elim (Bool-cases (is_some (out x))) [
        | inl q ↦ rw q (elim (Bool-cases (x == p)) [
          | inl e ↦
              let s = subst (λ y. is_some (out y) ≡ true) ((text_eqb_iff x p).0 e) q in rw s refl
          | inr e ↦ rw e refl
        ])
        | inr q ↦ elim (Bool-cases (x == p)) [
          | inl e ↦
              rw (q, e)
                (let j : x ≡ p = (text_eqb_iff x p).0 e in
                  let s = subst (λ y. is_some (out y) ≡ false) j q in
                  rw s (ap (λ y. some (same_dir disk dest y)) j))
          | inr e ↦ rw (q, e) refl
        ]
      ])

shown_elsewhere :
    (dest p : Text) (dirs : Map Text DirMatch)
    → may_be_same_dir dest p dirs ≡ false
    → dirs p ≡ some dir_different
unfolding may_be_same_dir
shown_elsewhere dest p dirs h = ground arith

same_dir-different :
    (disk : DiskView) (a b : Text)
    → same_dir disk a b ≡ dir_different
    → (same_resolved (disk.resolved a) (disk.resolved b) ≡ false)
      × (stat_match (disk.stat a) (disk.stat b) ≡ dir_different)
unfolding same_dir
same_dir-different disk a b h = ground arith

-- The guard shows a destination to be elsewhere only if it was there when the destinations were
-- listed, and the disk said then that it is another directory: neither the same path once symlinks
-- are resolved, nor the same file.
pub may_be_same_dir_sound :
    (disk : DiskView) (dest : Text) (paths : List Text) (p : Text)
    → may_be_same_dir dest p (dir_matches disk dest paths empty_map) ≡ false
    → (contains paths p ≡ true)
      × (same_resolved (disk.resolved dest) (disk.resolved p) ≡ false)
      × (stat_match (disk.stat dest) (disk.stat p) ≡ dir_different)
may_be_same_dir_sound disk dest paths p h =
    let at = sym (dir_matches_lem disk dest paths empty_map p) ∙ shown_elsewhere dest p _ h in
    elim (Bool-cases (contains paths p)) [
      | inl c ↦ (let (r, d) = same_dir-different disk dest p (ground arith) in (c, r, d))
      | inr c ↦ absurd (ground arith)
    ]
