-- ===== src/Engine/Removal/Deleted.antt =====
-- internal/engine/anacrolix/engine.go: the path that a Remove deletes.
use tortui.Base.{
  Text, List, ◌≡◌, some, ◌==◌, true, ◌∷◌, Any, [], false, arith, none, text_eq, Bool-cases,
  Option-cases, inl, inr, ◌∙◌, ap, ◌≢◌, refl,
}
use tortui.Engine.Paths.{Platform, check_path_component, contained_in}
use tortui.Engine.Removal.{
  delete_torrent_data, inside_any, DiskView, contained_in_root, removes_all, or_false,
}

-- A known root, absolute and resolved, that a path is in, and which it is not.
abbrev pub IsBelow : Platform → DiskView → Text → Text → Type 0
IsBelow p disk path root =
    (clean_root resolved_root : Text) × (disk.clean_abs root ≡ some clean_root)
    × (disk.resolved clean_root ≡ some resolved_root)
    × (path == resolved_root ≡ false)
    × (contained_in p resolved_root path ≡ true)

contained_in_root-IsBelow :
    (p : Platform) (disk : DiskView) (path root clean_root target : Text)
    → disk.clean_abs root ≡ some clean_root
    → disk.resolved target ≡ some path
    → or_false (contained_in_root p disk clean_root target) ≡ true
    → IsBelow p disk path root
unfolding contained_in_root
contained_in_root-IsBelow p disk path root clean_root target q at h =
    elim (Option-cases (disk.resolved clean_root)) [
      | inl none_there ↦ absurd (ground arith)
      | inr (resolved_root, r) ↦ (clean_root, resolved_root, q, r, ground arith, ground arith)
    ]

inside_any-IsBelow :
    (p : Platform) (disk : DiskView) (target path : Text) (roots : List Text)
    → disk.resolved target ≡ some path
    → inside_any p disk target roots ≡ true
    → Any (IsBelow p disk path) roots
unfolding inside_any contained_in_root
inside_any-IsBelow p disk target path [] at h = absurd (ground arith)
inside_any-IsBelow p disk target path (root ∷ roots) at h =
    elim (Option-cases (disk.clean_abs root)) [
      | inl q ↦ inr (inside_any-IsBelow p disk target path roots at (ground arith))
      | inr (clean_root, q) ↦
          elim (Bool-cases (or_false (contained_in_root p disk clean_root target))) [
            | inl inside ↦
                inl (contained_in_root-IsBelow p disk path root clean_root target q at inside)
            | inr outside ↦ inr (inside_any-IsBelow p disk target path roots at (ground arith))
          ]
    ]

-- What is deleted is one safe name, passed as inside the roots, where the second reading finds it.
delete_torrent_data-passed :
    (p : Platform) (checked later : DiskView) (save_path name path : Text) (roots : List Text)
    → delete_torrent_data p checked later save_path name roots ≡ removes_all path
    → let target = p.clean_join save_path (name ∷ []) in
      (later.resolved target ≡ some path)
      × (check_path_component p name ≡ none)
      × (inside_any p checked target roots ≡ true)
      × (name ≢ [])
unfolding delete_torrent_data
delete_torrent_data-passed p checked later save_path [] path roots h = absurd (ground arith)
delete_torrent_data-passed p checked later save_path (c ∷ name) path roots h =
    let target = p.clean_join save_path ((c ∷ name) ∷ []) in
    elim (Bool-cases (inside_any p checked target roots)) [
      | inr outside ↦ absurd (ground arith)
      | inl inside ↦ elim (Option-cases (check_path_component p (c ∷ name))) [
        | inr (e, unsafe) ↦ absurd (ground arith)
        | inl safe ↦ elim (Option-cases (later.resolved target)) [
          | inl lost ↦ absurd (ground arith)
          | inr (path', at) ↦
              let same : path' ≡ path = ground arith in
              (at ∙ ap (λ x. some x) same, safe, inside, λ e. ground (arith, e))
        ]
      ]
    ]

delete_torrent_data-removes_all :
    (p : Platform) (checked later : DiskView) (save_path name path : Text) (roots : List Text)
    → inside_any p checked (p.clean_join save_path (name ∷ [])) roots ≡ true
    → check_path_component p name ≡ none
    → name ≢ []
    → later.resolved (p.clean_join save_path (name ∷ [])) ≡ some path
    → delete_torrent_data p checked later save_path name roots ≡ removes_all path
unfolding delete_torrent_data
delete_torrent_data-removes_all p checked later save_path [] path roots inside safe named at =
    absurd (named refl)
delete_torrent_data-removes_all p checked later save_path (c ∷ name) path roots inside safe named
      at =
    rw (delete_torrent_data, inside, safe, at) refl

-- What passes the check is, where the check resolves it, strictly below one of the roots known now.
-- What is deleted is what the same name under the destination, a single safe component, resolves to
-- in a second reading, and that is not checked: had a symlink changed in between, so that the
-- destination resolves to any other path, that path would be deleted, inside of a root or not.
pub delete_torrent_data-later :
    (p : Platform) (checked later changed : DiskView) (save_path name seen path path' : Text)
    (roots : List Text)
    → checked.resolved (p.clean_join save_path (name ∷ [])) ≡ some seen
    → delete_torrent_data p checked later save_path name roots ≡ removes_all path
    → changed.resolved (p.clean_join save_path (name ∷ [])) ≡ some path'
    → Any (IsBelow p checked seen) roots
      × (check_path_component p name ≡ none)
      × (later.resolved (p.clean_join save_path (name ∷ [])) ≡ some path)
      × (delete_torrent_data p checked changed save_path name roots ≡ removes_all path')
delete_torrent_data-later p checked later changed save_path name seen path path' roots at h moved =
    let (there, safe, inside, named) =
      delete_torrent_data-passed p checked later save_path name path roots h in
    (
      inside_any-IsBelow p checked (p.clean_join save_path (name ∷ [])) seen roots at inside,
      safe,
      there,
      delete_torrent_data-removes_all p checked changed save_path name path' roots inside safe named
          moved,
    )
