-- ===== src/Engine/Paths/Below.antt =====
-- internal/engine/paths.go: where an accepted path leads.
use tortui.Engine.Paths.{
  Platform, check_components, check_path_component, check_torrent_path, contained_in,
}
use tortui.Base.{
  List, Text, Bool, ◌≡◌, ◌∷◌, [], if◌then◌else◌, inr, none, not, ◌==◌, All, contains, true, ◌&&◌,
  Option-cases, false, ◌||◌, codes, inl, leb, length, refl, text_eq, nat_eq, arith,
}

-- A path's components one after another, from a directory that is given innermost first: an empty
-- one and "." stay, ".." goes up.
abbrev pub walked : List Text → List Text → List Text
walked dir [] = dir
walked dir (c ∷ cs) =
    walked
      (if c == [] || c == codes "." then dir else if c == codes ".." then parent dir else c ∷ dir)
      cs
  where
    parent : List Text → List Text
    parent [] = []
    parent (d ∷ ds) = ds

-- The directory below which each component is one level.
abbrev pub descended : List Text → List Text → List Text
descended dir [] = dir
descended dir (c ∷ cs) = descended (c ∷ dir) cs

-- A single name: no separator, drive or NUL in it, and at most 255 bytes.
abbrev pub is_single : Text → Bool
is_single c =
    not (contains c 47)
    && not (contains c 92)
    && not (contains c 58)
    && not (contains c 0)
    && leb (length c) 255

component-is_single :
    (p : Platform) (c : Text)
    → check_path_component p c ≡ none
    → (is_single c ≡ true) × ((c == [] || c == codes "." || c == codes "..") ≡ false)
unfolding check_path_component
component-is_single p c h = (ground arith, ground arith)

components-walked :
    (p : Platform) (dir cs : List Text)
    → check_components p cs ≡ none
    → (walked dir cs ≡ descended dir cs) × All (λ c. is_single c ≡ true) cs
unfolding check_components
components-walked p dir [] h = (refl, tt)
components-walked p dir (c ∷ cs) h = elim (Option-cases (check_path_component p c)) [
  | inl e ↦
      let ok = component-is_single p c e in
      let rest = components-walked p (c ∷ dir) cs (ground arith) in
      (ground (arith, ok.1, rest.0), (ok.0, rest.1))
  | inr (r, e) ↦ ground arith
]

-- A torrent's path that is accepted leads from any directory one level further down with each
-- component, never up or aside; each component is a single name of at most 255 bytes; and the
-- result is contained in the destination and not over the platform's length.
pub check_torrent_path-below :
    (p : Platform) (dest name full : Text) (components dir : List Text)
    → check_torrent_path p dest name components ≡ inr full
    → (walked dir (name ∷ components) ≡ descended dir (name ∷ components))
      × All (λ c. is_single c ≡ true) (name ∷ components)
      × (contained_in p dest full ≡ true)
      × (p.too_long full ≡ false)
unfolding check_torrent_path
check_torrent_path-below p dest name full components dir h =
    elim (Option-cases (check_components p (name ∷ components))) [
      | inl e ↦
          let ok = components-walked p dir (name ∷ components) e in
          (ok.0, ok.1, ground arith, ground arith)
      | inr (r, e) ↦ ground arith
    ]
