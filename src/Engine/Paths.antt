-- ===== src/Engine/Paths.antt =====
-- internal/engine/paths.go: the checks of the paths that a torrent declares. A Go string is a list
-- of bytes here.
pub mod Below
use tortui.Base.{
  Text, List, trimmed_right, ℕ, ◌∷◌, Bool, Option, codes, if◌then◌else◌, ◌⊎◌, ◌==◌, [], none, some,
  contains, inl, nat_eq, ◌||◌, not, inr, ltb, length, text_eq, false, true, ◌&&◌, ◌++◌,
}

-- strings.ToLower, and what package filepath and internal/platform do with paths: the cleaned join,
-- Rel, IsAbs, the separator, and whether a path is over the platform's length limit.
pub record Platform : Type 0 where
  pub lower : Text → Text
  pub clean_join : Text → List Text → Text
  pub rel : Text → Text → Option Text
  pub is_abs : Text → Bool
  pub separator : ℕ
  pub too_long : Text → Bool

pub data UnsafePath : Type 0 where
  empty_component nul_byte traverses has_separator drive_or_stream dot_or_space over_length :
      UnsafePath
  reserved_name escapes path_too_long : UnsafePath

abbrev pub max_component_bytes : ℕ
max_component_bytes = 255

unfoldable pub windows_reserved_names : List Text
windows_reserved_names =
    codes "con"
    ∷ codes "prn"
    ∷ codes "aux"
    ∷ codes "nul"
    ∷ codes "com1"
    ∷ codes "com2"
    ∷ codes "com3"
    ∷ codes "com4"
    ∷ codes "com5"
    ∷ codes "com6"
    ∷ codes "com7"
    ∷ codes "com8"
    ∷ codes "com9"
    ∷ codes "lpt1"
    ∷ codes "lpt2"
    ∷ codes "lpt3"
    ∷ codes "lpt4"
    ∷ codes "lpt5"
    ∷ codes "lpt6"
    ∷ codes "lpt7"
    ∷ codes "lpt8"
    ∷ codes "lpt9"
    ∷ []

-- The bytes before the first dot.
unfoldable pub stem : Text → Text
stem [] = []
stem (x ∷ s) = if x == 46 then [] else x ∷ stem s

abbrev pub is_dot_or_space : ℕ → Bool
is_dot_or_space x = x == 46 || x == 32

-- CheckPathComponent: `none` is a nil error.
unfoldable pub check_path_component : Platform → Text → Option UnsafePath
unfolding stem trimmed_right windows_reserved_names
check_path_component p c =
    if c == []
    then some empty_component
    else if contains c 0
    then some nul_byte
    else if c == codes "." || c == codes ".."
    then some traverses
    else if contains c 47 || contains c 92
    then some has_separator
    else if contains c 58
    then some drive_or_stream
    else if not (trimmed_right is_dot_or_space c == c)
    then some dot_or_space
    else if ltb max_component_bytes (length c)
    then some over_length
    else if contains windows_reserved_names (stem (p.lower c))
    then some reserved_name
    else none

-- strings.HasPrefix
unfoldable pub has_prefix : Text → Text → Bool
has_prefix s [] = true
has_prefix [] (c ∷ t) = false
has_prefix (x ∷ s) (c ∷ t) = x == c && has_prefix s t

-- ContainedIn
unfoldable pub contained_in : Platform → Text → Text → Bool
unfolding has_prefix
contained_in p root candidate = elim (p.rel root candidate) [
  | none ↦ false
  | some rel ↦
      not (rel == codes ".." || has_prefix rel (codes ".." ++ p.separator ∷ []))
      && not (p.is_abs rel)
]

-- The loop of CheckTorrentPath over the components.
unfoldable pub check_components : Platform → List Text → Option UnsafePath
unfolding check_path_component
check_components p [] = none
check_components p (c ∷ cs) = elim (check_path_component p c) [
  | some e ↦ some e
  | none ↦ check_components p cs
]

-- CheckTorrentPath: the path, or why it is refused.
unfoldable pub check_torrent_path : Platform → Text → Text → List Text → UnsafePath ⊎ Text
unfolding check_components contained_in
check_torrent_path p dest name components = elim (check_components p (name ∷ components)) [
  | some e ↦ inl e
  | none ↦
      let full = p.clean_join dest (name ∷ components) in
      if not (contained_in p dest full)
      then inl escapes
      else if p.too_long full
      then inl path_too_long
      else inr full
]
