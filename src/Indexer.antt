-- ===== src/Indexer.antt =====
-- internal/indexer/indexer.go, minseeders.go: queries, results and what a source declares.
-- Times are nanoseconds since Go's zero time, so the zero time is 0.
pub mod Categories
pub mod Merge
pub mod Registry
pub mod Search
pub mod Http
pub mod Scraper
mod Examples
use tortui.Base.{
  ℕ, ℤ, pos, Text, codes, Map, Bool, true, false, ◌≡◌, Option, none, some, List, [], ◌∷◌, ◌&&◌,
  ◌==◌, not, if◌then◌else◌, lt_ℤ, space_trimmed, text_eq,
}

-- In the order of the source's constants, least trusted first.
pub data Trust : Type 0 where
  unknown untracked verified trusted vip : Trust

-- `dataset` is CategoryData.
pub data Category : Type 0 where
  other audio video image text software dataset : Category

-- `unnamed n` is a value that no constant names.
pub data Mode : Type 0 where
  search_mode latest_mode : Mode
  unnamed : ℤ → Mode

pub record Query : Type 0 where
  pub mode : Mode
  pub text : Text
  pub categories : List Category
  pub min_seeders : ℤ
  pub limit : ℤ
  pub offset : ℤ

pub record Result : Type 0 where
  pub indexer_id : Text
  pub id : Text
  pub title : Text
  pub info_hash : Text
  pub magnet : Text
  pub torrent_url : Text
  pub size_bytes : ℤ
  pub seeders : ℤ
  pub leechers : ℤ
  pub category : Category
  pub source_category : Text
  pub published : ℕ
  pub uploader : Text
  pub trust : Trust
  pub source_url : Text
  pub extra : Map Text Text

pub record Caps : Type 0 where
  pub search : Bool
  pub latest : Bool
  pub categories : Bool
  pub pagination : Bool
  pub requires_auth : Bool
  pub provides_magnet : Bool

-- What an adapter says of itself; its answers are the environment's.
pub record Indexer : Type 0 where
  pub id : Text
  pub name : Text
  pub caps : Caps

-- The constants for Result.Extra.
abbrev pub extra_key_seeders_unknown : Text
extra_key_seeders_unknown = codes "tortui.seeders_unknown"

-- An absent key reads as the empty text.
unfoldable pub seeders_unknown : Result → Bool
seeders_unknown r = elim (r.extra extra_key_seeders_unknown) [
  | none ↦ false
  | some v ↦ not (v == [])
]

unfoldable pub meets_min_seeders : Result → ℤ → Bool
meets_min_seeders r least =
    if not (lt_ℤ (pos 0) least)
    then true
    else if seeders_unknown r
    then true
    else not (lt_ℤ r.seeders least)

-- Validate: `true` is a nil error.
unfoldable pub validate : Result → Bool
validate r = not (space_trimmed r.magnet == [] && space_trimmed r.torrent_url == [])
