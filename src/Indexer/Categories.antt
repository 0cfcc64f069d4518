-- ===== src/Indexer/Categories.antt =====
-- internal/indexer/category.go. The named constants are all the categories there are here.
pub mod Tokens
use tortui.Base.{
  Text, List, Unicode, ℕ, ℤ, codes, fields, if◌then◌else◌, pos, suc, ◌/◌, leb, not, ◌∷◌, ◌&&◌, ◌==◌,
  negsuc, ◌-◌, map, [], text_eq, zero,
}
use tortui.Indexer.{Category, other, audio, software, video, image, text, dataset}

-- Category.String
unfoldable pub token : Category → Text
token other = codes "other"
token audio = codes "audio"
token video = codes "video"
token image = codes "image"
token text = codes "text"
token software = codes "software"
token dataset = codes "data"

torznab_block : ℕ → Category
torznab_block (suc zero) = software
torznab_block (suc (suc zero)) = video
torznab_block (suc (suc (suc zero))) = audio
torznab_block (suc (suc (suc (suc zero)))) = software
torznab_block (suc (suc (suc (suc (suc zero))))) = video
torznab_block (suc (suc (suc (suc (suc (suc zero)))))) = video
torznab_block (suc (suc (suc (suc (suc (suc (suc zero))))))) = text
torznab_block _ = other

-- Go divides towards zero: -999 is in block 0, and a block below 0 has no entry.
unfoldable pub category_from_torznab : ℤ → Category
unfolding torznab_block
category_from_torznab (pos id) = torznab_block (id / 1000)
category_from_torznab (negsuc n) = other

fold_fullwidth : ℕ → ℕ
fold_fullwidth r = if leb 0xff01 r && leb r 0xff5e then r - (0xff01 - 0x21) else r

words : List (Text × Category)
words =
    (codes "audio", audio)
    ∷ (codes "sound", audio)
    ∷ (codes "music", audio)
    ∷ (codes "video", video)
    ∷ (codes "videos", video)
    ∷ (codes "movie", video)
    ∷ (codes "movies", video)
    ∷ (codes "film", video)
    ∷ (codes "films", video)
    ∷ (codes "tv", video)
    ∷ (codes "image", image)
    ∷ (codes "images", image)
    ∷ (codes "picture", image)
    ∷ (codes "pictures", image)
    ∷ (codes "photo", image)
    ∷ (codes "photos", image)
    ∷ (codes "text", text)
    ∷ (codes "texts", text)
    ∷ (codes "doc", text)
    ∷ (codes "docs", text)
    ∷ (codes "document", text)
    ∷ (codes "documents", text)
    ∷ (codes "book", text)
    ∷ (codes "books", text)
    ∷ (codes "ebook", text)
    ∷ (codes "ebooks", text)
    ∷ (codes "software", software)
    ∷ (codes "app", software)
    ∷ (codes "apps", software)
    ∷ (codes "application", software)
    ∷ (codes "applications", software)
    ∷ (codes "program", software)
    ∷ (codes "programs", software)
    ∷ (codes "game", software)
    ∷ (codes "games", software)
    ∷ (codes "console", software)
    ∷ (codes "pc", software)
    ∷ (codes "iso", software)
    ∷ (codes "data", dataset)
    ∷ (codes "dataset", dataset)
    ∷ (codes "datasets", dataset)
    ∷ (codes "database", dataset)
    ∷ (codes "other", other)
    ∷ (codes "misc", other)
    ∷ (codes "miscellaneous", other)
    ∷ (codes "unknown", other)
    ∷ (codes "uncategorized", other)
    ∷ (codes "uncategorised", other)
    ∷ []

-- categoryWords[word]; a missing word reads as the zero value, CategoryOther.
word_category : List (Text × Category) → Text → Category
word_category [] w = other
word_category ((v, c) ∷ table) w = if v == w then c else word_category table w

first_specific : List Text → Category
unfolding word_category words
first_specific [] = other
first_specific (w ∷ ws) = elim (word_category words w) [ other ↦ first_specific ws | c ↦ c ]

module _ (u : Unicode) where
  open u use {to_lower, is_letter, is_digit}

  unfoldable pub category_from_string : Text → Category
  unfolding fold_fullwidth first_specific
  category_from_string s =
      first_specific
        (fields (λ r. not (is_letter r) && not (is_digit r)) (map to_lower (map fold_fullwidth s)))
