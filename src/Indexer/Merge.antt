-- ===== src/Indexer/Merge.antt =====
-- internal/indexer/registry.go: dedupKey, normaliseTitle, mergeResults and sortResults.
pub mod Rows
pub mod Order
pub mod Origins
use tortui.Indexer.{Result, Mode, latest_mode, seeders_unknown}
use tortui.Base.{
  Bool, List, Text, Unicode, insert, ◌==◌, Option, [], codes, if◌then◌else◌, joined, lt_ℤ, some,
  stable_sort, true, ℕ, ℤ, ◌∷◌, ◌&&◌, contains, false, fields, ltb, map, suc, text_eq, ◌||◌, ◌++◌,
  int_eq, none, not, space_trimmed, text_lt, nat_eq,
}

-- What a result is merged on. The source writes "infohash:…", "title:…|size" (a normalised title
-- holds no "|") and "unmatchable:n" in one text.
pub data Key : Type 0 where
  by_hash : Text → Key
  by_title : Text → ℤ → Key
  unmatchable : ℕ → Key

unfoldable pub key_eqb : Key → Key → Bool
key_eqb (by_hash s) (by_hash t) = s == t
key_eqb (by_title s m) (by_title t n) = s == t && m == n
key_eqb (unmatchable m) (unmatchable n) = m == n
key_eqb _ _ = false

-- The identity of a result, if it has one.
module _ (u : Unicode) where
  open u use {to_lower, is_letter, is_digit}

  unfoldable pub normalise_title : Text → Text
  normalise_title s =
      joined (codes " ") (fields (λ r. not (is_letter r) && not (is_digit r)) (map to_lower s))

  unfoldable pub dedup_key : Result → Option Key
  dedup_key r =
      let hash = map to_lower (space_trimmed r.info_hash) in
      let title = normalise_title r.title in
      if not (hash == [])
      then some (by_hash hash)
      else if not (title == [])
      then some (by_title title r.size_bytes)
      else none

-- A result under its key, and whom it came from.
pub record Row : Type 0 where
  pub key : Key
  pub res : Result
  pub sources : List Text
  pub from_cache : Bool

-- When a copy replaces the one met before.
unfoldable pub better : Result → Result → Bool
better res kept =
    lt_ℤ kept.seeders res.seeders
    || (res.seeders == kept.seeders && seeders_unknown kept && not (seeders_unknown res))

unfoldable pub join_row : Text → Bool → Result → Row → Row
join_row id cached res row = record row {
  sources = if contains row.sources id then row.sources else row.sources ++ id ∷ [];
  res = if better res row.res then res else row.res;
  from_cache = if better res row.res then cached else row.from_cache;
}

unfoldable pub add_row : Text → Bool → Key → Result → List Row → List Row
unfolding key_eqb
add_row id cached key res [] =
    record { key = key; res = res; sources = id ∷ []; from_cache = cached } ∷ []
add_row id cached key res (row ∷ rows) =
    if key_eqb row.key key
    then join_row id cached res row ∷ rows
    else row ∷ add_row id cached key res rows

-- One source's answer, as SearchAll hands it on.
pub record Group : Type 0 where
  pub id : Text
  pub cached : Bool
  pub results : List Result

-- The loops' state: the rows so far, and how many results had no identity.
pub record Merging : Type 0 where
  pub rows : List Row
  pub unnamed : ℕ

module _ (u : Unicode) where
  unfoldable pub merge_one : Text → Bool → Result → Merging → Merging
  merge_one id cached res m = elim (dedup_key u res) [
    | some key ↦ record m { rows = add_row id cached key res m.rows }
    | none ↦ record {
      rows = add_row id cached (unmatchable (suc m.unnamed)) res m.rows;
      unnamed = suc m.unnamed;
    }
  ]

  unfoldable pub merge_group : Text → Bool → List Result → Merging → Merging
  merge_group id cached [] m = m
  merge_group id cached (res ∷ rest) m = merge_group id cached rest (merge_one id cached res m)

  unfoldable pub merge_groups : List Group → Merging → Merging
  merge_groups [] m = m
  merge_groups (g ∷ gs) m = merge_groups gs (merge_group g.id g.cached g.results m)

  abbrev pub merged_rows : List Group → List Row
  merged_rows gs = (merge_groups gs (record { rows = []; unnamed = 0 })).rows

abbrev pub extra_key_sources : Text
extra_key_sources = codes "tortui.sources"

abbrev pub extra_key_cache_hit : Text
extra_key_cache_hit = codes "tortui.cacheHit"

-- What is returned of a row: its result, with the registry's own notes in Extra.
unfoldable pub finished : Row → Result
finished row = record row.res {
  extra =
      insert extra_key_cache_hit (if row.from_cache then codes "true" else codes "false")
        (insert extra_key_sources (joined (codes ",") row.sources) row.res.extra);
}

unfoldable pub is_latest : Mode → Bool
is_latest latest_mode = true
is_latest _ = false

-- The comparison's last ties: indexer id, then id; and title before them.
unfoldable pub id_less : Result → Result → Bool
id_less a b =
    if a.indexer_id == b.indexer_id then text_lt a.id b.id else text_lt a.indexer_id b.indexer_id

unfoldable pub title_less : Result → Result → Bool
title_less a b = if a.title == b.title then id_less a b else text_lt a.title b.title

-- Newest first, or most seeders first, then the other of the two.
unfoldable pub result_less : Mode → Result → Result → Bool
unfolding is_latest
result_less mode a b =
    if is_latest mode
    then if a.published == b.published
      then if a.seeders == b.seeders then title_less a b else lt_ℤ b.seeders a.seeders
      else ltb b.published a.published
    else if a.seeders == b.seeders
    then if a.published == b.published then title_less a b else ltb b.published a.published
    else lt_ℤ b.seeders a.seeders

module _ (u : Unicode) where
  unfoldable pub merge_results : Mode → List Group → List Result
  merge_results mode gs = stable_sort (result_less mode) (map finished (merged_rows u gs))
