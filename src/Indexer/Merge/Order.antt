-- ===== src/Indexer/Merge/Order.antt =====
-- internal/indexer/registry.go: the order that sortResults gives.
use tortui.Indexer.Merge.{
  result_less, id_less, merge_results, title_less, Group, finished, merged_rows, is_latest,
}
use tortui.Indexer.{Mode, Result, unnamed, latest_mode, search_mode}
use tortui.Base.{
  ◌≡◌, true, false, arith, text_eqb_iff, text_lt_asym, text_lt_cotrans, text_lt_total, Unicode,
  List, Perm, map, IsSorted, stable_sort-perm, stable_sort-IsSorted, ◌<◌, All, lt_ℤ, text_lt, ℤ,
  ◌∷◌, [], pos, ◌⊎◌, negsuc,
}

id_less_asym : (a b : Result) → id_less a b ≡ true → id_less b a ≡ false
unfolding id_less
id_less_asym a b h = ground (
  arith,
  text_eqb_iff a.indexer_id b.indexer_id,
  text_eqb_iff b.indexer_id a.indexer_id,
  text_lt_asym a.indexer_id b.indexer_id,
  text_lt_asym a.id b.id,
)

title_less_asym : (a b : Result) → title_less a b ≡ true → title_less b a ≡ false
unfolding title_less
title_less_asym a b h = ground (
  arith,
  text_eqb_iff a.title b.title,
  text_eqb_iff b.title a.title,
  text_lt_asym a.title b.title,
  id_less_asym a b,
)

result_less_asym :
    (mode : Mode) (a b : Result) → result_less mode a b ≡ true → result_less mode b a ≡ false
unfolding result_less
result_less_asym mode a b h = ground (arith, title_less_asym a b)

id_less_cotrans : (a b c : Result) → id_less b a ≡ false → id_less c b ≡ false → id_less c a ≡ false
unfolding id_less
id_less_cotrans a b c h k = ground (
  arith,
  text_eqb_iff b.indexer_id a.indexer_id,
  text_eqb_iff c.indexer_id b.indexer_id,
  text_eqb_iff c.indexer_id a.indexer_id,
  text_lt_cotrans a.indexer_id b.indexer_id c.indexer_id,
  text_lt_total b.indexer_id a.indexer_id,
  text_lt_cotrans a.id b.id c.id,
)

title_less_cotrans :
    (a b c : Result) → title_less b a ≡ false → title_less c b ≡ false → title_less c a ≡ false
unfolding title_less
title_less_cotrans a b c h k = ground (
  arith,
  text_eqb_iff b.title a.title,
  text_eqb_iff c.title b.title,
  text_eqb_iff c.title a.title,
  text_lt_cotrans a.title b.title c.title,
  text_lt_total b.title a.title,
  id_less_cotrans a b c,
)

result_less_cotrans :
    (mode : Mode) (a b c : Result)
    → result_less mode b a ≡ false
    → result_less mode c b ≡ false
    → result_less mode c a ≡ false
unfolding result_less
result_less_cotrans mode a b c h k = ground (arith, title_less_cotrans a b c)

-- A list's order, with `next` for results that tie.
module _ (a b : Result) (next : Type 0) where
  abbrev Newest : Type 0
  Newest = (b.published < a.published) ⊎ ((a.published ≡ b.published) × next)

  abbrev MostSeeders : Type 0
  MostSeeders = (lt_ℤ b.seeders a.seeders ≡ true) ⊎ ((a.seeders ≡ b.seeders) × next)

-- By title, then by indexer id, then by id.
abbrev FirstByName : Result → Result → Type 0
FirstByName a b =
    (text_lt a.title b.title ≡ true)
    ⊎ ((a.title ≡ b.title)
        × ((text_lt a.indexer_id b.indexer_id ≡ true)
            ⊎ ((a.indexer_id ≡ b.indexer_id) × ((text_lt a.id b.id ≡ true) ⊎ (a.id ≡ b.id)))))

-- What may stand before what in a mode's listing.
abbrev pub IsAhead : Mode → Result → Result → Type 0
IsAhead latest_mode a b = Newest a b (MostSeeders a b (FirstByName a b))
IsAhead search_mode a b = MostSeeders a b (Newest a b (FirstByName a b))
IsAhead (unnamed m) a b = MostSeeders a b (Newest a b (FirstByName a b))

abbrev pub InOrder : Mode → List Result → Type 0
InOrder mode [] = Unit
InOrder mode (a ∷ rs) = All (IsAhead mode a) rs × InOrder mode rs

lt_ℤ_total : (a b : ℤ) → lt_ℤ a b ≡ false → lt_ℤ b a ≡ false → a ≡ b
lt_ℤ_total (pos a) (pos b) h k = ground arith
lt_ℤ_total (pos a) (negsuc b) h k = ground arith
lt_ℤ_total (negsuc a) (pos b) h k = ground arith
lt_ℤ_total (negsuc a) (negsuc b) h k = ground arith

-- What is not later by its names is first by them.
title_less-FirstByName : (a b : Result) → title_less b a ≡ false → FirstByName a b
unfolding title_less id_less
title_less-FirstByName a b h = ground (
  arith,
  text_eqb_iff b.title a.title,
  text_eqb_iff b.indexer_id a.indexer_id,
  text_lt_total b.title a.title,
  text_lt_total a.title b.title,
  text_lt_total a.indexer_id b.indexer_id,
  text_lt_total a.id b.id,
)

result_less-IsAhead : (mode : Mode) (a b : Result) → result_less mode b a ≡ false → IsAhead mode a b
unfolding result_less is_latest
result_less-IsAhead latest_mode a b h =
    ground (arith, lt_ℤ_total a.seeders b.seeders, title_less-FirstByName a b)
result_less-IsAhead search_mode a b h =
    ground (arith, lt_ℤ_total a.seeders b.seeders, title_less-FirstByName a b)
result_less-IsAhead (unnamed m) a b h =
    ground (arith, lt_ℤ_total a.seeders b.seeders, title_less-FirstByName a b)

All-IsAhead :
    (mode : Mode) (a : Result) (rs : List Result)
    → All (λ b. result_less mode b a ≡ false) rs
    → All (IsAhead mode a) rs
All-IsAhead mode a [] all = tt
All-IsAhead mode a (b ∷ rs) all = (result_less-IsAhead mode a b all.0, All-IsAhead mode a rs all.1)

IsSorted-InOrder :
    (mode : Mode) (rs : List Result) → IsSorted (result_less mode) rs → InOrder mode rs
IsSorted-InOrder mode [] sorted = tt
IsSorted-InOrder mode (a ∷ rs) sorted =
    (All-IsAhead mode a rs sorted.0, IsSorted-InOrder mode rs sorted.1)

-- What a fan-out returns is what the rows hold, neither more nor less. In latest mode a newer
-- result comes before an older one and, of two as old, the one with more seeders comes first; in
-- every other mode seeders count first, then the date. Those that tie in both go by title, then by
-- indexer id, then by id.
pub merge_results-InOrder :
    (u : Unicode) (mode : Mode) (gs : List Group)
    → Perm (merge_results u mode gs) (map finished (merged_rows u gs))
      × InOrder mode (merge_results u mode gs)
unfolding merge_results
merge_results-InOrder u mode gs = (
  stable_sort-perm (result_less mode) (map finished (merged_rows u gs)),
  IsSorted-InOrder mode (merge_results u mode gs) (
      stable_sort-IsSorted (result_less mode) (result_less_asym mode) (result_less_cotrans mode)
        (map finished (merged_rows u gs))),
)
