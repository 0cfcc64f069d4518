-- ===== src/Indexer/Merge/Rows.antt =====
-- internal/indexer/registry.go: the rows that mergeResults builds.
use tortui.Indexer.Merge.{
  Row, add_row, better, join_row, key_eqb, Key, merge_group, merge_groups, merge_one, Group,
  Merging, unmatchable, dedup_key, merged_rows, by_hash, by_title,
}
use tortui.Base.{
  Option, Unicode, ℕ, List, Text, Any, Bool, contains, some, ◌≡◌, All, arith, false, inl, true, ◌∷◌,
  Bool-cases, Option-cases, [], contains-append, lt_ℤ_irrefl, none, text_eq, text_eqb_iff, ◌↔◌, inr,
  subst, suc, ◌∙◌, refl, sym, eqb_ℤ_iff,
}
use tortui.Indexer.{Result}

pub better_irrefl : (a : Result) → better a a ≡ false
unfolding better
better_irrefl a = ground (arith, lt_ℤ_irrefl a.seeders)

-- What did not beat the copy kept before does not beat its successor.
pub better-cotrans : (a b c : Result) → better a b ≡ false → better c b ≡ true → better a c ≡ false
unfolding better
better-cotrans a b c h k = ground arith

-- The key that a row of a result with this identity has.
abbrev pub Fits : Option Key → Key → Type 0
Fits (some k) k' = k' ≡ k
Fits none (unmatchable n) = Unit
Fits none _ = ⊥

pub key_eqb_iff : (a b : Key) → (key_eqb a b ≡ true) ↔ (a ≡ b)
unfolding key_eqb
key_eqb_iff (by_hash s) (by_hash t) = ground (arith, text_eqb_iff s t)
key_eqb_iff (by_title s m) (by_title t n) = ground (arith, text_eqb_iff s t, eqb_ℤ_iff m n)
key_eqb_iff (unmatchable m) (unmatchable n) = ground arith
key_eqb_iff _ _ = ground arith

-- A row stands for a copy: its key fits, the copy's source is named, and the copy is not better.
abbrev pub IsCover : Option Key → Text → Result → Row → Type 0
IsCover key id res row =
    Fits key row.key × (contains row.sources id ≡ true) × (better res row.res ≡ false)

join_row-IsCover :
    (key : Option Key) (id id' : Text) (cached : Bool) (res res' : Result) (row : Row)
    → IsCover key id res row
    → IsCover key id res (join_row id' cached res' row)
unfolding join_row
join_row-IsCover key id id' cached res res' row h =
    ground (arith, better-cotrans res row.res res', contains-append row.sources id' id)

join_row-IsCover_self :
    (id : Text) (cached : Bool) (res : Result) (row : Row)
    → (contains (join_row id cached res row).sources id ≡ true)
      × (better res (join_row id cached res row).res ≡ false)
      × ((join_row id cached res row).key ≡ row.key)
unfolding join_row
join_row-IsCover_self id cached res row =
    ground (arith, better_irrefl res, contains-append row.sources id id, text_eqb_iff id id)

add_row-IsCover :
    (key : Option Key) (id id' : Text) (cached : Bool) (key' : Key) (res res' : Result)
    (rows : List Row)
    → Any (IsCover key id res) rows
    → Any (IsCover key id res) (add_row id' cached key' res' rows)
unfolding add_row
add_row-IsCover key id id' cached key' res res' [] h = absurd h
add_row-IsCover key id id' cached key' res res' (row ∷ rows) (inl h) =
    elim (Bool-cases (key_eqb row.key key')) [
      | inl e ↦ rw e (inl (join_row-IsCover key id id' cached res res' row h))
      | inr e ↦ rw e (inl h)
    ]
add_row-IsCover key id id' cached key' res res' (row ∷ rows) (inr h) =
    elim (Bool-cases (key_eqb row.key key')) [
      | inl e ↦ rw e (inr h)
      | inr e ↦ rw e (inr (add_row-IsCover key id id' cached key' res res' rows h))
    ]

add_row-IsCover_self :
    (id : Text) (cached : Bool) (key : Key) (res : Result) (rows : List Row)
    → Any (IsCover (some key) id res) (add_row id cached key res rows)
unfolding add_row
add_row-IsCover_self id cached key res [] =
    inl (refl, ground (arith, text_eqb_iff id id), better_irrefl res)
add_row-IsCover_self id cached key res (row ∷ rows) = elim (Bool-cases (key_eqb row.key key)) [
  | inl e ↦
      let (named, kept, same) = join_row-IsCover_self id cached res row in
      rw e (inl (same ∙ (key_eqb_iff row.key key).0 e, named, kept))
  | inr e ↦ rw e (inr (add_row-IsCover_self id cached key res rows))
]

Any-weaken :
    (n : ℕ) (id : Text) (res : Result) (rows : List Row)
    → Any (IsCover (some (unmatchable n)) id res) rows
    → Any (IsCover none id res) rows
Any-weaken n id res [] h = h
Any-weaken n id res (row ∷ rows) (inl h) = inl (subst (Fits none) (sym h.0) tt, h.1, h.2)
Any-weaken n id res (row ∷ rows) (inr h) = inr (Any-weaken n id res rows h)

module _ (u : Unicode) where
  merge_one-IsCover :
      (key : Option Key) (id id' : Text) (cached : Bool) (res res' : Result) (m : Merging)
      → Any (IsCover key id res) m.rows
      → Any (IsCover key id res) (merge_one u id' cached res' m).rows
  unfolding merge_one
  merge_one-IsCover key id id' cached res res' m h = elim (Option-cases (dedup_key u res')) [
    | inl e ↦
        rw (e, merge_one)
          (add_row-IsCover key id id' cached (unmatchable (suc m.unnamed)) res res' m.rows h)
    | inr (k, e) ↦ rw (e, merge_one) (add_row-IsCover key id id' cached k res res' m.rows h)
  ]

  merge_one-IsCover_self :
      (id : Text) (cached : Bool) (res : Result) (m : Merging)
      → Any (IsCover (dedup_key u res) id res) (merge_one u id cached res m).rows
  unfolding merge_one
  merge_one-IsCover_self id cached res m = elim (Option-cases (dedup_key u res)) [
    | inl e ↦
        rw (e, merge_one)
          (Any-weaken (suc m.unnamed) id res _
            (add_row-IsCover_self id cached (unmatchable (suc m.unnamed)) res m.rows))
    | inr (k, e) ↦ rw (e, merge_one) (add_row-IsCover_self id cached k res m.rows)
  ]

  merge_group-IsCover :
      (key : Option Key) (id id' : Text) (cached : Bool) (res : Result) (results : List Result)
      (m : Merging)
      → Any (IsCover key id res) m.rows
      → Any (IsCover key id res) (merge_group u id' cached results m).rows
  unfolding merge_group
  merge_group-IsCover key id id' cached res [] m h = h
  merge_group-IsCover key id id' cached res (x ∷ xs) m h =
      merge_group-IsCover key id id' cached res xs _ (merge_one-IsCover key id id' cached res x m h)

  merge_groups-IsCover :
      (key : Option Key) (id : Text) (res : Result) (gs : List Group) (m : Merging)
      → Any (IsCover key id res) m.rows
      → Any (IsCover key id res) (merge_groups u gs m).rows
  unfolding merge_groups
  merge_groups-IsCover key id res [] m h = h
  merge_groups-IsCover key id res (g ∷ gs) m h =
      merge_groups-IsCover key id res gs _
        (merge_group-IsCover key id g.id g.cached res g.results m h)

  -- `rows` has a cover for each copy that a group holds.
  abbrev pub Covers : List Row → Group → Type 0
  Covers rows g = All (λ res. Any (IsCover (dedup_key u res) g.id res) rows) g.results

  merge_group-All :
      (id : Text) (cached : Bool) (results : List Result) (m : Merging)
      → All
          (λ res. Any (IsCover (dedup_key u res) id res) (merge_group u id cached results m).rows)
          results
  unfolding merge_group
  merge_group-All id cached [] m = tt
  merge_group-All id cached (x ∷ xs) m = (
    merge_group-IsCover (dedup_key u x) id id cached x xs _ (merge_one-IsCover_self id cached x m),
    merge_group-All id cached xs (merge_one u id cached x m),
  )

  merge_groups-Covers_first :
      (id : Text) (gs : List Group) (m : Merging) (results : List Result)
      → All (λ res. Any (IsCover (dedup_key u res) id res) m.rows) results
      → All (λ res. Any (IsCover (dedup_key u res) id res) (merge_groups u gs m).rows) results
  merge_groups-Covers_first id gs m [] h = tt
  merge_groups-Covers_first id gs m (x ∷ xs) h =
      (merge_groups-IsCover (dedup_key u x) id x gs m h.0, merge_groups-Covers_first id gs m xs h.1)

  merge_groups-Covers : (gs : List Group) (m : Merging) → All (Covers (merge_groups u gs m).rows) gs
  unfolding merge_groups
  merge_groups-Covers [] m = tt
  merge_groups-Covers (g ∷ gs) m = (
    merge_groups-Covers_first g.id gs _ g.results (merge_group-All g.id g.cached g.results m),
    merge_groups-Covers gs (merge_group u g.id g.cached g.results m),
  )

  -- Merging loses no copy: for each result of each source there is a row under its identity that
  -- names the source, and whose surviving copy it does not beat (by more seeders, or by a known
  -- count against an unknown one at equal seeders).
  pub merged_rows-Covers : (gs : List Group) → All (Covers (merged_rows u gs)) gs
  merged_rows-Covers gs = merge_groups-Covers gs (record { rows = []; unnamed = 0 })
