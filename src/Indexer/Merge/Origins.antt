-- ===== src/Indexer/Merge/Origins.antt =====
-- internal/indexer/registry.go: where the rows of mergeResults come from.
use tortui.Indexer.Merge.{
  Row, Key, add_row, join_row, key_eqb, Group, Merging, merge_group, merge_groups, merge_one,
  dedup_key, merged_rows, better, unmatchable,
}
use tortui.Base.{
  List, Unicode, Text, ◌∷◌, All, Bool, ◌≡◌, false, Bool-cases, [], arith, contains, Option-cases,
  inl, true, inr, text_eq, text_eqb_iff, contains-append, subst, suc, refl, sym,
}
use tortui.Indexer.{Result}
use tortui.Indexer.Merge.Rows.{Fits, key_eqb_iff}

Any-add_row :
    (id : Text) (cached : Bool) (key : Key) (res : Result) (rows : List Row) (k : Key)
    → All (λ row. key_eqb row.key k ≡ false) rows
    → key_eqb key k ≡ false
    → All (λ row. key_eqb row.key k ≡ false) (add_row id cached key res rows)
unfolding add_row join_row
Any-add_row id cached key res [] k h e = (e, tt)
Any-add_row id cached key res (row ∷ rows) k h e = elim (Bool-cases (key_eqb row.key key)) [
  | inl q ↦ rw q h
  | inr q ↦ rw q (h.0, Any-add_row id cached key res rows k h.1 e)
]

-- No two rows have one key.
abbrev pub DistinctKeys : List Row → Type 0
DistinctKeys [] = Unit
DistinctKeys (row ∷ rows) =
    All (λ later. key_eqb later.key row.key ≡ false) rows × DistinctKeys rows

key_eqb_symm : (a b : Key) → key_eqb a b ≡ false → key_eqb b a ≡ false
key_eqb_symm a b h = ground (arith, key_eqb_iff a b, key_eqb_iff b a)

add_row-DistinctKeys :
    (id : Text) (cached : Bool) (key : Key) (res : Result) (rows : List Row)
    → DistinctKeys rows
    → DistinctKeys (add_row id cached key res rows)
unfolding add_row join_row
add_row-DistinctKeys id cached key res [] d = (tt, tt)
add_row-DistinctKeys id cached key res (row ∷ rows) d = elim (Bool-cases (key_eqb row.key key)) [
  | inl e ↦ rw e d
  | inr e ↦ rw e (
    Any-add_row id cached key res rows row.key d.0 (key_eqb_symm row.key key e),
    add_row-DistinctKeys id cached key res rows d.1,
  )
]

module _ (u : Unicode) (P : Text → Bool → Result → Type 0) where
  -- The surviving copy is one of the inputs, kept with its own source and cache flag, under the
  -- key of its identity.
  abbrev pub IsOrigin : Row → Type 0
  IsOrigin row =
      (id : Text) × (contains row.sources id ≡ true)
      × P id row.from_cache row.res
      × Fits (dedup_key u row.res) row.key

  join_row-IsOrigin :
      (id : Text) (cached : Bool) (res : Result) (row : Row)
      → P id cached res
      → Fits (dedup_key u res) row.key
      → IsOrigin row
      → IsOrigin (join_row id cached res row)
  unfolding join_row
  join_row-IsOrigin id cached res row p fits (id', named, p', fits') =
      elim (Bool-cases (better res row.res)) [
        | inl e ↦
            rw e
              (id, ground (arith, contains-append row.sources id id, text_eqb_iff id id), p, fits)
        | inr e ↦ rw e (id', ground (arith, contains-append row.sources id id'), p', fits')
      ]

  add_row-IsOrigin :
      (id : Text) (cached : Bool) (key : Key) (res : Result) (rows : List Row)
      → P id cached res
      → Fits (dedup_key u res) key
      → All IsOrigin rows
      → All IsOrigin (add_row id cached key res rows)
  unfolding add_row
  add_row-IsOrigin id cached key res [] p fits h =
      ((id, ground (arith, text_eqb_iff id id), p, fits), tt)
  add_row-IsOrigin id cached key res (row ∷ rows) p fits h =
      elim (Bool-cases (key_eqb row.key key)) [
        | inl e ↦ rw e (
          join_row-IsOrigin id cached res row p
              (subst (Fits (dedup_key u res)) (sym ((key_eqb_iff row.key key).0 e)) fits) h.0,
          h.1,
        )
        | inr e ↦ rw e (h.0, add_row-IsOrigin id cached key res rows p fits h.1)
      ]

  -- What the loops keep of the rows.
  record IsMerging (m : Merging) : Type 0 where
    origins : All IsOrigin m.rows
    keys : DistinctKeys m.rows

  merge_one-IsMerging :
      (id : Text) (cached : Bool) (res : Result) (m : Merging)
      → P id cached res
      → IsMerging m
      → IsMerging (merge_one u id cached res m)
  unfolding merge_one
  merge_one-IsMerging id cached res m p v = elim (Option-cases (dedup_key u res)) [
    | inl e ↦
        rw (e, merge_one)
          (record {
            origins =
                add_row-IsOrigin id cached (unmatchable (suc m.unnamed)) res m.rows p (rw e tt)
                  v.origins;
            keys = add_row-DistinctKeys id cached (unmatchable (suc m.unnamed)) res m.rows v.keys;
          })
    | inr (k, e) ↦
        rw (e, merge_one)
          (record {
            origins = add_row-IsOrigin id cached k res m.rows p (rw e refl) v.origins;
            keys = add_row-DistinctKeys id cached k res m.rows v.keys;
          })
  ]

  merge_group-IsMerging :
      (id : Text) (cached : Bool) (results : List Result) (m : Merging)
      → All (P id cached) results
      → IsMerging m
      → IsMerging (merge_group u id cached results m)
  unfolding merge_group
  merge_group-IsMerging id cached [] m p v = v
  merge_group-IsMerging id cached (x ∷ xs) m p v =
      merge_group-IsMerging id cached xs _ p.1 (merge_one-IsMerging id cached x m p.0 v)

  merge_groups-IsMerging :
      (gs : List Group) (m : Merging)
      → All (λ g. All (P g.id g.cached) g.results) gs
      → IsMerging m
      → IsMerging (merge_groups u gs m)
  unfolding merge_groups
  merge_groups-IsMerging [] m p v = v
  merge_groups-IsMerging (g ∷ gs) m p v =
      merge_groups-IsMerging gs _ p.1 (merge_group-IsMerging g.id g.cached g.results m p.0 v)

  -- Merging makes nothing up and keeps identities apart: whatever holds of every input result
  -- with its source's id and cache flag holds of each row's surviving copy with one of the row's
  -- sources and the row's cache flag, the row's key is that copy's identity, and no two rows have
  -- one key.
  pub merged_rows-IsOrigin :
      (gs : List Group)
      → All (λ g. All (P g.id g.cached) g.results) gs
      → All IsOrigin (merged_rows u gs) × DistinctKeys (merged_rows u gs)
  merged_rows-IsOrigin gs p =
      let v =
        merge_groups-IsMerging gs (record { rows = []; unnamed = 0 }) p
          (record { origins = tt; keys = tt }) in
      (v.origins, v.keys)
