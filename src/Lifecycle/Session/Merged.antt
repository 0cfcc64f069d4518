-- ===== src/Lifecycle/Session/Merged.antt =====
-- internal/lifecycle/session.go: folding an engine's data into a record.
use tortui.Base.{
  Bool, Text, ℕ, ◌<◌, if◌then◌else◌, not, ◌==◌, ◌≡◌, ◌&&◌, Bool-cases, arith, space_trimmed, true,
  false, inl, nat_eq, ◌||◌, inr, text_eq, refl,
}
use tortui.Lifecycle.Session.{merge_record, TorrentRecord, ResumeData, is_empty_text}

if_twice :
    {A : Type 0} (c : Bool) (a b : A) → (if c then a else if c then a else b) ≡ (if c then a else b)
if_twice true a b = refl
if_twice false a b = refl

if_same : {A : Type 0} (c : Bool) (a : A) → (if c then a else a) ≡ a
if_same true a = refl
if_same false a = refl

-- The test of mergeRecord for a name that it does not keep.
abbrev renames : (Text → Text) → Text → Text → Bool
renames safe_name metainfo name =
    not (not (is_empty_text (space_trimmed name)) && safe_name name == name)
    || not (is_empty_text metainfo)

name_twice :
    (safe_name : Text → Text) (metainfo name fresh : Text)
    → let once = if renames safe_name metainfo name then fresh else name in
      (if renames safe_name metainfo once then fresh else once) ≡ once
name_twice safe_name metainfo name fresh = elim (Bool-cases (renames safe_name metainfo name)) [
  | inl q ↦ rw q (if_same (renames safe_name metainfo fresh) fresh)
  | inr q ↦ rw (q, q) refl
]

added_twice :
    (added now later : ℕ)
    → 0 < now
    → let once = if added == 0 then now else added in (if once == 0 then later else once) ≡ once
added_twice added now later h = ground arith

-- Saving the same data again, at any later time, changes nothing in the record; the first save is
-- not at the zero time.
pub merge_record_idem :
    (safe_name : Text → Text) (rec : TorrentRecord) (d : ResumeData) (now later : ℕ)
    → 0 < now
    → merge_record safe_name (merge_record safe_name rec d now) d later
      ≡ merge_record safe_name rec d now
unfolding merge_record
merge_record_idem safe_name rec d now later h =
    let has_origin = not (is_empty_text d.indexer_id && is_empty_text d.source_url) in
    let has_metainfo = not (is_empty_text d.metainfo) in
    let once = merge_record safe_name rec d now in
    let n = name_twice safe_name d.metainfo rec.name (safe_name d.name) in
    let m = if_twice has_metainfo d.metainfo rec.metainfo in
    let a = added_twice rec.added_at now later h in
    let x = if_twice has_origin d.indexer_id rec.indexer_id in
    let y = if_twice has_origin d.source_url rec.source_url in
    λ i. record once {
      name = n i;
      metainfo = m i;
      added_at = a i;
      indexer_id = x i;
      source_url = y i;
    }
