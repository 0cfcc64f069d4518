-- ===== src/Lifecycle/Session/Resume/Restored.antt =====
-- internal/lifecycle/session.go: the records that a Resume leaves.
use mathlib.Core.Bool.{or-false}
use tortui.Base.{
  List, ℕ, Option, Text, ◌∷◌, ◌≡◌, contains, false, some, ◌==◌, none, [], arith, ◌||◌, ◌+◌, text_eq,
  true, Bool-cases, Distinct, inl, inr, ◌++◌, text_eqb_iff, contains-append, ◌≢◌, Option-cases,
  false≢true, stable_sort, sym, contains-stable_sort, Distinct-stable_sort, ◌∙◌, Bool, subst,
  if◌then◌else◌, not, ◌&&◌,
}
use tortui.Lifecycle.Session.{
  TorrentRecord, delete_torrent, set_torrent, Store, record_ids, StoreError, Session,
}
use tortui.Lifecycle.Session.Saved.{same_test, set_torrent-ids, delete_torrent-ids}
use tortui.Lifecycle.Session.Resume.Minted.{AllPass, AnswerPasses, restore-AllPass}
use tortui.Lifecycle.Session.Resume.{
  Ids, Numbering, Restoring, restore, Resuming, resume_one, dropped_as, kept_as, rekeyed,
  resume_from, resume_session, is_older,
}

-- An ID that is not empty, and not that of a record that has yet to be restored.
abbrev is_past : List TorrentRecord → Text → Bool
is_past recs id = not (contains (record_ids recs) id) && not (id == [])

-- The store has the records that were restored and those to come, and no record is both.
record IsHalfway (recs : List TorrentRecord) (z : Resuming) : Type 0 where
  live : z.store.closed ≡ false
  ids :
      (id : Text)
      → contains (record_ids z.store.torrents) id
        ≡ contains z.restored id || contains (record_ids recs) id
  apart : (id : Text) → contains z.restored id ≡ true → contains (record_ids recs) id ≡ false
  distinct : Distinct (record_ids recs)

delete_torrent-ok : (id : Text) (s : Store) → s.closed ≡ false → (delete_torrent id s).1 ≡ none
unfolding delete_torrent
delete_torrent-ok id s live = ground arith

set_torrent-ok :
    (rec : TorrentRecord) (s : Store)
    → s.closed ≡ false
    → rec.id == [] ≡ false
    → (set_torrent rec s).1 ≡ none
unfolding set_torrent
set_torrent-ok rec s live named = ground arith

none_of_err : (err : StoreError) → some err ≢ none
none_of_err err h = ground arith

module _ (rec : TorrentRecord) (recs : List TorrentRecord) (id : Text) (z : Resuming)
    (half : IsHalfway (rec ∷ recs) z) (later : contains (record_ids recs) id ≡ false)
    (named : id == [] ≡ false) where
  dropped_as-IsHalfway :
      (s : Store) (e : Option StoreError)
      → e ≡ none
      → IsHalfway recs (record z { store = s })
      → IsHalfway recs (dropped_as rec id z (s, e)).0
  dropped_as-IsHalfway s none h v = record {
    live = v.live;
    ids = v.ids;
    apart = v.apart;
    distinct = v.distinct;
  }
  dropped_as-IsHalfway s (some err) h v = absurd (none_of_err err h)

  kept_as-IsHalfway :
      (s : Store) (e : Option StoreError)
      → e ≡ none
      → IsHalfway recs (record z { store = s; restored = z.restored ++ id ∷ [] })
      → IsHalfway recs (kept_as id z (s, e)).0
  kept_as-IsHalfway s none h v = v
  kept_as-IsHalfway s (some err) h v = absurd (none_of_err err h)

  rekeyed-IsHalfway :
      (s : Store) (e : Option StoreError)
      → e ≡ none
      → IsHalfway recs (kept_as id z (set_torrent (record rec { id = id }) s)).0
      → IsHalfway recs (rekeyed rec id z (s, e)).0
  rekeyed-IsHalfway s none h v = v
  rekeyed-IsHalfway s (some err) h v = absurd (none_of_err err h)

  apart_after :
      (j : Text) → contains (z.restored ++ id ∷ []) j ≡ true → contains (record_ids recs) j ≡ false
  apart_after j h = ground (
    arith,
    half.apart j,
    contains-append z.restored id j,
    later,
    text_eqb_iff id j,
    same_test (contains (record_ids recs)) id j,
  )

  resume_one-IsHalfway : IsHalfway recs (resume_one rec (some id) z).0
  unfolding resume_one
  resume_one-IsHalfway = elim (Bool-cases (contains z.restored id)) [
    | inl q ↦ elim (Bool-cases (id == rec.id)) [
      | inl r ↦
          absurd (ground (arith, half.apart id q, text_eqb_iff id rec.id, text_eqb_iff rec.id id))
      | inr r ↦
          let (live, ids) = delete_torrent-ids rec.id z.store half.live in
          simp (q, r)
            (dropped_as-IsHalfway _ _ (delete_torrent-ok rec.id z.store half.live) (record {
              live = live;
              ids = λ j. ground (
                arith,
                ids j,
                half.ids j,
                half.apart j,
                half.distinct.0,
                text_eqb_iff rec.id j,
                same_test (contains (record_ids recs)) rec.id j,
              );
              apart = λ j h. ground (arith, half.apart j h);
              distinct = half.distinct.1;
            }))
    ]
    | inr q ↦ elim (Bool-cases (id == rec.id)) [
      | inl r ↦
          simp (q, r)
            (record {
              live = half.live;
              ids = λ j. ground (
                arith,
                half.ids j,
                contains-append z.restored id j,
                text_eqb_iff id rec.id,
                text_eqb_iff id j,
                text_eqb_iff rec.id j,
              );
              apart = apart_after;
              distinct = half.distinct.1;
            })
      | inr r ↦
          let (live, ids) = delete_torrent-ids rec.id z.store half.live in
          let s = (delete_torrent rec.id z.store).0 in
          let (live', ids') = set_torrent-ids (record rec { id = id }) s live named in
          simp (q, r)
            (rekeyed-IsHalfway s _ (delete_torrent-ok rec.id z.store half.live) (
              kept_as-IsHalfway _ _ (set_torrent-ok (record rec { id = id }) s live named) (record {
                live = live';
                ids = λ j. ground (
                  arith,
                  ids j,
                  ids' j,
                  half.ids j,
                  half.apart j,
                  half.distinct.0,
                  contains-append z.restored id j,
                  text_eqb_iff rec.id j,
                  same_test (contains (record_ids recs)) rec.id j,
                );
                apart = apart_after;
                distinct = half.distinct.1;
              })))
    ]
  ]

if-IsHalfway :
    (ok : Bool) (rest : Resuming × Bool) (z : Resuming)
    → (rest.1 ≡ true → IsHalfway [] rest.0)
    → (if ok then rest else (z, false)).1 ≡ true
    → IsHalfway [] (if ok then rest else (z, false)).0
if-IsHalfway true rest z f h = f h
if-IsHalfway false rest z f h = absurd (false≢true h)

-- A record's ID is free in an engine that tracks none of the records to come.
want_free :
    (rec : TorrentRecord) (recs : List TorrentRecord) (tracked : List Text)
    → AllPass (is_past (rec ∷ recs)) tracked
    → contains tracked rec.id ≡ false
want_free rec recs tracked past = elim (Bool-cases (contains tracked rec.id)) [
  | inl q ↦ absurd (ground (arith, past rec.id q, text_eqb_iff rec.id rec.id))
  | inr q ↦ q
]

resume_from-IsHalfway :
    (names : Numbering) (plan : ℕ → Restoring) (i : ℕ) (recs : List TorrentRecord) (ids : Ids)
    (z : Resuming)
    → contains (record_ids recs) [] ≡ false
    → AllPass (is_past recs) ids.tracked
    → IsHalfway recs z
    → (resume_from names plan i recs ids z).1 ≡ true
    → IsHalfway [] (resume_from names plan i recs ids z).0
unfolding resume_from
resume_from-IsHalfway names plan i [] ids z named past half ok = half
resume_from-IsHalfway names plan i (rec ∷ recs) ids z named past half ok =
    let ids' = (restore names (plan i) rec.id ids).0 in
    let answer = (restore names (plan i) rec.id ids).1 in
    let (past', passes) =
      restore-AllPass (is_past recs) names rec.id (ground arith) (ground (arith, half.distinct.0))
        (plan i) ids (want_free rec recs ids.tracked past) (λ id h. ground (arith, past id h)) in
    elim (Option-cases answer) [
      | inl q ↦ absurd (false≢true (rw (resume_from, q) at ok))
      | inr (id, q) ↦
          let z' = resume_one rec answer z in
          let good : is_past recs id ≡ true = subst (AnswerPasses (is_past recs)) q passes in
          if-IsHalfway z'.1 (resume_from names plan (i + 1) recs ids' z'.0) z'.0
            (resume_from-IsHalfway names plan (i + 1) recs ids' z'.0 (ground arith) past' (
              subst (λ o. IsHalfway recs (resume_one rec o z).0) (sym q)
                (resume_one-IsHalfway rec recs id z half (ground arith) (ground arith))))
            ok
    ]

-- A Resume of an open store, whose records have different IDs, none of them empty, into an engine
-- that tracks no torrent under one of these IDs, and none under an empty one: where it ends without
-- an error it leaves a record for exactly the IDs that Restore gave. Records are re-keyed,
-- duplicates dropped, and none is lost, however each Restore goes.
pub resume_session-ids :
    (names : Numbering) (plan : ℕ → Restoring) (ids : Ids) (s : Session) (id : Text)
    → s.store.closed ≡ false
    → Distinct (record_ids s.store.torrents)
    → contains (record_ids s.store.torrents) [] ≡ false
    → ((t : Text)
        → contains ids.tracked t ≡ true
        → not (contains (record_ids s.store.torrents) t) && not (t == []) ≡ true)
    → (resume_session names plan ids s).2 ≡ true
    → contains (record_ids (resume_session names plan ids s).0.store.torrents) id
      ≡ contains (resume_session names plan ids s).1.restored id
unfolding resume_session
resume_session-ids names plan ids s id live d named apart ok =
    let recs = stable_sort is_older s.store.torrents in
    let same : (j : Text)
        → contains (record_ids recs) j ≡ contains (record_ids s.store.torrents) j =
      contains-stable_sort is_older (λ r. r.id) s.store.torrents in
    let half =
      resume_from-IsHalfway names plan 0 recs ids
        (record { store = s.store; restored = []; dropped = [] }) (same [] ∙ named)
        (λ t h. ground (arith, apart t h, same t))
        (record {
          live = live;
          ids = λ j. sym (same j);
          apart = λ j h. absurd (false≢true h);
          distinct = Distinct-stable_sort is_older (λ r. r.id) s.store.torrents d;
        })
        ok in
    half.ids id ∙ or-false (contains (resume_session names plan ids s).1.restored id)
