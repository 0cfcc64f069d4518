-- ===== src/Lifecycle/Session/Saved.antt =====
-- internal/lifecycle/session.go: the records that a save leaves.
use tortui.Base.{
  Text, List, Option, ℕ, contains, ◌≡◌, false, some, ◌&&◌, ◌==◌, [], keep, not, ◌||◌, Bool-cases,
  arith, is_some, text_eq, ◌∷◌, inl, refl, text_eqb_iff, inr, ◌∙◌, Bool, Option-cases, true, ap,
  ◌++◌,
}
use tortui.Lifecycle.Session.{
  TorrentRecord, delete_torrent, prune, save_each, set_torrent, Store, ResumeData, record_ids, put,
  merge_record, found_or_zero, save, save_tracked, Session,
}

put-ids :
    (rec : TorrentRecord) (rs : List TorrentRecord) (id : Text)
    → contains (record_ids (put rec rs)) id ≡ contains (record_ids rs) id || rec.id == id
put-ids rec [] id = ground arith
put-ids rec (r ∷ rs) id = ground (
  arith,
  put-ids rec rs id,
  text_eqb_iff r.id rec.id,
  text_eqb_iff r.id id,
  text_eqb_iff rec.id id,
)

pub set_torrent-ids :
    (rec : TorrentRecord) (s : Store)
    → s.closed ≡ false
    → (rec.id == []) ≡ false
    → ((set_torrent rec s).0.closed ≡ false)
      × ((id : Text)
          → contains (record_ids (set_torrent rec s).0.torrents) id
            ≡ contains (record_ids s.torrents) id || rec.id == id)
unfolding set_torrent
set_torrent-ids rec s live named = simp (live, named) (refl, λ id. put-ids rec s.torrents id)

kept-ids :
    (j : Text) (rs : List TorrentRecord) (id : Text)
    → contains (record_ids (keep (λ r. not (r.id == j)) rs)) id
      ≡ contains (record_ids rs) id && not (j == id)
kept-ids j [] id = refl
kept-ids j (r ∷ rs) id =
    ground (arith, kept-ids j rs id, text_eqb_iff r.id j, text_eqb_iff r.id id, text_eqb_iff j id)

pub delete_torrent-ids :
    (j : Text) (s : Store)
    → s.closed ≡ false
    → ((delete_torrent j s).0.closed ≡ false)
      × ((id : Text)
          → contains (record_ids (delete_torrent j s).0.torrents) id
            ≡ contains (record_ids s.torrents) id && not (j == id))
unfolding delete_torrent
delete_torrent-ids j s live = elim (Bool-cases (contains (record_ids s.torrents) j)) [
  | inl q ↦ simp (live, q) (refl, λ id. kept-ids j s.torrents id)
  | inr q ↦ simp (live, q) (refl, λ id. ground (arith, text_eqb_iff j id))
]

-- A test of two equal texts.
pub same_test : (p : Text → Bool) (a b : Text) → (a == b) ≡ true → p a ≡ p b
same_test p a b h = ap p ((text_eqb_iff a b).0 h)

prune-ids :
    (tracked : List Text) (rs : List TorrentRecord) (s : Store) (id : Text)
    → s.closed ≡ false
    → contains (record_ids (prune tracked rs s).torrents) id
      ≡ contains (record_ids s.torrents) id
        && (contains tracked id || not (contains (record_ids rs) id))
unfolding prune
prune-ids tracked [] s id live = ground arith
prune-ids tracked (r ∷ rs) s id live = elim (Bool-cases (contains tracked r.id)) [
  | inl q ↦
      rw (prune, q)
        (prune-ids tracked rs s id live ∙ (ground (arith, same_test (contains tracked) r.id id)))
  | inr q ↦
      let (live', ids) = delete_torrent-ids r.id s live in
      rw (prune, q)
        (prune-ids tracked rs (delete_torrent r.id s).0 id live'
          ∙ rw (ids id) (ground (arith, same_test (contains tracked) r.id id)))
]

-- The engine gives each torrent's data under that torrent's id.
abbrev pub HasOwnIds : (Text → Option ResumeData) → Type 0
HasOwnIds resume_data = (id : Text) (d : ResumeData) → resume_data id ≡ some d → d.id ≡ id

save_each-ids :
    (safe_name : Text → Text) (now : ℕ) (resume_data : Text → Option ResumeData) (ids : List Text)
    (s : Store)
    → s.closed ≡ false
    → contains ids [] ≡ false
    → HasOwnIds resume_data
    → let (s', tracked, failed) = save_each safe_name now resume_data ids s in
      (s'.closed ≡ false)
      × ((id : Text)
          → (contains (record_ids s'.torrents) id
              ≡ contains (record_ids s.torrents) id || contains ids id && is_some (resume_data id))
            × (contains tracked id ≡ contains ids id && is_some (resume_data id))
            × (contains failed id ≡ contains ids id && not (is_some (resume_data id))))
unfolding save_each merge_record
save_each-ids safe_name now resume_data [] s live named own =
    (live, λ id. (ground arith, refl, refl))
save_each-ids safe_name now resume_data (x ∷ ids) s live named own =
    let same : (id : Text) → (x == id) ≡ true → is_some (resume_data x) ≡ is_some (resume_data id) =
      λ id. same_test (λ y. is_some (resume_data y)) x id in
    elim (Option-cases (resume_data x)) [
      | inl q ↦
          let (live', rest) =
            save_each-ids safe_name now resume_data ids s live (ground arith) own in
          rw (save_each, q)
            (
              live',
              λ id.
                  let (a, b, c) = rest id in
                  (ground (arith, same id), ground (arith, same id), ground (arith, same id)),
            )
      | inr (d, q) ↦
          let rec = merge_record safe_name (found_or_zero x s) d now in
          let mine : rec.id ≡ x = own x d q in
          let empty : (x == []) ≡ false = ground arith in
          let (up, put) = set_torrent-ids rec s live (ap (λ y. y == []) mine ∙ empty) in
          let (live', rest) =
            save_each-ids safe_name now resume_data ids (set_torrent rec s).0 up (ground arith)
              own in
          rw (save_each, q)
            (
              live',
              λ id.
                  let (a, b, c) = rest id in
                  let p = put id in
                  (
                    ground (arith, same id, ap (λ o. is_some o) q, ap (λ y. y == id) mine),
                    ground (arith, same id),
                    ground (arith, same id),
                  ),
            )
    ]

contains-append_list :
    (xs ys : List Text) (id : Text) → contains (xs ++ ys) id ≡ contains xs id || contains ys id
contains-append_list [] ys id = refl
contains-append_list (x ∷ xs) ys id = ground (arith, contains-append_list xs ys id)

contains-keep :
    (p : Text → Bool) (xs : List Text) (id : Text)
    → contains (keep p xs) id ≡ contains xs id && p id
contains-keep p [] id = refl
contains-keep p (x ∷ xs) id = ground (arith, contains-keep p xs id, same_test p x id)

-- A save leaves a record for exactly these torrents: those that the engine lists and gives data for,
-- and, with the record it had, a listed one whose data fails and which is listed still. Every other
-- record is dropped. The session has resumed and is not closed, the store is open, and the engine's
-- ids are not empty and its data carries them.
pub save-ids :
    (safe_name : Text → Text) (now : ℕ) (resume_data : Text → Option ResumeData)
    (ids later : List Text) (s : Session) (id : Text)
    → s.closed ≡ false
    → s.resumed ≡ true
    → s.store.closed ≡ false
    → contains ids [] ≡ false
    → HasOwnIds resume_data
    → let saved = record_ids (save safe_name now resume_data ids later s).store.torrents in
      contains saved id
      ≡ contains ids id && is_some (resume_data id)
        || contains (record_ids s.store.torrents) id && contains ids id && contains later id
unfolding save save_tracked
save-ids safe_name now resume_data ids later s id live resumed up named own =
    let (up', all) = save_each-ids safe_name now resume_data ids s.store up named own in
    let (a, b, c) = all id in
    let (s', tracked, failed) = save_each safe_name now resume_data ids s.store in
    let kept = tracked ++ keep (contains failed) later in
    let p = prune-ids kept s'.torrents s' id up' in
    let t = contains-append_list tracked (keep (contains failed) later) id in
    let f = contains-keep (contains failed) later id in simp (live, resumed) (p ∙ ground arith)
