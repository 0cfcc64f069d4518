-- ===== src/Storage/Valid.antt =====
-- internal/store: what every call of the store keeps of its records.
use tortui.Lifecycle.Session.{TorrentRecord, put, record_ids, set_torrent, delete_torrent}
use tortui.Base.{
  List, Text, ℕ, Distinct, contains, ◌+◌, ◌<◌, Bool-cases, keep, length, suc, ◌≡◌, ◌≤◌, ◌∷◌, ◌++◌,
  ◌-◌, ◌==◌, [], ◌^◌, arith, false, ltb, not, ◌||◌, inl, text_eq, text_eqb_iff, zero, inr, refl,
  subst, true, space_trimmed, contains-without, Distinct-without, nat_eq,
}
use tortui.Storage.{
  Store, capped, change, drop, Change, HistoryRecord, add_history, max_history_entries, set_prefs,
  touch_destination, clear_history, sets, deletes, adds, prefers, touches, clears, next_seq,
  queried,
}

-- The sequence numbers rise, from above `lo` up to `hi`.
unfoldable pub Ascending : ℕ → ℕ → List HistoryRecord → Type 0
Ascending lo hi [] = lo ≤ hi
Ascending lo hi (r ∷ rs) = (lo < r.seq) × Ascending r.seq hi rs

-- Different ids, queries in the order of their numbers, no more than the cap, different paths.
pub record IsValid (s : Store) : Type 0 where
  pub ids : Distinct (record_ids s.contents.torrents)
  pub queries : Ascending 0 s.history_seq s.contents.history
  pub few : length s.contents.history ≤ max_history_entries
  pub paths : Distinct s.contents.destinations

put-ids :
    (rec : TorrentRecord) (rs : List TorrentRecord) (id : Text)
    → contains (record_ids (put rec rs)) id ≡ contains (record_ids rs) id || rec.id == id
put-ids rec [] id = ground arith
put-ids rec (r ∷ rs) id = ground (
  arith,
  put-ids rec rs id,
  text_eqb_iff r.id rec.id,
  text_eqb_iff rec.id id,
  text_eqb_iff r.id id,
)

Distinct-put :
    (rec : TorrentRecord) (rs : List TorrentRecord)
    → Distinct (record_ids rs)
    → Distinct (record_ids (put rec rs))
Distinct-put rec [] d = (refl, tt)
Distinct-put rec (r ∷ rs) (h, d) = elim (Bool-cases (r.id == rec.id)) [
  | inl q ↦
      rw q (subst (λ x. contains (record_ids rs) x ≡ false) ((text_eqb_iff r.id rec.id).0 q) h, d)
  | inr q ↦ rw q (
    ground (arith, put-ids rec rs r.id, text_eqb_iff r.id rec.id, text_eqb_iff rec.id r.id),
    Distinct-put rec rs d,
  )
]

keep-ids :
    (id x : Text) (rs : List TorrentRecord)
    → contains (record_ids rs) x ≡ false
    → contains (record_ids (keep (λ r. not (r.id == id)) rs)) x ≡ false
keep-ids id x [] h = refl
keep-ids id x (r ∷ rs) h = ground (arith, keep-ids id x rs)

Distinct-keep :
    (id : Text) (rs : List TorrentRecord)
    → Distinct (record_ids rs)
    → Distinct (record_ids (keep (λ r. not (r.id == id)) rs))
Distinct-keep id [] d = tt
Distinct-keep id (r ∷ rs) (h, d) = elim (Bool-cases (r.id == id)) [
  | inl q ↦ rw q (Distinct-keep id rs d)
  | inr q ↦ rw q (keep-ids id r.id rs h, Distinct-keep id rs d)
]

Ascending-append :
    (lo hi : ℕ) (rs : List HistoryRecord) (r : HistoryRecord)
    → Ascending lo hi rs
    → hi < r.seq
    → Ascending lo r.seq (rs ++ r ∷ [])
unfolding Ascending
Ascending-append lo hi [] r a h = (omega arith, omega arith)
Ascending-append lo hi (x ∷ rs) r (b, a) h = (b, Ascending-append x.seq hi rs r a h)

Ascending-mono :
    (lo lo' hi : ℕ) (rs : List HistoryRecord) → lo' ≤ lo → Ascending lo hi rs → Ascending lo' hi rs
unfolding Ascending
Ascending-mono lo lo' hi [] h a = omega arith
Ascending-mono lo lo' hi (x ∷ rs) h (b, a) = (omega arith, a)

Ascending-drop :
    (n lo hi : ℕ) (rs : List HistoryRecord) → Ascending lo hi rs → Ascending lo hi (drop n rs)
unfolding Ascending drop
Ascending-drop zero lo hi rs a = a
Ascending-drop (suc n) lo hi [] a = a
Ascending-drop (suc n) lo hi (x ∷ rs) (b, a) =
    Ascending-mono x.seq lo hi (drop n rs) (omega arith) (Ascending-drop n x.seq hi rs a)

length-drop : (n : ℕ) (rs : List HistoryRecord) → length (drop n rs) ≡ length rs - n
unfolding drop
length-drop zero rs = omega arith
length-drop (suc n) [] = omega arith
length-drop (suc n) (x ∷ rs) = omega (arith, length-drop n rs)

Ascending-capped :
    (lo hi : ℕ) (rs : List HistoryRecord) → Ascending lo hi rs → Ascending lo hi (capped rs)
unfolding capped
Ascending-capped lo hi rs a = elim (Bool-cases (ltb max_history_entries (length rs))) [
  | inl q ↦ rw q (Ascending-drop (length rs - max_history_entries) lo hi rs a)
  | inr q ↦ rw q a
]

length-capped : (rs : List HistoryRecord) → length (capped rs) ≤ max_history_entries
unfolding capped
length-capped rs = ground (arith, length-drop (length rs - max_history_entries) rs)

pub change-closed : (c : Change) (s : Store) → s.closed ≡ true → (change c s).0 ≡ s
unfolding change set_torrent delete_torrent add_history set_prefs touch_destination clear_history
change-closed (sets rec) s h = elim (Bool-cases (rec.id == [])) [
  | inl p ↦ simp p refl
  | inr p ↦ simp (p, h) refl
]
change-closed (deletes id) s h = simp h refl
change-closed (adds text now) s h = simp h refl
change-closed (prefers p) s h = simp h refl
change-closed (touches path) s h = elim (Bool-cases (space_trimmed path == [])) [
  | inl p ↦ simp p refl
  | inr p ↦ simp (p, h) refl
]
change-closed clears s h = simp h refl

-- No call of the store leads from a valid store to one that is not, whether it succeeds or is
-- refused, as long as the queries' numbers do not wrap: the ids of the torrents stay different, at
-- most 50 queries are kept, in the order they were made, and no destination is listed twice.
pub change-IsValid :
    (c : Change) (s : Store) → s.history_seq + 1 < 2 ^ 64 → IsValid s → IsValid (change c s).0
unfolding change Ascending set_torrent delete_torrent add_history set_prefs touch_destination
    clear_history
change-IsValid (sets rec) s h v = elim (Bool-cases (rec.id == [])) [
  | inl p ↦ simp p v
  | inr p ↦ elim (Bool-cases s.closed) [
    | inl q ↦ simp (p, q) v
    | inr q ↦
        simp (p, q)
          (record {
            ids = Distinct-put rec s.contents.torrents v.ids;
            queries = v.queries;
            few = v.few;
            paths = v.paths;
          })
  ]
]
change-IsValid (deletes id) s h v = elim (Bool-cases s.closed) [
  | inl q ↦ simp q v
  | inr q ↦ elim (Bool-cases (contains (record_ids s.contents.torrents) id)) [
    | inl p ↦
        simp (q, p)
          (record {
            ids = Distinct-keep id s.contents.torrents v.ids;
            queries = v.queries;
            few = v.few;
            paths = v.paths;
          })
    | inr p ↦ simp (q, p) v
  ]
]
change-IsValid (adds text now) s h v = elim (Bool-cases s.closed) [
  | inl q ↦ simp q v
  | inr q ↦ simp q (record {
    ids = v.ids;
    queries = Ascending-capped 0 (next_seq s) _ (
        Ascending-append 0 s.history_seq s.contents.history (queried s text now) v.queries
          (omega arith));
    few = length-capped (s.contents.history ++ queried s text now ∷ []);
    paths = v.paths;
  })
]
change-IsValid (prefers p) s h v = elim (Bool-cases s.closed) [
  | inl q ↦ simp q v
  | inr q ↦ simp q (record { ids = v.ids; queries = v.queries; few = v.few; paths = v.paths })
]
change-IsValid (touches path) s h v = elim (Bool-cases (space_trimmed path == [])) [
  | inl p ↦ simp p v
  | inr p ↦ elim (Bool-cases s.closed) [
    | inl q ↦ simp (p, q) v
    | inr q ↦
        simp (p, q)
          (record {
            ids = v.ids;
            queries = v.queries;
            few = v.few;
            paths = (
              ground (
                arith,
                contains-without s.contents.destinations path path,
                text_eqb_iff path path,
              ),
              Distinct-without s.contents.destinations path v.paths,
            );
          })
  ]
]
change-IsValid clears s h v = elim (Bool-cases s.closed) [
  | inl q ↦ simp q v
  | inr q ↦
      simp q (record { ids = v.ids; queries = omega arith; few = omega arith; paths = v.paths })
]
