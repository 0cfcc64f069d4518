-- ===== src/Storage/Reopened.antt =====
-- internal/store: what Open reads from the file that a flush wrote.
use mathlib.Core.List.{append_assoc, append-nil}
use tortui.Lifecycle.Session.{TorrentRecord, put, record_ids}
use tortui.Base.{
  List, Distinct, Text, contains, ℕ, ◌++◌, ◌||◌, ◌≡◌, ◌==◌, false, sym, ◌∷◌, ◌<◌, [], arith, true,
  lt→ltb, refl, text_eq, text_eqb_iff, ap, subst, length, ◌∙◌, ◌≤◌,
}
use tortui.Storage.{
  Store, load, write_history, write_torrents, put_history, written, HistoryRecord, last_seq,
  max_history_entries,
}
use tortui.Storage.Valid.{Ascending, IsValid}

ids-append :
    (b : List TorrentRecord) (r : TorrentRecord) (rs : List TorrentRecord) (id : Text)
    → contains (record_ids b) id || r.id == id ≡ true
    → contains (record_ids (b ++ r ∷ rs)) id ≡ true
ids-append [] r rs id h = ground arith
ids-append (x ∷ b) r rs id h = ground (arith, ids-append b r rs id)

Distinct-earlier :
    (b : List TorrentRecord) (r : TorrentRecord) (rs : List TorrentRecord)
    → Distinct (record_ids (b ++ r ∷ rs))
    → contains (record_ids b) r.id ≡ false
Distinct-earlier [] r rs d = refl
Distinct-earlier (x ∷ b) r rs (h, d) = ground (
  arith,
  Distinct-earlier b r rs d,
  ids-append b r rs x.id,
  text_eqb_iff x.id r.id,
  text_eqb_iff r.id x.id,
)

put_new :
    (r : TorrentRecord) (b : List TorrentRecord)
    → contains (record_ids b) r.id ≡ false
    → put r b ≡ b ++ r ∷ []
put_new r [] h = refl
put_new r (x ∷ b) h = ground (arith, put_new r b)

write_torrents_lem :
    (rs b : List TorrentRecord) → Distinct (record_ids (b ++ rs)) → write_torrents rs b ≡ b ++ rs
unfolding write_torrents
write_torrents_lem [] b d = sym (append-nil b)
write_torrents_lem (r ∷ rs) b d =
    ap (write_torrents rs) (put_new r b (Distinct-earlier b r rs d))
    ∙ write_torrents_lem rs (b ++ r ∷ [])
        (subst (λ l. Distinct (record_ids l)) (sym (append_assoc b (r ∷ []) rs)) d)
    ∙ append_assoc b (r ∷ []) rs

Ascending-earlier :
    (lo hi : ℕ) (b : List HistoryRecord) (r : HistoryRecord) (rs : List HistoryRecord)
    → Ascending lo hi (b ++ r ∷ rs)
    → lo < r.seq
unfolding Ascending
Ascending-earlier lo hi [] r rs (h, a) = h
Ascending-earlier lo hi (x ∷ b) r rs (h, a) = omega (arith, Ascending-earlier x.seq hi b r rs a)

put_history_last :
    (lo hi : ℕ) (b : List HistoryRecord) (r : HistoryRecord) (rs : List HistoryRecord)
    → Ascending lo hi (b ++ r ∷ rs)
    → put_history r b ≡ b ++ r ∷ []
unfolding Ascending put_history
put_history_last lo hi [] r rs a = refl
put_history_last lo hi (x ∷ b) r rs (h, a) =
    ground (arith, put_history_last x.seq hi b r rs a, Ascending-earlier x.seq hi b r rs a)

write_history_lem :
    (lo hi : ℕ) (rs b : List HistoryRecord)
    → Ascending lo hi (b ++ rs)
    → write_history rs b ≡ b ++ rs
unfolding write_history
write_history_lem lo hi [] b a = sym (append-nil b)
write_history_lem lo hi (r ∷ rs) b a =
    ap (write_history rs) (put_history_last lo hi b r rs a)
    ∙ write_history_lem lo hi rs (b ++ r ∷ [])
        (subst (Ascending lo hi) (sym (append_assoc b (r ∷ []) rs)) a)
    ∙ append_assoc b (r ∷ []) rs

Ascending-last_seq :
    (lo hi : ℕ) (rs : List HistoryRecord) → Ascending lo hi rs → Ascending lo (last_seq lo rs) rs
unfolding Ascending
Ascending-last_seq lo hi [] a = omega arith
Ascending-last_seq lo hi (r ∷ rs) (h, a) =
    rw (lt→ltb lo r.seq h) (h, Ascending-last_seq r.seq hi rs a)

module _ (s : Store) (v : IsValid s) where
  torrents_kept : write_torrents (write_torrents s.contents.torrents []) [] ≡ s.contents.torrents
  torrents_kept =
      let once = write_torrents_lem s.contents.torrents [] v.ids in
      ap (λ l. write_torrents l []) once ∙ once

  history_kept : write_history s.contents.history [] ≡ s.contents.history
  history_kept = write_history_lem 0 s.history_seq s.contents.history [] v.queries

-- A valid store that was written is the store that Open reads: the same records, queries in the same
-- order, preferences and destinations; and it is valid.
pub load-written :
    (s : Store)
    → IsValid s
    → ((load (written s.contents)).contents ≡ s.contents) × IsValid (load (written s.contents))
unfolding load written
load-written s v = (
  λ i. record s.contents { torrents = torrents_kept s v i; history = history_kept s v i },
  record {
    ids = subst (λ l. Distinct (record_ids l)) (sym (torrents_kept s v)) v.ids;
    queries =
        subst (λ l. Ascending 0 (last_seq 0 l) l) (sym (history_kept s v))
          (Ascending-last_seq 0 s.history_seq s.contents.history v.queries);
    few = subst (λ l. length l ≤ max_history_entries) (sym (history_kept s v)) v.few;
    paths = v.paths;
  },
)
