-- ===== src/Engine/Downloads/Fetched.antt =====
-- internal/engine/anacrolix/engine.go: fetchAndAttach claims an infohash without recording it.
use tortui.Engine.Downloads.{find, amend, Tracked, Engine, Torrent, active}
use tortui.Base.{
  List, Text, ◌==◌, none, ◌≡◌, ◌++◌, false, inr, some, [], ◌∷◌, arith, refl, text_eqb_iff, text_eq,
  Bool, Bool-cases, Option, subst, not, ◌&&◌, leb, inl, sym, ◌∙◌, ap,
}
use tortui.Engine.Downloads.Intake.{
  scan_claim, publish, Provenance, LeftView, claim_fetched, find_or_track, add_new, begun,
  claim_info_hash, published, take_claim, untrack_all, check_left, new_tracked, free,
}
use tortui.Engine.Downloads.Slots.{find-amend}
use tortui.Engine.Downloads.NoPanic.{published_id}
use tortui.Engine.{queued}
use tortui.Engine.Downloads.Promotion.{begun_id}

scan_claim_self :
    (hex : Text) (id : Text) (trs : List Tracked)
    → scan_claim hex none trs ≡ inr []
    → scan_claim hex (some id) trs ≡ inr []
unfolding scan_claim
scan_claim_self hex id [] h = refl
scan_claim_self hex id (x ∷ trs) h = ground (arith, scan_claim_self hex id trs)

find-append :
    (j : Text) (trs : List Tracked) (tr x : Tracked)
    → find j trs ≡ some x
    → find j (trs ++ tr ∷ []) ≡ some x
unfolding find
find-append j [] tr x h = cc
find-append j (y ∷ trs) tr x h = ground (arith, find-append j trs tr x)

find-append_new :
    (trs : List Tracked) (tr : Tracked)
    → find tr.id trs ≡ none
    → find tr.id (trs ++ tr ∷ []) ≡ some tr
unfolding find
find-append_new [] tr h = ground (arith, text_eqb_iff tr.id tr.id)
find-append_new (y ∷ trs) tr h = ground (arith, find-append_new trs tr)

pub find-amend_other :
    (id j : Text) (f : Tracked → Tracked) (trs : List Tracked)
    → (id == j) ≡ false
    → ((tr : Tracked) → (f tr).id ≡ tr.id)
    → find j (amend id f trs) ≡ find j trs
unfolding find amend
find-amend_other id j f [] n h = refl
find-amend_other id j f (x ∷ trs) n h = ground (
  arith,
  find-amend_other id j f trs n h,
  h x,
  text_eqb_iff x.id id,
  text_eqb_iff x.id j,
  text_eqb_iff id j,
)

claim_info_hash-fresh :
    (hex : Text) (self : Option Text) (view : LeftView) (trs : List Tracked)
    → scan_claim hex self trs ≡ inr []
    → claim_info_hash hex self view trs ≡ free []
unfolding claim_info_hash check_left
claim_info_hash-fresh [] self view trs h = refl
claim_info_hash-fresh (c ∷ hex) self view trs h = rw (h, claim_info_hash) refl

-- The entry that an add of a new infohash appends.
add_new-entry :
    (hex id dest : Text) (prov : Provenance) (e : Engine)
    → (y : Tracked) × ((add_new hex id (begun (new_tracked id dest prov)) e).0.torrents
        ≡ e.torrents ++ y ∷ [])
      × (y.id ≡ id)
      × (y.info_hash ≡ hex)
      × (y.refused ≡ false)
unfolding begun new_tracked
add_new-entry hex id dest prov e =
    let tr = begun (new_tracked id dest prov) in
    elim (Bool-cases (not tr.paused && leb e.max_active (active e.torrents))) [
      | inl b ↦ (
        record tr { info_hash = hex; state = queued; spec = some hex },
        rw b refl,
        begun_id id dest prov,
        refl,
        ground arith,
      )
      | inr b ↦
          (record tr { info_hash = hex }, rw b refl, begun_id id dest prov, refl, ground arith)
    ]

closed-add_new :
    (hex id : Text) (tr : Tracked) (e : Engine) → (add_new hex id tr e).0.closed ≡ e.closed
closed-add_new hex id tr e = ground arith

added_fresh :
    (hex id dest : Text) (prov : Provenance) (view : LeftView) (e : Engine)
    → e.closed ≡ false
    → scan_claim hex none e.torrents ≡ inr []
    → (find_or_track hex id dest prov view e).0
      ≡ (add_new hex id (begun (new_tracked id dest prov)) e).0
unfolding find_or_track take_claim untrack_all
added_fresh hex id dest prov view e up h =
    simp (up, claim_info_hash-fresh hex none view e.torrents h)

claimed_fresh :
    (hex id : Text) (view : LeftView) (e : Engine)
    → scan_claim hex none e.torrents ≡ inr []
    → (claim_fetched hex id view e).0 ≡ e
unfolding claim_fetched untrack_all
claimed_fresh hex id view e h =
    simp (claim_info_hash-fresh hex (some id) view e.torrents (scan_claim_self hex id e.torrents h))

-- Two entries, neither refused, for one infohash.
abbrev pub TwoEntries : Text → Text → Text → Engine → Type 0
TwoEntries hex id id' e =
    (a : Tracked) × (b : Tracked) × (find id e.torrents ≡ some a)
    × (find id' e.torrents ≡ some b)
    × (a.info_hash ≡ hex)
    × (b.info_hash ≡ hex)
    × (a.refused ≡ false)
    × (b.refused ≡ false)

publish-TwoEntries :
    (e : Engine) (hex id id' : Text) (x y : Tracked) (t : Torrent) (held : Bool)
    → e.closed ≡ false
    → t.info_hash ≡ hex
    → (id == id') ≡ false
    → find id e.torrents ≡ some x
    → find id' e.torrents ≡ some y
    → y.info_hash ≡ hex
    → x.refused ≡ false
    → y.refused ≡ false
    → TwoEntries hex id id' (publish id t held e)
unfolding publish published
publish-TwoEntries e hex id id' x y t held up same other here there hashed live unrefused =
    let f = published t held in
    simp (up) (
      f x,
      y,
      find-amend id f e.torrents x here (published_id t held x),
      find-amend_other id id' f e.torrents other (published_id t held) ∙ there,
      same,
      hashed,
      live,
      unrefused,
    )

-- The entry `id` is one whose .torrent is still being fetched, and `id'` one that is added by the
-- same infohash, which no entry has, once fetchAndAttach has claimed it and before attach publishes
-- it: two entries, neither refused, then stand for one infohash.
pub fetched_twice :
    (e : Engine) (hex id id' dest : Text) (prov : Provenance) (view view' : LeftView) (x : Tracked)
    (t : Torrent) (held : Bool)
    → e.closed ≡ false
    → t.info_hash ≡ hex
    → (id == id') ≡ false
    → find id e.torrents ≡ some x
    → x.refused ≡ false
    → find id' e.torrents ≡ none
    → scan_claim hex none e.torrents ≡ inr []
    → TwoEntries hex id id' (
        publish id t held (find_or_track hex id' dest prov view' (claim_fetched hex id view e).0).0)
fetched_twice e hex id id' dest prov view view' x t held up same other found live fresh unused =
    let added = (add_new hex id' (begun (new_tracked id' dest prov)) e).0 in
    let (y, grown, named, hashed, unrefused) = add_new-entry hex id' dest prov e in
    let here : find id added.torrents ≡ some x = rw grown (find-append id e.torrents y x found) in
    let there : find id' added.torrents ≡ some y = rw grown (
      subst (λ j. find j e.torrents ≡ none → find j (e.torrents ++ y ∷ []) ≡ some y) named
        (find-append_new e.torrents y) fresh) in
    let reached : added
        ≡ (find_or_track hex id' dest prov view' (claim_fetched hex id view e).0).0 =
      sym (added_fresh hex id' dest prov view' e up unused)
      ∙ ap (λ w. (find_or_track hex id' dest prov view' w).0)
          (sym (claimed_fresh hex id view e unused)) in
    subst (λ w. TwoEntries hex id id' (publish id t held w)) reached
      (publish-TwoEntries added hex id id' x y t held
        (closed-add_new hex id' (begun (new_tracked id' dest prov)) e ∙ up) same other here there
        hashed live unrefused)
