-- ===== src/Lifecycle/Session/Resume/Minted.antt =====
-- internal/engine/anacrolix/resume.go: the IDs that Restore gives where the one it is asked for is
-- free.
use tortui.Base.{
  Text, ℕ, ◌≡◌, contains, true, false, some, none, ◌==◌, [], ◌∷◌, ◌++◌, List, arith, get_elem?,
  keep, not, contains-append, text_eqb_iff, Option, Bool, text_eq, false≢true, refl, suc, zero,
}
use tortui.Lifecycle.Session.Resume.{
  Ids, Numbering, mint_id, Restoring, restore, attempted, Attempt, track_minted, errs, tracks,
  retracks, joins, moved_past,
}
use tortui.Lifecycle.Session.Saved.{same_test}

mint_id-free :
    (names : Numbering) (want : Text) (ids : Ids)
    → want == [] ≡ false
    → contains ids.tracked want ≡ false
    → mint_id names want ids ≡ some (want, moved_past (names.scan want) ids.next_id)
unfolding mint_id
mint_id-free names want ids named free = rw (named, free) refl

-- A test that every tracked torrent's ID passes, and the ID that is asked for too.
module _ (ok : Text → Bool) where
  abbrev pub AllPass : List Text → Type 0
  AllPass tracked = (id : Text) → contains tracked id ≡ true → ok id ≡ true

  abbrev pub AnswerPasses : Option Text → Type 0
  AnswerPasses none = Unit
  AnswerPasses (some id) = ok id ≡ true

  AllPass-keep :
      (p : Text → Bool) (tracked : List Text) → AllPass tracked → AllPass (keep p tracked)
  AllPass-keep p [] all id h = absurd (false≢true h)
  AllPass-keep p (x ∷ tracked) all id h =
      let rest = AllPass-keep p tracked (λ j k. all j (ground arith)) id in ground (arith, all id)

  contains-keep_free :
      (p : Text → Bool) (tracked : List Text) (id : Text)
      → contains tracked id ≡ false
      → contains (keep p tracked) id ≡ false
  contains-keep_free p [] id h = refl
  contains-keep_free p (x ∷ tracked) id h =
      let rest = contains-keep_free p tracked id (ground arith) in ground arith

  AllPass-get : (tracked : List Text) (i : ℕ) → AllPass tracked → AnswerPasses (get_elem? tracked i)
  AllPass-get [] i all = tt
  AllPass-get (x ∷ tracked) zero all = all x (ground (arith, text_eqb_iff x x))
  AllPass-get (x ∷ tracked) (suc i) all = AllPass-get tracked i (λ id h. all id (ground arith))

  AllPass-append :
      (tracked : List Text) (want : Text)
      → AllPass tracked
      → ok want ≡ true
      → AllPass (tracked ++ want ∷ [])
  AllPass-append tracked want all own id h =
      ground (arith, all id, contains-append tracked want id, same_test ok want id)

  module _ (names : Numbering) (want : Text) (named : want == [] ≡ false)
      (own : ok want ≡ true) where
    track_minted-AllPass :
        (ids : Ids)
        → contains ids.tracked want ≡ false
        → AllPass ids.tracked
        → let (ids', answer) = track_minted ids (mint_id names want ids) in
          AllPass ids'.tracked × AnswerPasses answer
    track_minted-AllPass ids free all =
        rw (mint_id-free names want ids named free) (AllPass-append ids.tracked want all own, own)

    attempted-AllPass :
        (a : Attempt) (ids : Ids)
        → contains ids.tracked want ≡ false
        → AllPass ids.tracked
        → let (ids', answer) = attempted names a want ids in
          AllPass ids'.tracked × AnswerPasses answer
    attempted-AllPass errs ids free all = (all, tt)
    attempted-AllPass tracks ids free all = track_minted-AllPass ids free all
    attempted-AllPass retracks ids free all = rw (mint_id-free names want ids named free) (
        track_minted-AllPass (record ids { next_id = moved_past (names.scan want) ids.next_id })
          free all)
    attempted-AllPass (joins i) ids free all = (all, AllPass-get ids.tracked i all)

    pub restore-AllPass :
        (r : Restoring) (ids : Ids)
        → contains ids.tracked want ≡ false
        → AllPass ids.tracked
        → let (ids', answer) = restore names r want ids in
          AllPass ids'.tracked × AnswerPasses answer
    unfolding restore
    restore-AllPass r ids free all =
        attempted-AllPass r.attempt
          (record ids { tracked = keep (λ id. not (contains r.gone id)) ids.tracked })
          (contains-keep_free (λ id. not (contains r.gone id)) ids.tracked want free)
          (AllPass-keep (λ id. not (contains r.gone id)) ids.tracked all)
