-- ===== src/Engine/Downloads/Queue.antt =====
-- internal/engine/anacrolix/policy.go: whether the ids in the queue are tracked, and each once.
use tortui.Engine.Downloads.{find, Engine, amend, enqueue, forget, insert_at, remove_first, Tracked}
use tortui.Base.{
  List, Text, Distinct, contains, ℕ, ◌≡◌, ◌++◌, ◌==◌, Bool, false, is_some, true, ◌||◌, ◌∷◌, ◌&&◌,
  Bool-cases, [], arith, text_eq, inl, refl, suc, text_eqb_iff, inr, zero, Distinct-append,
}

-- Every id of a list is tracked.
unfoldable pub known : List Tracked → List Text → Bool
unfolding find
known trs [] = true
known trs (id ∷ q) = is_some (find id trs) && known trs q

abbrev pub IsQueue : Engine → Type 0
IsQueue e = (known e.torrents e.queue ≡ true) × Distinct e.queue

pub known-remove_first :
    (trs : List Tracked) (id : Text) (q : List Text)
    → known trs q ≡ true
    → known trs (remove_first id q) ≡ true
unfolding known remove_first
known-remove_first trs id [] h = refl
known-remove_first trs id (x ∷ q) h = ground (arith, known-remove_first trs id q)

contains-remove_first :
    (id j : Text) (q : List Text) → contains q j ≡ false → contains (remove_first id q) j ≡ false
unfolding remove_first
contains-remove_first id j [] h = refl
contains-remove_first id j (x ∷ q) h = ground (arith, contains-remove_first id j q)

pub Distinct-remove_first : (id : Text) (q : List Text) → Distinct q → Distinct (remove_first id q)
unfolding remove_first
Distinct-remove_first id [] d = tt
Distinct-remove_first id (x ∷ q) d = elim (Bool-cases (x == id)) [
  | inl s ↦ rw s d.1
  | inr s ↦ rw s (contains-remove_first id x q d.0, Distinct-remove_first id q d.1)
]

pub removed_first :
    (id : Text) (q : List Text) → Distinct q → contains (remove_first id q) id ≡ false
unfolding remove_first
removed_first id [] d = refl
removed_first id (x ∷ q) d = ground (arith, removed_first id q d.1, text_eqb_iff x id)

find-forget :
    (id j : Text) (trs : List Tracked) → (id == j) ≡ false → find j (forget id trs) ≡ find j trs
unfolding find forget
find-forget id j [] h = refl
find-forget id j (x ∷ trs) h =
    ground
      (arith, find-forget id j trs, text_eqb_iff x.id id, text_eqb_iff x.id j, text_eqb_iff id j)

pub known-forget :
    (id : Text) (trs : List Tracked) (q : List Text)
    → known trs q ≡ true
    → contains q id ≡ false
    → known (forget id trs) q ≡ true
unfolding known
known-forget id trs [] h c = refl
known-forget id trs (x ∷ q) h c =
    ground
      (arith, known-forget id trs q, find-forget id x trs, text_eqb_iff x id, text_eqb_iff id x)

pub found-amend :
    (id : Text) (f : Tracked → Tracked) (j : Text) (trs : List Tracked)
    → ((tr : Tracked) → (f tr).id ≡ tr.id)
    → is_some (find j (amend id f trs)) ≡ is_some (find j trs)
unfolding find amend
found-amend id f j [] h = refl
found-amend id f j (x ∷ trs) h = ground (arith, found-amend id f j trs h, h x)

pub known-amend :
    (id : Text) (f : Tracked → Tracked) (trs : List Tracked) (q : List Text)
    → ((tr : Tracked) → (f tr).id ≡ tr.id)
    → known (amend id f trs) q ≡ known trs q
unfolding known
known-amend id f trs [] h = refl
known-amend id f trs (x ∷ q) h = ground (arith, known-amend id f trs q h, found-amend id f x trs h)

pub found-append :
    (trs : List Tracked) (tr : Tracked) (j : Text)
    → is_some (find j (trs ++ tr ∷ [])) ≡ is_some (find j trs) || tr.id == j
unfolding find
found-append [] tr j = ground arith
found-append (x ∷ trs) tr j = ground (arith, found-append trs tr j)

pub known-append :
    (trs : List Tracked) (tr : Tracked) (q : List Text)
    → known trs q ≡ true
    → known (trs ++ tr ∷ []) q ≡ true
unfolding known
known-append trs tr [] h = refl
known-append trs tr (x ∷ q) h = ground (arith, known-append trs tr q, found-append trs tr x)

known-snoc :
    (trs : List Tracked) (q : List Text) (id : Text)
    → known trs (q ++ id ∷ []) ≡ known trs q && is_some (find id trs)
unfolding known
known-snoc trs [] id = ground arith
known-snoc trs (x ∷ q) id = ground (arith, known-snoc trs q id)

-- A tracked id that joins the queue.
pub enqueue-IsQueue :
    (trs : List Tracked) (id : Text) (q : List Text)
    → known trs q ≡ true
    → Distinct q
    → is_some (find id trs) ≡ true
    → (known trs (enqueue id q) ≡ true) × Distinct (enqueue id q)
unfolding enqueue
enqueue-IsQueue trs id q k d f = elim (Bool-cases (contains q id)) [
  | inl c ↦ rw c (k, d)
  | inr c ↦ rw c (ground (arith, known-snoc trs q id), Distinct-append q id c d)
]

contains-insert_at :
    (n : ℕ) (id j : Text) (q : List Text) → contains (insert_at n id q) j ≡ contains q j || id == j
unfolding insert_at
contains-insert_at zero id j q = ground arith
contains-insert_at (suc n) id j [] = ground arith
contains-insert_at (suc n) id j (x ∷ q) = ground (arith, contains-insert_at n id j q)

pub insert_at-IsQueue :
    (trs : List Tracked) (n : ℕ) (id : Text) (q : List Text)
    → known trs q ≡ true
    → Distinct q
    → is_some (find id trs) ≡ true
    → contains q id ≡ false
    → (known trs (insert_at n id q) ≡ true) × Distinct (insert_at n id q)
unfolding insert_at known
insert_at-IsQueue trs zero id q k d f c = (ground arith, (c, d))
insert_at-IsQueue trs (suc n) id [] k d f c = (ground arith, (refl, tt))
insert_at-IsQueue trs (suc n) id (x ∷ q) k d f c =
    let rest = insert_at-IsQueue trs n id q (ground arith) d.1 f (ground arith) in
    (
      ground arith,
      (ground (arith, contains-insert_at n id x q, text_eqb_iff x id, text_eqb_iff id x), rest.1),
    )
