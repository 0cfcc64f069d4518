-- ===== src/Engine/Removal/Names.antt =====
-- internal/engine/anacrolix/engine.go: what the loops over the tracked entries find, as tests on
-- each entry; the order in which Go walks the map does not matter.
use mathlib.Core.List.{Permᴰ}
use mathlib.Core.Bool.{Bool-set}
use mathlib.Core.Logic.{∥∥₁_elim}
use tortui.Base.{
  Text, Bool, Map, List, false, not, ◌≡◌, ◌&&◌, ◌∷◌, arith, is_some, ◌||◌, [], none, true, refl,
  some, Perm, ap, ap₂, ◌∙◌, Bool-cases, inl, inr, Option-cases,
}
use tortui.Engine.Removal.{
  Entry, data_name_used, shared_name_kept, may_be_same_name, DirMatch, is_elsewhere, data_name,
}

abbrev pub any_of : (Entry → Bool) → List Entry → Bool
any_of p [] = false
any_of p (x ∷ xs) = p x || any_of p xs

any_of-Permᴰ : (p : Entry → Bool) {xs ys : List Entry} → Permᴰ xs ys → any_of p xs ≡ any_of p ys
any_of-Permᴰ p Permᴰ.nil = refl
any_of-Permᴰ p (Permᴰ.cons q r) = ap₂ (λ a b. p a || b) q (any_of-Permᴰ p r)
any_of-Permᴰ p (Permᴰ.swap {l} q r) = ground (arith, ap p q, ap p r)
any_of-Permᴰ p (Permᴰ.trans q r) = any_of-Permᴰ p q ∙ any_of-Permᴰ p r

pub any_of-Perm : (p : Entry → Bool) (xs ys : List Entry) → Perm xs ys → any_of p xs ≡ any_of p ys
any_of-Perm p xs ys r = ∥∥₁_elim r (Bool-set (any_of p xs) (any_of p ys)) (any_of-Permᴰ p)

-- An entry at the destination whose data has that name.
abbrev pub takes : (Text → Text → Bool) → Entry → Text → Map Text DirMatch → Entry → Bool
takes fold self name dirs tr =
    not (is_elsewhere self dirs tr)
    && elim (data_name tr) [ none ↦ false | some n ↦ may_be_same_name fold n name ]

-- An entry at the destination that has not named its data.
abbrev pub waits : Entry → Map Text DirMatch → Entry → Bool
waits self dirs tr = not (is_elsewhere self dirs tr) && not (is_some (data_name tr))

-- A refused entry at the destination that keeps data under that name as shared.
abbrev pub shares : (Text → Text → Bool) → Entry → Text → Map Text DirMatch → Entry → Bool
shares fold self name dirs tr =
    not (is_elsewhere self dirs tr) && tr.refused && may_be_same_name fold tr.shared_name name

pub data_name_used_lem :
    (fold : Text → Text → Bool) (self : Entry) (name : Text) (dirs : Map Text DirMatch)
    (trs : List Entry) (pending : Bool)
    → data_name_used fold self name dirs trs pending ≡ (
      any_of (takes fold self name dirs) trs,
      not (any_of (takes fold self name dirs) trs) && (pending || any_of (waits self dirs) trs),
    )
unfolding data_name_used
data_name_used_lem fold self name dirs [] pending = ap (λ b. (false, b)) (ground arith)
data_name_used_lem fold self name dirs (tr ∷ trs) pending =
    let skipped = data_name_used_lem fold self name dirs trs pending in
    let waiting = data_name_used_lem fold self name dirs trs true in
    elim (Bool-cases (is_elsewhere self dirs tr)) [
      | inl q ↦ rw (data_name_used, q) (skipped)
      | inr q ↦ elim (Option-cases (data_name tr)) [
        | inl d ↦
            rw (data_name_used, q, d)
              (waiting ∙ ap (λ b. (any_of (takes fold self name dirs) trs, b)) (ground arith))
        | inr (n, d) ↦ elim (Bool-cases (may_be_same_name fold n name)) [
          | inl m ↦ rw (data_name_used, q, d, m) (refl)
          | inr m ↦ rw (data_name_used, q, d, m) (skipped)
        ]
      ]
    ]

pub shared_name_kept_lem :
    (fold : Text → Text → Bool) (self : Entry) (name : Text) (dirs : Map Text DirMatch)
    (trs : List Entry)
    → shared_name_kept fold self name dirs trs ≡ any_of (shares fold self name dirs) trs
unfolding shared_name_kept may_be_same_name
shared_name_kept_lem fold self name dirs [] = refl
shared_name_kept_lem fold self name dirs (tr ∷ trs) =
    ground (arith, shared_name_kept_lem fold self name dirs trs)
