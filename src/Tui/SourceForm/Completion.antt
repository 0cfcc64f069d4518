-- ===== src/Tui/SourceForm/Completion.antt =====
-- internal/tui/pathcomplete.go: what a list of matches completes a text to.
pub mod Prefix
use tortui.Base.{
  Text, ℕ, Bool, List, ◌∷◌, Option, [], length, suc, if◌then◌else◌, none, zero, ltb, some, negsuc,
  pos,
}
use tortui.Engine.Paths.{has_prefix}
use tortui.Tui.SourceForm.{PathCompletion}

-- p[:len(p)-1]
abbrev pub but_last : Text → Text
but_last [] = []
but_last (c ∷ []) = []
but_last (c ∷ d ∷ s) = c ∷ but_last (d ∷ s)

-- for p is not empty and fails the test { p = p[:len(p)-1] }; the fuel is the length of `p`.
unfoldable pub shorten : ℕ → (Text → Bool) → Text → Text
shorten zero test p = p
shorten (suc n) test p = let rest = shorten n test (but_last p) in if test p then p else rest

unfoldable pub common_from : Text → List Text → Text
unfolding shorten
common_from p [] = p
common_from p (s ∷ ss) = common_from (shorten (length p) (has_prefix s) p) ss

unfoldable pub longest_common_prefix : (Text → Bool) → List Text → Text
unfolding common_from
longest_common_prefix valid [] = []
longest_common_prefix valid (s ∷ ss) = let p = common_from s ss in shorten (length p) valid p

-- The text to show, and the state to cycle on with.
unfoldable pub apply_completion : (Text → Bool) → Text → List Text → Text × Option PathCompletion
unfolding longest_common_prefix
apply_completion valid input [] = ([], none)
apply_completion valid input (m ∷ []) = (m, none)
apply_completion valid input (m ∷ m' ∷ ms) =
    let lcp = longest_common_prefix valid (m ∷ m' ∷ ms) in
    if ltb (length input) (length lcp)
    then (lcp, some (record { matches = m ∷ m' ∷ ms; idx = negsuc 0; applied = lcp }))
    else (m, some (record { matches = m ∷ m' ∷ ms; idx = pos 0; applied = m }))
