-- ===== src/Engine/Downloads/Space/Reading.antt =====
-- internal/engine/anacrolix/policy.go: the free space that recheckSpace reads.
use tortui.Base.{
  Map, Text, ℕ, Bool, List, Option, ◌==◌, ◌≡◌, some, true, false, none, ◌∷◌, contains,
  if◌then◌else◌, is_some, map, refl, ◌||◌, Bool-cases, arith, inl, insert, ap, inr, [], text_eq,
  text_eqb_iff,
}
use tortui.Engine.Downloads.Space.{Disk, free_space, Writer}

pub free_space_turn :
    (P : Map Text ℕ → Type 0) (b : Bool) (o : Option ℕ) (known failing : Map Text ℕ)
    (read : ℕ → Map Text ℕ)
    → (b ≡ true → P known)
    → (b ≡ false → o ≡ none → P failing)
    → ((m : ℕ) → b ≡ false → o ≡ some m → P (read m))
    → P (if b then known else elim o [ none ↦ failing | some m ↦ read m ])
free_space_turn P true o known failing read x y z = x refl
free_space_turn P false none known failing read x y z = y refl refl
free_space_turn P false (some m) known failing read x y z = z m refl refl

is_some-at :
    {V : Type 0} (m : Map Text V) (j k : Text) → (j == k) ≡ true → is_some (m j) ≡ is_some (m k)
is_some-at m j k q = ap (λ x. is_some (m x)) ((text_eqb_iff j k).0 q)

module _ (disk : Disk) (k : Text) where
  pub free_space-kept :
      (n : ℕ) (ws : List Writer) (free : Map Text ℕ) (failed : Map Text (Unit {0}))
      → free k ≡ some n
      → free_space disk ws free failed k ≡ some n
  unfolding free_space
  free_space-kept n [] free failed known = known
  free_space-kept n (w ∷ ws) free failed known =
      let j = disk.filesystem w.dest in
      let other : is_some (free j) || is_some (failed j) ≡ false → (j == k) ≡ false = λ q.
        elim (Bool-cases (j == k)) [
          | inl same ↦ (let here = is_some-at free j k same in ground arith)
          | inr o ↦ o
        ] in
      free_space_turn (λ m. m k ≡ some n) (is_some (free j) || is_some (failed j))
        (disk.free w.dest) (free_space disk ws free failed)
        (free_space disk ws free (insert j tt failed))
        (λ m. free_space disk ws (insert j m free) failed)
        (λ q. free_space-kept n ws free failed known)
        (λ q o. free_space-kept n ws free (insert j tt failed) known)
        (λ m q o. free_space-kept n ws (insert j m free) failed (rw (other q) known))

  -- The free space of a filesystem that has a writer is read.
  pub free_space-read :
      (n : ℕ) (ws : List Writer) (free : Map Text ℕ) (failed : Map Text (Unit {0}))
      → ((d : Text) → (disk.filesystem d == k) ≡ true → disk.free d ≡ some n)
      → failed k ≡ none
      → free k ≡ none
      → contains (map (λ (w : Writer). disk.filesystem w.dest) ws) k ≡ true
      → free_space disk ws free failed k ≡ some n
  unfolding free_space
  free_space-read n [] free failed on ok start c = ground arith
  free_space-read n (w ∷ ws) free failed on ok start c =
      let j = disk.filesystem w.dest in
      free_space_turn (λ m. m k ≡ some n) (is_some (free j) || is_some (failed j))
        (disk.free w.dest) (free_space disk ws free failed)
        (free_space disk ws free (insert j tt failed))
        (λ m. free_space disk ws (insert j m free) failed)
        (λ q. elim (Bool-cases (j == k)) [
          | inl same ↦
              let a = is_some-at free j k same in let b = is_some-at failed j k same in ground arith
          | inr off ↦ free_space-read n ws free failed on ok start (ground arith)
        ])
        (λ q o. elim (Bool-cases (j == k)) [
          | inl same ↦ let a = on w.dest same in ground arith
          | inr off ↦
              free_space-read n ws free (insert j tt failed) on (rw off ok) start (ground arith)
        ])
        (λ m q o. elim (Bool-cases (j == k)) [
          | inl same ↦
              free_space-kept n ws (insert j m free) failed
                (rw same (let a = on w.dest same in ground arith))
          | inr off ↦
              free_space-read n ws (insert j m free) failed on ok (rw off start) (ground arith)
        ])
