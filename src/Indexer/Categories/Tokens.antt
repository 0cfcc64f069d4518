-- ===== src/Indexer/Categories/Tokens.antt =====
-- internal/indexer/category.go: the tokens of the categories, read back.
use tortui.Indexer.Categories.{fold_fullwidth, first_specific, token, word_category, words}
use tortui.Indexer.{other, audio, video, image, text, software, dataset, Category}
use tortui.Base.{
  Unicode, ℕ, Bool, Text, fields, ◌≤◌, All, leb, ◌≡◌, ◌&&◌, true, map, ◌∷◌, not, [], ap, ap₂, arith,
  false, codes, ◌∙◌, fields_lem, refl,
}
use tortui.Indexer.Categories.{category_from_string}

-- What package unicode says of the letters a to z.
abbrev pub HasAscii : Unicode → Type 0
HasAscii u = (r : ℕ) → 97 ≤ r → r ≤ 122 → (u.to_lower r ≡ r) × (u.is_letter r ≡ true)

abbrev is_az : ℕ → Bool
is_az r = leb 97 r && leb r 122

fold_fullwidth_az : (r : ℕ) → is_az r ≡ true → fold_fullwidth r ≡ r
unfolding fold_fullwidth
fold_fullwidth_az r h = ground arith

module _ (u : Unicode) (ascii : HasAscii u) where
  folded_az : (s : Text) → All (λ r. is_az r ≡ true) s → map u.to_lower (map fold_fullwidth s) ≡ s
  folded_az [] h = refl
  folded_az (r ∷ s) (h, k) =
      ap₂ (λ a b. a ∷ b)
        (ap u.to_lower (fold_fullwidth_az r h) ∙ (ascii r (ground arith) (ground arith)).0)
        (folded_az s k)

  letters_az :
      (s : Text)
      → All (λ r. is_az r ≡ true) s
      → All (λ r. not (u.is_letter r) && not (u.is_digit r) ≡ false) s
  letters_az [] h = tt
  letters_az (r ∷ s) (h, k) =
      let letter = (ascii r (ground arith) (ground arith)).1 in (ground arith, letters_az s k)

  category_from_string_az :
      (c : ℕ) (s : Text)
      → All (λ r. is_az r ≡ true) (c ∷ s)
      → category_from_string u (c ∷ s) ≡ first_specific ((c ∷ s) ∷ [])
  unfolding category_from_string
  category_from_string_az c s h =
      ap (λ t. first_specific (fields (λ r. not (u.is_letter r) && not (u.is_digit r)) t))
        (folded_az (c ∷ s) h)
      ∙ ap first_specific
          (fields_lem (λ r. not (u.is_letter r) && not (u.is_digit r)) c s (letters_az (c ∷ s) h))

  -- The token of a category reads back as that category.
  pub category_from_string-token : (c : Category) → category_from_string u (token c) ≡ c
  unfolding token first_specific word_category words
  category_from_string-token other =
      category_from_string_az 111 (codes "ther") (refl, (refl, (refl, (refl, (refl, tt)))))
  category_from_string-token audio =
      category_from_string_az 97 (codes "udio") (refl, (refl, (refl, (refl, (refl, tt)))))
  category_from_string-token video =
      category_from_string_az 118 (codes "ideo") (refl, (refl, (refl, (refl, (refl, tt)))))
  category_from_string-token image =
      category_from_string_az 105 (codes "mage") (refl, (refl, (refl, (refl, (refl, tt)))))
  category_from_string-token text =
      category_from_string_az 116 (codes "ext") (refl, (refl, (refl, (refl, tt))))
  category_from_string-token software =
      category_from_string_az 115 (codes "oftware")
        (refl, (refl, (refl, (refl, (refl, (refl, (refl, (refl, tt))))))))
  category_from_string-token dataset =
      category_from_string_az 100 (codes "ata") (refl, (refl, (refl, (refl, tt))))
