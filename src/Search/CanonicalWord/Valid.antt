-- ===== src/Search/CanonicalWord/Valid.antt =====
-- src/search/include/search/canonical_word.h: what `is_valid_canonical_word` decides.
use scico_d.Prelude.{
  ltb, is_empty_list, ◌<◌, ◌&&◌, any_of, All→any_of-false, any_of-false→All, Bool-cases, inl, inr,
  ℕ, ◌%◌, ◌≤◌, ◌<◌, Bool, true, false, [], ◌∷◌, arith, ◌≡◌, refl, ◌↔◌, ◌⊎◌, All, ok, IsNonempty,
}
use scico_d.Search.CanonicalWord.{
  AbRegionSymbol, Letter, CanonicalWord, get_region_index, later_letters, is_valid_canonical_word,
  is_even, is_odd,
}

module _ {ℓ} {L C F : Type ℓ} where
  abbrev pub IsEven : AbRegionSymbol L C F → Type 0
  IsEven w = get_region_index w % 2 ≡ 0

  abbrev pub IsOdd : AbRegionSymbol L C F → Type 0
  IsOdd w = get_region_index w % 2 ≡ 1

  -- A letter: not empty, its region indexes of one parity, and none above the largest region.
  pub record IsLetter (max_region : ℕ) (c : Letter L C F) : Type 0 where
    pub nonempty : IsNonempty c
    pub parity : All IsEven c ⊎ All IsOdd c
    pub bounded : All (λ w. get_region_index w ≤ max_region) c

  -- A canonical word: not empty, made of letters, and fractional part 0 in the first letter only.
  pub record IsCanonical (max_region : ℕ) (word : CanonicalWord L C F) : Type 0 where
    pub nonempty : IsNonempty word
    pub letters : All (IsLetter max_region) word
    pub later_odd : All (All IsOdd) (later_letters word)

module _ {ℓ} {L C F : Type ℓ} where
  abbrev mixed : Letter L C F → Bool
  mixed c = any_of is_even c && any_of is_odd c

  parity→mixed : (c : Letter L C F) → All IsEven c ⊎ All IsOdd c → mixed c ≡ false
  parity→mixed c (inl h) = rw (All→any_of-false is_odd (λ w e. ground arith) c h) (ground arith)
  parity→mixed c (inr h) = rw (All→any_of-false is_even (λ w e. ground arith) c h) refl

  mixed→parity : (c : Letter L C F) → mixed c ≡ false → All IsEven c ⊎ All IsOdd c
  mixed→parity c h = elim (Bool-cases (any_of is_even c)) [
    | inl e ↦ inl (any_of-false→All is_odd (λ w o. ground arith) c (ground arith))
    | inr e ↦ inr (any_of-false→All is_even (λ w o. ground arith) c e)
  ]

  abbrev above : ℕ → Letter L C F → Bool
  above max_region = any_of (λ w. ltb max_region (get_region_index w))

  bounded→above :
      (m : ℕ) (c : Letter L C F) → All (λ w. get_region_index w ≤ m) c → above m c ≡ false
  bounded→above m = All→any_of-false (λ w. ltb m (get_region_index w)) (λ w e. ground arith)

  above→bounded :
      (m : ℕ) (c : Letter L C F) → above m c ≡ false → All (λ w. get_region_index w ≤ m) c
  above→bounded m = any_of-false→All (λ w. ltb m (get_region_index w)) (λ w e. ground arith)

  letters_of_tests :
      (m : ℕ) (word : CanonicalWord L C F)
      → any_of is_empty_list word ≡ false
      → any_of mixed word ≡ false
      → any_of (above m) word ≡ false
      → All (IsLetter m) word
  letters_of_tests m [] e p b = tt
  letters_of_tests m ([] ∷ cs) e p b = ground arith
  letters_of_tests m ((w ∷ ws) ∷ cs) e p b = (
    record {
      nonempty = tt;
      parity = mixed→parity (w ∷ ws) (ground arith);
      bounded = above→bounded m (w ∷ ws) (ground arith);
    },
    letters_of_tests m cs (ground arith) (ground arith) (ground arith),
  )

  tests_of_letters :
      (m : ℕ) (word : CanonicalWord L C F)
      → All (IsLetter m) word
      → (any_of is_empty_list word ≡ false)
        × (any_of mixed word ≡ false)
        × (any_of (above m) word ≡ false)
  tests_of_letters m [] h = (refl, refl, refl)
  tests_of_letters m ([] ∷ cs) (h, hs) = absurd h.nonempty
  tests_of_letters m ((w ∷ ws) ∷ cs) (h, hs) =
      let (e, p, b) = tests_of_letters m cs hs in
      (e, rw (parity→mixed (w ∷ ws) h.parity) p, rw (bounded→above m (w ∷ ws) h.bounded) b)

  later_of_tests :
      (cs : CanonicalWord L C F) → any_of (any_of is_even) cs ≡ false → All (All IsOdd) cs
  later_of_tests =
      any_of-false→All (any_of is_even) (any_of-false→All is_even (λ w e. ground arith))

  tests_of_later :
      (cs : CanonicalWord L C F) → All (All IsOdd) cs → any_of (any_of is_even) cs ≡ false
  tests_of_later =
      All→any_of-false (any_of is_even) (All→any_of-false is_even (λ w e. ground arith))

  -- For a positive largest region index, the check accepts a word exactly if the word is canonical
  -- up to that index.
  pub is_valid_canonical_word_iff :
      (word : CanonicalWord L C F) (m : ℕ)
      → 0 < m
      → (is_valid_canonical_word word m ≡ ok true) ↔ IsCanonical m word
  unfolding is_valid_canonical_word
  is_valid_canonical_word_iff [] m h = (λ e. ground arith, λ v. absurd v.nonempty)
  is_valid_canonical_word_iff (c ∷ cs) m h = (
    λ e. record {
      nonempty = tt;
      letters = letters_of_tests m (c ∷ cs) (ground arith) (ground arith) (ground arith);
      later_odd = later_of_tests cs (ground arith);
    },
    λ v.
        let (e, p, b) = tests_of_letters m (c ∷ cs) v.letters in
        rw (e, p, b, tests_of_later cs v.later_odd) (ground arith),
  )
