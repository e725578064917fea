-- ===== src/Search/TimeSuccessor/Measure.antt =====
-- src/search/include/search/synchronous_product.h: each time successor that differs from its word
-- has a smaller measure, twice the sum of what the region indexes lack plus the number of letters.
use scico_d.Prelude.{
  ℕ, ◌+◌, ◌*◌, ◌%◌, ◌≤◌, ◌<◌, true, false, [], ◌∷◌, ◌++◌, arith, ◌≡◌, refl, ◌⊎◌, inl, inr,
  Bool-cases, Ord, All, All-imp, length, length-append, all_of,
}
use scico_d.Search.CanonicalWord.{AbRegionSymbol, Letter, CanonicalWord, get_region_index}
use scico_d.Search.CanonicalWord.Valid.{IsLetter, IsCanonical}
use scico_d.Search.TimeSuccessor.{
  max_region_index, last_letter, without_last, push_nonempty, has_even_region_index, is_maxed,
  increment_symbol, increment_region_indexes, split_maxed, advance, successor_of,
  get_time_successor,
}
use scico_d.Search.TimeSuccessor.Letters.{
  letter_deficit, word_deficit, letter_deficit-split_maxed, letter_deficit-increment_region_indexes,
  get_region_index-increment_symbol, All-increment_region_indexes, All-split_maxed,
}
use scico_d.Search.TimeSuccessor.Advance.{max_region_index-odd, All-last_letter, All-without_last}
use scico_d.Search.TimeSuccessor.Validity.{only_maxed}

module _ {ℓ} {L C F : Type ℓ} where
  abbrev pub measure : ℕ → CanonicalWord L C F → ℕ
  measure m word = 2 * word_deficit m word + length word

  word_deficit-append :
      (m : ℕ) (xs ys : CanonicalWord L C F)
      → word_deficit m (xs ++ ys) ≡ word_deficit m xs + word_deficit m ys
  word_deficit-append m [] ys = omega arith
  word_deficit-append m (x ∷ xs) ys = omega (arith, word_deficit-append m xs ys)

  measure-push_nonempty :
      (m : ℕ) (c : Letter L C F) → measure m (push_nonempty c) ≤ 2 * letter_deficit m c + 1
  measure-push_nonempty m [] = omega arith
  measure-push_nonempty m (x ∷ xs) = omega arith

  measure-append :
      (m : ℕ) (xs ys : CanonicalWord L C F) → measure m (xs ++ ys) ≡ measure m xs + measure m ys
  measure-append m xs ys = omega (arith, word_deficit-append m xs ys, length-append xs ys)

  word_deficit-without_last :
      (m : ℕ) (c : Letter L C F) (cs : CanonicalWord L C F)
      → word_deficit m (without_last c cs) + letter_deficit m (last_letter c cs)
        ≡ letter_deficit m c + word_deficit m cs
  word_deficit-without_last m c [] = omega arith
  word_deficit-without_last m c (d ∷ ds) = omega (arith, word_deficit-without_last m d ds)

  length-without_last :
      (c : Letter L C F) (cs : CanonicalWord L C F) → length (without_last c cs) ≡ length cs
  length-without_last c [] = refl
  length-without_last c (d ∷ ds) = omega (arith, length-without_last d ds)

  letter_deficit-maxed :
      (m : ℕ) (c : Letter L C F) → all_of (is_maxed m) c ≡ true → letter_deficit m c ≡ 0
  letter_deficit-maxed m [] h = refl
  letter_deficit-maxed m (w ∷ ws) h = ground (arith, letter_deficit-maxed m ws)

  letter_deficit-not_maxed :
      (m : ℕ) (c : Letter L C F)
      → All (λ w. get_region_index w ≤ m) c
      → all_of (is_maxed m) c ≡ false
      → 1 ≤ letter_deficit m c
  letter_deficit-not_maxed m [] b h = ground arith
  letter_deficit-not_maxed m (w ∷ ws) b h = ground (arith, letter_deficit-not_maxed m ws b.1)

  letter_deficit-even :
      (m : ℕ) (c : Letter L C F)
      → m % 2 ≡ 1
      → All (λ w. get_region_index w ≤ m) c
      → has_even_region_index c ≡ true
      → 1 ≤ letter_deficit m c
  letter_deficit-even m [] odd b h = ground arith
  letter_deficit-even m (w ∷ ws) odd b h = ground arith

  All-Unit : (c : Letter L C F) → All (λ w. Unit {0}) c
  All-Unit [] = tt
  All-Unit (w ∷ ws) = (tt, All-Unit ws)

  All-⊥ : (c : Letter L C F) → All (λ w. ⊥) c → c ≡ []
  All-⊥ [] h = refl
  All-⊥ (w ∷ ws) h = absurd h.0

  increment_maxed :
      (m : ℕ) (w : AbRegionSymbol L C F)
      → get_region_index w ≡ m
      → is_maxed m (increment_symbol m w) ≡ true
  increment_maxed m w h = ground (arith, get_region_index-increment_symbol m w)

module _ {ℓ} {L C F : Type ℓ} ⦃l : Ord L⦄ ⦃c : Ord C⦄ ⦃f : Ord F⦄ where
  -- A maxed partition that is advanced only joins the maxed partition.
  split_maxed-all_maxed :
      (m : ℕ) (c maxed : Letter L C F)
      → all_of (is_maxed m) c ≡ true
      → (split_maxed m (increment_region_indexes c m) maxed []).1 ≡ []
  split_maxed-all_maxed m c maxed h =
      All-⊥ _
        (All-split_maxed (λ v. Unit {0}) (λ v. ⊥) m (increment_region_indexes c m) maxed []
          (All-increment_region_indexes _ m c (
            All-imp (λ w e. (λ _. tt, λ n. ground (arith, increment_maxed m w e))) c
              (only_maxed m c h)))
          (All-Unit maxed) tt).1

  measure-advance :
      (m : ℕ) (c : Letter L C F) (rest : CanonicalWord L C F) (maxed : Letter L C F)
      → 1 ≤ letter_deficit m c
      → measure m (advance m c rest maxed)
        ≤ 2 * (letter_deficit m c + letter_deficit m maxed) + measure m rest
  unfolding advance
  measure-advance m c rest maxed h =
      let inc = increment_region_indexes c m in
      let parts = split_maxed m inc maxed [] in
      omega (
        arith,
        measure-append m (push_nonempty parts.1) (rest ++ push_nonempty parts.0),
        measure-append m rest (push_nonempty parts.0),
        measure-push_nonempty m parts.0,
        measure-push_nonempty m parts.1,
        letter_deficit-split_maxed m inc maxed [],
        letter_deficit-increment_region_indexes m c,
      )

  measure-advance_maxed :
      (m : ℕ) (c : Letter L C F) (rest : CanonicalWord L C F) (maxed : Letter L C F)
      → all_of (is_maxed m) c ≡ true
      → measure m (advance m c rest maxed) ≤ 2 * letter_deficit m maxed + measure m rest + 1
  unfolding advance
  measure-advance_maxed m c rest maxed h =
      let inc = increment_region_indexes c m in
      let parts = split_maxed m inc maxed [] in
      rw (split_maxed-all_maxed m c maxed h) (
        omega (
          arith,
          measure-append m rest (push_nonempty parts.0),
          measure-push_nonempty m parts.0,
          letter_deficit-split_maxed m inc maxed [],
          letter_deficit-increment_region_indexes m c,
          letter_deficit-maxed m c h,
        ))

  last_bounded :
      (m : ℕ) (c : Letter L C F) (cs : CanonicalWord L C F)
      → All (IsLetter m) (c ∷ cs)
      → All (λ w. get_region_index w ≤ m) (last_letter c cs)
  last_bounded m c cs (h, hs) = (All-last_letter (IsLetter m) c cs h hs).bounded

  successor_of-measure_lt :
      (m : ℕ) (word : CanonicalWord L C F) (front : Letter L C F) (others : CanonicalWord L C F)
      (maxed : Letter L C F)
      → m % 2 ≡ 1
      → All (IsLetter m) (front ∷ others)
      → all_of (is_maxed m) (last_letter front others) ≡ false
      → measure m (successor_of m word (front ∷ others) maxed)
        ≤ 2 * (word_deficit m (front ∷ others) + letter_deficit m maxed) + length others
  unfolding successor_of
  successor_of-measure_lt m word front others maxed odd h n =
      elim (Bool-cases (has_even_region_index front)) [
        | inl e ↦ rw e (
            omega (
              arith,
              measure-advance m front others maxed (letter_deficit-even m front odd h.0.bounded e),
            ))
        | inr e ↦ rw e (
            omega (
              arith,
              measure-advance m (last_letter front others) (without_last front others) maxed (
                  letter_deficit-not_maxed m (last_letter front others)
                    (last_bounded m front others h) n),
              word_deficit-without_last m front others,
              length-without_last front others,
            ))
      ]

  successor_of-measure_le :
      (m : ℕ) (word : CanonicalWord L C F) (front : Letter L C F) (others : CanonicalWord L C F)
      (maxed : Letter L C F)
      → m % 2 ≡ 1
      → All (IsLetter m) (front ∷ others)
      → measure m (successor_of m word (front ∷ others) maxed)
        ≤ 2 * (word_deficit m (front ∷ others) + letter_deficit m maxed) + length others + 1
  unfolding successor_of
  successor_of-measure_le m word front others maxed odd h =
      elim (Bool-cases (all_of (is_maxed m) (last_letter front others))) [
        | inr n ↦ omega (arith, successor_of-measure_lt m word front others maxed odd h n)
        | inl n ↦ elim (Bool-cases (has_even_region_index front)) [
          | inl e ↦ rw e (
              omega (
                arith,
                measure-advance m front others maxed
                    (letter_deficit-even m front odd h.0.bounded e),
              ))
          | inr e ↦ rw e (
              omega (
                arith,
                measure-advance_maxed m (last_letter front others) (without_last front others) maxed
                    n,
                word_deficit-without_last m front others,
                length-without_last front others,
              ))
        ]
      ]

  -- The time successor of a canonical word is the word itself, or has a smaller measure.
  pub get_time_successor_decreases :
      (word : CanonicalWord L C F) (k : ℕ)
      → IsCanonical (max_region_index k) word
      → (get_time_successor word k ≡ word)
        ⊎ (measure (max_region_index k) (get_time_successor word k)
            < measure (max_region_index k) word)
  unfolding get_time_successor
  get_time_successor_decreases [] k h = inl refl
  get_time_successor_decreases (front ∷ []) k h =
      let m = max_region_index k in
      elim (Bool-cases (all_of (is_maxed m) front)) [
        | inl e ↦ inl (rw (e, successor_of))
        | inr e ↦ inr (
            rw e (
              omega (
                arith,
                successor_of-measure_lt m (front ∷ []) front [] [] (max_region_index-odd k)
                    h.letters e,
              )))
      ]
  get_time_successor_decreases (front ∷ d ∷ ds) k h =
      let m = max_region_index k in
      elim (Bool-cases (all_of (is_maxed m) (last_letter d ds))) [
        | inl e ↦ inr (
            rw e (
              omega (
                arith,
                successor_of-measure_le m (front ∷ d ∷ ds) front (without_last d ds)
                    (last_letter d ds) (max_region_index-odd k)
                    (h.letters.0, All-without_last (IsLetter m) d ds h.letters.1.0 h.letters.1.1),
                word_deficit-without_last m d ds,
                length-without_last d ds,
                letter_deficit-maxed m (last_letter d ds) e,
              )))
        | inr e ↦ inr (
            rw e (
              omega (
                arith,
                successor_of-measure_lt m (front ∷ d ∷ ds) front (d ∷ ds) []
                    (max_region_index-odd k) h.letters e,
              )))
      ]
