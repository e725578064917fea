-- ===== src/Search/TimeSuccessor/Validity.antt =====
-- src/search/include/search/synchronous_product.h: the time successor of a canonical word is
-- canonical, which the source asserts before and after each step.
use scico_d.Prelude.{
  ℕ, suc, zero, ◌%◌, true, [], ◌∷◌, arith, ◌≡◌, inl, inr, Bool-cases, Ord, All, all_of, tests→All,
}
use scico_d.Search.CanonicalWord.{Letter, CanonicalWord, get_region_index}
use scico_d.Search.CanonicalWord.Valid.{IsOdd, IsLetter, IsCanonical}
use scico_d.Search.TimeSuccessor.{
  max_region_index, last_letter, without_last, has_even_region_index, is_maxed, successor_of,
  get_time_successor, repeat_time_successor,
}
use scico_d.Search.TimeSuccessor.Advance.{
  max_region_index-odd, All-without_last, All-last_letter, IsOddLetter, has_even-false→odd,
  advance-IsCanonical,
}

module _ {ℓ} {L C F : Type ℓ} ⦃l : Ord L⦄ ⦃c : Ord C⦄ ⦃f : Ord F⦄ where
  odd_letters :
      (m : ℕ) (cs : CanonicalWord L C F)
      → All (IsLetter m) cs
      → All (All IsOdd) cs
      → All (IsOddLetter m) cs
  odd_letters m [] h k = tt
  odd_letters m (c ∷ cs) (h, hs) (k, ks) = ((h, k), odd_letters m cs hs ks)

  -- The letters that are not the maxed partition, advanced.
  successor_of-IsCanonical :
      (m : ℕ) (word : CanonicalWord L C F) (front : Letter L C F) (others : CanonicalWord L C F)
      (maxed : Letter L C F)
      → m % 2 ≡ 1
      → IsCanonical m (front ∷ others)
      → All (λ w. get_region_index w ≡ m) maxed
      → IsCanonical m (successor_of m word (front ∷ others) maxed)
  unfolding successor_of
  successor_of-IsCanonical m word front others maxed odd h hm =
      let later = odd_letters m others h.letters.1 h.later_odd in
      elim (Bool-cases (has_even_region_index front)) [
        | inl e ↦ rw e (advance-IsCanonical m front others maxed odd h.letters.0 later hm)
        | inr e ↦
            let first : IsOddLetter m front =
              (h.letters.0, has_even-false→odd m front h.letters.0 e) in
            rw e (
              advance-IsCanonical m (last_letter front others) (without_last front others) maxed odd
                (All-last_letter (IsOddLetter m) front others first later).0
                (All-without_last (IsOddLetter m) front others first later) hm)
      ]

  without_last-IsCanonical :
      (m : ℕ) (c d : Letter L C F) (ds : CanonicalWord L C F)
      → IsCanonical m (c ∷ d ∷ ds)
      → IsCanonical m (c ∷ without_last d ds)
  without_last-IsCanonical m c d ds h = record {
    nonempty = tt;
    letters = (h.letters.0, All-without_last (IsLetter m) d ds h.letters.1.0 h.letters.1.1);
    later_odd = All-without_last (All IsOdd) d ds h.later_odd.0 h.later_odd.1;
  }

  pub only_maxed :
      (m : ℕ) (c : Letter L C F)
      → all_of (is_maxed m) c ≡ true
      → All (λ w. get_region_index w ≡ m) c
  only_maxed m c h = tests→All (is_maxed m) (λ w e. ground arith) c h

  -- The time successor of a word that is canonical up to 2 K + 1 is canonical up to 2 K + 1.
  pub get_time_successor-IsCanonical :
      (word : CanonicalWord L C F) (k : ℕ)
      → IsCanonical (max_region_index k) word
      → IsCanonical (max_region_index k) (get_time_successor word k)
  unfolding get_time_successor successor_of
  get_time_successor-IsCanonical [] k h = h
  get_time_successor-IsCanonical (front ∷ []) k h =
      let m = max_region_index k in
      elim (Bool-cases (all_of (is_maxed m) front)) [
        | inl e ↦ rw e h
        | inr e ↦
            rw e (successor_of-IsCanonical m (front ∷ []) front [] [] (max_region_index-odd k) h tt)
      ]
  get_time_successor-IsCanonical (front ∷ d ∷ ds) k h =
      let m = max_region_index k in
      elim (Bool-cases (all_of (is_maxed m) (last_letter d ds))) [
        | inl e ↦ rw e (
            successor_of-IsCanonical m (front ∷ d ∷ ds) front (without_last d ds) (last_letter d ds)
              (max_region_index-odd k) (without_last-IsCanonical m front d ds h)
              (only_maxed m (last_letter d ds) e))
        | inr e ↦ rw e (
            successor_of-IsCanonical m (front ∷ d ∷ ds) front (d ∷ ds) [] (max_region_index-odd k) h
              tt)
      ]

  -- So is every word that the loop of `get_nth_time_successor` reaches.
  pub repeat_time_successor-IsCanonical :
      (word : CanonicalWord L C F) (n k : ℕ)
      → IsCanonical (max_region_index k) word
      → IsCanonical (max_region_index k) (repeat_time_successor word n k)
  unfolding repeat_time_successor
  repeat_time_successor-IsCanonical word zero k h = h
  repeat_time_successor-IsCanonical word (suc n) k h =
      get_time_successor-IsCanonical (repeat_time_successor word n k) k
        (repeat_time_successor-IsCanonical word n k h)
