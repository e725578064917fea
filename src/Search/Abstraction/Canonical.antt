-- ===== src/Search/Abstraction/Canonical.antt =====
-- src/search/include/search/canonical_word.h: the word of a configuration is canonical.
use scico_d.Prelude.{
  ℕ, ◌+◌, ◌*◌, ◌%◌, ◌^◌, ◌≤◌, ◌<◌, true, false, List, [], ◌∷◌, map, Ord, ◌==◌, ◌≡◌, refl, ◌∙◌, inl,
  inr, arith, is_empty_list, is_empty_list-insert_all, ok, All, All-imp, All-insert_all, Bool-cases,
  IsNonempty,
}
use scico_d.Automata.AtaFormula.{State}
use scico_d.Automata.Regions.{Fraction, get_region_index_of}
use scico_d.Search.CanonicalWord.{CanonicalWord, get_region_index, is_valid_canonical_word}
use scico_d.Search.CanonicalWord.Order.{symbol_ord}
use scico_d.Search.CanonicalWord.Valid.{IsOdd, IsLetter, IsCanonical, is_valid_canonical_word_iff}
use scico_d.Search.Abstraction.{
  AbSymbol, get_time, partition_symbols, region_symbol, collect_symbols, abstract_partition,
  get_canonical_word,
}
use scico_d.Search.Abstraction.Partitions.{
  IsRegular, even_index, odd_index, bounded_index, IsPlaced, IsPartition, LaterPositive,
  partitioned, partition_symbols-IsNonempty, All-region_symbol,
}

of_test-IsNonempty : {A : Type 0} (xs : List A) → is_empty_list xs ≡ false → IsNonempty xs
of_test-IsNonempty [] h = ground arith
of_test-IsNonempty (x ∷ xs) h = tt

module _ {L C F : Type 0} where
  collected :
      (k : ℕ) (location : L) (clock_valuations : List (C × Fraction))
      (states : List (State F Fraction))
      → All (λ x. IsRegular k x.1) clock_valuations
      → All (λ q. IsRegular k q.clock_valuation) states
      → All (λ w. IsRegular k (get_time w)) (collect_symbols location clock_valuations states)
  collected k location (x ∷ xs) qs (r, rs) hs = (r, collected k location xs qs rs hs)
  collected k location [] [] rs hs = tt
  collected k location [] (q ∷ qs) rs (h, hs) = (h, collected k location [] qs rs hs)

  collected-IsNonempty :
      (location : L) (x : C × Fraction) (xs : List (C × Fraction))
      (states : List (State F Fraction))
      → IsNonempty (collect_symbols location (x ∷ xs) states)
  collected-IsNonempty location x xs states = tt

module _ {L C F : Type 0} ⦃l : Ord L⦄ ⦃c : Ord C⦄ ⦃f : Ord F⦄ where
  All-abstract_partition :
      (Q : ℕ → Type 0) (k : ℕ) (ws : List (AbSymbol L C F))
      → All (λ w. Q (get_region_index_of k (get_time w))) ws
      → All (λ w. Q (get_region_index w)) (abstract_partition k ws)
  unfolding abstract_partition
  All-abstract_partition Q k ws h =
      All-insert_all (λ w. Q (get_region_index w)) (map (region_symbol k) ws) []
        (All-region_symbol Q k ws h) tt

  abstract_partition-IsNonempty :
      (k : ℕ) (ws : List (AbSymbol L C F)) → IsNonempty ws → IsNonempty (abstract_partition k ws)
  unfolding abstract_partition
  abstract_partition-IsNonempty k [] h = absurd h
  abstract_partition-IsNonempty k (w ∷ ws) h =
      of_test-IsNonempty _
        (is_empty_list-insert_all (map (region_symbol k) ws) (region_symbol k w) [])

  abstract_partition-IsOdd :
      (k : ℕ) (key : Fraction) (ws : List (AbSymbol L C F))
      → k < 2 ^ 31
      → (key.num == 0) ≡ false
      → All (IsPlaced k key) ws
      → All IsOdd (abstract_partition k ws)
  abstract_partition-IsOdd k key ws h z hs =
      All-abstract_partition (λ n. n % 2 ≡ 1) k ws
        (All-imp (λ w (p : IsPlaced k key w). odd_index k (get_time w) h p.0 (p.1 ∙ z)) ws hs)

  partition-IsLetter :
      (k : ℕ) (p : Fraction × List (AbSymbol L C F))
      → k < 2 ^ 31
      → IsPartition k p
      → IsLetter (2 * k + 1) (abstract_partition k p.1)
  partition-IsLetter k (key, ws) h (d, n, hs) = record {
    nonempty = abstract_partition-IsNonempty k ws n;
    parity = elim (Bool-cases (key.num == 0)) [
      | inl z ↦ inl (
          All-abstract_partition (λ i. i % 2 ≡ 0) k ws
            (All-imp (λ w (p : IsPlaced k key w). even_index k (get_time w) h p.0 (p.1 ∙ z)) ws hs))
      | inr z ↦ inr (abstract_partition-IsOdd k key ws h z hs)
    ];
    bounded =
        All-abstract_partition (λ i. i ≤ 2 * k + 1) k ws
          (All-imp (λ w (p : IsPlaced k key w). bounded_index k (get_time w) h p.0) ws hs);
  }

  letters_of :
      (k : ℕ) (ps : List (Fraction × List (AbSymbol L C F)))
      → k < 2 ^ 31
      → All (IsPartition k) ps
      → All (IsLetter (2 * k + 1)) (map (λ p. abstract_partition k p.1) ps)
  letters_of k [] h hs = tt
  letters_of k (p ∷ ps) h (x, xs) = (partition-IsLetter k p h x, letters_of k ps h xs)

  later_letters-AreOdd :
      (k : ℕ) (ps : List (Fraction × List (AbSymbol L C F)))
      → k < 2 ^ 31
      → All (IsPartition k) ps
      → All (λ p. 0 < p.0.num) ps
      → All (All IsOdd) (map (λ p. abstract_partition k p.1) ps)
  later_letters-AreOdd k [] h hs ls = tt
  later_letters-AreOdd k ((key, ws) ∷ ps) h ((d, n, x), xs) (y, ys) =
      (abstract_partition-IsOdd k key ws h (ground arith) x, later_letters-AreOdd k ps h xs ys)

  word_of_partitions :
      (k : ℕ) (ps : List (Fraction × List (AbSymbol L C F)))
      → k < 2 ^ 31
      → IsNonempty ps
      → All (IsPartition k) ps
      → LaterPositive ps
      → IsCanonical (2 * k + 1) (map (λ p. abstract_partition k p.1) ps)
  word_of_partitions k [] h n hs ls = absurd n
  word_of_partitions k (p ∷ ps) h n (x, xs) ls = record {
    nonempty = tt;
    letters = letters_of k (p ∷ ps) h (x, xs);
    later_odd = later_letters-AreOdd k ps h xs ls;
  }

  -- For K below 2^31, a plant configuration with a clock, and valuations below 2^31 whose fractional
  -- parts are 0 or not near 0 and of which none above K is a whole number, get_canonical_word
  -- returns a word that passes the check of canonical words up to region 2K+1, as the assertion at
  -- its end demands.
  pub get_canonical_word-IsValid :
      (location : L) (clock_valuations : List (C × Fraction)) (states : List (State F Fraction))
      (k : ℕ)
      → k < 2 ^ 31
      → IsNonempty clock_valuations
      → All (λ x. IsRegular k x.1) clock_valuations
      → All (λ q. IsRegular k q.clock_valuation) states
      → (word : CanonicalWord L C F) × (get_canonical_word location clock_valuations states k
          ≡ ok word)
        × (is_valid_canonical_word word (2 * k + 1) ≡ ok true)
  unfolding get_canonical_word
  get_canonical_word-IsValid location [] states k h n rs qs = absurd n
  get_canonical_word-IsValid location (x ∷ xs) states k h n rs qs =
      let symbols : List (AbSymbol L C F) = collect_symbols location (x ∷ xs) states in
      let (placed, later) =
        partitioned k symbols [] (collected k location (x ∷ xs) states rs qs) tt tt in
      let word = map (λ p. abstract_partition k p.1) (partition_symbols symbols []) in
      (
        word,
        refl,
        (is_valid_canonical_word_iff word (2 * k + 1) (ground arith)).1 (
            word_of_partitions k (partition_symbols symbols []) h
              (partition_symbols-IsNonempty symbols []
                (inr (collected-IsNonempty location x xs states)))
              placed later),
      )
