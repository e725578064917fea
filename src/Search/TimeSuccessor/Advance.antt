-- ===== src/Search/TimeSuccessor/Advance.antt =====
-- src/search/include/search/synchronous_product.h: the word that results when one partition is
-- incremented and its maxed configurations join the maxed partition.
use scico_d.Prelude.{
  ℕ, ◌%◌, ◌≤◌, true, false, ◌&&◌, List, [], ◌∷◌, ◌++◌, arith, ◌≡◌, ◌∙◌, refl, ◌⊎◌, inl, inr, Ord,
  All, All-imp, All-append, is_empty_list, IsNonempty,
}
use scico_d.Search.CanonicalWord.{
  AbRegionSymbol, Letter, CanonicalWord, get_region_index, later_letters,
}
use scico_d.Search.CanonicalWord.Order.{symbol_ord}
use scico_d.Search.CanonicalWord.Valid.{IsEven, IsOdd, IsLetter, IsCanonical}
use scico_d.Search.TimeSuccessor.{
  max_region_index, last_letter, without_last, push_nonempty, has_even_region_index,
  increment_symbol, is_maxed, increment_region_indexes, split_maxed, advance,
}
use scico_d.Search.TimeSuccessor.Letters.{
  get_region_index-increment_symbol, All-increment_region_indexes, All-split_maxed,
  is_empty_list-split_maxed, is_empty_list-increment_region_indexes,
}

pub max_region_index-odd : (k : ℕ) → max_region_index k % 2 ≡ 1
max_region_index-odd k = omega arith

module _ {ℓ} {A : Type ℓ} where
  pub All-without_last {κ} :
      (P : List A → Type κ) (c : List A) (cs : List (List A))
      → P c
      → All P cs
      → All P (without_last c cs)
  All-without_last P c [] h hs = tt
  All-without_last P c (d ∷ ds) h (k, ks) = (h, All-without_last P d ds k ks)

  pub All-last_letter {κ} :
      (P : List A → Type κ) (c : List A) (cs : List (List A))
      → P c
      → All P cs
      → P (last_letter c cs)
  All-last_letter P c [] h hs = h
  All-last_letter P c (d ∷ ds) h (k, ks) = All-last_letter P d ds k ks

  All-push_nonempty {κ} :
      (P : List A → Type κ) (c : List A) → (IsNonempty c → P c) → All P (push_nonempty c)
  All-push_nonempty P [] h = tt
  All-push_nonempty P (x ∷ xs) h = (h tt, tt)

module _ {ℓ} {L C F : Type ℓ} where
  -- A letter all of whose indexes are odd and within bounds.
  abbrev pub IsOddLetter : ℕ → Letter L C F → Type 0
  IsOddLetter m c = IsLetter m c × All IsOdd c

  -- What an increment may leave behind: indexes of one parity, within bounds.
  abbrev IsRest : ℕ → Letter L C F → Type 0
  IsRest m c = (All IsEven c ⊎ All IsOdd c) × All (λ w. get_region_index w ≤ m) c

  IsRest→IsLetter : (m : ℕ) (c : Letter L C F) → IsRest m c → IsNonempty c → IsLetter m c
  IsRest→IsLetter m c (p, b) n = record { nonempty = n; parity = p; bounded = b }

  maxed→IsOddLetter :
      (m : ℕ) (c : Letter L C F)
      → m % 2 ≡ 1
      → All (λ w. get_region_index w ≡ m) c
      → IsNonempty c
      → IsOddLetter m c
  maxed→IsOddLetter m c odd h n =
      let all_odd : All IsOdd c = All-imp (λ w e. ground arith) c h in
      (
        record { nonempty = n; parity = inr all_odd; bounded = All-imp (λ w e. omega arith) c h },
        all_odd,
      )

  later-push_nonempty {κ} :
      (P : Letter L C F → Type κ) (c : Letter L C F) (ys : CanonicalWord L C F)
      → All P ys
      → All P (later_letters (push_nonempty c ++ ys))
  later-push_nonempty P [] [] h = tt
  later-push_nonempty P [] (y ∷ ys) (h, hs) = hs
  later-push_nonempty P (x ∷ xs) ys h = h

  IsNonempty-pushes :
      (c d : Letter L C F) (rest : CanonicalWord L C F)
      → (is_empty_list d && is_empty_list c) ≡ false
      → IsNonempty (push_nonempty c ++ (rest ++ push_nonempty d))
  IsNonempty-pushes (x ∷ xs) d rest h = tt
  IsNonempty-pushes [] d (r ∷ rest) h = tt
  IsNonempty-pushes [] (x ∷ xs) [] h = tt
  IsNonempty-pushes [] [] [] h = ground arith

  -- The word put together from a rest in front, odd letters, and a maxed partition.
  assemble :
      (m : ℕ) (c d : Letter L C F) (rest : CanonicalWord L C F)
      → m % 2 ≡ 1
      → (is_empty_list d && is_empty_list c) ≡ false
      → IsRest m c
      → All (IsOddLetter m) rest
      → All (λ w. get_region_index w ≡ m) d
      → IsCanonical m (push_nonempty c ++ (rest ++ push_nonempty d))
  assemble m c d rest odd n hc hr hd =
      let tail : All (IsOddLetter m) (rest ++ push_nonempty d) =
        All-append (IsOddLetter m) rest (push_nonempty d) hr
          (All-push_nonempty (IsOddLetter m) d (maxed→IsOddLetter m d odd hd)) in
      record {
        nonempty = IsNonempty-pushes c d rest n;
        letters =
            All-append (IsLetter m) (push_nonempty c) (rest ++ push_nonempty d)
              (All-push_nonempty (IsLetter m) c (IsRest→IsLetter m c hc))
              (All-imp (λ x h. h.0) (rest ++ push_nonempty d) tail);
        later_odd =
            later-push_nonempty (All IsOdd) c (rest ++ push_nonempty d)
              (All-imp (λ x h. h.1) (rest ++ push_nonempty d) tail);
      }

  pub has_even-false→odd :
      (m : ℕ) (c : Letter L C F) → IsLetter m c → has_even_region_index c ≡ false → All IsOdd c
  has_even-false→odd m [] h e = tt
  has_even-false→odd m (w ∷ ws) h e = elim h.parity [ inl p ↦ absurd (ground arith) | inr p ↦ p ]

  IsNonempty→false : (c : Letter L C F) → IsNonempty c → is_empty_list c ≡ false
  IsNonempty→false [] h = absurd h
  IsNonempty→false (x ∷ xs) h = refl

  -- One symbol, incremented: maxed, or of the other parity and still within bounds.
  increment_even :
      (m : ℕ) (w : AbRegionSymbol L C F)
      → m % 2 ≡ 1
      → IsEven w
      → get_region_index w ≤ m
      → let v = increment_symbol m w in
        (is_maxed m v ≡ true → get_region_index v ≡ m)
        × (is_maxed m v ≡ false → IsOdd v × (get_region_index v ≤ m))
  increment_even m w odd e b = ground (arith, get_region_index-increment_symbol m w)

  increment_odd :
      (m : ℕ) (w : AbRegionSymbol L C F)
      → IsOdd w
      → get_region_index w ≤ m
      → let v = increment_symbol m w in
        (is_maxed m v ≡ true → get_region_index v ≡ m)
        × (is_maxed m v ≡ false → IsEven v × (get_region_index v ≤ m))
  increment_odd m w e b = ground (arith, get_region_index-increment_symbol m w)

  All-zip {κ μ} :
      (P : AbRegionSymbol L C F → Type κ) (Q : AbRegionSymbol L C F → Type μ) (ws : Letter L C F)
      → All P ws
      → All Q ws
      → All (λ w. P w × Q w) ws
  All-zip P Q [] h k = tt
  All-zip P Q (w ∷ ws) (h, hs) (k, ks) = ((h, k), All-zip P Q ws hs ks)

module _ {ℓ} {L C F : Type ℓ} ⦃l : Ord L⦄ ⦃c : Ord C⦄ ⦃f : Ord F⦄ where
  -- The two parts into which the incremented partition is split, where `P` holds of the symbols
  -- before the increment and `Q` of those after it that are not maxed.
  split-increment_of :
      (P Q : AbRegionSymbol L C F → Type 0) (m : ℕ) (ws maxed : Letter L C F)
      → ((w : AbRegionSymbol L C F)
          → P w
          → get_region_index w ≤ m
          → let v = increment_symbol m w in
            (is_maxed m v ≡ true → get_region_index v ≡ m)
            × (is_maxed m v ≡ false → Q v × (get_region_index v ≤ m)))
      → All P ws
      → All (λ w. get_region_index w ≤ m) ws
      → All (λ w. get_region_index w ≡ m) maxed
      → All (λ w. get_region_index w ≡ m) (split_maxed m (increment_region_indexes ws m) maxed []).0
        × All
            (λ w. Q w × (get_region_index w ≤ m))
            (split_maxed m (increment_region_indexes ws m) maxed []).1
  split-increment_of P Q m ws maxed step hp hb hm =
      All-split_maxed (λ v. get_region_index v ≡ m) (λ v. Q v × (get_region_index v ≤ m)) m
        (increment_region_indexes ws m) maxed []
        (All-increment_region_indexes _ m ws
          (All-imp (λ w b. step w b.0 b.1) ws (All-zip P (λ w. get_region_index w ≤ m) ws hp hb)))
        hm tt

  split-increment :
      (m : ℕ) (ws maxed : Letter L C F)
      → m % 2 ≡ 1
      → IsLetter m ws
      → All (λ w. get_region_index w ≡ m) maxed
      → All (λ w. get_region_index w ≡ m) (split_maxed m (increment_region_indexes ws m) maxed []).0
        × IsRest m (split_maxed m (increment_region_indexes ws m) maxed []).1
  split-increment m ws maxed odd h hm = elim h.parity [
    | inl e ↦
        let (p, q) =
          split-increment_of IsEven IsOdd m ws maxed (λ w. increment_even m w odd) e h.bounded hm in
        (p, (inr (All-imp (λ w b. b.0) _ q), All-imp (λ w b. b.1) _ q))
    | inr e ↦
        let (p, q) =
          split-increment_of IsOdd IsEven m ws maxed (λ w. increment_odd m w) e h.bounded hm in
        (p, (inl (All-imp (λ w b. b.0) _ q), All-imp (λ w b. b.1) _ q))
  ]

  pub advance-IsCanonical :
      (m : ℕ) (c : Letter L C F) (rest : CanonicalWord L C F) (maxed : Letter L C F)
      → m % 2 ≡ 1
      → IsLetter m c
      → All (IsOddLetter m) rest
      → All (λ w. get_region_index w ≡ m) maxed
      → IsCanonical m (advance m c rest maxed)
  unfolding advance
  advance-IsCanonical m c rest maxed odd hc hr hm =
      let (p, q) = split-increment m c maxed odd hc hm in
      assemble m _ _ rest odd
        (is_empty_list-split_maxed m (increment_region_indexes c m) maxed []
          ∙ rw (is_empty_list-increment_region_indexes m c)
              (rw (IsNonempty→false c hc.nonempty) refl))
        q hr p
