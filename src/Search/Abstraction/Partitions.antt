-- ===== src/Search/Abstraction/Partitions.antt =====
-- src/search/include/search/canonical_word.h: the partitions by fractional parts, and the region
-- indexes of their symbols.
use scico_d.Prelude.{
  ℕ, ◌+◌, ◌*◌, ◌%◌, ◌^◌, ◌≤◌, ◌<◌, true, false, List, [], ◌∷◌, map, ltb, ◌==◌, ◌≡◌, refl, sym,
  subst, ◌⊎◌, inl, inr, arith, All, Bool-cases, IsNonempty,
}
use native.Mathlib.Decide.{dec_lt}
use native.Mathlib.Nat.{mul-le-mul_left}
use scico_d.Automata.Regions.{
  Fraction, fractional_num, fractional_part, is_near_zero, get_region_index_of,
}
use scico_d.Automata.Regions.Fractions.{
  IsResolved, index_of_parts, get_region_index_of-parts, gt_whole,
}
use scico_d.Search.CanonicalWord.{get_region_index}
use scico_d.Search.CanonicalWord.Order.{symbol_ord}
use scico_d.Search.Abstraction.{
  AbSymbol, plant_symbol, ata_symbol, is_approx_same, lt_approx, get_time, insert_partition,
  partition_symbols, region_symbol,
}

-- A valuation below 2^31, whose fractional part is 0 or not near 0, and which is not a whole number
-- above the largest constant.
abbrev pub IsRegular : ℕ → Fraction → Type 0
IsRegular k t =
    (0 < t.den)
    × (t.num < 2 ^ 31 * t.den)
    × IsResolved t
    × (ltb (k * t.den) t.num ≡ true → 0 < fractional_num t)

pub even_index :
    (k : ℕ) (t : Fraction)
    → k < 2 ^ 31
    → IsRegular k t
    → (fractional_num t == 0) ≡ true
    → get_region_index_of k t % 2 ≡ 0
unfolding index_of_parts
even_index k t h (d, b, near, r) z =
    ground (arith, get_region_index_of-parts k t d near h, gt_whole t k d)

pub odd_index :
    (k : ℕ) (t : Fraction)
    → k < 2 ^ 31
    → IsRegular k t
    → (fractional_num t == 0) ≡ false
    → get_region_index_of k t % 2 ≡ 1
unfolding index_of_parts
odd_index k t h (d, b, near, r) z = ground (arith, get_region_index_of-parts k t d near h)

pub bounded_index :
    (k : ℕ) (t : Fraction) → k < 2 ^ 31 → IsRegular k t → get_region_index_of k t ≤ 2 * k + 1
unfolding index_of_parts
bounded_index k t h (d, b, near, r) = ground (arith, get_region_index_of-parts k t d near h)

-- Where a number is near 0 only if it is 0.
abbrev pub IsKey : Fraction → Type 0
IsKey a = (0 < a.den) × (is_near_zero a ≡ true → a.num ≡ 0)

times_positive : (a b : ℕ) → 0 < a → 0 < b → 0 < a * b
times_positive a b ha hb = grind arith

-- A fraction near 0 stays so without a common factor.
without_factor : (d n e : ℕ) → 0 < d → n * d * 2 ^ 52 < 8 * (d * e) → n * 2 ^ 52 < 8 * e
without_factor d n e h lt = elim (dec_lt (n * 2 ^ 52) (8 * e)) [
  | yes p ↦ p
  | no p ↦
      let scaled : d * (8 * e) ≤ d * (n * 2 ^ 52) = mul-le-mul_left d (omega arith) in
      absurd (grind arith)
]

-- The difference from 0.
is_approx_same-zero :
    (a b : Fraction) → 0 < a.den → a.num ≡ 0 → is_approx_same a b ≡ true → is_near_zero b ≡ true
unfolding is_approx_same is_near_zero
is_approx_same-zero a b h z e =
    let zero_product : a.num * b.den ≡ 0 = rw z (omega arith) in
    let lt : b.num * a.den * 2 ^ 52 < 8 * (a.den * b.den) = ground arith in
    ground (arith, without_factor a.den b.num b.den h lt)

zero_first : (a b : Fraction) → IsKey a → IsKey b → a.num ≡ 0 → lt_approx a b ≡ false → b.num ≡ 0
unfolding lt_approx
zero_first a b (ha, ka) (hb, kb) z e = elim (Bool-cases (is_approx_same a b)) [
  | inl same ↦ kb (is_approx_same-zero a b ha z same)
  | inr differs ↦ elim (Bool-cases (b.num == 0)) [
    | inl y ↦ ground arith
    | inr y ↦
        let zero_product : a.num * b.den ≡ 0 = rw z (omega arith) in
        absurd (ground (arith, times_positive b.num a.den (ground arith) ha))
  ]
]

same_zero :
    (a b : Fraction)
    → IsKey a
    → IsKey b
    → lt_approx a b ≡ false
    → lt_approx b a ≡ false
    → (a.num == 0) ≡ (b.num == 0)
same_zero a b ha hb h h' = ground (
  arith,
  λ (z : a.num ≡ 0). zero_first a b ha hb z h,
  λ (z : b.num ≡ 0). zero_first b a hb ha z h',
)

positive_num : (a b : Fraction) → lt_approx a b ≡ true → 0 < b.num
unfolding lt_approx
positive_num a b h = elim (Bool-cases (b.num == 0)) [
  | inl y ↦
      let zero_num : b.num ≡ 0 = ground arith in
      let zero_product : b.num * a.den ≡ 0 = rw zero_num (omega arith) in absurd (ground arith)
  | inr y ↦ ground arith
]

module _ {L C F : Type 0} where
  -- The symbol belongs to the partition of the key.
  abbrev pub IsPlaced : ℕ → Fraction → AbSymbol L C F → Type 0
  IsPlaced k key w =
      IsRegular k (get_time w) × ((fractional_num (get_time w) == 0) ≡ (key.num == 0))

  abbrev pub IsPartition : ℕ → (Fraction × List (AbSymbol L C F)) → Type 0
  IsPartition k p = IsKey p.0 × IsNonempty p.1 × All (IsPlaced k p.0) p.1

  -- Only the first key may be 0.
  abbrev pub LaterPositive : List (Fraction × List (AbSymbol L C F)) → Type 0
  LaterPositive [] = Unit
  LaterPositive (p ∷ ps) = All (λ q. 0 < q.0.num) ps

  placed :
      (k : ℕ) (w : AbSymbol L C F) (ps : List (Fraction × List (AbSymbol L C F)))
      → IsRegular k (get_time w)
      → All (IsPartition k) ps
      → All (IsPartition k) (insert_partition (fractional_part (get_time w)) w ps)
  unfolding insert_partition
  placed k w [] r hs = (((r.0, r.2), tt, ((r, refl), tt)), tt)
  placed k w ((key, ws) ∷ ps) r ((d, n, h), hs) =
      let new = fractional_part (get_time w) in
      elim (Bool-cases (lt_approx new key)) [
        | inl p ↦ rw p (((r.0, r.2), tt, ((r, refl), tt)), ((d, n, h), hs))
        | inr p ↦ elim (Bool-cases (lt_approx key new)) [
          | inl q ↦ rw (p, q) ((d, n, h), placed k w ps r hs)
          | inr q ↦ rw (p, q) ((d, tt, ((r, same_zero new key (r.0, r.2) d p q), h)), hs)
        ]
      ]

  later_positive :
      (w : AbSymbol L C F) (ps : List (Fraction × List (AbSymbol L C F)))
      → All (λ q. 0 < q.0.num) ps
      → 0 < fractional_num (get_time w)
      → All (λ q. 0 < q.0.num) (insert_partition (fractional_part (get_time w)) w ps)
  unfolding insert_partition
  later_positive w [] h n = (n, tt)
  later_positive w ((key, ws) ∷ ps) (h, hs) n =
      let new = fractional_part (get_time w) in
      elim (Bool-cases (lt_approx new key)) [
        | inl p ↦ rw p (n, (h, hs))
        | inr p ↦ elim (Bool-cases (lt_approx key new)) [
          | inl q ↦ rw (p, q) (h, later_positive w ps hs n)
          | inr q ↦ rw (p, q) (h, hs)
        ]
      ]

  insert_partition-LaterPositive :
      (w : AbSymbol L C F) (ps : List (Fraction × List (AbSymbol L C F)))
      → LaterPositive ps
      → LaterPositive (insert_partition (fractional_part (get_time w)) w ps)
  unfolding insert_partition
  insert_partition-LaterPositive w [] h = tt
  insert_partition-LaterPositive w ((key, ws) ∷ ps) hs =
      let new = fractional_part (get_time w) in
      elim (Bool-cases (lt_approx new key)) [
        | inl p ↦ rw p (positive_num new key p, hs)
        | inr p ↦ elim (Bool-cases (lt_approx key new)) [
          | inl q ↦ rw (p, q) (later_positive w ps hs (positive_num key new q))
          | inr q ↦ rw (p, q) hs
        ]
      ]

  pub partitioned :
      (k : ℕ) (ws : List (AbSymbol L C F)) (ps : List (Fraction × List (AbSymbol L C F)))
      → All (λ w. IsRegular k (get_time w)) ws
      → All (IsPartition k) ps
      → LaterPositive ps
      → All (IsPartition k) (partition_symbols ws ps) × LaterPositive (partition_symbols ws ps)
  unfolding partition_symbols
  partitioned k [] ps rs hs l = (hs, l)
  partitioned k (w ∷ ws) ps (r, rs) hs l =
      partitioned k ws (insert_partition (fractional_part (get_time w)) w ps) rs
        (placed k w ps r hs) (insert_partition-LaterPositive w ps l)

  insert_partition-IsNonempty :
      (key : Fraction) (w : AbSymbol L C F) (ps : List (Fraction × List (AbSymbol L C F)))
      → IsNonempty (insert_partition key w ps)
  unfolding insert_partition
  insert_partition-IsNonempty key w [] = tt
  insert_partition-IsNonempty key w ((k, ws) ∷ ps) = elim (Bool-cases (lt_approx key k)) [
    | inl p ↦ rw p tt
    | inr p ↦ elim (Bool-cases (lt_approx k key)) [ inl q ↦ rw (p, q) tt | inr q ↦ rw (p, q) tt ]
  ]

  pub partition_symbols-IsNonempty :
      (ws : List (AbSymbol L C F)) (ps : List (Fraction × List (AbSymbol L C F)))
      → IsNonempty ps ⊎ IsNonempty ws
      → IsNonempty (partition_symbols ws ps)
  unfolding partition_symbols
  partition_symbols-IsNonempty [] ps (inl h) = h
  partition_symbols-IsNonempty [] ps (inr h) = absurd h
  partition_symbols-IsNonempty (w ∷ ws) ps h =
      partition_symbols-IsNonempty ws _ (inl (insert_partition-IsNonempty _ w ps))

  region_index_of_symbol :
      (k : ℕ) (w : AbSymbol L C F)
      → get_region_index (region_symbol k w) ≡ get_region_index_of k (get_time w)
  unfolding region_symbol
  region_index_of_symbol k (plant_symbol s) = refl
  region_index_of_symbol k (ata_symbol s) = refl

  -- The region symbols of symbols with a property of the region index.
  pub All-region_symbol :
      (Q : ℕ → Type 0) (k : ℕ) (ws : List (AbSymbol L C F))
      → All (λ w. Q (get_region_index_of k (get_time w))) ws
      → All (λ w. Q (get_region_index w)) (map (region_symbol k) ws)
  All-region_symbol Q k [] h = tt
  All-region_symbol Q k (w ∷ ws) (h, hs) =
      (subst Q (sym (region_index_of_symbol k w)) h, All-region_symbol Q k ws hs)
