-- ===== src/Automata/Regions/Fractions.antt =====
-- src/automata/ta_regions.cpp: a valuation satisfies the constraints of a region exactly if it has
-- the index of that region.
use scico_d.Prelude.{
  ℕ, ◌+◌, ◌*◌, ◌/◌, ◌%◌, ◌^◌, ◌≤◌, ◌<◌, Bool, true, Bool-cases, inl, inr, refl, ◌&&◌, ◌||◌, not,
  ltb, ◌==◌, if◌then◌else◌, ◌≡◌, arith, all_of,
}
use scico_d.Automata.ClockConstraint.{is_satisfied}
use scico_d.Automata.Regions.{
  Fraction, fraction_time, integer_part, fractional_num, fractional_part, is_near_zero,
  get_region_index_of, both_bounds, get_clock_constraints_from_region_index,
}

-- A fraction against a whole number, by its integer part and the rest.
lt_whole : (t : Fraction) (k : ℕ) → 0 < t.den → ltb t.num (k * t.den) ≡ ltb (integer_part t) k
lt_whole t k h = grind arith

pub gt_whole :
    (t : Fraction) (k : ℕ)
    → 0 < t.den
    → ltb (k * t.den) t.num
      ≡ (ltb k (integer_part t) || ((integer_part t == k) && ltb 0 (fractional_num t)))
gt_whole t k h = grind arith

-- `v > c` for a valuation with integer part `q` and fractional part `s`, up to the denominator.
abbrev pub exceeds : ℕ → ℕ → ℕ → Bool
exceeds q s c = ltb c q || ((q == c) && ltb 0 s)

-- The region index by the integer and fractional part.
unfoldable pub index_of_parts : ℕ → ℕ → ℕ → ℕ
index_of_parts k q s = if exceeds q s k then 2 * k + 1 else if s == 0 then 2 * q else 2 * q + 1

-- The fractional part is 0 or not near 0.
abbrev pub IsResolved : Fraction → Type 0
IsResolved t = is_near_zero (fractional_part t) ≡ true → fractional_num t ≡ 0

pub near_zero-resolved :
    (t : Fraction)
    → 0 < t.den
    → IsResolved t
    → is_near_zero (fractional_part t) ≡ (fractional_num t == 0)
unfolding is_near_zero
near_zero-resolved t h r = elim (Bool-cases (is_near_zero (fractional_part t))) [
  | inl e ↦ rw (e, r e) refl
  | inr e ↦ ground arith
]

pub get_region_index_of-parts :
    (k : ℕ) (t : Fraction)
    → 0 < t.den
    → IsResolved t
    → k < 2 ^ 31
    → get_region_index_of k t ≡ index_of_parts k (integer_part t) (fractional_num t)
unfolding get_region_index_of index_of_parts
get_region_index_of-parts k t h near hk =
    ground (arith, gt_whole t k h, near_zero-resolved t h near)

even_region :
    (k q s c r : ℕ)
    → r ≡ 2 * c
    → r ≤ 2 * k + 1
    → (not (ltb q c) && not (exceeds q s c)) ≡ (index_of_parts k q s == r)
unfolding index_of_parts
even_region k q s c r e h = ground arith

odd_region :
    (k q s c r : ℕ)
    → r ≡ 2 * c + 1
    → r < 2 * k + 1
    → (exceeds q s c && ltb q (c + 1)) ≡ (index_of_parts k q s == r)
unfolding index_of_parts
odd_region k q s c r e h = ground arith

last_region :
    (k q s c r : ℕ) → r ≡ 2 * c + 1 → r ≡ 2 * k + 1 → exceeds q s c ≡ (index_of_parts k q s == r)
unfolding index_of_parts
last_region k q s c r e h = ground arith

satisfied_even :
    (k r : ℕ) (t : Fraction)
    → 0 < t.den
    → r ≤ 2 * k + 1
    → r % 2 ≡ 0
    → (not (ltb t.num (r / 2 * t.den)) && not (ltb (r / 2 * t.den) t.num))
      ≡ (index_of_parts k (integer_part t) (fractional_num t) == r)
satisfied_even k r t h hr e =
    rw (lt_whole t (r / 2) h, gt_whole t (r / 2) h)
      (even_region k (integer_part t) (fractional_num t) (r / 2) r (omega arith) hr)

satisfied_odd :
    (k r : ℕ) (t : Fraction)
    → 0 < t.den
    → r < 2 * k + 1
    → r % 2 ≡ 1
    → (ltb (r / 2 * t.den) t.num && ltb t.num ((r + 1) / 2 * t.den))
      ≡ (index_of_parts k (integer_part t) (fractional_num t) == r)
satisfied_odd k r t h hr e =
    let half : (r + 1) / 2 ≡ r / 2 + 1 = omega arith in
    rw (half, lt_whole t (r / 2 + 1) h, gt_whole t (r / 2) h)
      (odd_region k (integer_part t) (fractional_num t) (r / 2) r (omega arith) hr)

satisfied_last :
    (k r : ℕ) (t : Fraction)
    → 0 < t.den
    → r ≡ 2 * k + 1
    → ltb (r / 2 * t.den) t.num ≡ (index_of_parts k (integer_part t) (fractional_num t) == r)
satisfied_last k r t h hr =
    rw (gt_whole t (r / 2) h)
      (last_region k (integer_part t) (fractional_num t) (r / 2) r (omega arith) hr)

-- For K below 2^31 and the regions 0, …, 2 K + 1, a valuation whose fractional part is 0 or not
-- near 0 satisfies all constraints of a region exactly if `getRegionIndex` yields that region.
pub region_constraints_satisfied :
    (k r : ℕ) (t : Fraction)
    → 0 < t.den
    → IsResolved t
    → k < 2 ^ 31
    → r ≤ 2 * k + 1
    → all_of
        (λ c. is_satisfied c t)
        (get_clock_constraints_from_region_index r (2 * k + 1) both_bounds)
      ≡ (get_region_index_of k t == r)
unfolding get_clock_constraints_from_region_index is_satisfied
region_constraints_satisfied k r t h near hk hr =
    rw (get_region_index_of-parts k t h near hk)
      (ground (arith, satisfied_even k r t h hr, satisfied_odd k r t h, satisfied_last k r t h))
