-- ===== src/Mtl/Satisfaction/Until.antt =====
-- src/mtl/include/mtl/MTLFormula.hpp: what the loop of LOP::LUNTIL in `satisfies_at` decides.
use scico_d.Prelude.{
  ℕ, zero, suc, ◌+◌, ◌-◌, ◌≤◌, ◌<◌, Bool, true, false, length, Ord, ◌≡◌, ◌↔◌, subst, inl, inr,
  Bool-cases, arith, ◌==◌, ==_iff,
}
use scico_d.Utilities.Interval.{Interval}
use scico_d.Mtl.Formula.{MtlFormula, luntil}
use scico_d.Mtl.Satisfaction.{MtlWord, in_time, until_loop, satisfies_at}

-- The first position from `j` on, and before `size`, at which `back` holds is timely, and `front`
-- holds at all positions before it.
abbrev pub FirstWitness : (front back timely : ℕ → Bool) → ℕ → ℕ → Type 0
FirstWitness front back timely j size =
    (k : ℕ) × (j ≤ k)
    × (k < size)
    × (back k ≡ true)
    × (timely k ≡ true)
    × ((m : ℕ) → j ≤ m → m < k → (back m ≡ false) × (front m ≡ true))

split_at {κ} :
    (Q : ℕ → Type κ) (j k : ℕ)
    → Q j
    → ((m : ℕ) → suc j ≤ m → m < k → Q m)
    → (m : ℕ) → j ≤ m
    → m < k
    → Q m
split_at Q j k here later m le lt = elim (Bool-cases (j == m)) [
  | inl e ↦ subst Q ((==_iff j m).0 e) here
  | inr e ↦ later m (ground arith) lt
]

until_loop→FirstWitness :
    (front back timely : ℕ → Bool) (left j size : ℕ)
    → j + left ≡ size
    → until_loop front back timely left j ≡ true
    → FirstWitness front back timely j size
unfolding until_loop
until_loop→FirstWitness front back timely zero j size e h = cc
until_loop→FirstWitness front back timely (suc left) j size e h = elim (Bool-cases (back j)) [
  | inl b ↦ (j, omega arith, omega arith, b, ground arith, λ m le lt. absurd (omega arith))
  | inr b ↦
      let f : front j ≡ true = ground arith in
      let (k, le, lt, bk, tk, before) =
        until_loop→FirstWitness front back timely left (suc j) size (omega arith) (ground arith) in
      (
        k,
        omega arith,
        lt,
        bk,
        tk,
        split_at (λ m. (back m ≡ false) × (front m ≡ true)) j k (b, f) before,
      )
]

FirstWitness→until_loop :
    (front back timely : ℕ → Bool) (left j size : ℕ)
    → j + left ≡ size
    → FirstWitness front back timely j size
    → until_loop front back timely left j ≡ true
unfolding until_loop
FirstWitness→until_loop front back timely zero j size e (k, le, lt, bk, tk, before) =
    absurd (omega arith)
FirstWitness→until_loop front back timely (suc left) j size e (k, le, lt, bk, tk, before) =
    elim (Bool-cases (j == k)) [
      | inl same ↦ let at = (==_iff j k).0 same in ground arith
      | inr differ ↦
          let (b, f) = before j (omega arith) (ground arith) in
          ground (
            arith,
            FirstWitness→until_loop front back timely left (suc j) size (omega arith)
                (k, ground arith, lt, bk, tk, λ m mle mlt. before m (omega arith) mlt),
          )
    ]

-- An until is satisfied at a position of the word exactly if there is a later position that
-- satisfies the right operand, the first such one is in time, and the left operand is satisfied at
-- all positions between.
pub satisfies_at-luntil_iff {ℓ} :
    {P : Type ℓ} ⦃o : Ord P⦄ (w : MtlWord P) (f g : MtlFormula P) (d : Interval) (i : ℕ)
    → i < length w
    → (satisfies_at w (luntil f g d) i ≡ true)
      ↔ FirstWitness (satisfies_at w f) (satisfies_at w g) (in_time w d i) (i + 1) (length w)
unfolding satisfies_at
satisfies_at-luntil_iff w f g d i h = (
  λ s.
      until_loop→FirstWitness (satisfies_at w f) (satisfies_at w g) (in_time w d i)
        (length w - (i + 1)) (i + 1) (length w) (omega arith) (ground arith),
  λ s. ground (
    arith,
    FirstWitness→until_loop (satisfies_at w f) (satisfies_at w g) (in_time w d i)
        (length w - (i + 1)) (i + 1) (length w) (omega arith) s,
  ),
)
