-- ===== src/Automata/Ta/Constants.antt =====
-- src/automata/include/automata/ta.hpp: `get_largest_constant` against the constants of the guards.
use scico_d.Prelude.{
  ℕ, List, [], ◌∷◌, ◌≡◌, refl, sym, ◌∙◌, arith, ltb, All, All-imp, ◌≤◌, ◌⊎◌, inl, inr, Memᴰ,
  if◌then◌else◌, Bool-cases,
}
use mathlib.Core.List.Memᴰ.{head, tail}
use scico_d.Automata.ClockConstraint.{ClockConstraint, get_comparand}
use scico_d.Automata.Ta.{Ta, Transition}
use scico_d.Automata.Ta.Runs.{max_comparand, max_constant, get_largest_constant}

module _ {ℓ} {C : Type ℓ} where
  abbrev pub IsBound : ℕ → List (C × ClockConstraint) → Type 0
  IsBound k guards = All (λ g. get_comparand g.1 ≤ k) guards

  abbrev pub IsConstant : ℕ → List (C × ClockConstraint) → Type ℓ
  IsConstant k guards = (g : C × ClockConstraint) × Memᴰ g guards × (get_comparand g.1 ≡ k)

  max_comparand-IsBound :
      (guards : List (C × ClockConstraint)) (res : ℕ)
      → (res ≤ max_comparand guards res) × IsBound (max_comparand guards res) guards
  max_comparand-IsBound [] res = (ground arith, tt)
  max_comparand-IsBound ((x, constraint) ∷ guards) res =
      let k = get_comparand constraint in
      let (above, bounds) = max_comparand-IsBound guards (if ltb res k then k else res) in
      (ground arith, (ground arith, bounds))

  max_comparand-IsConstant :
      (guards : List (C × ClockConstraint)) (res : ℕ)
      → (max_comparand guards res ≡ res) ⊎ IsConstant (max_comparand guards res) guards
  max_comparand-IsConstant [] res = inl refl
  max_comparand-IsConstant ((x, constraint) ∷ guards) res =
      let k = get_comparand constraint in
      let first : C × ClockConstraint = (x, constraint) in
      elim (max_comparand-IsConstant guards (if ltb res k then k else res)) [
        | inr (g, m, e) ↦ inr (g, tail m, e)
        | inl e ↦ elim (Bool-cases (ltb res k)) [
          | inl p ↦ inr (first, head refl, ground arith)
          | inr p ↦ inl (ground arith)
        ]
      ]

module _ {ℓ} {L A C : Type ℓ} where
  max_constant-IsBound :
      (trs : List (Transition L A C)) (res : ℕ)
      → (res ≤ max_constant trs res)
        × All (λ tr. IsBound (max_constant trs res) tr.clock_constraints) trs
  max_constant-IsBound [] res = (ground arith, tt)
  max_constant-IsBound (tr ∷ trs) res =
      let (above, bounds) = max_comparand-IsBound tr.clock_constraints res in
      let (above', bounds') = max_constant-IsBound trs (max_comparand tr.clock_constraints res) in
      (
        ground arith,
        (
          All-imp
              (λ g (b : get_comparand g.1 ≤ max_comparand tr.clock_constraints res). ground arith)
              tr.clock_constraints bounds,
          bounds',
        ),
      )

  max_constant-IsConstant :
      (trs : List (Transition L A C)) (res : ℕ)
      → (max_constant trs res ≡ res)
        ⊎ ((tr : Transition L A C) × Memᴰ tr trs
            × IsConstant (max_constant trs res) tr.clock_constraints)
  max_constant-IsConstant [] res = inl refl
  max_constant-IsConstant (tr ∷ trs) res =
      elim (max_constant-IsConstant trs (max_comparand tr.clock_constraints res)) [
        | inr (tr', m, k) ↦ inr (tr', tail m, k)
        | inl e ↦ elim (max_comparand-IsConstant tr.clock_constraints res) [
          | inr (g, m, k) ↦ inr (tr, head refl, (g, m, k ∙ sym e))
          | inl k ↦ inl (e ∙ k)
        ]
      ]

  -- The largest constant bounds the constant of every guard of every transition, and is 0 or the
  -- constant of some guard.
  pub get_largest_constant_is_maximum :
      (ta : Ta L A C)
      → All (λ tr. IsBound (get_largest_constant ta) tr.clock_constraints) ta.transitions
        × ((get_largest_constant ta ≡ 0)
            ⊎ ((tr : Transition L A C) × Memᴰ tr ta.transitions
                × IsConstant (get_largest_constant ta) tr.clock_constraints))
  get_largest_constant_is_maximum ta =
      let (above, bounds) = max_constant-IsBound ta.transitions 0 in
      (bounds, max_constant-IsConstant ta.transitions 0)
