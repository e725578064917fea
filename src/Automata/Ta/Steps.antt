-- ===== src/Automata/Ta/Steps.antt =====
-- src/automata/include/automata/ta.hpp: `make_symbol_step` against the transitions that can be
-- taken, and `get_largest_constant` against the constants of the guards.
use scico_d.Prelude.{
  Bool, true, false, ◌||◌, ◌&&◌, List, [], ◌∷◌, ◌≡◌, refl, arith, Ord, eqb, insert, member, any_of,
  all_of, All, All-imp, IsAscending, insert-IsAscending, member-insert, lookup, has_key,
  lookup-has_key, none, some, ok, Bool-cases, inl, inr,
}
use scico_d.Automata.ClockConstraint.{TimeDomain, ClockConstraint, is_satisfied}
use scico_d.Automata.Ta.{Ta, Transition, TaConfiguration, knows_guards}
use scico_d.Automata.Ta.Runs.{
  configuration_ord, satisfies_guards, is_enabled, take_equal, equal_range, target_configuration,
  insert_targets, make_symbol_step,
}
use scico_d.Automata.Ta.WellFormed.{IsSorted, IsWellFormed}

module _ {ℓ} {C V : Type ℓ} ⦃c : Ord C⦄ ⦃t : TimeDomain V⦄ where
  -- The guard holds of a valuation of its clock.
  unfoldable pub holds : List (C × V) → C × ClockConstraint → Bool
  holds clock_vals (name, constraint) = elim (lookup name clock_vals) [
    | none ↦ false
    | some v ↦ is_satisfied constraint v
  ]

  -- Every clock has a valuation.
  abbrev pub IsDefined : List C → List (C × V) → Type ℓ
  IsDefined clocks clock_vals = (x : C) → member x clocks ≡ true → has_key x clock_vals ≡ true

  satisfies_guards-all_of :
      (clocks : List C) (clock_vals : List (C × V)) (guards : List (C × ClockConstraint))
      → IsDefined clocks clock_vals
      → knows_guards clocks guards ≡ true
      → satisfies_guards guards clock_vals ≡ ok (all_of (holds clock_vals) guards)
  unfolding satisfies_guards holds
  satisfies_guards-all_of clocks clock_vals [] d k = refl
  satisfies_guards-all_of clocks clock_vals ((name, constraint) ∷ guards) d k =
      let (valuation, e) = lookup-has_key name clock_vals (d name (ground arith)) in
      ground (arith, e, satisfies_guards-all_of clocks clock_vals guards d)

module _ {ℓ} {L A C : Type ℓ} ⦃l : Ord L⦄ where
  any_of-above :
      (q : Transition L A C → Bool) (location : L) (trs : List (Transition L A C))
      → All (λ y. l.lt location y.source ≡ true) trs
      → any_of (λ y. eqb y.source location && q y) trs ≡ false
  any_of-above q location [] h = refl
  any_of-above q location (y ∷ ys) (h, hs) = ground (arith, any_of-above q location ys hs)

  any_of-take_equal :
      (q : Transition L A C → Bool) (location : L) (trs : List (Transition L A C))
      → All (λ y. l.lt y.source location ≡ false) trs
      → IsSorted trs
      → any_of q (take_equal location trs) ≡ any_of (λ y. eqb y.source location && q y) trs
  any_of-take_equal q location [] h s = refl
  any_of-take_equal q location (y ∷ ys) (h, hs) (s, ss) =
      elim (Bool-cases (l.lt location y.source)) [
        | inl p ↦ ground (
          arith,
          any_of-above q location ys (
              All-imp
                (λ z k.
                  ground
                    (arith, l.lt_trans location y.source z.source, l.lt_total y.source z.source))
                ys s),
        )
        | inr p ↦ ground (arith, any_of-take_equal q location ys hs ss)
      ]

  -- The range of the multimap holds the transitions with the source.
  any_of-equal_range :
      (q : Transition L A C → Bool) (location : L) (trs : List (Transition L A C))
      → IsSorted trs
      → any_of q (equal_range location trs) ≡ any_of (λ y. eqb y.source location && q y) trs
  unfolding equal_range
  any_of-equal_range q location [] s = refl
  any_of-equal_range q location (y ∷ ys) (s, ss) = elim (Bool-cases (l.lt y.source location)) [
    | inl p ↦ ground (arith, any_of-equal_range q location ys ss)
    | inr p ↦ ground (
      arith,
      any_of-take_equal q location (y ∷ ys)
          (
            p,
            All-imp
                (λ z k.
                  ground
                    (arith, l.lt_trans z.source location y.source, l.lt_total location y.source))
                ys s,
          )
          (s, ss),
    )
  ]

  All-take_equal {κ} :
      (P : Transition L A C → Type κ) (location : L) (trs : List (Transition L A C))
      → All P trs
      → All P (take_equal location trs)
  All-take_equal P location [] h = tt
  All-take_equal P location (y ∷ ys) h = ground (arith, All-take_equal P location ys)

  All-equal_range {κ} :
      (P : Transition L A C → Type κ) (location : L) (trs : List (Transition L A C))
      → All P trs
      → All P (equal_range location trs)
  unfolding equal_range
  All-equal_range P location [] h = tt
  All-equal_range P location (y ∷ ys) h =
      ground (arith, All-equal_range P location ys, All-take_equal P location (y ∷ ys))

module _ {ℓ} {L A C V : Type ℓ} ⦃l : Ord L⦄ ⦃o : Ord A⦄ ⦃c : Ord C⦄ ⦃v : Ord V⦄
    ⦃t : TimeDomain V⦄ where
  -- The transition has the location and the symbol, and its guards hold.
  abbrev pub can_fire : TaConfiguration L C V → A → Transition L A C → Bool
  can_fire configuration symbol tr =
      eqb symbol tr.symbol && all_of (holds configuration.clock_valuations) tr.clock_constraints

  inserted_targets :
      (clocks : List C) (configuration : TaConfiguration L C V) (symbol : A)
      (trs : List (Transition L A C)) (res : List (TaConfiguration L C V))
      → IsDefined clocks configuration.clock_valuations
      → All (λ tr. knows_guards clocks tr.clock_constraints ≡ true) trs
      → IsAscending res
      → (next : List (TaConfiguration L C V)) × (insert_targets configuration symbol trs res
          ≡ ok next)
        × IsAscending next
        × ((x : TaConfiguration L C V)
            → member x next ≡ (
                any_of
                  (λ tr.
                    can_fire configuration symbol tr
                    && eqb x (target_configuration configuration tr))
                  trs
                || member x res))
  unfolding insert_targets is_enabled
  inserted_targets clocks configuration symbol [] res d k h = (res, refl, h, λ x. refl)
  inserted_targets clocks configuration symbol (tr ∷ trs) res d (k, ks) h =
      let guards =
        satisfies_guards-all_of clocks configuration.clock_valuations tr.clock_constraints d k in
      elim (Bool-cases (can_fire configuration symbol tr)) [
        | inl p ↦
            let target = target_configuration configuration tr in
            let (next, e, a, f) =
              inserted_targets clocks configuration symbol trs (insert target res) d ks
                (insert-IsAscending target res h) in
            (
              next,
              ground (arith, guards, e),
              a,
              λ x. ground (arith, f x, member-insert x target res),
            )
        | inr p ↦
            let (next, e, a, f) = inserted_targets clocks configuration symbol trs res d ks h in
            (next, ground (arith, guards, e), a, λ x. ground (arith, f x))
      ]

  -- In a well-formed automaton, a step from a configuration with a valuation of each clock throws no
  -- exception, and leads, in a set, exactly to the configurations to which some transition from the
  -- location with the symbol leads whose guards all hold.
  pub make_symbol_step_iff :
      (ta : Ta L A C) (configuration : TaConfiguration L C V) (symbol : A)
      → IsWellFormed ta
      → IsDefined ta.clocks configuration.clock_valuations
      → (next : List (TaConfiguration L C V)) × (make_symbol_step ta configuration symbol ≡ ok next)
        × IsAscending next
        × ((x : TaConfiguration L C V)
            → member x next
              ≡ any_of
                  (λ tr.
                    eqb tr.source configuration.location
                    && (can_fire configuration symbol tr
                        && eqb x (target_configuration configuration tr)))
                  ta.transitions)
  unfolding make_symbol_step
  make_symbol_step_iff ta configuration symbol (i, f, k, s) d =
      let range = equal_range configuration.location ta.transitions in
      let known =
        All-equal_range (λ tr. knows_guards ta.clocks tr.clock_constraints ≡ true)
          configuration.location ta.transitions
          (All-imp (λ tr h. let (a, source, target, guards, r) = h in guards) ta.transitions k) in
      let (next, e, a, g) = inserted_targets ta.clocks configuration symbol range [] d known tt in
      (
        next,
        e,
        a,
        λ x. ground (
          arith,
          g x,
          any_of-equal_range
              (λ tr.
                can_fire configuration symbol tr && eqb x (target_configuration configuration tr))
              configuration.location ta.transitions s,
        ),
      )
