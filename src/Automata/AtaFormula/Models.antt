-- ===== src/Automata/AtaFormula/Models.antt =====
-- src/automata/include/automata/ata_formula.hpp: the minimal models of a formula are exactly what a
-- satisfying set of states must include.
use scico_d.Prelude.{
  Bool, true, ◌&&◌, ◌||◌, List, [], ◌∷◌, Ord, ◌≡◌, refl, arith, Bool-cases, inl, inr, insert,
  insert_all, includes, any_of, list_ord, All, All-insert, IsAscending, insert_all-IsAscending,
  includes_trans, includes-insert_all, includes-singleton, any_of-insert, includes-nil,
}
use scico_d.Automata.ClockConstraint.{TimeDomain, is_satisfied}
use scico_d.Automata.AtaFormula.{
  state_ord, Formula, true_formula, false_formula, location_formula, clock_constraint_formula,
  conjunction_formula, disjunction_formula, reset_clock_formula, States, insert_unions,
  cartesian_unions, erase_supersets, add_models, is_satisfied_by, get_minimal_models,
}

module _ {ℓ} {L V : Type ℓ} ⦃l : Ord L⦄ ⦃v : Ord V⦄ where
  -- The set includes one of the models.
  abbrev pub covers : States L V → List (States L V) → Bool
  covers s models = any_of (λ m. includes s m) models

  abbrev pub AreSets : List (States L V) → Type 0
  AreSets models = All (λ m. IsAscending m) models

  insert_unions-AreSets :
      (m1 : States L V) (s2 res : List (States L V))
      → IsAscending m1
      → AreSets res
      → AreSets (insert_unions m1 s2 res)
  unfolding insert_unions
  insert_unions-AreSets m1 [] res h hr = hr
  insert_unions-AreSets m1 (m2 ∷ s2) res h hr =
      insert_unions-AreSets m1 s2 (insert (insert_all m2 m1) res) h
        (All-insert (λ m. IsAscending m) (insert_all m2 m1) res (insert_all-IsAscending m2 m1 h) hr)

  cartesian_unions-AreSets :
      (s1 s2 res : List (States L V))
      → AreSets s1
      → AreSets res
      → AreSets (cartesian_unions s1 s2 res)
  unfolding cartesian_unions
  cartesian_unions-AreSets [] s2 res h hr = hr
  cartesian_unions-AreSets (m1 ∷ s1) s2 res (h, hs) hr =
      cartesian_unions-AreSets s1 s2 (insert_unions m1 s2 res) hs
        (insert_unions-AreSets m1 s2 res h hr)

  erase_supersets-AreSets :
      (s1 s2 : List (States L V)) → AreSets s1 → AreSets (erase_supersets s1 s2)
  unfolding erase_supersets
  erase_supersets-AreSets [] s2 h = tt
  erase_supersets-AreSets (m1 ∷ s1) s2 (h, hs) =
      elim (Bool-cases (any_of (λ m2. includes m1 m2) s2)) [
        | inl e ↦ rw (e, erase_supersets) (erase_supersets-AreSets s1 s2 hs)
        | inr e ↦ rw (e, erase_supersets) (h, erase_supersets-AreSets s1 s2 hs)
      ]

  add_models-AreSets :
      (s2 res : List (States L V)) → AreSets s2 → AreSets res → AreSets (add_models s2 res)
  unfolding add_models
  add_models-AreSets [] res h hr = hr
  add_models-AreSets (m2 ∷ s2) res (h, hs) hr =
      elim (Bool-cases (any_of (λ m1. includes m2 m1) res)) [
        | inl e ↦ rw (e, add_models) (add_models-AreSets s2 res hs hr)
        | inr e ↦
            rw (e, add_models)
              (add_models-AreSets s2 (insert m2 res) hs
                (All-insert (λ m. IsAscending m) m2 res h hr))
      ]

  covers-insert_unions :
      (s m1 : States L V) (s2 res : List (States L V))
      → IsAscending s
      → IsAscending m1
      → AreSets s2
      → covers s (insert_unions m1 s2 res) ≡ ((includes s m1 && covers s s2) || covers s res)
  unfolding insert_unions
  covers-insert_unions s m1 [] res hs h1 h2 = ground arith
  covers-insert_unions s m1 (m2 ∷ s2) res hs h1 (hm, h2) = ground (
    arith,
    covers-insert_unions s m1 s2 (insert (insert_all m2 m1) res) hs h1 h2,
    any_of-insert (λ m. includes s m) (insert_all m2 m1) res,
    includes-insert_all s m2 m1 hs hm h1,
  )

  covers-cartesian_unions :
      (s : States L V) (s1 s2 res : List (States L V))
      → IsAscending s
      → AreSets s1
      → AreSets s2
      → covers s (cartesian_unions s1 s2 res) ≡ ((covers s s1 && covers s s2) || covers s res)
  unfolding cartesian_unions
  covers-cartesian_unions s [] s2 res hs h1 h2 = refl
  covers-cartesian_unions s (m1 ∷ s1) s2 res hs (hm, h1) h2 = ground (
    arith,
    covers-cartesian_unions s s1 s2 (insert_unions m1 s2 res) hs h1 h2,
    covers-insert_unions s m1 s2 res hs hm h2,
  )

  -- A set that includes `m` includes what `m` includes.
  covers-of_included :
      (s m : States L V) (models : List (States L V))
      → IsAscending s
      → AreSets models
      → includes s m ≡ true
      → covers m models ≡ true
      → covers s models ≡ true
  covers-of_included s m [] hs hm p q = q
  covers-of_included s m (n ∷ models) hs (hn, hm) p q =
      ground (arith, includes_trans s m n hs hn p, covers-of_included s m models hs hm p)

  covers-erase_supersets :
      (s : States L V) (s1 s2 : List (States L V))
      → IsAscending s
      → AreSets s2
      → (covers s (erase_supersets s1 s2) || covers s s2) ≡ (covers s s1 || covers s s2)
  unfolding erase_supersets
  covers-erase_supersets s [] s2 hs h2 = refl
  covers-erase_supersets s (m1 ∷ s1) s2 hs h2 =
      ground (arith, covers-of_included s m1 s2 hs h2, covers-erase_supersets s s1 s2 hs h2)

  covers-add_models :
      (s : States L V) (s2 res : List (States L V))
      → IsAscending s
      → AreSets s2
      → AreSets res
      → covers s (add_models s2 res) ≡ (covers s s2 || covers s res)
  unfolding add_models
  covers-add_models s [] res hs h2 hr = refl
  covers-add_models s (m2 ∷ s2) res hs (hm, h2) hr =
      elim (Bool-cases (any_of (λ m1. includes m2 m1) res)) [
        | inl e ↦
            rw (e, add_models)
              (ground
                (arith, covers-of_included s m2 res hs hr, covers-add_models s s2 res hs h2 hr))
        | inr e ↦
            rw (e, add_models)
              (ground (
                arith,
                covers-add_models s s2 (insert m2 res) hs h2
                    (All-insert (λ m. IsAscending m) m2 res hm hr),
                any_of-insert (λ m. includes s m) m2 res,
              ))
      ]

module _ {ℓ} {L V : Type ℓ} ⦃l : Ord L⦄ ⦃v : Ord V⦄ ⦃t : TimeDomain V⦄ where
  pub get_minimal_models-AreSets : (f : Formula L) (x : V) → AreSets (get_minimal_models f x)
  unfolding get_minimal_models
  get_minimal_models-AreSets true_formula x = (tt, tt)
  get_minimal_models-AreSets false_formula x = tt
  get_minimal_models-AreSets (location_formula a) x = ((tt, tt), tt)
  get_minimal_models-AreSets (clock_constraint_formula c) x = elim (Bool-cases (is_satisfied c x)) [
    | inl e ↦ rw e (tt, tt)
    | inr e ↦ rw e tt
  ]
  get_minimal_models-AreSets (conjunction_formula f g) x =
      cartesian_unions-AreSets (get_minimal_models f x) (get_minimal_models g x) []
        (get_minimal_models-AreSets f x) tt
  get_minimal_models-AreSets (disjunction_formula f g) x =
      add_models-AreSets (get_minimal_models g x) _ (get_minimal_models-AreSets g x) (
        erase_supersets-AreSets (get_minimal_models f x) (get_minimal_models g x)
          (get_minimal_models-AreSets f x))
  get_minimal_models-AreSets (reset_clock_formula f) x = get_minimal_models-AreSets f t.origin

  -- A set of states satisfies a formula exactly if it includes one of its minimal models.
  pub is_satisfied_by-get_minimal_models :
      (f : Formula L) (s : States L V) (x : V)
      → IsAscending s
      → is_satisfied_by f s x ≡ covers s (get_minimal_models f x)
  unfolding is_satisfied_by get_minimal_models
  is_satisfied_by-get_minimal_models true_formula s x h = ground (arith, includes-nil s)
  is_satisfied_by-get_minimal_models false_formula s x h = refl
  is_satisfied_by-get_minimal_models (location_formula a) s x h =
      rw (includes-singleton s (record { location = a; clock_valuation = x }) h) (ground arith)
  is_satisfied_by-get_minimal_models (clock_constraint_formula c) s x h =
      ground (arith, includes-nil s)
  is_satisfied_by-get_minimal_models (conjunction_formula f g) s x h = ground (
    arith,
    is_satisfied_by-get_minimal_models f s x h,
    is_satisfied_by-get_minimal_models g s x h,
    covers-cartesian_unions s (get_minimal_models f x) (get_minimal_models g x) [] h
        (get_minimal_models-AreSets f x) (get_minimal_models-AreSets g x),
  )
  is_satisfied_by-get_minimal_models (disjunction_formula f g) s x h =
      let m1 = get_minimal_models f x in
      let m2 = get_minimal_models g x in
      ground (
        arith,
        is_satisfied_by-get_minimal_models f s x h,
        is_satisfied_by-get_minimal_models g s x h,
        covers-add_models s m2 (erase_supersets m1 m2) h (get_minimal_models-AreSets g x)
            (erase_supersets-AreSets m1 m2 (get_minimal_models-AreSets f x)),
        covers-erase_supersets s m1 m2 h (get_minimal_models-AreSets g x),
      )
  is_satisfied_by-get_minimal_models (reset_clock_formula f) s x h =
      is_satisfied_by-get_minimal_models f s t.origin h
