-- ===== src/Automata/Ta/WellFormed.antt =====
-- src/automata/include/automata/ta.h and ta.hpp: what the constructors and the `add_` functions
-- keep true of a timed automaton.
use scico_d.Prelude.{
  true, false, ◌||◌, List, [], ◌∷◌, ◌≡◌, refl, sym, subst, arith, Ord, eqb_refl, member, includes,
  All, All-imp, Subset, Subset-insert, all_of-imp, member-insert, includes→Subset, Subset-insert,
  all_of-imp, ok, ok-injective, after-ok, Bool-cases, inl, inr, lt_asymm,
}
use scico_d.Automata.Ta.{
  Ta, Transition, insert_transition, add_transition, add_location, add_final_location, add_action,
  add_clock, add_locations, make_empty_ta, check_guards, add_transitions, make_ta,
  make_ta_without_transitions, knows_guards, knows_resets,
}

module _ {ℓ} {L A C : Type ℓ} ⦃l : Ord L⦄ where
  -- The order of the multimap.
  abbrev pub IsSorted : List (Transition L A C) → Type 0
  IsSorted [] = Unit
  IsSorted (x ∷ xs) = All (λ y. l.lt y.source x.source ≡ false) xs × IsSorted xs

  All-insert_transition {κ} :
      (P : Transition L A C → Type κ) (x : Transition L A C) (ts : List (Transition L A C))
      → P x
      → All P ts
      → All P (insert_transition x ts)
  unfolding insert_transition
  All-insert_transition P x [] p h = (p, tt)
  All-insert_transition P x (y ∷ ys) p h = ground (arith, All-insert_transition P x ys p)

  insert_transition-IsSorted :
      (x : Transition L A C) (ts : List (Transition L A C))
      → IsSorted ts
      → IsSorted (insert_transition x ts)
  unfolding insert_transition
  insert_transition-IsSorted x [] h = (tt, tt)
  insert_transition-IsSorted x (y ∷ ys) (h, hs) = elim (Bool-cases (l.lt x.source y.source)) [
    | inl p ↦ rw p (
      (
        lt_asymm x.source y.source p,
        All-imp (λ z k. ground (arith, l.lt_trans z.source x.source y.source)) ys h,
      ),
      (h, hs),
    )
    | inr p ↦ rw p (
      All-insert_transition (λ z. l.lt z.source y.source ≡ false) x ys p h,
      insert_transition-IsSorted x ys hs,
    )
  ]

module _ {ℓ} {L A C : Type ℓ} ⦃l : Ord L⦄ ⦃o : Ord A⦄ ⦃c : Ord C⦄ where
  -- The transition mentions symbols, locations and clocks of the automaton only.
  abbrev pub IsKnown : Ta L A C → Transition L A C → Type 0
  IsKnown ta tr =
      (member tr.symbol ta.alphabet ≡ true)
      × (member tr.source ta.locations ≡ true)
      × (member tr.target ta.locations ≡ true)
      × (knows_guards ta.clocks tr.clock_constraints ≡ true)
      × (knows_resets ta.clocks tr.clock_resets ≡ true)

  abbrev pub IsWellFormed : Ta L A C → Type ℓ
  IsWellFormed ta =
      (member ta.initial_location ta.locations ≡ true)
      × Subset ta.final_locations ta.locations
      × All (IsKnown ta) ta.transitions
      × IsSorted ta.transitions

  -- An automaton that the constructors and the `add_` functions build.
  pub data IsBuilt : Ta L A C → Type ℓ where
    from_alphabet :
        (alphabet : List A) (initial : L) (finals : List L)
        → IsBuilt (make_empty_ta alphabet initial finals)
    from_transitions :
        {ta : Ta L A C} (locations : List L) (alphabet : List A) (initial : L) (finals : List L)
        (clocks : List C) (transitions : List (Transition L A C))
        → make_ta locations alphabet initial finals clocks transitions ≡ ok ta
        → IsBuilt ta
    with_location : {ta : Ta L A C} → IsBuilt ta → (x : L) → IsBuilt (add_location ta x)
    with_final_location : {ta : Ta L A C} → IsBuilt ta → (x : L) → IsBuilt (add_final_location ta x)
    with_action : {ta : Ta L A C} → IsBuilt ta → (x : A) → IsBuilt (add_action ta x)
    with_clock : {ta : Ta L A C} → IsBuilt ta → (x : C) → IsBuilt (add_clock ta x)
    with_transition :
        {ta ta' : Ta L A C}
        → IsBuilt ta
        → (x : Transition L A C) → add_transition ta x ≡ ok ta'
        → IsBuilt ta'

  -- A transition is added exactly if all that it mentions is known.
  add_transition-IsKnown :
      (ta ta' : Ta L A C) (tr : Transition L A C)
      → add_transition ta tr ≡ ok ta'
      → IsKnown ta tr × (ta' ≡ record ta { transitions = insert_transition tr ta.transitions })
  unfolding add_transition
  add_transition-IsKnown ta ta' tr h = ground arith

  -- More symbols, locations and clocks are known.
  IsKnown-imp :
      (ta ta' : Ta L A C)
      → Subset ta.alphabet ta'.alphabet
      → Subset ta.locations ta'.locations
      → Subset ta.clocks ta'.clocks
      → (tr : Transition L A C) → IsKnown ta tr
      → IsKnown ta' tr
  IsKnown-imp ta ta' symbols ls cs tr (a, s, t, g, r) = (
    symbols tr.symbol a,
    ls tr.source s,
    ls tr.target t,
    all_of-imp (λ x. cs x.0) tr.clock_constraints g,
    all_of-imp cs tr.clock_resets r,
  )

  add_transition-IsWellFormed :
      (ta ta' : Ta L A C) (tr : Transition L A C)
      → add_transition ta tr ≡ ok ta'
      → IsWellFormed ta
      → IsWellFormed ta'
  add_transition-IsWellFormed ta ta' tr e (i, f, k, s) =
      let (known, e') = add_transition-IsKnown ta ta' tr e in
      subst IsWellFormed (sym e') (
        i,
        f,
        All-insert_transition (IsKnown ta) tr ta.transitions known k,
        insert_transition-IsSorted tr ta.transitions s,
      )

  add_location-IsWellFormed :
      (ta : Ta L A C) (x : L) → IsWellFormed ta → IsWellFormed (add_location ta x)
  unfolding add_location
  add_location-IsWellFormed ta x (i, f, k, s) =
      let more = Subset-insert x ta.locations in
      (
        more ta.initial_location i,
        λ a m. more a (f a m),
        All-imp (IsKnown-imp ta (add_location ta x) (λ a m. m) more (λ a m. m)) ta.transitions k,
        s,
      )

  add_final_location-IsWellFormed :
      (ta : Ta L A C) (x : L) → IsWellFormed ta → IsWellFormed (add_final_location ta x)
  unfolding add_final_location
  add_final_location-IsWellFormed ta x (i, f, k, s) =
      let more = Subset-insert x ta.locations in
      (
        more ta.initial_location i,
        λ a m.
            ground
              (arith, f a, member-insert a x ta.locations, member-insert a x ta.final_locations),
        All-imp (IsKnown-imp ta (add_final_location ta x) (λ a m. m) more (λ a m. m)) ta.transitions
            k,
        s,
      )

  add_locations-IsWellFormed :
      (ta : Ta L A C) (xs : List L)
      → member ta.initial_location ta.locations ≡ true
      → ta.transitions ≡ []
      → ((a : L)
          → member a ta.final_locations ≡ true
          → (member a xs || member a ta.locations) ≡ true)
      → IsWellFormed (add_locations ta xs)
  unfolding add_locations add_location
  add_locations-IsWellFormed ta [] i e f =
      (i, λ a m. f a m, subst (All (IsKnown ta)) (sym e) tt, subst IsSorted (sym e) tt)
  add_locations-IsWellFormed ta (x ∷ xs) i e f =
      add_locations-IsWellFormed (add_location ta x) xs (Subset-insert x ta.locations _ i) e
        (λ a m. ground (arith, f a m, member-insert a x ta.locations))

  add_transitions-IsWellFormed :
      (ta ta' : Ta L A C) (trs : List (Transition L A C))
      → add_transitions ta trs ≡ ok ta'
      → IsWellFormed ta
      → IsWellFormed ta'
  unfolding add_transitions
  add_transitions-IsWellFormed ta ta' [] e h = subst IsWellFormed (ok-injective e) h
  add_transitions-IsWellFormed ta ta' (tr ∷ trs) e h =
      let (u, c', e1) = after-ok (check_guards ta.clocks tr.clock_constraints) e in
      let (ta1, e2, e3) = after-ok (add_transition ta tr) e1 in
      add_transitions-IsWellFormed ta1 ta' trs e3 (add_transition-IsWellFormed ta ta1 tr e2 h)

  make_ta-IsWellFormed :
      (locations : List L) (alphabet : List A) (initial : L) (finals : List L) (clocks : List C)
      (transitions : List (Transition L A C)) (ta : Ta L A C)
      → make_ta locations alphabet initial finals clocks transitions ≡ ok ta
      → IsWellFormed ta
  unfolding make_ta
  make_ta-IsWellFormed locations alphabet initial finals clocks transitions ta e =
      elim (Bool-cases (includes locations finals)) [
        | inl p ↦ elim (Bool-cases (member initial locations)) [
          | inl q ↦
              add_transitions-IsWellFormed
                (make_ta_without_transitions locations alphabet initial finals clocks) ta
                transitions (ground arith) (q, includes→Subset locations finals p, tt, tt)
          | inr q ↦ ground arith
        ]
        | inr p ↦ ground arith
      ]

  -- Every automaton that is built is well-formed: its initial and final locations are locations of
  -- it, its transitions mention only symbols, locations and clocks that it has, and they are in the
  -- order of their sources.
  pub IsBuilt→IsWellFormed : (ta : Ta L A C) → IsBuilt ta → IsWellFormed ta
  unfolding make_empty_ta add_action add_clock
  IsBuilt→IsWellFormed _ (from_alphabet alphabet initial finals) =
      add_locations-IsWellFormed _ finals (ground (arith, eqb_refl initial)) refl
        (λ a m. ground arith)
  IsBuilt→IsWellFormed ta (from_transitions locations alphabet initial finals clocks trs e) =
      make_ta-IsWellFormed locations alphabet initial finals clocks trs ta e
  IsBuilt→IsWellFormed _ (with_location b x) =
      add_location-IsWellFormed _ x (IsBuilt→IsWellFormed _ b)
  IsBuilt→IsWellFormed _ (with_final_location b x) =
      add_final_location-IsWellFormed _ x (IsBuilt→IsWellFormed _ b)
  IsBuilt→IsWellFormed _ (with_action {ta = ta} b x) =
      let (i, f, k, s) = IsBuilt→IsWellFormed ta b in
      let more = Subset-insert x ta.alphabet in
      (
        i,
        f,
        All-imp (IsKnown-imp ta (add_action ta x) more (λ a m. m) (λ a m. m)) ta.transitions k,
        s,
      )
  IsBuilt→IsWellFormed _ (with_clock {ta = ta} b x) =
      let (i, f, k, s) = IsBuilt→IsWellFormed ta b in
      let more = Subset-insert x ta.clocks in
      (
        i,
        f,
        All-imp (IsKnown-imp ta (add_clock ta x) (λ a m. m) (λ a m. m) more) ta.transitions k,
        s,
      )
  IsBuilt→IsWellFormed ta' (with_transition {ta = ta} b x e) =
      add_transition-IsWellFormed ta ta' x e (IsBuilt→IsWellFormed ta b)
