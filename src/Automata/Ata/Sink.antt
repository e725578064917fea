-- ===== src/Automata/Ata/Sink.antt =====
-- src/automata/include/automata/ata.hpp: what the constructor guarantees about the sink location.
use scico_d.Prelude.{
  false, List, [], ◌∷◌, none, some, Ord, ◌≡◌, refl, arith, eqb, member, any_of, Bool-cases, inl,
  inr, Result, ok, subst, ok-injective,
}
use scico_d.Automata.ClockConstraint.{TimeDomain}
use scico_d.Automata.AtaFormula.{State, state_ord}
use scico_d.Automata.Ata.{
  Transition, Ata, AtaError, check_sink, make_ata, find_transition, models_of_states,
  make_symbol_step, is_accepting_configuration,
}

module _ {ℓ} {L S : Type ℓ} ⦃l : Ord L⦄ ⦃o : Ord S⦄ where
  no_transition :
      (ts : List (Transition L S)) (sink : L) (symbol : S)
      → any_of (λ tr. eqb tr.source sink) ts ≡ false
      → find_transition ts sink symbol ≡ none
  unfolding find_transition
  no_transition [] sink symbol h = refl
  no_transition (first ∷ ts) sink symbol h = ground (arith, no_transition ts sink symbol)

  -- What the constructor has checked.
  pub record IsChecked (a : Ata L S) (sink : L) : Type ℓ where
    pub starts_elsewhere : eqb a.initial_location sink ≡ false
    pub not_final : member sink a.final_locations ≡ false
    pub not_source : any_of (λ tr. eqb tr.source sink) a.transitions ≡ false
    pub has_sink : a.sink_location ≡ some sink

  check_sink-IsChecked :
      (a b : Ata L S) (sink : L)
      → a.sink_location ≡ some sink
      → check_sink a sink ≡ ok b
      → IsChecked b sink
  check_sink-IsChecked a b sink k h = elim (Bool-cases (eqb a.initial_location sink)) [
    | inl e ↦ cc (rw e at h)
    | inr e ↦ elim (Bool-cases (member sink a.final_locations)) [
      | inl f ↦ cc (rw (e, f) at h)
      | inr f ↦ elim (Bool-cases (any_of (λ tr. eqb tr.source sink) a.transitions)) [
        | inl g ↦ cc (rw (e, f, g) at h)
        | inr g ↦
            let same : ◌≡◌ {A = Result AtaError (Ata L S)} (ok a) (ok b) = rw (e, f, g) at h in
            subst (λ c. IsChecked c sink) (ok-injective same)
              (record { starts_elsewhere = e; not_final = f; not_source = g; has_sink = k })
      ]
    ]
  ]

module _ {ℓ} {L S V : Type ℓ} ⦃l : Ord L⦄ ⦃o : Ord S⦄ ⦃v : Ord V⦄ ⦃t : TimeDomain V⦄ where
  no_models :
      (a : Ata L S) (q : State L V) (symbol : S)
      → find_transition a.transitions q.location symbol ≡ none
      → models_of_states a (q ∷ []) symbol ≡ []
  unfolding models_of_states
  no_models a q symbol e = rw (e, models_of_states) refl

  -- The automaton that the constructor returns with a sink location starts elsewhere, and has the
  -- sink as a trap: on every symbol it goes to the sink at 0, and the sink does not accept.
  pub make_ata_sink :
      (alphabet : List S) (initial : L) (finals : List L) (transitions : List (Transition L S))
      (sink : L) (a : Ata L S) (x : V) (symbol : S)
      → make_ata alphabet initial finals transitions (some sink) ≡ ok a
      → (eqb a.initial_location sink ≡ false)
        × (make_symbol_step a (record { location = sink; clock_valuation = x } ∷ []) symbol
            ≡ (record { location = sink; clock_valuation = t.origin } ∷ []) ∷ [])
        × (is_accepting_configuration a (record { location = sink; clock_valuation = x } ∷ [])
            ≡ false)
  unfolding make_ata make_symbol_step is_accepting_configuration
  make_ata_sink alphabet initial finals transitions sink a x symbol h =
      let c =
        check_sink-IsChecked
          (record {
            alphabet = alphabet;
            initial_location = initial;
            final_locations = finals;
            transitions = transitions;
            sink_location = some sink;
          })
          a sink refl h in
      (
        c.starts_elsewhere,
        rw
            (
              no_models a (record { location = sink; clock_valuation = x }) symbol
                  (no_transition a.transitions sink symbol c.not_source),
              c.has_sink,
            )
            refl,
        rw c.not_final refl,
      )
