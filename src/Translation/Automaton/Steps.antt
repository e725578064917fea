-- ===== src/Translation/Automaton/Steps.antt =====
-- src/mtl_ata_translation/include/mtl_ata_translation/translator.hpp: the transitions of the
-- automaton that `translate` returns.
use scico_d.Prelude.{
  ℕ, Bool, true, ◌||◌, ◌&&◌, List, [], ◌∷◌, Ord, nat_ord, some, ◌≡◌, refl, ap, arith, ◌⊎◌, member,
  eqb, eqb→eq, any_of, All, Bool-cases, inl, inr, ok,
}
use scico_d.Mtl.Formula.{MtlFormula, ltrue, lfalse, prop, land, lor, lneg, luntil, ldual_until}
use scico_d.Mtl.Order.{get_operator}
use scico_d.Mtl.Order.Laws.{formula_ord}
use scico_d.Mtl.NormalForm.Shape.{IsPositive}
use scico_d.Automata.ClockConstraint.{nat_time}
use scico_d.Automata.AtaFormula.{Formula, state_ord}
use scico_d.Automata.Ata.{Transition, find_transition}
use scico_d.Translation.{init}
use scico_d.Translation.Init.{init_evaluates}
use scico_d.Translation.Transitions.{until_transition_satisfied, dual_until_transition_satisfied}
use scico_d.Translation.Automaton.{
  insert_ordered, transition_formula, insert_formula_transitions, insert_symbol_transitions,
  insert_all_transitions,
}

module _ {ℓ} {L S : Type ℓ} ⦃l : Ord L⦄ ⦃s : Ord S⦄ where
  abbrev pub is_between : L → S → Transition L S → Bool
  is_between location symbol t = eqb t.source location && eqb t.symbol symbol

  -- Where some transition has the location and the symbol, one of the transitions is found.
  pub found :
      (Q : Transition L S → Type 0) (location : L) (symbol : S) (ts : List (Transition L S))
      → All Q ts
      → any_of (is_between location symbol) ts ≡ true
      → (t : Transition L S) × (find_transition ts location symbol ≡ some t)
        × Q t
        × (t.source ≡ location)
        × (t.symbol ≡ symbol)
  unfolding find_transition
  found Q location symbol [] h m = ground arith
  found Q location symbol (t ∷ ts) (h, hs) m = elim (Bool-cases (is_between location symbol t)) [
    | inl e ↦ (t, rw e refl, h, eqb→eq _ _ (ground arith), eqb→eq _ _ (ground arith))
    | inr e ↦
        let (t', f, q, e1, e2) = found Q location symbol ts hs (ground arith) in
        (t', rw e f, q, e1, e2)
  ]

module _ {P : Type 0} where
  pub not_proposition :
      (u : MtlFormula P) (p : P) → (get_operator u ≡ 3) ⊎ (get_operator u ≡ 4) → u ≡ prop p → ⊥
  not_proposition u p e k = let five = ap get_operator k in ground arith

module _ {P S : Type 0} ⦃o : Ord P⦄ ⦃s : Ord S⦄ where
  any_of-insert_ordered :
      (p : Transition (MtlFormula P) S → Bool) (x : Transition (MtlFormula P) S)
      (ts : List (Transition (MtlFormula P) S))
      → any_of p (insert_ordered x ts) ≡ (p x || any_of p ts)
  unfolding insert_ordered
  any_of-insert_ordered p x [] = refl
  any_of-insert_ordered p x (y ∷ ys) = ground (arith, any_of-insert_ordered p x ys)

  All-insert_ordered {κ} :
      (Q : Transition (MtlFormula P) S → Type κ) (x : Transition (MtlFormula P) S)
      (ts : List (Transition (MtlFormula P) S))
      → Q x
      → All Q ts
      → All Q (insert_ordered x ts)
  unfolding insert_ordered
  All-insert_ordered Q x [] h hs = (h, tt)
  All-insert_ordered Q x (y ∷ ys) h hs = ground (arith, All-insert_ordered Q x ys)

  -- There is a transition formula for each until and each dual until in normal form.
  has_transition_formula :
      (matches : P → S → Bool) (u : MtlFormula P) (symbol : S)
      → (get_operator u ≡ 3) ⊎ (get_operator u ≡ 4)
      → IsPositive u
      → (phi : Formula (MtlFormula P)) × (transition_formula matches u symbol ≡ ok phi)
  unfolding transition_formula IsPositive
  has_transition_formula matches (luntil f g i) symbol e (hf, hg) =
      let (phi, h, sat) = until_transition_satisfied {V = ℕ} matches symbol [] 0 f g i hf hg in
      (phi, h)
  has_transition_formula matches (ldual_until f g i) symbol e (hf, hg) =
      let (phi, h, sat) = dual_until_transition_satisfied {V = ℕ} matches symbol [] 0 f g i hf hg in
      (phi, h)
  has_transition_formula matches ltrue symbol e h = ground arith
  has_transition_formula matches lfalse symbol e h = ground arith
  has_transition_formula matches (prop p) symbol e h = ground arith
  has_transition_formula matches (land fs) symbol e h = ground arith
  has_transition_formula matches (lor fs) symbol e h = ground arith
  has_transition_formula matches (lneg f) symbol e h = ground arith

  -- What the transition of a location and a symbol must be: the transition formula of an until or a
  -- dual until, and `init` of the whole formula for the initial location.
  abbrev pub IsRight : (P → S → Bool) → P → MtlFormula P → Transition (MtlFormula P) S → Type 0
  IsRight matches l0 formula t =
      (t.source ≡ prop l0 → init matches formula t.symbol true ≡ ok t.formula)
      × (((get_operator t.source ≡ 3) ⊎ (get_operator t.source ≡ 4))
          → transition_formula matches t.source t.symbol ≡ ok t.formula)
      × ((t.source ≡ prop l0) ⊎ ((get_operator t.source ≡ 3) ⊎ (get_operator t.source ≡ 4)))

  module _ (matches : P → S → Bool) (l0 : P) (formula : MtlFormula P) where
    insert_formula_transitions_total :
        (symbol : S) (us : List (MtlFormula P)) (ts : List (Transition (MtlFormula P) S))
        → All (λ u. ((get_operator u ≡ 3) ⊎ (get_operator u ≡ 4)) × IsPositive u) us
        → All (IsRight matches l0 formula) ts
        → (more : List (Transition (MtlFormula P) S)) × (insert_formula_transitions matches symbol
              us ts
            ≡ ok more)
          × All (IsRight matches l0 formula) more
          × ((location : MtlFormula P) (a : S)
              → any_of (is_between location a) more
                ≡ ((member location us && eqb symbol a) || any_of (is_between location a) ts))
    unfolding insert_formula_transitions
    insert_formula_transitions_total symbol [] ts hs ks = (ts, refl, ks, λ location a. refl)
    insert_formula_transitions_total symbol (u ∷ us) ts ((e, h), hs) ks =
        let (phi, f) = has_transition_formula matches u symbol e h in
        let t : Transition (MtlFormula P) S = record {
          source = u;
          symbol = symbol;
          formula = phi;
        } in
        let right : IsRight matches l0 formula t =
          ((λ k. absurd (not_proposition u l0 e k)), (λ e'. f), inr e) in
        let (more, g, all, has) =
          insert_formula_transitions_total symbol us (insert_ordered t ts) hs
            (All-insert_ordered (IsRight matches l0 formula) t ts right ks) in
        (
          more,
          rw f g,
          all,
          λ location a.
              ground (arith, has location a, any_of-insert_ordered (is_between location a) t ts),
        )

    -- The untils and the dual untils of the formula.
    abbrev pub AreUntils : List (MtlFormula P) → Type 0
    AreUntils us = All (λ u. ((get_operator u ≡ 3) ⊎ (get_operator u ≡ 4)) × IsPositive u) us

    insert_symbol_transitions_total :
        (untils dual_untils : List (MtlFormula P)) (symbol : S)
        (ts : List (Transition (MtlFormula P) S))
        → IsPositive formula
        → AreUntils untils
        → AreUntils dual_untils
        → All (IsRight matches l0 formula) ts
        → (more : List (Transition (MtlFormula P) S)) × (insert_symbol_transitions matches l0
              formula untils dual_untils symbol ts
            ≡ ok more)
          × All (IsRight matches l0 formula) more
          × ((location : MtlFormula P) (a : S)
              → any_of (is_between location a) more ≡ (
                  ((eqb location (prop l0)
                      || (member location untils || member location dual_untils))
                    && eqb symbol a)
                  || any_of (is_between location a) ts))
    unfolding insert_symbol_transitions
    insert_symbol_transitions_total untils dual_untils symbol ts h hu hd ks =
        let (phi, f, sat) = init_evaluates {V = ℕ} matches formula symbol true [] 0 h in
        let t : Transition (MtlFormula P) S = record {
          source = prop l0;
          symbol = symbol;
          formula = phi;
        } in
        let right : IsRight matches l0 formula t =
          ((λ k. f), (λ e. absurd (not_proposition (prop l0) l0 e refl)), inl refl) in
        let (ts1, e1, k1, has1) =
          insert_formula_transitions_total symbol untils (insert_ordered t ts) hu
            (All-insert_ordered (IsRight matches l0 formula) t ts right ks) in
        let (ts2, e2, k2, has2) = insert_formula_transitions_total symbol dual_untils ts1 hd k1 in
        (
          ts2,
          rw (f, e1) e2,
          k2,
          λ location a. ground (
            arith,
            has2 location a,
            has1 location a,
            any_of-insert_ordered (is_between location a) t ts,
          ),
        )

    pub insert_all_transitions_total :
        (untils dual_untils : List (MtlFormula P)) (symbols : List S)
        (ts : List (Transition (MtlFormula P) S))
        → IsPositive formula
        → AreUntils untils
        → AreUntils dual_untils
        → All (IsRight matches l0 formula) ts
        → (more : List (Transition (MtlFormula P) S)) × (insert_all_transitions matches l0 formula
              untils dual_untils symbols ts
            ≡ ok more)
          × All (IsRight matches l0 formula) more
          × ((location : MtlFormula P) (a : S)
              → any_of (is_between location a) more ≡ (
                  ((eqb location (prop l0)
                      || (member location untils || member location dual_untils))
                    && member a symbols)
                  || any_of (is_between location a) ts))
    unfolding insert_all_transitions
    insert_all_transitions_total untils dual_untils [] ts h hu hd ks =
        (ts, refl, ks, λ location a. ground arith)
    insert_all_transitions_total untils dual_untils (symbol ∷ symbols) ts h hu hd ks =
        let (ts1, e1, k1, has1) =
          insert_symbol_transitions_total untils dual_untils symbol ts h hu hd ks in
        let (ts2, e2, k2, has2) =
          insert_all_transitions_total untils dual_untils symbols ts1 h hu hd k1 in
        (ts2, rw e1 e2, k2, λ location a. ground (arith, has2 location a, has1 location a))
