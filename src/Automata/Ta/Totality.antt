-- ===== src/Automata/Ta/Totality.antt =====
-- src/automata/include/automata/ta.hpp: `accepts_word` on well-formed automata, and on
-- deterministic ones.
use scico_d.Prelude.{
  Bool, true, false, ◌||◌, List, [], ◌∷◌, map, ◌≡◌, ◌↔◌, refl, sym, subst, ap, ◌∙◌, arith, Ord, eqb,
  eqb→eq, member, is_empty_list, All, All-insert, length, ◌≤◌, has_key, has_key-assign, assign, ok,
  after-ok, ok-injective, Bool-cases, inl, inr,
}
use scico_d.Automata.ClockConstraint.{TimeDomain}
use scico_d.Automata.Ta.{Ta, Transition, TaConfiguration}
use scico_d.Automata.Ta.Runs.{
  configuration_ord, reset_clocks, target_configuration, insert_targets, is_enabled,
  make_symbol_step, get_initial_configuration, is_accepting_configuration,
}
use scico_d.Automata.Ta.WellFormed.{IsWellFormed}
use scico_d.Automata.Ta.Steps.{IsDefined, make_symbol_step_iff}
use scico_d.Automata.Ta.Words.{
  TaPath, make_path, get_current_configuration, insert_path, insert_paths, paths_to, advance_path,
  make_transition, advance_paths, read_symbols, accepts_word,
}
use scico_d.Automata.Ta.Language.{
  HasRun, stop, read, All-make_transition, All-insert_paths, accepts_word_sound,
}

module _ {ℓ} {C V : Type ℓ} ⦃c : Ord C⦄ ⦃t : TimeDomain V⦄ where
  has_key-reset_clocks :
      (x : C) (names : List C) (clocks : List (C × V))
      → has_key x (reset_clocks names clocks) ≡ (member x names || has_key x clocks)
  unfolding reset_clocks
  has_key-reset_clocks x [] clocks = refl
  has_key-reset_clocks x (name ∷ names) clocks = ground (
    arith,
    has_key-reset_clocks x names (assign name t.origin clocks),
    has_key-assign x name t.origin clocks,
  )

  has_key-map :
      (x : C) (f : V → V) (clocks : List (C × V))
      → has_key x (map (λ y. (y.0, f y.1)) clocks) ≡ has_key x clocks
  has_key-map x f [] = refl
  has_key-map x f ((name, value) ∷ clocks) = ap (λ b. eqb x name || b) (has_key-map x f clocks)

-- The only element of a list.
module _ {ℓ} {X : Type ℓ} ⦃o : Ord X⦄ where
  only_target : (x : X) (next : List X) → length next ≤ 1 → member x next ≡ true → next ≡ x ∷ []
  only_target x [] h m = ground arith
  only_target x (y ∷ []) h m = ap (λ z. z ∷ []) (sym (eqb→eq x y (ground arith)))
  only_target x (y ∷ z ∷ zs) h m = ground arith

module _ {ℓ} {L A C V : Type ℓ} ⦃l : Ord L⦄ ⦃o : Ord A⦄ ⦃c : Ord C⦄ ⦃v : Ord V⦄
    ⦃t : TimeDomain V⦄ where
  All-insert_targets {κ} :
      (P : TaConfiguration L C V → Type κ) (x : TaConfiguration L C V) (symbol : A)
      (trs : List (Transition L A C)) (res next : List (TaConfiguration L C V))
      → ((tr : Transition L A C) → P (target_configuration x tr))
      → All P res
      → insert_targets x symbol trs res ≡ ok next
      → All P next
  unfolding insert_targets
  All-insert_targets P x symbol [] res next f hs e = subst (All P) (ok-injective e) hs
  All-insert_targets P x symbol (tr ∷ trs) res next f hs e =
      let (enabled, e1, e2) = after-ok (is_enabled tr symbol x.clock_valuations) e in
      All-insert_targets P x symbol trs _ next f
        (ground (arith, All-insert P (target_configuration x tr) res (f tr))) e2

  -- The clocks that have a valuation keep one.
  abbrev KeepsClocks : List C → TaPath L A C V → Type ℓ
  KeepsClocks clocks p = IsDefined clocks p.clock_valuations

  make_symbol_step-IsDefined :
      (ta : Ta L A C) (x : TaConfiguration L C V) (symbol : A) (next : List (TaConfiguration L C V))
      → IsDefined ta.clocks x.clock_valuations
      → make_symbol_step ta x symbol ≡ ok next
      → All (λ y. IsDefined ta.clocks y.clock_valuations) next
  unfolding make_symbol_step
  make_symbol_step-IsDefined ta x symbol next d e =
      All-insert_targets (λ y. IsDefined ta.clocks y.clock_valuations) x symbol _ [] next
        (λ tr name m.
          ground (arith, has_key-reset_clocks name tr.clock_resets x.clock_valuations, d name m))
        tt e

  make_transition_total :
      (ta : Ta L A C) (p : TaPath L A C V) (symbol : A) (time : V)
      → IsWellFormed ta
      → KeepsClocks ta.clocks p
      → (new : List (TaPath L A C V)) × (make_transition ta p symbol time ≡ ok new)
        × All (KeepsClocks ta.clocks) new
  unfolding make_transition
  make_transition_total ta p symbol time w d = elim (Bool-cases (v.lt time p.tick)) [
    | inl q ↦ ([], ground arith, tt)
    | inr q ↦
        let x = get_current_configuration (advance_path p time) in
        let dx : IsDefined ta.clocks x.clock_valuations = λ name m.
          has_key-map name (λ y. t.add y (t.difference time p.tick).1) p.clock_valuations
          ∙ d name m in
        let (next, e, ascending, targets) = make_symbol_step_iff ta x symbol w dx in
        let new = paths_to symbol time (advance_path p time) next [] in
        let step : make_transition ta p symbol time ≡ ok new = ground (arith, e) in
        (
          new,
          step,
          All-make_transition (λ y time. IsDefined ta.clocks y.clock_valuations) ta symbol time p
              new (λ n next' s. make_symbol_step-IsDefined ta x symbol next' dx s) step,
        )
  ]

  advance_paths_total :
      (ta : Ta L A C) (symbol : A) (time : V) (paths res : List (TaPath L A C V))
      → IsWellFormed ta
      → All (KeepsClocks ta.clocks) paths
      → All (KeepsClocks ta.clocks) res
      → (res' : List (TaPath L A C V)) × (advance_paths ta paths symbol time res ≡ ok res')
        × All (KeepsClocks ta.clocks) res'
  unfolding advance_paths
  advance_paths_total ta symbol time [] res w ds ks = (res, refl, ks)
  advance_paths_total ta symbol time (p ∷ ps) res w (d, ds) ks =
      let (new, e, k) = make_transition_total ta p symbol time w d in
      let (res', e', k') =
        advance_paths_total ta symbol time ps (insert_paths new res) w ds
          (All-insert_paths (KeepsClocks ta.clocks) new res k ks) in
      (res', ground (arith, e, e'), k')

  read_symbols_total :
      (ta : Ta L A C) (word : List (A × V)) (paths : List (TaPath L A C V))
      → IsWellFormed ta
      → All (KeepsClocks ta.clocks) paths
      → (accepted : Bool) × (read_symbols ta word paths ≡ ok accepted)
  unfolding read_symbols
  read_symbols_total ta [] paths w ds = (_, refl)
  read_symbols_total ta ((symbol, time) ∷ word) paths w ds =
      let (res, e, ks) = advance_paths_total ta symbol time paths [] w ds tt in
      let (accepted, e') = read_symbols_total ta word res w ks in
      elim (Bool-cases (is_empty_list res)) [
        | inl q ↦ (false, ground (arith, e))
        | inr q ↦ (accepted, ground (arith, e, e'))
      ]

  -- A well-formed automaton decides every word without an exception, and accepts it only if it has a
  -- run over it from its initial configuration at time 0 to an accepting configuration.
  pub accepts_word_total :
      (ta : Ta L A C) (word : List (A × V))
      → IsWellFormed ta
      → (accepted : Bool) × (accepts_word ta word ≡ ok accepted)
        × (accepted ≡ true → HasRun ta word t.origin (get_initial_configuration ta))
  unfolding accepts_word make_path
  accepts_word_total ta word w =
      let (accepted, e) =
        read_symbols_total ta word (make_path ta.initial_location ta.clocks ∷ []) w
          ((λ name m. has_key-reset_clocks name ta.clocks [] ∙ ap (λ b. b || false) m), tt) in
      (accepted, e, λ h. accepts_word_sound ta word (e ∙ ap ok h))

  -- No step leads to two configurations.
  abbrev pub AtMostOne : Ta L A C → TaConfiguration L C V → Type ℓ
  AtMostOne ta x =
      (symbol : A) (next : List (TaConfiguration L C V))
      → make_symbol_step ta x symbol ≡ ok next
      → length next ≤ 1

  one_transition :
      (ta : Ta L A C) (p : TaPath L A C V) (symbol : A) (time : V) (y : TaConfiguration L C V)
      → v.lt time p.tick ≡ false
      → make_symbol_step ta (get_current_configuration (advance_path p time)) symbol ≡ ok (y ∷ [])
      → advance_paths ta (p ∷ []) symbol time []
        ≡ ok (
            record (advance_path p time) {
              clock_valuations = y.clock_valuations;
              current_location = y.location;
            }
            ∷ [])
  unfolding advance_paths make_transition paths_to insert_paths insert_path
  one_transition ta p symbol time y n e = rw (n, e) refl

  read_symbols_complete :
      (ta : Ta L A C) (word : List (A × V)) (p : TaPath L A C V)
      → ((x : TaConfiguration L C V) → AtMostOne ta x)
      → HasRun ta word p.tick (get_current_configuration p)
      → read_symbols ta word (p ∷ []) ≡ ok true
  unfolding read_symbols is_accepting_configuration
  read_symbols_complete ta [] p det (stop e) = ground (arith, e)
  read_symbols_complete ta ((symbol, time) ∷ word) p det (read {y = y} {next = next} n s m run) =
      let later = advance_path p time in
      let e = only_target y next (det _ symbol next s) m in
      let step = one_transition ta p symbol time y n (s ∙ ap ok e) in
      let rest =
        read_symbols_complete ta word
          (record later { clock_valuations = y.clock_valuations; current_location = y.location })
          det run in
      rw step rest

  -- If no step leads to two configurations, a word is accepted exactly if the automaton has a run
  -- over it from its initial configuration at time 0 to an accepting configuration.
  pub accepts_word_deterministic :
      (ta : Ta L A C) (word : List (A × V))
      → ((x : TaConfiguration L C V) → AtMostOne ta x)
      → (accepts_word ta word ≡ ok true) ↔ HasRun ta word t.origin (get_initial_configuration ta)
  unfolding accepts_word make_path get_initial_configuration
  accepts_word_deterministic ta word det = (
    accepts_word_sound ta word,
    λ run. read_symbols_complete ta word (make_path ta.initial_location ta.clocks) det run,
  )
