-- ===== src/Automata/Ta/Language.antt =====
-- src/automata/include/automata/ta.hpp: `accepts_word` against runs from configuration to
-- configuration.
use scico_d.Prelude.{
  true, false, List, [], ◌∷◌, map, ◌≡◌, subst, arith, Ord, member, is_empty_list, All, All-imp,
  All-member, ok, after-ok, ok-injective, Bool-cases, inl, inr,
}
use scico_d.Automata.ClockConstraint.{TimeDomain}
use scico_d.Automata.Ta.{Ta, TaConfiguration}
use scico_d.Automata.Ta.Runs.{
  configuration_ord, make_symbol_step, get_initial_configuration, is_accepting_configuration,
}
use scico_d.Automata.Ta.Words.{
  TaPath, make_path, get_current_configuration, insert_path, insert_paths, paths_to, advance_path,
  make_transition, advance_paths, read_symbols, accepts_word,
}

module _ {ℓ} {L C V : Type ℓ} ⦃t : TimeDomain V⦄ where
  -- The configuration when all clocks have ticked from one time to another.
  abbrev pub ticked : V → V → TaConfiguration L C V → TaConfiguration L C V
  ticked last time x = record {
    location = x.location;
    clock_valuations = map (λ y. (y.0, t.add y.1 (t.difference time last).1)) x.clock_valuations;
  }

module _ {ℓ} {L A C V : Type ℓ} ⦃l : Ord L⦄ ⦃o : Ord A⦄ ⦃c : Ord C⦄ ⦃v : Ord V⦄
    ⦃t : TimeDomain V⦄ where
  -- A run over the word, from a configuration at the time of the last symbol, to an accepting one.
  pub data HasRun (ta : Ta L A C) : List (A × V) → V → TaConfiguration L C V → Type ℓ where
    stop :
        {last : V} {x : TaConfiguration L C V}
        → is_accepting_configuration ta x ≡ true
        → HasRun ta [] last x
    read :
        {symbol : A} {time last : V} {word : List (A × V)} {x y : TaConfiguration L C V}
        {next : List (TaConfiguration L C V)}
        → v.lt time last ≡ false
        → make_symbol_step ta (ticked last time x) symbol ≡ ok next
        → member y next ≡ true
        → HasRun ta word time y
        → HasRun ta ((symbol, time) ∷ word) last x

  -- A property of the configuration and the time of each path.
  abbrev pub OfPath {κ} : (TaConfiguration L C V → V → Type κ) → TaPath L A C V → Type κ
  OfPath P p = P (get_current_configuration p) p.tick

  All-insert_path {κ} :
      (P : TaPath L A C V → Type κ) (p : TaPath L A C V) (ps : List (TaPath L A C V))
      → P p
      → All P ps
      → All P (insert_path p ps)
  unfolding insert_path
  All-insert_path P p [] h hs = (h, tt)
  All-insert_path P p (q ∷ qs) h hs = ground (arith, All-insert_path P p qs)

  pub All-insert_paths {κ} :
      (P : TaPath L A C V → Type κ) (ps qs : List (TaPath L A C V))
      → All P ps
      → All P qs
      → All P (insert_paths ps qs)
  unfolding insert_paths
  All-insert_paths P [] qs hs ks = ks
  All-insert_paths P (p ∷ ps) qs (h, hs) ks =
      All-insert_paths P ps (insert_path p qs) hs (All-insert_path P p qs h ks)

  All-paths_to {κ} :
      (P : TaConfiguration L C V → V → Type κ) (symbol : A) (time : V)
      (targets : List (TaConfiguration L C V)) (path : TaPath L A C V)
      (paths : List (TaPath L A C V))
      → All (λ y. P y path.tick) targets
      → All (OfPath P) paths
      → All (OfPath P) (paths_to symbol time path targets paths)
  unfolding paths_to
  All-paths_to P symbol time [] path paths hs ks = ks
  All-paths_to P symbol time (y ∷ ys) path paths (h, hs) ks =
      All-paths_to P symbol time ys _ _ hs (All-insert_path (OfPath P) _ paths h ks)

  -- What holds of each target of the step of a path.
  abbrev pub StepsTo {κ} :
      (TaConfiguration L C V → V → Type κ) → Ta L A C → A → V → TaPath L A C V → Type (ℓ ⊔ κ)
  StepsTo P ta symbol time p =
      v.lt time p.tick ≡ false
      → (next : List (TaConfiguration L C V))
      → make_symbol_step ta (ticked p.tick time (get_current_configuration p)) symbol ≡ ok next
      → All (λ y. P y time) next

  pub All-make_transition {κ} :
      (P : TaConfiguration L C V → V → Type κ) (ta : Ta L A C) (symbol : A) (time : V)
      (p : TaPath L A C V) (new : List (TaPath L A C V))
      → StepsTo P ta symbol time p
      → make_transition ta p symbol time ≡ ok new
      → All (OfPath P) new
  unfolding make_transition
  All-make_transition P ta symbol time p new h e = elim (Bool-cases (v.lt time p.tick)) [
    | inl q ↦ let nothing : [] ≡ new = ground arith in subst (All (OfPath P)) nothing tt
    | inr q ↦
        let later = advance_path p time in
        let (next, e1, e2) =
          after-ok (make_symbol_step ta (get_current_configuration later) symbol)
            {rest = λ targets. ok (paths_to symbol time later targets [])} (ground arith) in
        subst (All (OfPath P)) (ok-injective e2)
          (All-paths_to P symbol time next later [] (h q next e1) tt)
  ]

  All-advance_paths {κ} :
      (P : TaConfiguration L C V → V → Type κ) (ta : Ta L A C) (symbol : A) (time : V)
      (paths res res' : List (TaPath L A C V))
      → All (StepsTo P ta symbol time) paths
      → All (OfPath P) res
      → advance_paths ta paths symbol time res ≡ ok res'
      → All (OfPath P) res'
  unfolding advance_paths
  All-advance_paths P ta symbol time [] res res' hs ks e =
      subst (All (OfPath P)) (ok-injective e) ks
  All-advance_paths P ta symbol time (p ∷ ps) res res' (h, hs) ks e =
      let (new, e', rest) = after-ok (make_transition ta p symbol time) e in
      All-advance_paths P ta symbol time ps (insert_paths new res) res' hs
        (All-insert_paths (OfPath P) new res (All-make_transition P ta symbol time p new h e') ks)
        rest

  -- A goal that follows from a run of each path follows from the acceptance of the paths.
  read_symbols_sound :
      (G : Type ℓ) (ta : Ta L A C) (word : List (A × V)) (paths : List (TaPath L A C V))
      → All (OfPath (λ x last. HasRun ta word last x → G)) paths
      → read_symbols ta word paths ≡ ok true
      → G
  unfolding read_symbols is_accepting_configuration
  read_symbols_sound G ta [] [] hs e = ground arith
  read_symbols_sound G ta [] (p ∷ ps) (h, hs) e =
      elim (Bool-cases (member p.current_location ta.final_locations)) [
        | inl q ↦ h (stop q)
        | inr q ↦ read_symbols_sound G ta [] ps hs (ground arith)
      ]
  read_symbols_sound G ta ((symbol, time) ∷ word) paths hs e =
      let (res, e1, e2) = after-ok (advance_paths ta paths symbol time []) e in
      let goals =
        All-advance_paths (λ x last. HasRun ta word last x → G) ta symbol time paths [] res
          (All-imp (λ p h n next s. All-imp (λ y m run. h (read n s m run)) next (All-member next))
            paths hs)
          tt e1 in
      elim (Bool-cases (is_empty_list res)) [
        | inl q ↦ ground arith
        | inr q ↦ read_symbols_sound G ta word res goals (ground arith)
      ]

  -- A word is accepted only if the automaton has a run over it, from its initial configuration at
  -- time 0 to an accepting configuration.
  pub accepts_word_sound :
      (ta : Ta L A C) (word : List (A × V))
      → accepts_word ta word ≡ ok true
      → HasRun ta word t.origin (get_initial_configuration ta)
  unfolding accepts_word make_path get_initial_configuration
  accepts_word_sound ta word e =
      read_symbols_sound (HasRun ta word t.origin (get_initial_configuration ta)) ta word _
        ((λ run. run), tt) e
