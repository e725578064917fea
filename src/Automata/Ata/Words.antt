-- ===== src/Automata/Ata/Words.antt =====
-- src/automata/include/automata/ata.hpp: `accepts_word` against runs from configuration to
-- configuration.
use scico_d.Prelude.{
  Bool, true, false, ◌||◌, List, [], ◌∷◌, ◌++◌, map, Ord, ◌≡◌, ◌↔◌, refl, arith, ap, ap₂, sym, ◌∙◌,
  insert_all, any_of, ok, eqb, list_ord, All, All-append, Memᴰ, any_of→Memᴰ, Memᴰ→any_of,
  append-nil,
}
use scico_d.Automata.ClockConstraint.{TimeDomain, Delta}
use scico_d.Automata.AtaFormula.{state_ord, States}
use scico_d.Automata.Ata.{
  Ata, time_step, Run, Configurations, make_symbol_step, advance_state, make_time_step,
  get_initial_configuration, is_accepting_configuration, is_symbol_step, extend_run,
  make_symbol_transition, make_time_transition, last_configuration, read_word, accepts_word,
}

module _ {ℓ} {L V : Type ℓ} ⦃l : Ord L⦄ ⦃v : Ord V⦄ ⦃t : TimeDomain V⦄ where
  -- The configuration that lets time pass.
  abbrev pub delayed : Delta V → States L V → States L V
  delayed time c = insert_all (map (advance_state time) c) []

module _ {ℓ} {S V : Type ℓ} ⦃t : TimeDomain V⦄ where
  -- The times of the word do not decrease.
  abbrev pub IsMonotone : List (S × V) → V → Type 0
  IsMonotone [] last = Unit
  IsMonotone ((symbol, time) ∷ word) last =
      ((t.difference time last).0 ≡ false) × IsMonotone word time

-- The newest step of the run.
abbrev EndsWithSymbol {ℓ} : {L S V : Type ℓ} → Run L S V → Type 0
EndsWithSymbol [] = ⊥
EndsWithSymbol ((step, c) ∷ run) = is_symbol_step step ≡ true

abbrev EndsWithTime {ℓ} : {L S V : Type ℓ} → Run L S V → Type 0
EndsWithTime [] = ⊥
EndsWithTime ((step, c) ∷ run) = is_symbol_step step ≡ false

any_of-append {ℓ} :
    {A : Type ℓ} (p : A → Bool) (xs ys : List A)
    → any_of p (xs ++ ys) ≡ (any_of p xs || any_of p ys)
any_of-append p [] ys = refl
any_of-append p (x ∷ xs) ys = ground (arith, any_of-append p xs ys)

module _ {ℓ} {L S V : Type ℓ} ⦃l : Ord L⦄ ⦃o : Ord S⦄ ⦃v : Ord V⦄ ⦃t : TimeDomain V⦄ where
  -- Some way to read the rest of the word, from a configuration at the time of the last symbol, ends
  -- in an accepting configuration.
  unfoldable pub accepts_from : Ata L S → List (S × V) → V → States L V → Bool
  unfolding make_symbol_step is_accepting_configuration
  accepts_from a [] last c = is_accepting_configuration a c
  accepts_from a ((symbol, time) ∷ word) last c =
      any_of (accepts_from a word time)
        (make_symbol_step a (delayed (t.difference time last) c) symbol)

  extended_runs :
      (run : Run L S V) (symbol : S) (p : States L V → Bool) (cs : Configurations L V)
      → any_of (λ r. p (last_configuration r)) (extend_run run symbol cs) ≡ any_of p cs
  extended_runs run symbol p [] = refl
  extended_runs run symbol p (c ∷ cs) = ap (λ b. p c || b) (extended_runs run symbol p cs)

  extended_runs-EndsWithSymbol :
      (run : Run L S V) (symbol : S) (cs : Configurations L V)
      → All EndsWithSymbol (extend_run run symbol cs)
  extended_runs-EndsWithSymbol run symbol [] = tt
  extended_runs-EndsWithSymbol run symbol (c ∷ cs) =
      (refl, extended_runs-EndsWithSymbol run symbol cs)

  symbol_transition :
      (a : Ata L S) (symbol : S) (runs : List (Run L S V))
      → All EndsWithTime runs
      → (next : List (Run L S V)) × (make_symbol_transition a runs symbol ≡ ok next)
        × All EndsWithSymbol next
        × ((p : States L V → Bool)
            → any_of (λ r. p (last_configuration r)) next
              ≡ any_of (λ r. any_of p (make_symbol_step a (last_configuration r) symbol)) runs)
  unfolding make_symbol_transition
  symbol_transition a symbol [] h = ([], refl, tt, λ p. refl)
  symbol_transition a symbol ([] ∷ runs) (h, hs) = absurd h
  symbol_transition a symbol (((step, c) ∷ run) ∷ runs) (h, hs) =
      let (next, e, ends, reads) = symbol_transition a symbol runs hs in
      let new = extend_run ((step, c) ∷ run) symbol (make_symbol_step a c symbol) in
      (
        new ++ next,
        rw (h, e),
        All-append EndsWithSymbol new next
            (extended_runs-EndsWithSymbol ((step, c) ∷ run) symbol (make_symbol_step a c symbol))
            ends,
        λ p.
            any_of-append (λ r. p (last_configuration r)) new next
            ∙ ap₂ ◌||◌ (extended_runs ((step, c) ∷ run) symbol p (make_symbol_step a c symbol))
                (reads p),
      )

  time_transition :
      (time : Delta V) (runs : List (Run L S V))
      → time.0 ≡ false
      → All EndsWithSymbol runs
      → (next : List (Run L S V)) × (make_time_transition runs time ≡ ok next)
        × All EndsWithTime next
        × ((p : States L V → Bool)
            → any_of (λ r. p (last_configuration r)) next
              ≡ any_of (λ r. p (delayed time (last_configuration r))) runs)
  unfolding make_time_transition make_time_step
  time_transition time [] n h = ([], refl, tt, λ p. refl)
  time_transition time ([] ∷ runs) n (h, hs) = absurd h
  time_transition time (((step, c) ∷ run) ∷ runs) n (h, hs) =
      let (next, e, ends, reads) = time_transition time runs n hs in
      (
        ((time_step time, delayed time c) ∷ (step, c) ∷ run) ∷ next,
        ground (arith, h, n, e),
        (refl, ends),
        λ p. ap (λ b. p (delayed time c) || b) (reads p),
      )

  word_read :
      (a : Ata L S) (word : List (S × V)) (last : V) (runs : List (Run L S V))
      → IsMonotone word last
      → All EndsWithSymbol runs
      → (final : List (Run L S V)) × (read_word a word last runs ≡ ok final)
        × (any_of (λ r. is_accepting_configuration a (last_configuration r)) final
            ≡ any_of (λ r. accepts_from a word last (last_configuration r)) runs)
  unfolding read_word accepts_from
  word_read a [] last runs m h = (runs, refl, refl)
  word_read a ((symbol, time) ∷ word) last runs (n, m) h =
      let (later, e, ends, delays) = time_transition (t.difference time last) runs n h in
      let (next, e', ends', steps) = symbol_transition a symbol later ends in
      let (final, e'', reads) = word_read a word time next m ends' in
      (
        final,
        rw (e, e', e''),
        reads
            ∙ (steps (accepts_from a word time)
                ∙ delays (λ c. any_of (accepts_from a word time) (make_symbol_step a c symbol))),
      )

  -- The first symbol, from the empty run.
  first_transition :
      (a : Ata L S) (symbol : S)
      → make_symbol_transition {V = V} a ([] ∷ []) symbol
        ≡ ok (extend_run [] symbol (make_symbol_step a (get_initial_configuration a) symbol))
  unfolding make_symbol_transition
  first_transition a symbol =
      ap ok (
        append-nil (extend_run [] symbol (make_symbol_step a (get_initial_configuration a) symbol)))

  -- A run over the word, from a configuration at the time of the last symbol, to an accepting one.
  pub data HasRun (a : Ata L S) : List (S × V) → V → States L V → Type ℓ where
    stop : {last : V} {c : States L V} → is_accepting_configuration a c ≡ true → HasRun a [] last c
    read :
        {symbol : S} {time last : V} {word : List (S × V)} {c next : States L V}
        → Memᴰ next (make_symbol_step a (delayed (t.difference time last) c) symbol)
        → HasRun a word time next
        → HasRun a ((symbol, time) ∷ word) last c

  accepts_from→HasRun :
      (a : Ata L S) (word : List (S × V)) (last : V) (c : States L V)
      → accepts_from a word last c ≡ true
      → HasRun a word last c
  unfolding accepts_from
  accepts_from→HasRun a [] last c h = stop h
  accepts_from→HasRun a ((symbol, time) ∷ word) last c h =
      let (next, m, k) = any_of→Memᴰ (accepts_from a word time) _ h in
      read m (accepts_from→HasRun a word time next k)

  HasRun→accepts_from :
      {a : Ata L S} {word : List (S × V)} {last : V} {c : States L V}
      → HasRun a word last c
      → accepts_from a word last c ≡ true
  unfolding accepts_from
  HasRun→accepts_from (stop h) = h
  HasRun→accepts_from {a = a} (read {time = time} {word = word} m r) =
      Memᴰ→any_of (accepts_from a word time) _ m (HasRun→accepts_from r)

  accepts_steps :
      (a : Ata L S) (symbol : S) (time : V) (word : List (S × V)) {runs final : List (Run L S V)}
      → eqb time t.origin ≡ true
      → make_symbol_transition a ([] ∷ []) symbol ≡ ok runs
      → read_word a word time runs ≡ ok final
      → accepts_word a ((symbol, time) ∷ word)
        ≡ ok (any_of (λ r. is_accepting_configuration a (last_configuration r)) final)
  unfolding accepts_word
  accepts_steps a symbol time word start e f = ground (arith, start, e, f)

  -- On a word that starts at time 0 and whose times do not decrease, no exception is thrown, and the
  -- word is accepted exactly if some configuration after its first symbol has a run over the rest.
  pub accepts_word_iff :
      (a : Ata L S) (symbol : S) (time : V) (word : List (S × V))
      → eqb time t.origin ≡ true
      → IsMonotone word time
      → (accepted : Bool) × (accepts_word a ((symbol, time) ∷ word) ≡ ok accepted)
        × ((accepted ≡ true) ↔ (
            (next : States L V) × Memᴰ next
              (make_symbol_step a (get_initial_configuration a) symbol)
            × HasRun a word time next))
  unfolding accepts_word
  accepts_word_iff a symbol time word start m =
      let configurations = make_symbol_step {V = V} a (get_initial_configuration a) symbol in
      let (final, e, reads) =
        word_read a word time (extend_run [] symbol configurations) m
          (extended_runs-EndsWithSymbol [] symbol configurations) in
      let same = reads ∙ extended_runs [] symbol (accepts_from a word time) configurations in
      (
        any_of (λ r. is_accepting_configuration a (last_configuration r)) final,
        accepts_steps a symbol time word start (first_transition a symbol) e,
        (
          λ h.
              let (next, k, r) =
                any_of→Memᴰ (accepts_from a word time) configurations (sym same ∙ h) in
              (next, k, accepts_from→HasRun a word time next r),
          λ run.
              same
              ∙ Memᴰ→any_of (accepts_from a word time) configurations run.1
                  (HasRun→accepts_from run.2),
        ),
      )
