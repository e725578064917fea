-- ===== src/Examples/TimedAutomata.antt =====
-- Timed automata over numbers as locations, actions and clocks, with whole numbers as valuations.
use scico_d.Prelude.{
  ℕ, zero, suc, Bool, true, false, ◌≡◌, ◌↔◌, refl, List, [], ◌∷◌, nat_ord, member, any_of, eqb,
  ◌&&◌, IsAscending, All, arith, ◌⊎◌, Memᴰ, ok, err, includes, insert, after-ok, length, ◌≤◌,
  ok-injective, subst, if◌then◌else◌, inl, inr,
}
use scico_d.Automata.ClockConstraint.{nat_time, less_equal}
use scico_d.Automata.Ta.{Ta, Transition, TaConfiguration, make_ta, add_transition, invalid_location}
use scico_d.Automata.Ta.Runs.{
  configuration_ord, make_symbol_step, get_initial_configuration, is_accepting_configuration,
  get_largest_constant, target_configuration, is_enabled, insert_targets, equal_range,
}
use scico_d.Automata.Ta.WellFormed.{IsWellFormed, IsBuilt, from_transitions, IsBuilt→IsWellFormed}
use scico_d.Automata.Ta.Steps.{IsDefined, can_fire, make_symbol_step_iff}
use scico_d.Automata.Ta.Constants.{IsBound, IsConstant, get_largest_constant_is_maximum}
use scico_d.Automata.Ta.Words.{accepts_word}
use scico_d.Automata.Ta.Language.{HasRun, stop, read}
use scico_d.Automata.Ta.Totality.{AtMostOne, accepts_word_total, accepts_word_deterministic}

-- From location 0 to location 1 with action 5, while clock 7 is at most 2, which is then reset.
abbrev press : Transition ℕ ℕ ℕ
press = record {
  source = 0;
  target = 1;
  symbol = 5;
  clock_constraints = (7, less_equal 2) ∷ [];
  clock_resets = 7 ∷ [];
}

abbrev light : Ta ℕ ℕ ℕ
light = record {
  alphabet = 5 ∷ [];
  locations = 0 ∷ 1 ∷ [];
  initial_location = 0;
  final_locations = 1 ∷ [];
  clocks = 7 ∷ [];
  transitions = press ∷ [];
}

light-IsBuilt : IsBuilt light
unfolding make_ta includes
light-IsBuilt = from_transitions (0 ∷ 1 ∷ []) (5 ∷ []) 0 (1 ∷ []) (7 ∷ []) (press ∷ []) refl

IsBuilt→IsWellFormed_example : IsWellFormed light
IsBuilt→IsWellFormed_example = IsBuilt→IsWellFormed light light-IsBuilt

light-IsWellFormed : IsWellFormed light
light-IsWellFormed = IsBuilt→IsWellFormed light light-IsBuilt

abbrev at_two_pressed : List (ℕ × ℕ)
at_two_pressed = (5, 2) ∷ []

abbrev at_three_pressed : List (ℕ × ℕ)
at_three_pressed = (5, 3) ∷ []

abbrev pressed_twice : List (ℕ × ℕ)
pressed_twice = (5, 0) ∷ (5, 0) ∷ []

-- Location 0 when the clock is at 2.
abbrev at_two : TaConfiguration ℕ ℕ ℕ
at_two = record { location = 0; clock_valuations = (7, 2) ∷ [] }

at_two-IsDefined : IsDefined light.clocks at_two.clock_valuations
at_two-IsDefined x h = ground arith

make_symbol_step_iff_example :
    (next : List (TaConfiguration ℕ ℕ ℕ)) × (make_symbol_step light at_two 5 ≡ ok next)
    × IsAscending next
    × ((x : TaConfiguration ℕ ℕ ℕ)
        → member x next
          ≡ any_of
              (λ tr.
                eqb tr.source at_two.location
                && (can_fire at_two 5 tr && eqb x (target_configuration at_two tr)))
              light.transitions)
make_symbol_step_iff_example =
    make_symbol_step_iff light at_two 5 light-IsWellFormed at_two-IsDefined

get_largest_constant_is_maximum_example :
    All (λ tr. IsBound (get_largest_constant light) tr.clock_constraints) light.transitions
    × ((get_largest_constant light ≡ 0)
        ⊎ ((tr : Transition ℕ ℕ ℕ) × Memᴰ tr light.transitions
            × IsConstant (get_largest_constant light) tr.clock_constraints))
get_largest_constant_is_maximum_example = get_largest_constant_is_maximum light

accepts_word_total_example :
    (accepted : Bool) × (accepts_word light at_two_pressed ≡ ok accepted)
    × (accepted ≡ true → HasRun light at_two_pressed 0 (get_initial_configuration light))
accepts_word_total_example = accepts_word_total light at_two_pressed light-IsWellFormed

insert_one :
    (enabled : Bool) (x : TaConfiguration ℕ ℕ ℕ) → length (if enabled then insert x [] else []) ≤ 1
unfolding insert
insert_one true x = ground arith
insert_one false x = ground arith

targets_of_one :
    (x : TaConfiguration ℕ ℕ ℕ) (symbol : ℕ) (next : List (TaConfiguration ℕ ℕ ℕ))
    → insert_targets x symbol (press ∷ []) [] ≡ ok next
    → length next ≤ 1
unfolding insert_targets
targets_of_one x symbol next h =
    let (enabled, e1, e2) = after-ok (is_enabled press symbol x.clock_valuations) h in
    subst (λ n. length n ≤ 1) (ok-injective e2) (insert_one enabled (target_configuration x press))

no_targets :
    (x : TaConfiguration ℕ ℕ ℕ) (symbol : ℕ) (next : List (TaConfiguration ℕ ℕ ℕ))
    → insert_targets x symbol [] [] ≡ ok next
    → length next ≤ 1
unfolding insert_targets
no_targets x symbol next h = subst (λ n. length n ≤ 1) (ok-injective h) (ground arith)

range_of_one :
    (k : ℕ) → (equal_range k (press ∷ []) ≡ []) ⊎ (equal_range k (press ∷ []) ≡ press ∷ [])
unfolding equal_range
range_of_one zero = inr refl
range_of_one (suc k) = inl (ground arith)

light-AtMostOne : (x : TaConfiguration ℕ ℕ ℕ) → AtMostOne light x
unfolding make_symbol_step
light-AtMostOne x symbol next h = elim (range_of_one x.location) [
  | inl e ↦ no_targets x symbol next (subst (λ r. insert_targets x symbol r [] ≡ ok next) e h)
  | inr e ↦ targets_of_one x symbol next (subst (λ r. insert_targets x symbol r [] ≡ ok next) e h)
]

accepts_word_deterministic_example :
    (accepts_word light at_two_pressed ≡ ok true)
    ↔ HasRun light at_two_pressed 0 (get_initial_configuration light)
accepts_word_deterministic_example = accepts_word_deterministic light at_two_pressed light-AtMostOne

accepts_light : accepts_word light at_two_pressed ≡ ok true
unfolding accepts_word insert
accepts_light = refl

rejects_light : accepts_word light at_three_pressed ≡ ok false
unfolding accepts_word insert
rejects_light = refl

-- A transition to an unknown location.
add_unknown : add_transition light (record press { target = 2 }) ≡ err invalid_location
unfolding add_transition
add_unknown = refl

-- From location 0, action 5 leads to 1 and to 2; from 1 it leads to 1 and to 3, and from 2 to 4,
-- which is final.
abbrev edge : ℕ → ℕ → Transition ℕ ℕ ℕ
edge a b = record { source = a; target = b; symbol = 5; clock_constraints = []; clock_resets = [] }

abbrev branching : Ta ℕ ℕ ℕ
branching = record {
  alphabet = 5 ∷ [];
  locations = 0 ∷ 1 ∷ 2 ∷ 3 ∷ 4 ∷ [];
  initial_location = 0;
  final_locations = 4 ∷ [];
  clocks = [];
  transitions = edge 0 1 ∷ edge 0 2 ∷ edge 1 1 ∷ edge 1 3 ∷ edge 2 4 ∷ [];
}

-- The automaton has a run over the word, which goes through location 2.
branching-HasRun : HasRun branching pressed_twice 0 (get_initial_configuration branching)
unfolding make_symbol_step get_initial_configuration is_accepting_configuration insert
branching-HasRun =
    read {y = record { location = 2; clock_valuations = [] }} refl refl refl
      (read {y = record { location = 4; clock_valuations = [] }} refl refl refl (stop refl))

-- The word is rejected: the sequence of the path to location 4 equals that of the path to location 3.
rejects_branching : accepts_word branching pressed_twice ≡ ok false
unfolding accepts_word insert
rejects_branching = refl
