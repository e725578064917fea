-- ===== src/Examples/Dominations.antt =====
-- Words with numbers for locations, clocks and formulas.
use scico_d.Prelude.{ℕ, ◌≡◌, ◌↔◌, refl, [], ◌∷◌, true, false, nat_ord, includes}
use scico_d.Search.CanonicalWord.{AbRegionSymbol, plant, ata, CanonicalWord}
use scico_d.Search.CanonicalWord.Order.{symbol_ord}
use scico_d.Search.Domination.{is_monotonically_dominated, is_monotonically_dominated_set}
use scico_d.Search.Domination.Embedding.{
  Embeds, is_monotonically_dominated_iff, is_monotonically_dominated_set_trans,
  is_monotonically_dominated_set_refl,
}

abbrev Symbol : Type 0
Symbol = AbRegionSymbol ℕ ℕ ℕ

abbrev clock_at : ℕ → ℕ → Symbol
clock_at x i = plant (record { location = 0; clock = x; region_index = i })

abbrev formula_at : ℕ → ℕ → Symbol
formula_at a i = ata (record { formula = a; region_index = i })

abbrev small : CanonicalWord ℕ ℕ ℕ
small = (clock_at 0 0 ∷ []) ∷ []

abbrev medium : CanonicalWord ℕ ℕ ℕ
medium = (formula_at 5 2 ∷ []) ∷ (clock_at 0 0 ∷ formula_at 7 0 ∷ []) ∷ []

abbrev large : CanonicalWord ℕ ℕ ℕ
large = (formula_at 5 2 ∷ formula_at 6 2 ∷ []) ∷ (clock_at 0 0 ∷ formula_at 7 0 ∷ []) ∷ []

is_monotonically_dominated_iff_example :
    (is_monotonically_dominated medium large ≡ true) ↔ Embeds medium large
is_monotonically_dominated_iff_example =
    is_monotonically_dominated_iff medium large ((tt, tt), (((refl, tt), (tt, tt)), tt))
      (((refl, tt), (tt, tt)), (((refl, tt), (tt, tt)), tt))

not_dominated : is_monotonically_dominated large medium ≡ false
unfolding is_monotonically_dominated includes
not_dominated = refl

small_below : is_monotonically_dominated_set (small ∷ []) (medium ∷ []) ≡ true
unfolding is_monotonically_dominated_set is_monotonically_dominated includes
small_below = refl

large_above : is_monotonically_dominated_set (medium ∷ []) (large ∷ []) ≡ true
unfolding is_monotonically_dominated_set is_monotonically_dominated includes
large_above = refl

is_monotonically_dominated_set_trans_example :
    is_monotonically_dominated_set (small ∷ []) (large ∷ []) ≡ true
is_monotonically_dominated_set_trans_example =
    is_monotonically_dominated_set_trans (small ∷ []) (medium ∷ []) (large ∷ [])
      (((tt, tt), tt), tt) ((((refl, tt), (tt, tt)), (((refl, tt), (tt, tt)), tt)), tt) small_below
      large_above

is_monotonically_dominated_set_refl_at_values :
    is_monotonically_dominated_set (medium ∷ []) (medium ∷ []) ≡ true
is_monotonically_dominated_set_refl_at_values =
    is_monotonically_dominated_set_refl (medium ∷ []) (((tt, tt), (((refl, tt), (tt, tt)), tt)), tt)
