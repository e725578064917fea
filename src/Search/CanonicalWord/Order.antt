-- ===== src/Search/CanonicalWord/Order.antt =====
-- src/search/include/search/canonical_word.h: `operator<` on regionalised symbols is a strict total
-- order: `std::tie` in a struct, the alternative's index first in a variant.
use scico_d.Prelude.{
  ℕ, Bool, true, false, Ord, lt_pair, nat_ord, pair_ord, arith, ◌≡◌, refl, lt_pair_irrefl,
  lt_pair_trans, lt_pair_total,
}
use scico_d.Search.CanonicalWord.{PlantRegionState, AtaRegionState, AbRegionSymbol, plant, ata}

module _ {ℓ} {L C : Type ℓ} where
  -- The last two components of the tie.
  abbrev pub clock_region : PlantRegionState L C → C × ℕ
  clock_region s = (s.clock, s.region_index)

module _ {ℓ} {L C : Type ℓ} ⦃l : Ord L⦄ ⦃c : Ord C⦄ where
  abbrev pub lt_plant_region_state : PlantRegionState L C → PlantRegionState L C → Bool
  lt_plant_region_state s1 s2 = lt_pair s1.location (clock_region s1) s2.location (clock_region s2)

module _ {ℓ} {F : Type ℓ} ⦃f : Ord F⦄ where
  abbrev pub lt_ata_region_state : AtaRegionState F → AtaRegionState F → Bool
  lt_ata_region_state s1 s2 = lt_pair s1.formula s1.region_index s2.formula s2.region_index

module _ {ℓ} {L C F : Type ℓ} ⦃l : Ord L⦄ ⦃c : Ord C⦄ ⦃f : Ord F⦄ where
  abbrev pub lt_symbol : AbRegionSymbol L C F → AbRegionSymbol L C F → Bool
  lt_symbol (plant s1) (plant s2) = lt_plant_region_state s1 s2
  lt_symbol (plant s1) (ata s2) = true
  lt_symbol (ata s1) (plant s2) = false
  lt_symbol (ata s1) (ata s2) = lt_ata_region_state s1 s2

  pub lt_symbol_irrefl : (a : AbRegionSymbol L C F) → lt_symbol a a ≡ false
  lt_symbol_irrefl (plant s) = lt_pair_irrefl s.location (clock_region s)
  lt_symbol_irrefl (ata s) = lt_pair_irrefl s.formula s.region_index

  pub lt_symbol_trans :
      (a b d : AbRegionSymbol L C F)
      → lt_symbol a b ≡ true
      → lt_symbol b d ≡ true
      → lt_symbol a d ≡ true
  lt_symbol_trans (plant s) (plant t) (plant u) h k =
      lt_pair_trans s.location (clock_region s) t.location (clock_region t) u.location
        (clock_region u) h k
  lt_symbol_trans (plant s) (plant t) (ata u) h k = refl
  lt_symbol_trans (plant s) (ata t) (plant u) h k = ground arith
  lt_symbol_trans (plant s) (ata t) (ata u) h k = refl
  lt_symbol_trans (ata s) (plant t) d h k = ground arith
  lt_symbol_trans (ata s) (ata t) (plant u) h k = ground arith
  lt_symbol_trans (ata s) (ata t) (ata u) h k =
      lt_pair_trans s.formula s.region_index t.formula t.region_index u.formula u.region_index h k

  pub lt_symbol_total :
      (a b : AbRegionSymbol L C F) → lt_symbol a b ≡ false → lt_symbol b a ≡ false → a ≡ b
  lt_symbol_total (plant s) (plant t) h k =
      let e = lt_pair_total s.location (clock_region s) t.location (clock_region t) h k in
      λ i. plant (record { location = e.0 i; clock = (e.1 i).0; region_index = (e.1 i).1 })
  lt_symbol_total (plant s) (ata t) h k = ground arith
  lt_symbol_total (ata s) (plant t) h k = ground arith
  lt_symbol_total (ata s) (ata t) h k =
      let e = lt_pair_total s.formula s.region_index t.formula t.region_index h k in
      λ i. ata (record { formula = e.0 i; region_index = e.1 i })

  instance abbrev pub symbol_ord : Ord (AbRegionSymbol L C F)
  symbol_ord = record {
    lt = lt_symbol;
    lt_irrefl = lt_symbol_irrefl;
    lt_trans = lt_symbol_trans;
    lt_total = lt_symbol_total;
  }
