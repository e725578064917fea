-- ===== src/Automata/Regions/Candidates.antt =====
-- src/automata/ta_regions.cpp and src/automata/include/automata/ta_regions.hpp: the configuration
-- that is chosen for regions lies in them.
use scico_d.Prelude.{ℕ, ◌+◌, ◌*◌, ◌^◌, ◌≤◌, ◌<◌, ◌≡◌, refl, arith, List, [], ◌∷◌, map, All, ap₂, ap}
use scico_d.Automata.Regions.{is_near_zero, get_region_index_of, get_region_candidate}

index_of_half :
    (k r : ℕ) → k < 2 ^ 31 → r ≤ 2 * k + 1 → get_region_index_of k (record { num = r; den = 2 }) ≡ r
unfolding get_region_index_of is_near_zero
index_of_half k r hk hr = ground arith

-- For K below 2^31 and region indexes up to 2 K + 1, the region indexes of the valuations that
-- `get_region_candidate` returns are those that it is given, clock by clock.
pub get_region_index_of-get_region_candidate :
    {L C : Type 0} (k : ℕ) (location : L) (regions : List (C × ℕ))
    → k < 2 ^ 31
    → All (λ x. x.1 ≤ 2 * k + 1) regions
    → map (λ x. (x.0, get_region_index_of k x.1)) (get_region_candidate (location, regions)).1
      ≡ regions
unfolding get_region_candidate
get_region_index_of-get_region_candidate k location [] hk hs = refl
get_region_index_of-get_region_candidate k location ((c, r) ∷ rs) hk (h, hs) =
    ap₂ ◌∷◌ (ap (λ (i : ℕ). (c, i)) (index_of_half k r hk h))
      (get_region_index_of-get_region_candidate k location rs hk hs)
