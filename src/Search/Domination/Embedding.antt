-- ===== src/Search/Domination/Embedding.antt =====
-- src/search/include/search/operators.h: the greedy search for including partitions decides whether
-- one word embeds into the other, and domination is a preorder.
use mathlib.Core.Option.{some-injective}
use mathlib.Core.Path.{subst}
use scico_d.Prelude.{
  Option-cases, sym, ◌⊎◌, true, List, [], ◌∷◌, some, arith, ◌≡◌, ◌↔◌, refl, inl, inr, Bool-cases,
  Ord, includes, any_of, All, IsAscending, Subset, includes→Subset, Subset→includes,
}
use scico_d.Search.CanonicalWord.{Letter, CanonicalWord}
use scico_d.Search.CanonicalWord.Order.{symbol_ord}
use scico_d.Search.Domination.{
  find_including, is_monotonically_dominated, is_monotonically_dominated_set,
}

module _ {ℓ} {L C F : Type ℓ} ⦃l : Ord L⦄ ⦃c : Ord C⦄ ⦃f : Ord F⦄ where
  -- The partitions of the first word are subsets of some of the second, in the same order.
  pub data Embeds : CanonicalWord L C F → CanonicalWord L C F → Type ℓ where
    done : {w : CanonicalWord L C F} → Embeds [] w
    into :
        {a b : Letter L C F} {v w : CanonicalWord L C F}
        → Subset a b
        → Embeds v w
        → Embeds (a ∷ v) (b ∷ w)
    skip : {b : Letter L C F} {v w : CanonicalWord L C F} → Embeds v w → Embeds v (b ∷ w)

  -- The letters of a word are `std::set`s.
  abbrev pub HasSets : CanonicalWord L C F → Type 0
  HasSets w = All (λ a. IsAscending a) w

  Embeds-refl : (w : CanonicalWord L C F) → Embeds w w
  Embeds-refl [] = done
  Embeds-refl (a ∷ w) = into (λ x m. m) (Embeds-refl w)

  Embeds-tail : {a : Letter L C F} {v w : CanonicalWord L C F} → Embeds (a ∷ v) w → Embeds v w
  Embeds-tail (into s e) = skip e
  Embeds-tail (skip e) = skip (Embeds-tail e)

  Embeds-tails :
      {a b : Letter L C F} {v w : CanonicalWord L C F} → Embeds (a ∷ v) (b ∷ w) → Embeds v w
  Embeds-tails (into s e) = e
  Embeds-tails (skip e) = Embeds-tail e

  Embeds-into_or_skip :
      {a b : Letter L C F} {v w : CanonicalWord L C F}
      → Embeds (a ∷ v) (b ∷ w)
      → Subset a b ⊎ Embeds (a ∷ v) w
  Embeds-into_or_skip (into s e) = inl s
  Embeds-into_or_skip (skip e) = inr e

  Embeds-trans : {u v w : CanonicalWord L C F} → Embeds u v → Embeds v w → Embeds u w
  Embeds-trans done e = done
  Embeds-trans (into s d) (into t e) = into (λ x m. t x (s x m)) (Embeds-trans d e)
  Embeds-trans (into s d) (skip e) = skip (Embeds-trans (into s d) e)
  Embeds-trans (skip d) (into t e) = skip (Embeds-trans d e)
  Embeds-trans (skip d) (skip e) = skip (Embeds-trans (skip d) e)

  -- What the search finds embeds, with the rest of the word.
  find_including-Embeds :
      (a : Letter L C F) (v w next : CanonicalWord L C F)
      → find_including a w ≡ some next
      → Embeds v next
      → Embeds (a ∷ v) w
  unfolding find_including
  find_including-Embeds a v [] next h e = cc
  find_including-Embeds a v (b ∷ w) next h e = elim (Bool-cases (includes b a)) [
    | inl p ↦
        into (includes→Subset b a p) (subst (Embeds v) (sym (some-injective _ _ (rw p at h))) e)
    | inr p ↦ skip (find_including-Embeds a v w next (rw p at h) e)
  ]

  is_monotonically_dominated→Embeds :
      (v w : CanonicalWord L C F) → is_monotonically_dominated v w ≡ true → Embeds v w
  unfolding is_monotonically_dominated
  is_monotonically_dominated→Embeds [] w h = done
  is_monotonically_dominated→Embeds (a ∷ v) w h = elim (Option-cases (find_including a w)) [
    | inl e ↦ cc (rw (e, is_monotonically_dominated) at h)
    | inr (next, e) ↦
        find_including-Embeds a v w next e
          (is_monotonically_dominated→Embeds v next (rw (e, is_monotonically_dominated) at h))
  ]

  -- If there is an embedding at all, the greedy choice leaves one for the rest of the first word.
  find_including-of_Embeds :
      (a : Letter L C F) (v w : CanonicalWord L C F)
      → IsAscending a
      → HasSets w
      → Embeds (a ∷ v) w
      → (next : CanonicalWord L C F) × (find_including a w ≡ some next)
        × Embeds v next
        × HasSets next
  unfolding find_including
  find_including-of_Embeds a v [] s hw e = elim e [ ]
  find_including-of_Embeds a v (b ∷ w) s (hb, hw) e = elim (Bool-cases (includes b a)) [
    | inl p ↦ (w, rw p refl, Embeds-tails e, hw)
    | inr p ↦ elim (Embeds-into_or_skip e) [
      | inl within ↦ cc (Subset→includes b a hb s within)
      | inr e' ↦
          let (next, found, rest, sets) = find_including-of_Embeds a v w s hw e' in
          (next, rw p found, rest, sets)
    ]
  ]

  Embeds→is_monotonically_dominated :
      (v w : CanonicalWord L C F)
      → HasSets v
      → HasSets w
      → Embeds v w
      → is_monotonically_dominated v w ≡ true
  unfolding is_monotonically_dominated
  Embeds→is_monotonically_dominated [] w hv hw e = refl
  Embeds→is_monotonically_dominated (a ∷ v) w (ha, hv) hw e =
      let (next, found, rest, sets) = find_including-of_Embeds a v w ha hw e in
      rw (found, is_monotonically_dominated) (Embeds→is_monotonically_dominated v next hv sets rest)

  -- For words whose letters are sets, the greedy search decides whether the first word embeds into
  -- the second.
  pub is_monotonically_dominated_iff :
      (v w : CanonicalWord L C F)
      → HasSets v
      → HasSets w
      → (is_monotonically_dominated v w ≡ true) ↔ Embeds v w
  is_monotonically_dominated_iff v w hv hw =
      (is_monotonically_dominated→Embeds v w, Embeds→is_monotonically_dominated v w hv hw)

  is_monotonically_dominated_refl :
      (w : CanonicalWord L C F) → HasSets w → is_monotonically_dominated w w ≡ true
  is_monotonically_dominated_refl w h = Embeds→is_monotonically_dominated w w h h (Embeds-refl w)

  is_monotonically_dominated_trans :
      (u v w : CanonicalWord L C F)
      → HasSets u
      → HasSets w
      → is_monotonically_dominated u v ≡ true
      → is_monotonically_dominated v w ≡ true
      → is_monotonically_dominated u w ≡ true
  is_monotonically_dominated_trans u v w hu hw p q = Embeds→is_monotonically_dominated u w hu hw (
      Embeds-trans (is_monotonically_dominated→Embeds u v p)
        (is_monotonically_dominated→Embeds v w q))

  dominated_by_any_trans :
      (u v : CanonicalWord L C F) (set : List (CanonicalWord L C F))
      → All HasSets set
      → HasSets v
      → any_of (λ x. is_monotonically_dominated x u) set ≡ true
      → is_monotonically_dominated u v ≡ true
      → any_of (λ x. is_monotonically_dominated x v) set ≡ true
  dominated_by_any_trans u v [] hs hv p q = cc
  dominated_by_any_trans u v (x ∷ set) (hx, hs) hv p q =
      ground
        (arith, is_monotonically_dominated_trans x u v hx hv, dominated_by_any_trans u v set hs hv)

  dominated_set_step :
      (set1 set2 : List (CanonicalWord L C F)) (w : CanonicalWord L C F)
      → All HasSets set1
      → HasSets w
      → is_monotonically_dominated_set set1 set2 ≡ true
      → any_of (λ x. is_monotonically_dominated x w) set2 ≡ true
      → any_of (λ x. is_monotonically_dominated x w) set1 ≡ true
  unfolding is_monotonically_dominated_set
  dominated_set_step set1 [] w h1 hw p q = cc
  dominated_set_step set1 (x ∷ set2) w h1 hw p q =
      ground (arith, dominated_by_any_trans x w set1 h1 hw, dominated_set_step set1 set2 w h1 hw)

  -- Domination between sets of words is transitive, if the letters of the words of the first and
  -- the third set are sets.
  pub is_monotonically_dominated_set_trans :
      (set1 set2 set3 : List (CanonicalWord L C F))
      → All HasSets set1
      → All HasSets set3
      → is_monotonically_dominated_set set1 set2 ≡ true
      → is_monotonically_dominated_set set2 set3 ≡ true
      → is_monotonically_dominated_set set1 set3 ≡ true
  unfolding is_monotonically_dominated_set
  is_monotonically_dominated_set_trans set1 set2 [] h1 h3 p q = refl
  is_monotonically_dominated_set_trans set1 set2 (w ∷ set3) h1 (hw, h3) p q = ground (
    arith,
    dominated_set_step set1 set2 w h1 hw,
    is_monotonically_dominated_set_trans set1 set2 set3 h1 h3,
  )

  dominated_by_self :
      (set : List (CanonicalWord L C F)) (more : List (CanonicalWord L C F))
      → All HasSets set
      → ((w : CanonicalWord L C F)
          → any_of (λ x. is_monotonically_dominated x w) set ≡ true
          → any_of (λ x. is_monotonically_dominated x w) more ≡ true)
      → is_monotonically_dominated_set more set ≡ true
  unfolding is_monotonically_dominated_set
  dominated_by_self [] more h k = refl
  dominated_by_self (w ∷ set) more (hw, h) k = ground (
    arith,
    k w,
    is_monotonically_dominated_refl w hw,
    dominated_by_self set more h (λ v e. k v (ground arith)),
  )

  -- A set of words whose letters are sets is dominated by itself.
  pub is_monotonically_dominated_set_refl :
      (set : List (CanonicalWord L C F))
      → All HasSets set
      → is_monotonically_dominated_set set set ≡ true
  is_monotonically_dominated_set_refl set h = dominated_by_self set set h (λ w e. e)
