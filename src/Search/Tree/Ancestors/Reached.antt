-- ===== src/Search/Tree/Ancestors/Reached.antt =====
-- src/search/include/search/operators.h: `dominates_ancestor` against the ancestors of the node.
use scico_d.Prelude.{
  ℕ, zero, suc, ◌+◌, ◌<◌, ◌≤◌, Bool, true, false, List, [], ◌∷◌, ◌≡◌, ◌↔◌, ◌⊎◌, refl, sym, subst,
  inl, inr, arith, nat_ord, member, Subset, if◌then◌else◌, Result, ok, Bool-cases, All, eqb,
}
use scico_d.Search.Tree.{Heap, TreeError}
use scico_d.Search.Tree.Ancestors.{
  any_parent, ancestor_is_monotonically_dominated, dominates_ancestor,
}
use scico_d.Search.Tree.Ancestors.Explored.{
  IsAncestor, parent, above, any_parent-IsExplored, node-IsExplored, some_ancestor,
}

-- How many of the nodes have not been seen.
unfoldable pub unseen_count : List ℕ → List ℕ → ℕ
unseen_count [] seen = 0
unseen_count (j ∷ js) seen = (if member j seen then 0 else 1) + unseen_count js seen

pub unseen_count-Subset : (ids s t : List ℕ) → Subset s t → unseen_count ids t ≤ unseen_count ids s
unfolding unseen_count
unseen_count-Subset [] s t sub = ground arith
unseen_count-Subset (j ∷ js) s t sub = ground (arith, sub j, unseen_count-Subset js s t sub)

pub unseen_count-new :
    (ids s : List ℕ) (i : ℕ)
    → member i ids ≡ true
    → member i s ≡ false
    → unseen_count ids (i ∷ s) < unseen_count ids s
unfolding unseen_count
unseen_count-new [] s i m n = absurd (ground arith)
unseen_count-new (j ∷ js) s i m n = elim (Bool-cases (eqb i j)) [
  | inl e ↦
      let same : i ≡ j = ground arith in
      let n' = subst (λ y. member y s ≡ false) same n in
      ground (arith, n', unseen_count-Subset js s (i ∷ s) (λ a k. ground arith))
  | inr e ↦ ground (arith, unseen_count-new js s i (ground arith) n)
]

-- The parents of the nodes are among them.
abbrev pub HasAncestors {ℓ} : {W A : Type ℓ} → List ℕ → Heap W A → Type 0
HasAncestors ids heap =
    (j : ℕ) → member j ids ≡ true → All (λ p. member p ids ≡ true) (heap j).parents

module _ {ℓ} {W A : Type ℓ} (heap : Heap W A) where
  module _ (is_dominated : List W → Bool) where
    parents_seen :
        (i : ℕ) (next : List ℕ)
        → Subset (heap i).parents next
        → ((x : ℕ) → member x next ≡ true → eqb x i ≡ false → Subset (heap x).parents next)
        → (j : ℕ) → ((j ≡ i) ⊎ (member j next ≡ true))
        → Subset (heap j).parents next
    parents_seen i next sub f j (inl e) = subst (λ y. Subset (heap y).parents next) (sym e) sub
    parents_seen i next sub f j (inr m) = elim (Bool-cases (eqb j i)) [
      | inl k ↦
          let same : j ≡ i = ground arith in
          subst (λ y. Subset (heap y).parents next) (sym same) sub
      | inr k ↦ f j m k
    ]

    any_parent_total :
        (ids : List ℕ) (fuel : ℕ) (test : ℕ → List ℕ → Result TreeError (Bool × List ℕ))
        → ((i : ℕ) (seen : List ℕ)
            → member i ids ≡ true
            → unseen_count ids seen < fuel
            → (b : Bool) × (next : List ℕ) × (test i seen ≡ ok (b, next)) × Subset seen next)
        → (parents seen : List ℕ) → All (λ p. member p ids ≡ true) parents
        → unseen_count ids seen < fuel
        → (b : Bool) × (next : List ℕ) × (any_parent test parents seen ≡ ok (b, next))
          × Subset seen next
    unfolding any_parent
    any_parent_total ids fuel test f [] seen ms count = (false, seen, refl, λ a m. m)
    any_parent_total ids fuel test f (p ∷ ps) seen (m, ms) count =
        let (b, s, e, sub) = f p seen m count in
        elim (Bool-cases b) [
          | inl q ↦ (true, s, rw (e, q) refl, sub)
          | inr q ↦
              let (b', t, e', sub') =
                any_parent_total ids fuel test f ps s ms
                  (ground (arith, unseen_count-Subset ids seen s sub)) in
              (b', t, rw (e, q) e', λ a k. sub' a (sub a k))
        ]

    node_total :
        (fuel : ℕ) (ids : List ℕ) (i : ℕ) (seen : List ℕ)
        → HasAncestors ids heap
        → member i ids ≡ true
        → unseen_count ids seen < fuel
        → (b : Bool) × (next : List ℕ) × (ancestor_is_monotonically_dominated fuel is_dominated heap
              i seen
            ≡ ok (b, next))
          × Subset seen next
    unfolding ancestor_is_monotonically_dominated
    node_total zero ids i seen closed m count = absurd (ground arith)
    node_total (suc fuel) ids i seen closed m count = elim (Bool-cases (member i seen)) [
      | inl p ↦ (false, seen, rw p refl, λ a k. k)
      | inr p ↦ elim (Bool-cases (is_dominated (heap i).words)) [
        | inl q ↦ (true, i ∷ seen, rw (p, q) refl, λ a k. ground arith)
        | inr q ↦
            let (b, next, e, sub) =
              any_parent_total ids fuel
                (λ a s. ancestor_is_monotonically_dominated fuel is_dominated heap a s)
                (λ a s m' c'. node_total fuel ids a s closed m' c') (heap i).parents (i ∷ seen)
                (closed i m) (ground (arith, unseen_count-new ids seen i m p)) in
            (b, next, rw (p, q) e, λ a k. sub a (ground arith))
      ]
    ]

    -- A set that holds the parents of the node and of each of its other elements holds all ancestors.
    ancestors_seen :
        (i : ℕ) (next : List ℕ)
        → Subset (heap i).parents next
        → ((x : ℕ) → member x next ≡ true → eqb x i ≡ false → Subset (heap x).parents next)
        → (a j : ℕ) → ((j ≡ i) ⊎ (member j next ≡ true))
        → IsAncestor heap a j
        → member a next ≡ true
    ancestors_seen i next sub f a j at (parent m) = parents_seen i next sub f j at a m
    ancestors_seen i next sub f a j at (above {p = p} m path) =
        ancestors_seen i next sub f a p (inr (parents_seen i next sub f j at p m)) path

    no_ancestor :
        (fuel i : ℕ) (next : List ℕ)
        → any_parent
            (λ a s. ancestor_is_monotonically_dominated fuel is_dominated heap a s)
            (heap i).parents
            (i ∷ [])
          ≡ ok (false, next)
        → ((a : ℕ) × IsAncestor heap a i × (eqb a i ≡ false) × (is_dominated (heap a).words ≡ true))
        → ⊥
    no_ancestor fuel i next e (a, path, n, d) =
        let ((sub, f), above_sub) =
          any_parent-IsExplored heap is_dominated
            (λ a s. ancestor_is_monotonically_dominated fuel is_dominated heap a s)
            (λ a s t. node-IsExplored heap is_dominated fuel a s t) (heap i).parents (i ∷ []) next
            e in
        let seen =
          ancestors_seen i next above_sub (λ x m k. (f x m (ground arith)).1) a i (inl refl) path in
        let (not_dominated, rest) = f a seen (ground arith) in ground arith

  -- Take nodes among which the parents of each are. With fuel above their number, dominates_ancestor
  -- on one of them ends, and finds a node exactly if some ancestor but the node itself has words
  -- that are dominated.
  pub dominates_ancestor_iff :
      (fuel : ℕ) (ids : List ℕ) (is_dominated : List W → List W → Bool) (i : ℕ)
      → HasAncestors ids heap
      → member i ids ≡ true
      → unseen_count ids (i ∷ []) < fuel
      → (found : Bool) × (next : List ℕ) × (dominates_ancestor fuel is_dominated heap i
          ≡ ok (found, next))
        × ((found ≡ true) ↔ (
            (a : ℕ) × IsAncestor heap a i
            × (eqb a i ≡ false)
            × (is_dominated (heap a).words (heap i).words ≡ true)))
  unfolding dominates_ancestor
  dominates_ancestor_iff fuel ids is_dominated i closed m count =
      let d : List W → Bool = λ words. is_dominated words (heap i).words in
      let test : ℕ → List ℕ → Result TreeError (Bool × List ℕ) =
        λ a s. ancestor_is_monotonically_dominated fuel d heap a s in
      let (b, next, e, sub) =
        any_parent_total d ids fuel test (λ a s m' c'. node_total d fuel ids a s closed m' c')
          (heap i).parents (i ∷ []) (closed i m) count in
      elim (Bool-cases b) [
        | inl q ↦
            let found = subst (λ c. any_parent test (heap i).parents (i ∷ []) ≡ ok (c, next)) q e in
            (true, next, found, (λ k. some_ancestor heap d fuel i next found, λ k. refl))
        | inr q ↦
            let missed =
              subst (λ c. any_parent test (heap i).parents (i ∷ []) ≡ ok (c, next)) q e in
            (
              false,
              next,
              missed,
              (λ k. absurd (ground arith), λ x. absurd (no_ancestor d fuel i next missed x)),
            )
      ]
