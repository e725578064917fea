-- ===== src/Search/Tree/Ancestors/Explored.antt =====
-- src/search/include/search/operators.h: what the nodes that have been seen show of the ancestors.
use scico_d.Prelude.{
  ℕ, zero, suc, Bool, true, false, List, [], ◌∷◌, ◌≡◌, ◌⊎◌, refl, sym, ap, subst, inl, inr, arith,
  nat_ord, member, Subset, Result, ok, after-ok, ok-injective, Bool-cases, eqb,
}
use scico_d.Search.Tree.{Heap, TreeError}
use scico_d.Search.Tree.Ancestors.{any_parent, ancestor_is_monotonically_dominated}

module _ {ℓ} {W A : Type ℓ} (heap : Heap W A) where
  -- `a` is reached from the node by one step or more to a parent.
  pub data IsAncestor (a : ℕ) : ℕ → Type 0 where
    parent : {i : ℕ} → member a (heap i).parents ≡ true → IsAncestor a i
    above : {i p : ℕ} → member p (heap i).parents ≡ true → IsAncestor a p → IsAncestor a i

  module _ (is_dominated : List W → Bool) where
    -- Every node that has been seen in between is not dominated, and its parents have been seen.
    abbrev pub IsExplored : List ℕ → List ℕ → Type 0
    IsExplored seen next =
        Subset seen next
        × ((x : ℕ)
            → member x next ≡ true
            → member x seen ≡ false
            → (is_dominated (heap x).words ≡ false) × Subset (heap x).parents next)

    IsExplored-trans : (s1 s2 s3 : List ℕ) → IsExplored s1 s2 → IsExplored s2 s3 → IsExplored s1 s3
    IsExplored-trans s1 s2 s3 (sub, f) (sub', g) = (
      λ a m. sub' a (sub a m),
      λ x m n. elim (Bool-cases (member x s2)) [
        | inr p ↦ g x m p
        | inl p ↦ let (d, q) = f x p n in (d, λ a k. sub' a (q a k))
      ],
    )

    pub any_parent-IsExplored :
        (test : ℕ → List ℕ → Result TreeError (Bool × List ℕ))
        → ((i : ℕ) (seen next : List ℕ)
            → test i seen ≡ ok (false, next)
            → IsExplored seen next × (member i next ≡ true))
        → (parents seen next : List ℕ) → any_parent test parents seen ≡ ok (false, next)
        → IsExplored seen next × Subset parents next
    unfolding any_parent
    any_parent-IsExplored test f [] seen next e =
        let same = ap (λ x. x.1) (ok-injective e) in
        (subst (IsExplored seen) same ((λ a m. m), λ x m n. ground arith), λ a m. ground arith)
    any_parent-IsExplored test f (p ∷ ps) seen next e =
        let ((b, s), e1, e2) = after-ok (test p seen) e in
        elim (Bool-cases b) [
          | inl q ↦ absurd (ground arith)
          | inr q ↦
              let (first, m) = f p seen s (subst (λ c. test p seen ≡ ok (c, s)) q e1) in
              let (rest, sub) = any_parent-IsExplored test f ps s next (ground arith) in
              (IsExplored-trans seen s next first rest, λ a k. ground (arith, sub a, rest.0 p m))
        ]

    pub node-IsExplored :
        (fuel i : ℕ) (seen next : List ℕ)
        → ancestor_is_monotonically_dominated fuel is_dominated heap i seen ≡ ok (false, next)
        → IsExplored seen next × (member i next ≡ true)
    unfolding ancestor_is_monotonically_dominated
    node-IsExplored zero i seen next e = absurd (ground arith)
    node-IsExplored (suc fuel) i seen next e = elim (Bool-cases (member i seen)) [
      | inl p ↦
          let same : seen ≡ next = ground arith in
          subst (λ s. IsExplored seen s × (member i s ≡ true)) same
            (((λ a m. m), λ x m n. ground arith), p)
      | inr p ↦ elim (Bool-cases (is_dominated (heap i).words)) [
        | inl q ↦ absurd (ground arith)
        | inr q ↦
            let (explored, sub) =
              any_parent-IsExplored
                (λ a s. ancestor_is_monotonically_dominated fuel is_dominated heap a s)
                (λ a s t. node-IsExplored fuel a s t) (heap i).parents (i ∷ seen) next
                (ground arith) in
            (
              (
                λ a m. explored.0 a (ground arith),
                λ x m n. elim (Bool-cases (eqb x i)) [
                  | inl k ↦
                      let same : i ≡ x = ground arith in
                      subst
                        (λ y. (is_dominated (heap y).words ≡ false) × Subset (heap y).parents next)
                        same (q, sub)
                  | inr k ↦ explored.1 x m (ground arith)
                ],
              ),
              explored.0 i (ground arith),
            )
      ]
    ]

    -- A dominated node that had not been seen, at the node or above it.
    abbrev HasDominated : ℕ → List ℕ → Type 0
    HasDominated i seen =
        (a : ℕ) × ((a ≡ i) ⊎ IsAncestor a i)
        × (is_dominated (heap a).words ≡ true)
        × (member a seen ≡ false)

    any_parent-HasDominated :
        (test : ℕ → List ℕ → Result TreeError (Bool × List ℕ))
        → ((i : ℕ) (seen next : List ℕ)
            → test i seen ≡ ok (false, next)
            → IsExplored seen next × (member i next ≡ true))
        → ((i : ℕ) (seen next : List ℕ) → test i seen ≡ ok (true, next) → HasDominated i seen)
        → (parents seen next : List ℕ) → any_parent test parents seen ≡ ok (true, next)
        → (p : ℕ) × (member p parents ≡ true) × HasDominated p seen
    unfolding any_parent
    any_parent-HasDominated test f g [] seen next e = absurd (ground arith)
    any_parent-HasDominated test f g (p ∷ ps) seen next e =
        let ((b, s), e1, e2) = after-ok (test p seen) e in
        elim (Bool-cases b) [
          | inl q ↦ (p, ground arith, g p seen s (subst (λ c. test p seen ≡ ok (c, s)) q e1))
          | inr q ↦
              let (first, m) = f p seen s (subst (λ c. test p seen ≡ ok (c, s)) q e1) in
              let (p', m', (a, path, d, n)) =
                any_parent-HasDominated test f g ps s next (ground arith) in
              (p', ground arith, (a, path, d, ground (arith, first.0 a)))
        ]

    node-HasDominated :
        (fuel i : ℕ) (seen next : List ℕ)
        → ancestor_is_monotonically_dominated fuel is_dominated heap i seen ≡ ok (true, next)
        → HasDominated i seen
    unfolding ancestor_is_monotonically_dominated
    node-HasDominated zero i seen next e = absurd (ground arith)
    node-HasDominated (suc fuel) i seen next e = elim (Bool-cases (member i seen)) [
      | inl p ↦ absurd (ground arith)
      | inr p ↦ elim (Bool-cases (is_dominated (heap i).words)) [
        | inl q ↦ (i, inl refl, q, p)
        | inr q ↦
            let (b, m, (a, path, d, n)) =
              any_parent-HasDominated
                (λ a s. ancestor_is_monotonically_dominated fuel is_dominated heap a s)
                (λ a s t. node-IsExplored fuel a s t) (λ a s t. node-HasDominated fuel a s t)
                (heap i).parents (i ∷ seen) next (ground arith) in
            (
              a,
              inr (elim path [
                | inl k ↦ parent (subst (λ y. member y (heap i).parents ≡ true) (sym k) m)
                | inr k ↦ above m k
              ]),
              d,
              ground arith,
            )
      ]
    ]

    -- What the loop over the parents of the node shows.
    pub some_ancestor :
        (fuel i : ℕ) (next : List ℕ)
        → any_parent
            (λ a s. ancestor_is_monotonically_dominated fuel is_dominated heap a s)
            (heap i).parents
            (i ∷ [])
          ≡ ok (true, next)
        → (a : ℕ) × IsAncestor a i × (eqb a i ≡ false) × (is_dominated (heap a).words ≡ true)
    some_ancestor fuel i next e =
        let (p, m, (a, path, d, n)) =
          any_parent-HasDominated
            (λ a s. ancestor_is_monotonically_dominated fuel is_dominated heap a s)
            (λ a s t. node-IsExplored fuel a s t) (λ a s t. node-HasDominated fuel a s t)
            (heap i).parents (i ∷ []) next e in
        (
          a,
          elim path [
            | inl k ↦ parent (subst (λ y. member y (heap i).parents ≡ true) (sym k) m)
            | inr k ↦ above m k
          ],
          ground arith,
          d,
        )
