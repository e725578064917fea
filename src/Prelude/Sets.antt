-- ===== src/Prelude/Sets.antt =====
-- `std::set` as the list of its elements in ascending order.
use mathlib.Core.Path.{◌≡◌, refl, sym, subst}
use mathlib.Core.Bool.{Bool, true, false, ◌||◌, ◌&&◌}
use mathlib.Core.List.{List, [], ◌∷◌}
use mathlib.Core.Logic.{inl, inr}
use native.Mathlib.Omega.{arith}
use scico_d.Prelude.Tests.{if◌then◌else◌, Bool-cases, Bool-ext}
use scico_d.Prelude.Lists.{All, All-imp, is_empty_list, any_of}
use scico_d.Prelude.Orders.{Ord, eqb, eqb_refl, eqb→eq, lt_asymm}

module _ {ℓ} {A : Type ℓ} ⦃o : Ord A⦄ where
  -- `s.insert(x)`
  unfoldable pub insert : A → List A → List A
  insert x [] = x ∷ []
  insert x (y ∷ ys) = if o.lt x y then x ∷ y ∷ ys else if o.lt y x then y ∷ insert x ys else y ∷ ys

  -- `s.insert(xs.begin(), xs.end())`
  unfoldable pub insert_all : List A → List A → List A
  unfolding insert
  insert_all [] s = s
  insert_all (x ∷ xs) s = insert_all xs (insert x s)

  -- `s.count(x) > 0`
  abbrev pub member : A → List A → Bool
  member x [] = false
  member x (y ∷ ys) = eqb x y || member x ys

  -- `std::includes` on two ascending ranges: does the first hold each element of the second?
  unfoldable pub includes : List A → List A → Bool
  includes xs [] = true
  includes [] (y ∷ ys) = false
  includes (x ∷ xs) (y ∷ ys) =
      if o.lt y x then false else includes xs (if o.lt x y then y ∷ ys else ys)

  -- Ascending, so that no element occurs twice.
  abbrev pub IsAscending : List A → Type 0
  IsAscending [] = Unit
  IsAscending (x ∷ xs) = All (λ y. o.lt x y ≡ true) xs × IsAscending xs

  abbrev pub Subset : List A → List A → Type ℓ
  Subset xs ys = (a : A) → member a xs ≡ true → member a ys ≡ true

module _ {ℓ} {A : Type ℓ} ⦃o : Ord A⦄ where
  pub All-insert {κ} : (P : A → Type κ) (x : A) (s : List A) → P x → All P s → All P (insert x s)
  unfolding insert
  All-insert P x [] p h = (p, tt)
  All-insert P x (y ∷ ys) p h = ground (arith, All-insert P x ys p)

  pub All-insert_all {κ} :
      (P : A → Type κ) (xs s : List A) → All P xs → All P s → All P (insert_all xs s)
  unfolding insert_all
  All-insert_all P [] s p h = h
  All-insert_all P (x ∷ xs) s (p, ps) h = All-insert_all P xs (insert x s) ps (All-insert P x s p h)

  pub is_empty_list-insert : (x : A) (s : List A) → is_empty_list (insert x s) ≡ false
  unfolding insert
  is_empty_list-insert x [] = refl
  is_empty_list-insert x (y ∷ ys) = ground arith

  pub is_empty_list-insert_all :
      (xs : List A) (x : A) (s : List A) → is_empty_list (insert_all xs (insert x s)) ≡ false
  unfolding insert_all
  is_empty_list-insert_all [] x s = is_empty_list-insert x s
  is_empty_list-insert_all (y ∷ ys) x s = is_empty_list-insert_all ys y (insert x s)

  pub insert-IsAscending : (x : A) (s : List A) → IsAscending s → IsAscending (insert x s)
  unfolding insert
  insert-IsAscending x [] h = (tt, tt)
  insert-IsAscending x (y ∷ ys) (h, t) = elim (Bool-cases (o.lt x y)) [
    | inl p ↦ rw p ((p, All-imp (λ z. o.lt_trans x y z p) ys h), (h, t))
    | inr p ↦ elim (Bool-cases (o.lt y x)) [
      | inl q ↦ rw (p, q) (All-insert (λ z. o.lt y z ≡ true) x ys q h, insert-IsAscending x ys t)
      | inr q ↦ rw (p, q) (h, t)
    ]
  ]

  pub insert_all-IsAscending : (xs s : List A) → IsAscending s → IsAscending (insert_all xs s)
  unfolding insert_all
  insert_all-IsAscending [] s h = h
  insert_all-IsAscending (x ∷ xs) s h =
      insert_all-IsAscending xs (insert x s) (insert-IsAscending x s h)

  pub member-insert : (a x : A) (s : List A) → member a (insert x s) ≡ (eqb a x || member a s)
  unfolding insert
  member-insert a x [] = refl
  member-insert a x (y ∷ ys) = ground (arith, member-insert a x ys, o.lt_total x y)

  pub Subset-insert : (x : A) (s : List A) → Subset s (insert x s)
  Subset-insert x s a m = ground (arith, member-insert a x s)

  pub of_member {κ} : (P : A → Type κ) (x : A) (s : List A) → All P s → member x s ≡ true → P x
  of_member P x [] h m = absurd (ground arith)
  of_member P x (y ∷ s) (h, hs) m = elim (Bool-cases (eqb x y)) [
    | inl e ↦ subst P (sym (eqb→eq x y e)) h
    | inr e ↦ of_member P x s hs (ground arith)
  ]

  pub All-member : (s : List A) → All (λ x. member x s ≡ true) s
  All-member [] = tt
  All-member (x ∷ s) = (ground (arith, eqb_refl x), All-imp (λ y m. ground arith) s (All-member s))

  pub member-insert_all :
      (a : A) (xs s : List A) → member a (insert_all xs s) ≡ (member a xs || member a s)
  unfolding insert_all
  member-insert_all a [] s = refl
  member-insert_all a (x ∷ xs) s =
      ground (arith, member-insert_all a xs (insert x s), member-insert a x s)

  -- `includes` on ascending ranges decides the subset relation.
  member-of_above :
      (a x : A) (s : List A) → All (λ z. o.lt x z ≡ true) s → member a s ≡ true → o.lt x a ≡ true
  member-of_above a x [] h m = ground arith
  member-of_above a x (y ∷ ys) (p, ps) m = elim (Bool-cases (eqb a y)) [
    | inl e ↦ ground (arith, o.lt_total a y)
    | inr e ↦ member-of_above a x ys ps (ground arith)
  ]

  pub includes→Subset : (xs ys : List A) → includes xs ys ≡ true → Subset ys xs
  unfolding includes
  includes→Subset xs [] h a m = ground arith
  includes→Subset [] (y ∷ ys) h a m = ground arith
  includes→Subset (x ∷ xs) (y ∷ ys) h a m = ground (
    arith,
    includes→Subset xs ys,
    includes→Subset xs (if o.lt x y then y ∷ ys else ys) (ground arith) a,
    o.lt_total x y,
  )

  -- An ascending list that is a subset of `x ∷ xs` and lies above `x` is a subset of `xs`.
  Subset-of_above :
      (x : A) (xs ys : List A)
      → All (λ z. o.lt x z ≡ true) ys
      → ((a : A) → member a ys ≡ true → member a (x ∷ xs) ≡ true)
      → Subset ys xs
  Subset-of_above x xs ys above s a m = ground (arith, s a m, member-of_above a x ys above m)

  pub Subset→includes :
      (xs ys : List A) → IsAscending xs → IsAscending ys → Subset ys xs → includes xs ys ≡ true
  unfolding includes
  Subset→includes xs [] _ _ s = refl
  Subset→includes [] (y ∷ ys) _ _ s = ground (arith, s y, o.lt_irrefl y)
  Subset→includes (x ∷ xs) (y ∷ ys) (u, us) (v, vs) s = elim (Bool-cases (o.lt y x)) [
    | inl below ↦ ground (arith, s y, o.lt_irrefl y, lt_asymm y x, member-of_above y x xs u)
    | inr p ↦ elim (Bool-cases (o.lt x y)) [
      | inl q ↦
          rw (p, q)
            (Subset→includes xs (y ∷ ys) us (v, vs)
              (Subset-of_above x xs (y ∷ ys) (q, All-imp (λ z. o.lt_trans x y z q) ys v) s))
      | inr q ↦
          rw (p, q)
            (Subset→includes xs ys us vs
              (Subset-of_above x xs ys (rw (o.lt_total x y q p) v) (λ a m. s a (ground arith))))
    ]
  ]

  -- The subset relation, decided by `includes`, is a preorder, and unions are least upper bounds.
  pub includes_refl : (xs : List A) → IsAscending xs → includes xs xs ≡ true
  includes_refl xs h = Subset→includes xs xs h h (λ a m. m)

  pub includes_trans :
      (xs ys zs : List A)
      → IsAscending xs
      → IsAscending zs
      → includes xs ys ≡ true
      → includes ys zs ≡ true
      → includes xs zs ≡ true
  includes_trans xs ys zs hx hz p q =
      Subset→includes xs zs hx hz (λ a m. includes→Subset xs ys p a (includes→Subset ys zs q a m))

  pub includes-insert_all :
      (s xs ys : List A)
      → IsAscending s
      → IsAscending xs
      → IsAscending ys
      → includes s (insert_all xs ys) ≡ (includes s xs && includes s ys)
  includes-insert_all s xs ys hs hx hy =
      Bool-ext (includes s (insert_all xs ys)) (includes s xs && includes s ys)
        (λ p.
          let sub = includes→Subset s (insert_all xs ys) p in
          rw
            (
              Subset→includes s xs hs hx (λ a m. sub a (ground (arith, member-insert_all a xs ys))),
              Subset→includes s ys hs hy (λ a m. sub a (ground (arith, member-insert_all a xs ys))),
            )
            refl)
        (λ p. Subset→includes s (insert_all xs ys) hs (insert_all-IsAscending xs ys hy) (λ a m.
          ground (
            arith,
            member-insert_all a xs ys,
            includes→Subset s xs (ground arith) a,
            includes→Subset s ys (ground arith) a,
          )))

  pub includes-singleton : (s : List A) (x : A) → IsAscending s → includes s (x ∷ []) ≡ member x s
  includes-singleton s x h =
      Bool-ext (includes s (x ∷ [])) (member x s)
        (λ p. includes→Subset s (x ∷ []) p x (ground (arith, o.lt_irrefl x)))
        (λ m.
          Subset→includes s (x ∷ []) h (tt, tt)
            (λ a e. subst (λ b. member b s ≡ true) (sym (eqb→eq a x (ground arith))) m))

  -- A test of some element, after an insertion.
  pub any_of-insert :
      (p : A → Bool) (x : A) (s : List A) → any_of p (insert x s) ≡ (p x || any_of p s)
  unfolding insert
  any_of-insert p x [] = refl
  any_of-insert p x (y ∷ ys) = ground (arith, any_of-insert p x ys, o.lt_total x y)

  pub includes-nil : (s : List A) → includes s [] ≡ true
  unfolding includes
  includes-nil s = refl
