-- ===== src/Prelude/Maps.antt =====
-- `std::map` as the list of its entries in ascending order of the keys.
use mathlib.Core.Path.{◌≡◌, refl}
use mathlib.Core.Bool.{Bool, true, false, ◌||◌}
use mathlib.Core.Option.{Option, none, some}
use mathlib.Core.List.{List, [], ◌∷◌}
use native.Mathlib.Omega.{arith}
use mathlib.Core.Logic.{inl, inr}
use scico_d.Prelude.Tests.{if◌then◌else◌, Bool-cases}
use scico_d.Prelude.Lists.{All}
use scico_d.Prelude.Orders.{Ord, eqb}

module _ {ℓ κ} {K : Type ℓ} {A : Type κ} ⦃o : Ord K⦄ where
  -- `m.find(k)`
  unfoldable pub lookup : K → List (K × A) → Option A
  lookup k [] = none
  lookup k ((j, a) ∷ m) = if eqb k j then some a else lookup k m

  -- `m[k] = a`
  unfoldable pub assign : K → A → List (K × A) → List (K × A)
  assign k a [] = (k, a) ∷ []
  assign k a ((j, b) ∷ m) =
      if o.lt k j
      then (k, a) ∷ (j, b) ∷ m
      else if o.lt j k
      then (j, b) ∷ assign k a m
      else (k, a) ∷ m

  abbrev pub has_key : K → List (K × A) → Bool
  has_key k [] = false
  has_key k ((j, a) ∷ m) = eqb k j || has_key k m

  pub has_key-assign :
      (k j : K) (a : A) (m : List (K × A)) → has_key k (assign j a m) ≡ (eqb k j || has_key k m)
  unfolding assign
  has_key-assign k j a [] = refl
  has_key-assign k j a ((i, b) ∷ m) = ground (arith, has_key-assign k j a m, o.lt_total j i)

  pub lookup-has_key :
      (k : K) (m : List (K × A)) → has_key k m ≡ true → (a : A) × (lookup k m ≡ some a)
  unfolding lookup
  lookup-has_key k [] h = cc
  lookup-has_key k ((j, a) ∷ m) h = elim (Bool-cases (eqb k j)) [
    | inl e ↦ (a, rw e refl)
    | inr e ↦ let (b, f) = lookup-has_key k m (ground arith) in (b, rw e f)
  ]

  pub All-assign {μ} :
      (P : K × A → Type μ) (k : K) (a : A) (m : List (K × A))
      → P (k, a)
      → All P m
      → All P (assign k a m)
  unfolding assign
  All-assign P k a [] p h = (p, tt)
  All-assign P k a ((j, b) ∷ m) p (h, hs) = elim (Bool-cases (o.lt k j)) [
    | inl e ↦ rw e (p, (h, hs))
    | inr e ↦ elim (Bool-cases (o.lt j k)) [
      | inl f ↦ rw (e, f) (h, All-assign P k a m p hs)
      | inr f ↦ rw (e, f) (p, hs)
    ]
  ]
