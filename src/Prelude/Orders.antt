-- ===== src/Prelude/Orders.antt =====
-- The strict total orders by which the sources keep their values in `std::set` and `std::map`.
-- `std::tie` and `std::pair` compare lexicographically, as do `std::vector` and `std::set`.
use Prim.Native.Nat.{ℕ}
use mathlib.Core.Path.{◌≡◌, refl}
use mathlib.Core.Logic.{◌≢◌}
use mathlib.Core.Bool.{Bool, true, false, not, ◌&&◌}
use mathlib.Core.List.{List, [], ◌∷◌}
use native.Mathlib.Omega.{arith}
use scico_d.Prelude.Tests.{ltb, if◌then◌else◌}

pub record Ord {ℓ} (A : Type ℓ) : Type ℓ where
  pub lt : A → A → Bool
  pub lt_irrefl : (a : A) → lt a a ≡ false
  pub lt_trans : (a b c : A) → lt a b ≡ true → lt b c ≡ true → lt a c ≡ true
  pub lt_total : (a b : A) → lt a b ≡ false → lt b a ≡ false → a ≡ b

module _ {ℓ} {A : Type ℓ} ⦃o : Ord A⦄ where
  -- The sources' `operator==`: `!(a < b) && !(b < a)`.
  abbrev pub eqb : A → A → Bool
  eqb a b = not (o.lt a b) && not (o.lt b a)

  pub eqb_refl : (a : A) → eqb a a ≡ true
  eqb_refl a = ground (arith, o.lt_irrefl a)

  pub eqb→eq : (a b : A) → eqb a b ≡ true → a ≡ b
  eqb→eq a b h = ground (arith, o.lt_total a b)

  pub eqb-false→ne : (a b : A) → eqb a b ≡ false → a ≢ b
  eqb-false→ne a b h e = ground (arith, o.lt_irrefl b)

  pub lt_asymm : (a b : A) → o.lt a b ≡ true → o.lt b a ≡ false
  lt_asymm a b h = ground (arith, o.lt_irrefl a, o.lt_trans a b a)

pub ltb_irrefl : (a : ℕ) → ltb a a ≡ false
ltb_irrefl a = ground arith

pub ltb_trans : (a b c : ℕ) → ltb a b ≡ true → ltb b c ≡ true → ltb a c ≡ true
ltb_trans a b c h k = ground arith

pub ltb_total : (a b : ℕ) → ltb a b ≡ false → ltb b a ≡ false → a ≡ b
ltb_total a b h k = ground arith

instance abbrev pub nat_ord : Ord ℕ
nat_ord = record { lt = ltb; lt_irrefl = ltb_irrefl; lt_trans = ltb_trans; lt_total = ltb_total }

module _ {ℓ κ} {A : Type ℓ} {B : Type κ} ⦃a : Ord A⦄ ⦃b : Ord B⦄ where
  -- `std::tie(x1, x2) < std::tie(y1, y2)`
  abbrev pub lt_pair : A → B → A → B → Bool
  lt_pair x1 x2 y1 y2 = if a.lt x1 y1 then true else if a.lt y1 x1 then false else b.lt x2 y2

  pub lt_pair_irrefl : (x1 : A) (x2 : B) → lt_pair x1 x2 x1 x2 ≡ false
  lt_pair_irrefl x1 x2 = ground (arith, a.lt_irrefl x1, b.lt_irrefl x2)

  pub lt_pair_trans :
      (x1 : A) (x2 : B) (y1 : A) (y2 : B) (z1 : A) (z2 : B)
      → lt_pair x1 x2 y1 y2 ≡ true
      → lt_pair y1 y2 z1 z2 ≡ true
      → lt_pair x1 x2 z1 z2 ≡ true
  lt_pair_trans x1 x2 y1 y2 z1 z2 h k = ground (
    arith,
    a.lt_trans x1 y1 z1,
    a.lt_total x1 y1,
    a.lt_total y1 z1,
    lt_asymm x1 z1,
    lt_asymm x1 y1,
    lt_asymm y1 z1,
    b.lt_trans x2 y2 z2,
    a.lt_irrefl x1,
  )

  pub lt_pair_total :
      (x1 : A) (x2 : B) (y1 : A) (y2 : B)
      → lt_pair x1 x2 y1 y2 ≡ false
      → lt_pair y1 y2 x1 x2 ≡ false
      → (x1 ≡ y1) × (x2 ≡ y2)
  lt_pair_total x1 x2 y1 y2 h k = ground (arith, a.lt_total x1 y1, b.lt_total x2 y2)

  instance abbrev pub pair_ord : Ord (A × B)
  pair_ord = record {
    lt = λ x y. lt_pair x.0 x.1 y.0 y.1;
    lt_irrefl = λ x. lt_pair_irrefl x.0 x.1;
    lt_trans = λ x y z. lt_pair_trans x.0 x.1 y.0 y.1 z.0 z.1;
    lt_total = λ x y h k. let e = lt_pair_total x.0 x.1 y.0 y.1 h k in λ i. (e.0 i, e.1 i);
  }

module _ {ℓ} {A : Type ℓ} ⦃o : Ord A⦄ where
  -- `std::lexicographical_compare`
  abbrev pub lt_list : List A → List A → Bool
  lt_list [] [] = false
  lt_list [] (y ∷ ys) = true
  lt_list (x ∷ xs) [] = false
  lt_list (x ∷ xs) (y ∷ ys) = if o.lt x y then true else if o.lt y x then false else lt_list xs ys

  pub lt_list_irrefl : (xs : List A) → lt_list xs xs ≡ false
  lt_list_irrefl [] = refl
  lt_list_irrefl (x ∷ xs) = ground (arith, o.lt_irrefl x, lt_list_irrefl xs)

  pub lt_list_trans :
      (xs ys zs : List A) → lt_list xs ys ≡ true → lt_list ys zs ≡ true → lt_list xs zs ≡ true
  lt_list_trans [] [] zs h k = k
  lt_list_trans [] (y ∷ ys) [] h k = k
  lt_list_trans [] (y ∷ ys) (z ∷ zs) h k = refl
  lt_list_trans (x ∷ xs) [] zs h k = ground arith
  lt_list_trans (x ∷ xs) (y ∷ ys) [] h k = k
  lt_list_trans (x ∷ xs) (y ∷ ys) (z ∷ zs) h k = ground (
    arith,
    o.lt_trans x y z,
    o.lt_total x y,
    o.lt_total y z,
    lt_asymm x z,
    lt_asymm x y,
    lt_asymm y z,
    o.lt_irrefl x,
    lt_list_trans xs ys zs,
  )

  pub lt_list_total : (xs ys : List A) → lt_list xs ys ≡ false → lt_list ys xs ≡ false → xs ≡ ys
  lt_list_total [] [] h k = refl
  lt_list_total [] (y ∷ ys) h k = ground arith
  lt_list_total (x ∷ xs) [] h k = ground arith
  lt_list_total (x ∷ xs) (y ∷ ys) h k = ground (arith, o.lt_total x y, lt_list_total xs ys)

  instance abbrev pub list_ord : Ord (List A)
  list_ord = record {
    lt = lt_list;
    lt_irrefl = lt_list_irrefl;
    lt_trans = lt_list_trans;
    lt_total = lt_list_total;
  }
