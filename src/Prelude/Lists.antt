-- ===== src/Prelude/Lists.antt =====
-- Lists measured by native numbers, and the algorithms of <algorithm> that the sources call.
use Prim.Native.Nat.{ℕ, zero, suc, ◌+◌}
use mathlib.Core.Path.{◌≡◌, refl, ap, sym, ◌∙◌}
use mathlib.Core.Logic.{inl, inr}
use mathlib.Core.Bool.{Bool, true, false, not, ◌&&◌, ◌||◌}
use mathlib.Core.Option.{Option, none, some}
use mathlib.Core.List.{List, [], ◌∷◌, ◌++◌, Memᴰ}
use scico_d.Prelude.Tests.{Bool-cases}
use native.Mathlib.Omega.{arith}

module _ {ℓ} {A : Type ℓ} where
  abbrev pub length : List A → ℕ
  length [] = 0
  length (x ∷ xs) = suc (length xs)

  abbrev pub get_elem? : List A → ℕ → Option A
  get_elem? [] i = none
  get_elem? (x ∷ xs) zero = some x
  get_elem? (x ∷ xs) (suc i) = get_elem? xs i

  -- `empty()`
  abbrev pub is_empty_list : List A → Bool
  is_empty_list [] = true
  is_empty_list (x ∷ xs) = false

  -- `std::any_of`, `std::all_of` and `std::none_of`
  abbrev pub any_of : (A → Bool) → List A → Bool
  any_of p [] = false
  any_of p (x ∷ xs) = p x || any_of p xs

  abbrev pub all_of : (A → Bool) → List A → Bool
  all_of p [] = true
  all_of p (x ∷ xs) = p x && all_of p xs

  abbrev pub none_of : (A → Bool) → List A → Bool
  none_of p xs = not (any_of p xs)

  abbrev pub IsNonempty : List A → Type 0
  IsNonempty [] = ⊥
  IsNonempty (x ∷ xs) = Unit

  -- A predicate on every element, and on some element.
  abbrev pub All {κ} : (A → Type κ) → List A → Type κ
  All P [] = Unit
  All P (x ∷ xs) = P x × All P xs

  pub All-imp {κ μ} :
      {P : A → Type κ} {Q : A → Type μ}
      → ((a : A) → P a → Q a)
      → (xs : List A) → All P xs
      → All Q xs
  All-imp f [] h = tt
  All-imp f (x ∷ xs) (p, ps) = (f x p, All-imp f xs ps)

  pub All-append {κ} : (P : A → Type κ) (xs ys : List A) → All P xs → All P ys → All P (xs ++ ys)
  All-append P [] ys h k = k
  All-append P (x ∷ xs) ys (p, ps) k = (p, All-append P xs ys ps k)

  pub All-of_append {κ} : (P : A → Type κ) (xs ys : List A) → All P (xs ++ ys) → All P xs × All P ys
  All-of_append P [] ys h = (tt, h)
  All-of_append P (x ∷ xs) ys (p, ps) = let (l, r) = All-of_append P xs ys ps in ((p, l), r)

  pub tests→All {κ} :
      {P : A → Type κ} (p : A → Bool)
      → ((a : A) → p a ≡ true → P a)
      → (xs : List A) → all_of p xs ≡ true
      → All P xs
  tests→All p f [] h = tt
  tests→All p f (x ∷ xs) h = (f x (ground arith), tests→All p f xs (ground arith))

  pub All→all_of {κ} :
      {P : A → Type κ} (p : A → Bool)
      → ((a : A) → P a → p a ≡ true)
      → (xs : List A) → All P xs
      → all_of p xs ≡ true
  All→all_of p f [] h = refl
  All→all_of p f (x ∷ xs) (h, hs) = ground (arith, f x h, All→all_of p f xs hs)

  pub all_of-imp :
      {p q : A → Bool}
      → ((a : A) → p a ≡ true → q a ≡ true)
      → (xs : List A) → all_of p xs ≡ true
      → all_of q xs ≡ true
  all_of-imp f [] h = refl
  all_of-imp f (x ∷ xs) h = ground (arith, f x, all_of-imp f xs)

  -- Nothing passes a test exactly when everything fails it.
  pub any_of-false→All {κ} :
      {P : A → Type κ} (p : A → Bool)
      → ((a : A) → p a ≡ false → P a)
      → (xs : List A) → any_of p xs ≡ false
      → All P xs
  any_of-false→All p f [] h = tt
  any_of-false→All p f (x ∷ xs) h = (f x (ground arith), any_of-false→All p f xs (ground arith))

  pub All→any_of-false {κ} :
      {P : A → Type κ} (p : A → Bool)
      → ((a : A) → P a → p a ≡ false)
      → (xs : List A) → All P xs
      → any_of p xs ≡ false
  All→any_of-false p f [] h = refl
  All→any_of-false p f (x ∷ xs) (h, hs) = ground (arith, f x h, All→any_of-false p f xs hs)

  pub length-append : (xs ys : List A) → length (xs ++ ys) ≡ length xs + length ys
  length-append [] ys = omega arith
  length-append (x ∷ xs) ys = omega (arith, length-append xs ys)

  -- Something passes a test exactly when some element does.
  pub any_of→Memᴰ :
      (p : A → Bool) (xs : List A) → any_of p xs ≡ true → (x : A) × Memᴰ x xs × (p x ≡ true)
  any_of→Memᴰ p [] h = cc
  any_of→Memᴰ p (x ∷ xs) h = elim (Bool-cases (p x)) [
    | inl e ↦ (x, Memᴰ.head refl, e)
    | inr e ↦ let (y, m, k) = any_of→Memᴰ p xs (ground arith) in (y, Memᴰ.tail m, k)
  ]

  pub Memᴰ→any_of :
      (p : A → Bool) (xs : List A) {x : A} → Memᴰ x xs → p x ≡ true → any_of p xs ≡ true
  Memᴰ→any_of p [] m h = elim m [ ]
  Memᴰ→any_of p (y ∷ xs) (Memᴰ.head e) h = rw (sym (ap p e) ∙ h) refl
  Memᴰ→any_of p (y ∷ xs) (Memᴰ.tail m) h = ground (arith, Memᴰ→any_of p xs m h)
