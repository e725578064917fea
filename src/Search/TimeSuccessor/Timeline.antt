-- ===== src/Search/TimeSuccessor/Timeline.antt =====
-- src/search/include/search/synchronous_product.h: `get_time_successors` ends, and lists the word,
-- its time successor, the successor of that one and so on, up to the first that is its own successor.
use mathlib.Core.Option
use mathlib.Core.Option.{some-injective}
use mathlib.Core.Path.{subst}
use scico_d.Prelude.{
  ℕ, suc, zero, ◌+◌, ◌%◌, ◌^◌, ◌<◌, List, [], ◌∷◌, Option, some, none, arith, ◌≡◌, ◌∙◌, sym, refl,
  ◌≢◌, inl, inr, ap, Bool-cases, Ord, eqb, eqb→eq, eqb-false→ne, list_ord, get_elem?,
}
use scico_d.Search.CanonicalWord.{CanonicalWord}
use scico_d.Search.CanonicalWord.Order.{symbol_ord}
use scico_d.Search.CanonicalWord.Valid.{IsCanonical}
use scico_d.Search.TimeSuccessor.{
  max_region_index, get_time_successor, repeat_time_successor, get_nth_time_successor,
  time_successors_from, get_time_successors,
}
use scico_d.Search.TimeSuccessor.Validity.{get_time_successor-IsCanonical}
use scico_d.Search.TimeSuccessor.Measure.{measure, get_time_successor_decreases}

module _ {ℓ} {L C F : Type ℓ} ⦃l : Ord L⦄ ⦃c : Ord C⦄ ⦃f : Ord F⦄ where
  -- The entries that follow `back`, the next one having the given index: each is the time
  -- successor of the one before and differs from it, and the last is its own time successor.
  abbrev pub IsTimeline : ℕ → CanonicalWord L C F → ℕ → List (ℕ × CanonicalWord L C F) → Type ℓ
  IsTimeline k back index [] = get_time_successor back k ≡ back
  IsTimeline k back index ((i, w) ∷ rest) =
      (i ≡ index)
      × (w ≡ get_time_successor back k)
      × (w ≢ back)
      × IsTimeline k w ((index + 1) % 2 ^ 32) rest

  smaller :
      (back : CanonicalWord L C F) (k : ℕ)
      → IsCanonical (max_region_index k) back
      → get_time_successor back k ≢ back
      → (fuel : ℕ) → measure (max_region_index k) back < suc fuel
      → measure (max_region_index k) (get_time_successor back k) < fuel
  smaller back k h differs fuel m = elim (get_time_successor_decreases back k h) [
    | inl same ↦ absurd (differs same)
    | inr less ↦ omega arith
  ]

  time_successors_from_total :
      (fuel : ℕ) (back : CanonicalWord L C F) (index k : ℕ)
      → IsCanonical (max_region_index k) back
      → measure (max_region_index k) back < fuel
      → (rest : List (ℕ × CanonicalWord L C F)) × (time_successors_from fuel back index k
          ≡ some rest)
        × IsTimeline k back index rest
  unfolding time_successors_from
  time_successors_from_total zero back index k h m = elim m [ ]
  time_successors_from_total (suc fuel) back index k h m =
      let cur = get_time_successor back k in
      elim (Bool-cases (eqb cur back)) [
        | inl e ↦ ([], rw e, eqb→eq cur back e)
        | inr e ↦
            let differs = eqb-false→ne cur back e in
            let (rest, found, timeline) =
              time_successors_from_total fuel cur ((index + 1) % 2 ^ 32) k
                (get_time_successor-IsCanonical back k h) (smaller back k h differs fuel m) in
            ((index, cur) ∷ rest, rw (e, found) refl, (refl, refl, differs, timeline))
      ]

  -- With fuel above the measure of a canonical word the loop ends, and its result is the timeline
  -- that starts with the word at index 0.
  pub get_time_successors_total :
      (fuel : ℕ) (word : CanonicalWord L C F) (k : ℕ)
      → IsCanonical (max_region_index k) word
      → measure (max_region_index k) word < fuel
      → (rest : List (ℕ × CanonicalWord L C F)) × (get_time_successors fuel word k
          ≡ some ((0, word) ∷ rest))
        × IsTimeline k word 1 rest
  unfolding get_time_successors
  get_time_successors_total fuel word k h m =
      let (rest, found, timeline) = time_successors_from_total fuel word 1 k h m in
      (rest, rw found refl, timeline)

  repeat_time_successor-suc :
      (word : CanonicalWord L C F) (n k : ℕ)
      → repeat_time_successor (get_time_successor word k) n k
        ≡ get_time_successor (repeat_time_successor word n k) k
  unfolding repeat_time_successor
  repeat_time_successor-suc word zero k = refl
  repeat_time_successor-suc word (suc n) k =
      ap (λ w. get_time_successor w k) (repeat_time_successor-suc word n k)

  IsTimeline-get_elem? :
      (k : ℕ) (back : CanonicalWord L C F) (index : ℕ) (rest : List (ℕ × CanonicalWord L C F))
      (n i : ℕ) (w : CanonicalWord L C F)
      → index < 2 ^ 32
      → IsTimeline k back index rest
      → get_elem? rest n ≡ some (i, w)
      → (i ≡ (index + n) % 2 ^ 32) × (w ≡ repeat_time_successor back (suc n) k)
  unfolding repeat_time_successor
  IsTimeline-get_elem? k back index [] n i w b t e = cc
  IsTimeline-get_elem? k back index ((j, v) ∷ rest) zero i w b t e =
      let j-eq : j ≡ i = ap (λ p. p.0) (some-injective _ _ e) in
      (omega (arith, t.0), sym (ap (λ p. p.1) (some-injective _ _ e)) ∙ t.1)
  IsTimeline-get_elem? k back index ((j, v) ∷ rest) (suc n) i w b t e =
      let (at, reached) =
        IsTimeline-get_elem? k v ((index + 1) % 2 ^ 32) rest n i w (omega arith) t.3 e in
      (
        omega arith,
        reached
            ∙ (ap (λ u. repeat_time_successor u (suc n) k) t.1
                ∙ repeat_time_successor-suc back (suc n) k),
      )

  extend-IsTimeline :
      (back : CanonicalWord L C F) (index k : ℕ) (rest : List (ℕ × CanonicalWord L C F))
      → get_time_successor back k ≢ back
      → (later : Option (List (ℕ × CanonicalWord L C F)))
      → ((tail : List (ℕ × CanonicalWord L C F))
          → later ≡ some tail
          → IsTimeline k (get_time_successor back k) ((index + 1) % 2 ^ 32) tail)
      → Option.map (λ l. (index, get_time_successor back k) ∷ l) later ≡ some rest
      → IsTimeline k back index rest
  extend-IsTimeline back index k rest differs none ih h = cc
  extend-IsTimeline back index k rest differs (some tail) ih h =
      subst (IsTimeline k back index) (some-injective _ _ h) (refl, refl, differs, ih tail refl)

  -- Whatever the fuel: a result of the loop is the timeline of its word.
  time_successors_from-IsTimeline :
      (fuel : ℕ) (back : CanonicalWord L C F) (index k : ℕ) (rest : List (ℕ × CanonicalWord L C F))
      → time_successors_from fuel back index k ≡ some rest
      → IsTimeline k back index rest
  unfolding time_successors_from
  time_successors_from-IsTimeline zero back index k rest h = cc
  time_successors_from-IsTimeline (suc fuel) back index k rest h =
      let cur = get_time_successor back k in
      elim (Bool-cases (eqb cur back)) [
        | inl e ↦
            let none_left : [] ≡ rest = some-injective _ _ (rw e at h) in
            subst (IsTimeline k back index) none_left (eqb→eq cur back e)
        | inr e ↦
            extend-IsTimeline back index k rest (eqb-false→ne cur back e)
              (time_successors_from fuel cur ((index + 1) % 2 ^ 32) k)
              (time_successors_from-IsTimeline fuel cur ((index + 1) % 2 ^ 32) k) (rw e at h)
      ]

  entry_of :
      (word : CanonicalWord L C F) (k : ℕ) (later : Option (List (ℕ × CanonicalWord L C F)))
      → ((tail : List (ℕ × CanonicalWord L C F)) → later ≡ some tail → IsTimeline k word 1 tail)
      → (l : List (ℕ × CanonicalWord L C F)) (n i : ℕ) (w : CanonicalWord L C F)
      → Option.map (λ t. (0, word) ∷ t) later ≡ some l
      → get_elem? l n ≡ some (i, w)
      → (i ≡ n % 2 ^ 32) × (w ≡ repeat_time_successor word n k)
  unfolding repeat_time_successor
  entry_of word k none timeline l n i w h e = cc
  entry_of word k (some tail) timeline [] n i w h e = cc
  entry_of word k (some tail) timeline (x ∷ rest) zero i w h e =
      let head : ◌≡◌ {A = ℕ × CanonicalWord L C F} (0, word) (i, w) = cc in
      (sym (ap (λ p. p.0) head), sym (ap (λ p. p.1) head))
  entry_of word k (some tail) timeline (x ∷ rest) (suc n) i w h e =
      let (at, reached) =
        IsTimeline-get_elem? k word 1 rest n i w (omega arith)
          (subst (IsTimeline k word 1) (cc h) (timeline tail refl)) e in
      (omega arith, reached)

  -- If the loop ends, entry n of its result, for n below 2^32, has index n and is the word that
  -- `get_nth_time_successor` computes for n.
  pub get_time_successors-get_elem? :
      (fuel : ℕ) (word : CanonicalWord L C F) (k : ℕ) {l : List (ℕ × CanonicalWord L C F)} (n : ℕ)
      {i : ℕ} {w : CanonicalWord L C F}
      → n < 2 ^ 32
      → get_time_successors fuel word k ≡ some l
      → get_elem? l n ≡ some (i, w)
      → (i ≡ n) × (w ≡ get_nth_time_successor word n k)
  unfolding get_time_successors get_nth_time_successor
  get_time_successors-get_elem? fuel word k {l} n {i} {w} b h e =
      let small : n % 2 ^ 32 ≡ n = omega arith in
      let (at, reached) =
        entry_of word k (time_successors_from fuel word 1 k)
          (time_successors_from-IsTimeline fuel word 1 k) l n i w h e in
      (at ∙ small, rw small reached)
