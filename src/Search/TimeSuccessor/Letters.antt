-- ===== src/Search/TimeSuccessor/Letters.antt =====
-- src/search/include/search/synchronous_product.h: what incrementing a partition and splitting off
-- its maxed configurations do to the symbols of a letter.
use scico_d.Prelude.{
  ℕ, ◌+◌, ◌-◌, ◌≤◌, true, false, ◌&&◌, [], ◌∷◌, map, arith, ◌≡◌, refl, inl, inr, Bool-cases, Ord,
  ltb, if◌then◌else◌, All, is_empty_list, insert, insert_all, All-insert_all, All-insert,
  is_empty_list-insert, is_empty_list-insert_all,
}
use scico_d.Search.CanonicalWord.{
  AbRegionSymbol, plant, ata, Letter, CanonicalWord, get_region_index,
}
use scico_d.Search.CanonicalWord.Order.{symbol_ord}
use scico_d.Search.TimeSuccessor.{increment_symbol, is_maxed, increment_region_indexes, split_maxed}

module _ {ℓ} {L C F : Type ℓ} where
  pub get_region_index-increment_symbol :
      (m : ℕ) (w : AbRegionSymbol L C F)
      → get_region_index (increment_symbol m w)
        ≡ (if ltb (get_region_index w) m then get_region_index w + 1 else get_region_index w)
  get_region_index-increment_symbol m (plant s) = refl
  get_region_index-increment_symbol m (ata s) = refl

  -- How far the region indexes of a letter, and of a word, are below the maximum.
  abbrev pub letter_deficit : ℕ → Letter L C F → ℕ
  letter_deficit m [] = 0
  letter_deficit m (w ∷ ws) = (m - get_region_index w) + letter_deficit m ws

  abbrev pub word_deficit : ℕ → CanonicalWord L C F → ℕ
  word_deficit m [] = 0
  word_deficit m (c ∷ cs) = letter_deficit m c + word_deficit m cs

  All-map_increment {κ} :
      (P : AbRegionSymbol L C F → Type κ) (m : ℕ) (ws : Letter L C F)
      → All (λ w. P (increment_symbol m w)) ws
      → All P (map (increment_symbol m) ws)
  All-map_increment P m [] h = tt
  All-map_increment P m (w ∷ ws) (h, hs) = (h, All-map_increment P m ws hs)

module _ {ℓ} {L C F : Type ℓ} ⦃l : Ord L⦄ ⦃c : Ord C⦄ ⦃f : Ord F⦄ where
  pub All-increment_region_indexes {κ} :
      (P : AbRegionSymbol L C F → Type κ) (m : ℕ) (ws : Letter L C F)
      → All (λ w. P (increment_symbol m w)) ws
      → All P (increment_region_indexes ws m)
  unfolding increment_region_indexes
  All-increment_region_indexes P m ws h =
      All-insert_all P (map (increment_symbol m) ws) [] (All-map_increment P m ws h) tt

  -- The two parts of the split: what is maxed satisfies `P`, the rest `Q`.
  pub All-split_maxed {κ μ} :
      (P : AbRegionSymbol L C F → Type κ) (Q : AbRegionSymbol L C F → Type μ) (m : ℕ)
      (ws maxed nonmaxed : Letter L C F)
      → All (λ w. (is_maxed m w ≡ true → P w) × (is_maxed m w ≡ false → Q w)) ws
      → All P maxed
      → All Q nonmaxed
      → All P (split_maxed m ws maxed nonmaxed).0 × All Q (split_maxed m ws maxed nonmaxed).1
  unfolding split_maxed
  All-split_maxed P Q m [] maxed nonmaxed h p q = (p, q)
  All-split_maxed P Q m (w ∷ ws) maxed nonmaxed ((hp, hq), hs) p q =
      elim (Bool-cases (is_maxed m w)) [
        | inl e ↦
            rw (e, split_maxed)
              (All-split_maxed P Q m ws (insert w maxed) nonmaxed hs (All-insert P w maxed (hp e) p)
                q)
        | inr e ↦
            rw (e, split_maxed)
              (All-split_maxed P Q m ws maxed (insert w nonmaxed) hs p
                (All-insert Q w nonmaxed (hq e) q))
      ]

  -- Nothing is lost: both parts are empty only if there was nothing.
  pub is_empty_list-split_maxed :
      (m : ℕ) (ws maxed nonmaxed : Letter L C F)
      → (is_empty_list (split_maxed m ws maxed nonmaxed).0
          && is_empty_list (split_maxed m ws maxed nonmaxed).1)
        ≡ (is_empty_list ws && (is_empty_list maxed && is_empty_list nonmaxed))
  unfolding split_maxed
  is_empty_list-split_maxed m [] maxed nonmaxed = refl
  is_empty_list-split_maxed m (w ∷ ws) maxed nonmaxed = elim (Bool-cases (is_maxed m w)) [
    | inl e ↦
        rw (e, split_maxed)
          (ground (
            arith,
            is_empty_list-split_maxed m ws (insert w maxed) nonmaxed,
            is_empty_list-insert w maxed,
          ))
    | inr e ↦
        rw (e, split_maxed)
          (ground (
            arith,
            is_empty_list-split_maxed m ws maxed (insert w nonmaxed),
            is_empty_list-insert w nonmaxed,
          ))
  ]

  letter_deficit-insert :
      (m : ℕ) (w : AbRegionSymbol L C F) (s : Letter L C F)
      → letter_deficit m (insert w s) ≤ (m - get_region_index w) + letter_deficit m s
  unfolding insert
  letter_deficit-insert m w [] = omega arith
  letter_deficit-insert m w (v ∷ vs) = ground (arith, letter_deficit-insert m w vs)

  letter_deficit-insert_all :
      (m : ℕ) (ws s : Letter L C F)
      → letter_deficit m (insert_all ws s) ≤ letter_deficit m ws + letter_deficit m s
  unfolding insert_all
  letter_deficit-insert_all m [] s = omega arith
  letter_deficit-insert_all m (w ∷ ws) s =
      omega (arith, letter_deficit-insert_all m ws (insert w s), letter_deficit-insert m w s)

  pub letter_deficit-split_maxed :
      (m : ℕ) (ws maxed nonmaxed : Letter L C F)
      → letter_deficit m (split_maxed m ws maxed nonmaxed).0
          + letter_deficit m (split_maxed m ws maxed nonmaxed).1
        ≤ letter_deficit m ws + (letter_deficit m maxed + letter_deficit m nonmaxed)
  unfolding split_maxed
  letter_deficit-split_maxed m [] maxed nonmaxed = omega arith
  letter_deficit-split_maxed m (w ∷ ws) maxed nonmaxed = elim (Bool-cases (is_maxed m w)) [
    | inl e ↦
        rw (e, split_maxed)
          (omega (
            arith,
            letter_deficit-split_maxed m ws (insert w maxed) nonmaxed,
            letter_deficit-insert m w maxed,
          ))
    | inr e ↦
        rw (e, split_maxed)
          (omega (
            arith,
            letter_deficit-split_maxed m ws maxed (insert w nonmaxed),
            letter_deficit-insert m w nonmaxed,
          ))
  ]

  letter_deficit-map_increment :
      (m : ℕ) (ws : Letter L C F)
      → letter_deficit m (map (increment_symbol m) ws) ≤ letter_deficit m ws
  letter_deficit-map_increment m [] = omega arith
  letter_deficit-map_increment m (w ∷ ws) =
      ground (arith, letter_deficit-map_increment m ws, get_region_index-increment_symbol m w)

  letter_deficit-map_increment_lt :
      (m : ℕ) (ws : Letter L C F)
      → letter_deficit m (map (increment_symbol m) ws) ≤ letter_deficit m ws - 1
  letter_deficit-map_increment_lt m [] = omega arith
  letter_deficit-map_increment_lt m (w ∷ ws) = ground (
    arith,
    letter_deficit-map_increment m ws,
    letter_deficit-map_increment_lt m ws,
    get_region_index-increment_symbol m w,
  )

  -- Incrementing lowers the deficit, unless there was none.
  pub letter_deficit-increment_region_indexes :
      (m : ℕ) (ws : Letter L C F)
      → letter_deficit m (increment_region_indexes ws m) ≤ letter_deficit m ws - 1
  unfolding increment_region_indexes
  letter_deficit-increment_region_indexes m ws = omega (
    arith,
    letter_deficit-insert_all m (map (increment_symbol m) ws) [],
    letter_deficit-map_increment_lt m ws,
  )

  pub is_empty_list-increment_region_indexes :
      (m : ℕ) (ws : Letter L C F) → is_empty_list (increment_region_indexes ws m) ≡ is_empty_list ws
  unfolding increment_region_indexes insert_all
  is_empty_list-increment_region_indexes m [] = refl
  is_empty_list-increment_region_indexes m (w ∷ ws) =
      is_empty_list-insert_all (map (increment_symbol m) ws) (increment_symbol m w) []
