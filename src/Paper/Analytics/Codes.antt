-- ===== src/Paper/Analytics/Codes.antt =====
-- The codes of the diff: `sorted(set(…))` has each code once.
use stock_platform.Prelude.{
  ◌≡◌, refl, ◌&&◌, ◌||◌, Bool, true, false, ltb, ◌==◌, List, [], ◌∷◌, elem, arith,
}
use stock_platform.Execution.{Code}
use stock_platform.Paper.Analytics.{insert_code, sorted_set}

abbrev pub above : Code → List Code → Bool
above c [] = true
above c (d ∷ codes) = ltb c d && above c codes

abbrev pub ascending : List Code → Bool
ascending [] = true
ascending (c ∷ codes) = above c codes && ascending codes

above_trans :
    (b c : Code) (codes : List Code) → ltb b c ≡ true → above c codes ≡ true → above b codes ≡ true
above_trans b c [] h k = refl
above_trans b c (d ∷ codes) h k = ground (arith, above_trans b c codes)

above-insert_code :
    (b c : Code) (codes : List Code) → above b (insert_code c codes) ≡ (ltb b c && above b codes)
above-insert_code b c [] = ground arith
above-insert_code b c (d ∷ codes) = ground (arith, above-insert_code b c codes)

ascending-insert_code :
    (c : Code) (codes : List Code) → ascending codes ≡ true → ascending (insert_code c codes) ≡ true
ascending-insert_code c [] h = refl
ascending-insert_code c (d ∷ codes) h =
    ground
      (arith, ascending-insert_code c codes, above-insert_code d c codes, above_trans c d codes)

pub ascending-sorted_set : (codes : List Code) → ascending (sorted_set codes) ≡ true
unfolding sorted_set
ascending-sorted_set [] = refl
ascending-sorted_set (c ∷ codes) =
    ascending-insert_code c (sorted_set codes) (ascending-sorted_set codes)

elem-insert_code :
    (b c : Code) (codes : List Code) → elem b (insert_code c codes) ≡ ((b == c) || elem b codes)
elem-insert_code b c [] = ground arith
elem-insert_code b c (d ∷ codes) = ground (arith, elem-insert_code b c codes)

pub elem-sorted_set : (b : Code) (codes : List Code) → elem b (sorted_set codes) ≡ elem b codes
unfolding sorted_set
elem-sorted_set b [] = refl
elem-sorted_set b (c ∷ codes) =
    ground (arith, elem-insert_code b c (sorted_set codes), elem-sorted_set b codes)

pub elem-above : (c : Code) (codes : List Code) → above c codes ≡ true → elem c codes ≡ false
elem-above c [] h = refl
elem-above c (d ∷ codes) h = ground (arith, elem-above c codes)
