-- ===== src/Stroll/Lists.antt =====
-- A stroll over plain lists and binary digits, which meets what is assumed of it.
use nlif.Prelude.{
  ℕ, zero, suc, ◌+◌, ◌*◌, ◌/◌, ◌%◌, ◌≡◌, refl, Bool, false, ◌||◌, List, [], ◌∷◌, ◌++◌, ◌==◌, has,
  remove, has-remove, arith,
}
use nlif.Stroll.{Stroll}
use nlif.Stroll.Laws.{IsLawful}

sum_bytes : List ℕ → ℕ
sum_bytes [] = 0
sum_bytes (c ∷ s) = c + sum_bytes s

set_digit : ℕ → ℕ → ℕ
set_digit m zero = m / 2 * 2 + 1
set_digit m (suc i) = set_digit (m / 2) i * 2 + m % 2

test_digit : ℕ → ℕ → Bool
test_digit m zero = m % 2 == 1
test_digit m (suc i) = test_digit (m / 2) i

unfoldable pub list_stroll : Stroll
unfolding sum_bytes set_digit test_digit
list_stroll = record {
  hash_str = λ s. sum_bytes s % 128;
  hash = λ i. i % 128;
  hlist_add = λ p l. p ∷ l;
  hlist_del = remove;
  dlist_nqueue_back = λ l p. l ++ p ∷ [];
  dlist_remove = remove;
  bmap_set = set_digit;
  bmap_test = test_digit;
  bmap_empty = 0;
}

test-set : (m i j : ℕ) → test_digit (set_digit m i) j ≡ (i == j || test_digit m j)
unfolding set_digit test_digit
test-set m zero zero = ground arith
test-set m zero (suc j) =
    let same : (m / 2 * 2 + 1) / 2 ≡ m / 2 = omega arith in rw same (ground arith)
test-set m (suc i) zero = ground arith
test-set m (suc i) (suc j) =
    let half : (set_digit (m / 2) i * 2 + m % 2) / 2 ≡ set_digit (m / 2) i = omega arith in
    rw half (ground (arith, test-set (m / 2) i j))

test-zero : (i : ℕ) → test_digit 0 i ≡ false
unfolding test_digit
test-zero zero = refl
test-zero (suc i) = test-zero i

pub list_stroll-IsLawful : IsLawful list_stroll
unfolding list_stroll has
list_stroll-IsLawful = record {
  hash_str-lt = λ s. omega arith;
  hash-lt = λ i. omega arith;
  has-hlist_add = λ p q l h. ground arith;
  has-hlist_del = has-remove;
  dlist_nqueue_back-eq = λ l p. refl;
  dlist_remove-eq = λ p l d. refl;
  bmap_test-set = test-set;
  bmap_empty-zero = refl;
  bmap_test-empty = test-zero;
}
