-- ===== src/Prelude/Bits.antt =====
-- Laws of `bit_and` and `bit_or` at variables, from the recursion on digits.
use Prim.Native.Nat.{
  ℕ, zero, suc, ◌+◌, ◌*◌, ◌/◌, ◌%◌, ◌^◌, ◌-◌, ◌≤◌, ◌<◌, min, max, bit_and, bit_or, digits,
  bit_and-bitwise, bit_or-bitwise,
}
use mathlib.Core.Path.{◌≡◌, refl, sym, ap, ◌∙◌}
use mathlib.Core.Logic.{◌⊎◌}
use native.Mathlib.Nat.{pow-suc}
use native.Mathlib.Omega.{arith}

-- The recursion of both operations, where `rest` is what the second operand gives once the first is
-- used up, and `digit` joins two digits. Fuel beyond the first operand changes nothing.
module _ (rest : ℕ → ℕ) (digit : ℕ → ℕ → ℕ) where
  abbrev run : ℕ → ℕ → ℕ → ℕ
  run = digits rest digit

  one_more : (a b n : ℕ) → a ≤ n → run (suc n) a b ≡ run n a b
  one_more zero b zero h = refl
  one_more zero b (suc n) h = refl
  one_more (suc a) b zero h = absurd (omega arith)
  one_more (suc a) b (suc n) h = omega (arith, one_more (suc a / 2) (b / 2) n (omega arith))

  any_more : (k a b n m : ℕ) → m ≡ k + n → a ≤ n → run m a b ≡ run n a b
  any_more zero a b n m e h = let same : m ≡ n = omega arith in ap (λ x. run x a b) same
  any_more (suc k) a b n zero e h = absurd (omega arith)
  any_more (suc k) a b n (suc m) e h =
      one_more a b m (omega arith) ∙ any_more k a b n m (omega arith) h

  lowest :
      (a b : ℕ)
      → run (suc a) (suc a) b ≡ digit (suc a % 2) (b % 2) + 2 * run (suc a / 2) (suc a / 2) (b / 2)
  lowest a b = omega (
    arith,
    any_more (a - suc a / 2) (suc a / 2) (b / 2) (suc a / 2) a (omega arith) (omega arith),
  )

pub zero-bit_and : (b : ℕ) → bit_and 0 b ≡ 0
zero-bit_and = bit_and-bitwise 0

pub zero-bit_or : (b : ℕ) → bit_or 0 b ≡ b
zero-bit_or = bit_or-bitwise 0

-- Each operation by the lowest digits and the rest.
bit_and_split : (a b : ℕ) → bit_and a b ≡ min (a % 2) (b % 2) + 2 * bit_and (a / 2) (b / 2)
bit_and_split zero b = rw (zero-bit_and b, zero-bit_and (b / 2)) (omega arith)
bit_and_split (suc a) b =
    rw (bit_and-bitwise (suc a) b, bit_and-bitwise (suc a / 2) (b / 2)) (lowest (λ _. 0) min a b)

bit_or_split : (a b : ℕ) → bit_or a b ≡ max (a % 2) (b % 2) + 2 * bit_or (a / 2) (b / 2)
bit_or_split zero b = rw (zero-bit_or b, zero-bit_or (b / 2)) (omega arith)
bit_or_split (suc a) b =
    rw (bit_or-bitwise (suc a) b, bit_or-bitwise (suc a / 2) (b / 2)) (lowest (λ c. c) max a b)

-- The second operand 0, by a bound that the first one stays under.
bit_and-zero_under : (a n : ℕ) → a < n → bit_and a 0 ≡ 0
bit_and-zero_under a zero h = absurd (omega arith)
bit_and-zero_under zero (suc n) h = zero-bit_and 0
bit_and-zero_under (suc a) (suc n) h =
    omega (arith, bit_and-zero_under (suc a / 2) n (omega arith), bit_and_split (suc a) 0)

pub bit_and-zero : (a : ℕ) → bit_and a 0 ≡ 0
bit_and-zero a = bit_and-zero_under a (suc a) (omega arith)

bit_or-zero_under : (a n : ℕ) → a < n → bit_or a 0 ≡ a
bit_or-zero_under a zero h = absurd (omega arith)
bit_or-zero_under zero (suc n) h = zero-bit_or 0
bit_or-zero_under (suc a) (suc n) h =
    omega (arith, bit_or-zero_under (suc a / 2) n (omega arith), bit_or_split (suc a) 0)

pub bit_or-zero : (a : ℕ) → bit_or a 0 ≡ a
bit_or-zero a = bit_or-zero_under a (suc a) (omega arith)

and_half : (a b : ℕ) → bit_and a b / 2 ≡ bit_and (a / 2) (b / 2)
and_half a b = omega (arith, bit_and_split a b)

and_digit : (a b : ℕ) → bit_and a b % 2 ≡ min (a % 2) (b % 2)
and_digit a b = omega (arith, bit_and_split a b)

or_half : (a b : ℕ) → bit_or a b / 2 ≡ bit_or (a / 2) (b / 2)
or_half a b = omega (arith, bit_or_split a b)

or_digit : (a b : ℕ) → bit_or a b % 2 ≡ max (a % 2) (b % 2)
or_digit a b = omega (arith, bit_or_split a b)

-- Each law by a bound on the operand that both sides recur on.
and_assoc_below : (n a b c : ℕ) → a ≤ n → bit_and (bit_and a b) c ≡ bit_and a (bit_and b c)
and_assoc_below n zero b c h = rw (zero-bit_and b, zero-bit_and c, zero-bit_and (bit_and b c))
and_assoc_below zero (suc a) b c h = absurd (omega arith)
and_assoc_below (suc n) (suc a) b c h =
    rw (bit_and_split (bit_and (suc a) b) c, bit_and_split (suc a) (bit_and b c))
      (rw (and_half (suc a) b, and_half b c, and_digit (suc a) b, and_digit b c)
        (omega (arith, and_assoc_below n (suc a / 2) (b / 2) (c / 2) (omega arith))))

pub bit_and_assoc : (a b c : ℕ) → bit_and (bit_and a b) c ≡ bit_and a (bit_and b c)
bit_and_assoc a b c = and_assoc_below a a b c (omega arith)

and_or_below : (n a b c : ℕ) → c ≤ n → bit_and (bit_or a b) c ≡ bit_or (bit_and a c) (bit_and b c)
and_or_below n a b zero h =
    rw (bit_and-zero (bit_or a b), bit_and-zero a, bit_and-zero b, zero-bit_or 0)
and_or_below zero a b (suc c) h = absurd (omega arith)
and_or_below (suc n) a b (suc c) h =
    rw (bit_and_split (bit_or a b) (suc c), bit_or_split (bit_and a (suc c)) (bit_and b (suc c)))
      (rw
        (
          or_half a b,
          or_digit a b,
          and_half a (suc c),
          and_half b (suc c),
          and_digit a (suc c),
          and_digit b (suc c),
        )
        (omega (arith, and_or_below n (a / 2) (b / 2) (suc c / 2) (omega arith))))

pub and-or : (a b c : ℕ) → bit_and (bit_or a b) c ≡ bit_or (bit_and a c) (bit_and b c)
and-or a b c = and_or_below c a b c (omega arith)

-- `(f & n) | (l & m)` for masks that share no bit: `m` selects from `l`, and `n` from `f`.
module _ (f l m n : ℕ) where
  pub merge_in :
      bit_and n m ≡ 0
      → bit_and m m ≡ m
      → bit_and (bit_or (bit_and f n) (bit_and l m)) m ≡ bit_and l m
  merge_in apart self =
      rw (and-or (bit_and f n) (bit_and l m) m, bit_and_assoc f n m, bit_and_assoc l m m)
        (rw (apart, self, bit_and-zero f) (zero-bit_or (bit_and l m)))

  pub merge_out :
      bit_and m n ≡ 0
      → bit_and n n ≡ n
      → bit_and (bit_or (bit_and f n) (bit_and l m)) n ≡ bit_and f n
  merge_out apart self =
      rw (and-or (bit_and f n) (bit_and l m) n, bit_and_assoc f n n, bit_and_assoc l m n)
        (rw (apart, self, bit_and-zero l) (bit_or-zero (bit_and f n)))

and_comm_below : (n a b : ℕ) → a ≤ n → bit_and a b ≡ bit_and b a
and_comm_below n zero b h = zero-bit_and b ∙ sym (bit_and-zero b)
and_comm_below zero (suc a) b h = absurd (omega arith)
and_comm_below (suc n) (suc a) b h = omega (
  arith,
  bit_and_split (suc a) b,
  bit_and_split b (suc a),
  and_comm_below n (suc a / 2) (b / 2) (omega arith),
)

pub bit_and_comm : (a b : ℕ) → bit_and a b ≡ bit_and b a
bit_and_comm a b = and_comm_below a a b (omega arith)

-- A mask of k ones, one less than `m`, keeps a number of k digits.
ones_below : (k m a : ℕ) → m ≡ 2 ^ k → a < m → bit_and a (m - 1) ≡ a
ones_below zero m a e h = let nothing : a ≡ 0 = omega arith in rw nothing (zero-bit_and (m - 1))
ones_below (suc k) m a e h =
    let twice : m ≡ 2 ^ k * 2 = e ∙ pow-suc 2 k in
    let half : (m - 1) / 2 ≡ 2 ^ k - 1 = omega arith in
    let rest : bit_and (a / 2) ((m - 1) / 2) ≡ a / 2 =
      rw half (ones_below k (2 ^ k) (a / 2) refl (omega arith)) in
    omega (arith, bit_and_split a (m - 1))

pub bit_and-ones : (k a : ℕ) → a < 2 ^ k → bit_and a (2 ^ k - 1) ≡ a
bit_and-ones k a h = ones_below k (2 ^ k) a refl h

-- The two parts of a 32-bit word under a mask and its complement.
pub split_word :
    (f m : ℕ)
    → f < 2 ^ 32
    → bit_or (2 ^ 32 - 1 - m) m ≡ 2 ^ 32 - 1
    → bit_or (bit_and f (2 ^ 32 - 1 - m)) (bit_and f m) ≡ f
split_word f m h full =
    rw
      (
        bit_and_comm f (2 ^ 32 - 1 - m),
        bit_and_comm f m,
        ← and-or (2 ^ 32 - 1 - m) m f,
        full,
        bit_and_comm (2 ^ 32 - 1) f,
      )
      (bit_and-ones 32 f h)

and_le_below : (n a b : ℕ) → a ≤ n → bit_and a b ≤ a
and_le_below n zero b h = omega (arith, zero-bit_and b)
and_le_below zero (suc a) b h = absurd (omega arith)
and_le_below (suc n) (suc a) b h =
    omega (arith, bit_and_split (suc a) b, and_le_below n (suc a / 2) (b / 2) (omega arith))

pub bit_and-le : (a b : ℕ) → bit_and a b ≤ a
bit_and-le a b = and_le_below a a b (omega arith)

or_one-lt : (a m : ℕ) → a < m * 2 → bit_or a 1 < m * 2
or_one-lt a m h = omega (arith, bit_or_split a 1, bit_or-zero (a / 2))

-- Setting or clearing the lowest flag keeps a word within 32 bits.
pub up_word_lt :
    (f m : ℕ) → f < 2 ^ 32 → (bit_or (bit_and f m) 0 < 2 ^ 32) × (bit_or (bit_and f m) 1 < 2 ^ 32)
up_word_lt f m h = (
  omega (arith, bit_or-zero (bit_and f m), bit_and-le f m),
  omega (arith, or_one-lt (bit_and f m) (2 ^ 31), bit_and-le f m),
)

pub bit_and_one : (f : ℕ) → (bit_and f 1 ≡ 0) ⊎ (bit_and f 1 ≡ 1)
bit_and_one f = omega (arith, bit_and_split f 1, bit_and-zero (f / 2))
