-- ===== src/Examples/Printing.antt =====
-- The text of flags, with the lowest bit found by a search and the names of three flags.
use nlif.Prelude.{
  ℕ, zero, suc, ◌+◌, ◌*◌, ◌/◌, ◌%◌, ◌^◌, ◌≤◌, ◌<◌, ◌≡◌, refl, ap, Option, none, some, List, codes,
  ◌==◌, if◌then◌else◌, true, false, arith,
}
use native.Mathlib.Nat.{one-le-pow, pow-suc}
use nlif.Link.Print.{text, flags_str}
use nlif.Link.Print.Flags.{FindsFirst, set_bits, flags_str-fit}

unfoldable pub search_bit : ℕ → ℕ → ℕ
search_bit zero x = 0
search_bit (suc n) x = let rest = search_bit n (x / 2) in if x % 2 == 1 then 1 else suc rest

abbrev pub ffs : ℕ → ℕ
ffs x = if x == 0 then 0 else search_bit 32 x

twice : (p s : ℕ) → ((p * 2 * s % 2 == 1) ≡ false) × (p * 2 * s / 2 ≡ p * s)
twice p s = let half : p * 2 * s ≡ 2 * (p * s) = omega arith in (ground arith, omega arith)

search_bit_lem : (n j r : ℕ) → j < n → search_bit n (2 ^ j * (1 + 2 * r)) ≡ suc j
unfolding search_bit
search_bit_lem zero j r h = absurd (omega arith)
search_bit_lem (suc n) zero r h =
    let odd : (1 * (1 + 2 * r) % 2 == 1) ≡ true = ground arith in rw odd refl
search_bit_lem (suc n) (suc j) r h =
    let both : ((2 ^ suc j * (1 + 2 * r) % 2 == 1) ≡ false)
        × (2 ^ suc j * (1 + 2 * r) / 2 ≡ 2 ^ j * (1 + 2 * r)) =
      rw (pow-suc 2 j) (twice (2 ^ j) (1 + 2 * r)) in
    rw (both.0, both.1) (ap suc (search_bit_lem n j r (omega arith)))

ffs-FindsFirst : FindsFirst ffs
ffs-FindsFirst j r word small =
    let some_bit : 1 ≤ 2 ^ j * (1 + 2 * r) = omega (arith, one-le-pow j 2 (omega arith)) in
    let nonzero : (2 ^ j * (1 + 2 * r) == 0) ≡ false = ground arith in
    rw nonzero (search_bit_lem 32 j r word)

abbrev name : ℕ → List ℕ
name zero = codes "up"
name (suc zero) = codes "broadcast"
name (suc (suc k)) = codes "debug"

abbrev flag_text : ℕ → Option (List ℕ)
flag_text flag =
    if flag == 1
    then some (codes "up")
    else if flag == 2
    then some (codes "broadcast")
    else if flag == 4
    then some (codes "debug")
    else none

named : (k : ℕ) → k < 3 → flag_text (2 ^ k) ≡ some (name k)
named zero h = refl
named (suc zero) h = refl
named (suc (suc zero)) h = refl
named (suc (suc (suc k))) h = absurd (omega arith)

flags_str-fit_example : flags_str ffs flag_text 5 ≡ text (codes "up,debug")
unfolding set_bits
flags_str-fit_example =
    flags_str-fit ffs flag_text name 3 ffs-FindsFirst (omega arith) named 5 (omega arith)
