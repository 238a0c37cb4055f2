-- ===== src/Sample/Args/Number.antt =====
-- An argument that is an index in decimal.
use native.Mathlib.Nat.{pow-suc}
use nlif.Prelude.{
  ℕ, zero, suc, ◌+◌, ◌*◌, ◌/◌, ◌%◌, ◌^◌, ◌≤◌, ◌<◌, ◌≡◌, refl, sym, ◌-◌, ◌∙◌, ap, inl, inr, true,
  false, some, List, [], ◌∷◌, ltb, leb, Bool-cases, put_dec, dec_str, arith, ◌==◌,
}
use nlif.Link.{int_max, validate_index}
use nlif.Sample.Args.{
  digit_of, digits, is_digit, base_of, read_number, strtoul, skip_spaces, by_index, target,
  index_target, is_space,
}

digit_of-dec : (d : ℕ) → d < 10 → digit_of 10 (48 + d) ≡ some d
unfolding digit_of
digit_of-dec d h = ground arith

digits-dec :
    (a d : ℕ) (rest : List ℕ) → d < 10 → digits 10 a ((48 + d) ∷ rest) ≡ digits 10 (a * 10 + d) rest
unfolding digits
digits-dec a d rest h = rw (digits, digit_of-dec d h) refl

digits-put_dec :
    (f n : ℕ) (rest : List ℕ) → n < 10 ^ f → digits 10 0 (put_dec f n rest) ≡ digits 10 n rest
unfolding put_dec
digits-put_dec zero n rest h = let none_left : n ≡ 0 = omega arith in rw none_left
digits-put_dec (suc f) n rest h = elim (Bool-cases (ltb n 10)) [
  | inl small ↦
      let value : 0 * 10 + n ≡ n = omega arith in
      rw small (digits-dec 0 n rest (ground arith) ∙ ap (λ m. digits 10 m rest) value)
  | inr large ↦
      let whole : n / 10 * 10 + n % 10 ≡ n = omega arith in
      rw large (
        digits-put_dec f (n / 10) ((48 + n % 10) ∷ rest) (omega (arith, pow-suc 10 f))
        ∙ digits-dec (n / 10) (n % 10) rest (omega arith)
        ∙ ap (λ m. digits 10 m rest) whole)
]

-- The first digit is not 0.
put_dec-first :
    (f n : ℕ) (rest : List ℕ)
    → 0 < n
    → n < 10 ^ f
    → (d : ℕ) × (s : List ℕ) × (put_dec f n rest ≡ (48 + d) ∷ s) × (0 < d) × (d < 10)
unfolding put_dec
put_dec-first zero n rest some_digit h = absurd (omega arith)
put_dec-first (suc f) n rest some_digit h = elim (Bool-cases (ltb n 10)) [
  | inl small ↦ (n, rest, rw small refl, some_digit, ground arith)
  | inr large ↦
      let at_least : 10 ≤ n = ground arith in
      let (d, s, e, low, high) =
        put_dec-first f (n / 10) ((48 + n % 10) ∷ rest) (omega arith)
          (omega (arith, pow-suc 10 f)) in
      (d, s, rw large e, low, high)
]

strtoul-first :
    (d : ℕ) (s : List ℕ) (n : ℕ)
    → 0 < d
    → d < 10
    → n < 2 ^ 64
    → digits 10 0 ((48 + d) ∷ s) ≡ (n, [])
    → strtoul ((48 + d) ∷ s) ≡ (n, [])
unfolding strtoul skip_spaces is_digit
strtoul-first d s n some_digit small fits e =
    let no_space : is_space (48 + d) ≡ false = ground arith in
    let no_minus : (48 + d == 45) ≡ false = ground arith in
    let no_plus : (48 + d == 43) ≡ false = ground arith in
    let no_zero : (48 + d == 48) ≡ false = ground arith in
    let below : ltb (2 ^ 64 - 1) n ≡ false = ground arith in
    let decimal : base_of ((48 + d) ∷ s) ≡ (10, (48 + d) ∷ s) = rw no_zero refl in
    let a_digit : is_digit 10 ((48 + d) ∷ s) ≡ true = rw (is_digit, digit_of-dec d small) refl in
    rw (no_space) (
      rw (no_minus, no_plus)
        (ap (read_number ((48 + d) ∷ s) false) decimal ∙ rw (a_digit) (rw e (rw below refl))))

index-by_index : (n : ℕ) → 0 < n → n ≤ int_max → index_target n ≡ by_index n
unfolding validate_index
index-by_index n some_index small =
    let same : n % 2 ^ 32 ≡ n = omega arith in
    let fits : ltb (2 ^ 32 - 1) n ≡ false = ground arith in
    let some_n : (n == 0) ≡ false = ground arith in
    let valid : leb n int_max ≡ true = ground arith in
    rw fits (rw same (rw (some_n, valid) (ap by_index same)))

-- For any index that `nlif_link_validate_index` accepts: the sample programs take the argument that
-- is its decimal text for the index.
pub target-dec_str : (n : ℕ) → 0 < n → n ≤ int_max → target (dec_str n) ≡ by_index n
unfolding target dec_str validate_index
target-dec_str n some_index small =
    let (d, s, e, some_digit, digit) = put_dec-first 20 n [] some_index (omega arith) in
    let read : digits 10 0 ((48 + d) ∷ s) ≡ (n, []) =
      ap (digits 10 0) (sym e) ∙ digits-put_dec 20 n [] (omega arith) in
    rw e (
      rw (strtoul-first d s n some_digit digit (omega arith) read)
        (index-by_index n some_index small))
