-- ===== src/Link/Print/Flags.antt =====
-- The text of a word of flags: the names of its bits, between commas, where they fit the buffer.
use native.Mathlib.Nat.{
  div-div-eq-div-mul, mul-div_cancel_left, one-le-pow, pow-le-pow_right, pow-suc,
}
use mathlib.Core.List.{map, append-nil, append_assoc}
use nlif.Prelude.{
  ℕ, zero, suc, ◌+◌, ◌-◌, ◌*◌, ◌/◌, ◌%◌, ◌^◌, ◌≤◌, ◌<◌, ◌≡◌, refl, ap, ◌⊎◌, inl, inr, Option, some,
  List, [], ◌∷◌, ◌++◌, length, length-append, ltb, ◌==◌, if◌then◌else◌, true, false, Bool-cases,
  arith,
}
use nlif.Link.Print.{
  Text, text, aborted, then_text, undefined, strsz, comma, append_text, put_flag, more_flags,
  flags_str,
}

-- The positions of the bits of `x` that are 1, among `n` that are counted from `k` on.
unfoldable pub set_bits : ℕ → ℕ → ℕ → List ℕ
set_bits zero k x = []
set_bits (suc n) k x =
    let rest = set_bits n (suc k) (x / 2) in if x % 2 == 1 then k ∷ rest else rest

-- `ffs` gives the position, from 1 on, of the lowest bit of a word that is 1.
abbrev pub FindsFirst : (ℕ → ℕ) → Type 0
FindsFirst ffs =
    (j r : ℕ) → j < 32 → 2 ^ j * (1 + 2 * r) < 2 ^ 32 → ffs (2 ^ j * (1 + 2 * r)) ≡ suc j

set_bits-zero : (n k : ℕ) → set_bits n k 0 ≡ []
unfolding set_bits
set_bits-zero zero k = refl
set_bits-zero (suc n) k = set_bits-zero n (suc k)

-- The lowest bit of `x` that is 1 stands at `j`, below `m` bits that make up `r`.
record LowestBit (n x : ℕ) : Type 0 where
  j : ℕ
  r : ℕ
  m : ℕ
  split : n ≡ j + suc m
  value : x ≡ 2 ^ j * (1 + 2 * r)
  small : r < 2 ^ m
  bits : (k l : ℕ) → l ≡ k + j → set_bits n k x ≡ l ∷ set_bits m (suc l) r

double : (p s x : ℕ) → x % 2 ≡ 0 → x / 2 ≡ p * s → x ≡ p * 2 * s
double p s x even half = omega arith

split_bits : (n x : ℕ) → x < 2 ^ n → (x ≡ 0) ⊎ LowestBit n x
unfolding set_bits
split_bits zero x h = inl (omega arith)
split_bits (suc n) x h = elim (Bool-cases (x % 2 == 1)) [
  | inl odd ↦ inr (record {
    j = 0;
    r = x / 2;
    m = n;
    split = omega arith;
    value = ground arith;
    small = omega (arith, pow-suc 2 n);
    bits = λ k l e.
        rw odd (let same : k ≡ l = omega arith in ap (λ a. a ∷ set_bits n (suc a) (x / 2)) same);
  })
  | inr even ↦ elim (split_bits n (x / 2) (omega (arith, pow-suc 2 n))) [
    | inl none_set ↦ inl (ground arith)
    | inr f ↦ inr (record {
      j = suc f.j;
      r = f.r;
      m = f.m;
      split = omega (arith, f.split);
      value = rw (pow-suc 2 f.j) (double (2 ^ f.j) (1 + 2 * f.r) x (ground arith) f.value);
      small = f.small;
      bits = λ k l e. rw even (f.bits (suc k) l (omega arith));
    })
  ]
]

-- Names behind others, each after a comma, and names of their own.
abbrev pub tails : List (List ℕ) → List ℕ
tails [] = []
tails (t ∷ ts) = comma ∷ (t ++ tails ts)

abbrev pub join : List (List ℕ) → List ℕ
join [] = []
join (t ∷ ts) = t ++ tails ts

-- A text that leaves room for its NUL.
abbrev pub fit : List ℕ → Text
fit t = if ltb (length t) strsz then text t else aborted

then_text-fit :
    (a b : List ℕ) (next : List ℕ → Text)
    → (length a < strsz → next a ≡ fit (a ++ b))
    → then_text (fit a) next ≡ fit (a ++ b)
then_text-fit a b next goes_on = elim (Bool-cases (ltb (length a) strsz)) [
  | inl short ↦ rw short (goes_on (ground arith))
  | inr long ↦
      let longer : ltb (length (a ++ b)) strsz ≡ false = ground (arith, length-append a b) in
      rw (long, longer) refl
]

pow_word : (n : ℕ) → n ≤ 31 → 2 ^ n ≤ 2 ^ 31
pow_word n h = pow-le-pow_right (omega arith) h

shift : (j r : ℕ) → 2 ^ j * (1 + 2 * r) / 2 ^ suc j ≡ r
shift j r =
    let halved : 2 ^ j * (1 + 2 * r) / 2 ^ j ≡ 1 + 2 * r =
      mul-div_cancel_left (1 + 2 * r) (one-le-pow j 2 (omega arith)) in
    rw (pow-suc 2 j, ← div-div-eq-div-mul (2 ^ j * (1 + 2 * r)) (2 ^ j) 2, halved) (omega arith)

module _ (ffs : ℕ → ℕ) (flag_text : ℕ → Option (List ℕ)) (name : ℕ → List ℕ) (limit : ℕ)
    (first : FindsFirst ffs) (word : limit ≤ 31)
    (named : (k : ℕ) → k < limit → flag_text (2 ^ k) ≡ some (name k)) where
  put_flag-fit :
      (k : ℕ) (before : List ℕ)
      → k < limit
      → put_flag ffs flag_text (suc k) before ≡ fit (before ++ name k)
  unfolding put_flag
  put_flag-fit k before h =
      let back : suc k - 1 ≡ k = omega arith in
      let within : ltb k 32 ≡ true = ground arith in
      let fits : append_text before (some (name k)) ≡ fit (before ++ name k) =
        rw (length-append before (name k)) refl in
      rw (back, within, named k h) fits

  -- One round: the name of the lowest bit, then what the rounds on the rest of the bits write.
  advance :
      (fuel n fl x l t : ℕ) (before : List ℕ) (f : LowestBit n x)
      → l ≡ fl + f.j
      → t ≡ fl + ffs x
      → l < limit
      → x < 2 ^ 31
      → ((dst : List ℕ)
          → length dst < strsz
          → more_flags ffs flag_text fuel f.r (suc l) dst
            ≡ fit (dst ++ tails (map name (set_bits f.m (suc l) f.r))))
      → then_text (put_flag ffs flag_text t before) (λ out.
        if ltb (ffs x) 32 then more_flags ffs flag_text fuel (x / 2 ^ ffs x) t out else undefined)
        ≡ fit (before ++ (name l ++ tails (map name (set_bits f.m (suc l) f.r))))
  advance fuel n fl x l t before f at sum below small rest =
      let lowest : ffs x ≡ suc f.j =
        rw f.value (first f.j f.r (omega arith) (omega (arith, f.value))) in
      let total : t ≡ suc l = omega arith in
      let left : x / 2 ^ ffs x ≡ f.r = rw (lowest, f.value) (shift f.j f.r) in
      let defined : ltb (ffs x) 32 ≡ true = ground arith in
      rw
        (
          total,
          put_flag-fit l before below,
          ← append_assoc before (name l) (tails (map name (set_bits f.m (suc l) f.r))),
        )
        (then_text-fit (before ++ name l) (tails (map name (set_bits f.m (suc l) f.r)))
          (λ out.
            if ltb (ffs x) 32
            then more_flags ffs flag_text fuel (x / 2 ^ ffs x) (suc l) out
            else undefined)
          (λ short. rw (defined, left) (rest (before ++ name l) short)))

  nonzero : (n x : ℕ) → LowestBit n x → (x == 0) ≡ false
  nonzero n x f =
      let some_bit : 1 ≤ x = omega (arith, f.value, one-le-pow f.j 2 (omega arith)) in ground arith

  more_flags-zero : (fuel fl : ℕ) (dst : List ℕ) → more_flags ffs flag_text fuel 0 fl dst ≡ text dst
  unfolding more_flags
  more_flags-zero zero fl dst = refl
  more_flags-zero (suc fuel) fl dst = refl

  no_more-fit :
      (fuel n fl x : ℕ) (dst : List ℕ)
      → x ≡ 0
      → length dst < strsz
      → more_flags ffs flag_text fuel x fl dst ≡ fit (dst ++ tails (map name (set_bits n fl x)))
  no_more-fit fuel n fl x dst none_set short =
      let fits : ltb (length dst) strsz ≡ true = ground arith in
      rw (none_set, set_bits-zero n fl, more_flags-zero fuel fl dst, append-nil dst, fits) refl

  more_flags-fit :
      (fuel n fl x : ℕ) (dst : List ℕ)
      → n ≤ fuel
      → fl + n ≤ limit
      → x < 2 ^ n
      → length dst < strsz
      → more_flags ffs flag_text fuel x fl dst ≡ fit (dst ++ tails (map name (set_bits n fl x)))
  unfolding more_flags
  more_flags-fit zero n fl x dst enough below small short = elim (split_bits n x small) [
    | inl none_set ↦ no_more-fit zero n fl x dst none_set short
    | inr f ↦ absurd (omega (arith, f.split))
  ]
  more_flags-fit (suc k) n fl x dst enough below small short = elim (split_bits n x small) [
    | inl none_set ↦ no_more-fit (suc k) n fl x dst none_set short
    | inr f ↦
        let l : ℕ = fl + f.j in
        let names : List ℕ = name l ++ tails (map name (set_bits f.m (suc l) f.r)) in
        rw (nonzero n x f, f.bits fl l refl, ← append_assoc dst (comma ∷ []) names)
          (advance k n fl x l (fl + ffs x) (dst ++ comma ∷ []) f refl refl (omega (arith, f.split))
            (omega (arith, pow_word n (omega arith)))
            (λ out fits.
              more_flags-fit k f.m (suc l) f.r out (omega (arith, f.split)) (omega (arith, f.split))
                f.small fits))
  ]

  -- Where `stroll_bops_ffs` finds the lowest bit, `rt_link_ifinfo_flags_str` names the bits below
  -- `limit`, at most 31, and no other bit is set: `nlif_link_flags_str` ends, its shifts are
  -- defined, and it writes the names of the bits that are set, from the lowest on and between
  -- commas, if these leave room for a NUL in 256 bytes, and aborts otherwise.
  pub flags_str-fit :
      (flags : ℕ)
      → flags < 2 ^ limit
      → flags_str ffs flag_text flags ≡ fit (join (map name (set_bits limit 0 flags)))
  unfolding flags_str
  flags_str-fit flags small = elim (split_bits limit flags small) [
    | inl none_set ↦ rw (none_set, set_bits-zero limit 0) refl
    | inr f ↦
        rw (nonzero limit flags f, f.bits 0 f.j (omega arith))
          (advance 32 limit 0 flags f.j (ffs flags) [] f (omega arith) (omega arith)
            (omega (arith, f.split)) (omega (arith, pow_word limit word))
            (λ out fits.
              more_flags-fit 32 f.m (suc f.j) f.r out (omega (arith, f.split))
                (omega (arith, f.split)) f.small fits))
  ]
