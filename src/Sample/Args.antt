-- ===== src/Sample/Args.antt =====
-- How sample/set_iface.c and sample/show_iface.c read their argument, with `strtoul` of the C
-- library for base 0 on a 64-bit `unsigned long`.
pub mod Number
use nlif.Prelude.{
  ℕ, ◌+◌, ◌*◌, ◌-◌, ◌^◌, ◌%◌, Bool, true, false, ◌||◌, ◌&&◌, Option, none, some, List, [], ◌∷◌, ltb,
  leb, ◌==◌, if◌then◌else◌,
}
use nlif.Errno.{ok, err}
use nlif.Link.{validate_index, validate_name}

abbrev pub is_space : ℕ → Bool
is_space c = c == 32 || (leb 9 c && leb c 13)

-- The value of a digit or letter, below the base.
abbrev pub below_base : ℕ → ℕ → Option ℕ
below_base base d = if ltb d base then some d else none

unfoldable pub digit_of : ℕ → ℕ → Option ℕ
digit_of base c =
    if leb 48 c && leb c 57
    then below_base base (c - 48)
    else if leb 97 c && leb c 122
    then below_base base (c - 87)
    else if leb 65 c && leb c 90
    then below_base base (c - 55)
    else none

-- The digits at the front of a string, behind those of value `n`, and what is behind them.
unfoldable pub digits : ℕ → ℕ → List ℕ → ℕ × List ℕ
unfolding digit_of
digits base n [] = (n, [])
digits base n (c ∷ s) = elim (digit_of base c) [
  | none ↦ (n, c ∷ s)
  | some d ↦ digits base (n * base + d) s
]

unfoldable pub is_digit : ℕ → List ℕ → Bool
unfolding digit_of
is_digit base [] = false
is_digit base (c ∷ s) = elim (digit_of base c) [ none ↦ false | some _ ↦ true ]

-- Behind `0x`, if a hexadecimal digit follows it; a `0` starts an octal number.
abbrev pub after_prefix : List ℕ → List ℕ → ℕ × List ℕ
after_prefix s (c ∷ rest) = if (c == 120 || c == 88) && is_digit 16 rest then (16, rest) else (8, s)
after_prefix s [] = (8, s)

abbrev pub base_of : List ℕ → ℕ × List ℕ
base_of [] = (10, [])
base_of (c ∷ s) = if c == 48 then after_prefix (c ∷ s) s else (10, c ∷ s)

abbrev pub ulong_max : ℕ
ulong_max = 2 ^ 64 - 1

-- A number that is too large is ULONG_MAX, also behind a minus.
abbrev pub ulong : Bool → ℕ → ℕ
ulong minus n = if ltb ulong_max n then ulong_max else if minus then (2 ^ 64 - n) % 2 ^ 64 else n

-- The number, and the string from `*endptr` on, which is the whole one where no digit was read.
abbrev pub read_number : List ℕ → Bool → ℕ × List ℕ → ℕ × List ℕ
read_number whole minus (base, s) =
    if is_digit base s
    then (let (n, rest) = digits base 0 s in (ulong minus n, rest))
    else (0, whole)

abbrev pub signed : List ℕ → List ℕ → ℕ × List ℕ
signed whole [] = (0, whole)
signed whole (c ∷ s) =
    if c == 45
    then read_number whole true (base_of s)
    else if c == 43
    then read_number whole false (base_of s)
    else read_number whole false (base_of (c ∷ s))

unfoldable pub skip_spaces : List ℕ → List ℕ
skip_spaces [] = []
skip_spaces (c ∷ s) = let rest = skip_spaces s in if is_space c then rest else c ∷ s

unfoldable pub strtoul : List ℕ → ℕ × List ℕ
unfolding digits is_digit skip_spaces
strtoul s = signed s (skip_spaces s)

abbrev pub uint_max : ℕ
uint_max = 2 ^ 32 - 1

-- What the argument names, or why it names nothing.
pub data Target : Type 0 where
  by_index : ℕ → Target
  by_name : List ℕ → Target
  invalid_index invalid_name : Target

abbrev pub index_target : ℕ → Target
index_target indx =
    if ltb uint_max indx then invalid_index else elim (validate_index (indx % 2 ^ 32)) [
      | ok _ ↦ by_index (indx % 2 ^ 32)
      | err e ↦ invalid_index
    ]

abbrev pub name_target : List ℕ → Target
name_target arg = elim (validate_name arg) [ ok _ ↦ by_name arg | err e ↦ invalid_name ]

-- `arg` is not empty. `strtoul` is asked first, and must have read it all.
abbrev pub number_or_name : List ℕ → ℕ × List ℕ → Target
number_or_name arg (indx, []) = index_target indx
number_or_name arg (indx, _ ∷ _) = name_target arg

unfoldable pub target : List ℕ → Target
unfolding strtoul validate_index validate_name
target arg = number_or_name arg (strtoul arg)
