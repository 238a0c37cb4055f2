-- ===== src/Prelude/Lists.antt =====
-- Lists measured by native numbers, under the library's names, and membership of addresses.
use Prim.Native.Nat.{ℕ, zero, suc, ◌+◌, ◌≤◌}
use mathlib.Core.Path.{◌≡◌, refl, sym, ap}
use mathlib.Core.Bool.{Bool, true, false, ◌||◌}
use mathlib.Core.Logic.{inl, inr}
use mathlib.Core.List.{List, [], ◌∷◌, ◌++◌}
use native.Mathlib.Omega.{arith}
use nlif.Prelude.Tests.{◌==◌, if◌then◌else◌, Bool-cases}

module _ {ℓ} {A : Type ℓ} where
  abbrev pub length : List A → ℕ
  length [] = 0
  length (x ∷ xs) = suc (length xs)

  abbrev pub take : ℕ → List A → List A
  take zero xs = []
  take (suc n) [] = []
  take (suc n) (x ∷ xs) = x ∷ take n xs

  pub length-append : (xs ys : List A) → length (xs ++ ys) ≡ length xs + length ys
  length-append [] ys = omega arith
  length-append (x ∷ xs) ys = omega (arith, length-append xs ys)

  pub take_all : (n : ℕ) (xs : List A) → length xs ≤ n → take n xs ≡ xs
  take_all zero [] h = refl
  take_all zero (x ∷ xs) h = absurd (omega arith)
  take_all (suc n) [] h = refl
  take_all (suc n) (x ∷ xs) h = ap (◌∷◌ x) (take_all n xs (omega arith))

-- Whether an address is on a list.
unfoldable pub has : ℕ → List ℕ → Bool
has p [] = false
has p (q ∷ l) = (q == p) || has p l

pub has-append : (p : ℕ) (l m : List ℕ) → has p (l ++ m) ≡ (has p l || has p m)
unfolding has
has-append p [] m = refl
has-append p (q ∷ l) m = ground (arith, has-append p l m)

-- Each address stands on the list once.
abbrev pub Distinct : List ℕ → Type 0
Distinct [] = Unit
Distinct (p ∷ l) = (has p l ≡ false) × Distinct l

unfoldable pub remove : ℕ → List ℕ → List ℕ
remove p [] = []
remove p (q ∷ l) = if p == q then remove p l else q ∷ remove p l

pub has-remove : (p q : ℕ) (l : List ℕ) → has q (remove p l) ≡ (if p == q then false else has q l)
unfolding has remove
has-remove p q [] = ground arith
has-remove p q (r ∷ l) = ground (arith, has-remove p q l)

remove_absent : (p : ℕ) (l : List ℕ) → has p l ≡ false → remove p l ≡ l
unfolding has remove
remove_absent p [] h = refl
remove_absent p (q ∷ l) h = ground (arith, remove_absent p l)

pub length-remove :
    (p : ℕ) (l : List ℕ) → Distinct l → has p l ≡ true → length l ≡ suc (length (remove p l))
unfolding has remove
length-remove p [] d h = cc
length-remove p (q ∷ l) d h = elim (Bool-cases (p == q)) [
  | inl same ↦ rw same (ap suc (ap length (sym (remove_absent p l (ground arith)))))
  | inr other ↦ rw other (ap suc (length-remove p l d.1 (ground arith)))
]

pub remove-Distinct : (p : ℕ) (l : List ℕ) → Distinct l → Distinct (remove p l)
unfolding remove
remove-Distinct p [] d = tt
remove-Distinct p (q ∷ l) d = elim (Bool-cases (p == q)) [
  | inl same ↦ rw same (remove-Distinct p l d.1)
  | inr other ↦ rw other (ground (arith, has-remove p q l), remove-Distinct p l d.1)
]

pub append-Distinct : (p : ℕ) (l : List ℕ) → Distinct l → has p l ≡ false → Distinct (l ++ p ∷ [])
unfolding has
append-Distinct p [] d h = (refl, tt)
append-Distinct p (q ∷ l) d h =
    (ground (arith, has-append q l (p ∷ [])), append-Distinct p l d.1 (ground arith))
