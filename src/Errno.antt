-- ===== src/Errno.antt =====
-- The return values of the library (lib/common.h). An `int` that is 0, a count or a negated errno
-- is a `Result`: `err e` is the return of `-e`.
use nlif.Prelude.{ℕ, ◌≡◌, refl, ap, ◌⊎◌, inl, inr}

pub data Result {ℓ} (A : Type ℓ) : Type ℓ where
  ok : A → Result A
  err : ℕ → Result A

pub Result-cases {ℓ} :
    {A : Type ℓ} (r : Result A) → ((a : A) × (r ≡ ok a)) ⊎ ((e : ℕ) × (r ≡ err e))
Result-cases (ok a) = inl (a, refl)
Result-cases (err e) = inr (e, refl)

abbrev pub eperm : ℕ
eperm = 1

abbrev pub enoent : ℕ
enoent = 2

abbrev pub eio : ℕ
eio = 5

abbrev pub eagain : ℕ
eagain = 11

abbrev pub enomem : ℕ
enomem = 12

abbrev pub eacces : ℕ
eacces = 13

abbrev pub eexist : ℕ
eexist = 17

abbrev pub enodev : ℕ
enodev = 19

abbrev pub einval : ℕ
einval = 22

abbrev pub edeadlock : ℕ
edeadlock = 35

abbrev pub enametoolong : ℕ
enametoolong = 36

abbrev pub enolck : ℕ
enolck = 37

abbrev pub enodata : ℕ
enodata = 61

abbrev pub etime : ℕ
etime = 62

abbrev pub ebadfd : ℕ
ebadfd = 77

abbrev pub enotsup : ℕ
enotsup = 95

abbrev pub etimedout : ℕ
etimedout = 110

abbrev pub eshutdown : ℕ
eshutdown = 108

pub ok_eq {ℓ} : {A : Type ℓ} (a b : A) → ok a ≡ ok b → a ≡ b
ok_eq {A = A} a b e = ap or_a e
  where
    or_a : Result A → A
    or_a (ok x) = x
    or_a (err c) = a
