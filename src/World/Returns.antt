-- ===== src/World/Returns.antt =====
-- Outcomes of a command, and what it leaves alone.
use nlif.Prelude.{ℕ, ◌≡◌, ◌≢◌, refl, ◌∙◌, some, arith}
use nlif.Stroll.{Ptr}
use nlif.Iface.{Iface}
use nlif.World.{World, Run, M, done, fail, fault, and_then, write_iface}

-- The command returns, with a postcondition.
abbrev pub Returns : {A : Type 0} → (A → World → Type 0) → Run A → Type 0
Returns P (done a w) = P a w
Returns P (fail e w) = ⊥
Returns P fault = ⊥

-- It returns or fails, each with its postcondition, and does not fault.
abbrev pub Ends : {A : Type 0} → (A → World → Type 0) → (ℕ → World → Type 0) → Run A → Type 0
Ends P Q (done a w) = P a w
Ends P Q (fail e w) = Q e w
Ends P Q fault = ⊥

-- Nothing but the interface at `p` differs.
pub record SameBut (p : Ptr) (w v : World) : Type 0 where
  pub mem : (q : Ptr) → p ≢ q → v.mem q ≡ w.mem q
  pub hndls : v.hndls ≡ w.hndls
  pub brk : v.brk ≡ w.brk
  pub store : v.store ≡ w.store
  pub gate : v.gate ≡ w.gate
  pub calls : v.calls ≡ w.calls
  pub host : v.host ≡ w.host

-- Neither the gate, nor the store's subscribers, nor the daemon's part differ.
pub record Apart (w u : World) : Type 0 where
  pub gate : u.gate ≡ w.gate
  pub subs : u.store.subs ≡ w.store.subs
  pub host : u.host ≡ w.host

pub Apart-refl : (w : World) → Apart w w
Apart-refl w = record { gate = refl; subs = refl; host = refl }

pub Apart-trans : (u v w : World) → Apart u v → Apart v w → Apart u w
Apart-trans u v w a b = record {
  gate = b.gate ∙ a.gate;
  subs = b.subs ∙ a.subs;
  host = b.host ∙ a.host;
}

-- The same in equations, which are kept by what differs in other parts alone.
abbrev pub Quiet : World → World → Type 0
Quiet w u = (u.gate ≡ w.gate) × (u.store.subs ≡ w.store.subs) × (u.host ≡ w.host)

pub Quiet-trans : (u v w : World) → Quiet u v → Quiet v w → Quiet u w
Quiet-trans u v w a b = (b.0 ∙ a.0, b.1 ∙ a.1, b.2 ∙ a.2)

-- The interface at `p` is now one with the property `P`, and nothing else changed.
abbrev pub Sets : Ptr → World → (Iface → Type 0) → World → Type 0
Sets p w P v = (j : Iface) × (v.mem p ≡ some j) × P j × SameBut p w v

pub SameBut-refl : (p : Ptr) (w : World) → SameBut p w w
SameBut-refl p w = record {
  mem = λ q h. refl;
  hndls = refl;
  brk = refl;
  store = refl;
  gate = refl;
  calls = refl;
  host = refl;
}

module _ (p : Ptr) (w : World) (P : Iface → Type 0) where
  pub Sets-write : (j : Iface) → P j → Sets p w P (write_iface p (some j) w)
  Sets-write j h = (
    j,
    ground arith,
    h,
    record {
      mem = λ q n. ground arith;
      hndls = refl;
      brk = refl;
      store = refl;
      gate = refl;
      calls = refl;
      host = refl;
    },
  )

  pub Sets-refl : (j : Iface) → w.mem p ≡ some j → P j → Sets p w P w
  Sets-refl j at h = (j, at, h, SameBut-refl p w)

module _ {A : Type 0} (P P' : A → World → Type 0) (Q Q' : ℕ → World → Type 0) where
  pub Ends-mono :
      (r : Run A)
      → ((a : A) (w : World) → P a w → P' a w)
      → ((e : ℕ) (w : World) → Q e w → Q' e w)
      → Ends P Q r
      → Ends P' Q' r
  Ends-mono (done a w) f g h = f a w h
  Ends-mono (fail e w) f g h = g e w h
  Ends-mono fault f g h = elim h [ ]

module _ {A : Type 0} (P P' : A → World → Type 0) (Q : ℕ → World → Type 0) where
  pub Returns-Ends :
      (r : Run A) → ((a : A) (w : World) → P a w → P' a w) → Returns P r → Ends P' Q r
  Returns-Ends (done a w) f h = f a w h
  Returns-Ends (fail e w) f h = elim h [ ]
  Returns-Ends fault f h = elim h [ ]

pub SameBut-trans : (p : Ptr) (u v w : World) → SameBut p u v → SameBut p v w → SameBut p u w
SameBut-trans p u v w a b = record {
  mem = λ q h. b.mem q h ∙ a.mem q h;
  hndls = b.hndls ∙ a.hndls;
  brk = b.brk ∙ a.brk;
  store = b.store ∙ a.store;
  gate = b.gate ∙ a.gate;
  calls = b.calls ∙ a.calls;
  host = b.host ∙ a.host;
}

module _ {A : Type 0} (P P' : A → World → Type 0) where
  pub Returns-mono :
      (r : Run A) → ((a : A) (w : World) → P a w → P' a w) → Returns P r → Returns P' r
  Returns-mono (done a w) f h = f a w h
  Returns-mono (fail e w) f h = elim h [ ]
  Returns-mono fault f h = elim h [ ]

pub and_then-done : (r : Run (Unit {0})) → and_then r (λ _. done tt) ≡ r
and_then-done (done _ w) = refl
and_then-done (fail e w) = refl
and_then-done fault = refl

pub and_then_assoc :
    {A B C : Type 0} (r : Run A) (f : A → M B) (g : B → M C)
    → and_then r (λ a w. and_then (f a w) g) ≡ and_then (and_then r f) g
and_then_assoc (done a w) f g = refl
and_then_assoc (fail e w) f g = refl
and_then_assoc fault f g = refl
