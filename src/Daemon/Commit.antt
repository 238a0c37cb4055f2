-- ===== src/Daemon/Commit.antt =====
-- `nlif_iface_apply` on the interfaces of a store that is the gate's subscriber.
use nlif.Prelude.{
  ℕ, ◌≤◌, ◌≡◌, ◌≢◌, refl, sym, subst, ap, ◌∙◌, inl, inr, Bool, true, false, some, ◌∷◌, has, ◌==◌,
  ==_refl, Bool-cases, arith, if◌then◌else◌,
}
use nlif.Errno.{Result, ok, err}
use nlif.Stroll.{Ptr, Stroll}
use nlif.Stroll.Laws.{IsLawful}
use nlif.Ynl.{setlink, Ynl}
use nlif.Iface.{Iface, State, invalid, clean, dirty, stat_nr}
use nlif.Iface.Valid.{Owns}
use nlif.Link.Validate.{IsName}
use nlif.World.{World, Run, M, done, fail, fault, pure, write_iface}
use nlif.World.Returns.{Ends, Ends-mono, Quiet, Quiet-trans}
use nlif.Gate.{modified, notify}
use nlif.Store.Entry.{IsStore, Stands, Refers, aside-IsStore, some_eq}
use nlif.Store.Change.{write_iface-IsStore}
use nlif.Store.Events.{on_event, on_iface_modify}
use nlif.Store.Rehash.{SameMap}
use nlif.Store.Follow.{on_iface_modify-Follows}
use nlif.Apply.{apply}
use nlif.Apply.Request.{request_of}
use nlif.Apply.Outcome.{sent, expected, Leaves, apply_lem}

-- The name fits, and the operational state is one that the kernel has.
abbrev pub IsPublic : Iface → Type 0
IsPublic i = IsName i.name × (i.opstat ≤ 6)

-- The two strings of an interface are NULL or allocated, and it can be published.
abbrev pub IsFit : Iface → Type 0
IsFit i = Owns (λ _. Unit) i.alias × Owns (λ _. Unit) i.kind × IsPublic i

-- A well-formed store, none of whose interfaces has a dangling string, and whose interfaces can be
-- published.
abbrev pub IsSound : Stroll → World → Type 0
IsSound S w = IsStore S w × ((h q : Ptr) (i : Iface) → Stands w h q i → IsFit i)

-- The interface of a handle has nothing left to be applied.
abbrev pub IsSettled : World → Ptr → Type 0
IsSettled w h = (q : Ptr) × (i : Iface) × Refers w h q i × (i.state ≢ dirty)

-- The same handles stand for the same interfaces, and the gate, the subscribers and the daemon's
-- part are as they were.
abbrev pub SameHandles : World → World → Type 0
SameHandles w u = (u.store.ifaces ≡ w.store.ifaces) × (u.hndls ≡ w.hndls) × Quiet w u

pub SameHandles-refl : (w : World) → SameHandles w w
SameHandles-refl w = (refl, refl, (refl, refl, refl))

pub SameHandles-trans : (u v w : World) → SameHandles u v → SameHandles v w → SameHandles u w
SameHandles-trans u v w a b = (b.0 ∙ a.0, b.1 ∙ a.1, Quiet-trans u v w a.2 b.2)

-- Only the interface at `q` may differ, and it has nothing left to be applied.
pub record Applied (S : Stroll) (q : Ptr) (w u : World) : Type 0 where
  pub sound : IsSound S u
  pub handles : SameHandles w u
  pub others : (p : Ptr) → q ≢ p → u.mem p ≡ w.mem p
  pub here : (j : Iface) × (u.mem q ≡ some j) × (j.state ≢ dirty)

pub write_iface-IsSound :
    (S : Stroll) (w : World) (q : Ptr) (i j : Iface)
    → IsSound S w
    → w.mem q ≡ some i
    → j.idx ≡ i.idx
    → IsFit j
    → IsSound S (write_iface q (some j) w)
write_iface-IsSound S w q i j (v, owns) at same own = (
  write_iface-IsStore S w v q i j at same own.0,
  λ h r k st. elim (Bool-cases (q == r)) [
    | inl here ↦ subst IsFit (some_eq j k (ground arith)) own
    | inr other ↦ owns h r k (st.0, st.1, ground arith)
  ],
)

pub aside-IsSound :
    (S : Stroll) (w u : World) → IsSound S w → IsStore S u → SameMap w u → IsSound S u
aside-IsSound S w u (v, owns) good (listed, hndls, mem, _) = (
  good,
  λ h q i (a, b, c). owns h q i (
    ap (λ l. has h l) (sym listed) ∙ a,
    ap (λ f. f h) (sym hndls) ∙ b,
    ap (λ f. f q) (sym mem) ∙ c,
  ),
)

module _ (S : Stroll) (laws : IsLawful S) (Y : Ynl) (on_sub : Ptr → ℕ → Ptr → M (Unit {0}))
    (gate : Ptr) (w : World) (sound : IsSound S w) (h q : Ptr) (i : Iface)
    (st : Stands w h q i) where
  abbrev own : IsFit i
  own = sound.1 h q i st

  sent-IsSound : IsSound S (sent S w i)
  sent-IsSound = (
    aside-IsStore S w sound.0 w.gate w.store.subs (setlink (request_of S i) ∷ w.calls) w.host,
    sound.1,
  )

  abbrev told : Run (Unit {0})
  told = notify (on_event S on_sub gate) (modified q) (sent S w i)

  abbrev Heard : World → Type 0
  Heard u = IsStore S u × SameMap w u

  told-Heard : Ends (λ _ u. Heard u) (λ _ u. Heard u) told
  unfolding notify on_event
  told-Heard = go w.gate.notif
    where
      go :
          (on : Bool)
          → Ends
              (λ _ u. Heard u)
              (λ _ u. Heard u)
              ((if on then on_iface_modify S q else pure tt) (sent S w i))
      go true =
          Ends-mono _ _ _ _ (on_iface_modify S q (sent S w i)) (λ _ u (good, same, _). (good, same))
            (λ e u (_, good, same). (good, same))
            (on_iface_modify-Follows S laws (sent S w i) sent-IsSound.0 h q i st own.0)
      go false = (sent-IsSound.0, (refl, refl, refl, (refl, refl, refl)))

  told-Leaves : Leaves q i told
  told-Leaves = go told told-Heard
    where
      go : (r : Run (Unit {0})) → Ends (λ _ u. Heard u) (λ _ u. Heard u) r → Leaves q i r
      go (done _ u) (_, (_, _, mem, _)) = ap (λ f. f q) mem ∙ st.2
      go (fail e u) (_, (_, _, mem, _)) = ap (λ f. f q) mem ∙ st.2
      go fault h = elim h [ ]

  -- A memory in which the interface alone was rewritten, with nothing left to be applied.
  rewritten :
      (u : World) (j : Iface)
      → IsSound S u
      → SameMap w u
      → j.idx ≡ i.idx
      → IsFit j
      → j.state ≢ dirty
      → Applied S q w (write_iface q (some j) u)
  rewritten u j good (listed, hndls, mem, quiet) same both settled = record {
    sound = write_iface-IsSound S u q i j good (ap (λ f. f q) mem ∙ st.2) same both;
    handles = (listed, hndls, quiet);
    others = λ p other. ground (arith, ap (λ f. f p) mem);
    here = (j, ground (arith, ==_refl q), settled);
  }

  unchanged : i.state ≢ dirty → Applied S q w w
  unchanged settled = record {
    sound = sound;
    handles = SameHandles-refl w;
    others = λ p other. refl;
    here = (i, st.2, settled);
  }

  clean-ne-dirty : clean ≢ dirty
  clean-ne-dirty e = cc

  invalid-ne-dirty : invalid ≢ dirty
  invalid-ne-dirty e = cc

  expected-Applied :
      (s : State) (answer : Result (Unit {0})) (r : Run (Unit {0}))
      → i.state ≡ s
      → Ends (λ _ u. Heard u) (λ _ u. Heard u) r
      → Ends (λ _ u. Applied S q w u) (λ _ u. Applied S q w u) (expected S Y q w i s answer r)
  expected-Applied clean answer r e heard = unchanged (λ d. clean-ne-dirty (sym e ∙ d))
  expected-Applied invalid answer r e heard = unchanged (λ d. invalid-ne-dirty (sym e ∙ d))
  expected-Applied stat_nr answer r e heard = unchanged (λ d. cc)
  expected-Applied dirty (err code) r e heard =
      rewritten (sent S w i) _ sent-IsSound (refl, refl, refl, (refl, refl, refl)) refl own
        invalid-ne-dirty
  expected-Applied dirty (ok _) (done _ v) e (good, same) =
      rewritten v _ (aside-IsSound S w v sound good same) same refl own clean-ne-dirty
  expected-Applied dirty (ok _) (fail c v) e (good, same) =
      rewritten v _ (aside-IsSound S w v sound good same) same refl own invalid-ne-dirty
  expected-Applied dirty (ok _) fault e heard = elim heard [ ]

  -- Whether it fails or not.
  pub apply-Applied :
      Ends
        (λ _ u. Applied S q w u)
        (λ _ u. Applied S q w u)
        (apply S Y (on_event S on_sub gate) q w)
  apply-Applied =
      rw (apply_lem S Y (on_event S on_sub gate) q w i st.2 own.0 told-Leaves)
        (expected-Applied i.state _ told refl told-Heard)
