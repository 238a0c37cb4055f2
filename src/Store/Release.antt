-- ===== src/Store/Release.antt =====
-- `nlif_store_release` and `nlif_store_fini`: every interface and handle is freed, once.
use nlif.Prelude.{
  ◌≡◌, ◌≢◌, refl, sym, ap, ◌∙◌, inl, inr, true, false, none, some, List, [], ◌∷◌, has, ◌==◌,
  ==_refl, Bool-cases, Distinct, arith, if◌then◌else◌,
}
use nlif.Stroll.{Ptr, Stroll}
use nlif.Iface.{Iface}
use nlif.Iface.Valid.{Owns}
use nlif.World.{World, done, get_iface, update, write_iface}
use nlif.World.Returns.{Returns, Returns-mono}
use nlif.Lifecycle.{free, destroy}
use nlif.Lifecycle.Reload.{finished, fini-finished}
use nlif.Tables.{hndl_iface}
use nlif.Gate
use nlif.Store.{release_each, release, fini}
use nlif.Store.Entry.{IsStore, Refers, some_eq}
use nlif.Store.Arrive.{OwnsKinds}

-- The handle leads to an interface whose two strings are NULL or allocated.
abbrev pub Sound : World → Ptr → Type 0
Sound w h =
    (q : Ptr) × (i : Iface) × Refers w h q i × Owns (λ _. Unit) i.alias × Owns (λ _. Unit) i.kind

-- Two handles of the list do not share an interface.
abbrev pub Separate : World → List Ptr → Type 0
Separate w hs =
    (h h' q : Ptr)
    → has h hs ≡ true
    → has h' hs ≡ true
    → w.hndls h ≡ some q
    → w.hndls h' ≡ some q
    → h ≡ h'

-- These handles and their interfaces are freed, and nothing else on the heap changed.
pub record Freed (hs : List Ptr) (w u : World) : Type 0 where
  pub hndls : (h : Ptr) → u.hndls h ≡ (if has h hs then none else w.hndls h)
  pub ifaces : (h q : Ptr) → has h hs ≡ true → w.hndls h ≡ some q → u.mem q ≡ none
  pub others : (p : Ptr) → ((h : Ptr) → has h hs ≡ true → w.hndls h ≢ some p) → u.mem p ≡ w.mem p
  pub brk : u.brk ≡ w.brk

-- Nothing changed beside the heap.
pub record Beside (w u : World) : Type 0 where
  pub store : u.store ≡ w.store
  pub gate : u.gate ≡ w.gate
  pub calls : u.calls ≡ w.calls
  pub host : u.host ≡ w.host

-- The memory once the gate has no subscriber.
abbrev pub quiet : World → World
quiet w = record w { gate = record w.gate { notif = false } }

-- The memory once one handle and its interface were freed.
abbrev dropped : Ptr → Ptr → Iface → World → World
dropped h q i w = record w {
  mem = update (update w.mem q (some (finished i))) q none;
  hndls = update w.hndls h none;
}

pub destroy_lem :
    (q : Ptr) (w : World) (i : Iface)
    → w.mem q ≡ some i
    → Owns (λ _. Unit) i.alias
    → Owns (λ _. Unit) i.kind
    → destroy q w ≡ done tt (write_iface q none (write_iface q (some (finished i)) w))
unfolding destroy free get_iface
destroy_lem q w i at alias kind = rw (fini-finished q w i at alias kind) (rw (==_refl q) refl)

module _ (h : Ptr) (hs : List Ptr) (w : World) (q : Ptr) (i : Iface) (r : Refers w h q i)
    (distinct : Distinct (h ∷ hs)) (apart : Separate w (h ∷ hs)) where
  not_head : (g : Ptr) → has g hs ≡ true → h ≢ g
  not_head g e same = ground (arith, ap (λ x. has x hs) same)

  not_shared : (g p : Ptr) → has g hs ≡ true → w.hndls g ≡ some p → q ≢ p
  unfolding has
  not_shared g p e at same =
      not_head g e
        (apart h g q (ground (arith, ==_refl h)) (ground arith) r.0 (at ∙ ap some (sym same)))

  Sound-dropped : (g : Ptr) → has g hs ≡ true → Sound w g → Sound (dropped h q i w) g
  Sound-dropped g e (p, j, (a, b), alias, kind) =
      let other : h ≢ g = not_head g e in
      let away : q ≢ p = not_shared g p e a in (p, j, (ground arith, ground arith), alias, kind)

  Separate-dropped : Separate (dropped h q i w) hs
  unfolding has
  Separate-dropped g g' p e e' a a' =
      let other : h ≢ g = not_head g e in
      let other' : h ≢ g' = not_head g' e' in
      apart g g' p (ground arith) (ground arith) (ground arith) (ground arith)

  Freed-cons : (u : World) → Freed hs (dropped h q i w) u → Freed (h ∷ hs) w u
  unfolding has
  Freed-cons u f = record {
    hndls = λ g. f.hndls g ∙ ground arith;
    ifaces = λ g p e at. elim (Bool-cases (h == g)) [
      | inl same ↦
          let here : h ≡ g = ground arith in
          let meet : q ≡ p = some_eq q p (sym r.0 ∙ ap w.hndls here ∙ at) in
          f.others p (λ g' e' at'.
            let other : h ≢ g' = not_head g' e' in not_shared g' p e' (ground arith) meet)
          ∙ ground arith
      | inr other ↦ f.ifaces g p (ground arith) (ground arith)
    ];
    others = λ p away.
        let off : q ≢ p = λ same. away h (ground (arith, ==_refl h)) (r.0 ∙ ap some same) in
        f.others p
          (λ g e at. let other : h ≢ g = not_head g e in away g (ground arith) (ground arith))
        ∙ ground arith;
    brk = f.brk;
  }

pub release_each-Freed :
    (S : Stroll) (hs : List Ptr) (w : World)
    → Distinct hs
    → Separate w hs
    → ((h : Ptr) → has h hs ≡ true → Sound w h)
    → Returns (λ _ u. Freed hs w u × Beside w u) (release_each S hs w)
unfolding release_each has hndl_iface
release_each-Freed S [] w distinct apart sound = (
  record { hndls = λ h. refl; ifaces = λ h q e. cc; others = λ p away. refl; brk = refl },
  record { store = refl; gate = refl; calls = refl; host = refl },
)
release_each-Freed S (h ∷ hs) w distinct apart sound =
    let (q, i, r, own_alias, own_kind) = sound h (ground (arith, ==_refl h)) in
    rw r.0 (
      rw (destroy_lem q w i r.1 own_alias own_kind) (
        Returns-mono _ _ (release_each S hs (dropped h q i w))
          (λ _ u (f, b). (
            Freed-cons h hs w q i r distinct apart u f,
            record { store = b.store; gate = b.gate; calls = b.calls; host = b.host },
          ))
          (release_each-Freed S hs (dropped h q i w) distinct.1
            (Separate-dropped h hs w q i r distinct apart)
            (λ g e. Sound-dropped h hs w q i r distinct apart g e (sound g (ground arith))))))

module _ (S : Stroll) (w : World) (v : IsStore S w) (kinds : OwnsKinds w) where
  pub store-Sound : (h : Ptr) → has h w.store.ifaces ≡ true → Sound w h
  store-Sound h e =
      let (q, i, (a, b), own) = v.live h e in (q, i, (a, b), own, kinds h q i (e, a, b))

  pub store-Separate : Separate w w.store.ifaces
  store-Separate h h' q e e' a a' =
      let (p, i, (b, c), _) = v.live h e in
      let at : w.mem q ≡ some i = ap w.mem (some_eq q p (sym a ∙ b)) ∙ c in
      v.unique h q h' q i i (e, a, at) (e', a', at) refl

  -- On a well-formed store no interface of which has a dangling kind: `nlif_store_fini` returns with
  -- everything freed.
  pub fini-Freed : Returns (λ _ u. Freed w.store.ifaces w u × Beside (quiet w) u) (fini S w)
  unfolding fini release Gate.unsubscribe
  fini-Freed =
      Returns-mono _ _ (release_each S w.store.ifaces (quiet w))
        (λ _ u (f, b).
          (record { hndls = f.hndls; ifaces = f.ifaces; others = f.others; brk = f.brk }, b))
        (release_each-Freed S w.store.ifaces (quiet w) v.distinct store-Separate store-Sound)
