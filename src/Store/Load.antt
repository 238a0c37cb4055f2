-- ===== src/Store/Load.antt =====
-- `nlif_store_load`: the store that a dump of the kernel's links gives.
use nlif.Prelude.{ℕ, ◌≡◌, ◌≢◌, refl, ap, ◌∙◌, inl, inr, ◌⊎◌, true, List, [], ◌∷◌, arith}
use nlif.Errno.{ok, err, Result-cases}
use nlif.Link.{Link}
use nlif.Stroll.{Ptr, Stroll}
use nlif.Stroll.Laws.{IsLawful}
use nlif.Ynl.{dump, Ynl}
use nlif.World.{World, Run, M, done, fail, fault, and_then, log_call}
use nlif.World.Returns.{Returns, Ends, Returns-mono, Returns-Ends, Apart, Apart-refl, Apart-trans}
use nlif.Gate.{notify, islink_valid, load_each, load_links, load_dumped, links_req}
use nlif.Store.{load}
use nlif.Store.Entry.{IsStore, aside-IsStore}
use nlif.Store.Events.{on_new_iface, on_event}
use nlif.Store.Names.{NamesIndexed, AliasesIndexed}
use nlif.Store.Arrive.{AllOf, Keeps, Entered, Grows, Grows-refl, Given, on_new_iface-IsStore}
use nlif.Iface.{Iface}
use nlif.Store.Created.{made}

pub Entered-Keeps : (w u : World) (l : Link) → Keeps w u → Entered w l → Entered u l
Entered-Keeps w u l keeps (inl (q, (h, j, st, same))) = inl (q, (h, j, keeps h q j st, same))
Entered-Keeps w u l keeps (inr (h, q, j, st, called)) = inr (h, q, j, keeps h q j st, called)

-- Each link that is valid is entered.
abbrev pub AllEntered : World → List Link → Type 0
AllEntered u [] = Unit
AllEntered u (l ∷ links) = ((islink_valid l ≢ ok tt) ⊎ Entered u l) × AllEntered u links

-- The valid links give interfaces with the property.
abbrev pub Give : Stroll → (Iface → Type 0) → Ptr → List Link → Type 0
Give S P gate [] = Unit
Give S P gate (l ∷ links) = (islink_valid l ≡ ok tt → P (made S l gate)) × Give S P gate links

-- The store after it was given these links. A property of the interfaces that they give and of those
-- that were there is one of all.
pub record Loaded (S : Stroll) (P : Iface → Type 0) (gate : Ptr) (links : List Link) (w u : World)
    : Type 0 where
  pub store : IsStore S u
  pub keeps : Keeps w u
  pub entered : AllEntered u links
  pub apart : Apart w u
  pub grows : Grows w u
  pub calls : u.calls ≡ w.calls
  pub names : NamesIndexed S w → NamesIndexed S u
  pub aliases : AliasesIndexed S w → AliasesIndexed S u
  pub all : Give S P gate links → AllOf P w → AllOf P u

Grows-trans :
    (S : Stroll) (u v w : World) → IsStore S v → Keeps v w → Grows u v → Grows v w → Grows u w
Grows-trans S u v w good keeps a b = record {
  mem = λ q. elim (b.mem q) [
    | inr (low, h, j, st) ↦ inr (omega (arith, a.brk), h, j, st)
    | inl same ↦ elim (a.mem q) [
      | inl same' ↦ inl (same ∙ same')
      | inr (low, h, j, st) ↦ inr (low, h, j, keeps h q j st)
    ]
  ];
  hndls = λ h. elim (b.hndls h) [
    | inr (low, e) ↦ inr (omega (arith, a.brk), e)
    | inl same ↦ elim (a.hndls h) [
      | inl same' ↦ inl (same ∙ same')
      | inr (low, e) ↦
          let (q, j, at, _) = good.live h e in inr (low, (keeps h q j (e, at.0, at.1)).0)
    ]
  ];
  brk = omega (arith, a.brk, b.brk);
  new = λ h q j st. elim (b.new h q j st) [
    | inr (h_new, q_new) ↦ inr (omega (arith, a.brk), omega (arith, a.brk))
    | inl stood ↦ a.new h q j stood
  ];
}

not_valid : (l : Link) (e : ℕ) → islink_valid l ≡ err e → islink_valid l ≢ ok tt
not_valid l e off fine = cc

module _ (S : Stroll) (laws : IsLawful S) (Y : Ynl) (on_sub : Ptr → ℕ → Ptr → M (Unit {0}))
    (gate : Ptr) (P : Iface → Type 0) where
  skipped :
      (l : Link) (links : List Link) (w : World) (e : ℕ)
      → islink_valid l ≡ err e
      → load_each Y (on_event S on_sub gate) (l ∷ links) w
        ≡ load_each Y (on_event S on_sub gate) links w
  unfolding load_each
  skipped l links w e off = ground arith

  given :
      (l : Link) (links : List Link) (w : World)
      → islink_valid l ≡ ok tt
      → w.gate.notif ≡ true
      → load_each Y (on_event S on_sub gate) (l ∷ links) w
        ≡ and_then (on_new_iface S l gate w) (λ _. load_each Y (on_event S on_sub gate) links)
  unfolding load_each notify on_event
  given l links w fine on = ground arith

  load_each-Loaded :
      (links : List Link) (w : World)
      → IsStore S w
      → w.gate.notif ≡ true
      → Returns (λ _ u. Loaded S P gate links w u) (load_each Y (on_event S on_sub gate) links w)
  unfolding load_each
  load_each-Loaded [] w v on = record {
    store = v;
    keeps = λ h q j x. x;
    entered = tt;
    apart = Apart-refl w;
    grows = Grows-refl w;
    calls = refl;
    names = λ k. k;
    aliases = λ k. k;
    all = λ g k. k;
  }
  load_each-Loaded (l ∷ links) w v on = elim (Result-cases (islink_valid l)) [
    | inr (e, off) ↦ rw (skipped l links w e off) (
        Returns-mono _ _ (load_each Y (on_event S on_sub gate) links w)
          (λ _ u r. record {
            store = r.store;
            keeps = r.keeps;
            entered = (inl (not_valid l e off), r.entered);
            apart = r.apart;
            grows = r.grows;
            calls = r.calls;
            names = r.names;
            aliases = r.aliases;
            all = λ g. r.all g.1;
          })
          (load_each-Loaded links w v on))
    | inl (_, fine) ↦ rw (given l links w fine on) (
        go fine (load_each-Loaded links) (on_new_iface S l gate w)
          (on_new_iface-IsStore S laws P w v l gate))
  ]
    where
      go :
          islink_valid l ≡ ok tt
          → ((u : World)
              → IsStore S u
              → u.gate.notif ≡ true
              → Returns
                  (λ _ x. Loaded S P gate links u x)
                  (load_each Y (on_event S on_sub gate) links u))
          → (r : Run (Unit {0})) → Returns (λ _ u. Given S P l gate w u) r
          → Returns
              (λ _ u. Loaded S P gate (l ∷ links) w u)
              (and_then r (λ _. load_each Y (on_event S on_sub gate) links))
      go fine rest (done _ u) g =
          Returns-mono _ _ (load_each Y (on_event S on_sub gate) links u)
            (λ _ x r. record {
              store = r.store;
              keeps = λ h q j st. r.keeps h q j (g.keeps h q j st);
              entered = (inr (Entered-Keeps u x l r.keeps g.entered), r.entered);
              apart = Apart-trans w u x g.apart r.apart;
              calls = r.calls ∙ g.calls;
              grows = Grows-trans S w u x g.store r.keeps g.grows r.grows;
              names = λ n. r.names (g.names n);
              aliases = λ n. r.aliases (g.aliases n);
              all = λ each k. r.all each.1 (g.all (each.0 fine) k);
            })
            (rest u g.store (ap (λ g. g.notif) g.apart.gate ∙ on))
      go fine rest (fail e u) h = elim h [ ]
      go fine rest fault h = elim h [ ]

  -- For a lawful stroll and a well-formed store that is subscribed to the gate: `nlif_store_load`
  -- either returns with a well-formed store that keeps what it held and into which each valid link
  -- of the kernel's dump was entered, or fails with nothing changed but the one request. On success
  -- no other request was made, the gate, the subscribers and the daemon's part are as before, what
  -- is new on the heap is in the store, the name and alias tables are in step with the interfaces
  -- if they were, and a property of the interfaces that the valid links give is one of all if it
  -- was before.
  pub load-Loaded :
      (w : World)
      → IsStore S w
      → w.gate.notif ≡ true
      → Ends
          (λ _ u.
            (links : List Link) × (Y.on_dump w.calls links_req ≡ ok links)
            × Loaded S P gate links (log_call (dump links_req) w) u)
          (λ e u. u ≡ log_call (dump links_req) w)
          (load S Y (on_event S on_sub gate) w)
  unfolding load load_links load_dumped
  load-Loaded w v on = elim (Result-cases (Y.on_dump w.calls links_req)) [
    | inr (code, e) ↦ rw e refl
    | inl ([], e) ↦ rw e refl
    | inl (l ∷ links, e) ↦ rw e (
        Returns-Ends _ _ _
          (load_each Y (on_event S on_sub gate) (l ∷ links) (log_call (dump links_req) w))
          (λ _ u r. (l ∷ links, refl, r))
          (load_each-Loaded (l ∷ links) (log_call (dump links_req) w)
            (aside-IsStore S w v w.gate w.store.subs (dump links_req ∷ w.calls) w.host) on))
  ]
