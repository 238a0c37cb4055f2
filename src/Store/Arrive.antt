-- ===== src/Store/Arrive.antt =====
-- `nlif_store_on_new_iface`: a store that is given a link of the kernel.
use nlif.Prelude.{
  ℕ, suc, has, ◌≤◌, true, Bool-cases, ◌==◌, ◌≡◌, refl, subst, inl, inr, ◌⊎◌, Option, none, some,
  List, [], ◌∷◌, arith, ==_refl,
}
use nlif.Link.{Link}
use nlif.Stroll.{Ptr, Stroll}
use nlif.Stroll.Laws.{IsLawful}
use nlif.Iface.{Iface, fill, clone, clone_attr}
use nlif.Iface.Valid.{Owns}
use nlif.World.{World, done, get_iface, put_iface}
use nlif.World.Returns.{Returns, Apart, Apart-refl}
use nlif.Lifecycle.{uninit, alloc, fill_iface, create_bylink}
use nlif.Store.{enrolled, createn_enroll}
use nlif.Tables.{may_register_name, may_register_alias}
use nlif.Store.Entry.{IsStore, Stands, Registered, Bears}
use nlif.Store.Enroll.{
  Extends, after-IsStore, after-NamesIndexed, after-AliasesIndexed, in_bucket, after-Extends,
  Stands-after, Stands-before, Stands-new,
}
use nlif.Store.Created.{
  made, created, Stands-created, created-Stands, created-IsStore, created-Registered,
}
use nlif.Store.Names.{alias_in, NamesIndexed, AliasesIndexed}
use nlif.Store.Register.{StandsWith, string_step, index_step}
use nlif.Store.Events.{on_new_iface, link_alias_bucket}

pub clone-Owns : (s : List ℕ) → Owns (λ _. Unit) (clone s)
clone-Owns [] = tt
clone-Owns (c ∷ s) = tt

pub clone_attr-Owns : (s : Option (List ℕ)) → Owns (λ _. Unit) (clone_attr s)
clone_attr-Owns none = tt
clone_attr-Owns (some s) = clone-Owns s

-- Every interface of the store has the property.
abbrev pub AllOf : (Iface → Type 0) → World → Type 0
AllOf P w = (h q : Ptr) (j : Iface) → Stands w h q j → P j

abbrev pub OwnsKind : Iface → Type 0
OwnsKind j = Owns (λ _. Unit) j.kind

-- No interface of the store has a dangling kind.
abbrev pub OwnsKinds : World → Type 0
OwnsKinds = AllOf OwnsKind

-- Whatever is in the store stays as it is.
abbrev pub Keeps : World → World → Type 0
Keeps w u = (h q : Ptr) (j : Iface) → Stands w h q j → Stands u h q j

-- The link is in the store, or an interface of it is called as the link is.
abbrev pub Entered : World → Link → Type 0
Entered u l =
    ((q : Ptr) × Registered u l.ifi_index q)
    ⊎ ((h q : Ptr) × (j : Iface) × Stands u h q j × (Bears l.ifname j ⊎ Bears l.ifalias j))

-- What is new on the heap is a handle of the store or its interface.
pub record Grows (w u : World) : Type 0 where
  pub mem :
      (q : Ptr) → (u.mem q ≡ w.mem q) ⊎ ((w.brk ≤ q) × (h : Ptr) × (j : Iface) × Stands u h q j)
  pub hndls : (h : Ptr) → (u.hndls h ≡ w.hndls h) ⊎ ((w.brk ≤ h) × (has h u.store.ifaces ≡ true))
  pub brk : w.brk ≤ u.brk
  pub new : (h q : Ptr) (j : Iface) → Stands u h q j → Stands w h q j ⊎ ((w.brk ≤ h) × (w.brk ≤ q))

pub Grows-refl : (w : World) → Grows w w
Grows-refl w = record {
  mem = λ q. inl refl;
  hndls = λ h. inl refl;
  brk = omega arith;
  new = λ h q j st. inl st;
}

-- The store after it was given a link. A property of the new interface and of those that were there
-- is one of all.
pub record Given (S : Stroll) (P : Iface → Type 0) (l : Link) (gate : Ptr) (w u : World)
    : Type 0 where
  pub store : IsStore S u
  pub keeps : Keeps w u
  pub entered : Entered u l
  pub apart : Apart w u
  pub grows : Grows w u
  pub calls : u.calls ≡ w.calls
  pub names : NamesIndexed S w → NamesIndexed S u
  pub aliases : AliasesIndexed S w → AliasesIndexed S u
  pub all : P (made S l gate) → AllOf P w → AllOf P u

module _ (S : Stroll) (laws : IsLawful S) (P : Iface → Type 0) (w : World) (v : IsStore S w)
    (l : Link) (gate : Ptr) where
  create_bylink-created :
      create_bylink S l gate w
      ≡ done w.brk (created (record uninit { gate = gate }) (made S l gate) w)
  unfolding create_bylink alloc get_iface put_iface fill_iface
  create_bylink-created = rw (==_refl w.brk) (rw (==_refl w.brk) refl)

  alias_step :
      (s : List ℕ)
      → ((link_alias_bucket S s w ≡ done none w) × StandsWith w (Bears s))
        ⊎ ((b : Option ℕ) × (link_alias_bucket S s w ≡ done (some b) w)
            × ((k : ℕ) → in_bucket b k ≡ alias_in S k (clone s)))
  unfolding may_register_alias
  alias_step [] = inr (none, refl, λ k. refl)
  alias_step (c ∷ s) =
      elim (string_step S w v (c ∷ s) (w.store.aliash (S.hash_str (c ∷ s)))
        (λ h. v.in_aliash h (S.hash_str (c ∷ s)))) [
          | inl free ↦ inr (some (S.hash_str (c ∷ s)), rw free refl, λ k. refl)
          | inr (run, taken) ↦ inl (rw run, taken)
        ]

  -- The store once the new interface is in it.
  abbrev entered : Option ℕ → World
  entered b =
      enrolled S w.brk (S.hash l.ifi_index) (S.hash_str l.ifname) b
        (created (record uninit { gate = gate }) (made S l gate) w)

  entered-IsStore :
      (b : Option ℕ)
      → ((k : ℕ) → in_bucket b k ≡ alias_in S k (clone l.ifalias))
      → ((q : Ptr) → ¬ Registered w l.ifi_index q)
      → Given S P l gate w (entered b)
  unfolding fill
  entered-IsStore b bucket free =
      let old : IsStore S (created g i w) = created-IsStore S w v g i in
      let ext : Extends (created g i w) w.brk i (entered b) =
        after-Extends S laws (created g i w) old w.brk i here (S.hash l.ifi_index)
          (S.hash_str l.ifname) b in
      let stands : Stands (entered b) (suc w.brk) w.brk i =
        Stands-new S laws (created g i w) old w.brk i here (S.hash l.ifi_index)
          (S.hash_str l.ifname) b in
      record {
        store =
            after-IsStore S laws (created g i w) old w.brk i here (S.hash l.ifi_index)
              (S.hash_str l.ifname) b (clone-Owns l.ifalias) refl
              (λ q r. free q ((created-Registered S w v g i l.ifi_index q).1 r)) (omega arith);
        keeps = λ h q j st.
            Stands-before S laws (created g i w) old w.brk i here (S.hash l.ifi_index)
              (S.hash_str l.ifname) b h q j (Stands-created S w v g i h q j st);
        entered = inl (w.brk, (ext l.ifi_index w.brk).1 (inl (refl, refl)));
        apart = record { gate = refl; subs = refl; host = refl };
        grows = record {
          mem = λ q. elim (Bool-cases (w.brk == q)) [
            | inl new ↦
                let same : w.brk ≡ q = ground arith in
                inr (
                  omega arith,
                  suc w.brk,
                  i,
                  subst (λ x. Stands (entered b) (suc w.brk) x i) same stands,
                )
            | inr old ↦ inl (ground arith)
          ];
          hndls = λ h. elim (Bool-cases (suc w.brk == h)) [
            | inl new ↦
                let same : suc w.brk ≡ h = ground arith in
                inr (omega arith, subst (λ x. has x (entered b).store.ifaces ≡ true) same stands.0)
            | inr old ↦ inl (ground arith)
          ];
          brk = omega arith;
          new = λ h q j st.
              elim (Stands-after S laws (created g i w) old w.brk i here (S.hash l.ifi_index)
                (S.hash_str l.ifname) b h q j st) [
                  | inl (this, at, _) ↦ inr (omega arith, omega arith)
                  | inr stood ↦ inl (created-Stands S w v g i h q j stood)
                ];
        };
        calls = refl;
        names = λ indexed.
            after-NamesIndexed S laws (created g i w) old w.brk i here (S.hash l.ifi_index)
              (S.hash_str l.ifname) b refl
              (λ h q j k st. indexed h q j k (created-Stands S w v g i h q j st));
        aliases = λ indexed.
            after-AliasesIndexed S laws (created g i w) old w.brk i here (S.hash l.ifi_index)
              (S.hash_str l.ifname) b bucket
              (λ h q j k st. indexed h q j k (created-Stands S w v g i h q j st));
        all = λ mine every h q j st.
            elim (Stands-after S laws (created g i w) old w.brk i here (S.hash l.ifi_index)
              (S.hash_str l.ifname) b h q j st) [
                | inl (_, _, is) ↦ subst P is mine
                | inr stood ↦ every h q j (created-Stands S w v g i h q j stood)
              ];
      }
    where
      g : Iface
      g = record uninit { gate = gate }

      i : Iface
      i = made S l gate

      here : (created g i w).mem w.brk ≡ some i
      here = ground (arith, ==_refl w.brk)

  -- The link is passed over.
  passed-Given : Entered w l → Given S P l gate w w
  passed-Given there = record {
    store = v;
    keeps = λ h q j x. x;
    entered = there;
    apart = Apart-refl w;
    grows = Grows-refl w;
    calls = refl;
    names = λ k. k;
    aliases = λ k. k;
    all = λ mine k. k;
  }

  -- For a lawful stroll, a well-formed store and any link: `nlif_store_on_new_iface` returns with a
  -- well-formed store that keeps what it held, in which an interface has the link's index, or one
  -- has its name or its alias as name or alias. A property of the interface that the link gives and
  -- of those that were there is one of all; the name and alias tables are in step with the
  -- interfaces if they were; what is new on the heap is in the store; and the gate, the calls, the
  -- subscribers and the daemon's part are as before.
  pub on_new_iface-IsStore : Returns (λ _ u. Given S P l gate w u) (on_new_iface S l gate w)
  unfolding on_new_iface may_register_name createn_enroll
  on_new_iface-IsStore = elim (index_step S w v l.ifi_index) [
    | inr (run, (h, q, j, st, same)) ↦ rw run (passed-Given (inl (q, (h, j, st, same))))
    | inl (indexed, free) ↦
        rw indexed
          (elim (string_step S w v l.ifname (w.store.nameh (S.hash_str l.ifname))
            (λ h. v.in_nameh h (S.hash_str l.ifname))) [
              | inr (run, (h, q, j, st, bears)) ↦
                  rw run (passed-Given (inr (h, q, j, st, inl bears)))
              | inl named ↦ rw named (elim (alias_step l.ifalias) [
                | inl (run, (h, q, j, st, bears)) ↦
                    rw run (passed-Given (inr (h, q, j, st, inr bears)))
                | inr (b, run, bucket) ↦
                    rw run (rw create_bylink-created (entered-IsStore b bucket free))
              ])
            ])
  ]
