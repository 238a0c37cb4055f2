-- ===== src/Store/Withdraw.antt =====
-- `nlif_store_withdraw`: the handle with the interface's index leaves the store.
use nlif.Prelude.{
  ℕ, ◌≡◌, ◌≢◌, refl, sym, subst, ◌∙◌, ap, inl, inr, ◌↔◌, true, false, Option, none, some, has,
  has-remove, length-remove, remove-Distinct, ◌==◌, Bool-cases, arith, if◌then◌else◌,
}
use nlif.Errno.{enodev}
use nlif.Stroll.{Ptr, Stroll}
use nlif.Stroll.Laws.{IsLawful}
use nlif.Iface.{Iface}
use nlif.World.{Buckets, World, done, get_iface}
use nlif.World.Returns.{Ends}
use nlif.Store.{withdrawn, withdraw, del_from}
use nlif.Tables.{search_hndl_byindex}
use nlif.Store.Entry.{IsStore, Refers, Stands, Registered, Refers-eq}
use nlif.Store.Lookup.{Holds, search_hndl_byindex-Holds}

-- As a map from indices to interfaces, the store has lost what it had at `index`.
abbrev pub Drops : World → ℕ → World → Type 0
Drops w index u = (k : ℕ) (r : Ptr) → Registered u k r ↔ ((k ≢ index) × Registered w k r)

module _ (S : Stroll) (laws : IsLawful S) (w : World) (v : IsStore S w) (h : Ptr)
    (listed : has h w.store.ifaces ≡ true) where
  abbrev after : World
  after = withdrawn S h w

  has-after :
      (g : Ptr) → has g after.store.ifaces ≡ (if h == g then false else has g w.store.ifaces)
  has-after g =
      rw (laws.dlist_remove-eq h w.store.ifaces v.distinct) (has-remove h g w.store.ifaces)

  Stands-after : (g q : Ptr) (i : Iface) → Stands after g q i → (h ≢ g) × Stands w g q i
  Stands-after g q i (e, a, b) = elim (Bool-cases (h == g)) [
    | inl same ↦ absurd (ground (arith, has-after g))
    | inr other ↦ (ground arith, (ground (arith, has-after g), ground arith, b))
  ]

  Stands-before : (g q : Ptr) (i : Iface) → h ≢ g → Stands w g q i → Stands after g q i
  Stands-before g q i n (e, a, b) = (ground (arith, has-after g), ground arith, b)

  after-Drops : (q : Ptr) (i : Iface) → Stands w h q i → Drops w i.idx after
  after-Drops q i st k r = (
    λ (g, j, st', same).
        let (n, old) = Stands-after g r j st' in
        (λ e. n (v.unique h q g r i j st old (sym e ∙ sym same)), (g, j, old, same)),
    λ (n, (g, j, old, same)).
        let other : h ≢ g = λ e.
          let meet : Refers w h r j = subst (λ x. Refers w x r j) (sym e) (old.1, old.2) in
          let (_, is) = Refers-eq w h q r i j (st.1, st.2) meet in
          n (sym same ∙ ap (λ x. x.idx) (sym is)) in
        (g, j, Stands-before g r j other old, same),
  )

  inside_after :
      (t : Buckets)
      → ((g : Ptr) (k : ℕ) → has g (t k) ≡ true → has g w.store.ifaces ≡ true)
      → (g : Ptr) (k : ℕ) → has g (del_from S h t k) ≡ true
      → has g after.store.ifaces ≡ true
  inside_after t inside g k e = elim (Bool-cases (h == g)) [
    | inl same ↦ absurd (ground (arith, laws.has-hlist_del h g (t k)))
    | inr other ↦ ground (arith, has-after g, laws.has-hlist_del h g (t k), inside g k)
  ]

  after-IsStore : IsStore S after
  after-IsStore = record {
    distinct =
        rw (laws.dlist_remove-eq h w.store.ifaces v.distinct)
          (remove-Distinct h w.store.ifaces v.distinct);
    live = λ g e. elim (Bool-cases (h == g)) [
      | inl same ↦ absurd (ground (arith, has-after g))
      | inr other ↦
          let (q, i, (a, b), own) = v.live g (ground (arith, has-after g)) in
          (q, i, (ground arith, b), own)
    ];
    fresh = λ g e. v.fresh g (ground (arith, has-after g));
    below = λ g q i st. v.below g q i (Stands-after g q i st).1;
    in_nameh = inside_after w.store.nameh v.in_nameh;
    in_aliash = inside_after w.store.aliash v.in_aliash;
    in_indxh = inside_after w.store.indxh v.in_indxh;
    hashed = λ g q i k st.
        let (n, old) = Stands-after g q i st in
        ground (arith, laws.has-hlist_del h g (w.store.indxh k), v.hashed g q i k old);
    unique = λ g q g' q' i i' st st' same.
        v.unique g q g' q' i i' (Stands-after g q i st).1 (Stands-after g' q' i' st').1 same;
    count =
        rw (laws.dlist_remove-eq h w.store.ifaces v.distinct)
          (omega (arith, length-remove h w.store.ifaces v.distinct listed, v.count));
  }

-- For a lawful stroll and a well-formed store: `nlif_store_withdraw_iface` either keeps the store
-- well-formed and removes from the map from indices to interfaces what stands at the interface's
-- index alone, or fails with ENODEV, with nothing changed and nothing registered under that index.
pub withdraw-IsStore :
    (S : Stroll)
    → IsLawful S
    → (w : World) → IsStore S w
    → (q : Ptr) (i : Iface) → w.mem q ≡ some i
    → Ends
        (λ _ u. IsStore S u × Drops w i.idx u × (u.mem ≡ w.mem))
        (λ e u. (e ≡ enodev) × (u ≡ w) × ((r : Ptr) → ¬ Registered w i.idx r))
        (withdraw S q w)
unfolding withdraw get_iface
withdraw-IsStore S laws w v q i at = go (search_hndl_byindex-Holds S w v i.idx)
  where
    go :
        ((r : Option Ptr) × (search_hndl_byindex S i.idx w ≡ done r w) × Holds S w v i.idx r)
        → Ends
            (λ _ u. IsStore S u × Drops w i.idx u × (u.mem ≡ w.mem))
            (λ e u. (e ≡ enodev) × (u ≡ w) × ((r : Ptr) → ¬ Registered w i.idx r))
            (withdraw S q w)
    go (none, run, out) = rw at (rw run (refl, refl, out))
    go (some h, run, (q', i', st, same)) = rw at (
        rw run (
          after-IsStore S laws w v h st.0,
          subst (λ k. Drops w k (withdrawn S h w)) same (after-Drops S laws w v h st.0 q' i' st),
          refl,
        ))
