-- ===== src/Store/Enroll.antt =====
-- `nlif_store_enroll`: the handle that it adds keeps what is true of a store.
use nlif.Prelude.{
  ℕ, ◌<◌, ◌≡◌, sym, subst, ◌∙◌, ap, inl, inr, ◌⊎◌, ◌↔◌, refl, Bool, true, false, ◌||◌, ◌&&◌, Option,
  none, some, [], ◌∷◌, has, has-append, length-append, append-Distinct, ◌==◌, ==_refl, Bool-cases,
  arith,
}
use nlif.Stroll.{Ptr, Stroll}
use nlif.Stroll.Laws.{IsLawful}
use nlif.Iface.{Iface}
use nlif.Iface.Valid.{Owns}
use nlif.World.{Buckets, World}
use nlif.Store.{add_to, enrolled}
use nlif.Store.Names.{alias_in, NamesIndexed, AliasesIndexed}
use nlif.Store.Entry.{IsStore, Live, Stands, Registered, some_eq}

-- As a map from indices to interfaces, the store has one entry more: the interface `i` at `q`.
abbrev pub Extends : World → Ptr → Iface → World → Type 0
Extends w q i u =
    (index : ℕ) (r : Ptr)
    → Registered u index r ↔ (((index ≡ i.idx) × (q ≡ r)) ⊎ Registered w index r)

-- Whether a bucket is the one that is named.
abbrev pub in_bucket : Option ℕ → ℕ → Bool
in_bucket none k = false
in_bucket (some b) k = b == k

module _ (S : Stroll) (laws : IsLawful S) where
  pub has-add_at :
      (t : Buckets) (b : ℕ) (h g : Ptr) (k : ℕ)
      → has h (t k) ≡ false
      → has g (add_to S (some b) h t k) ≡ ((b == k && h == g) || has g (t k))
  has-add_at t b h g k fresh = elim (Bool-cases (b == k)) [
    | inl same ↦ ground (arith, laws.has-hlist_add h g (t k) fresh)
    | inr other ↦ ground arith
  ]

  has-add_in :
      (t : Buckets) (b : Option ℕ) (h g : Ptr) (k : ℕ)
      → has h (t k) ≡ false
      → has g (add_to S b h t k) ≡ ((in_bucket b k && h == g) || has g (t k))
  has-add_in t none h g k fresh = refl
  has-add_in t (some b) h g k fresh = has-add_at t b h g k fresh

  -- A handle that is on no bucket is added to the one that is named.
  has-add_to :
      (t : Buckets) (b : Option ℕ) (h g : Ptr) (k : ℕ)
      → has h (t k) ≡ false
      → has g (add_to S b h t k) ≡ true
      → (h ≡ g) ⊎ (has g (t k) ≡ true)
  has-add_to t none h g k fresh e = inr e
  has-add_to t (some b) h g k fresh e = elim (Bool-cases (h == g)) [
    | inl same ↦ inl (ground arith)
    | inr other ↦ inr (ground (arith, has-add_at t b h g k fresh))
  ]

  module _ (w : World) (v : IsStore S w) (q : Ptr) (i : Iface) (at : w.mem q ≡ some i) where
    not_listed : has w.brk w.store.ifaces ≡ false
    not_listed = elim (Bool-cases (has w.brk w.store.ifaces)) [
      | inl e ↦ absurd (omega (arith, v.fresh w.brk e))
      | inr e ↦ e
    ]

    module _ (indx name : ℕ) (alias : Option ℕ) where
      abbrev after : World
      after = enrolled S q indx name alias w

      has-after : (h : Ptr) → has h after.store.ifaces ≡ (w.brk == h || has h w.store.ifaces)
      unfolding has
      has-after h =
          rw (laws.dlist_nqueue_back-eq w.store.ifaces w.brk)
            (ground (arith, has-append h w.store.ifaces (w.brk ∷ [])))

      pub Stands-after :
          (h q' : Ptr) (i' : Iface)
          → Stands after h q' i'
          → ((w.brk ≡ h) × (q ≡ q') × (i ≡ i')) ⊎ Stands w h q' i'
      Stands-after h q' i' (listed, a, b) = elim (Bool-cases (w.brk == h)) [
        | inl new ↦
            let same : q ≡ q' = some_eq q q' (ground arith) in
            inl (ground arith, same, some_eq i i' (sym at ∙ ap w.mem same ∙ b))
        | inr old ↦ inr (ground (arith, has-after h), ground arith, b)
      ]

      pub Stands-before : (h q' : Ptr) (i' : Iface) → Stands w h q' i' → Stands after h q' i'
      Stands-before h q' i' (listed, a, b) =
          (ground (arith, has-after h), let below : h < w.brk = v.fresh h listed in ground arith, b)

      pub Stands-new : Stands after w.brk q i
      Stands-new =
          (ground (arith, has-after w.brk, ==_refl w.brk), ground (arith, ==_refl w.brk), at)

      pub after-Extends : Extends w q i after
      after-Extends index q' = (
        λ (h, i', st, same). elim (Stands-after h q' i' st) [
          | inl (_, here, is) ↦ inl (sym same ∙ ap (λ j. j.idx) (sym is), here)
          | inr old ↦ inr (h, i', old, same)
        ],
        λ e. elim e [
          | inl (same, here) ↦
              subst (λ x. Registered after index x) here (w.brk, i, Stands-new, sym same)
          | inr (h, i', st, same) ↦ (h, i', Stands-before h q' i' st, same)
        ],
      )

      unlisted :
          (t : Buckets)
          → ((h : Ptr) (k : ℕ) → has h (t k) ≡ true → has h w.store.ifaces ≡ true)
          → (k : ℕ) → has w.brk (t k) ≡ false
      unlisted t inside k = elim (Bool-cases (has w.brk (t k))) [
        | inl e ↦ absurd (omega (arith, v.fresh w.brk (inside w.brk k e)))
        | inr e ↦ e
      ]

      inside_after :
          (t : Buckets) (b : Option ℕ)
          → ((h : Ptr) (k : ℕ) → has h (t k) ≡ true → has h w.store.ifaces ≡ true)
          → (h : Ptr) (k : ℕ) → has h (add_to S b w.brk t k) ≡ true
          → has h after.store.ifaces ≡ true
      inside_after t b inside h k e = elim (has-add_to t b w.brk h k (unlisted t inside k) e) [
        | inl new ↦ ground (arith, has-after h, ==_refl h)
        | inr old ↦ ground (arith, has-after h, inside h k old)
      ]

      Live-after :
          Owns (λ _. Unit) i.alias → (h : Ptr) → has h after.store.ifaces ≡ true → Live after h
      Live-after own h e = elim (Bool-cases (w.brk == h)) [
        | inl new ↦ (q, i, (ground arith, at), own)
        | inr old ↦
            let (q', i', (a, b), own') = v.live h (ground (arith, has-after h)) in
            (q', i', (ground arith, b), own')
      ]

      hashed_after :
          S.hash i.idx ≡ indx
          → (h q' : Ptr) (i' : Iface) (k : ℕ)
          → ((w.brk ≡ h) × (q ≡ q') × (i ≡ i')) ⊎ Stands w h q' i'
          → has h (after.store.indxh k) ≡ (S.hash i'.idx == k)
      hashed_after bucket h q' i' k (inl (new, _, is)) =
          let hash_same : S.hash i'.idx ≡ indx = ap (λ j. S.hash j.idx) (sym is) ∙ bucket in
          let absent : has w.brk (w.store.indxh k) ≡ false = unlisted w.store.indxh v.in_indxh k in
          let absent' : has h (w.store.indxh k) ≡ false =
            subst (λ x. has x (w.store.indxh k) ≡ false) new absent in
          let same : (w.brk == h) ≡ true = ground arith in
          rw (hash_same, has-add_at w.store.indxh indx w.brk h k absent, absent', same)
            (ground arith)
      hashed_after bucket h q' i' k (inr old) =
          let absent : has w.brk (w.store.indxh k) ≡ false = unlisted w.store.indxh v.in_indxh k in
          let below : h < w.brk = v.fresh h old.0 in
          let other : (w.brk == h) ≡ false = ground arith in
          rw (has-add_at w.store.indxh indx w.brk h k absent, v.hashed h q' i' k old, other)
            (ground arith)

      pub after-IsStore :
          Owns (λ _. Unit) i.alias
          → S.hash i.idx ≡ indx
          → ((q' : Ptr) → ¬ Registered w i.idx q')
          → q < w.brk
          → IsStore S after
      after-IsStore own bucket free low = record {
        distinct =
            rw (laws.dlist_nqueue_back-eq w.store.ifaces w.brk)
              (append-Distinct w.brk w.store.ifaces v.distinct not_listed);
        live = λ h e. Live-after own h e;
        fresh = λ h e. elim (Bool-cases (w.brk == h)) [
          | inl new ↦ ground arith
          | inr old ↦ let below : h < w.brk = v.fresh h (ground (arith, has-after h)) in omega arith
        ];
        below = λ h q' i' st. elim (Stands-after h q' i' st) [
          | inl (_, here, _) ↦ omega arith
          | inr old ↦ let lower : q' < w.brk = v.below h q' i' old in omega arith
        ];
        in_nameh = inside_after w.store.nameh (some name) v.in_nameh;
        in_aliash = inside_after w.store.aliash alias v.in_aliash;
        in_indxh = inside_after w.store.indxh (some indx) v.in_indxh;
        hashed = λ h q' i' k st. hashed_after bucket h q' i' k (Stands-after h q' i' st);
        unique = λ h q' h' q'' i' i'' st st' same. elim (Stands-after h q' i' st) [
          | inl (new, _, is) ↦ elim (Stands-after h' q'' i'' st') [
            | inl (new', _, _) ↦ sym new ∙ new'
            | inr old ↦ absurd (free q'' (h', i'', old, sym same ∙ ap (λ j. j.idx) (sym is)))
          ]
          | inr old ↦ elim (Stands-after h' q'' i'' st') [
            | inl (_, _, is) ↦ absurd (free q' (h, i', old, same ∙ ap (λ j. j.idx) (sym is)))
            | inr old' ↦ v.unique h q' h' q'' i' i'' old old' same
          ]
        ];
        count =
            rw (laws.dlist_nqueue_back-eq w.store.ifaces w.brk)
              (omega (arith, length-append w.store.ifaces (w.brk ∷ []), v.count));
      }

      pub after-NamesIndexed : S.hash_str i.name ≡ name → NamesIndexed S w → NamesIndexed S after
      after-NamesIndexed bucket indexed h q' i' k st = go (Stands-after h q' i' st)
        where
          absent : has w.brk (w.store.nameh k) ≡ false
          absent = unlisted w.store.nameh v.in_nameh k

          go :
              ((w.brk ≡ h) × (q ≡ q') × (i ≡ i')) ⊎ Stands w h q' i'
              → has h (after.store.nameh k) ≡ (S.hash_str i'.name == k)
          go (inl (new, _, is)) =
              let hash_same : S.hash_str i'.name ≡ name =
                ap (λ j. S.hash_str j.name) (sym is) ∙ bucket in
              let absent' : has h (w.store.nameh k) ≡ false =
                subst (λ x. has x (w.store.nameh k) ≡ false) new absent in
              let same : (w.brk == h) ≡ true = ground arith in
              rw (hash_same, has-add_at w.store.nameh name w.brk h k absent, absent', same)
                (ground arith)
          go (inr old) =
              let below : h < w.brk = v.fresh h old.0 in
              let other : (w.brk == h) ≡ false = ground arith in
              rw (has-add_at w.store.nameh name w.brk h k absent, indexed h q' i' k old, other)
                (ground arith)

      pub after-AliasesIndexed :
          ((k : ℕ) → in_bucket alias k ≡ alias_in S k i.alias)
          → AliasesIndexed S w
          → AliasesIndexed S after
      after-AliasesIndexed bucket indexed h q' i' k st = go (Stands-after h q' i' st)
        where
          absent : has w.brk (w.store.aliash k) ≡ false
          absent = unlisted w.store.aliash v.in_aliash k

          go :
              ((w.brk ≡ h) × (q ≡ q') × (i ≡ i')) ⊎ Stands w h q' i'
              → has h (after.store.aliash k) ≡ alias_in S k i'.alias
          go (inl (new, _, is)) =
              let absent' : has h (w.store.aliash k) ≡ false =
                subst (λ x. has x (w.store.aliash k) ≡ false) new absent in
              let same : (w.brk == h) ≡ true = ground arith in
              let mine : in_bucket alias k ≡ alias_in S k i'.alias =
                bucket k ∙ ap (λ j. alias_in S k j.alias) is in
              has-add_in w.store.aliash alias w.brk h k absent
              ∙ rw (absent', same, mine) (ground arith)
          go (inr old) =
              let below : h < w.brk = v.fresh h old.0 in
              let other : (w.brk == h) ≡ false = ground arith in
              has-add_in w.store.aliash alias w.brk h k absent
              ∙ rw (indexed h q' i' k old, other) (ground arith)
