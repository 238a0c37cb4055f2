-- ===== src/Store/Rehash.antt =====
-- `nlif_store_rehash_name` and `nlif_store_rehash_alias`: a handle moves to the bucket of a new string.
use nlif.Prelude.{
  ℕ, ◌≡◌, refl, ◌∙◌, inl, inr, Bool, true, false, Bool-cases, some, List, has, ◌==◌, ==_refl, arith,
}
use nlif.Errno.{eexist}
use nlif.Stroll.{Ptr, Stroll}
use nlif.Stroll.Laws.{IsLawful}
use nlif.Iface.{CStr, null, held, freed}
use nlif.Iface.Valid.{Owns}
use nlif.World.{Buckets, World, read_str}
use nlif.World.Returns.{Ends, Quiet}
use nlif.Store.{with_store, add_to, del_from}
use nlif.Tables.{may_register_name, may_register_alias}
use nlif.Store.Entry.{IsStore, Bears}
use nlif.Store.Register.{StandsWith, string_step}
use nlif.Store.Enroll.{has-add_at}
use nlif.Store.Events.{rehash_name, rehash_alias}

-- A table whose handles are all the store's.
abbrev pub Inside : Buckets → World → Type 0
Inside t w = (h : Ptr) (k : ℕ) → has h (t k) ≡ true → has h w.store.ifaces ≡ true

-- The tables of strings aside, nothing differs but the calls to the kernel and the allocator.
abbrev pub SameMap : World → World → Type 0
SameMap w u = (u.store.ifaces ≡ w.store.ifaces) × (u.hndls ≡ w.hndls) × (u.mem ≡ w.mem) × Quiet w u

-- Whether the bucket is the one of the alias.
abbrev pub home : Stroll → CStr → ℕ → Bool
home S null k = false
home S (held s) k = S.hash_str s == k
home S freed k = false

module _ (S : Stroll) (laws : IsLawful S) (w : World) (v : IsStore S w) where
  abbrev with_names : Buckets → World
  with_names t = with_store (λ s. record s { nameh = t }) w

  abbrev with_aliases : Buckets → World
  with_aliases t = with_store (λ s. record s { aliash = t }) w

  with_names-IsStore : (t : Buckets) → Inside t w → IsStore S (with_names t)
  with_names-IsStore t inside = record {
    distinct = v.distinct;
    live = v.live;
    fresh = v.fresh;
    below = v.below;
    in_nameh = inside;
    in_aliash = v.in_aliash;
    in_indxh = v.in_indxh;
    hashed = v.hashed;
    unique = v.unique;
    count = v.count;
  }

  with_aliases-IsStore : (t : Buckets) → Inside t w → IsStore S (with_aliases t)
  with_aliases-IsStore t inside = record {
    distinct = v.distinct;
    live = v.live;
    fresh = v.fresh;
    below = v.below;
    in_nameh = v.in_nameh;
    in_aliash = inside;
    in_indxh = v.in_indxh;
    hashed = v.hashed;
    unique = v.unique;
    count = v.count;
  }

  module _ (h : Ptr) (listed : has h w.store.ifaces ≡ true) where
    del-Inside : (t : Buckets) → Inside t w → Inside (del_from S h t) w
    del-Inside t inside g k e = elim (Bool-cases (h == g)) [
      | inl same ↦ absurd (ground (arith, laws.has-hlist_del h g (t k)))
      | inr other ↦ ground (arith, laws.has-hlist_del h g (t k), inside g k)
    ]

    gone : (t : Buckets) (k : ℕ) → has h (del_from S h t k) ≡ false
    gone t k = ground (arith, laws.has-hlist_del h h (t k), ==_refl h)

    moved : Buckets → ℕ → Buckets
    moved t b = add_to S (some b) h (del_from S h t)

    moved-Inside : (t : Buckets) (b : ℕ) → Inside t w → Inside (moved t b) w
    unfolding moved
    moved-Inside t b inside g k e = elim (Bool-cases (h == g)) [
      | inl same ↦ ground arith
      | inr other ↦
          ground
            (arith, has-add_at S laws (del_from S h t) b h g k (gone t k), del-Inside t inside g k)
    ]

    -- The handle stands in the bucket of the string and in no other.
    moved-at : (t : Buckets) (b k : ℕ) → has h (moved t b k) ≡ (b == k)
    unfolding moved
    moved-at t b k =
        has-add_at S laws (del_from S h t) b h h k (gone t k) ∙ ground (arith, gone t k, ==_refl h)

    -- For a lawful stroll, a well-formed store and a handle of it: `nlif_store_rehash_name` keeps
    -- the store well-formed with the same interfaces. Either it returns with the handle in the
    -- bucket of the name alone, or it fails with EEXIST, an interface having the name as name or
    -- alias, and the handle is then in no bucket of the name table. Either way the gate, the
    -- subscribers and the daemon's part are as before.
    pub rehash_name-Ends :
        (name : List ℕ)
        → Ends
            (λ _ u.
              IsStore S u
              × SameMap w u
              × ((k : ℕ) → has h (u.store.nameh k) ≡ (S.hash_str name == k)))
            (λ e u.
              (e ≡ eexist)
              × IsStore S u
              × SameMap w u
              × ((k : ℕ) → has h (u.store.nameh k) ≡ false)
              × StandsWith w (Bears name))
            (rehash_name S h name w)
    unfolding rehash_name may_register_name moved
    rehash_name-Ends name =
        let unlinked : IsStore S (with_names (del_from S h w.store.nameh)) =
          with_names-IsStore (del_from S h w.store.nameh) (del-Inside w.store.nameh v.in_nameh) in
        elim (string_step S (with_names (del_from S h w.store.nameh)) unlinked name
          (del_from S h w.store.nameh (S.hash_str name))
          (λ g. del-Inside w.store.nameh v.in_nameh g (S.hash_str name))) [
            | inl free ↦ rw free (
              with_names-IsStore (moved w.store.nameh (S.hash_str name))
                  (moved-Inside w.store.nameh (S.hash_str name) v.in_nameh),
              (refl, refl, refl, (refl, refl, refl)),
              moved-at w.store.nameh (S.hash_str name),
            )
            | inr (taken, other) ↦
                rw taken (
                  refl,
                  unlinked,
                  (refl, refl, refl, (refl, refl, refl)),
                  gone w.store.nameh,
                  other,
                )
          ]

    pub rehash_alias-Ends :
        (alias : CStr)
        → Owns (λ _. Unit) alias
        → Ends
            (λ _ u.
              IsStore S u
              × SameMap w u
              × (u.store.nameh ≡ w.store.nameh)
              × ((k : ℕ) → has h (u.store.aliash k) ≡ home S alias k))
            (λ e u.
              (e ≡ eexist)
              × IsStore S u
              × SameMap w u
              × ((k : ℕ) → has h (u.store.aliash k) ≡ false))
            (rehash_alias S h alias w)
    unfolding rehash_alias may_register_alias read_str moved
    rehash_alias-Ends null own = (
      with_aliases-IsStore (del_from S h w.store.aliash) (del-Inside w.store.aliash v.in_aliash),
      (refl, refl, refl, (refl, refl, refl)),
      refl,
      gone w.store.aliash,
    )
    rehash_alias-Ends (held s) own =
        let unlinked : IsStore S (with_aliases (del_from S h w.store.aliash)) =
          with_aliases-IsStore (del_from S h w.store.aliash)
            (del-Inside w.store.aliash v.in_aliash) in
        elim (string_step S (with_aliases (del_from S h w.store.aliash)) unlinked s
          (del_from S h w.store.aliash (S.hash_str s))
          (λ g. del-Inside w.store.aliash v.in_aliash g (S.hash_str s))) [
            | inl free ↦ rw free (
              with_aliases-IsStore (moved w.store.aliash (S.hash_str s))
                  (moved-Inside w.store.aliash (S.hash_str s) v.in_aliash),
              (refl, refl, refl, (refl, refl, refl)),
              refl,
              moved-at w.store.aliash (S.hash_str s),
            )
            | inr (taken, other) ↦
                rw taken
                  (refl, unlinked, (refl, refl, refl, (refl, refl, refl)), gone w.store.aliash)
          ]
    rehash_alias-Ends freed own = elim own [ ]
