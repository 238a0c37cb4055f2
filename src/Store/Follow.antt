-- ===== src/Store/Follow.antt =====
-- `nlif_store_on_iface_reload` and `nlif_store_on_iface_modify`: the tables follow an interface.
use nlif.Prelude.{
  ℕ, ◌≡◌, refl, ap, ◌∙◌, ◌⊎◌, inl, inr, false, Bool-cases, Option, none, some, has, ◌==◌,
}
use nlif.Errno.{eexist}
use nlif.Stroll.{Ptr, Stroll}
use nlif.Stroll.Laws.{IsLawful}
use nlif.Iface.{Iface, name_fld, alias_fld, field_bit}
use nlif.Iface.Valid.{Owns}
use nlif.World.{World, Run, done, fail, fault, and_then, get_iface}
use nlif.World.Returns.{Quiet-trans, Ends, Ends-mono, and_then-done}
use nlif.Tables.{search_hndl_byindex}
use nlif.Store.Entry.{IsStore, Stands}
use nlif.Store.Lookup.{Holds, search_hndl_byindex-Holds}
use nlif.Store.Rehash.{SameMap, home, rehash_name-Ends, rehash_alias-Ends}
use nlif.Store.Events.{rehash_name, rehash_alias, on_iface_reload, on_iface_modify}

SameMap-trans : (u v w : World) → SameMap u v → SameMap v w → SameMap u w
SameMap-trans u v w a b = (b.0 ∙ a.0, b.1 ∙ a.1, b.2 ∙ a.2, Quiet-trans u v w a.3 b.3)

-- The handle stands in the bucket of this name and in no other, and likewise for the alias.
abbrev pub Indexed : Stroll → Ptr → Iface → World → Type 0
Indexed S h i u =
    ((k : ℕ) → has h (u.store.nameh k) ≡ (S.hash_str i.name == k))
    × ((k : ℕ) → has h (u.store.aliash k) ≡ home S i.alias k)

-- Each string that is marked has its bucket.
abbrev pub Follows : Stroll → Ptr → Iface → World → Type 0
Follows S h i u =
    ((S.bmap_test i.dirty_fields (field_bit name_fld) ≡ false)
      ⊎ ((k : ℕ) → has h (u.store.nameh k) ≡ (S.hash_str i.name == k)))
    × ((S.bmap_test i.dirty_fields (field_bit alias_fld) ≡ false)
        ⊎ ((k : ℕ) → has h (u.store.aliash k) ≡ home S i.alias k))

module _ (S : Stroll) (laws : IsLawful S) (w : World) (v : IsStore S w) (h q : Ptr) (i : Iface)
    (st : Stands w h q i) (own : Owns (λ _. Unit) i.alias) where
  -- The search by the interface's index ends at its handle.
  found : search_hndl_byindex S i.idx w ≡ done (some h) w
  found = go (search_hndl_byindex-Holds S w v i.idx)
    where
      go :
          ((r : Option Ptr) × (search_hndl_byindex S i.idx w ≡ done r w) × Holds S w v i.idx r)
          → search_hndl_byindex S i.idx w ≡ done (some h) w
      go (none, run, out) = absurd (out q (h, i, st, refl))
      go (some h', run, (q', i', st', same)) =
          run ∙ ap (λ x. done (some x) w) (v.unique h' q' h q i' i st' st same)

  abbrev Fails : ℕ → World → Type 0
  Fails e u = (e ≡ eexist) × IsStore S u × SameMap w u

  rehash_both :
      Ends
        (λ _ u. IsStore S u × SameMap w u × Indexed S h i u)
        Fails
        (and_then (rehash_name S h i.name w) (λ _. rehash_alias S h i.alias))
  rehash_both = go (rehash_name S h i.name w) (
      Ends-mono _ _ _ _ (rehash_name S h i.name w) (λ _ u x. x)
        (λ e u (c, good, same, _, _). (c, good, same)) (rehash_name-Ends S laws w v h st.0 i.name))
    where
      go :
          (r : Run (Unit {0}))
          → Ends
              (λ _ u.
                IsStore S u
                × SameMap w u
                × ((k : ℕ) → has h (u.store.nameh k) ≡ (S.hash_str i.name == k)))
              Fails
              r
          → Ends
              (λ _ u. IsStore S u × SameMap w u × Indexed S h i u)
              Fails
              (and_then r (λ _. rehash_alias S h i.alias))
      go (done _ u) (good, same, named) =
          Ends-mono _ _ _ _ (rehash_alias S h i.alias u)
            (λ _ x (good', same', kept, aliased). (
              good',
              SameMap-trans w u x same same',
              ((λ k. ap (λ t. has h (t k)) kept ∙ named k), aliased),
            ))
            (λ e x (c, good', same', _). (c, good', SameMap-trans w u x same same'))
            (rehash_alias-Ends S laws u good h (ap (λ l. has h l) same.0 ∙ st.0) i.alias own)
      go (fail e u) h = h
      go fault h = elim h [ ]

  -- For a lawful stroll, a well-formed store and an interface of it whose alias is not dangling:
  -- `nlif_store_on_iface_reload` either keeps the store well-formed with the same interfaces and
  -- leaves the handle in the buckets of the interface's name and alias alone, or fails with EEXIST
  -- with the store well-formed and the same interfaces. Either way the gate, the subscribers and
  -- the daemon's part are as before.
  pub on_iface_reload-Indexed :
      Ends
        (λ _ u. IsStore S u × SameMap w u × Indexed S h i u)
        (λ e u. (e ≡ eexist) × IsStore S u × SameMap w u)
        (on_iface_reload S q w)
  unfolding on_iface_reload get_iface
  on_iface_reload-Indexed = rw st.2 (rw found rehash_both)

  -- For a lawful stroll, a well-formed store and an interface of it whose alias is not dangling:
  -- `nlif_store_on_iface_modify` either keeps the store well-formed with the same interfaces and
  -- leaves the handle in the bucket of the name alone if the name is marked, and likewise for the
  -- alias, or fails with EEXIST with the store well-formed and the same interfaces. Either way the
  -- gate, the subscribers and the daemon's part are as before.
  pub on_iface_modify-Follows :
      Ends
        (λ _ u. IsStore S u × SameMap w u × Follows S h i u)
        (λ e u. (e ≡ eexist) × IsStore S u × SameMap w u)
        (on_iface_modify S q w)
  unfolding on_iface_modify get_iface
  on_iface_modify-Follows = rw st.2 (
      rw found (elim (Bool-cases (S.bmap_test i.dirty_fields 1)) [
        | inl name ↦ elim (Bool-cases (S.bmap_test i.dirty_fields 2)) [
          | inl alias ↦
              rw (name, alias)
                (Ends-mono _ _ _ _
                  (and_then (rehash_name S h i.name w) (λ _. rehash_alias S h i.alias))
                  (λ _ u (good, same, (n, a)). (good, same, (inr n, inr a))) (λ e u x. x)
                  rehash_both)
          | inr alias ↦
              rw (name, alias)
                (rw (and_then-done (rehash_name S h i.name w)) (
                  Ends-mono _ _ _ _ (rehash_name S h i.name w)
                    (λ _ u (good, same, n). (good, same, (inr n, inl refl)))
                    (λ e u (c, good, same, _, _). (c, good, same))
                    (rehash_name-Ends S laws w v h st.0 i.name)))
        ]
        | inr name ↦ elim (Bool-cases (S.bmap_test i.dirty_fields 2)) [
          | inl alias ↦
              rw (name, alias)
                (Ends-mono _ _ _ _ (rehash_alias S h i.alias w)
                  (λ _ u (good, same, _, a). (good, same, (inl refl, inr a)))
                  (λ e u (c, good, same, _). (c, good, same))
                  (rehash_alias-Ends S laws w v h st.0 i.alias own))
          | inr alias ↦
              rw (name, alias) (v, (refl, refl, refl, (refl, refl, refl)), (inl refl, inl refl))
        ]
      ]))
