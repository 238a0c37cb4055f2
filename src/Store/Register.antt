-- ===== src/Store/Register.antt =====
-- `nlif_store_enroll` as a whole: it adds the interface, or leaves everything as it was.
use nlif.Prelude.{
  ℕ, ◌≡◌, ◌<◌, refl, inl, inr, ◌⊎◌, Bool, true, false, Option, none, some, List, has,
}
use nlif.Errno.{eexist}
use nlif.Stroll.{Ptr, Stroll}
use nlif.Stroll.Laws.{IsLawful}
use nlif.Iface.{Iface, held}
use nlif.Iface.Valid.{Owns, Owns-cases}
use nlif.World.{World, done, fail, get_iface, read_str}
use nlif.World.Returns.{Ends}
use nlif.Store.{enroll, createn_enroll, alias_bucket}
use nlif.Tables.{
  may_register_name, may_register_alias, may_register_index, matches_any, search_hndl,
}
use nlif.Store.Entry.{
  IsStore, Stands, Registered, Bears, Found, Matched, matches_any-Matched, search_hndl-Found,
}
use nlif.Store.Lookup.{bucket-Live, Found-Holds}
use nlif.Store.Enroll.{Extends, after-Extends, after-IsStore}

-- An interface of the store that has the index of `i`, or its name or alias as its own name or alias.
abbrev pub Clashes : World → Iface → Type 0
Clashes w i =
    (h q : Ptr) × (j : Iface) × Stands w h q j
    × ((j.idx ≡ i.idx) ⊎ Bears i.name j ⊎ ((a : List ℕ) × (i.alias ≡ held a) × Bears a j))

-- An interface of the store with this property.
abbrev pub StandsWith : World → (Iface → Type 0) → Type 0
StandsWith w P = (h q : Ptr) × (j : Iface) × Stands w h q j × P j

module _ (S : Stroll) (w : World) (v : IsStore S w) where
  -- A string is compared with those along a bucket of the store.
  pub string_step :
      (strid : List ℕ) (hs : List Ptr)
      → ((h : Ptr) → has h hs ≡ true → has h w.store.ifaces ≡ true)
      → (matches_any strid hs w ≡ done false w)
        ⊎ ((matches_any strid hs w ≡ done true w) × StandsWith w (Bears strid))
  string_step strid hs inside = go (matches_any-Matched w strid hs (λ h e. v.live h (inside h e)))
    where
      go :
          ((b : Bool) × (matches_any strid hs w ≡ done b w) × Matched w strid hs b)
          → (matches_any strid hs w ≡ done false w)
            ⊎ ((matches_any strid hs w ≡ done true w) × StandsWith w (Bears strid))
      go (false, run, _) = inl run
      go (true, run, (h, e, q, j, at, bears)) =
          inr (run, (h, q, j, (inside h e, at.0, at.1), bears))

  pub index_step :
      (index : ℕ)
      → ((may_register_index S index w ≡ done (some (S.hash index)) w)
          × ((q : Ptr) → ¬ Registered w index q))
        ⊎ ((may_register_index S index w ≡ done none w) × StandsWith w (λ j. j.idx ≡ index))
  unfolding may_register_index
  index_step index =
      go (
        search_hndl-Found w index (w.store.indxh (S.hash index)) (bucket-Live S w v (S.hash index)))
    where
      go :
          ((r : Option Ptr) × (search_hndl index (w.store.indxh (S.hash index)) w ≡ done r w)
            × Found w index (w.store.indxh (S.hash index)) r)
          → ((may_register_index S index w ≡ done (some (S.hash index)) w)
              × ((q : Ptr) → ¬ Registered w index q))
            ⊎ ((may_register_index S index w ≡ done none w) × StandsWith w (λ j. j.idx ≡ index))
      go (none, run, out) = inl (rw run, Found-Holds S w v index none out)
      go (some h, run, found) =
          let (q, i, st, same) = Found-Holds S w v index (some h) found in
          inr (rw run, (h, q, i, st, same))

  bucket_step :
      (i : Iface)
      → Owns (λ _. Unit) i.alias
      → ((b : Option ℕ) × (alias_bucket S i.alias w ≡ done b w))
        ⊎ ((alias_bucket S i.alias w ≡ fail eexist w) × Clashes w i)
  unfolding read_str may_register_alias
  bucket_step i own = elim (Owns-cases (λ _. Unit) i.alias own) [
    | inl e ↦ inl (none, rw e)
    | inr (a, e, _) ↦
        elim (string_step a (w.store.aliash (S.hash_str a)) (λ h. v.in_aliash h (S.hash_str a))) [
          | inl free ↦ inl (some (S.hash_str a), rw e (rw free))
          | inr (run, (h, q, j, st, bears)) ↦
              inr (rw e (rw run), (h, q, j, st, inr (inr (a, e, bears))))
        ]
  ]

  -- For a lawful stroll and a well-formed store, an interface at an allocated address whose alias
  -- is not dangling: `nlif_store_enroll_iface` either keeps the store well-formed and extends the
  -- map from indices to interfaces by this one alone, the interfaces being untouched, or fails with
  -- EEXIST, with nothing changed and with an interface of the store that has its index, or its name
  -- or its alias as name or alias.
  pub enroll-IsStore :
      IsLawful S
      → (q : Ptr) (i : Iface) → w.mem q ≡ some i
      → q < w.brk
      → Owns (λ _. Unit) i.alias
      → Ends
          (λ _ u. IsStore S u × Extends w q i u × (u.mem ≡ w.mem))
          (λ e u. (e ≡ eexist) × (u ≡ w) × Clashes w i)
          (enroll S q w)
  unfolding enroll get_iface may_register_name createn_enroll
  enroll-IsStore laws q i at low own =
      rw at
        (elim (string_step i.name (w.store.nameh (S.hash_str i.name))
          (λ h. v.in_nameh h (S.hash_str i.name))) [
            | inr (run, (h, q', j, st, bears)) ↦
                rw run (refl, refl, (h, q', j, st, inr (inl bears)))
            | inl named ↦ rw named (elim (index_step i.idx) [
              | inr (run, (h, q', j, st, same)) ↦ rw run (refl, refl, (h, q', j, st, inl same))
              | inl (indexed, free) ↦ rw indexed (elim (bucket_step i own) [
                | inr (run, clash) ↦ rw run (refl, refl, clash)
                | inl (b, run) ↦ rw run (
                  after-IsStore S laws w v q i at (S.hash i.idx) (S.hash_str i.name) b own refl free
                      low,
                  after-Extends S laws w v q i at (S.hash i.idx) (S.hash_str i.name) b,
                  refl,
                )
              ])
            ])
          ])
