-- ===== src/Store/Lookup.antt =====
-- `nlif_store_find_byindex` as the lookup of a finite map.
use nlif.Prelude.{ℕ, ◌≡◌, sym, subst, ◌∙◌, ap, true, ◌↔◌, Option, none, some, has, ==_refl, arith}
use nlif.Errno.{ok}
use nlif.Link.{validate_index}
use nlif.Stroll.{Ptr, Stroll}
use nlif.Iface.{Iface}
use nlif.World.{World, done}
use nlif.Tables.{search_hndl_byindex, find_byindex, hndl_iface}
use nlif.Store.Entry.{IsStore, Live, Stands, Registered, Found, search_hndl-Found, some_eq}

module _ (S : Stroll) (w : World) (v : IsStore S w) where
  pub bucket-Live : (k : ℕ) (h : Ptr) → has h (w.store.indxh k) ≡ true → Live w h
  bucket-Live k h e = v.live h (v.in_indxh h k e)

  -- What the search finds is the handle of the registered interface.
  abbrev pub Holds : ℕ → Option Ptr → Type 0
  Holds index none = (q : Ptr) → ¬ Registered w index q
  Holds index (some h) = (q : Ptr) × (i : Iface) × Stands w h q i × (i.idx ≡ index)

  pub Found-Holds :
      (index : ℕ) (r : Option Ptr) → Found w index (w.store.indxh (S.hash index)) r → Holds index r
  Found-Holds index none found = λ q (h, i, st, same).
      found h q i
        (v.hashed h q i (S.hash index) st ∙ ground (arith, ==_refl (S.hash index), ap S.hash same))
        (st.1, st.2) same
  Found-Holds index (some h) (e, q, i, at, same) =
      (q, i, (v.in_indxh h (S.hash index) e, at.0, at.1), same)

  pub search_hndl_byindex-Holds :
      (index : ℕ) → (r : Option Ptr) × (search_hndl_byindex S index w ≡ done r w) × Holds index r
  unfolding search_hndl_byindex
  search_hndl_byindex-Holds index =
      let (r, run, found) =
        search_hndl-Found w index (w.store.indxh (S.hash index)) (bucket-Live (S.hash index)) in
      (r, run, Found-Holds index r found)

  -- On a well-formed store, for a valid index: `nlif_store_find_iface_byindex` returns with the
  -- memory as it was, and what it returns is an interface exactly when that interface is registered
  -- under the index.
  pub find_byindex-Registered :
      (index : ℕ)
      → validate_index index ≡ ok tt
      → (r : Option Ptr) × (find_byindex S index w ≡ done r w)
        × ((q : Ptr) → (r ≡ some q) ↔ Registered w index q)
  unfolding find_byindex hndl_iface
  find_byindex-Registered index valid = go (search_hndl_byindex-Holds index)
    where
      go :
          ((r : Option Ptr) × (search_hndl_byindex S index w ≡ done r w) × Holds index r)
          → (r : Option Ptr) × (find_byindex S index w ≡ done r w)
            × ((q : Ptr) → (r ≡ some q) ↔ Registered w index q)
      go (none, run, out) = (none, ground arith, λ q. (λ e. cc, λ g. absurd (out q g)))
      go (some h, run, (q, i, st, same)) = (
        some q,
        ground arith,
        λ q'. (
          λ e. subst (λ x. Registered w index x) (some_eq q q' e) (h, i, st, same),
          λ (h', i', st', same').
              let meet : h ≡ h' = v.unique h q h' q' i i' st st' (same ∙ sym same') in
              sym st.1 ∙ ap w.hndls meet ∙ st'.1,
        ),
      )
