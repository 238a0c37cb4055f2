-- ===== src/Store/Created.antt =====
-- The memory that `nlif_iface_create_bylink` leaves: the store is as it was.
use nlif.Prelude.{ℕ, ◌<◌, ◌≡◌, ◌↔◌, sym, ◌∙◌, some, arith}
use nlif.Link.{Link}
use nlif.Stroll.{Ptr, Stroll}
use nlif.Iface.{Iface, fill}
use nlif.World.{World, write_iface}
use nlif.Lifecycle.{uninit, write_new}
use nlif.Store.Entry.{IsStore, Stands, Registered, some_eq}

-- The interface that a new link gives.
abbrev pub made : Stroll → Link → Ptr → Iface
made S link gate = fill S link (record uninit { gate = gate })

-- The memory with the interface at a new address, where `i'` was written before `i`.
abbrev pub created : Iface → Iface → World → World
created i' i w = write_iface w.brk (some i) (write_iface w.brk (some i') (write_new w))

module _ (S : Stroll) (w : World) (v : IsStore S w) (i' i : Iface) where
  pub Stands-created : (h q : Ptr) (j : Iface) → Stands w h q j → Stands (created i' i w) h q j
  Stands-created h q j st = (st.0, st.1, let low : q < w.brk = v.below h q j st in ground arith)

  pub created-Stands : (h q : Ptr) (j : Iface) → Stands (created i' i w) h q j → Stands w h q j
  created-Stands h q j (listed, a, b) =
      let (q', j', (a', b'), own) = v.live h listed in
      let low : q' < w.brk = v.below h q' j' (listed, a', b') in
      let here : q' ≡ q = some_eq q' q (sym a' ∙ a) in (listed, a, ground arith)

  pub created-IsStore : IsStore S (created i' i w)
  created-IsStore = record {
    distinct = v.distinct;
    live = λ h e.
        let (q, j, (a, b), own) = v.live h e in
        let low : q < w.brk = v.below h q j (e, a, b) in (q, j, (a, ground arith), own);
    fresh = λ h e. let low : h < w.brk = v.fresh h e in omega arith;
    below =
        λ h q j st. let low : q < w.brk = v.below h q j (created-Stands h q j st) in omega arith;
    in_nameh = v.in_nameh;
    in_aliash = v.in_aliash;
    in_indxh = v.in_indxh;
    hashed = λ h q j k st. v.hashed h q j k (created-Stands h q j st);
    unique = λ h q h' q' j j' st st' same.
        v.unique h q h' q' j j' (created-Stands h q j st) (created-Stands h' q' j' st') same;
    count = v.count;
  }

  pub created-Registered :
      (index : ℕ) (q : Ptr) → Registered w index q ↔ Registered (created i' i w) index q
  created-Registered index q = (
    λ (h, j, st, same). (h, j, Stands-created h q j st, same),
    λ (h, j, st, same). (h, j, created-Stands h q j st, same),
  )
