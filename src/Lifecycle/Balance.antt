-- ===== src/Lifecycle/Balance.antt =====
-- `nlif_iface_create_byidx` and `nlif_iface_create_byname`: a loaded interface, or the memory back.
use nlif.Prelude.{
  ℕ, suc, ◌≡◌, ◌≢◌, refl, inl, inr, Option, none, some, List, ◌∷◌, ◌==◌, ==_refl, if◌then◌else◌,
  arith,
}
use nlif.Link.{Link}
use nlif.Stroll.{Ptr, Stroll}
use nlif.Ynl.{GetReq, getlink, Ynl}
use nlif.Iface.{Iface, fill}
use nlif.World.{World, get_iface, put_iface}
use nlif.World.Returns.{Ends}
use nlif.Gate.Requests.{
  index_req, name_req, Answers, asked, load_link_byidx-cases, load_link_byname-cases,
}
use nlif.Lifecycle.{
  uninit, write_new, alloc, free, fill_iface, load_index, load_byidx, load_byname, create_byidx,
  create_byname,
}

-- The new interface: what the link says, with its gate.
abbrev pub loaded : Stroll → Link → Ptr → Iface
loaded S lnk gate = record (fill S lnk uninit) { gate = gate }

-- One request was made, and nothing but the heap differs, where the address given is used up.
pub record Asked (req : GetReq) (w u : World) : Type 0 where
  pub hndls : u.hndls ≡ w.hndls
  pub brk : u.brk ≡ suc w.brk
  pub store : u.store ≡ w.store
  pub gate : u.gate ≡ w.gate
  pub calls : u.calls ≡ getlink req ∷ w.calls
  pub host : u.host ≡ w.host

module _ (S : Stroll) (Y : Ynl) (w : World) (gate : Ptr) where
  -- On success.
  abbrev pub Created : GetReq → Ptr → World → Type 0
  Created req p u =
      (p ≡ w.brk)
      × ((lnk : Link) × Answers Y w req lnk × (u.mem p ≡ some (loaded S lnk gate)))
      × ((q : Ptr) → p ≢ q → u.mem q ≡ w.mem q)
      × Asked req w u

  -- On error.
  abbrev pub Balanced : GetReq → World → Type 0
  Balanced req u = ((q : Ptr) → u.mem q ≡ w.mem q) × Asked req w u

  once :
      (req : GetReq) (m : Ptr → Option Iface)
      → Asked req w (record (asked Y (write_new w) req) { mem = m })
  once req m = record {
    hndls = refl;
    brk = refl;
    store = refl;
    gate = refl;
    calls = refl;
    host = refl;
  }

  module _ (unused : w.mem w.brk ≡ none) where
    -- What is written at the new address and then freed there is as it was.
    given_back :
        (q : Ptr)
        → (if w.brk == q then none else if w.brk == q then some uninit else w.mem q) ≡ w.mem q
    given_back q = ground (arith, unused)

    -- Where the address that the allocator gives is unused: `nlif_iface_create_byidx` asks the
    -- kernel once for the index and either returns a new interface with the gate and what the
    -- kernel's valid link says, or fails with the memory as it was, the new interface being freed;
    -- nothing else changes.
    pub create_byidx-Ends :
        (index : ℕ)
        → Ends
            (Created (index_req index))
            (λ _. Balanced (index_req index))
            (create_byidx S Y index gate w)
    unfolding create_byidx alloc load_byidx load_index fill_iface get_iface put_iface free
    create_byidx-Ends index = elim (load_link_byidx-cases Y (write_new w) index) [
      | inl (lnk, run, ans) ↦ rw run (
          rw (==_refl w.brk) (
            rw (==_refl w.brk) (
              refl,
              (lnk, ans, ground (arith, ==_refl w.brk)),
              (λ q n. ground arith),
              once (index_req index) _,
            )))
      | inr (e, run) ↦ rw run (rw (==_refl w.brk) (given_back, once (index_req index) _))
    ]

    -- Where the address that the allocator gives is unused: `nlif_iface_create_byname` asks the
    -- kernel once for the name and either returns a new interface with the gate and what the
    -- kernel's valid link says, or fails with the memory as it was, the new interface being freed;
    -- nothing else changes.
    pub create_byname-Ends :
        (name : List ℕ)
        → Ends
            (Created (name_req name))
            (λ _. Balanced (name_req name))
            (create_byname S Y name gate w)
    unfolding create_byname alloc load_byname fill_iface get_iface put_iface free fill
    create_byname-Ends name = elim (load_link_byname-cases Y (write_new w) name) [
      | inl (lnk, run, ans) ↦ rw run (
          rw (==_refl w.brk) (
            rw (==_refl w.brk) (
              refl,
              (lnk, ans, ground (arith, ==_refl w.brk)),
              (λ q n. ground arith),
              once (name_req name) _,
            )))
      | inr (e, run) ↦ rw run (rw (==_refl w.brk) (given_back, once (name_req name) _))
    ]
