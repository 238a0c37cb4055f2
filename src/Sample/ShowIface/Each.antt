-- ===== src/Sample/ShowIface/Each.antt =====
-- sample/show_iface.c without an argument: a store is loaded, printed and given back.
use nlif.Prelude.{
  ℕ, ◌≡◌, ◌≢◌, ◌≤◌, refl, sym, ap, ◌∙◌, inl, inr, Bool-cases, true, Option, none, some, List, [],
  ◌∷◌, ◌++◌, has, ==_refl, arith,
}
use nlif.Errno.{ok}
use nlif.Link.{Link}
use nlif.Stroll.{Ptr, Stroll}
use nlif.Ynl.{Call, DumpReq, Ynl}
use nlif.Iface.{Iface}
use nlif.World.{World, done}
use nlif.Tables.{hndl_iface}
use nlif.Store.Events.{on_event, unheard}
use nlif.Store.Entry.{IsStore, Refers, Stands, some_eq}
use nlif.Store.Arrive.{Grows}
use nlif.Store.Release.{Freed}
use nlif.Printing.{Line}
use nlif.Printing.Clean.{IsPrintable, iface_print-lines}
use nlif.Sample.Outcome.{IsShowable}
use nlif.Sample.ShowIface.{show_each}

-- Nothing stands above the next address.
pub record IsUnused (w : World) : Type 0 where
  pub mem : (q : Ptr) → w.brk ≤ q → w.mem q ≡ none
  pub hndls : (h : Ptr) → w.brk ≤ h → w.hndls h ≡ none

module _ (ffs : ℕ → ℕ) (flag_text : ℕ → Option (List ℕ)) where
  abbrev pub AllShowable : List Link → Type 0
  AllShowable [] = Unit
  AllShowable (l ∷ links) = IsShowable ffs flag_text l × AllShowable links

  -- The kernel's dumps hold well-formed links alone, which can be printed.
  abbrev pub Listing : Ynl → Type 0
  Listing Y =
      (calls : List Call) (req : DumpReq) (links : List Link)
      → Y.on_dump calls req ≡ ok links
      → AllShowable links

module _ (ffs : ℕ → ℕ) (flag_text : ℕ → Option (List ℕ)) (S : Stroll) (Y : Ynl) (gate : Ptr) where
  -- Each interface is printed, and the memory stays as it is.
  pub show_each-lines :
      (hs : List Ptr) (w : World)
      → ((h : Ptr)
          → has h hs ≡ true
          → (q : Ptr) × (i : Iface) × Refers w h q i × IsPrintable ffs flag_text i)
      → (lines : List Line) × (show_each ffs flag_text S Y gate hs w ≡ done lines w)
  unfolding show_each has hndl_iface
  show_each-lines [] w all = ([], refl)
  show_each-lines (h ∷ hs) w all =
      let (q, i, r, printable) = all h (ground (arith, ==_refl h)) in
      let (lines, print) =
        iface_print-lines ffs flag_text S Y (on_event S unheard gate) q w i r.1 printable in
      let (rest, others) = show_each-lines hs w (λ g e. all g (ground arith)) in
      (lines ++ rest, rw r.0 (rw print (rw others refl)))

-- What is freed is what was new.
module _ (S : Stroll) (v u x : World) (unused : IsUnused v) (empty : v.store.ifaces ≡ [])
    (good : IsStore S u) (grows : Grows v u) (f : Freed u.store.ifaces u x) where
  pub all_new : (h q : Ptr) (j : Iface) → Stands u h q j → (v.brk ≤ h) × (v.brk ≤ q)
  unfolding has
  all_new h q j st = elim (grows.new h q j st) [
    | inr both ↦ both
    | inl stood ↦ let nothing : has h [] ≡ true = ap (has h) (sym empty) ∙ stood.0 in cc
  ]

  not_pointed : (q h : Ptr) → u.mem q ≡ v.mem q → has h u.store.ifaces ≡ true → u.hndls h ≢ some q
  not_pointed q h same e at =
      let (q', j, (a, b), _) = good.live h e in
      let here : q' ≡ q = some_eq q' q (sym a ∙ at) in
      let nothing : v.mem q' ≡ none = unused.mem q' (all_new h q' j (e, a, b)).1 in
      let there : u.mem q ≡ some j = ap u.mem (sym here) ∙ b in
      let away : v.mem q ≡ none = ap v.mem (sym here) ∙ nothing in cc

  pub mem_back : (q : Ptr) → x.mem q ≡ v.mem q
  mem_back q = elim (grows.mem q) [
    | inr (low, h, j, st) ↦ f.ifaces h q st.0 st.1 ∙ sym (unused.mem q low)
    | inl same ↦ f.others q (λ h e. not_pointed q h same e) ∙ same
  ]

  pub hndls_back : (h : Ptr) → x.hndls h ≡ v.hndls h
  hndls_back h = elim (Bool-cases (has h u.store.ifaces)) [
    | inl listed ↦
        let (q, j, at, _) = good.live h listed in
        f.hndls h ∙ rw listed (sym (unused.hndls h (all_new h q j (listed, at.0, at.1)).0))
    | inr other ↦
        f.hndls h
        ∙ rw other
            (elim (grows.hndls h) [ inl same ↦ same | inr (_, listed) ↦ absurd (ground arith) ])
  ]
