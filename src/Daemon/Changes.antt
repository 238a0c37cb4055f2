-- ===== src/Daemon/Changes.antt =====
-- `nlifd_iface_process_changes`: what an event of sysrepo leaves of the interfaces.
use nlif.Prelude.{
  ℕ, ◌≡◌, refl, ap, ◌∙◌, ◌⊎◌, inl, inr, false, Option, none, some, List, has, Bool-cases,
  if◌then◌else◌, str_eq, ◌==◌,
}
use nlif.Stroll.{Ptr, Stroll}
use nlif.Stroll.Laws.{IsLawful}
use nlif.Ynl.{Ynl}
use nlif.Iface.{Iface, CStr, null, held, freed}
use nlif.Iface.Valid.{Owns}
use nlif.World.{
  World, Run, M, done, fail, fault, either, and_then, pure, ◌>>=◌, get_iface, read_str,
}
use nlif.World.Returns.{Returns, Ends, Returns-mono}
use nlif.Lifecycle.{sync}
use nlif.Settings.{coherent_type}
use nlif.Store.Entry.{Stands}
use nlif.Store.Events.{on_event}
use nlif.Srplug.{
  SrError, sr_ok, unsupported, is_ok, next_ok, ChangeOper, created, modified, deleted, moved, Node,
  Srplug,
}
use nlif.Srplug.Laws.{Keep, OnlyHandlers}
use nlif.Daemon.{
  type_str, arphrd_ether, arphrd_loopback, iface_error, ether_type, or_notsup, coherent_type_str,
  iface_from_node,
}
use nlif.Daemon.Config.{
  change_type, change_type_by, restore_type, change_hndlrs, restore_hndlrs, apply_each,
  process_changes,
}
use nlif.Daemon.Commit.{IsSound, SameHandles, SameHandles-refl, SameHandles-trans}
use nlif.Daemon.Handlers.{Tells, NodeFound, iface_from_node-NodeFound, sync-Synced}
use nlif.Daemon.Enabled.{change_enabled-Steadied, restore_enabled-Steadied}
use nlif.Daemon.Settle.{AllSettled, Steady, Walked, Steady-Finished, apply_each-Walked}

-- The type of an interface whose kind is not dangling.
type_str-done :
    (type : ℕ) (kind : CStr) (w : World)
    → Owns (λ _. Unit) kind
    → (o : Option (List ℕ)) × (type_str type kind w ≡ done o w)
unfolding type_str read_str
type_str-done type kind w own = elim (Bool-cases (type == arphrd_ether)) [
  | inl ether ↦ rw ether (go kind own)
  | inr other ↦ rw other (elim (Bool-cases (type == arphrd_loopback)) [
    | inl lo ↦ rw lo (_, refl)
    | inr none_ ↦ rw none_ (_, refl)
  ])
]
  where
    go : (c : CStr) → Owns (λ _. Unit) c → (o : Option (List ℕ)) × (ether_type c w ≡ done o w)
    go null h = (_, refl)
    go (held s) h = (_, refl)
    go freed h = elim h [ ]

module _ (S : Stroll) (laws : IsLawful S) (Y : Ynl) (tells : Tells Y)
    (on_sub : Ptr → ℕ → Ptr → M (Unit {0})) (gate : Ptr) where
  module _ (w : World) (sound : IsSound S w) where
    abbrev Kept : World → Type 0
    Kept u = IsSound S u × SameHandles w u

    -- What `nlifd_iface_coherent_type_str` does once the interface is in sync.
    abbrev typed : Ptr → ℕ → M (List ℕ)
    typed q type = do
      i ← get_iface q
      str ← type_str type i.kind
      or_notsup S Y (on_event S on_sub gate) str

    told :
        (o : Option (List ℕ)) (u : World)
        → Kept u
        → Ends (λ _ u. Kept u) (λ _ u. Kept u) (or_notsup S Y (on_event S on_sub gate) o u)
    told none u kept = kept
    told (some str) u kept = kept

    coherent_type_str-Kept :
        (h q : Ptr) (i : Iface)
        → Stands w h q i
        → Ends (λ _ u. Kept u) (λ _ u. Kept u) (coherent_type_str S Y (on_event S on_sub gate) q w)
    unfolding coherent_type_str coherent_type get_iface
    coherent_type_str-Kept h q i st =
        go (sync S Y (on_event S on_sub gate) q w)
          (sync-Synced S laws Y tells on_sub gate w sound h q i st i.state refl)
      where
        go :
            (r : Run (Unit {0}))
            → Ends
                (λ _ u. Kept u × (j : Iface) × (u.mem q ≡ some j) × (j.idx ≡ i.idx))
                (λ _ u. Kept u)
                r
            → Ends
                (λ _ u. Kept u)
                (λ _ u. Kept u)
                (and_then (and_then (and_then r (λ _. get_iface q)) (λ j. pure j.type)) (typed q))
        go (done _ u) ((good, same), j, at, _) =
            let own : Owns (λ _. Unit) j.kind =
              (good.1 h q j (ap (λ l. has h l) same.0 ∙ st.0, ap (λ f. f h) same.1 ∙ st.1, at)).1 in
            let (o, run) = type_str-done j.type j.kind u own in
            rw at (rw at (rw run (told o u (good, same))))
        go (fail e u) h = h
        go fault h = elim h [ ]

    module _ (P : Srplug) where
      compared :
          (r : Run (List ℕ)) (val : List ℕ)
          → Ends (λ _ u. Kept u) (λ _ u. Kept u) r
          → Returns
              (λ _ u. Kept u)
              (either r
                (λ type. pure (if str_eq type val then sr_ok else unsupported))
                (λ e. pure (iface_error e)))
      compared (done type u) val kept = kept
      compared (fail e u) val kept = kept
      compared fault val h = elim h [ ]

      change_type-Kept :
          (node : Node) (oper : ChangeOper) (old : Option (List ℕ))
          → Returns (λ _ u. Kept u) (change_type P S Y (on_event S on_sub gate) node oper old w)
      unfolding change_type
      change_type-Kept node oper old = go (iface_from_node-NodeFound S w node sound.0)
        where
          by :
              (h q : Ptr) (i : Iface)
              → Stands w h q i
              → (o : ChangeOper)
              → Returns (λ _ u. Kept u) (change_type_by P S Y (on_event S on_sub gate) node q o w)
          by h q i st created = compared _ node.as_str (coherent_type_str-Kept h q i st)
          by h q i st modified = compared _ node.as_str (coherent_type_str-Kept h q i st)
          by h q i st deleted = (sound, SameHandles-refl w)
          by h q i st moved = (sound, SameHandles-refl w)

          go :
              ((r : Option Ptr) × (iface_from_node S node w ≡ done r w) × NodeFound w r)
              → Returns (λ _ u. Kept u) (change_type P S Y (on_event S on_sub gate) node oper old w)
          go (none, run, _) = rw run (sound, SameHandles-refl w)
          go (some q, run, (h, i, st)) = rw run (by h q i st oper)

  module _ (P : Srplug) where
    -- What is kept from a later memory on is kept from an earlier one.
    from_later :
        (w u : World) (r : Run SrError)
        → Steady S laws P Y on_sub gate w u
        → Returns (λ _ v. IsSound S v × SameHandles u v) r
        → Returns (λ _ v. Steady S laws P Y on_sub gate w v) r
    from_later w u r (_, before) =
        Returns-mono _ _ r (λ _ v (good, same). (good, SameHandles-trans w u v before same))

    change_hndlrs-Keep :
        (w : World)
        → Keep (Steady S laws P Y on_sub gate w) (change_hndlrs P S Y (on_event S on_sub gate))
    change_hndlrs-Keep w = (
      (λ node oper old allowed u steady.
          from_later w u _ steady (
            change_enabled-Steadied S laws Y tells on_sub gate u steady.0 P node oper old allowed)),
      (
        (λ node oper old allowed u steady.
            from_later w u _ steady (change_type-Kept u steady.0 P node oper old)),
        tt,
      ),
    )

    restore_hndlrs-Keep :
        (w : World)
        → Keep (Steady S laws P Y on_sub gate w) (restore_hndlrs P S Y (on_event S on_sub gate))
    unfolding restore_type
    restore_hndlrs-Keep w = (
      (λ node oper old allowed u steady.
          from_later w u _ steady (
            restore_enabled-Steadied S laws Y tells on_sub gate u steady.0 P node oper old
              allowed)),
      ((λ node oper old allowed u steady. steady), tt),
    )

    -- Nothing is left to be applied, or a handler failed and nothing was applied.
    abbrev pub Ended : World → SrError → World → Type 0
    Ended w e u =
        AllSettled u u.store.ifaces
        ⊎ ((is_ok e ≡ false)
            × (P.process_child_changes (change_hndlrs P S Y (on_event S on_sub gate)) w ≡ done e u))

    -- For a lawful stroll and an srplug that only calls the handlers, a kernel that tells of any
    -- link by its index, with a name that fits and a known operational state, a well-formed store
    -- that is the gate's subscriber and whose interfaces have no dangling string and can be
    -- published: `nlifd_iface_process_changes` returns, with such a store of the same interfaces,
    -- the gate, the subscribers and the daemon's part being as before. Either nothing is left to be
    -- applied to any interface, be it applied, refused or restored, or a handler failed and its
    -- error comes back with what the handlers left.
    pub process_changes-Ended :
        OnlyHandlers P
        → (w : World) → IsSound S w
        → Returns
            (λ e u. Steady S laws P Y on_sub gate w u × Ended w e u)
            (process_changes P S Y (on_event S on_sub gate) w)
    unfolding process_changes
    process_changes-Ended only w sound =
        go (P.process_child_changes (change_hndlrs P S Y (on_event S on_sub gate)) w) refl (
          only (Steady S laws P Y on_sub gate w) _ w (change_hndlrs-Keep w)
            (sound, SameHandles-refl w))
      where
        walk : World → M SrError
        walk u = apply_each P S Y (on_event S on_sub gate) u.store.ifaces

        ended :
            (u : World)
            → Steady S laws P Y on_sub gate w u
            → (e : SrError) (v : World)
            → Walked S laws P Y on_sub gate only restore_hndlrs-Keep u.store.ifaces u e v
            → Steady S laws P Y on_sub gate w v × Ended w e v
        ended u steady e v (inl (_, walked)) =
            let (good, all) = Steady-Finished S laws P Y on_sub gate w u v steady walked in
            (good, inl all)
        ended u (_, before) e v (inr ((good, same), all)) =
            ((good, SameHandles-trans w u v before same), inl all)

        go :
            (r : Run SrError)
            → P.process_child_changes (change_hndlrs P S Y (on_event S on_sub gate)) w ≡ r
            → Returns (λ _ u. Steady S laws P Y on_sub gate w u) r
            → Returns
                (λ e u. Steady S laws P Y on_sub gate w u × Ended w e u)
                (and_then r (λ ret u. next_ok ret (walk u) u))
        go (done ret u) run steady = elim (Bool-cases (is_ok ret)) [
          | inl fine ↦ rw fine (
              Returns-mono _ _ (walk u u) (ended u steady) (
                apply_each-Walked S laws P Y on_sub gate only restore_hndlrs-Keep u.store.ifaces u
                  steady.0 (λ h e. e)))
          | inr failed ↦ rw failed (steady, inr (failed, run))
        ]
        go (fail e u) run h = elim h [ ]
        go fault run h = elim h [ ]
