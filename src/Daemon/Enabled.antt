-- ===== src/Daemon/Enabled.antt =====
-- The handlers of the leaf `enabled`, `nlifd_iface_change_enabled` and `nlifd_iface_restore_enabled`.
use nlif.Prelude.{
  ℕ, ◌≡◌, refl, sym, subst, ap, ◌∙◌, has, ◌⊎◌, inl, inr, Bool, true, false, not, Option, none, some,
  List, ◌==◌, ==_refl, Bool-cases, arith, if◌then◌else◌, bit_and,
}
use nlif.Errno.{Result-cases}
use nlif.Stroll.{Ptr, Stroll}
use nlif.Stroll.Laws.{IsLawful}
use nlif.Ynl.{Ynl}
use nlif.Iface.{Iface, iff_up, admstate}
use nlif.World.{World, Run, M, done, fail, fault, either, and_then, pure, get_iface, put_iface}
use nlif.World.Returns.{Returns, Ends, Returns-mono, Returns-Ends}
use nlif.Lifecycle.{sync}
use nlif.Settings.{set_admstate, set_up}
use nlif.Settings.State.{up_in}
use nlif.Store.Entry.{Stands}
use nlif.Store.Events.{on_event}
use nlif.Srplug.{
  SrError, sr_ok, not_found, ChangeOper, created, modified, deleted, moved, Node, Srplug,
}
use nlif.Srplug.Laws.{IsChange}
use nlif.Daemon.{iface_error, iface_from_node}
use nlif.Daemon.Config.{
  changed_value, change_to, change_enabled, restored_value, restore_enabled, restore_to, parsed,
}
use nlif.Daemon.Commit.{IsFit, IsSound, SameHandles, SameHandles-refl, write_iface-IsSound}
use nlif.Daemon.Handlers.{Tells, NodeFound, iface_from_node-NodeFound, sync-Synced}

masked : (up : Bool) → not ((if up then iff_up else 0) == 0) ≡ up
masked true = refl
masked false = refl

is_up :
    (f : ℕ) (up : Bool)
    → (bit_and f iff_up == (if up then iff_up else 0)) ≡ true
    → not (bit_and f iff_up == 0) ≡ up
is_up f true h = ground arith
is_up f false h = ground arith

-- The value to restore is read without touching the memory.
restored_reads :
    (P : Srplug) (node : Node) (oper : ChangeOper) (old : Option (List ℕ)) (w : World)
    → IsChange oper old
    → (o : Option Bool) × (restored_value P node oper old w ≡ done o w)
unfolding restored_value parsed
restored_reads P node created old w h = (_, refl)
restored_reads P node modified none w h = elim h [ ]
restored_reads P node modified (some s) w h = elim (Result-cases (P.parse_bool s)) [
  | inl (b, e) ↦ (some b, rw e refl)
  | inr (c, e) ↦ (none, rw e refl)
]
restored_reads P node deleted none w h = elim h [ ]
restored_reads P node deleted (some s) w h = elim (Result-cases (P.parse_bool s)) [
  | inl (b, e) ↦ (some b, rw e refl)
  | inr (c, e) ↦ (none, rw e refl)
]
restored_reads P node moved old w h = elim h [ ]

module _ (S : Stroll) (laws : IsLawful S) (Y : Ynl) (tells : Tells Y)
    (on_sub : Ptr → ℕ → Ptr → M (Unit {0})) (gate : Ptr) (w : World) (sound : IsSound S w) where
  abbrev pub Steadied : World → Type 0
  Steadied u = IsSound S u × SameHandles w u

  -- The interface at `q` has the administrative state.
  abbrev pub IsUp : Ptr → Bool → World → Type 0
  IsUp q up u = (j : Iface) × (u.mem q ≡ some j) × (admstate j ≡ up)

  module _ (h q : Ptr) (i : Iface) (st : Stands w h q i) (up : Bool) where
    abbrev setting : Iface → M (Unit {0})
    setting j =
        if bit_and j.flags iff_up == (if up then iff_up else 0)
        then pure tt
        else put_iface q (set_up S up j)

    -- What is written, for an interface that was read in sync.
    flagged :
        (u : World) (j : Iface)
        → IsSound S u
        → SameHandles w u
        → u.mem q ≡ some j
        → Returns (λ _ v. Steadied v × IsUp q up v) (setting j u)
    unfolding put_iface admstate
    flagged u j good same at =
        elim (Bool-cases (bit_and j.flags iff_up == (if up then iff_up else 0))) [
          | inl equal ↦ rw equal ((good, same), (j, at, is_up j.flags up equal))
          | inr differs ↦ rw differs (
            (write_iface-IsSound S u q j (set_up S up j) good at refl both, same),
            (set_up S up j, ground (arith, ==_refl q), rw (up_in j.flags up) (masked up)),
          )
        ]
      where
        both : IsFit j
        both = good.1 h q j (ap (λ l. has h l) same.0 ∙ st.0, ap (λ f. f h) same.1 ∙ st.1, at)

    -- `nlif_iface_set_admstate`, in whatever state the interface is.
    set_admstate-IsUp :
        Ends
          (λ _ u. Steadied u × IsUp q up u)
          (λ _ u. Steadied u)
          (set_admstate S Y (on_event S on_sub gate) q up w)
    unfolding set_admstate get_iface
    set_admstate-IsUp =
        go (sync S Y (on_event S on_sub gate) q w)
          (sync-Synced S laws Y tells on_sub gate w sound h q i st i.state refl)
      where
        go :
            (r : Run (Unit {0}))
            → Ends
                (λ _ u. Steadied u × (j : Iface) × (u.mem q ≡ some j) × (j.idx ≡ i.idx))
                (λ _ u. Steadied u)
                r
            → Ends
                (λ _ u. Steadied u × IsUp q up u)
                (λ _ u. Steadied u)
                (and_then (and_then r (λ _. get_iface q)) setting)
        go (done _ u) ((good, same), j, at, _) =
            rw at (Returns-Ends _ _ _ (setting j u) (λ _ v h. h) (flagged u j good same at))
        go (fail e u) h = h
        go fault h = elim h [ ]

  module _ (P : Srplug) where
    -- The interface has the value, or there is none, or the error is that of the setter.
    abbrev pub Changed : Node → Bool → SrError → World → Type 0
    Changed node up e u =
        ((e ≡ sr_ok) × (q : Ptr) × (iface_from_node S node w ≡ done (some q) w) × IsUp q up u)
        ⊎ (((e ≡ not_found) × (iface_from_node S node w ≡ done none w) × (u ≡ w))
            ⊎ ((c : ℕ) × (q : Ptr) × (iface_from_node S node w ≡ done (some q) w)
                × (e ≡ iface_error c)
                × (set_admstate S Y (on_event S on_sub gate) q up w ≡ fail c u)))

    -- For a lawful stroll, a kernel that tells of any link by its index, with a name that fits and
    -- a known operational state, a well-formed store that is the gate's subscriber and whose
    -- interfaces have no dangling string and can be published, and a change of the leaf `enabled`
    -- that has a value to set: `nlifd_iface_change_enabled` returns with such a store of the same
    -- interfaces, the gate, the subscribers and the daemon's part being as before. The node's
    -- interface has the value as its administrative state; or the node has no interface,
    -- SR_ERR_NOT_FOUND comes back and nothing changed; or what comes back is the error of
    -- `nlif_iface_set_admstate`.
    pub change_enabled-Changed :
        (node : Node) (oper : ChangeOper) (old : Option (List ℕ)) (up : Bool)
        → changed_value node oper ≡ some up
        → Returns
            (λ e u. Steadied u × Changed node up e u)
            (change_enabled P S Y (on_event S on_sub gate) node oper old w)
    unfolding change_enabled
    change_enabled-Changed node oper old up value = go (iface_from_node-NodeFound S w node sound.0)
      where
        by : Option Ptr → M SrError
        by none = pure not_found
        by (some q) = change_to P S Y (on_event S on_sub gate) q (changed_value node oper)

        after :
            (r : Run (Option Ptr))
            → iface_from_node S node w ≡ r
            → Returns (λ e u. Steadied u × Changed node up e u) (and_then r by)
            → Returns
                (λ e u. Steadied u × Changed node up e u)
                (change_enabled P S Y (on_event S on_sub gate) node oper old w)
        after r run =
            subst (λ x. Returns (λ e u. Steadied u × Changed node up e u) (and_then x by)) (sym run)

        set :
            (q : Ptr)
            → iface_from_node S node w ≡ done (some q) w
            → (r : Run (Unit {0})) → set_admstate S Y (on_event S on_sub gate) q up w ≡ r
            → Ends (λ _ u. Steadied u × IsUp q up u) (λ _ u. Steadied u) r
            → Returns
                (λ e u. Steadied u × Changed node up e u)
                (either r (λ _. pure sr_ok) (λ e. pure (iface_error e)))
        set q found (done _ u) run (good, is) = (good, inl (refl, q, found, is))
        set q found (fail c u) run good = (good, inr (inr (c, q, found, refl, run)))
        set q found fault run h = elim h [ ]

        go :
            ((r : Option Ptr) × (iface_from_node S node w ≡ done r w) × NodeFound w r)
            → Returns
                (λ e u. Steadied u × Changed node up e u)
                (change_enabled P S Y (on_event S on_sub gate) node oper old w)
        go (none, run, _) = after _ run ((sound, SameHandles-refl w), inr (inl (refl, run, refl)))
        go (some q, run, (h, i, st)) =
            after _ run (rw value (set q run _ refl (set_admstate-IsUp h q i st up)))

    -- Without a value to set, an interface is left alone.
    pub change_enabled-Steadied :
        (node : Node) (oper : ChangeOper) (old : Option (List ℕ))
        → IsChange oper old
        → Returns
            (λ _ u. Steadied u)
            (change_enabled P S Y (on_event S on_sub gate) node oper old w)
    unfolding changed_value
    change_enabled-Steadied node created old h =
        Returns-mono _ _ (change_enabled P S Y (on_event S on_sub gate) node created old w)
          (λ _ u (good, _). good) (change_enabled-Changed node created old _ refl)
    change_enabled-Steadied node modified old h =
        Returns-mono _ _ (change_enabled P S Y (on_event S on_sub gate) node modified old w)
          (λ _ u (good, _). good) (change_enabled-Changed node modified old _ refl)
    change_enabled-Steadied node deleted old h =
        Returns-mono _ _ (change_enabled P S Y (on_event S on_sub gate) node deleted old w)
          (λ _ u (good, _). good) (change_enabled-Changed node deleted old _ refl)
    change_enabled-Steadied node moved old h = elim h [ ]

    abbrev pub restoring : Node → ChangeOper → Option (List ℕ) → M SrError
    restoring = restore_enabled P S Y (on_event S on_sub gate)

    pub restore_enabled-Steadied :
        (node : Node) (oper : ChangeOper) (old : Option (List ℕ))
        → IsChange oper old
        → Returns (λ _ u. Steadied u) (restoring node oper old w)
    unfolding restore_enabled
    restore_enabled-Steadied node oper old allowed = go (iface_from_node-NodeFound S w node sound.0)
      where
        set :
            (r : Run (Unit {0}))
            → (up : Bool) → (q : Ptr) → Ends (λ _ u. Steadied u × IsUp q up u) (λ _ u. Steadied u) r
            → Returns (λ _ u. Steadied u) (either r (λ _. pure sr_ok) (λ e. pure sr_ok))
        set (done _ u) up q (good, is) = good
        set (fail c u) up q good = good
        set fault up q h = elim h [ ]

        value :
            (h q : Ptr) (i : Iface)
            → Stands w h q i
            → (o : Option Bool)
            → Returns (λ _ u. Steadied u) (restore_to P S Y (on_event S on_sub gate) q o w)
        value h q i st none = (sound, SameHandles-refl w)
        value h q i st (some up) = set _ up q (set_admstate-IsUp h q i st up)

        go :
            ((r : Option Ptr) × (iface_from_node S node w ≡ done r w) × NodeFound w r)
            → Returns (λ _ u. Steadied u) (restoring node oper old w)
        go (none, run, _) = rw run (sound, SameHandles-refl w)
        go (some q, run, (h, i, st)) =
            let (o, read) = restored_reads P node oper old w allowed in
            rw run (rw read (value h q i st o))
