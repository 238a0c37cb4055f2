-- ===== src/Examples/Daemon.antt =====
-- The theorems on the daemon, for a sysrepo that accepts everything and changes one leaf.
use nlif.Prelude.{
  ℕ, ◌≡◌, refl, subst, ◌⊎◌, inl, inr, false, true, Bool, Option, none, some, List, [], ◌∷◌, has,
  arith, codes, str_eq, if◌then◌else◌,
}
use nlif.Errno.{Result, ok, err, einval}
use nlif.Link.{Link}
use nlif.Stroll.{Ptr}
use nlif.Stroll.Lists.{list_stroll, list_stroll-IsLawful}
use nlif.Ynl.{Ynl}
use nlif.Iface.{Iface, fill, admstate}
use nlif.World.{World, switch_dstore, M, done, fail, pure}
use nlif.World.Returns.{Ends, Returns}
use nlif.Gate.{islink_valid}
use nlif.Settings.{set_admstate}
use nlif.Store.Entry.{Stands, aside-IsStore}
use nlif.Store.Enroll.{Stands-after}
use nlif.Store.Events.{on_event}
use nlif.Store.{reload}
use nlif.Store.Arrive.{OwnsKind}
use nlif.Store.Reload.{Reloaded, Emptied, reload-Reloaded}
use nlif.Srplug.{SrError, sr_ok, not_found, is_ok, ChangeOper, modified, Node, Handler, Srplug}
use nlif.Srplug.Laws.{IsChange, Keep, OnlyHandlers}
use nlif.Daemon.{iface_error, iface_from_node}
use nlif.Daemon.Load.{AllReadable}
use nlif.Daemon.Entries.{config_outcome, reset_config_dstore-followed}
use nlif.Daemon.Config.{
  reset_config_dstore, changed_value, change_enabled, change_hndlrs, process_changes,
}
use nlif.Daemon.Statistics.{Reported, get_stats-Reported}
use nlif.Daemon.Oper.{get_stats, setup_oper_dstore}
use nlif.Daemon.Sequence.{nlifd_open, nlifd_close}
use nlif.Daemon.Start.{nlifd_open-Ends}
use nlif.Daemon.State.{Idle, IsRunning, SameHeap, AllPublic, Lists}
use nlif.Daemon.Close.{Closed, nlifd_close-Closed}
use nlif.Daemon.Publish.{
  ifaces_at, setup_oper_dstore-answered, answered, status_requests, Shown, made,
}
use nlif.Daemon.Commit.{IsFit, IsSound, SameHandles}
use nlif.Daemon.Settle.{AllSettled}
use nlif.Daemon.Handlers.{Tells}
use nlif.Daemon.Enabled.{change_enabled-Changed}
use nlif.Daemon.Changes.{process_changes-Ended}
use nlif.Examples.{eth0, up_alias, link, obliging, port, memory}
use nlif.Examples.Registry.{empty, empty_list, empty-IsStore, one, one-IsStore, on_sub}

-- The leaf `enabled` of the port, which was `true` and is `false`.
abbrev pub leaf : Node
leaf = record { key = some eth0; as_bool = false; as_str = codes "false"; dflt_as_bool = some true }

pub dispatch : List Handler → List ℕ → Node → ChangeOper → Option (List ℕ) → M SrError
dispatch [] name node oper old = pure sr_ok
dispatch (h ∷ hs) name node oper old =
    if str_eq h.name name then h.run node oper old else dispatch hs name node oper old

abbrev pub granting : Srplug
granting = record {
  xpath_size = 128;
  on_printf = λ _. ok tt;
  on_request = λ _ _. sr_ok;
  on_call = λ _ _. ok tt;
  find_module = λ _. true;
  feature_on = λ _. true;
  parse_bool = λ s.
      if str_eq s (codes "true")
      then ok true
      else if str_eq s (codes "false")
      then ok false
      else err einval;
  process_child_changes = λ hs. dispatch hs (codes "enabled") leaf modified (some (codes "true"));
}

dispatch-Keep :
    (Q : World → Type 0) (name : List ℕ) (node : Node) (oper : ChangeOper) (old : Option (List ℕ))
    → IsChange oper old
    → (hs : List Handler) (w : World) → Keep Q hs
    → Q w
    → Returns (λ _ u. Q u) (dispatch hs name node oper old w)
unfolding dispatch
dispatch-Keep Q name node oper old allowed [] w keep q = q
dispatch-Keep Q name node oper old allowed (h ∷ hs) w keep q =
    go (dispatch-Keep Q name node oper old allowed hs w keep.1 q) (str_eq h.name name)
  where
    go :
        Returns (λ _ u. Q u) (dispatch hs name node oper old w)
        → (b : Bool)
        → Returns
            (λ _ u. Q u)
            ((if b then h.run node oper old else dispatch hs name node oper old) w)
    go rest true = keep.0 node oper old allowed w q
    go rest false = rest

pub granting-OnlyHandlers : OnlyHandlers granting
granting-OnlyHandlers Q hs w keep q =
    dispatch-Keep Q (codes "enabled") leaf modified (some (codes "true")) tt hs w keep q

-- A kernel that tells of a port under any index.
abbrev pub telling : Ynl
telling = record obliging {
  on_getlink = λ _ req. ok (record (link up_alias) { ifi_index = req.ifi_index });
}

pub telling-Tells : Tells telling
unfolding islink_valid
telling-Tells w index = (
  record (link up_alias) { ifi_index = index },
  (refl, refl),
  refl,
  ((omega arith, omega arith), omega arith),
)

port_up-IsFit : IsFit (port up_alias)
unfolding fill
port_up-IsFit = (tt, tt, ((omega arith, omega arith), omega arith))

one-Stands : (h q : Ptr) (i : Iface) → Stands one h q i → port up_alias ≡ i
unfolding has
one-Stands h q i st =
    elim (Stands-after list_stroll list_stroll-IsLawful empty empty-IsStore 1 (port up_alias) refl
      (list_stroll.hash (port up_alias).idx) (list_stroll.hash_str eth0) none h q i st) [
        | inl (_, _, same) ↦ same
        | inr old ↦ absurd (empty_list old.0)
      ]

one-IsSound : IsSound list_stroll one
one-IsSound = (one-IsStore, λ h q i st. subst IsFit (one-Stands h q i st) port_up-IsFit)

-- Before the daemon starts, and while it runs with the subscriber 7.
abbrev pub before : World
before = record (memory (port up_alias)) {
  gate = record { sock = false; notif = false; joined = false; queue = [] };
}

pub before-Idle : Idle before
before-Idle = record { plugged = refl; watched = refl; sock = refl; joined = refl; notif = refl }

DumpsPublic : Result (List Link) → Type 0
DumpsPublic (ok links) = AllPublic links
DumpsPublic (err e) = Unit

-- Each dump tells of the port and of its copy without an alias.
pub obliging-Lists : Lists obliging
unfolding DumpsPublic
obliging-Lists calls req links e =
    subst DumpsPublic e
      (((omega arith, omega arith), omega arith), (((omega arith, omega arith), omega arith), tt))

nlifd_open-Ends_example :
    Ends
      (λ _ u. IsRunning list_stroll 7 u × (u.host.paths ≡ 0))
      (λ _ u. Idle u × SameHeap before u)
      (nlifd_open granting list_stroll obliging 7 (on_event list_stroll on_sub 9) before)
nlifd_open-Ends_example =
    nlifd_open-Ends list_stroll list_stroll-IsLawful granting obliging 7 9 on_sub before before-Idle
      obliging-Lists

abbrev running : World
running = record one {
  gate = record { sock = true; notif = true; joined = true; queue = [] };
  store = record one.store { subs = 7 ∷ [] };
  host = record { requests = []; paths = 0; if_mib = true; plugged = true; watched = true };
}

running-IsRunning : IsRunning list_stroll 7 running
running-IsRunning = record {
  plugged = refl;
  watched = refl;
  sock = refl;
  joined = refl;
  notif = refl;
  subs = refl;
  store =
      aside-IsStore list_stroll one one-IsStore running.gate running.store.subs one.calls
        running.host;
  kinds = λ h q j st. (one-IsSound.1 h q j st).1;
  public = λ h q j st. (one-IsSound.1 h q j st).2;
  queue = tt;
}

reload-Reloaded_example :
    Ends
      (λ _ u. Reloaded list_stroll obliging 9 OwnsKind running u)
      (λ e u. Emptied running u)
      (reload list_stroll obliging (on_event list_stroll on_sub 9) running)
reload-Reloaded_example =
    reload-Reloaded list_stroll running running-IsRunning.store running-IsRunning.kinds
      list_stroll-IsLawful obliging on_sub 9 OwnsKind refl

nlifd_close-Closed_example :
    Returns (λ _ u. Closed running u) (nlifd_close granting list_stroll obliging 7 running)
nlifd_close-Closed_example =
    nlifd_close-Closed list_stroll list_stroll-IsLawful granting obliging 7 9 on_sub running
      running-IsRunning

one-Shown : (h : Ptr) → has h one.store.ifaces ≡ true → Shown granting one h
unfolding has fill
one-Shown h e =
    let listed : has h (4 ∷ []) ≡ true =
      subst (λ l. has h l ≡ true) (list_stroll-IsLawful.dlist_nqueue_back-eq [] 4) e in
    (1, port up_alias, (ground arith, refl), (omega arith, omega arith), omega arith)

one-Readable : AllReadable granting one
unfolding has fill
one-Readable h e =
    let listed : has h (4 ∷ []) ≡ true =
      subst (λ l. has h l ≡ true) (list_stroll-IsLawful.dlist_nqueue_back-eq [] 4) e in
    (1, port up_alias, (ground arith, refl), (tt, tt))

reset_config_dstore-followed_example :
    reset_config_dstore granting one
    ≡ config_outcome granting (ifaces_at one.hndls one.mem one.store.ifaces) one
reset_config_dstore-followed_example = reset_config_dstore-followed granting one one-Readable

setup_oper_dstore-answered_example :
    setup_oper_dstore granting one
    ≡ done
        (answered granting (status_requests granting one) (switch_dstore ∷ [])).0
        (made granting (answered granting (status_requests granting one) (switch_dstore ∷ [])) one)
setup_oper_dstore-answered_example =
    setup_oper_dstore-answered granting (omega arith) (λ path. refl) one one-Shown

change_enabled-Changed_example :
    Returns
      (λ e u.
        (IsSound list_stroll u × SameHandles one u)
        × (((e ≡ sr_ok)
              × (q : Ptr) × (iface_from_node list_stroll leaf one ≡ done (some q) one)
              × ((j : Iface) × (u.mem q ≡ some j) × (admstate j ≡ false)))
            ⊎ (((e ≡ not_found)
                  × (iface_from_node list_stroll leaf one ≡ done none one)
                  × (u ≡ one))
                ⊎ ((c : ℕ) × (q : Ptr) × (iface_from_node list_stroll leaf one ≡ done (some q) one)
                    × (e ≡ iface_error c)
                    × (set_admstate list_stroll telling (on_event list_stroll on_sub 9) q false one
                        ≡ fail c u)))))
      (change_enabled granting list_stroll telling
        (on_event list_stroll on_sub 9)
        leaf
        modified
        (some (codes "true"))
        one)
unfolding changed_value
change_enabled-Changed_example =
    change_enabled-Changed list_stroll list_stroll-IsLawful telling telling-Tells on_sub 9 one
      one-IsSound granting leaf modified (some (codes "true")) false refl

process_changes-Ended_example :
    Returns
      (λ e u.
        (IsSound list_stroll u × SameHandles one u)
        × (AllSettled u u.store.ifaces
            ⊎ ((is_ok e ≡ false)
                × (granting.process_child_changes
                      (change_hndlrs granting list_stroll telling (on_event list_stroll on_sub 9))
                      one
                    ≡ done e u))))
      (process_changes granting list_stroll telling (on_event list_stroll on_sub 9) one)
process_changes-Ended_example =
    process_changes-Ended list_stroll list_stroll-IsLawful telling telling-Tells on_sub 9 granting
      granting-OnlyHandlers one one-IsSound

-- A kernel that has counters for any link.
abbrev counting : Ynl
counting = record obliging {
  on_getstats = λ _ _. ok (record {
    rx_bytes = 5;
    rx_dropped = 1;
    rx_errors = 0;
    tx_bytes = 7;
    tx_dropped = 0;
    tx_errors = 2;
  });
}

get_stats-Reported_example :
    Reported granting list_stroll counting leaf one
      (get_stats granting list_stroll counting leaf one)
get_stats-Reported_example = get_stats-Reported granting list_stroll counting leaf one one-IsStore
