-- ===== src/Daemon/Oper.antt =====
-- src/nlifd.c: what the daemon publishes of its interfaces, their status and their statistics.
use nlif.Prelude.{ℕ, none, some, List, [], ◌∷◌, if◌then◌else◌, codes, dec_str}
use nlif.Link.Print.{operstate_str, hwaddr_str}
use nlif.Stroll.{Ptr, Stroll}
use nlif.Ynl.{LinkStats, Ynl}
use nlif.Iface.{Iface, admstate}
use nlif.World.{
  edit, leaf, apply_changes, discard_changes, switch_dstore, M, pure, ◌>>=◌, ◌>>◌, attempt, gets,
  deref, get_iface,
}
use nlif.Gate.{Event, notify_changes}
use nlif.Lifecycle.{load_stats}
use nlif.Tables.{hndl_iface}
use nlif.Srplug.{SrError, sr_ok, not_found, is_ok, next_ok, Node, Srplug, new_path, free_path, ask}
use nlif.Daemon.{iface_error, concat_leaf_path, fill_path_name, iface_from_node, create_path}

module _ (P : Srplug) where
  unfoldable pub fill_admstate : List ℕ → Iface → M SrError
  unfolding concat_leaf_path admstate ask
  fill_admstate path i = do
    p ← concat_leaf_path P path (codes "/admin-status")
    ask P (edit p (if admstate i then codes "up" else codes "down"))

  unfoldable pub fill_operstate : List ℕ → Iface → M SrError
  unfolding concat_leaf_path operstate_str ask
  fill_operstate path i = do
    st ← deref (operstate_str i.opstat)
    p ← concat_leaf_path P path (codes "/oper-status")
    ask P (edit p st)

  unfoldable pub fill_index : List ℕ → Iface → M SrError
  unfolding concat_leaf_path dec_str ask
  fill_index path i = do
    p ← concat_leaf_path P path (codes "/if-index")
    ask P (edit p (dec_str i.idx))

  unfoldable pub fill_hwaddr : List ℕ → Iface → M SrError
  unfolding concat_leaf_path hwaddr_str ask
  fill_hwaddr path i = do
    p ← concat_leaf_path P path (codes "/phys-address")
    ask P (edit p (hwaddr_str i.hwadr))

  -- `if (nlifd_if_mib_feat.on)`
  abbrev pub if_mib : M SrError → M SrError
  if_mib m = do on ← gets (λ w. w.host.if_mib); if on then m else pure sr_ok

  unfoldable pub refresh_oper : List ℕ → Iface → M SrError
  unfolding fill_admstate fill_operstate is_ok
  refresh_oper path i = do e ← if_mib (fill_admstate path i); next_ok e (fill_operstate path i)

  -- The body of the loop of `nlifd_iface_setup_oper_dstore`.
  unfoldable pub setup_iface : Iface → M SrError
  unfolding fill_path_name refresh_oper fill_index fill_hwaddr is_ok iface_error
  setup_iface i =
      attempt (fill_path_name P i.name)
        (λ path. do
          e ← refresh_oper path i
          next_ok e do e' ← if_mib (fill_index path i); next_ok e' (fill_hwaddr path i))
        (λ e. pure (iface_error e))

  unfoldable pub setup_each : List Ptr → M SrError
  unfolding setup_iface hndl_iface get_iface is_ok
  setup_each [] = pure sr_ok
  setup_each (h ∷ hs) = do
    q ← hndl_iface h
    i ← get_iface q
    e ← setup_iface i
    next_ok e (setup_each hs)

  unfoldable pub setup_oper_dstore : M SrError
  unfolding setup_each free_path ask is_ok
  setup_oper_dstore = do
    _ ← ask P switch_dstore
    new_path
    hs ← gets (λ w. w.store.ifaces)
    e ← setup_each hs
    e' ← next_ok e (ask P apply_changes)
    free_path
    pure e'

  -- The leaves of the statistics in turn.
  unfoldable pub create_leaves : List (List ℕ × ℕ) → M SrError
  unfolding ask dec_str is_ok
  create_leaves [] = pure sr_ok
  create_leaves ((name, n) ∷ rest) = do
    e ← ask P (leaf name (dec_str n))
    next_ok e (create_leaves rest)

  abbrev pub stats_leaves : LinkStats → List (List ℕ × ℕ)
  stats_leaves stats =
      (codes "statistics/in-octets", stats.rx_bytes)
      ∷ (codes "statistics/in-discards", stats.rx_dropped)
      ∷ (codes "statistics/in-errors", stats.rx_errors)
      ∷ (codes "statistics/out-octets", stats.tx_bytes)
      ∷ (codes "statistics/out-discards", stats.tx_dropped)
      ∷ (codes "statistics/out-errors", stats.tx_errors)
      ∷ []

  module _ (S : Stroll) (Y : Ynl) where
    unfoldable pub get_stats : Node → M SrError
    unfolding iface_from_node load_stats create_leaves iface_error
    get_stats node = do
      found ← iface_from_node S node
      elim found [
        | none ↦ pure not_found
        | some p ↦
            attempt (load_stats S Y p) (λ stats. create_leaves (stats_leaves stats))
              (λ e. pure (iface_error e))
      ]

    module _ (notif : Event → M (Unit {0})) where
      -- Once the path of the interface is there.
      abbrev pub push_path : Ptr → List ℕ → M (Unit {0})
      push_path p path = do
        i ← get_iface p
        e ← refresh_oper path i
        e' ← next_ok e (ask P apply_changes)
        if is_ok e' then free_path else do _ ← ask P discard_changes; free_path

      -- The store's subscriber, which is called with the interface that changed.
      unfoldable pub push_oper : Ptr → ℕ → Ptr → M (Unit {0})
      unfolding create_path get_iface refresh_oper ask is_ok free_path
      push_oper subscriber event p =
          attempt (create_path S Y notif P p) (push_path p) (λ e. pure tt)

      unfoldable pub dispatch_notif : M (Unit {0})
      unfolding notify_changes
      dispatch_notif = notify_changes Y notif
