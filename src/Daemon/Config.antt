-- ===== src/Daemon/Config.antt =====
-- src/nlifd.c: the configuration. The handlers of changed leaves, what is applied and aborted, and
-- the data that the daemon starts from.
use nlif.Prelude.{ℕ, Bool, false, Option, none, some, List, [], ◌∷◌, if◌then◌else◌, codes, str_eq}
use nlif.Stroll.{Ptr, Stroll}
use nlif.Ynl.{Ynl}
use nlif.Iface.{Iface, CStr, null, held, freed}
use nlif.World.{
  container, key, default_nodes, leaf, free_tree, replace_config, M, fault, pure, ◌>>=◌, attempt,
  lift, gets, get_iface, read_str,
}
use nlif.Gate.{Event}
use nlif.Settings.{set_admstate}
use nlif.Apply.{apply}
use nlif.Tables.{hndl_iface}
use nlif.Srplug.{
  SrError, sr_ok, not_found, unsupported, is_ok, next_ok, ChangeOper, created, modified, deleted,
  moved, SrEvent, update, change, finished, abort, enabled, rpc, Node, Handler, Srplug, ask,
}
use nlif.Daemon.{iface_error, type_str, iface_from_node, coherent_type_str}

abbrev pub or_false : Option Bool → Bool
or_false none = false
or_false (some b) = b

-- What `nlifd_iface_change_enabled` sets.
unfoldable pub changed_value : Node → ChangeOper → Option Bool
changed_value node created = some node.as_bool
changed_value node modified = some node.as_bool
changed_value node deleted = some (or_false node.dflt_as_bool)
changed_value node moved = none

-- The data tree that `top` points to: built here, or freed by the call that took it.
pub data Tree : Type 0 where
  owned spent : Tree

module _ (P : Srplug) where
  -- A leaf whose string may be missing.
  abbrev pub alias_leaf : CStr → M SrError
  alias_leaf null = pure sr_ok
  alias_leaf (held s) = do str ← read_str (held s); ask P (leaf (codes "description") str)
  alias_leaf freed = do str ← read_str freed; ask P (leaf (codes "description") str)

  abbrev pub type_leaf : Option (List ℕ) → M SrError
  type_leaf none = pure unsupported
  type_leaf (some str) = ask P (leaf (codes "type") str)

  unfoldable pub new_entry : Iface → M SrError
  unfolding type_str read_str ask is_ok
  new_entry i = do
    e ← ask P (key i.name)
    next_ok e do
      e' ← ask P default_nodes
      next_ok e'
          do type ← type_str i.type i.kind; e'' ← type_leaf type; next_ok e'' (alias_leaf i.alias)

  unfoldable pub new_entries : List Ptr → M SrError
  unfolding new_entry hndl_iface get_iface is_ok
  new_entries [] = pure sr_ok
  new_entries (h ∷ hs) = do
    q ← hndl_iface h
    i ← get_iface q
    e ← new_entry i
    next_ok e (new_entries hs)

  -- `srepo_dat_free_tree` of `top`, behind the label `free`; freeing it again is a fault.
  unfoldable pub free_top : Tree → SrError → M SrError
  unfolding ask
  free_top owned e = do _ ← ask P free_tree; pure e
  free_top spent e = λ _. fault

  -- `srepo_replace_config` takes the tree and frees it, whatever it returns.
  unfoldable pub replace_top : M SrError
  unfolding ask is_ok free_top
  replace_top = do e ← ask P replace_config; if is_ok e then pure sr_ok else free_top spent e

  unfoldable pub reset_config_dstore : M SrError
  unfolding new_entries ask is_ok free_top replace_top
  reset_config_dstore = do
    e ← ask P container
    next_ok e do
      hs ← gets (λ w. w.store.ifaces)
      e' ← new_entries hs
      if is_ok e' then replace_top else free_top owned e'

  -- What `nlifd_iface_restore_enabled` sets, if anything.
  unfoldable pub parsed : Option (List ℕ) → M (Option Bool)
  parsed none = λ _. fault
  parsed (some old) = attempt (lift (P.parse_bool old)) (λ b. pure (some b)) (λ e. pure none)

  unfoldable pub restored_value : Node → ChangeOper → Option (List ℕ) → M (Option Bool)
  unfolding parsed
  restored_value node created old = pure (some (or_false node.dflt_as_bool))
  restored_value node modified old = parsed old
  restored_value node deleted old = parsed old
  restored_value node moved old = pure none

  module _ (S : Stroll) (Y : Ynl) (notif : Event → M (Unit {0})) where
    abbrev pub change_to : Ptr → Option Bool → M SrError
    change_to p none = pure unsupported
    change_to p (some val) =
        attempt (set_admstate S Y notif p val) (λ _. pure sr_ok) (λ e. pure (iface_error e))

    unfoldable pub change_enabled : Node → ChangeOper → Option (List ℕ) → M SrError
    unfolding iface_from_node changed_value set_admstate iface_error
    change_enabled node oper old = do
      found ← iface_from_node S node
      elim found [ none ↦ pure not_found | some p ↦ change_to p (changed_value node oper) ]

    -- No error comes back from restoring.
    abbrev pub restore_to : Ptr → Option Bool → M SrError
    restore_to p none = pure sr_ok
    restore_to p (some val) =
        attempt (set_admstate S Y notif p val) (λ _. pure sr_ok) (λ e. pure sr_ok)

    unfoldable pub restore_enabled : Node → ChangeOper → Option (List ℕ) → M SrError
    unfolding iface_from_node restored_value set_admstate
    restore_enabled node oper old = do
      found ← iface_from_node S node
      elim found [
        | none ↦ pure sr_ok
        | some p ↦ (do val ← restored_value node oper old; restore_to p val)
      ]

    -- The type of an interface is not changed: it is compared with the leaf.
    abbrev pub compare_type : Ptr → List ℕ → M SrError
    compare_type p val =
        attempt (coherent_type_str S Y notif p)
          (λ type. pure (if str_eq type val then sr_ok else unsupported))
          (λ e. pure (iface_error e))

    abbrev pub change_type_by : Node → Ptr → ChangeOper → M SrError
    change_type_by node p created = compare_type p node.as_str
    change_type_by node p modified = compare_type p node.as_str
    change_type_by node p deleted = pure sr_ok
    change_type_by node p moved = pure unsupported

    unfoldable pub change_type : Node → ChangeOper → Option (List ℕ) → M SrError
    unfolding iface_from_node coherent_type_str iface_error
    change_type node oper old = do
      found ← iface_from_node S node
      elim found [ none ↦ pure not_found | some p ↦ change_type_by node p oper ]

    unfoldable pub restore_type : Node → ChangeOper → Option (List ℕ) → M SrError
    restore_type node oper old = pure sr_ok

    abbrev pub change_hndlrs : List Handler
    change_hndlrs =
        record { name = codes "enabled"; run = change_enabled }
        ∷ record { name = codes "type"; run = change_type }
        ∷ []

    abbrev pub restore_hndlrs : List Handler
    restore_hndlrs =
        record { name = codes "enabled"; run = restore_enabled }
        ∷ record { name = codes "type"; run = restore_type }
        ∷ []

    -- The loop of `nlifd_iface_process_aborts`, which keeps the first error.
    unfoldable pub abort_each : SrError → List Ptr → M SrError
    unfolding hndl_iface apply iface_error is_ok
    abort_each ret [] = pure ret
    abort_each ret (h ∷ hs) = do
      q ← hndl_iface h
      ret' ←
          attempt (apply S Y notif q) (λ n. pure ret)
            λ e. pure (if is_ok ret then iface_error e else ret)
      abort_each ret' hs

    unfoldable pub process_aborts : M SrError
    unfolding abort_each
    process_aborts = do
      ret ← P.process_child_changes restore_hndlrs
      hs ← gets (λ w. w.store.ifaces)
      abort_each ret hs

    -- The loop of `nlifd_iface_process_changes`, which ends at the first error.
    unfoldable pub apply_each : List Ptr → M SrError
    unfolding hndl_iface apply process_aborts iface_error
    apply_each [] = pure sr_ok
    apply_each (h ∷ hs) = do
      q ← hndl_iface h
      attempt (apply S Y notif q) (λ n. apply_each hs)
          λ e. do _ ← process_aborts; pure (iface_error e)

    unfoldable pub process_changes : M SrError
    unfolding apply_each is_ok
    process_changes = do
      ret ← P.process_child_changes change_hndlrs
      hs ← gets (λ w. w.store.ifaces)
      next_ok ret (apply_each hs)

    -- `nlifd_on_iface_change`
    unfoldable pub on_change : SrEvent → M SrError
    unfolding process_changes process_aborts
    on_change enabled = process_changes
    on_change change = process_changes
    on_change finished = pure sr_ok
    on_change abort = process_aborts
    on_change update = λ _. fault
    on_change rpc = λ _. fault
