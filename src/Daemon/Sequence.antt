-- ===== src/Daemon/Sequence.antt =====
-- src/nlifd.c: how the daemon starts, loads its data, serves and stops.
use nlif.Prelude.{ℕ, Bool, true, false, not, List, ◌==◌, if◌then◌else◌, codes}
use nlif.Errno.{eperm, eshutdown}
use nlif.Stroll.{Ptr, Stroll}
use nlif.Ynl.{Ynl}
use nlif.World.{
  Request, load_data, acquire_context, release_context, probe_feature, change_subscribe,
  oper_subscribe, open_plug, close_plug, watch, unwatch, M, pure, raise, ◌>>=◌, ◌>>◌, attempt,
  on_error, lift, modify,
}
use nlif.Gate
use nlif.Gate.{Event}
use nlif.Store
use nlif.Srplug.{
  SrError, sr_ok, not_found, sys, is_ok, next_ok, Srplug, with_host, log_request, ask,
}
use nlif.Daemon.Oper.{setup_oper_dstore}
use nlif.Daemon.Config.{reset_config_dstore}

module _ (P : Srplug) where
  -- A call of srplug or upoll that returns an `int`.
  unfoldable pub call : Request → M (Unit {0})
  call r w = (lift (P.on_call w.host.requests r)) (log_request r w)

  abbrev pub set_plugged : Bool → M (Unit {0})
  set_plugged b = modify (with_host λ h. record h { plugged = b })

  abbrev pub set_watched : Bool → M (Unit {0})
  set_watched b = modify (with_host λ h. record h { watched = b })

  abbrev pub open_daemon : M (Unit {0})
  open_daemon = do call open_plug; set_plugged true

  abbrev pub close_daemon : M (Unit {0})
  close_daemon = do modify (log_request close_plug); set_plugged false

  abbrev pub register : M (Unit {0})
  register = do call watch; set_watched true

  abbrev pub unregister : M (Unit {0})
  unregister = do modify (log_request unwatch); set_watched false

  -- `nlifd_iface_dstore_empty`, which tells whether there are interfaces in the data store.
  abbrev pub dstore_found : SrError → M (SrError × Bool)
  dstore_found not_found = pure (sr_ok, true)
  dstore_found e = pure (e, false)

  unfoldable pub dstore_empty : M (SrError × Bool)
  unfolding ask
  dstore_empty = do e ← ask P load_data; dstore_found e

  -- `srplug_probe_feature` on a feature, which sets whether it is on.
  unfoldable pub probe : List ℕ → M SrError
  unfolding ask
  probe name = ask P (probe_feature name)

  unfoldable pub probe_if_mib : M SrError
  unfolding probe
  probe_if_mib = do
    modify (with_host λ h. record h { if_mib = P.feature_on (codes "if-mib") })
    probe (codes "if-mib")

  -- Any error of a step of `nlifd_load` that is tested for success alone.
  abbrev pub probed : M SrError → M SrError → M SrError
  probed m k = do e ← m; if is_ok e then k else pure not_found

  abbrev pub subscribed : Request → M SrError
  subscribed r = attempt (call r) (λ _. pure sr_ok) (λ e. pure sys)

  -- The steps of `nlifd_load` between the acquisition of the context and its release.
  unfoldable pub load_steps : M SrError
  unfolding probe probe_if_mib dstore_empty reset_config_dstore setup_oper_dstore call is_ok
  load_steps =
      if not (P.find_module (codes "iana-if-type"))
      then pure not_found
      else probed (probe (codes "arbitrary-names")) (
          probed (probe (codes "pre-provisioning")) (
            probed probe_if_mib (
              if not (P.find_module (codes "netlink-interfaces")) then pure not_found else do
                r ← dstore_empty
                next_ok r.0 do
                  e ← if r.1 then reset_config_dstore P else pure sr_ok
                  next_ok e do
                    e' ← subscribed change_subscribe
                    next_ok e'
                        do e'' ← setup_oper_dstore P; next_ok e'' (subscribed oper_subscribe))))

  -- Every failure of `nlifd_load` is reported as EPERM.
  unfoldable pub nlifd_load : M (Unit {0})
  unfolding load_steps ask is_ok
  nlifd_load = do
    e ← ask P acquire_context
    if is_ok e
        then (do
          e' ← load_steps
          modify (log_request release_context)
          if is_ok e' then pure tt else raise eperm)
        else raise eperm

  module _ (S : Stroll) (Y : Ynl) (sub : Ptr) where
    unfoldable pub enable_notif : M (Unit {0})
    unfolding call Store.subscribe_changes Store.enable_change_notif Store.disable_change_notif
        Store.unsubscribe_changes
    enable_notif = do
      Store.subscribe_changes S sub
      on_error
          (do
            Store.enable_change_notif S Y
            on_error register (λ e. do Store.disable_change_notif S Y; raise e))
          (λ e. do Store.unsubscribe_changes S sub; raise e)

    unfoldable pub disable_notif : M (Unit {0})
    unfolding Store.disable_change_notif Store.unsubscribe_changes
    disable_notif = do unregister; Store.disable_change_notif S Y; Store.unsubscribe_changes S sub

    -- `nlif_store_fini` and `nlif_gate_fini`
    abbrev pub fini_store : M (Unit {0})
    fini_store = do Store.fini S; Gate.fini Y

    module _ (notif : Event → M (Unit {0})) where
      unfoldable pub nlifd_open : M (Unit {0})
      unfolding call Gate.init Store.init enable_notif disable_notif Store.load Store.fini Gate.fini
      nlifd_open = do
        open_daemon
        on_error
            (do
              Gate.init Y
              Store.init S
              on_error
                  (do
                    enable_notif
                    on_error (Store.load S Y notif) (λ e. do disable_notif; raise e))
                  (λ e. do fini_store; raise e))
            (λ e. do close_daemon; raise e)

    unfoldable pub nlifd_close : M (Unit {0})
    unfolding disable_notif Store.fini Gate.fini
    nlifd_close = do disable_notif; fini_store; close_daemon

    -- `serve` is `srplug_daemon_poll`, which runs the callbacks until the daemon is stopped.
    unfoldable pub serving : M (Unit {0}) → M (Unit {0})
    serving serve = on_error serve (λ e. if e == eshutdown then pure tt else raise e)

    -- What follows the command line in `main`: whether the exit status is EXIT_SUCCESS.
    unfoldable pub run : (Event → M (Unit {0})) → M (Unit {0}) → M Bool
    unfolding nlifd_open nlifd_load serving nlifd_close
    run notif serve =
        attempt (nlifd_open notif)
          (λ _.
            attempt (do nlifd_load; serving serve) (λ _. do nlifd_close; pure true)
              (λ e. do nlifd_close; pure false))
          (λ e. pure false)
