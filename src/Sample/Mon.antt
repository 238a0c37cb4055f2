-- ===== src/Sample/Mon.antt =====
-- sample/mon.c: the interfaces are printed, and then each one that changes, until the program is
-- killed. `sub` is where the program's subscriber of its store stands.
pub mod Heard
pub mod Round
pub mod Safe
use nlif.Prelude.{ℕ, zero, suc, Bool, true, Option, List, [], ◌∷◌}
use nlif.Stroll.{Ptr, Stroll}
use nlif.Ynl.{Ynl}
use nlif.World.{M, pure, raise, on_error, ◌>>=◌, ◌>>◌, gets, attempt}
use nlif.Gate.{notify_changes}
use nlif.Printing.{Line, iface_print}
use nlif.Store.{init, load, fini, enable_change_notif, disable_change_notif, subscribe_changes}
use nlif.Store.Events.{on_event, unheard}
use nlif.Sample.{printed}
use nlif.Sample.ShowIface.{show_each}
use nlif.Gate

-- `main` returned, with EXIT_SUCCESS being `true`, or it watches, having written lines.
pub data Watch : Type 0 where
  stopped : Bool → Watch
  watching : List Line → Watch

module _ (ffs : ℕ → ℕ) (flag_text : ℕ → Option (List ℕ)) (S : Stroll) (Y : Ynl) (gate : Ptr) where
  -- The subscriber `on_iface_change`, whose lines are left out; if it has to sync the interface, the
  -- store hears of the reload and tells nobody.
  unfoldable pub print_change : Ptr → ℕ → Ptr → M (Unit {0})
  unfolding iface_print
  print_change sub event iface = do
    _ ← printed ffs flag_text S Y (on_event S unheard gate) iface
    pure tt

  -- The rounds of the loop, each of which ignores what `nlif_gate_notify_changes` returns.
  unfoldable pub watch_round : M (Unit {0})
  unfolding print_change notify_changes
  watch_round = attempt (notify_changes Y (on_event S print_change gate)) pure (λ e. pure tt)

  unfoldable pub watch_rounds : ℕ → M (Unit {0})
  unfolding watch_round
  watch_rounds zero = pure tt
  watch_rounds (suc n) = do watch_round; watch_rounds n

  -- What comes before the interfaces are printed.
  unfoldable pub watch_load : M (Unit {0})
  unfolding enable_change_notif disable_change_notif load
  watch_load = do
    enable_change_notif S Y
    on_error (load S Y (on_event S unheard gate)) (λ e. do disable_change_notif S Y; raise e)

  module _ (sub : Ptr) where
    -- Where it fails, `ret` is not 0, and neither where there are arguments: EXIT_SUCCESS.
    unfoldable pub watch_store : M Watch
    unfolding watch_load show_each init fini subscribe_changes
    watch_store = do
      init S
      attempt watch_load
          (λ _. do
            hs ← gets (λ w. w.store.ifaces)
            lines ← show_each ffs flag_text S Y gate hs
            subscribe_changes S sub
            pure (watching lines))
          (λ e. do fini S; Gate.fini Y; pure (stopped true))

    unfoldable pub watch_args : List (List ℕ) → M Watch
    unfolding watch_store
    watch_args [] = watch_store
    watch_args (_ ∷ _) = do Gate.fini Y; pure (stopped true)

    unfoldable pub watch_main : List (List ℕ) → M Watch
    unfolding watch_args
    watch_main args = attempt (Gate.init Y) (λ _. watch_args args) (λ e. pure (stopped true))
