-- ===== src/Sample/ShowIface.antt =====
-- sample/show_iface.c: one interface is printed, or all of them.
pub mod Each
pub mod Safe
use nlif.Prelude.{ℕ, false, true, Option, List, [], ◌∷◌, ◌++◌}
use nlif.Stroll.{Ptr, Stroll}
use nlif.Ynl.{Ynl}
use nlif.World.{M, fault, pure, ◌>>=◌, ◌>>◌, gets, attempt}
use nlif.Lifecycle.{destroy}
use nlif.Printing.{Line, iface_print}
use nlif.Store.{init, load, fini}
use nlif.Store.Events.{on_event, unheard}
use nlif.Tables.{hndl_iface}
use nlif.Sample.{Exit, exit, no_subscriber, printed, with_target, with_gate}
use nlif.Sample.Args.{target}

module _ (ffs : ℕ → ℕ) (flag_text : ℕ → Option (List ℕ)) (S : Stroll) (Y : Ynl) where
  unfoldable pub show_iface : Ptr → M Exit
  unfolding iface_print destroy
  show_iface p = do
    lines ← printed ffs flag_text S Y no_subscriber p
    destroy p
    pure (exit true lines)

  module _ (gate : Ptr) where
    -- The loop of `nlif_store_foreach_iface`.
    unfoldable pub show_each : List Ptr → M (List Line)
    unfolding iface_print hndl_iface
    show_each [] = pure []
    show_each (h ∷ hs) = do
      q ← hndl_iface h
      lines ← printed ffs flag_text S Y (on_event S unheard gate) q
      rest ← show_each hs
      pure (lines ++ rest)

    unfoldable pub show_store : M Exit
    unfolding show_each init fini load
    show_store = do
      init S
      attempt (load S Y (on_event S unheard gate))
          (λ _. do
            hs ← gets (λ w. w.store.ifaces)
            lines ← show_each hs
            fini S
            pure (exit true lines))
          (λ e. pure (exit false []))

    abbrev pub show_named : List ℕ → M Exit
    show_named [] = pure (exit true [])
    show_named (c ∷ arg) = with_target S Y gate show_iface (target (c ∷ arg))

    -- `ret` is still 0 where there are too many arguments.
    unfoldable pub show_args : List (List ℕ) → M Exit
    unfolding show_store show_iface with_target target
    show_args (arg ∷ []) = show_named arg
    show_args [] = show_store
    show_args (_ ∷ _ ∷ _) = pure (exit true [])

    unfoldable pub show_main : List (List ℕ) → M Exit
    unfolding show_args with_gate
    show_main args = with_gate Y (show_args args)
