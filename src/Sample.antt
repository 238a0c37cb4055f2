-- ===== src/Sample.antt =====
-- The sample programs, sample/: their arguments, and what they do with interfaces. The arguments
-- are those behind the program's name, and `gate` is where the program's gate stands; a program
-- that does not subscribe to it has no callback there.
pub mod Args
pub mod Flags
pub mod Mon
pub mod Outcome
pub mod Restore
pub mod SetIface
pub mod ShowIface
use nlif.Prelude.{ℕ, Bool, true, false, Option, List, []}
use nlif.Stroll.{Ptr, Stroll}
use nlif.Ynl.{Ynl}
use nlif.World.{M, fault, pure, ◌>>=◌, ◌>>◌, attempt}
use nlif.Gate.{Event}
use nlif.Lifecycle.{create_byidx, create_byname, destroy}
use nlif.Printing.{Line, iface_print}
use nlif.Sample.Args.{Target, by_index, by_name, invalid_index, invalid_name}
use nlif.Gate

-- What `main` returns, EXIT_SUCCESS being `true`, and what it wrote on its standard output.
pub record Exit : Type 0 where
  pub success : Bool
  pub lines : List Line

abbrev pub exit : Bool → List Line → Exit
exit success lines = record { success = success; lines = lines }

abbrev pub no_subscriber : Event → M (Unit {0})
no_subscriber event w = fault

module _ (ffs : ℕ → ℕ) (flag_text : ℕ → Option (List ℕ)) (S : Stroll) (Y : Ynl) where
  -- A call of `nlif_iface_print` whose result is not looked at.
  abbrev pub printed : (Event → M (Unit {0})) → Ptr → M (List Line)
  printed notif p = attempt (iface_print ffs flag_text S Y notif p) pure (λ e. pure [])

module _ (S : Stroll) (Y : Ynl) (gate : Ptr) where
  -- The interface that the argument names is created and used; where it names none, `ret` is
  -- still 0 at `fini_gate`.
  unfoldable pub with_target : (Ptr → M Exit) → Target → M Exit
  unfolding create_byidx create_byname
  with_target use_iface (by_index index) =
      attempt (create_byidx S Y index gate) use_iface (λ e. pure (exit false []))
  with_target use_iface (by_name name) =
      attempt (create_byname S Y name gate) use_iface (λ e. pure (exit false []))
  with_target use_iface invalid_index = pure (exit true [])
  with_target use_iface invalid_name = pure (exit true [])

module _ (Y : Ynl) where
  -- `nlif_gate_init` and, behind the label `fini_gate`, `nlif_gate_fini`.
  unfoldable pub with_gate : M Exit → M Exit
  unfolding Gate.init Gate.fini
  with_gate body =
      attempt (Gate.init Y) (λ _. do x ← body; Gate.fini Y; pure x) (λ e. pure (exit false []))
