-- ===== src/Sample/SetIface/Safe.antt =====
-- The whole of sample/set_iface.c.
use nlif.Prelude.{ℕ, ◌≡◌, refl, false, Option, none, List, [], ◌∷◌}
use nlif.Stroll.{Ptr, Stroll}
use nlif.Stroll.Laws.{IsLawful}
use nlif.Ynl.{Ynl}
use nlif.World.{World}
use nlif.World.Returns.{Returns}
use nlif.Sample.{exit}
use nlif.Sample.Args.{target}
use nlif.Sample.Outcome.{Answering}
use nlif.Sample.Restore.{Restored, Ended, unchanged, opened, with_target-Restored, with_gate-Ended}
use nlif.Sample.SetIface.{set_iface, set_args, set_main}
use nlif.Sample.SetIface.Tune.{set_iface-Done}

module _ (ffs : ℕ → ℕ) (flag_text : ℕ → Option (List ℕ)) (S : Stroll) (laws : IsLawful S) (Y : Ynl)
    (gate : Ptr) (answering : Answering ffs flag_text Y) where
  set_args-Restored :
      (args : List (List ℕ)) (w : World)
      → w.mem w.brk ≡ none
      → w.gate.notif ≡ false
      → Returns (Restored w) (set_args ffs flag_text S Y gate args w)
  unfolding set_args
  set_args-Restored [] w unused quiet = unchanged w (exit false [])
  set_args-Restored ([] ∷ []) w unused quiet = unchanged w (exit false [])
  set_args-Restored ((c ∷ arg) ∷ []) w unused quiet =
      with_target-Restored ffs flag_text S laws Y gate (set_iface ffs flag_text S Y)
        (λ p l v i showable at still a.
          set_iface-Done S laws Y p l ffs flag_text answering showable v i at still a)
        answering w unused quiet (target (c ∷ arg))
  set_args-Restored (_ ∷ _ ∷ _) w unused quiet = unchanged w (exit false [])

  -- For a lawful stroll, a kernel that tells of well-formed links alone, which can be printed with
  -- IFF_UP or without, and that still tells of a link whose change it refused, where the address
  -- that the allocator gives is unused and the gate's socket is not there: whatever its arguments,
  -- sample/set_iface.c ends without a fault, with its socket closed and its interface freed, the
  -- rest of the heap as before; and where it exits with EXIT_SUCCESS, it asked the kernel for no
  -- change.
  pub set_main-Ended :
      (args : List (List ℕ)) (w : World)
      → w.mem w.brk ≡ none
      → w.gate.sock ≡ false
      → Returns (Ended w) (set_main ffs flag_text S Y gate args w)
  unfolding set_main
  set_main-Ended args w unused closed =
      with_gate-Ended Y (set_args ffs flag_text S Y gate args) w closed
        (set_args-Restored args (opened w) unused refl)
