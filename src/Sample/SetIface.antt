-- ===== src/Sample/SetIface.antt =====
-- sample/set_iface.c: an interface is brought down and given an MTU, an alias and an address.
pub mod Finish
pub mod Tune
pub mod Safe
pub mod Refused
use nlif.Prelude.{ℕ, Bool, false, Option, some, List, [], ◌∷◌, codes, ◌==◌}
use nlif.Link.{EtherAddr}
use nlif.Stroll.{Ptr, Stroll}
use nlif.Ynl.{Ynl}
use nlif.World.{M, pure, ◌>>=◌, ◌>>◌, on_error, attempt}
use nlif.Lifecycle.{destroy}
use nlif.Settings.{set_admstate, set_mtu, set_alias, set_hwaddr}
use nlif.Apply.{apply}
use nlif.Printing.{iface_print}
use nlif.Sample.{Exit, exit, no_subscriber, printed, with_target, with_gate}
use nlif.Sample.Args.{target}

-- 1a:42:41:59:a7:e0
abbrev pub hwaddr : EtherAddr
hwaddr = record {
  octet0 = 0x1a;
  octet1 = 0x42;
  octet2 = 0x41;
  octet3 = 0x59;
  octet4 = 0xa7;
  octet5 = 0xe0;
}

abbrev pub alias : List ℕ
alias = codes "atestalias"

module _ (S : Stroll) (Y : Ynl) where
  -- The settings, of which the first may be refused.
  unfoldable pub tune : Ptr → M (Unit {0})
  unfolding set_admstate set_mtu set_alias set_hwaddr
  tune p = do
    on_error (set_admstate S Y no_subscriber p false) (λ e. pure tt)
    set_mtu S Y no_subscriber p 1500
    set_alias S Y no_subscriber p (some alias)
    set_hwaddr S Y no_subscriber p hwaddr

module _ (ffs : ℕ → ℕ) (flag_text : ℕ → Option (List ℕ)) (S : Stroll) (Y : Ynl) where
  -- From `nlif_iface_print` on, `ret` being 0 or not.
  unfoldable pub finish : Bool → Ptr → M Exit
  unfolding iface_print destroy
  finish success p = do
    lines ← printed ffs flag_text S Y no_subscriber p
    destroy p
    pure (exit success lines)

  -- `ret` is what `nlif_iface_apply` returned: 1 where settings were applied.
  unfoldable pub apply_tuned : Ptr → M Exit
  unfolding finish apply
  apply_tuned p = attempt (apply S Y no_subscriber p) (λ n. finish (n == 0) p) (λ e. finish false p)

  unfoldable pub set_iface : Ptr → M Exit
  unfolding tune apply_tuned destroy
  set_iface p = attempt (tune S Y p) (λ _. apply_tuned p) (λ e. do destroy p; pure (exit false []))

  module _ (gate : Ptr) where
    abbrev pub set_named : List ℕ → M Exit
    set_named [] = pure (exit false [])
    set_named (c ∷ arg) = with_target S Y gate set_iface (target (c ∷ arg))

    -- `ret` is -EINVAL for another number of arguments, or an empty one.
    unfoldable pub set_args : List (List ℕ) → M Exit
    unfolding set_iface with_target target
    set_args (arg ∷ []) = set_named arg
    set_args [] = pure (exit false [])
    set_args (_ ∷ _ ∷ _) = pure (exit false [])

    unfoldable pub set_main : List (List ℕ) → M Exit
    unfolding set_args with_gate
    set_main args = with_gate Y (set_args args)
