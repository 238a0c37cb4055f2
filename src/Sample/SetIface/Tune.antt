-- ===== src/Sample/SetIface/Tune.antt =====
-- The settings of sample/set_iface.c, and what becomes of the interface that they are made on.
use nlif.Prelude.{ℕ, ◌≡◌, refl, ◌∙◌, ap, false, Option, some, List, [], arith}
use nlif.Errno.{ok}
use nlif.Link.{Link, hwaddr_is_ucast, addr_eq}
use nlif.Link.Validate.{IsAlias}
use nlif.Stroll.{Ptr, Stroll}
use nlif.Stroll.Laws.{IsLawful}
use nlif.Ynl.{Ynl}
use nlif.Iface.{Iface, validate_hwaddr}
use nlif.World.{World, Run, M, done, fail, fault, and_then, either, pure, ◌>>◌}
use nlif.World.Returns.{
  Returns, Ends, Sets, Sets-refl, SameBut, SameBut-trans, Ends-mono, Returns-mono,
}
use nlif.Apply.Session.{Setting, mtu, admstate, Agrees, IsSetting, set, set_one, set-Agrees}
use nlif.Apply.Session
use nlif.Lifecycle.{destroy}
use nlif.Printing.Clean.{IsPrintable}
use nlif.Store.Release.{destroy_lem}
use nlif.Sample.{exit, no_subscriber}
use nlif.Sample.SetIface.{hwaddr, alias, tune, set_iface, apply_tuned}
use nlif.Sample.SetIface.Finish.{apply_tuned-Done}
use nlif.Sample.Outcome.{
  setlinks, Done, Done-after, SameBut-Like, IsShowable, Answering, destroyed-Done,
  Agrees-IsPrintable,
}

hwaddr-IsSetting : validate_hwaddr hwaddr ≡ ok tt
unfolding validate_hwaddr hwaddr_is_ucast addr_eq
hwaddr-IsSetting = refl

alias-IsAlias : IsAlias alias
alias-IsAlias = (omega arith, omega arith)

module _ (S : Stroll) (laws : IsLawful S) (Y : Ynl) (p : Ptr) (l : Link) where
  -- It agrees with the link whether a setting was refused or not.
  abbrev pub Tuned : World → Run (Unit {0}) → Type 0
  Tuned w r = Ends (λ _. Sets p w (Agrees S l)) (λ e. Sets p w (Agrees S l)) r

  Tuned-after : (w u : World) (r : Run (Unit {0})) → SameBut p w u → Tuned u r → Tuned w r
  Tuned-after w u r same h =
      Ends-mono _ _ _ _ r
        (λ _ v (j, here, good, same'). (j, here, good, SameBut-trans p w u v same same'))
        (λ e v (j, here, good, same'). (j, here, good, SameBut-trans p w u v same same')) h

  Tuned-then :
      (s : Setting) (k : M (Unit {0})) (w : World) (i : Iface)
      → w.mem p ≡ some i
      → IsSetting s
      → Agrees S l i
      → ((u : World) (j : Iface) → u.mem p ≡ some j → Agrees S l j → Tuned u (k u))
      → Tuned w ((set S Y no_subscriber p s >> k) w)
  Tuned-then s k w i at h a rest =
      go (set S Y no_subscriber p s w) (set-Agrees S Y no_subscriber p laws w i l at s h a)
    where
      go :
          (r : Run (Unit {0}))
          → Ends (λ _. Sets p w (Agrees S l)) (λ e u. u ≡ w) r
          → Tuned w (and_then r (λ _. k))
      go (done _ u) (j, here, good, same) = Tuned-after w u (k u) same (rest u j here good)
      go (fail e u) same = rw same (Sets-refl p w _ i at a)
      go fault h = elim h [ ]

  Tuned-set :
      (s : Setting) (w : World) (i : Iface)
      → w.mem p ≡ some i
      → IsSetting s
      → Agrees S l i
      → Tuned w (set S Y no_subscriber p s w)
  Tuned-set s w i at h a =
      Ends-mono _ _ _ _ (set S Y no_subscriber p s w) (λ _ u q. q)
        (λ e u same. rw same (Sets-refl p w _ i at a))
        (set-Agrees S Y no_subscriber p laws w i l at s h a)

  tune-Tuned : (w : World) (i : Iface) → w.mem p ≡ some i → Agrees S l i → Tuned w (tune S Y p w)
  unfolding tune set
  tune-Tuned w i at a =
      let (u, e, (j, here, good, same)) =
        set_one S Y no_subscriber p laws l (admstate false) w i at tt a in
      rw e (
        Tuned-after w u _ same (
          Tuned-then (mtu 1500) _ u j here tt good (λ v k at_k good_k.
            Tuned-then (Session.alias (some alias)) _ v k at_k alias-IsAlias good_k
              (λ v' k' at_k' good_k'.
                Tuned-set (Session.hwaddr hwaddr) v' k' at_k' hwaddr-IsSetting good_k'))))

  module _ (ffs : ℕ → ℕ) (flag_text : ℕ → Option (List ℕ)) (answering : Answering ffs flag_text Y)
      (showable : IsShowable ffs flag_text l) where
    pub set_iface-Done :
        (w : World) (i : Iface)
        → w.mem p ≡ some i
        → w.gate.notif ≡ false
        → Agrees S l i
        → Returns (Done p w) (set_iface ffs flag_text S Y p w)
    unfolding set_iface
    set_iface-Done w i at quiet a = go (tune S Y p w) (tune-Tuned w i at a)
      where
        go :
            (r : Run (Unit {0}))
            → Tuned w r
            → Returns (Done p w) (
                either r
                  (λ _. apply_tuned ffs flag_text S Y p)
                  (λ e. destroy p >> pure (exit false [])))
        go (done _ u) (j, here, good, same) =
            Returns-mono _ _ (apply_tuned ffs flag_text S Y p u)
              (λ x v d. Done-after p w u v x (SameBut-Like p w u same) (ap setlinks same.calls) d)
              (apply_tuned-Done ffs flag_text S laws Y p answering l showable u j here
                (ap (λ g. g.notif) same.gate ∙ quiet) good)
        go (fail e u) (j, here, good, same) =
            let h : IsPrintable ffs flag_text j =
              Agrees-IsPrintable ffs flag_text S laws l j showable good in
            rw (destroy_lem p u j here h.alias h.kind)
              (destroyed-Done p w u _ _ j refl (SameBut-Like p w u same) (λ f. cc))
        go fault h = elim h [ ]
