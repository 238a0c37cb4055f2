-- ===== src/Sample/SetIface/Finish.antt =====
-- The end of sample/set_iface.c: the settings are applied, the interface is printed and destroyed.
use nlif.Prelude.{
  ℕ, ◌≡◌, ◌≢◌, refl, sym, ◌∙◌, inl, inr, Bool, true, false, Option, some, List, ==_refl, arith,
}
use nlif.Errno.{ok, err, Result-cases}
use nlif.Link.{Link}
use nlif.Stroll.{Ptr, Stroll}
use nlif.Stroll.Laws.{IsLawful}
use nlif.Ynl.{Ynl}
use nlif.Iface.{Iface, fill, dirty, invalid}
use nlif.Iface.Valid.{Owns, Owns-weaken}
use nlif.Link.Validate.{IsAlias}
use nlif.World.{on_error, World, done, write_iface}
use nlif.World.Returns.{Returns, Returns-mono}
use nlif.Gate.{notify, modified, reload}
use nlif.Lifecycle.{sync, invalidate}
use nlif.Lifecycle.Reload.{finished, loading, sync-loaded}
use nlif.Settings.State.{sync_state}
use nlif.Apply.{settle}
use nlif.Apply.Request.{request_of}
use nlif.Apply.Session.{Agrees}
use nlif.Apply.Outcome.{sent, apply-clean, apply-accepted, apply-rejected}
use nlif.Apply.Outcome.{State-cases}
use nlif.Store.Release.{destroy_lem}
use nlif.Printing.Clean.{IsPrintable, iface_print-synced}
use nlif.Sample.{no_subscriber}
use nlif.Sample.SetIface.{finish, apply_tuned}
use nlif.Sample.Outcome.{
  setlinks, Like, Like-trans, Like-refl, Like-write, Done, IsShowable, Answering,
  Agrees-IsPrintable, filled-IsPrintable, destroyed, destroyed-Done,
}

module _ (ffs : ℕ → ℕ) (flag_text : ℕ → Option (List ℕ)) (S : Stroll) (laws : IsLawful S) (Y : Ynl)
    (p : Ptr) where
  finish-destroyed :
      (success : Bool) (w v : World) (i : Iface)
      → sync S Y no_subscriber p w ≡ done tt v
      → v.mem p ≡ some i
      → IsPrintable ffs flag_text i
      → Returns
          (λ x u. (x.success ≡ success) × (u ≡ destroyed p i v))
          (finish ffs flag_text S Y success p w)
  unfolding finish
  finish-destroyed success w v i ran at h =
      let (lines, print) = iface_print-synced ffs flag_text S Y no_subscriber p w v i ran at h in
      rw print (rw (destroy_lem p v i at h.alias h.kind) (refl, refl))

  not_told : (v : World) → v.gate.notif ≡ false → notify no_subscriber (modified p) v ≡ done tt v
  unfolding notify
  not_told v quiet = rw quiet

  unheard :
      (v : World)
      → v.gate.notif ≡ false
      → on_error (notify no_subscriber (reload p)) (invalidate S Y no_subscriber p) v ≡ done tt v
  unfolding notify
  unheard v quiet = rw quiet refl

  -- From `nlif_iface_print` on, where `nlif_iface_sync` leads to `v`.
  pub finish-Done :
      (success : Bool) (w u v : World) (i : Iface)
      → sync S Y no_subscriber p u ≡ done tt v
      → v.mem p ≡ some i
      → IsPrintable ffs flag_text i
      → Like p w v
      → (success ≡ true → setlinks v.calls ≡ setlinks w.calls)
      → Returns (Done p w) (finish ffs flag_text S Y success p u)
  finish-Done success w u v i ran at h like unsent =
      Returns-mono _ _ (finish ffs flag_text S Y success p u)
        (λ x u' (same, e). destroyed-Done p w v u' x i e like (λ s. unsent (sym same ∙ s)))
        (finish-destroyed success u v i ran at h)

  module _ (answering : Answering ffs flag_text Y) (l : Link)
      (showable : IsShowable ffs flag_text l) (w : World) (i : Iface) (at : w.mem p ≡ some i)
      (quiet : w.gate.notif ≡ false) (agrees : Agrees S l i) where
    own : Owns (λ _. Unit) i.alias
    own = Owns-weaken IsAlias i.alias agrees.0.alias

    own_kind : Owns (λ _. Unit) i.kind
    own_kind = Owns-weaken _ i.kind agrees.0.kind

    printable : IsPrintable ffs flag_text i
    printable = Agrees-IsPrintable ffs flag_text S laws l i showable agrees

    clean-Done : i.state ≢ dirty → Returns (Done p w) (apply_tuned ffs flag_text S Y p w)
    unfolding apply_tuned
    clean-Done n = rw (apply-clean S Y no_subscriber p w i at n) (
        finish-Done true w w w i (sync_state S Y no_subscriber p w i at i.state refl agrees.0.state)
          at printable (Like-refl p w) (λ _. refl))

    accepted-Done :
        i.state ≡ dirty
        → Y.on_setlink w.calls (request_of S i) ≡ ok tt
        → Returns (Done p w) (apply_tuned ffs flag_text S Y p w)
    unfolding apply_tuned
    accepted-Done is_dirty e =
        rw
          (apply-accepted S Y no_subscriber p w i at is_dirty own e (sent S w i) i at
            (not_told (sent S w i) quiet))
          (finish-Done false w after after (settle S i)
            (sync_state S Y no_subscriber p after (settle S i) here (settle S i).state refl tt) here
            settled (Like-write p w (some (settle S i)) after.calls) (λ f. cc))
      where
        settled : IsPrintable ffs flag_text (settle S i)
        settled = record {
          state = tt;
          legible = printable.legible;
          alias = printable.alias;
          kind = printable.kind;
        }

        after : World
        after = write_iface p (some (settle S i)) (sent S w i)

        here : after.mem p ≡ some (settle S i)
        here = ground (arith, ==_refl p)

    rejected-Done :
        i.state ≡ dirty
        → (code : ℕ) → Y.on_setlink w.calls (request_of S i) ≡ err code
        → Returns (Done p w) (apply_tuned ffs flag_text S Y p w)
    unfolding apply_tuned
    rejected-Done is_dirty code e =
        let (m, answer, valid) = answering.again w.calls (request_of S i) code e in
        rw (apply-rejected S Y no_subscriber p w i at is_dirty own code e) (
          finish-Done false w after (again m) (fill S m (finished bad))
            (sync-loaded S Y no_subscriber p after bad here refl own own_kind m (answer, valid)
              ∙ unheard (again m) quiet)
            (ground (arith, ==_refl p))
            (filled-IsPrintable ffs flag_text S laws m (finished bad)
              (answering.showable _ _ m answer) valid)
            (Like-trans p w after (again m) (Like-write p w (some bad) after.calls) (
              Like-trans p after (loading S Y no_subscriber p after bad here refl own own_kind)
                (again m) (Like-write p after (some (finished bad)) (again m).calls)
                (Like-write p (loading S Y no_subscriber p after bad here refl own own_kind)
                  (some (fill S m (finished bad))) (again m).calls)))
            (λ f. cc))
      where
        bad : Iface
        bad = record i { state = invalid }

        after : World
        after = write_iface p (some bad) (sent S w i)

        here : after.mem p ≡ some bad
        here = ground (arith, ==_refl p)

        again : Link → World
        again m =
            write_iface p (some (fill S m (finished bad)))
              (loading S Y no_subscriber p after bad here refl own own_kind)

    pub apply_tuned-Done : Returns (Done p w) (apply_tuned ffs flag_text S Y p w)
    apply_tuned-Done = elim (State-cases i.state) [
      | inr other ↦ clean-Done other
      | inl is_dirty ↦ elim (Result-cases (Y.on_setlink w.calls (request_of S i))) [
        | inl (_, e) ↦ accepted-Done is_dirty e
        | inr (code, e) ↦ rejected-Done is_dirty code e
      ]
    ]
