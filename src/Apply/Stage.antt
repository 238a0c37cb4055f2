-- ===== src/Apply/Stage.antt =====
-- A client's session, setting by setting: the interface shows the link that is asked for so far, and is
-- to be applied unless it is the one of the start (lib/iface.c).
use nlif.Prelude.{◌≡◌, refl, some, List, [], ◌∷◌}
use nlif.Link.{Link}
use nlif.Stroll.{Ptr, Stroll}
use nlif.Stroll.Laws.{IsLawful}
use nlif.Ynl.{Ynl}
use nlif.Iface.{Iface, group_fld, alias_fld, mtu_fld, hwadr_fld}
use nlif.World.{World, Run, M, done, fail, fault, pure, on_error}
use nlif.World.Returns.{
  Returns, Ends, Sets, Sets-refl, SameBut-trans, Ends-mono, Returns-Ends, Returns-mono,
}
use nlif.Gate.{Event}
use nlif.Settings.{set_group, set_mtu, set_alias, set_hwaddr, set_admstate}
use nlif.Settings.Names.{set_alias-Sets}
use nlif.Settings.State.{set_group-Sets, set_mtu-Sets, set_hwaddr-Sets, set_admstate-Sets}
use nlif.Apply.Session.{
  Setting, group, mtu, alias, hwaddr, admstate, IsSetting, AreSettings, Agrees, Changes-Coherent,
  admstate-Coherent, set, set_all,
}
use nlif.Apply.Wishes.{
  asked, asked_all, Shows, Kept, kept_on, group-Shows, hwaddr-Shows, up-Shows, mtu_taken,
  alias_taken, mtu_refused, alias_refused,
}

module _ (S : Stroll) where
  module _ (Y : Ynl) (notif : Event → M (Unit {0})) (p : Ptr) (laws : IsLawful S) (l0 : Link)
      (start : Iface) where
    -- What holds of the interface between settings, where `l` is asked for so far.
    abbrev pub Stage : Link → Iface → Type 0
    Stage l j = Agrees S l0 j × (Shows S l j × Kept S start j)

    pub set-Stage :
        (s : Setting) (l : Link) (w : World) (i : Iface)
        → w.mem p ≡ some i
        → IsSetting s
        → Stage l i
        → Ends
            (λ _. Sets p w (Stage (asked s l)))
            (λ _ u. (u ≡ w) × (asked s l ≡ l))
            (set S Y notif p s w)
    unfolding set
    set-Stage (group n) l w i at fits ((v, c), (shows, kept)) =
        Returns-Ends _ _ _ (set_group S Y notif p n w)
          (λ _ u (j, here, (good, is, ch), same). (
            j,
            here,
            (
              (good, Changes-Coherent S laws i j l0 group_fld ch c),
              (group-Shows S i j l shows n ch.1 is, kept_on S start i j ch.0 kept),
            ),
            same,
          ))
          (set_group-Sets S Y notif p w i at v n)
    set-Stage (mtu n) l w i at fits ((v, c), (shows, kept)) =
        Ends-mono _ _ _ _ (set_mtu S Y notif p n w)
          (λ _ u (j, here, (good, is, ch), same). (
            j,
            here,
            (
              (good, Changes-Coherent S laws i j l0 mtu_fld ch c),
              (mtu_taken S i j l shows n good ch.1 is, kept_on S start i j ch.0 kept),
            ),
            same,
          ))
          (λ e u (_, same, off). (same, mtu_refused S i l shows n off))
          (set_mtu-Sets S Y notif p w i at v n)
    set-Stage (alias a) l w i at fits ((v, c), (shows, kept)) =
        Ends-mono _ _ _ _ (set_alias S Y notif p a w)
          (λ _ u (j, here, (good, is, ch), same). (
            j,
            here,
            (
              (good, Changes-Coherent S laws i j l0 alias_fld ch c),
              (alias_taken S i j l shows a fits good ch.1 is, kept_on S start i j ch.0 kept),
            ),
            same,
          ))
          (λ e u (_, same, clash). (same, alias_refused S i l shows a clash))
          (set_alias-Sets S Y notif p w i at v a fits)
    set-Stage (hwaddr a) l w i at fits ((v, c), (shows, kept)) =
        Returns-Ends _ _ _ (set_hwaddr S Y notif p a w)
          (λ _ u (j, here, (good, is, ch), same). (
            j,
            here,
            (
              (good, Changes-Coherent S laws i j l0 hwadr_fld ch c),
              (hwaddr-Shows S i j l shows a ch.1 is, kept_on S start i j ch.0 kept),
            ),
            same,
          ))
          (set_hwaddr-Sets S Y notif p w i at v a fits)
    set-Stage (admstate up) l w i at fits ((v, c), (shows, kept)) =
        Returns-Ends _ _ _ (set_admstate S Y notif p up w)
          (λ _ u (j, here, (good, is, keep, lt, d, fr), same). (
            j,
            here,
            (
              (good, admstate-Coherent S laws i j l0 keep lt d fr c),
              (up-Shows S i j l shows up is keep lt fr, kept_on S start i j d kept),
            ),
            same,
          ))
          (set_admstate-Sets S Y notif p w i at v up c.width)

    -- One setting of a session, whether it is refused or not.
    one-Stage :
        (s : Setting) (l : Link) (w : World) (i : Iface)
        → w.mem p ≡ some i
        → IsSetting s
        → Stage l i
        → (u : World) × (on_error (set S Y notif p s) (λ e. pure tt) w ≡ done tt u)
          × Sets p w (Stage (asked s l)) u
    one-Stage s l w i at fits stage =
        go (set S Y notif p s w) refl (set-Stage s l w i at fits stage)
      where
        go :
            (r : Run (Unit {0}))
            → set S Y notif p s w ≡ r
            → Ends (λ _. Sets p w (Stage (asked s l))) (λ _ u. (u ≡ w) × (asked s l ≡ l)) r
            → (u : World) × (on_error (set S Y notif p s) (λ e. pure tt) w ≡ done tt u)
              × Sets p w (Stage (asked s l)) u
        go (done _ u) e q = (u, rw e, q)
        go (fail c u) e (same, nothing) =
            (u, rw e, rw (same, nothing) (Sets-refl p w (Stage l) i at stage))
        go fault e q = elim q [ ]

    pub set_all-Stage :
        (settings : List Setting) (l : Link) (w : World) (i : Iface)
        → w.mem p ≡ some i
        → AreSettings settings
        → Stage l i
        → Returns (λ _. Sets p w (Stage (asked_all settings l))) (set_all S Y notif p settings w)
    unfolding set_all
    set_all-Stage [] l w i at fits stage = Sets-refl p w _ i at stage
    set_all-Stage (s ∷ rest) l w i at fits stage =
        let (u, e, (j, here, good, same)) = one-Stage s l w i at fits.0 stage in
        rw e (
          Returns-mono _ _ (set_all S Y notif p rest u)
            (λ _ v (k, there, fine, same'). (k, there, fine, SameBut-trans p w u v same same'))
            (set_all-Stage rest (asked s l) u j here fits.1 good))
