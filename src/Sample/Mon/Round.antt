-- ===== src/Sample/Mon/Round.antt =====
-- The rounds of sample/mon.c: notifications are dispatched to the store, and the interfaces that
-- change are printed.
use nlif.Prelude.{
  ℕ, zero, suc, ◌<◌, length, ◌≡◌, inl, inr, refl, sym, subst, true, Option, List, [], ◌∷◌, ◌++◌,
  Bool-cases, ◌==◌, arith,
}
use nlif.Errno.{ok, Result-cases}
use nlif.Stroll.{Ptr, Stroll}
use nlif.Ynl.{Call, Ntf, Ynl, ntf_check}
use nlif.Iface.{Iface, refresh_state}
use nlif.World.{World, Run, M, done, fail, fault, and_then, either, pure}
use nlif.World.Returns.{Returns, Returns-mono}
use nlif.Gate.{
  Event, change, notify, islink_valid, rtm_newlink, notify_change, drain, notify_changes,
}
use nlif.Gate.Queue.{queued, drain-none, drain-some}
use nlif.Store.Entry.{aside-IsStore}
use nlif.Store.Events.{on_event}
use nlif.Printing.Clean.{IsPrintable}
use nlif.Sample.Mon.{print_change, watch_round, watch_rounds}
use nlif.Sample.Mon.Heard.{
  Stays, Stays-append, Notifying, IsWatched, StillWatched, StillWatched-trans, same-StillWatched,
  on_iface_change-StillWatched,
}

module _ (ffs : ℕ → ℕ) (flag_text : ℕ → Option (List ℕ)) (S : Stroll) (Y : Ynl) (gate sub : Ptr)
    (P : Iface → Type 0) (printable : (i : Iface) → P i → IsPrintable ffs flag_text i) where
  abbrev notif : Event → M (Unit {0})
  notif = on_event S (print_change ffs flag_text S Y gate) gate

  notify_on : (ev : Event) (w : World) → w.gate.notif ≡ true → notify notif ev w ≡ notif ev w
  unfolding notify
  notify_on ev w e = ground arith

  abbrev Next : World → Run (Unit {0}) → Type 0
  Next w r = Returns (λ _ u. StillWatched S P sub w.gate.queue w u) r

  notify_change-StillWatched :
      (ntf : Ntf) (w : World)
      → IsWatched S P sub w
      → ((i : Iface) → islink_valid ntf.obj ≡ ok tt → P i → P (refresh_state i ntf.obj).0)
      → Next w (notify_change Y notif ntf w)
  unfolding notify_change on_event
  notify_change-StillWatched ntf w v stays = elim (Bool-cases (ntf.cmd == rtm_newlink)) [
    | inr other ↦ rw other (same-StillWatched ffs flag_text S Y gate sub P printable w v)
    | inl link ↦ rw link (elim (Result-cases (islink_valid ntf.obj)) [
      | inr (e, bad) ↦ rw bad (same-StillWatched ffs flag_text S Y gate sub P printable w v)
      | inl (_, good) ↦ rw good (
          subst (Next w) (sym (notify_on (change ntf.obj) w v.notif)) (
            on_iface_change-StillWatched ffs flag_text S Y gate sub P printable w v ntf.obj
              (λ i. stays i good)))
    ])
  ]

  queued-IsWatched :
      (l : List Ntf) (calls : List Call) (w : World)
      → Stays P l
      → IsWatched S P sub w
      → IsWatched S P sub (queued l calls w)
  unfolding queued
  queued-IsWatched l calls w stays v = record {
    store = aside-IsStore S w v.store (record w.gate { queue = l }) w.store.subs calls w.host;
    all = λ h q j st. v.all h q j st;
    subs = v.subs;
    sock = v.sock;
    joined = v.joined;
    notif = v.notif;
    queue = stays;
  }

  drain-StillWatched :
      (n : ℕ) (ntfs : List Ntf) (w : World)
      → Stays P ntfs
      → IsWatched S P sub w
      → w.gate.queue ≡ ntfs
      → length ntfs < n
      → Returns (λ _ u. StillWatched S P sub [] w u) (drain Y notif n w)
  unfolding queued
  drain-StillWatched zero ntfs w stays v e fuel = absurd (omega (arith, fuel))
  drain-StillWatched (suc n) [] w stays v e fuel =
      rw (drain-none w Y notif n e)
        (record { watched = v; ifaces = refl; hndls = refl; host = refl; queued = e })
  drain-StillWatched (suc n) (ntf ∷ rest) w stays v e fuel =
      rw (drain-some w Y notif n ntf rest e) (
        go (notify_change Y notif ntf (queued rest w.calls w))
          (notify_change-StillWatched ntf (queued rest w.calls w)
            (queued-IsWatched rest w.calls w stays.1 v) stays.0)
          (λ u watched e'. drain-StillWatched n rest u stays.1 watched e' (omega (arith, fuel))))
    where
      go :
          (r : Run (Unit {0}))
          → Next (queued rest w.calls w) r
          → ((u : World)
              → IsWatched S P sub u
              → u.gate.queue ≡ rest
              → Returns (λ _ x. StillWatched S P sub [] u x) (drain Y notif n u))
          → Returns (λ _ x. StillWatched S P sub [] w x) (and_then r (λ _. drain Y notif n))
      go (done _ u) h ih =
          Returns-mono _ _ (drain Y notif n u)
            (λ _ x k.
              StillWatched-trans S P sub rest [] w u x
                (record {
                  watched = h.watched;
                  ifaces = h.ifaces;
                  hndls = h.hndls;
                  host = h.host;
                  queued = h.queued;
                })
                k)
            (ih u h.watched h.queued)
      go (fail c u) h ih = elim h [ ]
      go fault h ih = elim h [ ]

  module _ (notifying : Notifying P Y) where
    watch_round-StillWatched :
        (w : World)
        → IsWatched S P sub w
        → Returns (λ _ u. StillWatched S P sub [] w u) (watch_round ffs flag_text S Y gate w)
    unfolding watch_round notify_changes queued
    watch_round-StillWatched w v =
        go (drain Y notif (suc (length found)) (queued found (ntf_check ∷ w.calls) w)) (
          drain-StillWatched (suc (length found)) found (queued found (ntf_check ∷ w.calls) w) stays
            (queued-IsWatched found (ntf_check ∷ w.calls) w stays v) refl (omega arith))
      where
        found : List Ntf
        found = w.gate.queue ++ Y.on_ntf_check w.calls

        stays : Stays P found
        stays = Stays-append P w.gate.queue (Y.on_ntf_check w.calls) v.queue (notifying w.calls)

        go :
            (r : Run (Unit {0}))
            → Returns (λ _ u. StillWatched S P sub [] (queued found (ntf_check ∷ w.calls) w) u) r
            → Returns (λ _ u. StillWatched S P sub [] w u) (either r pure (λ e. pure tt))
        go (done _ u) h = record {
          watched = h.watched;
          ifaces = h.ifaces;
          hndls = h.hndls;
          host = h.host;
          queued = h.queued;
        }
        go (fail e u) h = elim h [ ]
        go fault h = elim h [ ]

    pub watch_rounds-StillWatched :
        (n : ℕ) (w : World)
        → IsWatched S P sub w
        → w.gate.queue ≡ []
        → Returns (λ _ u. StillWatched S P sub [] w u) (watch_rounds ffs flag_text S Y gate n w)
    unfolding watch_rounds
    watch_rounds-StillWatched zero w v e = record {
      watched = v;
      ifaces = refl;
      hndls = refl;
      host = refl;
      queued = e;
    }
    watch_rounds-StillWatched (suc n) w v e =
        go (watch_round ffs flag_text S Y gate w) (watch_round-StillWatched w v)
          (λ u. watch_rounds-StillWatched n u)
      where
        go :
            (r : Run (Unit {0}))
            → Returns (λ _ u. StillWatched S P sub [] w u) r
            → ((u : World)
                → IsWatched S P sub u
                → u.gate.queue ≡ []
                → Returns
                    (λ _ x. StillWatched S P sub [] u x)
                    (watch_rounds ffs flag_text S Y gate n u))
            → Returns
                (λ _ x. StillWatched S P sub [] w x)
                (and_then r (λ _. watch_rounds ffs flag_text S Y gate n))
        go (done _ u) h ih =
            Returns-mono _ _ (watch_rounds ffs flag_text S Y gate n u)
              (λ _ x k. StillWatched-trans S P sub [] [] w u x h k) (ih u h.watched h.queued)
        go (fail c u) h ih = elim h [ ]
        go fault h ih = elim h [ ]
