-- ===== src/Sample/Mon/Safe.antt =====
-- The whole of sample/mon.c: it gives back what it holds, or watches on and on.
use nlif.Prelude.{
  ℕ, ◌≡◌, refl, sym, subst, ap, ◌∙◌, inl, inr, true, false, Option, List, [], ◌∷◌, ◌++◌,
}
use nlif.Errno.{ok, Result-cases}
use nlif.Link.{Link}
use nlif.Stroll.{Ptr, Stroll}
use nlif.Stroll.Laws.{IsLawful}
use nlif.Ynl.{Ynl, dump, create, join}
use nlif.Iface.{Iface}
use nlif.World.{
  World, Run, M, done, fail, fault, either, or_else, raise, pure, gets, ◌>>=◌, ◌>>◌, log_call,
}
use nlif.World.Returns.{Returns, Ends}
use nlif.Gate.{links_req}
use nlif.Gate
use nlif.Store.{
  init, load, fini, reinit, release, release_each, enable_change_notif, disable_change_notif,
  subscribe_changes,
}
use nlif.Obsrv
use nlif.Store.Events.{on_event, unheard}
use nlif.Store.Entry.{IsStore, aside-IsStore}
use nlif.Store.Arrive.{AllOf, Keeps}
use nlif.Store.Init.{initial, initial-IsStore, initial-AllOf}
use nlif.Store.Load.{AllEntered, Entered-Keeps, Give, Loaded, load-Loaded}
use nlif.Printing.Clean.{IsPrintable}
use nlif.Sample.Restore.{opened}
use nlif.Sample.ShowIface.{show_each}
use nlif.Sample.ShowIface.Each.{show_each-lines}
use nlif.Sample.Mon.{
  Watch, stopped, watching, watch_load, watch_store, watch_args, watch_main, watch_rounds,
}
use nlif.Sample.Mon.Round.{watch_rounds-StillWatched}
use nlif.Sample.Mon.Heard.{Stays, Notifying, IsWatched, StillWatched}

-- The kernel's dumps hold links that give interfaces with the property.
abbrev pub Giving : Stroll → (Iface → Type 0) → Ptr → Ynl → Type 0
Giving S P gate Y =
    (w : World) (links : List Link) → Y.on_dump w.calls links_req ≡ ok links → Give S P gate links

-- The socket is closed, the heap is as before.
pub record Left (w u : World) : Type 0 where
  pub mem : u.mem ≡ w.mem
  pub hndls : u.hndls ≡ w.hndls
  pub host : u.host ≡ w.host
  pub sock : u.gate.sock ≡ false

module _ (ffs : ℕ → ℕ) (flag_text : ℕ → Option (List ℕ)) (S : Stroll) (laws : IsLawful S) (Y : Ynl)
    (gate sub : Ptr) (P : Iface → Type 0) where
  -- `main` returned EXIT_SUCCESS and left nothing, or any number of rounds ends, each with an empty
  -- queue and the interfaces that there were.
  abbrev pub Watches : World → Watch → World → Type 0
  Watches w (stopped success) u = (success ≡ true) × Left w u
  Watches w (watching lines) u =
      (links : List Link) × (Y.on_dump (join ∷ create ∷ w.calls) links_req ≡ ok links)
      × AllEntered u links
      × IsWatched S P sub u
      × ((n : ℕ)
          → Returns (λ _ v. StillWatched S P sub [] u v) (watch_rounds ffs flag_text S Y gate n u))

  AllEntered-Keeps :
      (w u : World) (links : List Link) → Keeps w u → AllEntered w links → AllEntered u links
  AllEntered-Keeps w u [] keeps all = tt
  AllEntered-Keeps w u (l ∷ links) keeps (inl bad, rest) =
      (inl bad, AllEntered-Keeps w u links keeps rest)
  AllEntered-Keeps w u (l ∷ links) keeps (inr there, rest) =
      (inr (Entered-Keeps w u l keeps there), AllEntered-Keeps w u links keeps rest)

  -- What follows a successful load, and what follows a failure.
  shown : M Watch
  shown = gets (λ w. w.store.ifaces) >>= λ hs. show_each ffs flag_text S Y gate hs >>= λ lines.
      subscribe_changes S sub >> pure (watching lines)

  undone : M Watch
  undone = fini S >> (Gate.fini Y >> pure (stopped true))

  undone-Left :
      (w u : World)
      → u.store.ifaces ≡ []
      → u.mem ≡ w.mem
      → u.hndls ≡ w.hndls
      → u.host ≡ w.host
      → Returns (Watches w) (undone u)
  unfolding undone fini release release_each Gate.unsubscribe Gate.fini
  undone-Left w u none_yet m h k =
      rw none_yet (refl, record { mem = m; hndls = h; host = k; sock = refl })

  module _ (printable : (i : Iface) → P i → IsPrintable ffs flag_text i)
      (giving : Giving S P gate Y) (notifying : Notifying P Y) where
    shown-Watches :
        (w u : World) (links : List Link)
        → Y.on_dump (join ∷ create ∷ w.calls) links_req ≡ ok links
        → AllEntered u links
        → IsStore S u
        → AllOf P u
        → u.store.subs ≡ []
        → u.gate.sock ≡ true
        → u.gate.joined ≡ true
        → u.gate.notif ≡ true
        → u.gate.queue ≡ []
        → Returns (Watches w) (shown u)
    unfolding shown subscribe_changes Obsrv.subscribe
    shown-Watches w u links told entered good all none_yet sock joined notif empty =
        let (lines, run) = show_each-lines ffs flag_text S Y gate u.store.ifaces u (λ h e.
          let (q, i, at, _) = good.live h e in
          (q, i, at, printable i (all h q i (e, at.0, at.1)))) in
        rw run (
          links,
          told,
          AllEntered-Keeps u subscribed links (λ h q j st. st) entered,
          v,
          λ n.
              watch_rounds-StillWatched ffs flag_text S Y gate sub P printable notifying n
                subscribed v empty,
        )
      where
        subscribed : World
        subscribed = record u {
          store = record u.store { subs = S.dlist_nqueue_back u.store.subs sub };
        }

        v : IsWatched S P sub subscribed
        v = record {
          store =
              aside-IsStore S u good u.gate (S.dlist_nqueue_back u.store.subs sub) u.calls u.host;
          all = λ h q j st. all h q j st;
          subs = laws.dlist_nqueue_back-eq u.store.subs sub ∙ ap (λ l. l ++ sub ∷ []) none_yet;
          sock = sock;
          joined = joined;
          notif = notif;
          queue = subst (Stays P) (sym empty) tt;
        }

    -- Once the store is set up on the open gate, and once the gate has joined.
    abbrev begun : World → World
    begun w = initial (opened w)

    abbrev joining : World → World
    joining w = record (begun w) {
      calls = join ∷ (begun w).calls;
      gate = record (begun w).gate { joined = true };
    }

    -- What the end of `watch_load` leads to.
    abbrev ending : Run (Unit {0}) → Run Watch
    ending r = either r (λ _. shown) (λ e. undone)

    loaded-Watches :
        (w : World)
        → Returns (Watches w) (
            ending (
              or_else
                (load S Y (on_event S unheard gate) (joining w))
                (λ e. do disable_change_notif S Y; raise e)))
    unfolding disable_change_notif Gate.unsubscribe
    loaded-Watches w = go (load S Y (on_event S unheard gate) (joining w)) (
        load-Loaded S laws Y unheard gate P (joining w)
          (aside-IsStore S (begun w) (initial-IsStore S (opened w)) (joining w).gate []
            (joining w).calls w.host)
          refl)
      where
        go :
            (r : Run (Unit {0}))
            → Ends
                (λ _ u.
                  (links : List Link) × (Y.on_dump (joining w).calls links_req ≡ ok links)
                  × Loaded S P gate links (log_call (dump links_req) (joining w)) u)
                (λ e u. u ≡ log_call (dump links_req) (joining w))
                r
            → Returns (Watches w) (ending (or_else r (λ e. do disable_change_notif S Y; raise e)))
        go (done _ u) (links, e, r) =
            shown-Watches w u links e r.entered r.store
              (r.all (giving (joining w) links e) (initial-AllOf P (opened w))) r.apart.subs
              (ap (λ g. g.sock) r.apart.gate) (ap (λ g. g.joined) r.apart.gate)
              (ap (λ g. g.notif) r.apart.gate) (ap (λ g. g.queue) r.apart.gate)
        go (fail e u) same =
            subst
              (λ x.
                Returns (Watches w)
                  (ending (or_else (fail e x) (λ e. do disable_change_notif S Y; raise e))))
              (sym same) (undone-Left w _ refl refl refl refl)
        go fault h = elim h [ ]

    watch_store-Watches :
        (w : World) → Returns (Watches w) (watch_store ffs flag_text S Y gate sub (opened w))
    unfolding watch_store watch_load shown undone init reinit Gate.subscribe enable_change_notif
        Gate.enable_change_notif
    watch_store-Watches w = elim (Result-cases (Y.on_join (begun w).calls)) [
      | inl (_, e) ↦ rw e (loaded-Watches w)
      | inr (code, e) ↦ rw e (undone-Left w _ refl refl refl refl)
    ]

    watch_args-Watches :
        (args : List (List ℕ)) (w : World)
        → Returns (Watches w) (watch_args ffs flag_text S Y gate sub args (opened w))
    unfolding watch_args Gate.fini
    watch_args-Watches [] w = watch_store-Watches w
    watch_args-Watches (_ ∷ _) w =
        (refl, record { mem = refl; hndls = refl; host = refl; sock = refl })

    -- For a lawful stroll, a property that lets an interface be printed, which the links of the
    -- kernel's dumps give and its notifications keep, and a gate's socket that is not there:
    -- whatever its arguments, sample/mon.c either returns EXIT_SUCCESS, with its socket closed and
    -- the heap as before, or comes to its loop, with a well-formed store that it alone subscribes
    -- to and into which each valid link of the dump was entered; and then any number of rounds of
    -- the loop ends without a fault, with no notification left in the queue and the same interfaces
    -- in a store that is still so.
    pub watch_main-Watches :
        (args : List (List ℕ)) (w : World)
        → w.gate.sock ≡ false
        → Returns (Watches w) (watch_main ffs flag_text S Y gate sub args w)
    unfolding watch_main Gate.init
    watch_main-Watches args w closed = elim (Result-cases (Y.on_create w.calls)) [
      | inl (_, e) ↦ rw e (watch_args-Watches args w)
      | inr (code, e) ↦ rw e (refl, record { mem = refl; hndls = refl; host = refl; sock = closed })
    ]
