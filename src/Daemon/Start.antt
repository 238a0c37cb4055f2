-- ===== src/Daemon/Start.antt =====
-- `nlifd_open`: what the daemon holds once it runs, and that it gives all back if it cannot start.
use nlif.Prelude.{
  ℕ, ◌≡◌, inl, inr, refl, sym, ap, subst, ◌∙◌, true, false, List, [], ◌∷◌, ◌++◌, has,
}
use nlif.Errno.{ok, Result-cases}
use nlif.Link.{Link}
use nlif.Stroll.{Ptr, Stroll}
use nlif.Stroll.Laws.{IsLawful}
use nlif.Ynl.{Ynl, dump, create, join, destroy}
use nlif.World.{
  World, Store, Run, M, done, fail, fault, and_then, or_else, raise, on_error, ◌>>◌, log_call,
  open_plug, watch,
}
use nlif.World.Returns.{Ends, Ends-mono}
use nlif.Gate
use nlif.Gate.{links_req, ynl_err}
use nlif.Store
use nlif.Store.{emptied}
use nlif.Store.Entry.{IsStore, aside-IsStore}
use nlif.Store.Events.{on_event}
use nlif.Store.Arrive.{AllOf, clone_attr-Owns}
use nlif.Iface.{Iface}
use nlif.Store.Init.{initial, initial-IsStore, initial-AllOf}
use nlif.Store.Load.{Loaded, Give, load-Loaded}
use nlif.Obsrv
use nlif.Obsrv.Order.{unsubscribe-subscribe}
use nlif.Srplug.{Srplug}
use nlif.Daemon.Sequence.{call, close_daemon, enable_notif, disable_notif, fini_store, nlifd_open}
use nlif.Daemon.State.{Idle, Known, IsRunning, SameHeap, IsLasting, AllPublic, Lists}

module _ (S : Stroll) (laws : IsLawful S) (P : Srplug) (Y : Ynl) (sub gate : Ptr)
    (on_sub : Ptr → ℕ → Ptr → M (Unit {0})) where
  -- Once srplug is open, once the gate is and the store is set up, and once it is polled.
  abbrev plugged : World → World
  plugged w = record w {
    host = record w.host { requests = open_plug ∷ w.host.requests; plugged = true };
  }

  abbrev connected : World → World
  connected w = record w {
    calls = create ∷ w.calls;
    gate = record { sock = true; notif = false; joined = false; queue = [] };
  }

  abbrev opened : World → World
  opened w = initial (connected w)

  abbrev joining : World → World
  joining w = record w {
    calls = join ∷ w.calls;
    store = record w.store { subs = S.dlist_nqueue_back w.store.subs sub };
  }

  abbrev watching : World → World
  watching w = record (joining w) {
    gate = record w.gate { joined = true };
    host = record w.host { requests = watch ∷ w.host.requests; watched = true };
  }

  -- What a notification worker that could not be enabled leaves.
  abbrev Undone : World → World → Type 0
  Undone w u =
      (u.mem ≡ w.mem)
      × (u.hndls ≡ w.hndls)
      × (u.store ≡ w.store)
      × (u.host.plugged ≡ w.host.plugged)
      × (u.host.watched ≡ w.host.watched)
      × (u.host.paths ≡ w.host.paths)

  with_subs : Store → List Ptr → Store
  with_subs s l = record s { subs = l }

  resubscribed :
      (s : Store)
      → s.subs ≡ []
      → with_subs s (S.dlist_remove sub (S.dlist_nqueue_back s.subs sub)) ≡ s
  unfolding with_subs Obsrv.subscribe Obsrv.unsubscribe has
  resubscribed s e = ap (with_subs s) (
      subst (λ l. S.dlist_remove sub (S.dlist_nqueue_back l sub) ≡ l) (sym e)
        (unsubscribe-subscribe S laws [] sub tt refl))

  enabled :
      (w : World)
      → w.store.subs ≡ []
      → Ends (λ _ u. u ≡ watching w) (λ e u. Undone w u) (enable_notif P S Y sub w)
  unfolding enable_notif call Store.subscribe_changes Store.enable_change_notif
      Store.disable_change_notif Store.unsubscribe_changes Gate.enable_change_notif Gate.unsubscribe
      Obsrv.subscribe Obsrv.unsubscribe with_subs
  enabled w empty = elim (Result-cases (Y.on_join w.calls)) [
    | inr (e, refused) ↦ rw refused (refl, refl, resubscribed w.store empty, refl, refl, refl)
    | inl (_, fine) ↦ rw fine (elim (Result-cases (P.on_call w.host.requests watch)) [
      | inr (e, refused) ↦ rw refused (refl, refl, resubscribed w.store empty, refl, refl, refl)
      | inl (_, fine') ↦ rw fine' refl
    ])
  ]

  -- What `nlif_store_fini` and `nlif_gate_fini` make of a store without interfaces.
  abbrev finished : World → World
  finished u = record u {
    calls = destroy ∷ u.calls;
    gate = record { sock = false; notif = false; joined = false; queue = [] };
  }

  fini_empty : (u : World) → u.store.ifaces ≡ [] → fini_store P S Y sub u ≡ done tt (finished u)
  unfolding Store.fini Store.release Store.release_each Gate.unsubscribe Gate.fini
  fini_empty u e = rw e refl

  -- What an attempt to start leaves before the plug-in is closed.
  abbrev Unwound : World → World → Type 0
  Unwound w u =
      (u.mem ≡ w.mem)
      × (u.hndls ≡ w.hndls)
      × (u.store ≡ w.store)
      × (u.host.watched ≡ w.host.watched)
      × (u.host.paths ≡ w.host.paths)
      × (u.gate.sock ≡ false)
      × (u.gate.notif ≡ false)
      × (u.gate.joined ≡ false)

  abbrev undo_store : ℕ → M (Unit {0})
  undo_store e = do fini_store P S Y sub; raise e

  abbrev undo_notif : ℕ → M (Unit {0})
  undo_notif e = do disable_notif P S Y sub; raise e

  undo_store-Unwound :
      (w u : World) (e : ℕ)
      → w.store.ifaces ≡ []
      → Undone w u
      → Ends (λ _ _. ⊥) (λ _ x. Unwound w x) (undo_store e u)
  undo_store-Unwound w u e empty (m, h, s, _, watched, paths) =
      rw (fini_empty u (ap (λ t. t.ifaces) s ∙ empty)) (m, h, s, watched, paths, refl, refl, refl)

  abbrev loading : M (Unit {0})
  loading = on_error (Store.load S Y (on_event S on_sub gate)) undo_notif

  -- Once the store is set up: the worker is enabled, and the links are loaded.
  abbrev starting : M (Unit {0})
  starting = on_error (do enable_notif P S Y sub; loading) undo_store

  links-IsLasting : (links : List Link) → AllPublic links → Give S IsLasting gate links
  unfolding nlif.Iface.fill
  links-IsLasting [] h = tt
  links-IsLasting (l ∷ links) (public, rest) =
      (λ valid. (clone_attr-Owns l.linkinfo, public), links-IsLasting links rest)

  module _ (w : World) (v : IsStore S w) (all : AllOf IsLasting w) (empty : w.store.subs ≡ [])
      (plugged_in : w.host.plugged ≡ true) (sock : w.gate.sock ≡ true) (notif : w.gate.notif ≡ true)
      (idle : w.host.watched ≡ false) (known : Known w.gate.queue) (listing : Lists Y) where
    loading-Ends :
        Ends
          (λ _ u. IsRunning S sub u × (u.host.paths ≡ w.host.paths))
          (λ _ u. Undone w u)
          (loading (watching w))
    unfolding disable_notif Store.disable_change_notif Store.unsubscribe_changes Gate.unsubscribe
        Obsrv.unsubscribe with_subs
    loading-Ends = go (Store.load S Y (on_event S on_sub gate) (watching w)) (
        load-Loaded S laws Y on_sub gate IsLasting (watching w)
          (aside-IsStore S w v (watching w).gate (watching w).store.subs (watching w).calls
            (watching w).host)
          notif)
      where
        go :
            (r : Run (Unit {0}))
            → Ends
                (λ _ u.
                  (links : List Link) × (Y.on_dump (watching w).calls links_req ≡ ok links)
                  × Loaded S IsLasting gate links (log_call (dump links_req) (watching w)) u)
                (λ e u. u ≡ log_call (dump links_req) (watching w))
                r
            → Ends
                (λ _ u. IsRunning S sub u × (u.host.paths ≡ w.host.paths))
                (λ _ u. Undone w u)
                (or_else r undo_notif)
        go (done _ u) (links, told, r) = (
          record {
            plugged = ap (λ h. h.plugged) r.apart.host ∙ plugged_in;
            watched = ap (λ h. h.watched) r.apart.host;
            sock = ap (λ g. g.sock) r.apart.gate ∙ sock;
            joined = ap (λ g. g.joined) r.apart.gate;
            notif = ap (λ g. g.notif) r.apart.gate ∙ notif;
            subs =
                r.apart.subs
                ∙ laws.dlist_nqueue_back-eq w.store.subs sub
                ∙ ap (λ l. l ++ sub ∷ []) empty;
            store = r.store;
            kinds =
                λ h q j st. (r.all (links-IsLasting links (listing _ _ links told)) all h q j st).0;
            public =
                λ h q j st. (r.all (links-IsLasting links (listing _ _ links told)) all h q j st).1;
            queue = subst (λ g. Known g.queue) (sym r.apart.gate) known;
          },
          ap (λ h. h.paths) r.apart.host,
        )
        go (fail e u) same =
            subst
              (λ x.
                Ends (λ _ u. IsRunning S sub u × (u.host.paths ≡ w.host.paths)) (λ _ u. Undone w u)
                  (undo_notif e x))
              (sym same) (refl, refl, resubscribed w.store empty, refl, sym idle, refl)
        go fault h = elim h [ ]

    starting-Ends :
        w.store.ifaces ≡ []
        → Ends
            (λ _ u. IsRunning S sub u × (u.host.paths ≡ w.host.paths))
            (λ _ u. Unwound w u)
            (starting w)
    starting-Ends none_yet = go (enable_notif P S Y sub w) (enabled w empty)
      where
        wrap :
            (r : Run (Unit {0}))
            → Ends (λ _ u. IsRunning S sub u × (u.host.paths ≡ w.host.paths)) (λ _ u. Undone w u) r
            → Ends
                (λ _ u. IsRunning S sub u × (u.host.paths ≡ w.host.paths))
                (λ _ u. Unwound w u)
                (or_else r undo_store)
        wrap (done _ u) h = h
        wrap (fail e u) h =
            Ends-mono _ _ _ _ (undo_store e u) (λ _ x h. absurd h) (λ _ x h. h)
              (undo_store-Unwound w u e none_yet h)
        wrap fault h = elim h [ ]

        go :
            (r : Run (Unit {0}))
            → Ends (λ _ u. u ≡ watching w) (λ e u. Undone w u) r
            → Ends
                (λ _ u. IsRunning S sub u × (u.host.paths ≡ w.host.paths))
                (λ _ u. Unwound w u)
                (or_else (and_then r (λ _. loading)) undo_store)
        go (done _ u) same = wrap (loading u) (
            subst
              (λ x.
                Ends (λ _ u. IsRunning S sub u × (u.host.paths ≡ w.host.paths)) (λ _ u. Undone w u)
                  (loading x))
              (sym same) loading-Ends)
        go (fail e u) h = wrap (fail e u) h
        go fault h = elim h [ ]

  abbrev undo_daemon : ℕ → M (Unit {0})
  undo_daemon e = do close_daemon P; raise e

  module _ (w : World) (idle : Idle w) (listing : Lists Y) where
    abbrev Refused : ℕ → World → Type 0
    Refused e u = Idle u × SameHeap w u

    abbrev Runs : Unit {0} → World → Type 0
    Runs _ u = IsRunning S sub u × (u.host.paths ≡ w.host.paths)

    closed :
        (r : Run (Unit {0}))
        → Ends Runs (λ _ u. Unwound (opened (plugged w)) u) r
        → Ends Runs Refused (or_else r undo_daemon)
    closed (done _ u) h = h
    closed (fail e u) (m, h, s, watched, paths, sock, notif, joined) = (
      record {
        plugged = refl;
        watched = watched ∙ idle.watched;
        sock = sock;
        joined = joined;
        notif = notif;
      },
      record { mem = m; hndls = h; paths = paths; store = inr s },
    )
    closed fault h = elim h [ ]

    -- For a lawful stroll, a daemon that holds nothing, and a kernel whose dumps have names that
    -- fit and known operational states alone: `nlifd_open` either returns with the plug-in open,
    -- the gate's socket there, joined, polled and subscribed to by a well-formed store without
    -- dangling kinds, whose interfaces can be published and whose one subscriber is the daemon's,
    -- or fails with all of it given back: no plug-in, no polling, no socket, no subscriber, the
    -- heap as before, and the store as before or empty. No path is left allocated.
    pub nlifd_open-Ends : Ends Runs Refused (nlifd_open P S Y sub (on_event S on_sub gate) w)
    unfolding nlifd_open call Gate.init Store.init Store.reinit Gate.subscribe
    nlifd_open-Ends = elim (Result-cases (P.on_call w.host.requests open_plug)) [
      | inr (e, refused) ↦ rw refused (
        record {
          plugged = idle.plugged;
          watched = idle.watched;
          sock = idle.sock;
          joined = idle.joined;
          notif = idle.notif;
        },
        record { mem = refl; hndls = refl; paths = refl; store = inl refl },
      )
      | inl (_, fine) ↦ rw fine (elim (Result-cases (Y.on_create w.calls)) [
        | inr (e, refused) ↦ rw refused (
          record {
            plugged = refl;
            watched = idle.watched;
            sock = idle.sock;
            joined = idle.joined;
            notif = idle.notif;
          },
          record { mem = refl; hndls = refl; paths = refl; store = inl refl },
        )
        | inl (_, fine') ↦ rw fine' (
            closed (starting (opened (plugged w))) (
              starting-Ends (opened (plugged w)) (initial-IsStore S (connected (plugged w)))
                (initial-AllOf IsLasting (connected (plugged w))) refl refl refl refl idle.watched
                tt listing refl))
      ])
    ]
