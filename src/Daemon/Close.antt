-- ===== src/Daemon/Close.antt =====
-- `nlifd_close`: the daemon gives back what it holds.
use nlif.Prelude.{ℕ, ◌≡◌, refl, sym, ap, ◌∙◌, false, [], ◌∷◌, has}
use nlif.Stroll.{Ptr, Stroll}
use nlif.Stroll.Laws.{IsLawful}
use nlif.Ynl.{Ynl}
use nlif.World.{World, Run, M, done, fail, fault, and_then, unwatch}
use nlif.World.Returns.{Returns}
use nlif.Gate
use nlif.Gate.{links_req, ynl_err}
use nlif.Store
use nlif.Store.{emptied}
use nlif.Store.Entry.{aside-IsStore}
use nlif.Store.Release.{Freed, Beside, quiet, fini-Freed}
use nlif.Obsrv
use nlif.Obsrv.Order.{unsubscribe-subscribe}
use nlif.Srplug.{Srplug}
use nlif.Daemon.Sequence.{close_daemon, disable_notif, nlifd_close}
use nlif.Daemon.State.{Idle, IsRunning}

-- Everything that the daemon held is given back, and every interface and handle is freed.
pub record Closed (w u : World) : Type 0 where
  pub idle : Idle u
  pub heap : Freed w.store.ifaces w u
  pub paths : u.host.paths ≡ w.host.paths
  pub subs : u.store.subs ≡ []

module _ (S : Stroll) (laws : IsLawful S) (P : Srplug) (Y : Ynl) (sub gate : Ptr)
    (on_sub : Ptr → ℕ → Ptr → M (Unit {0})) where
  module _ (w : World) (run : IsRunning S sub w) where
    -- The memory once the worker is disabled.
    abbrev unwatched : World
    unwatched = record w {
      host = record w.host { requests = unwatch ∷ w.host.requests; watched = false };
      gate = record w.gate { notif = false };
      store = record w.store { subs = S.dlist_remove sub w.store.subs };
    }

    unsubscribed : S.dlist_remove sub w.store.subs ≡ []
    unfolding Obsrv.subscribe Obsrv.unsubscribe has
    unsubscribed =
        ap (λ l. S.dlist_remove sub l) (run.subs ∙ sym (laws.dlist_nqueue_back-eq [] sub))
        ∙ unsubscribe-subscribe S laws [] sub tt refl

    -- For a lawful stroll and a daemon that runs, no interface's kind or alias being dangling:
    -- `nlifd_close` returns, never freeing anything twice, with no plug-in, no polling, no socket
    -- and no subscriber left. Every handle of the store and every interface is freed, and nothing
    -- else on the heap changes.
    pub nlifd_close-Closed : Returns (λ _ u. Closed w u) (nlifd_close P S Y sub w)
    unfolding nlifd_close disable_notif Store.disable_change_notif Store.unsubscribe_changes
        Gate.unsubscribe Gate.fini Obsrv.unsubscribe
    nlifd_close-Closed = go (Store.fini S unwatched) (
        fini-Freed S unwatched
          (aside-IsStore S w run.store unwatched.gate unwatched.store.subs w.calls unwatched.host)
          (λ h q j st. run.kinds h q j st))
      where
        go :
            (r : Run (Unit {0}))
            → Returns (λ _ u. Freed w.store.ifaces unwatched u × Beside (quiet unwatched) u) r
            → Returns
                (λ _ u. Closed w u)
                (and_then (and_then r (λ _. Gate.fini Y)) (λ _. close_daemon P))
        go (done _ u) (f, b) = record {
          idle = record {
            plugged = refl;
            watched = ap (λ h. h.watched) b.host;
            sock = refl;
            joined = refl;
            notif = ap (λ g. g.notif) b.gate;
          };
          heap = record { hndls = f.hndls; ifaces = f.ifaces; others = f.others; brk = f.brk };
          paths = ap (λ h. h.paths) b.host;
          subs = ap (λ s. s.subs) b.store ∙ unsubscribed;
        }
        go (fail e u) h = elim h [ ]
        go fault h = elim h [ ]
