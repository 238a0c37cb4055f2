-- ===== src/Daemon/Poll.antt =====
-- What `srplug_daemon_poll` runs: callbacks of the daemon, in any order and any number.
use nlif.Prelude.{ℕ, ◌≡◌, refl, subst, ◌∙◌, ◌⊎◌, inl, inr}
use nlif.Stroll.{Ptr, Stroll}
use nlif.Stroll.Laws.{IsLawful}
use nlif.Ynl.{Ynl}
use nlif.World.{World, Run, M, done, fail, fault}
use nlif.World.Returns.{Returns, Ends}
use nlif.Gate.{Event}
use nlif.Store.Events.{on_event}
use nlif.Srplug.{SrError, Node, Srplug}
use nlif.Srplug.Laws.{OnlyHandlers}
use nlif.Daemon.Oper.{get_stats, dispatch_notif}
use nlif.Daemon.Config.{process_changes}
use nlif.Daemon.State.{IsRunning, Notes}
use nlif.Daemon.Handlers.{Tells}
use nlif.Daemon.Serve.{StillRuns, Serves, process_changes-StillRuns, get_stats-StillRuns}
use nlif.Daemon.Dispatch.{Hears, dispatch_notif-EndsRunning}

-- From one memory to another by callbacks: sysrepo commits changes or asks for statistics, and the
-- gate's descriptor is ready.
pub data Polled (P : Srplug) (S : Stroll) (Y : Ynl) (notif : Event → M (Unit {0})) (w : World)
    : World → Type 0 where
  none_yet : Polled P S Y notif w w
  committed :
      {u v : World} {e : SrError}
      → Polled P S Y notif w u
      → process_changes P S Y notif u ≡ done e v
      → Polled P S Y notif w v
  asked :
      {u v : World} {e : SrError} (node : Node)
      → Polled P S Y notif w u
      → get_stats P S Y node u ≡ done e v
      → Polled P S Y notif w v
  dispatched :
      {u v : World}
      → Polled P S Y notif w u
      → dispatch_notif P S Y notif u ≡ done tt v
      → Polled P S Y notif w v
  refused :
      {u v : World} {e : ℕ}
      → Polled P S Y notif w u
      → dispatch_notif P S Y notif u ≡ fail e v
      → Polled P S Y notif w v

module _ (S : Stroll) (laws : IsLawful S) (P : Srplug) (Y : Ynl) (sub gate : Ptr)
    (on_sub : Ptr → ℕ → Ptr → M (Unit {0})) where
  abbrev notif : Event → M (Unit {0})
  notif = on_event S on_sub gate

  -- Polling from a running daemon ends, having run callbacks alone.
  abbrev pub Polls : M (Unit {0}) → Type 0
  Polls serve =
      (w : World)
      → IsRunning S sub w
      → Ends (λ _ u. Polled P S Y notif w u) (λ _ u. Polled P S Y notif w u) (serve w)

  module _ (tells : Tells Y) (notes : Notes Y) (only : OnlyHandlers P)
      (hears : Hears S laws sub gate on_sub) where
    returned :
        {A : Type 0} (w u : World) (r : Run A) (a : A) (v : World)
        → r ≡ done a v
        → StillRuns S sub w u
        → Returns (λ _ v. StillRuns S sub u v) r
        → StillRuns S sub w v
    returned w u r a v same (_, n) h =
        let (runs, n') = subst (λ r. Returns (λ _ v. StillRuns S sub u v) r) same h in
        (runs, n' ∙ n)

    ended :
        (w u : World) (r : Run (Unit {0})) (v : World)
        → StillRuns S sub w u
        → Ends (λ _ v. StillRuns S sub u v) (λ _ v. StillRuns S sub u v) r
        → ((r ≡ done tt v) ⊎ ((e : ℕ) × (r ≡ fail e v)))
        → StillRuns S sub w v
    ended w u r v (_, n) h (inl same) =
        let (runs, n') =
          subst (λ r. Ends (λ _ v. StillRuns S sub u v) (λ _ v. StillRuns S sub u v) r) same h in
        (runs, n' ∙ n)
    ended w u r v (_, n) h (inr (e, same)) =
        let (runs, n') =
          subst (λ r. Ends (λ _ v. StillRuns S sub u v) (λ _ v. StillRuns S sub u v) r) same h in
        (runs, n' ∙ n)

    Polled-StillRuns :
        (w u : World) → IsRunning S sub w → Polled P S Y notif w u → StillRuns S sub w u
    Polled-StillRuns w u runs none_yet = (runs, refl)
    Polled-StillRuns w u runs (committed {u = t} {e = e} before run) =
        let still = Polled-StillRuns w t runs before in
        returned w t _ e u run still
          (process_changes-StillRuns S laws P Y sub gate on_sub tells only t still.0)
    Polled-StillRuns w u runs (asked {u = t} {e = e} node before run) =
        let still = Polled-StillRuns w t runs before in
        returned w t _ e u run still (get_stats-StillRuns S laws P Y sub gate on_sub node t still.0)
    Polled-StillRuns w u runs (dispatched {u = t} before run) =
        let still = Polled-StillRuns w t runs before in
        ended w t _ u still
          (dispatch_notif-EndsRunning S laws sub gate on_sub hears Y notes P t still.0) (inl run)
    Polled-StillRuns w u runs (refused {u = t} {e = e} before run) =
        let still = Polled-StillRuns w t runs before in
        ended w t _ u still
          (dispatch_notif-EndsRunning S laws sub gate on_sub hears Y notes P t still.0)
          (inr (e, run))

    -- Such polling leaves the daemon running.
    pub Polls-Serves : (serve : M (Unit {0})) → Polls serve → Serves S sub serve
    Polls-Serves serve polls w runs = go (serve w) (polls w runs)
      where
        go :
            (r : Run (Unit {0}))
            → Ends (λ _ u. Polled P S Y notif w u) (λ _ u. Polled P S Y notif w u) r
            → Ends (λ _ u. StillRuns S sub w u) (λ _ u. StillRuns S sub w u) r
        go (done _ u) h = Polled-StillRuns w u runs h
        go (fail e u) h = Polled-StillRuns w u runs h
        go fault h = elim h [ ]
