-- ===== src/Daemon/Run.antt =====
-- What follows the command line in `main`: whatever comes, the daemon gives back what it holds.
use nlif.Prelude.{
  ℕ, ◌≢◌, arith, ◌≡◌, ◌⊎◌, inl, inr, refl, subst, ◌∙◌, Bool, true, false, List, has, ◌<◌,
  Bool-cases, ◌==◌, if◌then◌else◌,
}
use nlif.Errno.{ok, eshutdown}
use nlif.Stroll.{Ptr, Stroll}
use nlif.Stroll.Laws.{IsLawful}
use nlif.Ynl.{Ynl}
use nlif.World.{World, Run, M, done, fail, fault, either, and_then, or_else, raise, pure, ◌>>◌}
use nlif.World.Returns.{Returns, Returns-mono, Ends}
use nlif.Srplug.Laws.{OnlyHandlers}
use nlif.Daemon.Handlers.{Tells}
use nlif.Daemon.Commit.{IsPublic}
use nlif.Store.Events.{on_event}
use nlif.Srplug.{Srplug}
use nlif.Daemon.Load.{Asked, Replaces, AllReadable, nlifd_load-Asked}
use nlif.Daemon.Publish.{Shown}
use nlif.Daemon.Sequence.{nlifd_open, nlifd_load, nlifd_close, serving, run}
use nlif.Daemon.Start.{nlifd_open-Ends}
use nlif.Daemon.State.{Idle, IsRunning, SameHeap, Lists, Notes}
use nlif.Daemon.Close.{Closed, nlifd_close-Closed}
use nlif.Daemon.Push.{pushing, push_oper-Hears}
use nlif.Daemon.Poll.{Polls, Polls-Serves}
use nlif.Daemon.Serve.{StillRuns, Serves, Asked-StillRuns}

module _ (S : Stroll) (P : Srplug) (sub : Ptr) (serve : M (Unit {0})) where
  -- Why a daemon that was started at `u` stops at `v`, and with what status: the polling ends or
  -- was shut down; or the data cannot be loaded, or the polling fails otherwise.
  abbrev pub Why : Bool → World → World → Type 0
  Why true u v =
      (l : World) × (nlifd_load P u ≡ done tt l)
      × ((serve l ≡ done tt v) ⊎ (serve l ≡ fail eshutdown v))
  Why false u v =
      ((c : ℕ) × (nlifd_load P u ≡ fail c v))
      ⊎ ((l : World) × (c : ℕ) × (nlifd_load P u ≡ done tt l)
          × (c ≢ eshutdown)
          × (serve l ≡ fail c v))

  -- It was closed, from a memory in which it still ran.
  abbrev pub Stopped : World → Bool → World → Type 0
  Stopped u success x = (v : World) × StillRuns S sub u v × Why success u v × Closed v x

module _ (S : Stroll) (laws : IsLawful S) (P : Srplug) (Y : Ynl) (sub gate : Ptr)
    (room : 74 < P.xpath_size) (printf : (path : List ℕ) → P.on_printf path ≡ ok tt)
    (tells : Tells Y) where
  abbrev on_sub : Ptr → ℕ → Ptr → M (Unit {0})
  on_sub = pushing S laws P Y sub gate room printf tells

  module _ (granted : Replaces P) (lists : Lists Y) (notes : Notes Y) (only : OnlyHandlers P)
      (serve : M (Unit {0})) (polls : Polls S laws P Y sub gate on_sub serve) where
    serves : Serves S sub serve
    serves =
        Polls-Serves S laws P Y sub gate on_sub tells notes only
          (push_oper-Hears S laws P Y sub gate room printf tells) serve polls

    abbrev closing : Bool → M Bool
    closing b = do nlifd_close P S Y sub; pure b

    closing-Stopped :
        (u v : World) (b : Bool)
        → StillRuns S sub u v
        → Why S P sub serve b u v
        → Returns (λ success x. Stopped S P sub serve u success x) (closing b v)
    closing-Stopped u v b still why =
        go (nlifd_close P S Y sub v) (nlifd_close-Closed S laws P Y sub gate on_sub v still.0)
      where
        go :
            (r : Run (Unit {0}))
            → Returns (λ _ x. Closed v x) r
            → Returns (λ success x. Stopped S P sub serve u success x) (and_then r (λ _. pure b))
        go (done _ x) closed = (v, still, why, closed)
        go (fail e x) h = elim h [ ]
        go fault h = elim h [ ]

    abbrev ending : Run (Unit {0}) → Run Bool
    ending r = either r (λ _. closing true) (λ _. closing false)

    served :
        (u l : World)
        → nlifd_load P u ≡ done tt l
        → StillRuns S sub u l
        → Returns
            (λ success x. Stopped S P sub serve u success x)
            (ending (serving P S Y sub serve l))
    unfolding serving
    served u l loaded (runs, paths) = go (serve l) refl (serves l runs)
      where
        go :
            (r : Run (Unit {0}))
            → serve l ≡ r
            → Ends (λ _ v. StillRuns S sub l v) (λ _ v. StillRuns S sub l v) r
            → Returns
                (λ success x. Stopped S P sub serve u success x)
                (ending (or_else r (λ e. if e == eshutdown then pure tt else raise e)))
        go (done _ v) same (runs', paths') =
            closing-Stopped u v true (runs', paths' ∙ paths) (l, loaded, inl same)
        go (fail e v) same (runs', paths') = elim (Bool-cases (e == eshutdown)) [
          | inl down ↦
              let is_down : e ≡ eshutdown = ground arith in
              rw down (
                closing-Stopped u v true (runs', paths' ∙ paths)
                  (l, loaded, inr (subst (λ c. serve l ≡ fail c v) is_down same)))
          | inr other ↦
              let is_other : e ≢ eshutdown = λ is_down. ground arith in
              rw other (
                closing-Stopped u v false (runs', paths' ∙ paths)
                  (inr (l, e, loaded, is_other, same)))
        ]
        go fault same h = elim h [ ]

    started :
        (u : World)
        → IsRunning S sub u
        → Returns
            (λ success x. Stopped S P sub serve u success x)
            (ending (and_then (nlifd_load P u) (λ _. serving P S Y sub serve)))
    started u runs =
        go (nlifd_load P u) refl (nlifd_load-Asked P u readable granted room printf shown)
      where
        readable : AllReadable P u
        readable h e =
            let (q, i, r, alias) = runs.store.live h e in
            (q, i, r, (runs.kinds h q i (e, r.0, r.1), alias))

        shown : (h : Ptr) → has h u.store.ifaces ≡ true → Shown P u h
        shown h e =
            let (q, i, r, _) = runs.store.live h e in
            let public : IsPublic i = runs.public h q i (e, r.0, r.1) in
            (q, i, r, public.0, ground arith)

        go :
            (r : Run (Unit {0}))
            → nlifd_load P u ≡ r
            → Ends (λ _ v. Asked u v) (λ _ v. Asked u v) r
            → Returns
                (λ success x. Stopped S P sub serve u success x)
                (ending (and_then r (λ _. serving P S Y sub serve)))
        go (done _ l) same asked =
            served u l same (Asked-StillRuns S laws P Y sub gate on_sub u l runs asked)
        go (fail c v) same asked =
            closing-Stopped u v false (Asked-StillRuns S laws P Y sub gate on_sub u v runs asked)
              (inl (c, same))
        go fault same h = elim h [ ]

    -- For a lawful stroll, an srplug that only calls the handlers, a sysrepo that takes whatever
    -- configuration is to replace its own, a kernel that tells of any link by its index, with names
    -- that fit and operational states that it has alone, path buffers of more than 74 bytes and
    -- paths that can be printed, `nlifd_push_oper` as the subscriber of the store, polling that
    -- commits changes, answers for statistics and dispatches notifications alone, in any order,
    -- until it ends, and a daemon that holds nothing: what follows the command line in `main`
    -- returns, with no plug-in, no polling, no socket, no subscriber and no path left. Either the
    -- start failed, the status is failure, and the heap is as before and the store as before or
    -- empty; or the daemon was closed from a memory in which it still ran, every handle of the
    -- store and every interface being freed, with success exactly when the data were loaded and the
    -- polling ended or was shut down.
    pub run-Stopped :
        (w : World)
        → Idle w
        → Returns
            (λ success x.
              Idle x
              × (x.host.paths ≡ w.host.paths)
              × (((success ≡ false) × SameHeap w x)
                  ⊎ ((u : World) × (nlifd_open P S Y sub (on_event S on_sub gate) w ≡ done tt u)
                      × Stopped S P sub serve u success x)))
            (run P S Y sub (on_event S on_sub gate) serve w)
    unfolding run
    run-Stopped w idle =
        go (nlifd_open P S Y sub (on_event S on_sub gate) w) refl
          (nlifd_open-Ends S laws P Y sub gate on_sub w idle lists)
      where
        Left : Bool → World → Type 0
        Left success x =
            Idle x
            × (x.host.paths ≡ w.host.paths)
            × (((success ≡ false) × SameHeap w x)
                ⊎ ((u : World) × (nlifd_open P S Y sub (on_event S on_sub gate) w ≡ done tt u)
                    × Stopped S P sub serve u success x))

        go :
            (r : Run (Unit {0}))
            → nlifd_open P S Y sub (on_event S on_sub gate) w ≡ r
            → Ends
                (λ _ u. IsRunning S sub u × (u.host.paths ≡ w.host.paths))
                (λ _ u. Idle u × SameHeap w u)
                r
            → Returns Left (
                either r
                  (λ _ v. ending (and_then (nlifd_load P v) (λ _. serving P S Y sub serve)))
                  (λ e. pure false))
        go (done _ u) same (runs, paths) =
            Returns-mono (λ success x. Stopped S P sub serve u success x) Left
              (ending (and_then (nlifd_load P u) (λ _. serving P S Y sub serve)))
              (λ success x (v, still, why, closed). (
                closed.idle,
                closed.paths ∙ still.1 ∙ paths,
                inr (u, same, (v, still, why, closed)),
              ))
              (started u runs)
        go (fail e u) same (idle', heap) = (idle', heap.paths, inl (refl, heap))
        go fault same h = elim h [ ]
