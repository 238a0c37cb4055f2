-- ===== src/Examples/Running.antt =====
-- A run of the daemon from its start to its end.
use nlif.Prelude.{ℕ, ◌≡◌, refl, ◌⊎◌, false, arith}
use nlif.Errno.{eshutdown}
use nlif.Stroll.{Ptr}
use nlif.Stroll.Lists.{list_stroll, list_stroll-IsLawful}
use nlif.World.{World, Run, M, done, fail, fault, and_then, raise}
use nlif.World.Returns.{Ends, Returns}
use nlif.Gate.{Event}
use nlif.Store.Events.{on_event}
use nlif.Srplug.{SrError}
use nlif.Daemon.Config.{process_changes}
use nlif.Daemon.Oper.{get_stats}
use nlif.Daemon.Sequence.{nlifd_open, run}
use nlif.Daemon.State.{Idle, SameHeap}
use nlif.Daemon.Serve.{StillRuns, process_changes-StillRuns, get_stats-StillRuns}
use nlif.Daemon.Push.{pushing}
use nlif.Daemon.Load.{Replaces}
use nlif.Daemon.Poll.{Polled, none_yet, committed, asked, Polls}
use nlif.Daemon.Run.{Stopped, run-Stopped}
use nlif.Examples.Daemon.{
  leaf, granting, granting-OnlyHandlers, telling, telling-Tells, before, before-Idle,
  obliging-Lists,
}

-- The subscriber that pushes what it hears to sysrepo.
abbrev pushed : Ptr → ℕ → Ptr → M (Unit {0})
pushed =
    pushing list_stroll list_stroll-IsLawful granting telling 7 9 (omega arith) (λ path. refl)
      telling-Tells

abbrev notif : Event → M (Unit {0})
notif = on_event list_stroll pushed 9

-- Polling: the commit of a change, the statistics of the port, and then a shutdown.
abbrev shut_down : M (Unit {0})
shut_down = raise eshutdown

abbrev committing : M SrError
committing = process_changes granting list_stroll telling notif

abbrev asking : M SrError
asking = get_stats granting list_stroll telling leaf

abbrev polling : M (Unit {0})
polling = λ w. and_then (committing w) (λ _ u. and_then (asking u) (λ _. shut_down))

polling-Polls : Polls list_stroll list_stroll-IsLawful granting telling 7 9 pushed polling
polling-Polls w runs = first (committing w) refl (
    process_changes-StillRuns list_stroll list_stroll-IsLawful granting telling 7 9 pushed
      telling-Tells granting-OnlyHandlers w runs)
  where
    From : World → Type 0
    From = Polled granting list_stroll telling notif w

    second :
        (u : World) (r : Run SrError)
        → From u
        → asking u ≡ r
        → Returns (λ _ v. StillRuns list_stroll 7 u v) r
        → Ends (λ _ v. From v) (λ _ v. From v) (and_then r (λ _. shut_down))
    second u (done e v) reached same h = asked leaf reached same
    second u (fail e v) reached same h = elim h [ ]
    second u fault reached same h = elim h [ ]

    first :
        (r : Run SrError)
        → committing w ≡ r
        → Returns (λ _ v. StillRuns list_stroll 7 w v) r
        → Ends
            (λ _ v. From v)
            (λ _ v. From v)
            (and_then r (λ _ u. and_then (asking u) (λ _. shut_down)))
    first (done e u) same (runs', _) = second u (asking u) (committed none_yet same) refl (
        get_stats-StillRuns list_stroll list_stroll-IsLawful granting telling 7 9 pushed leaf u
          runs')
    first (fail e u) same h = elim h [ ]
    first fault same h = elim h [ ]

abbrev opening : Run (Unit {0})
opening = nlifd_open granting list_stroll telling 7 notif before

granting-Replaces : Replaces granting
unfolding nlif.Srplug.is_ok
granting-Replaces past = refl

run-Stopped_example :
    Returns
      (λ success x.
        Idle x
        × (x.host.paths ≡ 0)
        × (((success ≡ false) × SameHeap before x)
            ⊎ ((u : World) × (opening ≡ done tt u)
                × Stopped list_stroll granting 7 polling u success x)))
      (run granting list_stroll telling 7 notif polling before)
run-Stopped_example =
    run-Stopped list_stroll list_stroll-IsLawful granting telling 7 9 (omega arith) (λ path. refl)
      telling-Tells granting-Replaces obliging-Lists (λ calls. tt) granting-OnlyHandlers polling
      polling-Polls before before-Idle
