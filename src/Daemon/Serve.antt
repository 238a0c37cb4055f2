-- ===== src/Daemon/Serve.antt =====
-- What is polled while the daemon runs: a callback leaves a running daemon running.
use nlif.Prelude.{ℕ, ◌≡◌, inl, inr, refl, sym, subst, ap, ◌∙◌, ◌∷◌, Option, none, some}
use nlif.Stroll.{Ptr, Stroll}
use nlif.Stroll.Laws.{IsLawful}
use nlif.Ynl.{Ynl, Call, stats}
use nlif.World.{World, Run, M, done, fail, fault, and_then, pure, attempt, get_iface, log_call}
use nlif.World.Returns.{Returns, Returns-mono, Ends}
use nlif.Store.Entry.{aside-IsStore, Refers-eq}
use nlif.Iface.Valid.{Owns}
use nlif.Srplug.Laws.{OnlyHandlers}
use nlif.Daemon.Handlers.{Tells, NodeFound, iface_from_node-NodeFound}
use nlif.Daemon.Commit.{IsSound, SameHandles}
use nlif.Daemon.Changes.{process_changes-Ended}
use nlif.Daemon.Config.{process_changes}
use nlif.Store.Events.{on_event}
use nlif.Srplug.{Srplug, Node, SrError, not_found}
use nlif.Daemon.Oper.{get_stats, create_leaves, stats_leaves}
use nlif.Lifecycle.{load_stats}
use nlif.Gate.{load_link_stats}
use nlif.Iface.{Iface}
use nlif.Errno.{Result-cases}
use nlif.Daemon.{iface_from_node, iface_error}
use nlif.Daemon.Load.{create_leaves-Asked, Asked}
use nlif.Daemon.Sequence.{run}
use nlif.Daemon.State.{IsRunning, Known}

module _ (S : Stroll) (sub : Ptr) where
  -- The daemon runs, and as many path buffers are allocated as before.
  abbrev pub StillRuns : World → World → Type 0
  StillRuns w u = IsRunning S sub u × (u.host.paths ≡ w.host.paths)

  -- The daemon runs, with the notifications that were queued.
  abbrev pub StillQueued : World → World → Type 0
  StillQueued w u = StillRuns w u × (u.gate.queue ≡ w.gate.queue)

  -- The callbacks that are polled leave a daemon that runs so, until polling ends or fails.
  abbrev pub Serves : M (Unit {0}) → Type 0
  Serves serve =
      (w : World) → IsRunning S sub w → Ends (λ _ u. StillRuns w u) (λ _ u. StillRuns w u) (serve w)

  pub IsRunning-IsSound : (w : World) → IsRunning S sub w → IsSound S w
  IsRunning-IsSound w runs = (
    runs.store,
    λ h q i st.
        let (q', i', r, alias) = runs.store.live h st.0 in
        let (_, same) = Refers-eq w h q' q i' i r (st.1, st.2) in
        (
          subst (λ x. Owns (λ _. Unit) x.alias) same alias,
          runs.kinds h q i st,
          runs.public h q i st,
        ),
  )

  -- The interfaces alone may differ.
  pub SameHandles-StillRuns :
      (w u : World) → IsRunning S sub w → IsSound S u → SameHandles w u → StillRuns w u
  SameHandles-StillRuns w u runs sound (_, _, (gate_same, subs_same, host_same)) = (
    record {
      plugged = ap (λ h. h.plugged) host_same ∙ runs.plugged;
      watched = ap (λ h. h.watched) host_same ∙ runs.watched;
      sock = ap (λ g. g.sock) gate_same ∙ runs.sock;
      joined = ap (λ g. g.joined) gate_same ∙ runs.joined;
      notif = ap (λ g. g.notif) gate_same ∙ runs.notif;
      subs = subs_same ∙ runs.subs;
      store = sound.0;
      kinds = λ h q i st. (sound.1 h q i st).1;
      public = λ h q i st. (sound.1 h q i st).2;
      queue = subst (λ g. Known g.queue) (sym gate_same) runs.queue;
    },
    ap (λ h. h.paths) host_same,
  )

module _ (S : Stroll) (laws : IsLawful S) (P : Srplug) (Y : Ynl) (sub gate : Ptr)
    (on_sub : Ptr → ℕ → Ptr → M (Unit {0})) where
  pub Asked-StillRuns : (w u : World) → IsRunning S sub w → Asked w u → StillRuns S sub w u
  Asked-StillRuns w u runs (h, same, p, q, n) =
      subst (λ x. StillRuns S sub w x) (sym same)
        (
          record {
            plugged = p ∙ runs.plugged;
            watched = q ∙ runs.watched;
            sock = runs.sock;
            joined = runs.joined;
            notif = runs.notif;
            subs = runs.subs;
            store = aside-IsStore S w runs.store w.gate w.store.subs w.calls h;
            kinds = λ h q j st. runs.kinds h q j st;
            public = λ h q j st. runs.public h q j st;
            queue = runs.queue;
          },
          n,
        )

  -- What sysrepo's events do leaves a daemon running that runs.
  pub process_changes-StillRuns :
      Tells Y
      → OnlyHandlers P
      → (w : World) → IsRunning S sub w
      → Returns (λ _ u. StillRuns S sub w u) (process_changes P S Y (on_event S on_sub gate) w)
  process_changes-StillRuns tells only w runs =
      Returns-mono _ _ (process_changes P S Y (on_event S on_sub gate) w)
        (λ e u ((sound, same), _). SameHandles-StillRuns S sub w u runs sound same)
        (process_changes-Ended S laws Y tells on_sub gate P only w (IsRunning-IsSound S sub w runs))

  called : (c : Call) (w : World) → IsRunning S sub w → StillRuns S sub w (log_call c w)
  called c w runs = (
    record {
      plugged = runs.plugged;
      watched = runs.watched;
      sock = runs.sock;
      joined = runs.joined;
      notif = runs.notif;
      subs = runs.subs;
      store = aside-IsStore S w runs.store w.gate w.store.subs (c ∷ w.calls) w.host;
      kinds = λ h q j st. runs.kinds h q j st;
      public = λ h q j st. runs.public h q j st;
      queue = runs.queue;
    },
    refl,
  )

  -- What `sr_oper_get_subscribe` has called leaves it running too.
  pub get_stats-StillRuns :
      (node : Node) (w : World)
      → IsRunning S sub w
      → Returns (λ _ u. StillRuns S sub w u) (get_stats P S Y node w)
  unfolding get_stats load_stats load_link_stats get_iface
  get_stats-StillRuns node w runs = go (iface_from_node-NodeFound S w node runs.store)
    where
      by : Option Ptr → M SrError
      by none = pure not_found
      by (some p) =
          attempt (load_stats S Y p) (λ stats. create_leaves P (stats_leaves P stats))
            (λ e. pure (iface_error e))

      answered_lem :
          (u : World)
          → StillRuns S sub w u
          → (r : Run SrError) → Returns (λ _ v. Asked u v) r
          → Returns (λ _ v. StillRuns S sub w v) r
      answered_lem u (runs', n) (done e v) asked =
          let (runs'', n') = Asked-StillRuns u v runs' asked in (runs'', n' ∙ n)
      answered_lem u still (fail e v) h = elim h [ ]
      answered_lem u still fault h = elim h [ ]

      read :
          (q : Ptr) (i : Iface)
          → w.mem q ≡ some i
          → Returns (λ _ u. StillRuns S sub w u) (by (some q) w)
      read q i at = rw at (elim (Result-cases (Y.on_getstats w.calls i.idx)) [
        | inl (counts, told) ↦ rw told (
            answered_lem (log_call (stats i.idx) w) (called (stats i.idx) w runs)
              (create_leaves P (stats_leaves P counts) (log_call (stats i.idx) w))
              (create_leaves-Asked P (log_call (stats i.idx) w) (stats_leaves P counts)))
        | inr (c, refused) ↦ rw refused (called (stats i.idx) w runs)
      ])

      go :
          ((r : Option Ptr) × (iface_from_node S node w ≡ done r w) × NodeFound w r)
          → Returns (λ _ u. StillRuns S sub w u) (get_stats P S Y node w)
      go (none, run, _) =
          subst (λ x. Returns (λ _ u. StillRuns S sub w u) (and_then x by)) (sym run) (runs, refl)
      go (some q, run, (h, i, st)) =
          subst (λ x. Returns (λ _ u. StillRuns S sub w u) (and_then x by)) (sym run)
            (read q i st.2)

  -- A callback, and then what is polled after it.
  pub after-Serves :
      {A : Type 0} (m : M A) (serve : M (Unit {0}))
      → ((w : World) → IsRunning S sub w → Returns (λ _ u. StillRuns S sub w u) (m w))
      → Serves S sub serve
      → Serves S sub (λ w. and_then (m w) (λ _. serve))
  after-Serves {A = A} m serve keeps serves w runs = go (m w) (keeps w runs)
    where
      later :
          (u : World)
          → u.host.paths ≡ w.host.paths
          → (r : Run (Unit {0})) → Ends (λ _ v. StillRuns S sub u v) (λ _ v. StillRuns S sub u v) r
          → Ends (λ _ v. StillRuns S sub w v) (λ _ v. StillRuns S sub w v) r
      later u n (done _ v) (runs', n') = (runs', n' ∙ n)
      later u n (fail e v) (runs', n') = (runs', n' ∙ n)
      later u n fault h = elim h [ ]

      go :
          (r : Run A)
          → Returns (λ _ u. StillRuns S sub w u) r
          → Ends (λ _ u. StillRuns S sub w u) (λ _ u. StillRuns S sub w u) (and_then r (λ _. serve))
      go (done a u) (runs', n) = later u n (serve u) (serves u runs')
      go (fail e u) h = elim h [ ]
      go fault h = elim h [ ]
