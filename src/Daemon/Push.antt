-- ===== src/Daemon/Push.antt =====
-- `nlifd_push_oper`, the daemon's subscriber of its store: whatever sysrepo answers, the daemon
-- still runs when it was called.
use nlif.Prelude.{
  ℕ, suc, ◌<◌, ◌≡◌, refl, sym, subst, ap, ◌∙◌, has, inl, inr, Bool-cases, some, List, ◌∷◌,
  if◌then◌else◌,
}
use nlif.Errno.{ok}
use nlif.Stroll.{Ptr, Stroll}
use nlif.Stroll.Laws.{IsLawful}
use nlif.Ynl.{Ynl}
use nlif.Iface.{Iface}
use nlif.World.{
  World, Host, Run, M, done, fail, fault, either, pure, lift, ◌>>=◌, ◌>>◌, and_then, get_iface,
  apply_changes, discard_changes,
}
use nlif.World.Returns.{Returns, Returns-mono, Ends, and_then_assoc}
use nlif.Gate.{Event}
use nlif.Settings.{coherent_name}
use nlif.Lifecycle.{sync}
use nlif.Store.Events.{on_event, unheard}
use nlif.Srplug.{SrError, is_ok, next_ok, Srplug, new_path, free_path, ask}
use nlif.Daemon.{named_path, create_path}
use nlif.Daemon.Oper.{refresh_oper, push_path, push_oper}
use nlif.Daemon.Publish.{refresh_oper-Answers}
use nlif.Daemon.Load.{at, Asked, Asks, next-Asks, ask-Asks}
use nlif.Daemon.Commit.{IsPublic, IsSound, SameHandles}
use nlif.Daemon.Handlers.{Tells, Synced, Steadied, sync-Synced}
use nlif.Daemon.Serve.{StillQueued, IsRunning-IsSound, SameHandles-StillRuns, Asked-StillRuns}
use nlif.Daemon.Dispatch.{Hears}

module _ (P : Srplug) where
  -- What follows the application of the changes.
  abbrev applied : SrError → M (Unit {0})
  applied e = if is_ok e then free_path else do _ ← ask P discard_changes; free_path

  -- One path buffer is freed.
  abbrev Freed : World → Host → ℕ → World → Type 0
  Freed u h n v =
      (g : Host) × (v ≡ at u g) × (g.plugged ≡ h.plugged) × (g.watched ≡ h.watched) × (g.paths ≡ n)

  free_path-Freed :
      (u : World) (h : Host) (n : ℕ)
      → h.paths ≡ suc n
      → Returns (λ _ v. Freed u h n v) (free_path (at u h))
  unfolding free_path
  free_path-Freed u h n e = rw e (record h { paths = n }, refl, refl, refl, refl)

  applied-Freed :
      (u : World) (h : Host) (n : ℕ) (e : SrError)
      → h.paths ≡ suc n
      → Returns (λ _ v. Freed u h n v) (applied e (at u h))
  unfolding ask
  applied-Freed u h n e paths = elim (Bool-cases (is_ok e)) [
    | inl fine ↦ rw fine (free_path-Freed u h n paths)
    | inr refused ↦
        rw refused
          (free_path-Freed u (record h { requests = discard_changes ∷ h.requests }) n paths)
  ]

  module _ (room : 74 < P.xpath_size) (printf : (path : List ℕ) → P.on_printf path ≡ ok tt) where
    refresh_oper-Asks :
        (w : World) (i : Iface) → IsPublic i → Asks w (refresh_oper P (named_path i.name) i)
    refresh_oper-Asks w i (named, state) = record {
      ask_on = λ h.
          rw (refresh_oper-Answers P room printf i named state (at w h))
            (_, refl, refl, refl, refl);
    }

    push_path-Freed :
        (S : Stroll) (Y : Ynl) (notif : Event → M (Unit {0})) (q : Ptr) (u : World) (i : Iface)
        (n : ℕ)
        → u.mem q ≡ some i
        → IsPublic i
        → u.host.paths ≡ suc n
        → Returns (λ _ v. Freed u u.host n v) (push_path P S Y notif q (named_path i.name) u)
    unfolding get_iface
    push_path-Freed S Y notif q u i n at_q public paths = rw at_q (
        subst (λ r. Returns (λ _ v. Freed u u.host n v) r)
          (sym (and_then_assoc (refresh u) (λ e. next_ok e (ask P apply_changes)) applied))
          (go (and_then (refresh u) (λ e. next_ok e (ask P apply_changes))) (
            (next-Asks u refresh (ask P apply_changes) (refresh_oper-Asks u i public)
                (ask-Asks P u apply_changes)).ask_on
              u.host)))
      where
        refresh : M SrError
        refresh = refresh_oper P (named_path i.name) i

        go :
            (r : Run SrError)
            → Returns (λ _ v. Asked u v) r
            → Returns (λ _ v. Freed u u.host n v) (and_then r applied)
        go (done e v) (h, same, p, w, k) =
            subst (λ x. Returns (λ _ v. Freed u u.host n v) (applied e x)) (sym same)
              (Returns-mono _ _ (applied e (at u h))
                (λ _ v (g, is, p', w', k'). (g, is, p' ∙ p, w' ∙ w, k'))
                (applied-Freed u h n e (k ∙ paths)))
        go (fail e v) h = elim h [ ]
        go fault h = elim h [ ]

module _ (S : Stroll) (laws : IsLawful S) (P : Srplug) (Y : Ynl) (sub gate : Ptr)
    (room : 74 < P.xpath_size) (printf : (path : List ℕ) → P.on_printf path ≡ ok tt)
    (tells : Tells Y) where
  -- The subscriber; when it syncs an interface, the store hears of the reload and tells nobody.
  abbrev pub pushing : Ptr → ℕ → Ptr → M (Unit {0})
  pushing = push_oper P S Y (on_event S unheard gate)

  -- For a lawful stroll, a kernel that tells of any link by its index, path buffers of more than 74
  -- bytes and paths that can be printed: `nlifd_push_oper` returns, whatever sysrepo answers, and
  -- leaves the daemon running, with as many path buffers as before.
  pub push_oper-Hears : Hears S laws sub gate pushing
  unfolding push_oper create_path coherent_name get_iface
  push_oper-Hears e h q i w runs st = go (sync S Y (on_event S unheard gate) q w) (
      sync-Synced S laws Y tells unheard gate w (IsRunning-IsSound S sub w runs) h q i st i.state
        refl)
    where
      after : (u : World) → IsSound S u × SameHandles w u → StillQueued S sub w u
      after u (sound, same) =
          (SameHandles-StillRuns S sub w u runs sound same, ap (λ g. g.queue) same.2.0)

      -- The path of the interface, once it is in sync.
      named : Run (Unit {0}) → Run (List ℕ)
      named r =
          and_then (and_then (and_then r (λ _. get_iface q)) (λ j. pure j.name))
            (λ name. do lift (P.on_printf (named_path name)); new_path; pure (named_path name))

      with_path : World → World
      with_path u = record u { host = record u.host { paths = suc u.host.paths } }

      pushed :
          (u : World) (r : Run (Unit {0}))
          → StillQueued S sub w u
          → Returns (λ _ v. Freed P (with_path u) (with_path u).host u.host.paths v) r
          → Ends (λ _ v. StillQueued S sub w v) (λ _ v. StillQueued S sub w v) r
      pushed u (done _ v) ((runs', n), queue) (g, same, p, q, k) =
          let (runs'', n') =
            Asked-StillRuns S laws P Y sub gate unheard u v runs' (g, same, p, q, k) in
          ((runs'', n' ∙ n), ap (λ x. x.gate.queue) same ∙ queue)
      pushed u (fail e v) still h = elim h [ ]
      pushed u fault still h = elim h [ ]

      go :
          (r : Run (Unit {0}))
          → Ends
              (λ _ u.
                Synced S laws Y tells unheard gate w (IsRunning-IsSound S sub w runs) h q i st u)
              (λ _ u.
                Steadied S laws Y tells unheard gate w (IsRunning-IsSound S sub w runs) h q i st u)
              r
          → Ends
              (λ _ u. StillQueued S sub w u)
              (λ _ u. StillQueued S sub w u)
              (either (named r) (push_path P S Y (on_event S unheard gate) q) (λ e. pure tt))
      go (done _ u) (steady, j, here, _) =
          let still = after u steady in
          let public : IsPublic j =
            still.0.0.public h q j
              (ap (λ l. has h l) steady.1.0 ∙ st.0, ap (λ f. f h) steady.1.1 ∙ st.1, here) in
          rw here (
            rw (printf (named_path j.name)) (
              pushed u
                (push_path P S Y (on_event S unheard gate) q (named_path j.name) (with_path u))
                still
                (push_path-Freed P room printf S Y (on_event S unheard gate) q (with_path u) j
                  u.host.paths here public refl)))
      go (fail e u) steady = after u steady
      go fault h = elim h [ ]
