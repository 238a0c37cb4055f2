-- ===== src/Daemon/Dispatch.antt =====
-- The notifications of the kernel, dispatched to the store and on to its subscriber.
use nlif.Prelude.{
  ==_refl, arith, ◌≤◌, ◌<◌, length, zero, suc, ℕ, ◌≡◌, inl, inr, refl, sym, subst, ap, ◌∙◌, Bool,
  true, false, none, some, List, [], ◌∷◌, ◌++◌, Bool-cases, ◌==◌, if◌then◌else◌,
}
use nlif.Errno.{Result-cases, err}
use nlif.Link.{Link, validate_index}
use nlif.Stroll.{Ptr, Stroll}
use nlif.Stroll.Laws.{IsLawful}
use nlif.Ynl.{Call, Ntf, Ynl, ntf_check}
use nlif.Iface.{Iface, refresh_state}
use nlif.Iface.Valid.{Owns}
use nlif.Iface.Refresh.{refresh_state-InSync}
use nlif.World.{World, Run, M, done, fail, fault, and_then, or_else, pure, write_iface}
use nlif.World.Returns.{Ends, Ends-mono}
use nlif.Gate.{
  Event, change, notify, islink_valid, rtm_newlink, notify_change, drain, notify_changes,
}
use nlif.Gate.Queue.{queued, drain-none, drain-some}
use nlif.Obsrv
use nlif.Tables.{find_byindex}
use nlif.Store.Entry.{Stands, aside-IsStore}
use nlif.Store.Events.{on_event, on_iface_change, iface_change_evt}
use nlif.Store.Change.{Changed, on_iface_change-Changed}
use nlif.Daemon.Commit.{write_iface-IsSound}
use nlif.Daemon.State.{IsRunning, Known, Notes}
use nlif.Link.Validate.{IsName}
use nlif.Daemon.Oper.{dispatch_notif}
use nlif.Srplug.{Srplug}
use nlif.Daemon.Serve.{StillRuns, StillQueued, IsRunning-IsSound}

module _ (S : Stroll) (laws : IsLawful S) (sub gate : Ptr)
    (on_sub : Ptr → ℕ → Ptr → M (Unit {0})) where
  -- It does afterwards, whether the command returns or fails.
  abbrev pub KeepsRunning : World → Run (Unit {0}) → Type 0
  KeepsRunning w r = Ends (λ _ u. StillQueued S sub w u) (λ _ u. StillQueued S sub w u) r

  abbrev EndsRunning : World → Run (Unit {0}) → Type 0
  EndsRunning w r = Ends (λ _ u. StillRuns S sub w u) (λ _ u. StillRuns S sub w u) r

  later :
      (w u : World) (r : Run (Unit {0}))
      → u.host.paths ≡ w.host.paths
      → u.gate.queue ≡ w.gate.queue
      → KeepsRunning u r
      → KeepsRunning w r
  later w u (done _ v) n q ((runs', n'), q') = ((runs', n' ∙ n), q' ∙ q)
  later w u (fail e v) n q ((runs', n'), q') = ((runs', n' ∙ n), q' ∙ q)
  later w u fault n q h = elim h [ ]

  -- What a notifier makes of its one subscriber.
  alone :
      (w : World) (r : Run (Unit {0}))
      → KeepsRunning w r
      → KeepsRunning w (and_then (or_else r (λ e. pure tt)) (λ _. pure tt))
  alone w (done _ u) h = h
  alone w (fail e u) h = h
  alone w fault h = elim h [ ]

  -- The subscriber does, for any interface of the store.
  abbrev pub Hears : Type 0
  Hears =
      (e : ℕ) (h q : Ptr) (i : Iface) (w : World)
      → IsRunning S sub w
      → Stands w h q i
      → KeepsRunning w (on_sub sub e q w)

  module _ (hears : Hears) where
    not_found :
        (index c : ℕ) (w : World)
        → validate_index index ≡ err c
        → find_byindex S index w ≡ done none w
    unfolding find_byindex
    not_found index c w bad = ground arith

    passed_over :
        (lnk : Link) (w : World) (c : ℕ)
        → validate_index lnk.ifi_index ≡ err c
        → on_iface_change S on_sub lnk w ≡ done tt w
    unfolding on_iface_change
    passed_over lnk w c bad = rw (not_found lnk.ifi_index c w bad) refl

    on_iface_change-KeepsRunning :
        (lnk : Link) (w : World)
        → lnk.operstate ≤ 6
        → IsRunning S sub w
        → KeepsRunning w (on_iface_change S on_sub lnk w)
    unfolding Obsrv.notify
    on_iface_change-KeepsRunning lnk w known runs =
        elim (Result-cases (validate_index lnk.ifi_index)) [
          | inr (c, bad) ↦
              subst (λ r. KeepsRunning w r) (sym (passed_over lnk w c bad)) ((runs, refl), refl)
          | inl (_, valid) ↦ go (on_iface_change-Changed S on_sub w runs.store lnk valid)
        ]
      where
        refreshed-IsRunning :
            (h q : Ptr) (i : Iface)
            → Stands w h q i
            → IsRunning S sub (write_iface q (some (refresh_state i lnk).0) w)
        refreshed-IsRunning h q i st =
            let same : (refresh_state i lnk).0.alias ≡ i.alias =
              ap (λ x. x.alias) (refresh_state-InSync i lnk).2 in
            let same' : (refresh_state i lnk).0.kind ≡ i.kind =
              ap (λ x. x.kind) (refresh_state-InSync i lnk).2 in
            let same_name : (refresh_state i lnk).0.name ≡ i.name =
              ap (λ x. x.name) (refresh_state-InSync i lnk).2 in
            let own = (IsRunning-IsSound S sub w runs).1 h q i st in
            let sound =
              write_iface-IsSound S w q i (refresh_state i lnk).0 (IsRunning-IsSound S sub w runs)
                st.2 (ap (λ x. x.idx) (refresh_state-InSync i lnk).2)
                (
                  subst (λ c. Owns (λ _. Unit) c) (sym same) own.0,
                  subst (λ c. Owns (λ _. Unit) c) (sym same') own.1,
                  (
                    subst IsName (sym same_name) own.2.0,
                    subst (λ n. n ≤ 6) (sym (refresh_state-InSync i lnk).0.opstat) known,
                  ),
                ) in
            record {
              plugged = runs.plugged;
              watched = runs.watched;
              sock = runs.sock;
              joined = runs.joined;
              notif = runs.notif;
              subs = runs.subs;
              store = sound.0;
              kinds = λ h q j st. (sound.1 h q j st).1;
              public = λ h q j st. (sound.1 h q j st).2;
              queue = runs.queue;
            }

        told :
            (h q : Ptr) (i : Iface) (u : World)
            → IsRunning S sub u
            → Stands u h q i
            → u.host.paths ≡ w.host.paths
            → u.gate.queue ≡ w.gate.queue
            → (l : List Ptr) → l ≡ sub ∷ []
            → (b : Bool)
            → KeepsRunning w ((if b then Obsrv.notify on_sub l iface_change_evt q else done tt) u)
        told h q i u runs' st n k l e true =
            subst (λ l. KeepsRunning w (Obsrv.notify on_sub l iface_change_evt q u)) (sym e)
              (later w u _ n k (
                alone u (on_sub sub iface_change_evt q u)
                  (hears iface_change_evt h q i u runs' st)))
        told h q i u runs' st n k l e false = ((runs', n), k)

        go :
            Changed S on_sub lnk w (on_iface_change S on_sub lnk w)
            → KeepsRunning w (on_iface_change S on_sub lnk w)
        go (inl (_, same)) = subst (λ r. KeepsRunning w r) (sym same) ((runs, refl), refl)
        go (inr (q, i, (h, i', st, _), at, _, _, same)) =
            subst (λ r. KeepsRunning w r) (sym same)
              (told h q (refresh_state i lnk).0 (write_iface q (some (refresh_state i lnk).0) w)
                (refreshed-IsRunning h q i (st.0, st.1, at)) (st.0, st.1, ground (arith, ==_refl q))
                refl refl w.store.subs runs.subs (refresh_state i lnk).1)

    abbrev notif : Event → M (Unit {0})
    notif = on_event S on_sub gate

    notify_on : (ev : Event) (w : World) → w.gate.notif ≡ true → notify notif ev w ≡ notif ev w
    unfolding notify
    notify_on ev w e = ground arith

    module _ (Y : Ynl) where
      notify_change-KeepsRunning :
          (ntf : Ntf) (w : World)
          → ntf.obj.operstate ≤ 6
          → IsRunning S sub w
          → KeepsRunning w (notify_change Y notif ntf w)
      unfolding notify_change on_event
      notify_change-KeepsRunning ntf w known runs = elim (Bool-cases (ntf.cmd == rtm_newlink)) [
        | inr other ↦ rw other ((runs, refl), refl)
        | inl link ↦ rw link (elim (Result-cases (islink_valid ntf.obj)) [
          | inr (e, bad) ↦ rw bad ((runs, refl), refl)
          | inl (_, good) ↦ rw good (
              subst (λ r. KeepsRunning w r) (sym (notify_on (change ntf.obj) w runs.notif))
                (on_iface_change-KeepsRunning ntf.obj w known runs))
        ])
      ]

      queued-StillRuns :
          (l : List Ntf) (calls : List Call) (w : World)
          → Known l
          → IsRunning S sub w
          → StillRuns S sub w (queued l calls w)
      unfolding queued
      queued-StillRuns l calls w known runs = (
        record {
          plugged = runs.plugged;
          watched = runs.watched;
          sock = runs.sock;
          joined = runs.joined;
          notif = runs.notif;
          subs = runs.subs;
          store =
              aside-IsStore S w runs.store (record w.gate { queue = l }) w.store.subs calls w.host;
          kinds = λ h q j st. runs.kinds h q j st;
          public = λ h q j st. runs.public h q j st;
          queue = known;
        },
        refl,
      )

      drain-EndsRunning :
          (n : ℕ) (w : World) (queue : List Ntf)
          → w.gate.queue ≡ queue
          → length queue < n
          → IsRunning S sub w
          → EndsRunning w (drain Y notif n w)
      unfolding queued
      drain-EndsRunning zero w queue e fuel runs = absurd (omega (arith, fuel))
      drain-EndsRunning (suc n) w [] e fuel runs = rw (drain-none w Y notif n e) (runs, refl)
      drain-EndsRunning (suc n) w (ntf ∷ rest) e fuel runs =
          let known : Known (ntf ∷ rest) = subst Known e runs.queue in
          rw (drain-some w Y notif n ntf rest e) (
            go (notify_change Y notif ntf (queued rest w.calls w))
              (notify_change-KeepsRunning ntf (queued rest w.calls w) known.0
                (queued-StillRuns rest w.calls w known.1 runs).0)
              (λ u same. drain-EndsRunning n u rest same (omega (arith, fuel))))
        where
          go :
              (r : Run (Unit {0}))
              → KeepsRunning (queued rest w.calls w) r
              → ((u : World)
                  → u.gate.queue ≡ rest
                  → IsRunning S sub u
                  → EndsRunning u (drain Y notif n u))
              → EndsRunning w (and_then r (λ _. drain Y notif n))
          go (done _ u) ((runs', k), same) ih =
              Ends-mono _ _ _ _ (drain Y notif n u) (λ _ v (x, y). (x, y ∙ k))
                (λ _ v (x, y). (x, y ∙ k)) (ih u same runs')
          go (fail e u) h ih = h.0
          go fault h ih = elim h [ ]

      Known-append : (l m : List Ntf) → Known l → Known m → Known (l ++ m)
      Known-append [] m h k = k
      Known-append (ntf ∷ l) m (this, h) k = (this, Known-append l m h k)

      -- The worker that is polled on the gate's descriptor.
      pub dispatch_notif-EndsRunning :
          Notes Y
          → (P : Srplug) (w : World) → IsRunning S sub w
          → EndsRunning w (dispatch_notif P S Y notif w)
      unfolding dispatch_notif notify_changes queued
      dispatch_notif-EndsRunning notes P w runs =
          let found : List Ntf = w.gate.queue ++ Y.on_ntf_check w.calls in
          let known : Known found =
            Known-append w.gate.queue (Y.on_ntf_check w.calls) runs.queue (notes w.calls) in
          drain-EndsRunning (suc (length found)) (queued found (ntf_check ∷ w.calls) w) found refl
            (omega arith) (queued-StillRuns found (ntf_check ∷ w.calls) w known runs).0
