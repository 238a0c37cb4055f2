-- ===== src/Sample/ShowIface/Safe.antt =====
-- The whole of sample/show_iface.c.
use nlif.Prelude.{
  ℕ, ◌≡◌, refl, sym, ap, subst, ◌∙◌, true, false, Option, some, List, [], ◌∷◌, arith,
}
use nlif.Errno.{ok}
use nlif.Link.{Link}
use nlif.Stroll.{Ptr, Stroll}
use nlif.Stroll.Laws.{IsLawful}
use nlif.Ynl.{Ynl, dump}
use nlif.Iface.{Iface}
use nlif.World.{
  World, Run, M, done, fail, fault, either, and_then, pure, gets, ◌>>=◌, ◌>>◌, log_call,
}
use nlif.World.Returns.{Returns, Ends}
use nlif.Gate.{links_req, islink_valid}
use nlif.Gate
use nlif.Lifecycle.{uninit}
use nlif.Apply.Session.{Agrees}
use nlif.Settings.State.{sync_state}
use nlif.Store.{init, load, fini, reinit}
use nlif.Store.Events.{on_event, unheard}
use nlif.Store.Arrive.{AllOf}
use nlif.Store.Init.{initial, initial-IsStore, initial-AllOf}
use nlif.Store.Load.{Give, Loaded, load-Loaded}
use nlif.Store.Release.{Freed, Beside, quiet, fini-Freed}
use nlif.Printing.Clean.{IsPrintable}
use nlif.Sample.{Exit, exit, no_subscriber}
use nlif.Sample.Args.{target}
use nlif.Sample.Outcome.{
  IsShowable, Answering, Done, Like-refl, Agrees-IsPrintable, filled-IsPrintable, setlinks,
}
use nlif.Sample.Restore.{Restored, Ended, unchanged, opened, with_target-Restored, with_gate-Ended}
use nlif.Sample.SetIface.{finish}
use nlif.Sample.SetIface.Finish.{finish-Done}
use nlif.Sample.ShowIface.{show_iface, show_each, show_store, show_args, show_main}
use nlif.Sample.ShowIface.Each.{
  IsUnused, AllShowable, Listing, show_each-lines, mem_back, hndls_back,
}

module _ (ffs : ℕ → ℕ) (flag_text : ℕ → Option (List ℕ)) (S : Stroll) (laws : IsLawful S)
    (Y : Ynl) where
  -- It ends as sample/set_iface.c does.
  show_iface-finish :
      (p : Ptr) (w : World) → show_iface ffs flag_text S Y p w ≡ finish ffs flag_text S Y true p w
  unfolding show_iface finish
  show_iface-finish p w = refl

  show_iface-Done :
      (p : Ptr) (l : Link) (w : World) (i : Iface)
      → IsShowable ffs flag_text l
      → w.mem p ≡ some i
      → w.gate.notif ≡ false
      → Agrees S l i
      → Returns (Done p w) (show_iface ffs flag_text S Y p w)
  show_iface-Done p l w i h at still a = rw (show_iface-finish p w) (
      finish-Done ffs flag_text S laws Y p true w w w i
        (sync_state S Y no_subscriber p w i at i.state refl a.0.state) at
        (Agrees-IsPrintable ffs flag_text S laws l i h a) (Like-refl p w) (λ _. refl))

  module _ (gate : Ptr) where
    give :
        (links : List Link)
        → AllShowable ffs flag_text links
        → Give S (IsPrintable ffs flag_text) gate links
    give [] h = tt
    give (l ∷ links) (h, rest) = (
      λ valid. filled-IsPrintable ffs flag_text S laws l (record uninit { gate = gate }) h valid,
      give links rest,
    )

    -- What follows a successful load.
    shown : M Exit
    shown = gets (λ w. w.store.ifaces) >>= λ hs.
        show_each ffs flag_text S Y gate hs >>= λ lines. fini S >> pure (exit true lines)

    module _ (listing : Listing ffs flag_text Y) (w : World) (unused : IsUnused w) where
      shown-Restored :
          (links : List Link) (u : World)
          → AllShowable ffs flag_text links
          → Loaded S
              (IsPrintable ffs flag_text)
              gate
              links
              (log_call (dump links_req) (initial w))
              u
          → Returns (Restored w) (shown u)
      unfolding shown setlinks
      shown-Restored links u h r =
          let all : AllOf (IsPrintable ffs flag_text) u =
            r.all (give links h) (initial-AllOf _ w) in
          let (lines, run) = show_each-lines ffs flag_text S Y gate u.store.ifaces u (λ h e.
            let (q, i, at, _) = r.store.live h e in (q, i, at, all h q i (e, at.0, at.1))) in
          rw run
            (finished (fini S u) lines (fini-Freed S u r.store (λ h q j st. (all h q j st).kind)))
        where
          finished :
              (x : Run (Unit {0})) (lines : _)
              → Returns (λ _ x. Freed u.store.ifaces u x × Beside (quiet u) x) x
              → Returns (Restored w) (and_then x (λ _. pure (exit true lines)))
          finished (done _ x) lines (f, b) = record {
            mem =
                mem_back S (log_call (dump links_req) (initial w)) u x
                  (record { mem = unused.mem; hndls = unused.hndls }) refl r.store r.grows f;
            hndls =
                hndls_back S (log_call (dump links_req) (initial w)) u x
                  (record { mem = unused.mem; hndls = unused.hndls }) refl r.store r.grows f;
            host = b.host ∙ r.apart.host;
            unsent = λ _. ap setlinks (b.calls ∙ r.calls);
          }
          finished (fail e x) lines h = elim h [ ]
          finished fault lines h = elim h [ ]

      show_store-Restored : Returns (Restored w) (show_store ffs flag_text S Y gate w)
      unfolding show_store init reinit Gate.subscribe shown setlinks
      show_store-Restored = go (load S Y (on_event S unheard gate) (initial w)) (
          load-Loaded S laws Y unheard gate (IsPrintable ffs flag_text) (initial w)
            (initial-IsStore S w) refl)
        where
          go :
              (r : Run (Unit {0}))
              → Ends
                  (λ _ u.
                    (links : List Link) × (Y.on_dump w.calls links_req ≡ ok links)
                    × Loaded S
                        (IsPrintable ffs flag_text)
                        gate
                        links
                        (log_call (dump links_req) (initial w))
                        u)
                  (λ e u. u ≡ log_call (dump links_req) (initial w))
                  r
              → Returns (Restored w) (either r (λ _. shown) (λ e. pure (exit false [])))
          go (done _ u) (links, e, r) = shown-Restored links u (listing _ _ links e) r
          go (fail e u) same =
              subst (Restored w (exit false [])) (sym same)
                (record { mem = λ q. refl; hndls = λ h. refl; host = refl; unsent = λ f. cc })
          go fault h = elim h [ ]

      module _ (answering : Answering ffs flag_text Y) (quiet : w.gate.notif ≡ false) where
        show_args-Restored :
            (args : List (List ℕ)) → Returns (Restored w) (show_args ffs flag_text S Y gate args w)
        unfolding show_args
        show_args-Restored [] = show_store-Restored
        show_args-Restored ([] ∷ []) = unchanged w (exit true [])
        show_args-Restored ((c ∷ arg) ∷ []) =
            with_target-Restored ffs flag_text S laws Y gate (show_iface ffs flag_text S Y)
              show_iface-Done answering w (unused.mem w.brk (omega arith)) quiet (target (c ∷ arg))
        show_args-Restored (_ ∷ _ ∷ _) = unchanged w (exit true [])

    -- For a lawful stroll, a kernel that tells of well-formed links alone, which can be printed,
    -- and a heap with nothing above the next address, the gate's socket not being there: whatever
    -- its arguments, sample/show_iface.c ends without a fault, with its socket closed, every
    -- interface and handle freed and nothing else on the heap changed; where it exits with
    -- EXIT_SUCCESS, it asked the kernel for no change.
    pub show_main-Ended :
        Listing ffs flag_text Y
        → Answering ffs flag_text Y
        → (args : List (List ℕ)) (w : World) → IsUnused w
        → w.gate.sock ≡ false
        → Returns (Ended w) (show_main ffs flag_text S Y gate args w)
    unfolding show_main
    show_main-Ended listing answering args w unused closed =
        with_gate-Ended Y (show_args ffs flag_text S Y gate args) w closed (
          show_args-Restored listing (opened w) (record { mem = unused.mem; hndls = unused.hndls })
            answering refl args)
