-- ===== src/Sample/Restore.antt =====
-- A sample program's gate, and the interface that its argument names, around what it does with it.
use nlif.Prelude.{
  ℕ, ◌≡◌, ◌≢◌, refl, sym, ◌∙◌, ap, inl, inr, Bool-cases, true, false, Option, none, some, List, [],
  ◌∷◌, ◌==◌, arith,
}
use nlif.Errno.{ok, Result-cases}
use nlif.Link.{Link}
use nlif.Stroll.{Ptr, Stroll}
use nlif.Stroll.Laws.{IsLawful}
use nlif.Ynl.{GetReq, Ynl, create}
use nlif.Iface.{Iface, fill}
use nlif.World.{World, Run, M, done, fail, fault, either, pure, ◌>>◌, and_then}
use nlif.World.Returns.{Returns, Ends, Returns-mono}
use nlif.Gate.{islink_valid}
use nlif.Gate.Links.{fill-IsIface}
use nlif.Gate.Requests.{index_req, name_req}
use nlif.Lifecycle.{uninit, create_byidx, create_byname}
use nlif.Lifecycle.Balance.{loaded, Asked, Created, Balanced, create_byidx-Ends, create_byname-Ends}
use nlif.Apply.Request.{fill-Coherent}
use nlif.Apply.Session.{Agrees}
use nlif.Sample.{Exit, exit, with_target, with_gate}
use nlif.Sample.Args.{Target, by_index, by_name, invalid_index, invalid_name}
use nlif.Sample.Outcome.{setlinks, Done, IsShowable, Answering}
use nlif.Gate

-- The heap and the daemon's part are as before, and the program succeeds only where no RTM_SETLINK
-- was sent.
pub record Restored (w : World) (x : Exit) (u : World) : Type 0 where
  pub mem : (q : Ptr) → u.mem q ≡ w.mem q
  pub hndls : (h : Ptr) → u.hndls h ≡ w.hndls h
  pub host : u.host ≡ w.host
  pub unsent : x.success ≡ true → setlinks u.calls ≡ setlinks w.calls

pub unchanged : (w : World) (x : Exit) → Restored w x w
unchanged w x = record { mem = λ q. refl; hndls = λ h. refl; host = refl; unsent = λ s. refl }

Done-Restored :
    (p : Ptr) (w v : World) (x : Exit) (u : World) (req : GetReq)
    → w.mem p ≡ none
    → ((q : Ptr) → p ≢ q → v.mem q ≡ w.mem q)
    → Asked req w v
    → Done p v x u
    → Restored w x u
unfolding setlinks
Done-Restored p w v x u req unused others asked d = record {
  mem = λ q. elim (Bool-cases (p == q)) [
    | inl same ↦
        let here : p ≡ q = ground arith in sym (ap u.mem here) ∙ d.gone ∙ sym unused ∙ ap w.mem here
    | inr other ↦ let n : p ≢ q = ground arith in d.like.mem q n ∙ others q n
  ];
  hndls = λ h. ap (λ f. f h) (d.like.hndls ∙ asked.hndls);
  host = d.like.host ∙ asked.host;
  unsent = λ s. d.unsent s ∙ ap setlinks asked.calls;
}

module _ (ffs : ℕ → ℕ) (flag_text : ℕ → Option (List ℕ)) (S : Stroll) (laws : IsLawful S) (Y : Ynl)
    (gate : Ptr) (use_iface : Ptr → M Exit) where
  -- The program uses an interface that agrees with the kernel's link and destroys it.
  abbrev pub Destroys : Type 0
  Destroys =
      (p : Ptr) (l : Link) (w : World) (i : Iface)
      → IsShowable ffs flag_text l
      → w.mem p ≡ some i
      → w.gate.notif ≡ false
      → Agrees S l i
      → Returns (Done p w) (use_iface p w)

  module _ (destroys : Destroys) (answering : Answering ffs flag_text Y) (w : World)
      (unused : w.mem w.brk ≡ none) (quiet : w.gate.notif ≡ false) where
    loaded-Agrees :
        (l : Link)
        → IsShowable ffs flag_text l
        → islink_valid l ≡ ok tt
        → Agrees S l (loaded S l gate)
    unfolding fill
    loaded-Agrees l h valid = (
      fill-IsIface S laws l (record uninit { gate = gate }) h.is_link valid,
      fill-Coherent S laws l (record uninit { gate = gate }) h.is_link.flags,
    )

    Created-Restored :
        (req : GetReq) (r : Run Ptr)
        → Ends (Created S Y w gate req) (λ _. Balanced S Y w gate req) r
        → Returns (Restored w) (either r use_iface (λ e. pure (exit false [])))
    Created-Restored req (done p v) (here, (lnk, ans, at), others, asked) =
        Returns-mono _ _ (use_iface p v)
          (λ x u d. Done-Restored p w v x u req (ap w.mem here ∙ unused) others asked d)
          (destroys p lnk v (loaded S lnk gate) (answering.showable _ _ lnk ans.0) at
            (ap (λ g. g.notif) asked.gate ∙ quiet)
            (loaded-Agrees lnk (answering.showable _ _ lnk ans.0) ans.1))
    Created-Restored req (fail e v) (same, asked) = record {
      mem = same;
      hndls = λ h. ap (λ f. f h) asked.hndls;
      host = asked.host;
      unsent = λ f. cc;
    }
    Created-Restored req fault h = elim h [ ]

    pub with_target-Restored :
        (t : Target) → Returns (Restored w) (with_target S Y gate use_iface t w)
    unfolding with_target
    with_target-Restored (by_index index) =
        Created-Restored (index_req index) (create_byidx S Y index gate w)
          (create_byidx-Ends S Y w gate unused index)
    with_target-Restored (by_name name) =
        Created-Restored (name_req name) (create_byname S Y name gate w)
          (create_byname-Ends S Y w gate unused name)
    with_target-Restored invalid_index = unchanged w (exit true [])
    with_target-Restored invalid_name = unchanged w (exit true [])

-- Once the program ends, the socket is closed too.
abbrev pub Ended : World → Exit → World → Type 0
Ended w x u = Restored w x u × (u.gate.sock ≡ false)

-- The memory once the gate is there.
abbrev pub opened : World → World
opened w = record w {
  gate = record { sock = true; notif = false; joined = false; queue = [] };
  calls = create ∷ w.calls;
}

module _ (Y : Ynl) (body : M Exit) (w : World) (closed : w.gate.sock ≡ false) where
  closed-Ended :
      (r : Run Exit)
      → Returns (Restored (opened w)) r
      → Returns (Ended w) (and_then r (λ x. Gate.fini Y >> pure x))
  unfolding Gate.fini setlinks
  closed-Ended (done x u) h =
      (record { mem = h.mem; hndls = h.hndls; host = h.host; unsent = h.unsent }, refl)
  closed-Ended (fail e u) h = elim h [ ]
  closed-Ended fault h = elim h [ ]

  pub with_gate-Ended :
      Returns (Restored (opened w)) (body (opened w)) → Returns (Ended w) (with_gate Y body w)
  unfolding with_gate Gate.init setlinks
  with_gate-Ended h = elim (Result-cases (Y.on_create w.calls)) [
    | inl (_, e) ↦ rw e (closed-Ended (body (opened w)) h)
    | inr (code, e) ↦
        rw e (record { mem = λ q. refl; hndls = λ h. refl; host = refl; unsent = λ f. cc }, closed)
  ]
