-- ===== src/Daemon/Publish.antt =====
-- `nlifd_iface_setup_oper_dstore`: the status of the interfaces as a list of requests.
use nlif.Prelude.{
  ℕ, suc, ◌+◌, ◌≤◌, ◌<◌, ◌≡◌, refl, sym, subst, ap, ◌∙◌, inl, inr, Bool, true, false, Option, none,
  some, List, [], ◌∷◌, ◌++◌, if◌then◌else◌, length, length-append, has, ==_refl, Bool-cases, arith,
  codes, dec_str, ltb,
}
use nlif.Errno.{ok}
use nlif.Link.Print.{operstate_str, hwaddr_str}
use nlif.Link.Validate.{IsName}
use nlif.Stroll.{Ptr}
use nlif.Iface.{Iface, admstate}
use nlif.World.{
  World, Request, edit, apply_changes, switch_dstore, M, done, pure, ◌>>◌, and_then, get_iface,
}
use nlif.World.Returns.{and_then_assoc}
use nlif.Tables.{hndl_iface}
use nlif.Store.Entry.{Refers}
use nlif.Srplug.{SrError, sr_ok, is_ok, next_ok, Srplug, with_host, free_path, ask}
use nlif.Daemon.{named_path, concat_leaf_path, fill_path_name}
use nlif.Daemon.Oper.{
  fill_admstate, fill_operstate, fill_index, fill_hwaddr, if_mib, refresh_oper, setup_iface,
  setup_each, setup_oper_dstore,
}

-- Requests made in turn after others, up to the first that is refused: its answer, or success, and
-- all requests then made.
unfoldable pub answered : Srplug → List Request → List Request → SrError × List Request
answered P [] past = (sr_ok, past)
answered P (r ∷ rs) past =
    let rest = answered P rs (r ∷ past) in
    if is_ok (P.on_request past r) then rest else (P.on_request past r, r ∷ past)

abbrev pub text_of : Option (List ℕ) → List ℕ
text_of none = []
text_of (some s) = s

-- The leaves of an interface, those of the `if-mib` feature where it is on.
abbrev pub when : Bool → Request → List Request → List Request
when on r rs = if on then r ∷ rs else rs

pub iface_edits : Bool → Iface → List Request
iface_edits on i =
    when on (edit (path ++ codes "/admin-status") (if admstate i then codes "up" else codes "down"))
      (edit (path ++ codes "/oper-status") (text_of (operstate_str i.opstat))
        ∷ when on (edit (path ++ codes "/if-index") (dec_str i.idx))
            (edit (path ++ codes "/phys-address") (hwaddr_str i.hwadr) ∷ []))
  where
    path : List ℕ
    path = named_path i.name

-- The interfaces of these handles.
unfoldable pub ifaces_at : (Ptr → Option Ptr) → (Ptr → Option Iface) → List Ptr → List Iface
ifaces_at hndls mem [] = []
ifaces_at hndls mem (h ∷ hs) = elim (hndls h) [
  | none ↦ ifaces_at hndls mem hs
  | some q ↦ elim (mem q) [ none ↦ ifaces_at hndls mem hs | some i ↦ i ∷ ifaces_at hndls mem hs ]
]

pub ifaces_at-cons :
    (w : World) (h q : Ptr) (i : Iface) (hs : List Ptr)
    → Refers w h q i
    → ifaces_at w.hndls w.mem (h ∷ hs) ≡ i ∷ ifaces_at w.hndls w.mem hs
unfolding ifaces_at
ifaces_at-cons w h q i hs r = ground (arith, r.0, r.1)

pub all_edits : Bool → List Iface → List Request
all_edits on [] = []
all_edits on (i ∷ is) = iface_edits on i ++ all_edits on is

pub sr_ok_of : (e : SrError) → is_ok e ≡ true → e ≡ sr_ok
unfolding is_ok
sr_ok_of e h = ground arith

operstate_shown : (n : ℕ) → n ≤ 6 → operstate_str n ≡ some (text_of (operstate_str n))
unfolding operstate_str
operstate_shown n h = ground arith

ltb_of_lt : (a b : ℕ) → a < b → ltb a b ≡ true
ltb_of_lt a b h = ground arith

named_path-length : (name : List ℕ) → length (named_path name) ≡ 46 + length name
named_path-length name = omega (arith, length-append name (codes "']"))

edits_split :
    (on : Bool) (a o x h : Request)
    → when on a (o ∷ when on x (h ∷ [])) ≡ (when on a [] ++ o ∷ []) ++ (when on x [] ++ h ∷ [])
edits_split true a o x h = refl
edits_split false a o x h = refl

module _ (P : Srplug) where
  abbrev pub made : SrError × List Request → World → World
  made r = with_host λ h. record h { requests = r.1 }

  -- The outcome of requests made in turn.
  abbrev pub Answers : World → List Request → M SrError → Type 0
  Answers w rs m =
      m w ≡ done (answered P rs w.host.requests).0 (made (answered P rs w.host.requests) w)

  pub answered-append :
      (rs ts past : List Request)
      → answered P (rs ++ ts) past ≡ (
          if is_ok (answered P rs past).0
          then answered P ts (answered P rs past).1
          else answered P rs past)
  unfolding answered is_ok
  answered-append [] ts past = refl
  answered-append (r ∷ rs) ts past = elim (Bool-cases (is_ok (P.on_request past r))) [
    | inl fine ↦ rw fine (answered-append rs ts (r ∷ past))
    | inr refused ↦ rw refused (rw refused refl)
  ]

  pub Answers-ask : (w : World) (r : Request) → Answers w (r ∷ []) (ask P r)
  unfolding answered ask
  Answers-ask w r = elim (Bool-cases (is_ok (P.on_request w.host.requests r))) [
    | inl fine ↦ rw fine (rw (sr_ok_of _ fine) refl)
    | inr refused ↦ rw refused refl
  ]

  -- `err = m; if (err != SR_ERR_OK) return err; return k;`
  Answers-next :
      (w : World) (rs ts : List Request) (m k : M SrError)
      → Answers w rs m
      → Answers (made (answered P rs w.host.requests) w) ts k
      → Answers w (rs ++ ts) (λ v. and_then (m v) (λ e. next_ok e k))
  Answers-next w rs ts m k first second = rw first (
      rw (answered-append rs ts w.host.requests)
        (elim (Bool-cases (is_ok (answered P rs w.host.requests).0)) [
          | inl fine ↦ rw fine second
          | inr refused ↦ rw refused refl
        ]))

  -- The same with nothing to ask.
  Answers-ok : (w : World) → Answers w [] (λ v. done sr_ok v)
  unfolding answered
  Answers-ok w = refl

  Answers-when :
      (on : Bool) (w : World) (r : Request) (m : M SrError)
      → Answers w (r ∷ []) m
      → Answers w (when on r []) (if on then m else λ v. done sr_ok v)
  Answers-when true w r m h = h
  Answers-when false w r m h = Answers-ok w

  module _ (room : 74 < P.xpath_size) (printf : (path : List ℕ) → P.on_printf path ≡ ok tt)
      (i : Iface) (named : IsName i.name) (shown : i.opstat ≤ 6) where
    abbrev path : List ℕ
    path = named_path i.name

    fits : (leaf : List ℕ) → length leaf ≤ 13 → length path + length leaf < P.xpath_size
    fits leaf short = omega (arith, named_path-length i.name)

    concat_lem :
        (leaf : List ℕ) (w : World)
        → length leaf ≤ 13
        → concat_leaf_path P path leaf w ≡ done (path ++ leaf) w
    unfolding concat_leaf_path
    concat_lem leaf w short = rw (ltb_of_lt _ _ (fits leaf short)) refl

    fill_admstate-Answers :
        (w : World)
        → Answers w
            (edit (path ++ codes "/admin-status") (if admstate i then codes "up" else codes "down")
              ∷ [])
            (fill_admstate P path i)
    unfolding fill_admstate
    fill_admstate-Answers w =
        rw (concat_lem (codes "/admin-status") w (omega arith)) (Answers-ask w _)

    fill_operstate-Answers :
        (w : World)
        → Answers w
            (edit (path ++ codes "/oper-status") (text_of (operstate_str i.opstat)) ∷ [])
            (fill_operstate P path i)
    unfolding fill_operstate
    fill_operstate-Answers w =
        rw (operstate_shown i.opstat shown)
          (rw (concat_lem (codes "/oper-status") w (omega arith)) (Answers-ask w _))

    fill_index-Answers :
        (w : World)
        → Answers w (edit (path ++ codes "/if-index") (dec_str i.idx) ∷ []) (fill_index P path i)
    unfolding fill_index
    fill_index-Answers w = rw (concat_lem (codes "/if-index") w (omega arith)) (Answers-ask w _)

    fill_hwaddr-Answers :
        (w : World)
        → Answers w
            (edit (path ++ codes "/phys-address") (hwaddr_str i.hwadr) ∷ [])
            (fill_hwaddr P path i)
    unfolding fill_hwaddr
    fill_hwaddr-Answers w =
        rw (concat_lem (codes "/phys-address") w (omega arith)) (Answers-ask w _)

    pub refresh_oper-Answers :
        (w : World)
        → Answers w
            (when w.host.if_mib
                (edit
                  (path ++ codes "/admin-status")
                  (if admstate i then codes "up" else codes "down"))
                []
              ++ edit (path ++ codes "/oper-status") (text_of (operstate_str i.opstat)) ∷ [])
            (refresh_oper P path i)
    unfolding refresh_oper
    refresh_oper-Answers w =
        Answers-next w _ _ (if_mib P (fill_admstate P path i)) (fill_operstate P path i)
          (Answers-when w.host.if_mib w _ (fill_admstate P path i) (fill_admstate-Answers w))
          (fill_operstate-Answers _)

    setup_iface-Answers : (w : World) → Answers w (iface_edits w.host.if_mib i) (setup_iface P i)
    unfolding setup_iface fill_path_name iface_edits
    setup_iface-Answers w = rw (printf path) (
        subst (λ rs. Answers w rs steps) (sym (edits_split w.host.if_mib _ _ _ _))
          (Answers-next w _ _ (refresh_oper P path i) rest (refresh_oper-Answers w) (
            Answers-next _ _ _ (if_mib P (fill_index P path i)) (fill_hwaddr P path i)
              (Answers-when w.host.if_mib _ _ (fill_index P path i) (fill_index-Answers _))
              (fill_hwaddr-Answers _))))
      where
        rest : M SrError
        rest =
            λ v. and_then (if_mib P (fill_index P path i) v) (λ e. next_ok e (fill_hwaddr P path i))

        steps : M SrError
        steps = λ v. and_then (refresh_oper P path i v) (λ e. next_ok e rest)

  -- The handle leads to an interface with a name and an operational state that has a text.
  abbrev pub Shown : World → Ptr → Type 0
  Shown w h = (q : Ptr) × (i : Iface) × Refers w h q i × IsName i.name × (i.opstat ≤ 6)

  -- The requests of `nlifd_iface_setup_oper_dstore` behind its first.
  abbrev pub status_requests : World → List Request
  status_requests w =
      all_edits w.host.if_mib (ifaces_at w.hndls w.mem w.store.ifaces) ++ apply_changes ∷ []

  abbrev pub outcome : World → SrError × List Request
  outcome w = answered P (status_requests w) (switch_dstore ∷ w.host.requests)

  module _ (room : 74 < P.xpath_size) (printf : (path : List ℕ) → P.on_printf path ≡ ok tt) where
    setup_each-Answers :
        (hs : List Ptr) (w : World)
        → ((h : Ptr) → has h hs ≡ true → Shown w h)
        → Answers w (all_edits w.host.if_mib (ifaces_at w.hndls w.mem hs)) (setup_each P hs)
    unfolding setup_each hndl_iface get_iface all_edits ifaces_at has
    setup_each-Answers [] w shown = Answers-ok w
    setup_each-Answers (h ∷ hs) w shown =
        let (q, i, r, named, state) = shown h (ground (arith, ==_refl h)) in
        rw (ifaces_at-cons w h q i hs r) (
          rw r.0 (
            rw r.1 (
              Answers-next w _ _ (setup_iface P i) (setup_each P hs)
                (setup_iface-Answers room printf i named state w)
                (setup_each-Answers hs _ (λ g e. shown g (ground arith))))))

    -- The memory once the session is switched and the path buffer is there.
    abbrev asking : World → World
    asking w =
        with_host (λ h. record h { requests = switch_dstore ∷ h.requests; paths = suc h.paths }) w

    -- For path buffers of more than 74 bytes and paths that can be printed, whatever sysrepo
    -- answers, and handles that lead to interfaces with a name and a known operational state:
    -- `nlifd_iface_setup_oper_dstore` is switching the session and then making one list of requests
    -- in turn, up to the first that is refused, whose error comes back. The list has the leaves of
    -- each interface in the store's order, those of the `if-mib` feature where it is on, and the
    -- application of the changes. Nothing else changes, the path buffer is freed, and no buffer is
    -- overrun.
    pub setup_oper_dstore-answered :
        (w : World)
        → ((h : Ptr) → has h w.store.ifaces ≡ true → Shown w h)
        → setup_oper_dstore P w ≡ done (outcome w).0 (made (outcome w) w)
    unfolding setup_oper_dstore ask free_path
    setup_oper_dstore-answered w shown =
        and_then_assoc (setup_each P w.store.ifaces (asking w))
          (λ e. next_ok e (ask P apply_changes)) finish
        ∙ ap (λ r. and_then r finish)
            (Answers-next (asking w) _ (apply_changes ∷ []) (setup_each P w.store.ifaces)
              (ask P apply_changes) (setup_each-Answers w.store.ifaces (asking w) shown)
              (Answers-ask _ apply_changes))
      where
        finish : SrError → M SrError
        finish e = do free_path; pure e
