-- ===== src/Gate.antt =====
-- lib/gate.c and the inline functions of lib/gate.h: requests to the kernel over the netlink socket
-- and the events passed on to the one subscriber.
pub mod Links
pub mod Requests
pub mod Queue
pub mod Notify
use nlif.Prelude.{
  ℕ, zero, suc, Bool, true, false, ◌&&◌, Option, none, some, List, [], ◌∷◌, ltb, ◌==◌,
  if◌then◌else◌, length, str_eq, ◌++◌,
}
use nlif.Errno.{Result, ok, err, eio, einval, enodev}
use nlif.Link.{Link}
use nlif.Stroll.{Ptr}
use nlif.Ynl.{
  GetReq, DumpReq, SetReq, LinkStats, Ntf, Call, getlink, setlink, dump, stats, ntf_check, join,
  leave, create, destroy, Ynl,
}
use nlif.World.{
  Gate, World, M, done, fault, pure, raise, ◌>>=◌, ◌>>◌, on_error, lift, gets, modify, log_call,
}

-- `enum nlif_link_event`, each with its data.
pub data Event : Type 0 where
  change : Link → Event
  modified : Ptr → Event
  new : Link → Event
  reload : Ptr → Event

abbrev pub rtext_filter_skip_stats : ℕ
rtext_filter_skip_stats = 8

abbrev pub rtm_newlink : ℕ
rtm_newlink = 16

unfoldable pub names_equal : ℕ → ℕ → List ℕ → List ℕ → Bool
names_equal alength blength aname bname = alength == blength && str_eq aname bname

unfoldable pub islink_valid : Link → Result (Unit {0})
unfolding names_equal
islink_valid link =
    if names_equal (length link.ifname) (length link.ifalias) link.ifname link.ifalias
    then err einval
    else ok tt

abbrev pub with_gate : (Gate → Gate) → World → World
with_gate f w = record w { gate = f w.gate }

-- `nlif_gate_subscribe`, `nlif_gate_unsubscribe`: the callback itself is a parameter of its callers.
unfoldable pub subscribe : M (Unit {0})
subscribe = modify (with_gate λ g. record g { notif = true })

unfoldable pub unsubscribe : M (Unit {0})
unsubscribe = modify (with_gate λ g. record g { notif = false })

-- `ynl_ntf_dequeue`
unfoldable pub dequeue : M (Option Ntf)
dequeue w = elim w.gate.queue [
  | [] ↦ done none w
  | ntf ∷ rest ↦ done (some ntf) (record w { gate = record w.gate { queue = rest } })
]

unfoldable pub notify : (Event → M (Unit {0})) → Event → M (Unit {0})
notify notif event w = (if w.gate.notif then notif event else pure tt) w

-- Statistics are left out, and so are the links that have a master.
abbrev pub links_req : DumpReq
links_req = record { ext_mask = rtext_filter_skip_stats; master = some 0 }

module _ (Y : Ynl) where
  -- `nlif_ynl_err` of lib/common.h
  unfoldable pub ynl_err : ℕ → ℕ
  ynl_err code = if ltb code Y.errno_end then code else eio

  abbrev pub request : {A : Type 0} → Call → (List Call → Result A) → M A
  request call answer w =
      on_error (lift (answer w.calls)) (λ code. raise (ynl_err code)) (log_call call w)

  unfoldable pub send_getlink : GetReq → M Link
  unfolding ynl_err
  send_getlink req = do
    lnk ←
        request (getlink (record req { ext_mask = rtext_filter_skip_stats }))
          (λ calls. Y.on_getlink calls (record req { ext_mask = rtext_filter_skip_stats }))
    lift (islink_valid lnk)
    pure lnk

  unfoldable pub load_link_byidx : ℕ → M Link
  load_link_byidx index = send_getlink (record { ifi_index = index; ifname = none; ext_mask = 0 })

  unfoldable pub load_link_byname : List ℕ → M Link
  load_link_byname name = send_getlink (record { ifi_index = 0; ifname = some name; ext_mask = 0 })

  unfoldable pub load_link_stats : ℕ → M LinkStats
  unfolding ynl_err
  load_link_stats index = request (stats index) (λ calls. Y.on_getstats calls index)

  unfoldable pub send_setlink : SetReq → M (Unit {0})
  unfolding ynl_err
  send_setlink req = request (setlink req) (λ calls. Y.on_setlink calls req)

  -- `nlif_gate_init`, where the gate's memory is that of `w.gate`.
  unfoldable pub init : M (Unit {0})
  unfolding ynl_err
  init = do
    request create Y.on_create
    modify (with_gate λ g. record { sock = true; notif = false; joined = false; queue = [] })

  unfoldable pub enable_change_notif : M (Unit {0})
  enable_change_notif = do
    calls ← gets (λ w. w.calls)
    modify (log_call join)
    lift (Y.on_join calls)
    modify (with_gate λ g. record g { joined = true })

  unfoldable pub disable_change_notif : M (Unit {0})
  disable_change_notif = do
    modify (log_call leave)
    modify (with_gate λ g. record g { joined = false })

  unfoldable pub fini : M (Unit {0})
  fini = do
    modify (log_call destroy)
    modify (with_gate λ g. record g { sock = false; joined = false; queue = [] })

  module _ (notif : Event → M (Unit {0})) where
    -- The `ynl_dump_foreach` of `nlif_gate_load_links`: an invalid link is skipped.
    unfoldable pub load_each : List Link → M (Unit {0})
    load_each [] = pure tt
    load_each (lnk ∷ rest) = elim (islink_valid lnk) [
      | err e ↦ load_each rest
      | ok _ ↦ notify notif (new lnk) >> load_each rest
    ]

    unfoldable pub load_dumped : List Link → M (Unit {0})
    unfolding load_each
    load_dumped [] = raise enodev
    load_dumped (lnk ∷ rest) = load_each (lnk ∷ rest)

    unfoldable pub load_links : M (Unit {0})
    unfolding load_dumped ynl_err
    load_links = do
      lst ← request (dump links_req) (λ calls. Y.on_dump calls links_req)
      load_dumped lst

    -- One turn of the loop of `nlif_gate_notify_changes`.
    unfoldable pub notify_change : Ntf → M (Unit {0})
    notify_change ntf =
        if ntf.cmd == rtm_newlink
        then elim (islink_valid ntf.obj) [ err e ↦ pure tt | ok _ ↦ notify notif (change ntf.obj) ]
        else pure tt

    -- The loop, which dequeues until the queue is empty; it faults where its fuel ends.
    unfoldable pub drain : ℕ → M (Unit {0})
    unfolding notify_change dequeue
    drain zero = λ _. fault
    drain (suc n) = do
      found ← dequeue
      elim found [ none ↦ pure tt | some ntf ↦ (do notify_change ntf; drain n) ]

    unfoldable pub notify_changes : M (Unit {0})
    unfolding drain
    notify_changes = do
      calls ← gets (λ w. w.calls)
      modify (log_call ntf_check)
      modify (with_gate λ g. record g { queue = g.queue ++ Y.on_ntf_check calls })
      queue ← gets (λ w. w.gate.queue)
      drain (suc (length queue))
