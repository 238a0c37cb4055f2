-- ===== src/Sample/Mon/Heard.antt =====
-- A change of an interface as sample/mon.c hears of it: it is printed, and the store is as it was.
use nlif.Prelude.{
  ℕ, ◌≡◌, inl, inr, refl, sym, subst, ap, ◌∙◌, Bool, true, false, Option, none, some, List, [], ◌∷◌,
  ◌++◌, Bool-cases, ◌==◌, if◌then◌else◌, ==_refl, arith,
}
use nlif.Errno.{ok, err, Result-cases}
use nlif.Link.{Link, validate_index}
use nlif.Stroll.{Ptr, Stroll}
use nlif.Ynl.{Call, Ntf, Ynl}
use nlif.Iface.{Iface, refresh_state}
use nlif.World.{World, M, done, and_then, or_else, write_iface, pure}
use nlif.World.Returns.{Returns}
use nlif.Gate.{Event, islink_valid}
use nlif.Obsrv
use nlif.Tables.{find_byindex}
use nlif.Store.Entry.{IsStore, some_eq}
use nlif.Store.Arrive.{AllOf}
use nlif.Store.Events.{on_event, on_iface_change, iface_change_evt, unheard}
use nlif.Store.Change.{Changed, on_iface_change-Changed}
use nlif.Printing.Clean.{IsPrintable, iface_print-lines}
use nlif.Sample.Mon.{print_change}

-- The property stays with an interface to which a valid link is notified.
abbrev pub Stays : (Iface → Type 0) → List Ntf → Type 0
Stays P [] = Unit
Stays P (ntf ∷ rest) =
    ((i : Iface) → islink_valid ntf.obj ≡ ok tt → P i → P (refresh_state i ntf.obj).0)
    × Stays P rest

pub Stays-append : (P : Iface → Type 0) (l m : List Ntf) → Stays P l → Stays P m → Stays P (l ++ m)
Stays-append P [] m h k = k
Stays-append P (ntf ∷ l) m (this, h) k = (this, Stays-append P l m h k)

-- The kernel's notifications do that.
abbrev pub Notifying : (Iface → Type 0) → Ynl → Type 0
Notifying P Y = (calls : List Call) → Stays P (Y.on_ntf_check calls)

-- A well-formed store that is subscribed to the gate and tells `sub` alone, all of whose interfaces
-- have the property, which the queued notifications keep.
pub record IsWatched (S : Stroll) (P : Iface → Type 0) (sub : Ptr) (u : World) : Type 0 where
  pub store : IsStore S u
  pub all : AllOf P u
  pub subs : u.store.subs ≡ sub ∷ []
  pub sock : u.gate.sock ≡ true
  pub joined : u.gate.joined ≡ true
  pub notif : u.gate.notif ≡ true
  pub queue : Stays P u.gate.queue

-- It is still so, the store has the same handles, and the queue is that one.
pub record StillWatched (S : Stroll) (P : Iface → Type 0) (sub : Ptr) (queue : List Ntf)
    (w u : World) : Type 0 where
  pub watched : IsWatched S P sub u
  pub ifaces : u.store.ifaces ≡ w.store.ifaces
  pub hndls : u.hndls ≡ w.hndls
  pub host : u.host ≡ w.host
  pub queued : u.gate.queue ≡ queue

pub StillWatched-trans :
    (S : Stroll) (P : Iface → Type 0) (sub : Ptr) (l m : List Ntf) (u v w : World)
    → StillWatched S P sub l u v
    → StillWatched S P sub m v w
    → StillWatched S P sub m u w
StillWatched-trans S P sub l m u v w a b = record {
  watched = b.watched;
  ifaces = b.ifaces ∙ a.ifaces;
  hndls = b.hndls ∙ a.hndls;
  host = b.host ∙ a.host;
  queued = b.queued;
}

module _ (ffs : ℕ → ℕ) (flag_text : ℕ → Option (List ℕ)) (S : Stroll) (Y : Ynl) (gate sub : Ptr)
    (P : Iface → Type 0) (printable : (i : Iface) → P i → IsPrintable ffs flag_text i) where
  abbrev hear : Ptr → ℕ → Ptr → M (Unit {0})
  hear = print_change ffs flag_text S Y gate

  abbrev notif : Event → M (Unit {0})
  notif = on_event S hear gate

  hear-done :
      (s : Ptr) (e : ℕ) (q : Ptr) (w : World) (i : Iface)
      → w.mem q ≡ some i
      → P i
      → hear s e q w ≡ done tt w
  unfolding print_change
  hear-done s e q w i at p =
      let (lines, run) =
        iface_print-lines ffs flag_text S Y (on_event S unheard gate) q w i at (printable i p) in
      rw run refl

  -- The one subscriber is notified.
  notified :
      (l : List Ptr) (q : Ptr) (w : World) (i : Iface)
      → l ≡ sub ∷ []
      → w.mem q ≡ some i
      → P i
      → Obsrv.notify hear l iface_change_evt q w ≡ done tt w
  unfolding Obsrv.notify
  notified l q w i e at p =
      subst (λ l. Obsrv.notify hear l iface_change_evt q w ≡ done tt w) (sym e)
        (ap (λ r. and_then (or_else r (λ e. pure tt)) (λ _. pure tt))
          (hear-done sub iface_change_evt q w i at p))

  not_found :
      (index c : ℕ) (w : World)
      → validate_index index ≡ err c
      → find_byindex S index w ≡ done none w
  unfolding find_byindex
  not_found index c w bad = ground arith

  passed_over :
      (lnk : Link) (w : World) (c : ℕ)
      → validate_index lnk.ifi_index ≡ err c
      → on_iface_change S hear lnk w ≡ done tt w
  unfolding on_iface_change
  passed_over lnk w c bad = rw (not_found lnk.ifi_index c w bad) refl

  module _ (w : World) (v : IsWatched S P sub w) where
    pub same-StillWatched : StillWatched S P sub w.gate.queue w w
    same-StillWatched = record {
      watched = v;
      ifaces = refl;
      hndls = refl;
      host = refl;
      queued = refl;
    }

    -- Another value at the address of an interface.
    written-AllOf : (q : Ptr) (j : Iface) → P j → AllOf P (write_iface q (some j) w)
    written-AllOf q j p h r k (listed, a, b) = elim (Bool-cases (q == r)) [
      | inl here ↦ subst P (some_eq j k (ground arith)) p
      | inr other ↦ v.all h r k (listed, a, ground arith)
    ]

    written-StillWatched :
        (q : Ptr) (j : Iface)
        → IsStore S (write_iface q (some j) w)
        → P j
        → StillWatched S P sub w.gate.queue w (write_iface q (some j) w)
    written-StillWatched q j good p = record {
      watched = record {
        store = good;
        all = written-AllOf q j p;
        subs = v.subs;
        sock = v.sock;
        joined = v.joined;
        notif = v.notif;
        queue = v.queue;
      };
      ifaces = refl;
      hndls = refl;
      host = refl;
      queued = refl;
    }

    pub on_iface_change-StillWatched :
        (lnk : Link)
        → ((i : Iface) → P i → P (refresh_state i lnk).0)
        → Returns (λ _ u. StillWatched S P sub w.gate.queue w u) (on_iface_change S hear lnk w)
    on_iface_change-StillWatched lnk stays = elim (Result-cases (validate_index lnk.ifi_index)) [
      | inr (c, bad) ↦ rw (passed_over lnk w c bad) same-StillWatched
      | inl (_, valid) ↦ go (on_iface_change-Changed S hear w v.store lnk valid)
    ]
      where
        told :
            (q : Ptr) (j : Iface)
            → P j
            → IsStore S (write_iface q (some j) w)
            → (b : Bool)
            → Returns
                (λ _ u. StillWatched S P sub w.gate.queue w u)
                ((if b then Obsrv.notify hear w.store.subs iface_change_evt q else done tt)
                  (write_iface q (some j) w))
        told q j p good true =
            rw
              (notified w.store.subs q (write_iface q (some j) w) j v.subs
                (ground (arith, ==_refl q)) p)
              (written-StillWatched q j good p)
        told q j p good false = written-StillWatched q j good p

        go :
            Changed S hear lnk w (on_iface_change S hear lnk w)
            → Returns (λ _ u. StillWatched S P sub w.gate.queue w u) (on_iface_change S hear lnk w)
        go (inl (_, same)) = rw same same-StillWatched
        go (inr (q, i, (h, i', st, _), at, _, good, same)) = rw same (
            told q (refresh_state i lnk).0 (stays i (v.all h q i (st.0, st.1, at))) good
              (refresh_state i lnk).1)
