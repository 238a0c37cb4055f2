-- ===== src/Daemon/State.antt =====
-- What the daemon holds before it starts and while it runs, and what it relies on of the kernel.
use nlif.Prelude.{◌≤◌, ◌≡◌, ◌⊎◌, true, false, List, [], ◌∷◌}
use nlif.Errno.{ok}
use nlif.Link.{Link}
use nlif.Stroll.{Ptr, Stroll}
use nlif.Ynl.{Ynl, Call, DumpReq, Ntf}
use nlif.World.{World}
use nlif.Store.{emptied}
use nlif.Store.Entry.{IsStore}
use nlif.Store.Arrive.{AllOf, OwnsKind, OwnsKinds}
use nlif.Iface.{Iface}
use nlif.Daemon.Commit.{IsPublic}
use nlif.Daemon.Handlers.{IsPublicLink}

-- The daemon holds nothing: it has no plug-in session, polls nothing, and the gate has neither a
-- socket nor a subscriber.
pub record Idle (w : World) : Type 0 where
  pub plugged : w.host.plugged ≡ false
  pub watched : w.host.watched ≡ false
  pub sock : w.gate.sock ≡ false
  pub joined : w.gate.joined ≡ false
  pub notif : w.gate.notif ≡ false

-- The notifications tell of operational states that the kernel has.
abbrev pub Known : List Ntf → Type 0
Known [] = Unit
Known (ntf ∷ rest) = (ntf.obj.operstate ≤ 6) × Known rest

-- It runs: all that is held, and its subscriber is the only one of a well-formed store.
pub record IsRunning (S : Stroll) (sub : Ptr) (u : World) : Type 0 where
  pub plugged : u.host.plugged ≡ true
  pub watched : u.host.watched ≡ true
  pub sock : u.gate.sock ≡ true
  pub joined : u.gate.joined ≡ true
  pub notif : u.gate.notif ≡ true
  pub subs : u.store.subs ≡ sub ∷ []
  pub store : IsStore S u
  pub kinds : OwnsKinds u
  pub public : AllOf IsPublic u
  pub queue : Known u.gate.queue

-- Nothing was allocated or freed, and the store is as it was or empty and without subscribers.
pub record SameHeap (w u : World) : Type 0 where
  pub mem : u.mem ≡ w.mem
  pub hndls : u.hndls ≡ w.hndls
  pub paths : u.host.paths ≡ w.host.paths
  pub store : (u.store ≡ w.store) ⊎ (u.store ≡ record (emptied w.store) { subs = [] })

-- An interface whose kind does not dangle and that can be published.
abbrev pub IsLasting : Iface → Type 0
IsLasting i = OwnsKind i × IsPublic i

abbrev pub AllPublic : List Link → Type 0
AllPublic [] = Unit
AllPublic (lnk ∷ links) = IsPublicLink lnk × AllPublic links

-- The kernel's dumps hold links with names that fit and with its operational states alone.
abbrev pub Lists : Ynl → Type 0
Lists Y =
    (calls : List Call) (req : DumpReq) (links : List Link)
    → Y.on_dump calls req ≡ ok links
    → AllPublic links

-- The kernel's notifications tell of its operational states alone.
abbrev pub Notes : Ynl → Type 0
Notes Y = (calls : List Call) → Known (Y.on_ntf_check calls)
