-- ===== src/Examples/Following.antt =====
-- The theorems on events and on observers, for the store that holds the port of the examples.
use nlif.Prelude.{
  ℕ, ◌≡◌, refl, ◌==◌, if◌then◌else◌, false, List, [], ◌∷◌, ◌++◌, has, inl, inr, Bool-cases, arith,
}
use nlif.Errno.{eexist}
use nlif.Link.{Link}
use nlif.Stroll.Lists.{list_stroll, list_stroll-IsLawful}
use nlif.Ynl.{Ynl}
use nlif.World.{World, M, done, fail}
use nlif.World.Returns.{Ends}
use nlif.Gate.{Event, change, modified, new, reload, notify_changes, rtm_newlink}
use nlif.Gate.Queue.{queued}
use nlif.Gate.Notify.{IsListener, Drained, notify_changes-Drained}
use nlif.Store.Entry.{IsStore, Stands, Bears}
use nlif.Store.Register.{StandsWith}
use nlif.Store.Change.{Changed, on_iface_change-Changed}
use nlif.Store.Rehash.{SameMap, rehash_name-Ends}
use nlif.Store.Follow.{Indexed, Follows, on_iface_reload-Indexed, on_iface_modify-Follows}
use nlif.Store.Events.{rehash_name, on_iface_reload, on_iface_modify, on_iface_change}
use nlif.Examples.{up_alias, eth0, link, obliging, port, memory, listening}
use nlif.Examples.Registry.{one, one-IsStore, port_alias-Owns, on_sub, two-valid}

-- A kernel that sends four notifications: the second is of another kind, and the alias of the third
-- is its name. The subscriber notes each link's index, and refuses the index 3.
abbrev other_link : Link
other_link = record (link []) { ifi_index = 3 }

abbrev talking : Ynl
talking = record obliging {
  on_ntf_check = λ _.
      record { cmd = rtm_newlink; obj = link up_alias }
      ∷ record { cmd = 17; obj = link [] }
      ∷ record { cmd = rtm_newlink; obj = link eth0 }
      ∷ record { cmd = rtm_newlink; obj = other_link }
      ∷ [];
}

abbrev noted : World → List ℕ
noted w = w.store.subs

abbrev note : ℕ → World → World
note k w = record w { store = record w.store { subs = w.store.subs ++ k ∷ [] } }

abbrev writing : Event → M (Unit {0})
writing (change l) w = if l.ifi_index == 3 then fail 16 (note 3 w) else done tt (note l.ifi_index w)
writing (modified p) w = done tt w
writing (new l) w = done tt w
writing (reload p) w = done tt w

writing-IsListener : IsListener (λ l. l.ifi_index) noted writing
unfolding queued
writing-IsListener = record {
  apart = λ l calls w. refl;
  listens = λ l w. elim (Bool-cases (l.ifi_index == 3)) [
    | inl e ↦ rw e (refl, ground arith)
    | inr e ↦ rw e (refl, refl)
  ];
}

notify_changes-Drained_example :
    Drained
      (λ l. l.ifi_index)
      noted
      writing
      (listening (memory (port up_alias)))
      (talking.on_ntf_check [])
      (notify_changes talking writing (listening (memory (port up_alias))))
notify_changes-Drained_example =
    notify_changes-Drained (λ l. l.ifi_index) noted writing talking writing-IsListener
      (listening (memory (port up_alias))) refl

-- The port's link went down.
abbrev down : Link
down = record (link up_alias) { operstate = 2 }

on_iface_change-Changed_example :
    Changed list_stroll on_sub down one (on_iface_change list_stroll on_sub down one)
on_iface_change-Changed_example =
    on_iface_change-Changed list_stroll on_sub one one-IsStore down two-valid

port-Stands : Stands one 4 1 (port up_alias)
unfolding has list_stroll
port-Stands = (refl, refl, refl)

rehash_name-Ends_example :
    Ends
      (λ _ u.
        IsStore list_stroll u
        × SameMap one u
        × ((k : ℕ) → has 4 (u.store.nameh k) ≡ (list_stroll.hash_str eth0 == k)))
      (λ e u.
        (e ≡ eexist)
        × IsStore list_stroll u
        × SameMap one u
        × ((k : ℕ) → has 4 (u.store.nameh k) ≡ false)
        × StandsWith one (Bears eth0))
      (rehash_name list_stroll 4 eth0 one)
rehash_name-Ends_example =
    rehash_name-Ends list_stroll list_stroll-IsLawful one one-IsStore 4 port-Stands.0 eth0

on_iface_reload-Indexed_example :
    Ends
      (λ _ u. IsStore list_stroll u × SameMap one u × Indexed list_stroll 4 (port up_alias) u)
      (λ e u. (e ≡ eexist) × IsStore list_stroll u × SameMap one u)
      (on_iface_reload list_stroll 1 one)
on_iface_reload-Indexed_example =
    on_iface_reload-Indexed list_stroll list_stroll-IsLawful one one-IsStore 4 1 (port up_alias)
      port-Stands port_alias-Owns

on_iface_modify-Follows_example :
    Ends
      (λ _ u. IsStore list_stroll u × SameMap one u × Follows list_stroll 4 (port up_alias) u)
      (λ e u. (e ≡ eexist) × IsStore list_stroll u × SameMap one u)
      (on_iface_modify list_stroll 1 one)
on_iface_modify-Follows_example =
    on_iface_modify-Follows list_stroll list_stroll-IsLawful one one-IsStore 4 1 (port up_alias)
      port-Stands port_alias-Owns
