-- ===== src/Examples/Registry.antt =====
-- The theorems on the store, which holds the port of the examples or nothing.
use nlif.Prelude.{ℕ, ◌≡◌, refl, ◌↔◌, false, true, Option, none, some, List, [], ◌∷◌, has, arith}
use nlif.Errno.{ok, eexist, enodev}
use nlif.Link.{Link, validate_index}
use nlif.Stroll.{Ptr}
use nlif.Stroll.Lists.{list_stroll, list_stroll-IsLawful}
use nlif.Ynl.{dump, join}
use nlif.Iface.{fill}
use nlif.Iface.Valid.{Owns}
use nlif.World.{World, M, done, pure, ◌>>◌, log_call}
use nlif.World.Returns.{Ends, Returns}
use nlif.Gate.{links_req}
use nlif.Store.{init, enroll, withdraw, load, enrolled, enable_change_notif, disable_change_notif}
use nlif.Tables.{find_byindex}
use nlif.Store.Entry.{IsStore, Registered}
use nlif.Store.Enroll.{Extends, after-IsStore}
use nlif.Store.Register.{Clashes, enroll-IsStore}
use nlif.Store.Withdraw.{Drops, withdraw-IsStore}
use nlif.Store.Names.{NamesIndexed, AliasesIndexed}
use nlif.Store.Lookup.{find_byindex-Registered}
use nlif.Store.Arrive.{AllOf, OwnsKind}
use nlif.Store.Load.{AllEntered, Give}
use nlif.Store.Events.{on_event}
use nlif.Store.Init.{initial, init-load}
use nlif.Store.Notif.{enable_change_notif-disable_change_notif}
use nlif.Examples.{eth0, up_alias, obliging, port, memory, listening}

abbrev pub empty : World
empty = memory (port up_alias)

-- Nothing is on an empty list, whatever the gate is.
pub empty_list : ¬ (false ≡ true)
empty_list e = cc

pub empty-IsStore : IsStore list_stroll empty
unfolding has
empty-IsStore = record {
  distinct = tt;
  live = λ h e. cc;
  fresh = λ h e. cc;
  below = λ h q i st. absurd (empty_list st.0);
  in_nameh = λ h k e. cc;
  in_aliash = λ h k e. cc;
  in_indxh = λ h k e. cc;
  hashed = λ h q i k st. absurd (empty_list st.0);
  unique = λ h q h' q' i i' st st' same. absurd (empty_list st.0);
  count = refl;
}

pub port_alias-Owns : Owns (λ _. Unit) (port up_alias).alias
unfolding fill
port_alias-Owns = tt

enroll-IsStore_example :
    Ends
      (λ _ u. IsStore list_stroll u × Extends empty 1 (port up_alias) u × (u.mem ≡ empty.mem))
      (λ e u. (e ≡ eexist) × (u ≡ empty) × Clashes empty (port up_alias))
      (enroll list_stroll 1 empty)
enroll-IsStore_example =
    enroll-IsStore list_stroll empty empty-IsStore list_stroll-IsLawful 1 (port up_alias) refl
      (omega arith) port_alias-Owns

-- The store with the port, whose handle stands at the address 4.
abbrev pub one : World
one =
    enrolled list_stroll 1 (list_stroll.hash (port up_alias).idx) (list_stroll.hash_str eth0) none
      empty

pub one-IsStore : IsStore list_stroll one
unfolding has
one-IsStore =
    after-IsStore list_stroll list_stroll-IsLawful empty empty-IsStore 1 (port up_alias) refl
      (list_stroll.hash (port up_alias).idx) (list_stroll.hash_str eth0) none port_alias-Owns refl
      (λ q (h, i, st, same). absurd (empty_list st.0)) (omega arith)

pub two-valid : validate_index 2 ≡ ok tt
unfolding validate_index
two-valid = refl

find_byindex-Registered_example :
    (r : Option Ptr) × (find_byindex list_stroll 2 one ≡ done r one)
    × ((q : Ptr) → (r ≡ some q) ↔ Registered one 2 q)
find_byindex-Registered_example = find_byindex-Registered list_stroll one one-IsStore 2 two-valid

withdraw-IsStore_example :
    Ends
      (λ _ u. IsStore list_stroll u × Drops one (port up_alias).idx u × (u.mem ≡ one.mem))
      (λ e u. (e ≡ enodev) × (u ≡ one) × ((r : Ptr) → ¬ Registered one (port up_alias).idx r))
      (withdraw list_stroll 1 one)
withdraw-IsStore_example =
    withdraw-IsStore list_stroll list_stroll-IsLawful one one-IsStore 1 (port up_alias) refl

listening-IsStore : IsStore list_stroll (listening empty)
listening-IsStore =
    let v : IsStore list_stroll empty = empty-IsStore in
    record {
      distinct = v.distinct;
      live = v.live;
      fresh = v.fresh;
      below = v.below;
      in_nameh = v.in_nameh;
      in_aliash = v.in_aliash;
      in_indxh = v.in_indxh;
      hashed = v.hashed;
      unique = v.unique;
      count = v.count;
    }

abbrev pub on_sub : Ptr → ℕ → Ptr → M (Unit {0})
on_sub _ _ _ = pure tt

enable_change_notif-disable_change_notif_example :
    Returns
      (λ _ u.
        (u.gate.joined ≡ true)
        × (u.gate.notif ≡ false)
        × (u.calls ≡ join ∷ [])
        × (u.store ≡ (listening empty).store))
      ((enable_change_notif list_stroll obliging >> disable_change_notif list_stroll obliging)
        (listening empty))
enable_change_notif-disable_change_notif_example =
    enable_change_notif-disable_change_notif list_stroll obliging (listening empty) refl

init-load_example :
    Ends
      (λ _ u.
        IsStore list_stroll u
        × NamesIndexed list_stroll u
        × AliasesIndexed list_stroll u
        × (links : List Link) × (obliging.on_dump [] links_req ≡ ok links)
        × AllEntered u links
        × (Give list_stroll OwnsKind 9 links → AllOf OwnsKind u))
      (λ e u. u ≡ log_call (dump links_req) (initial one))
      ((init list_stroll >> load list_stroll obliging (on_event list_stroll on_sub 9)) one)
init-load_example = init-load list_stroll list_stroll-IsLawful obliging on_sub 9 OwnsKind one
