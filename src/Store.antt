-- ===== src/Store.antt =====
-- lib/store.c and lib/store.h: lookups, and the registration of interfaces. Handles stand in three
-- hash tables and in the list of interfaces.
pub mod Entry
pub mod Events
pub mod Lookup
pub mod Names
pub mod Strids
pub mod Register
pub mod Withdraw
pub mod Created
pub mod Arrive
pub mod Load
pub mod Init
pub mod Change
pub mod Rehash
pub mod Follow
pub mod Notif
pub mod Release
pub mod Reload
pub mod Enroll
use nlif.Prelude.{
  ℕ, suc, ◌+◌, ◌-◌, ◌%◌, ◌^◌, Bool, true, false, Option, none, some, List, [], ◌∷◌, ◌==◌,
  if◌then◌else◌, str_eq,
}
use nlif.Errno.{ok, err, eexist, enodev}
use nlif.Link.{validate_index, validate_name, validate_alias}
use nlif.Stroll.{Ptr, Stroll}
use nlif.Ynl.{Ynl}
use nlif.Iface.{Iface, CStr, null, held, freed}
use nlif.World.{
  Buckets, Store, World, M, done, pure, raise, ◌>>=◌, ◌>>◌, gets, modify, deref, update, get_iface,
  read_str,
}
use nlif.Gate.{Event, load_links}
use nlif.Gate
use nlif.Lifecycle.{destroy}
use nlif.Obsrv
use nlif.Tables.{
  hndl_iface, entry, alias_eq, match_bystrid, search_byname, search_byalias, search_hndl,
  matches_any, or_exists, find_byname, find_byalias, find_bystrid, search_hndl_byindex,
  find_byindex, may_register_name, may_register_alias, free_bucket, may_register_index,
}

abbrev pub with_store : (Store → Store) → World → World
with_store f w = record w { store = f w.store }

abbrev pub bucket_of : Buckets → ℕ → (List Ptr → List Ptr) → Buckets
bucket_of t h f k = if h == k then f (t k) else t k

-- What `nlif_store_reinit` makes of the tables, the list and the counter.
abbrev pub emptied : Store → Store
emptied s = record s { nameh = λ _. []; indxh = λ _. []; aliash = λ _. []; ifaces = []; count = 0 }

module _ (S : Stroll) where
  abbrev pub add_to : Option ℕ → Ptr → Buckets → Buckets
  add_to none h t = t
  add_to (some k) h t = bucket_of t k (S.hlist_add h)

  abbrev pub del_from : Ptr → Buckets → Buckets
  del_from h t k = S.hlist_del h (t k)

  -- The store and the handles once the handle at `w.brk` is filled and linked.
  abbrev pub enrolled : Ptr → ℕ → ℕ → Option ℕ → World → World
  enrolled q indx name alias w = record w {
    hndls = update w.hndls w.brk (some q);
    brk = suc w.brk;
    store = record s {
      nameh = add_to (some name) w.brk s.nameh;
      indxh = add_to (some indx) w.brk s.indxh;
      aliash = add_to alias w.brk s.aliash;
      ifaces = S.dlist_nqueue_back s.ifaces w.brk;
      count = (s.count + 1) % 2 ^ 32;
    };
  }
    where
      s : Store
      s = w.store

  unfoldable pub createn_enroll : Ptr → ℕ → ℕ → Option ℕ → M (Unit {0})
  createn_enroll q indx name alias = modify (enrolled q indx name alias)

  abbrev pub register_alias : CStr → M (Option ℕ)
  register_alias alias = do
    a ← read_str alias
    bucket ← may_register_alias S a
    k ← or_exists bucket
    pure (some k)

  -- The alias is registered unless it is NULL.
  abbrev pub alias_bucket : CStr → M (Option ℕ)
  alias_bucket null = pure none
  alias_bucket (held s) = register_alias (held s)
  alias_bucket freed = register_alias freed

  unfoldable pub enroll : Ptr → M (Unit {0})
  unfolding get_iface read_str may_register_name may_register_index may_register_alias
      createn_enroll
  enroll q = do
    i ← get_iface q
    nameb ← may_register_name S i.name
    name ← or_exists nameb
    indxb ← may_register_index S i.idx
    indx ← or_exists indxb
    alias ← alias_bucket i.alias
    createn_enroll q indx name alias

  -- The handle's nodes are deleted from their tables, and it is freed.
  abbrev pub withdrawn : Ptr → World → World
  withdrawn h w = record w {
    hndls = update w.hndls h none;
    store = record s {
      nameh = del_from h s.nameh;
      indxh = del_from h s.indxh;
      aliash = del_from h s.aliash;
      ifaces = S.dlist_remove h s.ifaces;
      count = (s.count + (2 ^ 32 - 1)) % 2 ^ 32;
    };
  }
    where
      s : Store
      s = w.store

  unfoldable pub withdraw : Ptr → M (Unit {0})
  unfolding get_iface search_hndl_byindex
  withdraw q = do
    i ← get_iface q
    found ← search_hndl_byindex S i.idx
    elim found [ none ↦ raise enodev | some h ↦ modify (withdrawn h) ]

  -- `nlif_store_release` over the list of handles.
  unfoldable pub release_each : List Ptr → M (Unit {0})
  unfolding hndl_iface destroy
  release_each [] = pure tt
  release_each (h ∷ hs) = do
    q ← hndl_iface h
    destroy q
    modify (λ w. record w { hndls = update w.hndls h none })
    release_each hs

  unfoldable pub release : M (Unit {0})
  unfolding release_each
  release = do hs ← gets (λ w. w.store.ifaces); release_each hs

  unfoldable pub reinit : M (Unit {0})
  reinit = modify (with_store emptied)

  unfoldable pub clear : M (Unit {0})
  unfolding release reinit
  clear = do release; reinit

  unfoldable pub init : M (Unit {0})
  unfolding reinit
  init = do reinit; Gate.subscribe; modify (with_store λ s. record s { subs = [] })

  unfoldable pub fini : M (Unit {0})
  unfolding release
  fini = do Gate.unsubscribe; release

  unfoldable pub subscribe_changes : Ptr → M (Unit {0})
  subscribe_changes sub = modify (with_store λ s. record s { subs = Obsrv.subscribe S s.subs sub })

  unfoldable pub unsubscribe_changes : Ptr → M (Unit {0})
  unsubscribe_changes sub =
      modify (with_store λ s. record s { subs = Obsrv.unsubscribe S s.subs sub })

  module _ (Y : Ynl) where
    unfoldable pub enable_change_notif : M (Unit {0})
    enable_change_notif = Gate.enable_change_notif Y

    unfoldable pub disable_change_notif : M (Unit {0})
    disable_change_notif = Gate.unsubscribe

    module _ (notif : Event → M (Unit {0})) where
      unfoldable pub load : M (Unit {0})
      load = load_links Y notif

      unfoldable pub reload : M (Unit {0})
      unfolding clear load
      reload = do clear; load
