-- ===== src/Store/Events.antt =====
-- lib/store.c: what the store does with the gate's events. `on_sub` is what the subscribers of its
-- own notifier do with one.
use nlif.Prelude.{ℕ, Bool, Option, none, some, List, if◌then◌else◌}
use nlif.Link.{Link}
use nlif.Stroll.{Ptr, Stroll}
use nlif.Iface.{
  Iface, name_fld, alias_fld, field_bit, CStr, null, held, freed, clone, refresh_state,
}
use nlif.World.{World, M, fault, pure, ◌>>=◌, ◌>>◌, gets, modify, get_iface, put_iface, read_str}
use nlif.Gate.{Event, change, modified, new, reload}
use nlif.Lifecycle.{create_bylink}
use nlif.Obsrv.{notify}
use nlif.Store.{with_store, add_to, del_from, createn_enroll, alias_bucket}
use nlif.Tables.{
  search_hndl_byindex, find_byindex, or_exists, may_register_name, may_register_alias,
  may_register_index,
}

-- NLIF_STORE_IFACE_CHANGE_EVT
abbrev pub iface_change_evt : ℕ
iface_change_evt = 0

-- A handle that is used without a test for NULL.
abbrev pub checked : Option Ptr → M Ptr
checked none w = fault
checked (some h) w = pure h w

-- For a store that has no subscriber.
abbrev pub unheard : Ptr → ℕ → Ptr → M (Unit {0})
unheard sub event arg w = fault

module _ (S : Stroll) where
  abbrev pub unlink_name : Ptr → World → World
  unlink_name h = with_store λ s. record s { nameh = del_from S h s.nameh }

  abbrev pub link_name : Ptr → ℕ → World → World
  link_name h k = with_store λ s. record s { nameh = add_to S (some k) h s.nameh }

  abbrev pub unlink_alias : Ptr → World → World
  unlink_alias h = with_store λ s. record s { aliash = del_from S h s.aliash }

  abbrev pub link_alias : Ptr → Option ℕ → World → World
  link_alias h k = with_store λ s. record s { aliash = add_to S k h s.aliash }

  unfoldable pub rehash_name : Ptr → List ℕ → M (Unit {0})
  unfolding may_register_name
  rehash_name h name = do
    modify (unlink_name h)
    bucket ← may_register_name S name
    k ← or_exists bucket
    modify (link_name h k)

  unfoldable pub rehash_alias : Ptr → CStr → M (Unit {0})
  unfolding may_register_alias read_str
  rehash_alias h alias = do
    modify (unlink_alias h)
    bucket ← alias_bucket S alias
    modify (link_alias h bucket)

  unfoldable pub on_iface_modify : Ptr → M (Unit {0})
  unfolding get_iface search_hndl_byindex rehash_name rehash_alias
  on_iface_modify q = do
    i ← get_iface q
    found ← search_hndl_byindex S i.idx
    if S.bmap_test i.dirty_fields (field_bit name_fld)
        then (do h ← checked found; rehash_name h i.name)
        else pure tt
    if S.bmap_test i.dirty_fields (field_bit alias_fld)
        then (do h ← checked found; rehash_alias h i.alias)
        else pure tt

  unfoldable pub on_iface_reload : Ptr → M (Unit {0})
  unfolding get_iface search_hndl_byindex rehash_name rehash_alias
  on_iface_reload q = do
    i ← get_iface q
    found ← search_hndl_byindex S i.idx
    h ← checked found
    rehash_name h i.name
    rehash_alias h i.alias

  -- The bucket of a new link's alias; `ifalias` of length 0 is none.
  abbrev pub link_alias_bucket : List ℕ → M (Option (Option ℕ))
  link_alias_bucket ifalias = elim (clone ifalias) [
    | null ↦ pure (some none)
    | held a ↦ do
      bucket ← may_register_alias S a
      pure (elim bucket [ none ↦ none | some k ↦ some (some k) ])
    | freed ↦ pure (some none)
  ]

  -- A link whose index, name or alias is taken is passed over with a warning.
  unfoldable pub on_new_iface : Link → Ptr → M (Unit {0})
  unfolding may_register_index may_register_name may_register_alias create_bylink createn_enroll
  on_new_iface link gate = do
    indxb ← may_register_index S link.ifi_index
    elim indxb [
      | none ↦ pure tt
      | some indx ↦ do
        nameb ← may_register_name S link.ifname
        elim nameb [
          | none ↦ pure tt
          | some name ↦ do
            aliasb ← link_alias_bucket link.ifalias
            elim aliasb [
              | none ↦ pure tt
              | some alias ↦ do q ← create_bylink S link gate; createn_enroll S q indx name alias
            ]
        ]
    ]

  module _ (on_sub : Ptr → ℕ → Ptr → M (Unit {0})) where
    abbrev pub refreshed : Ptr → Iface × Bool → M (Unit {0})
    refreshed q r = do
      put_iface q r.0
      if r.1
          then (do subs ← gets (λ w. w.store.subs); notify on_sub subs iface_change_evt q)
          else pure tt

    unfoldable pub on_iface_change : Link → M (Unit {0})
    unfolding find_byindex get_iface put_iface refresh_state
    on_iface_change link = do
      found ← find_byindex S link.ifi_index
      elim found [
        | none ↦ pure tt
        | some q ↦ (do i ← get_iface q; refreshed q (refresh_state i link))
      ]

    -- The subscriber that `nlif_store_init` gives to the gate, whose address is `gate`.
    unfoldable pub on_event : Ptr → Event → M (Unit {0})
    unfolding on_iface_change on_iface_modify on_new_iface on_iface_reload
    on_event gate (change link) = on_iface_change link
    on_event gate (modified q) = on_iface_modify q
    on_event gate (new link) = on_new_iface link gate
    on_event gate (reload q) = on_iface_reload q
