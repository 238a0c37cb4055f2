-- ===== src/Settings.antt =====
-- lib/iface.c: the setters, which change an interface in memory and mark what is to be applied, and
-- the getters that reload an invalid interface first.
pub mod State
pub mod Names
use nlif.Prelude.{
  ℕ, Bool, true, false, not, Option, none, some, List, ◌==◌, if◌then◌else◌, take, str_eq, bit_and,
  bit_or,
}
use nlif.Errno.{eexist}
use nlif.Link.{EtherAddr, addr_eq, ifnamsiz}
use nlif.Stroll.{Ptr, Stroll}
use nlif.Ynl.{Ynl}
use nlif.Iface.{
  Iface, dirty, Field, group_fld, name_fld, alias_fld, mtu_fld, hwadr_fld, field_bit, CStr, null,
  held, freed, iff_up, iff_lower_up, complement, validate_mtu,
}
use nlif.World.{M, pure, raise, ◌>>=◌, ◌>>◌, lift, get_iface, put_iface, read_str, free_str}
use nlif.Gate.{Event}
use nlif.Lifecycle.{sync}

module _ (S : Stroll) where
  -- The state and the bit that every setter of a field leaves.
  abbrev pub mark : Field → Iface → Iface
  mark fld i = record i { state = dirty; dirty_fields = S.bmap_set i.dirty_fields (field_bit fld) }

  abbrev pub change_name : List ℕ → Iface → Iface
  change_name name i = record (mark name_fld i) { name = take ifnamsiz name }

  abbrev pub change_alias : CStr → Iface → Iface
  change_alias alias i = record (mark alias_fld i) { alias = alias }

  -- Whether the alias differs from the one given, `interface->alias` being NULL or readable.
  abbrev pub alias_differs : Iface → List ℕ → M Bool
  alias_differs i alias = elim i.alias [
    | null ↦ pure true
    | held s ↦ do s' ← read_str (held s); pure (not (str_eq s' alias))
    | freed ↦ do s' ← read_str freed; pure (not (str_eq s' alias))
  ]

  abbrev pub is_null : CStr → Bool
  is_null null = true
  is_null (held _) = false
  is_null freed = false

  abbrev pub set_up : Bool → Iface → Iface
  set_up up i = record i {
    state = dirty;
    flags = bit_or (bit_and i.flags (complement iff_up)) (if up then iff_up else 0);
    dirty_flags = bit_or i.dirty_flags iff_up;
  }

  module _ (Y : Ynl) (notif : Event → M (Unit {0})) where
    -- `ret = nlif_iface_sync(interface); if (ret) return ret;` before a read.
    abbrev pub synced : Ptr → M Iface
    synced p = do sync S Y notif p; get_iface p

    unfoldable pub set_name : Ptr → List ℕ → M (Unit {0})
    unfolding get_iface put_iface read_str
    set_name p name = do
      i ← synced p
      if str_eq i.name name then pure tt else do
        alias ← read_str i.alias
        if str_eq name alias then raise eexist else put_iface p (change_name name i)

    -- The branch of `nlif_iface_set_alias` for a new alias, and the one that removes it.
    unfoldable pub replace_alias : Ptr → Iface → List ℕ → M (Unit {0})
    unfolding put_iface read_str free_str
    replace_alias p i alias = do
      differs ← alias_differs i alias
      if not differs
          then pure tt
          else if str_eq alias i.name
          then raise eexist
          else do old ← free_str i.alias; put_iface p (change_alias (held alias) i)

    unfoldable pub remove_alias : Ptr → Iface → M (Unit {0})
    unfolding put_iface free_str
    remove_alias p i =
        if is_null i.alias
        then pure tt
        else do old ← free_str i.alias; put_iface p (change_alias null i)

    unfoldable pub set_alias : Ptr → Option (List ℕ) → M (Unit {0})
    unfolding get_iface replace_alias remove_alias
    set_alias p alias = do
      i ← synced p
      elim alias [ some a ↦ replace_alias p i a | none ↦ remove_alias p i ]

    unfoldable pub set_group : Ptr → ℕ → M (Unit {0})
    unfolding get_iface put_iface
    set_group p group = do
      i ← synced p
      if group == i.group
          then pure tt
          else put_iface p (record (mark group_fld i) { group = group })

    unfoldable pub set_admstate : Ptr → Bool → M (Unit {0})
    unfolding get_iface put_iface
    set_admstate p up = do
      i ← synced p
      if bit_and i.flags iff_up == (if up then iff_up else 0)
          then pure tt
          else put_iface p (set_up up i)

    unfoldable pub set_mtu : Ptr → ℕ → M (Unit {0})
    unfolding get_iface put_iface
    set_mtu p mtu = do
      i ← synced p
      if mtu == i.mtu
          then pure tt
          else do lift (validate_mtu mtu i); put_iface p (record (mark mtu_fld i) { mtu = mtu })

    unfoldable pub set_hwaddr : Ptr → EtherAddr → M (Unit {0})
    unfolding get_iface put_iface
    set_hwaddr p address = do
      i ← synced p
      if addr_eq address i.hwadr
          then pure tt
          else put_iface p (record (mark hwadr_fld i) { hwadr = address })

    -- The `nlif_iface_coherent_*` getters read a field of the interface once it is in sync.
    abbrev pub coherent : {A : Type 0} → (Iface → A) → Ptr → M A
    coherent field p = do i ← synced p; pure (field i)

    unfoldable pub coherent_group : Ptr → M ℕ
    unfolding get_iface
    coherent_group = coherent λ i. i.group

    unfoldable pub coherent_flags : Ptr → M ℕ
    unfolding get_iface
    coherent_flags = coherent λ i. i.flags

    unfoldable pub coherent_operstate : Ptr → M ℕ
    unfolding get_iface
    coherent_operstate = coherent λ i. i.opstat

    unfoldable pub coherent_linkmode : Ptr → M ℕ
    unfolding get_iface
    coherent_linkmode = coherent λ i. i.lnkmod

    unfoldable pub coherent_type : Ptr → M ℕ
    unfolding get_iface
    coherent_type = coherent λ i. i.type

    unfoldable pub coherent_name : Ptr → M (List ℕ)
    unfolding get_iface
    coherent_name = coherent λ i. i.name

    unfoldable pub coherent_alias : Ptr → M CStr
    unfolding get_iface
    coherent_alias = coherent λ i. i.alias

    unfoldable pub coherent_kind : Ptr → M CStr
    unfolding get_iface
    coherent_kind = coherent λ i. i.kind

    unfoldable pub coherent_link : Ptr → M ℕ
    unfolding get_iface
    coherent_link = coherent λ i. i.lnk

    unfoldable pub coherent_master : Ptr → M ℕ
    unfolding get_iface
    coherent_master = coherent λ i. i.mst

    unfoldable pub coherent_mtu : Ptr → M ℕ
    unfolding get_iface
    coherent_mtu = coherent λ i. i.mtu

    unfoldable pub coherent_hwaddr : Ptr → M EtherAddr
    unfolding get_iface
    coherent_hwaddr = coherent λ i. i.hwadr

    unfoldable pub coherent_admstate : Ptr → M Bool
    unfolding coherent_flags
    coherent_admstate p = do fl ← coherent_flags p; pure (not (bit_and fl iff_up == 0))

    unfoldable pub coherent_carrier : Ptr → M Bool
    unfolding coherent_flags
    coherent_carrier p = do fl ← coherent_flags p; pure (not (bit_and fl iff_lower_up == 0))
