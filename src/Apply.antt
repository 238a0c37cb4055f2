-- ===== src/Apply.antt =====
-- `nlif_iface_apply` of lib/iface.c: one request with what is dirty.
pub mod Request
pub mod Session
pub mod Outcome
pub mod Promise
pub mod Wishes
pub mod Stage
pub mod Converge
use nlif.Prelude.{ℕ, Bool, Option, none, some, List, if◌then◌else◌}
use nlif.Stroll.{Ptr, Stroll}
use nlif.Ynl.{SetReq, Ynl}
use nlif.Iface.{
  Iface, invalid, clean, dirty, stat_nr, Field, group_fld, name_fld, alias_fld, mtu_fld, hwadr_fld,
  field_bit, CStr, null, held, freed,
}
use nlif.World.{M, done, fault, pure, raise, ◌>>=◌, ◌>>◌, on_error, get_iface, put_iface, read_str}
use nlif.Gate.{Event, modified, notify, send_setlink}
use nlif.Lifecycle.{invalidate}

-- The alias as it is sent: NULL removes it, and any other pointer is read.
unfoldable pub alias_attr : CStr → M (Option (List ℕ))
unfolding read_str
alias_attr null = pure none
alias_attr (held s) = do s' ← read_str (held s); pure (some s')
alias_attr freed = do s' ← read_str freed; pure (some s')

module _ (S : Stroll) where
  unfoldable pub is_dirty : Field → Iface → Bool
  is_dirty fld i = S.bmap_test i.dirty_fields (field_bit fld)

  abbrev pub when_dirty : {A : Type 0} → Field → Iface → A → Option A
  when_dirty fld i a = if is_dirty fld i then some a else none

  unfoldable pub dirty_alias : Iface → M (Option (Option (List ℕ)))
  unfolding alias_attr is_dirty
  dirty_alias i =
      if is_dirty alias_fld i then (do attr ← alias_attr i.alias; pure (some attr)) else pure none

  abbrev pub setlink_req : Iface → Option (Option (List ℕ)) → SetReq
  setlink_req i ifalias = record {
    ifi_index = i.idx;
    ifi_flags = i.flags;
    ifi_change = i.dirty_flags;
    group = when_dirty group_fld i i.group;
    ifname = when_dirty name_fld i i.name;
    ifalias = ifalias;
    mtu = when_dirty mtu_fld i i.mtu;
    address = when_dirty hwadr_fld i i.hwadr;
  }

  abbrev pub settle : Iface → Iface
  settle i = record i { state = clean; dirty_fields = S.bmap_empty; dirty_flags = S.bmap_empty }

  module _ (Y : Ynl) (notif : Event → M (Unit {0})) where
    -- The branch of a dirty interface; 1 tells that settings were applied.
    unfoldable pub apply_dirty : Ptr → Iface → M ℕ
    unfolding dirty_alias get_iface put_iface is_dirty
    apply_dirty p i = do
      ifalias ← dirty_alias i
      on_error (do send_setlink Y (setlink_req i ifalias); notify notif (modified p))
          (invalidate S Y notif p)
      j ← get_iface p
      put_iface p (settle j)
      pure 1

    unfoldable pub apply : Ptr → M ℕ
    unfolding apply_dirty get_iface
    apply p = do
      i ← get_iface p
      elim i.state [
        | dirty ↦ apply_dirty p i
        | clean ↦ pure 0
        | invalid ↦ pure 0
        | stat_nr ↦ pure 0
      ]
