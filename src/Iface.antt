-- ===== src/Iface.antt =====
-- lib/iface.h and the parts of lib/iface.c that work on one `struct nlif_iface` alone.
pub mod Refresh
pub mod Valid
use nlif.Prelude.{
  ℕ, ◌-◌, ◌^◌, Bool, true, false, not, ◌&&◌, ◌||◌, Option, none, some, List, [], ◌∷◌, leb, ◌==◌,
  if◌then◌else◌, bit_and, bit_or,
}
use nlif.Errno.{Result, ok, err, einval}
use nlif.Link.{
  EtherAddr, zero_addr, addr_eq, Link, validate_index, validate_name, validate_alias,
  hwaddr_is_ucast,
}
use nlif.Stroll.{Ptr, Stroll}

-- `enum nlif_state`; `stat_nr` marks an allocated interface that was never loaded.
pub data State : Type 0 where
  invalid clean dirty stat_nr : State

-- `enum nlif_iface_field`, numbered as in the bitmap.
pub data Field : Type 0 where
  group_fld name_fld alias_fld mtu_fld hwadr_fld : Field

abbrev pub field_bit : Field → ℕ
field_bit group_fld = 0
field_bit name_fld = 1
field_bit alias_fld = 2
field_bit mtu_fld = 3
field_bit hwadr_fld = 4

-- A `char *` that owns its string: NULL, allocated with its bytes, or left dangling by `free`.
pub data CStr : Type 0 where
  null : CStr
  held : List ℕ → CStr
  freed : CStr

pub record Iface : Type 0 where
  pub state : State
  pub dirty_fields : ℕ
  pub gate : Ptr
  pub idx : ℕ
  pub group : ℕ
  pub flags : ℕ
  pub dirty_flags : ℕ
  pub opstat : ℕ
  pub lnkmod : ℕ
  pub type : ℕ
  pub name : List ℕ
  pub alias : CStr
  pub kind : CStr
  pub lnk : ℕ
  pub mst : ℕ
  pub mtu : ℕ
  pub min_mtu : ℕ
  pub max_mtu : ℕ
  pub hwadr : EtherAddr

-- <linux/if.h>
abbrev pub iff_up : ℕ
iff_up = 0x1

abbrev pub iff_lower_up : ℕ
iff_lower_up = 0x10000

-- LOOPBACK, POINTOPOINT, BROADCAST, ECHO, MASTER, SLAVE, RUNNING, LOWER_UP and DORMANT
abbrev pub iff_volatile : ℕ
iff_volatile = 0x70c5a

-- `~m` on an `unsigned int`
abbrev pub complement : ℕ → ℕ
complement m = 2 ^ 32 - 1 - m

-- An allocation of length + 1 bytes, or NULL where there is nothing to copy.
abbrev pub clone : List ℕ → CStr
clone [] = null
clone (c ∷ s) = held (c ∷ s)

abbrev pub clone_attr : Option (List ℕ) → CStr
clone_attr none = null
clone_attr (some s) = clone s

abbrev pub value_or_zero : Option ℕ → ℕ
value_or_zero none = 0
value_or_zero (some n) = n

-- `nlif_iface_fill`
unfoldable pub fill : Stroll → Link → Iface → Iface
fill s link i = record i {
  state = clean;
  dirty_fields = s.bmap_empty;
  idx = link.ifi_index;
  group = link.group;
  flags = link.ifi_flags;
  dirty_flags = s.bmap_empty;
  opstat = link.operstate;
  lnkmod = link.linkmode;
  type = link.ifi_type;
  name = link.ifname;
  alias = clone link.ifalias;
  kind = clone_attr link.linkinfo;
  lnk = value_or_zero link.link;
  mst = value_or_zero link.master;
  mtu = link.mtu;
  min_mtu = link.min_mtu;
  max_mtu = link.max_mtu;
  hwadr = link.address;
}

unfoldable pub validate_mtu : ℕ → Iface → Result (Unit {0})
validate_mtu mtu i =
    if leb i.min_mtu mtu && (i.max_mtu == 0 || leb mtu i.max_mtu) then ok tt else err einval

unfoldable pub validate_hwaddr : EtherAddr → Result (Unit {0})
validate_hwaddr address =
    if not (addr_eq address zero_addr) && hwaddr_is_ucast address then ok tt else err einval

unfoldable pub admstate : Iface → Bool
admstate i = not (bit_and i.flags iff_up == 0)

unfoldable pub carrier : Iface → Bool
carrier i = not (bit_and i.flags iff_lower_up == 0)

-- The three comparisons of `nlif_iface_refresh_state`, with the flag that each may set.
refresh_flags : Link → Iface × Bool → Iface × Bool
refresh_flags link (i, change) =
    if bit_and i.flags iff_volatile == bit_and link.ifi_flags iff_volatile then (i, change) else (
      record i {
        flags =
            bit_or (bit_and i.flags (complement iff_volatile))
              (bit_and link.ifi_flags iff_volatile);
      },
      true,
    )

refresh_opstat : Link → Iface × Bool → Iface × Bool
refresh_opstat link (i, change) =
    if i.opstat == link.operstate then (i, change) else (record i { opstat = link.operstate }, true)

refresh_lnkmod : Link → Iface × Bool → Iface × Bool
refresh_lnkmod link (i, change) =
    if i.lnkmod == link.linkmode then (i, change) else (record i { lnkmod = link.linkmode }, true)

-- `nlif_iface_refresh_state`: the interface and whether it changed.
unfoldable pub refresh_state : Iface → Link → Iface × Bool
unfolding refresh_flags refresh_opstat refresh_lnkmod
refresh_state i link = refresh_lnkmod link (refresh_opstat link (refresh_flags link (i, false)))
