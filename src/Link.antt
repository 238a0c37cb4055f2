-- ===== src/Link.antt =====
-- lib/link.h and lib/link.c: what the kernel says of a link, and the validators of its attributes.
-- A C string is the list of its bytes before the NUL.
pub mod Validate
pub mod Print
use Prim.Native.Nat.{min}
use nlif.Prelude.{
  ℕ, ◌^◌, ◌-◌, Bool, not, ◌&&◌, Option, none, some, List, ltb, leb, ◌==◌, if◌then◌else◌, length,
  bit_and,
}
use nlif.Errno.{Result, ok, err, einval, enodata, enametoolong}

abbrev pub ifnamsiz : ℕ
ifnamsiz = 16

abbrev pub ifaliasz : ℕ
ifaliasz = 256

abbrev pub int_max : ℕ
int_max = 2 ^ 31 - 1

-- `struct ether_addr`, octet by octet.
pub record EtherAddr : Type 0 where
  pub octet0 : ℕ
  pub octet1 : ℕ
  pub octet2 : ℕ
  pub octet3 : ℕ
  pub octet4 : ℕ
  pub octet5 : ℕ

abbrev pub zero_addr : EtherAddr
zero_addr = record { octet0 = 0; octet1 = 0; octet2 = 0; octet3 = 0; octet4 = 0; octet5 = 0 }

-- `!memcmp(a, b, sizeof(*a))`
unfoldable pub addr_eq : EtherAddr → EtherAddr → Bool
addr_eq a b =
    a.octet0 == b.octet0
    && (a.octet1 == b.octet1
        && (a.octet2 == b.octet2
            && (a.octet3 == b.octet3 && (a.octet4 == b.octet4 && a.octet5 == b.octet5))))

-- The attributes of `struct rt_link_getlink_rsp` that the library reads. `ifname` and `ifalias`
-- have their `_len`, an `ifalias` of length 0 being absent; `none` is an attribute whose
-- `_present` bit is clear.
pub record Link : Type 0 where
  pub ifi_index : ℕ
  pub ifi_flags : ℕ
  pub ifi_type : ℕ
  pub group : ℕ
  pub operstate : ℕ
  pub carrier : ℕ
  pub linkmode : ℕ
  pub ifname : List ℕ
  pub ifalias : List ℕ
  pub linkinfo : Option (List ℕ)
  pub link : Option ℕ
  pub master : Option ℕ
  pub mtu : ℕ
  pub min_mtu : ℕ
  pub max_mtu : ℕ
  pub address : EtherAddr

-- `strnlen(s, n)`
abbrev pub strnlen : List ℕ → ℕ → ℕ
strnlen s n = min (length s) n

unfoldable pub validate_index : ℕ → Result (Unit {0})
validate_index index = if not (index == 0) && leb index int_max then ok tt else err einval

-- The body that both validators share, over the buffer's size.
abbrev pub validate_len : ℕ → ℕ → Result ℕ
validate_len len size =
    if len == 0 then err enodata else if leb size len then err enametoolong else ok len

unfoldable pub validate_name : List ℕ → Result ℕ
validate_name name = validate_len (strnlen name ifnamsiz) ifnamsiz

-- `none` is a NULL pointer.
unfoldable pub validate_alias : Option (List ℕ) → Result ℕ
validate_alias none = ok 0
validate_alias (some alias) = validate_len (strnlen alias ifaliasz) ifaliasz

unfoldable pub hwaddr_is_ucast : EtherAddr → Bool
hwaddr_is_ucast address = not (bit_and address.octet0 1 == 1)

unfoldable pub hwaddr_is_mcast : EtherAddr → Bool
unfolding hwaddr_is_ucast
hwaddr_is_mcast address = not (hwaddr_is_ucast address)
