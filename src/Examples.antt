-- ===== src/Examples.antt =====
-- The links, kernels and memory that the examples of the theorems run on: an Ethernet port of
-- index 2 called `eth0`, with the alias `up` or with none.
pub mod Setters
pub mod Sessions
pub mod Loading
pub mod Printing
pub mod Sample
pub mod Registry
pub mod Lookups
pub mod Following
pub mod Daemon
pub mod Running
use nlif.Prelude.{
  ℕ, ◌<◌, ◌≡◌, refl, inl, inr, false, true, Option, none, some, List, [], ◌∷◌, arith, ◌==◌,
  if◌then◌else◌,
}
use nlif.Errno.{ok, err}
use nlif.Link.{EtherAddr, Link}
use nlif.Link.Validate.{IsAlias}
use nlif.Stroll.{Ptr}
use nlif.Stroll.Lists.{list_stroll, list_stroll-IsLawful}
use nlif.Ynl.{Ynl}
use nlif.Iface.{Iface, fill, dirty, invalid}
use nlif.Iface.Valid.{IsLink, IsIface}
use nlif.World.{World, M, pure}
use nlif.Gate.{Event, islink_valid}
use nlif.Gate.Links.{fill-IsIface}
use nlif.Lifecycle.{uninit}

abbrev pub eth0 : List ℕ
eth0 = 101 ∷ 116 ∷ 104 ∷ 48 ∷ []

abbrev pub up_alias : List ℕ
up_alias = 117 ∷ 112 ∷ []

-- 02:00:00:00:00:01
abbrev pub address : EtherAddr
address = record { octet0 = 2; octet1 = 0; octet2 = 0; octet3 = 0; octet4 = 0; octet5 = 1 }

abbrev pub link : List ℕ → Link
link alias = record {
  ifi_index = 2;
  ifi_flags = 0x1003;
  ifi_type = 1;
  group = 0;
  operstate = 6;
  carrier = 1;
  linkmode = 0;
  ifname = eth0;
  ifalias = alias;
  linkinfo = none;
  link = none;
  master = none;
  mtu = 1500;
  min_mtu = 68;
  max_mtu = 9000;
  address = address;
}

-- A kernel that accepts whatever is asked, and one that refuses with ENODEV.
abbrev pub obliging : Ynl
obliging = record {
  errno_end = 134;
  on_create = λ _. ok tt;
  on_getlink = λ _ _. ok (link up_alias);
  on_setlink = λ _ _. ok tt;
  on_dump = λ _ _. ok (link up_alias ∷ link [] ∷ []);
  on_getstats = λ _ _. err 19;
  on_ntf_check = λ _. [];
  on_join = λ _. ok tt;
}

abbrev pub refusing : Ynl
refusing = record obliging { on_getlink = λ _ _. err 19; on_setlink = λ _ _. err 19 }

abbrev pub ignore : Event → M (Unit {0})
ignore _ = pure tt

abbrev pub port : List ℕ → Iface
port alias = fill list_stroll (link alias) uninit

-- The interface stands at the address 1.
abbrev pub memory : Iface → World
memory i = record {
  mem = λ p. if p == 1 then some i else none;
  hndls = λ _. none;
  brk = 4;
  store = record {
    nameh = λ _. [];
    indxh = λ _. [];
    aliash = λ _. [];
    ifaces = [];
    count = 0;
    subs = [];
  };
  gate = record { sock = true; notif = false; joined = false; queue = [] };
  calls = [];
  host = record { requests = []; paths = 0; if_mib = false; plugged = false; watched = false };
}

-- With a subscriber on the gate.
abbrev pub listening : World → World
listening w = record w { gate = record { sock = true; notif = true; joined = true; queue = [] } }

-- The port once its MTU was set and not yet applied.
abbrev pub tuned : Iface
tuned = record (port up_alias) { state = dirty; dirty_fields = 8; mtu = 1400 }

-- The port once it was invalidated.
abbrev pub stale : Iface
stale = record (port up_alias) { state = invalid }

pub up_alias-IsAlias : IsAlias up_alias
up_alias-IsAlias = (omega arith, omega arith)

pub link_up-IsLink : IsLink (link up_alias)
unfolding nlif.Link.hwaddr_is_ucast
link_up-IsLink = record {
  index = λ e. omega arith;
  name = (omega arith, omega arith);
  alias = inr up_alias-IsAlias;
  mtu_min = omega arith;
  mtu_max = inr (omega arith);
  hwaddr = refl;
  flags = omega arith;
}

pub link_bare-IsLink : IsLink (link [])
unfolding nlif.Link.hwaddr_is_ucast
link_bare-IsLink = record {
  index = λ e. omega arith;
  name = (omega arith, omega arith);
  alias = inl refl;
  mtu_min = omega arith;
  mtu_max = inr (omega arith);
  hwaddr = refl;
  flags = omega arith;
}

pub link_up-valid : islink_valid (link up_alias) ≡ ok tt
unfolding islink_valid
link_up-valid = refl

pub link_bare-valid : islink_valid (link []) ≡ ok tt
unfolding islink_valid
link_bare-valid = refl

pub port_up-IsIface : IsIface (port up_alias)
port_up-IsIface =
    fill-IsIface list_stroll list_stroll-IsLawful (link up_alias) uninit link_up-IsLink
      link_up-valid

pub port_bare-IsIface : IsIface (port [])
port_bare-IsIface =
    fill-IsIface list_stroll list_stroll-IsLawful (link []) uninit link_bare-IsLink link_bare-valid
