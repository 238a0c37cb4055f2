-- ===== src/Ynl.antt =====
-- The netlink requests that lib/gate.c builds, and the kernel behind `ynl`, which answers them. The
-- kernel is a parameter: each answer is a function of all calls made so far, the newest first.
use nlif.Prelude.{ℕ, Option, List}
use nlif.Errno.{Result}
use nlif.Link.{EtherAddr, Link}

-- `struct rt_link_getlink_req`
pub record GetReq : Type 0 where
  pub ifi_index : ℕ
  pub ifname : Option (List ℕ)
  pub ext_mask : ℕ

-- `struct rt_link_getlink_req_dump`
pub record DumpReq : Type 0 where
  pub ext_mask : ℕ
  pub master : Option ℕ

-- `struct rt_link_setlink_req`. `none` is an attribute that is not sent; the alias is sent as a
-- string or, to remove it, as a NULL.
pub record SetReq : Type 0 where
  pub ifi_index : ℕ
  pub ifi_flags : ℕ
  pub ifi_change : ℕ
  pub group : Option ℕ
  pub ifname : Option (List ℕ)
  pub ifalias : Option (Option (List ℕ))
  pub mtu : Option ℕ
  pub address : Option EtherAddr

-- `struct ynl_ntf_base_type` with the link that it carries.
pub record Ntf : Type 0 where
  pub cmd : ℕ
  pub obj : Link

-- The counters of `struct rtnl_link_stats64` that the daemon publishes.
pub record LinkStats : Type 0 where
  pub rx_bytes : ℕ
  pub rx_dropped : ℕ
  pub rx_errors : ℕ
  pub tx_bytes : ℕ
  pub tx_dropped : ℕ
  pub tx_errors : ℕ

pub data Call : Type 0 where
  getlink : GetReq → Call
  setlink : SetReq → Call
  dump : DumpReq → Call
  stats : ℕ → Call
  ntf_check join leave create destroy : Call

-- `err c` is a failure with the code `c` in `sock->err.code`; for `add_membership` it is `errno`.
pub record Ynl : Type 0 where
  pub errno_end : ℕ
  pub on_create : List Call → Result (Unit {0})
  pub on_getlink : List Call → GetReq → Result Link
  pub on_setlink : List Call → SetReq → Result (Unit {0})
  pub on_dump : List Call → DumpReq → Result (List Link)
  pub on_getstats : List Call → ℕ → Result LinkStats
  pub on_ntf_check : List Call → List Ntf
  pub on_join : List Call → Result (Unit {0})
