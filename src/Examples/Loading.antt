-- ===== src/Examples/Loading.antt =====
-- The theorems on links, loading and reloading, on the port of the examples.
use nlif.Prelude.{arith, ℕ, ◌≤◌, ◌↔◌, ◌≡◌, refl, ◌⊎◌, false, true, some, bit_and, length}
use nlif.Errno.{ok, err, enodata, enametoolong}
use nlif.Link.{Link, ifnamsiz, validate_name}
use nlif.Link.Validate.{IsName, validate_name_cases}
use nlif.Stroll.Lists.{list_stroll, list_stroll-IsLawful}
use nlif.Iface.{Iface, iff_volatile, complement, refresh_state, fill, null}
use nlif.Iface.Valid.{IsIface, Owns}
use nlif.Iface.Refresh.{InSync, refresh_state-InSync}
use nlif.World.Returns.{Returns}
use nlif.World.{World, fail, fault}
use nlif.Lifecycle.{sync}
use nlif.Lifecycle.Refresh.{sync-IsIface, sync-sync}
use nlif.Link.Print.{hwaddr_str}
use nlif.Link.Print.Hwaddr.{IsOctets, read_hwaddr, read_hwaddr-hwaddr_str}
use nlif.Examples.{
  address, eth0, up_alias, link, obliging, refusing, ignore, port, memory, stale, link_up-IsLink,
  link_up-valid,
}

validate_name_cases_example :
    (IsName eth0 ↔ (validate_name eth0 ≡ ok 4))
    × ((length eth0 ≡ 0) ↔ (validate_name eth0 ≡ err enodata))
    × ((ifnamsiz ≤ length eth0) ↔ (validate_name eth0 ≡ err enametoolong))
validate_name_cases_example = validate_name_cases eth0

-- The link went down.
abbrev down : Link
down = record (link up_alias) { ifi_flags = 0x1003; operstate = 2 }

refresh_state-InSync_example :
    let (j, changed) = refresh_state (port up_alias) down in
    InSync j down
    × (bit_and j.flags (complement iff_volatile)
        ≡ bit_and (port up_alias).flags (complement iff_volatile))
    × (record j {
      flags = (port up_alias).flags;
      opstat = (port up_alias).opstat;
      lnkmod = (port up_alias).lnkmod;
    }
        ≡ port up_alias)
    × ((changed ≡ false) ↔ InSync (port up_alias) down)
    × ((changed ≡ true) ⊎ (j ≡ port up_alias))
refresh_state-InSync_example = refresh_state-InSync (port up_alias) down

stale_alias-Owns : Owns (λ _. Unit) stale.alias
unfolding fill
stale_alias-Owns = tt

stale_kind-Owns : Owns (λ _. Unit) stale.kind
unfolding fill
stale_kind-Owns = tt

stale-holds : ¬ ((stale.alias ≡ null) × (stale.kind ≡ null))
unfolding fill
stale-holds (e, _) = cc

sync-sync_example :
    (e : ℕ) × (u : World) × (sync list_stroll refusing ignore 1 (memory stale) ≡ fail e u)
    × (sync list_stroll refusing ignore 1 u ≡ fault)
sync-sync_example =
    sync-sync list_stroll refusing ignore 1 (memory stale) stale refl refl stale_alias-Owns
      stale_kind-Owns 19 refl stale-holds

sync-IsIface_example :
    Returns
      (λ _ u.
        (j : Iface) × (u.mem 1 ≡ some j) × IsIface j × (j ≡ fill list_stroll (link up_alias) stale))
      (sync list_stroll obliging ignore 1 (memory stale))
sync-IsIface_example =
    sync-IsIface list_stroll obliging ignore 1 (memory stale) stale refl refl stale_alias-Owns
      stale_kind-Owns list_stroll-IsLawful (link up_alias) (refl, link_up-valid) link_up-IsLink refl

address-IsOctets : IsOctets address
address-IsOctets = record {
  octet0 = omega arith;
  octet1 = omega arith;
  octet2 = omega arith;
  octet3 = omega arith;
  octet4 = omega arith;
  octet5 = omega arith;
}

read_hwaddr-hwaddr_str_example :
    (length (hwaddr_str address) ≡ 17) × (read_hwaddr (hwaddr_str address) ≡ some address)
read_hwaddr-hwaddr_str_example = read_hwaddr-hwaddr_str address address-IsOctets
