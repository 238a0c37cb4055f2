-- ===== src/Examples/Setters.antt =====
-- The theorems on the setters, on the port of the examples.
use nlif.Prelude.{
  ℕ, ◌<◌, ◌^◌, ◌≡◌, ◌≢◌, refl, ◌⊎◌, false, true, List, [], ◌∷◌, arith, bit_and, bit_or, str_eq,
  str_eq_iff,
}
use nlif.Errno.{ok, eexist}
use nlif.Link.{EtherAddr}
use nlif.Stroll.Lists.{list_stroll}
use nlif.Iface.{name_fld, dirty, validate_hwaddr, admstate, iff_up, complement, null, held, fill}
use nlif.Iface.Valid.{IsIface}
use nlif.World.Returns.{Ends, Returns, Sets}
use nlif.World.{fault}
use nlif.Settings.{set_admstate, set_name}
use nlif.Settings.State.{Changes, set_admstate-Sets}
use nlif.Settings.Names.{set_name-null_alias, set_name-Sets}
use nlif.Examples.{
  eth0, up_alias, address, obliging, ignore, port, memory, port_up-IsIface, port_bare-IsIface,
}

abbrev wan : List ℕ
wan = 119 ∷ 97 ∷ 110 ∷ []

-- 02:00:00:00:00:02
abbrev other_address : EtherAddr
other_address = record address { octet5 = 2 }

other_address-valid : validate_hwaddr other_address ≡ ok tt
unfolding validate_hwaddr nlif.Link.addr_eq nlif.Link.hwaddr_is_ucast
other_address-valid = refl

port_flags-lt : (port up_alias).flags < 2 ^ 32
unfolding fill
port_flags-lt = omega arith

set_admstate-Sets_example :
    Returns
      (λ _. Sets 1 (memory (port up_alias)) λ j.
        IsIface j
        × (admstate j ≡ false)
        × (bit_and j.flags (complement iff_up) ≡ bit_and (port up_alias).flags (complement iff_up))
        × (j.flags < 2 ^ 32)
        × ((j ≡ port up_alias)
            ⊎ ((j.state ≡ dirty) × (j.dirty_flags ≡ bit_or (port up_alias).dirty_flags iff_up)))
        × (record j {
          state = (port up_alias).state;
          flags = (port up_alias).flags;
          dirty_flags = (port up_alias).dirty_flags;
        }
            ≡ port up_alias))
      (set_admstate list_stroll obliging ignore 1 false (memory (port up_alias)))
set_admstate-Sets_example =
    set_admstate-Sets list_stroll obliging ignore 1 (memory (port up_alias)) (port up_alias) refl
      port_up-IsIface false port_flags-lt

bare_alias : (port []).alias ≡ null
unfolding fill
bare_alias = refl

wan-ne-name : wan ≢ (port []).name
unfolding fill str_eq
wan-ne-name e = let same : str_eq wan eth0 ≡ true = (str_eq_iff wan eth0).1 e in cc

set_name-null_alias_example : set_name list_stroll obliging ignore 1 wan (memory (port [])) ≡ fault
set_name-null_alias_example =
    set_name-null_alias list_stroll obliging ignore 1 (memory (port [])) (port []) refl
      port_bare-IsIface wan bare_alias wan-ne-name

up_alias-held : (port up_alias).alias ≢ null
unfolding fill
up_alias-held e = cc

set_name-Sets_example :
    Ends
      (λ _.
        Sets 1
          (memory (port up_alias))
          λ j. IsIface j × (j.name ≡ wan) × Changes list_stroll name_fld (port up_alias) j)
      (λ e u. (e ≡ eexist) × (u ≡ memory (port up_alias)) × ((port up_alias).alias ≡ held wan))
      (set_name list_stroll obliging ignore 1 wan (memory (port up_alias)))
set_name-Sets_example =
    set_name-Sets list_stroll obliging ignore 1 (memory (port up_alias)) (port up_alias) refl
      port_up-IsIface wan (omega arith, omega arith) up_alias-held
