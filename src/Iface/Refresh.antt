-- ===== src/Iface/Refresh.antt =====
-- `nlif_iface_refresh_state`: what a notification of the kernel changes in an interface.
use nlif.Prelude.{ℕ, ◌≡◌, refl, ◌⊎◌, true, false, ◌↔◌, bit_and, bit_or, arith}
use nlif.Prelude.Bits.{merge_in, merge_out}
use nlif.Link.{Link}
use nlif.Iface.{Iface, iff_volatile, complement, refresh_state}

-- `(f & ~m) | (l & m)` for the mask of the volatile flags.
abbrev merge : ℕ → ℕ → ℕ
merge f l = bit_or (bit_and f (complement iff_volatile)) (bit_and l iff_volatile)

merge_volatile : (f l : ℕ) → bit_and (merge f l) iff_volatile ≡ bit_and l iff_volatile
merge_volatile f l = merge_in f l iff_volatile (complement iff_volatile) refl refl

merge_other :
    (f l : ℕ) → bit_and (merge f l) (complement iff_volatile) ≡ bit_and f (complement iff_volatile)
merge_other f l = merge_out f l iff_volatile (complement iff_volatile) refl refl

-- The volatile flags, the operational state and the link mode are those of the link.
pub record InSync (i : Iface) (link : Link) : Type 0 where
  pub flags : bit_and i.flags iff_volatile ≡ bit_and link.ifi_flags iff_volatile
  pub opstat : i.opstat ≡ link.operstate
  pub lnkmod : i.lnkmod ≡ link.linkmode

-- For any interface and link: after `nlif_iface_refresh_state` the volatile flags, the operational
-- state and the link mode are those of the link; the other flags and fields are as before; no
-- change is reported exactly when the interface was in sync before; and a change is reported or the
-- interface is the same.
pub refresh_state-InSync :
    (i : Iface) (link : Link)
    → let (j, changed) = refresh_state i link in
      InSync j link
      × (bit_and j.flags (complement iff_volatile) ≡ bit_and i.flags (complement iff_volatile))
      × (record j { flags = i.flags; opstat = i.opstat; lnkmod = i.lnkmod } ≡ i)
      × ((changed ≡ false) ↔ InSync i link)
      × ((changed ≡ true) ⊎ (j ≡ i))
unfolding refresh_state
refresh_state-InSync i link =
    ground (arith, merge_volatile i.flags link.ifi_flags, merge_other i.flags link.ifi_flags)
