-- ===== src/Settings/State.antt =====
-- The setters on an interface that is clean or dirty: what they change, and what they keep.
use nlif.Prelude.{
  ℕ, ◌≤◌, ◌<◌, ◌^◌, ◌≡◌, refl, ◌⊎◌, inl, inr, ◌==◌, ◌&&◌, ◌||◌, leb, Bool, true, false, bit_and,
  bit_or, sym, arith, Bool-cases, if◌then◌else◌, some,
}
use nlif.Prelude.Bits.{merge_in, merge_out, and-or, zero-bit_or, up_word_lt}
use nlif.Errno.{ok, einval}
use nlif.Link.{EtherAddr, addr_eq, hwaddr_is_ucast}
use nlif.Stroll.{Ptr, Stroll}
use nlif.Ynl.{Ynl}
use nlif.Iface.{
  Iface, State, invalid, clean, dirty, stat_nr, Field, group_fld, name_fld, alias_fld, mtu_fld,
  hwadr_fld, field_bit, validate_mtu, validate_hwaddr, admstate, iff_up, iff_volatile, complement,
}
use nlif.Iface.Valid.{IsIface, IsLoaded}
use nlif.World.{World, M, done, get_iface, put_iface}
use nlif.World.Returns.{Returns, Ends, Sets, Sets-write, Sets-refl}
use nlif.Gate.{Event}
use nlif.Lifecycle.{sync}
use nlif.Settings.{synced, set_mtu, set_group, set_hwaddr, set_admstate}

eq_of_addr_eq : (a b : EtherAddr) → addr_eq a b ≡ true → a ≡ b
unfolding addr_eq
eq_of_addr_eq a b h = ground arith

ucast_of_valid : (a : EtherAddr) → validate_hwaddr a ≡ ok tt → hwaddr_is_ucast a ≡ true
unfolding validate_hwaddr
ucast_of_valid a h = ground arith

-- The word that `nlif_iface_set_admstate` writes.
abbrev pub up_mask : Bool → ℕ
up_mask up = if up then iff_up else 0

abbrev pub up_flags : ℕ → Bool → ℕ
up_flags f up = bit_or (bit_and f (complement iff_up)) (up_mask up)

pub up_in : (f : ℕ) (up : Bool) → bit_and (up_flags f up) iff_up ≡ up_mask up
up_in f true = merge_in f 1 1 (complement 1) refl refl
up_in f false = merge_in f 0 1 (complement 1) refl refl

up_out :
    (f : ℕ) (up : Bool)
    → bit_and (up_flags f up) (complement iff_up) ≡ bit_and f (complement iff_up)
up_out f true = merge_out f 1 1 (complement 1) refl refl
up_out f false = merge_out f 0 1 (complement 1) refl refl

up_lt : (f : ℕ) (up : Bool) → f < 2 ^ 32 → up_flags f up < 2 ^ 32
up_lt f true h = (up_word_lt f (complement 1) h).1
up_lt f false h = (up_word_lt f (complement 1) h).0

dirty_up : (d : ℕ) → bit_and d iff_volatile ≡ 0 → bit_and (bit_or d iff_up) iff_volatile ≡ 0
dirty_up d h = rw (and-or d iff_up iff_volatile, h) (zero-bit_or 0)

-- Either nothing changed, or the interface is dirty with the field's bit set.
abbrev pub Marked : Stroll → Field → Iface → Iface → Type 0
Marked S fld i j =
    (j ≡ i) ⊎ ((j.state ≡ dirty) × (j.dirty_fields ≡ S.bmap_set i.dirty_fields (field_bit fld)))

-- The interface `j` with the field, the state and the bitmap that `i` has.
abbrev pub restore : Field → Iface → Iface → Iface
restore group_fld i j = record j { state = i.state; dirty_fields = i.dirty_fields; group = i.group }
restore name_fld i j = record j { state = i.state; dirty_fields = i.dirty_fields; name = i.name }
restore alias_fld i j = record j { state = i.state; dirty_fields = i.dirty_fields; alias = i.alias }
restore mtu_fld i j = record j { state = i.state; dirty_fields = i.dirty_fields; mtu = i.mtu }
restore hwadr_fld i j = record j { state = i.state; dirty_fields = i.dirty_fields; hwadr = i.hwadr }

-- The interface differs in one field at most, and is then marked for it.
abbrev pub Changes : Stroll → Field → Iface → Iface → Type 0
Changes S fld i j = Marked S fld i j × (restore fld i j ≡ i)

-- What `nlif_iface_validate_mtu` accepts; a maximum of 0 is none.
abbrev pub InRange : Iface → ℕ → Type 0
InRange i mtu = (i.min_mtu ≤ mtu) × ((i.max_mtu ≡ 0) ⊎ (mtu ≤ i.max_mtu))

module _ (S : Stroll) (Y : Ynl) (notif : Event → M (Unit {0})) (p : Ptr) (w : World) (i : Iface)
    (at : w.mem p ≡ some i) where
  pub sync_state : (st : State) → i.state ≡ st → IsLoaded st → sync S Y notif p w ≡ done tt w
  unfolding sync get_iface
  sync_state invalid e h = elim h [ ]
  sync_state clean e h = rw (at, e)
  sync_state dirty e h = rw (at, e)
  sync_state stat_nr e h = elim h [ ]

  pub synced_loaded : IsLoaded i.state → synced S Y notif p w ≡ done i w
  unfolding get_iface
  synced_loaded h = rw (sync_state i.state refl h, at)

  module _ (v : IsIface i) where
    -- For a well-formed interface: `nlif_iface_set_mtu` either leaves a well-formed interface with
    -- this MTU, which differs in nothing else but its marks, or fails with EINVAL, with nothing
    -- changed, the MTU being out of the interface's range.
    pub set_mtu-Sets :
        (mtu : ℕ)
        → Ends
            (λ _. Sets p w λ j. IsIface j × (j.mtu ≡ mtu) × Changes S mtu_fld i j)
            (λ e u. (e ≡ einval) × (u ≡ w) × ¬ InRange i mtu)
            (set_mtu S Y notif p mtu w)
    unfolding set_mtu put_iface validate_mtu
    set_mtu-Sets mtu = rw (synced_loaded v.state) (elim (Bool-cases (mtu == i.mtu)) [
      | inl same ↦ rw same (Sets-refl p w _ i at (v, ground arith, (inl refl, refl)))
      | inr differs ↦
          rw differs
            (elim (Bool-cases (leb i.min_mtu mtu && (i.max_mtu == 0 || leb mtu i.max_mtu))) [
              | inl fits ↦
                  rw fits (Sets-write p w _ _ (ground arith, refl, (inr (refl, refl), refl)))
              | inr off ↦ rw off (refl, refl, ground arith)
            ])
    ])

    -- For a well-formed interface: `nlif_iface_set_group` leaves a well-formed interface in this
    -- group, which differs in nothing else but its marks.
    pub set_group-Sets :
        (group : ℕ)
        → Returns
            (λ _. Sets p w λ j. IsIface j × (j.group ≡ group) × Changes S group_fld i j)
            (set_group S Y notif p group w)
    unfolding set_group put_iface
    set_group-Sets group = rw (synced_loaded v.state) (elim (Bool-cases (group == i.group)) [
      | inl same ↦ rw same (Sets-refl p w _ i at (v, ground arith, (inl refl, refl)))
      | inr differs ↦ rw differs (Sets-write p w _ _ (ground arith, refl, (inr (refl, refl), refl)))
    ])

    -- For a well-formed interface and a valid address: `nlif_iface_set_hwaddr` leaves a well-formed
    -- interface with this address, which differs in nothing else but its marks.
    pub set_hwaddr-Sets :
        (address : EtherAddr)
        → validate_hwaddr address ≡ ok tt
        → Returns
            (λ _. Sets p w λ j. IsIface j × (j.hwadr ≡ address) × Changes S hwadr_fld i j)
            (set_hwaddr S Y notif p address w)
    unfolding set_hwaddr put_iface
    set_hwaddr-Sets address valid =
        rw (synced_loaded v.state) (elim (Bool-cases (addr_eq address i.hwadr)) [
          | inl same ↦
              rw same (
                Sets-refl p w _ i at
                  (v, sym (eq_of_addr_eq address i.hwadr same), (inl refl, refl)))
          | inr differs ↦ rw differs (
              Sets-write p w _ _ (
                record {
                  state = tt;
                  index = v.index;
                  dirty_flags = v.dirty_flags;
                  name = v.name;
                  alias = v.alias;
                  distinct = v.distinct;
                  kind = v.kind;
                  mtu_min = v.mtu_min;
                  mtu_max = v.mtu_max;
                  hwaddr = ucast_of_valid address valid;
                },
                refl,
                (inr (refl, refl), refl),
              ))
        ])

    -- For a well-formed interface with 32-bit flags: `nlif_iface_set_admstate` leaves a well-formed
    -- interface with this administrative state, whose other flags are as before and fit 32 bits,
    -- which is unchanged or else dirty with IFF_UP marked, and whose other fields are as before.
    pub set_admstate-Sets :
        (up : Bool)
        → i.flags < 2 ^ 32
        → Returns
            (λ _. Sets p w λ j.
              IsIface j
              × (admstate j ≡ up)
              × (bit_and j.flags (complement iff_up) ≡ bit_and i.flags (complement iff_up))
              × (j.flags < 2 ^ 32)
              × ((j ≡ i) ⊎ ((j.state ≡ dirty) × (j.dirty_flags ≡ bit_or i.dirty_flags iff_up)))
              × (record j { state = i.state; flags = i.flags; dirty_flags = i.dirty_flags } ≡ i))
            (set_admstate S Y notif p up w)
    unfolding set_admstate put_iface admstate
    set_admstate-Sets up width =
        rw (synced_loaded v.state) (elim (Bool-cases (bit_and i.flags iff_up == up_mask up)) [
          | inl same ↦ rw same (Sets-refl p w _ i at (v, ground arith, refl, width, inl refl, refl))
          | inr differs ↦ rw differs (
              Sets-write p w _ _ (
                ground (arith, dirty_up i.dirty_flags v.dirty_flags),
                ground (arith, up_in i.flags up),
                up_out i.flags up,
                up_lt i.flags up width,
                inr (refl, refl),
                refl,
              ))
        ])
