-- ===== src/Iface/Valid.antt =====
-- `nlif_link_assert` (lib/link.h) and `nlif_iface_assert` (lib/iface.h) as predicates, the latter
-- with what `nlif_gate_islink_valid` and the setters are there for: an alias is not the name.
use nlif.Prelude.{ℕ, ◌≤◌, ◌<◌, ◌^◌, ◌≡◌, ◌≢◌, ◌⊎◌, inl, inr, refl, true, List, [], length, bit_and}
use nlif.Link.{Link, hwaddr_is_ucast}
use nlif.Link.Validate.{IsName, IsAlias}
use nlif.Iface.{Iface, State, invalid, clean, dirty, stat_nr, CStr, null, held, freed, iff_volatile}

-- What `nlif_link_assert` says of a link, the kernel's 32-bit flags included.
pub record IsLink (l : Link) : Type 0 where
  pub index : l.ifi_index ≢ 0
  pub name : IsName l.ifname
  pub alias : (l.ifalias ≡ []) ⊎ IsAlias l.ifalias
  pub mtu_min : l.min_mtu ≤ l.mtu
  pub mtu_max : (l.max_mtu ≡ 0) ⊎ (l.mtu ≤ l.max_mtu)
  pub hwaddr : hwaddr_is_ucast l.address ≡ true
  pub flags : l.ifi_flags < 2 ^ 32

-- NULL, or a string that satisfies `P`; never dangling.
abbrev pub Owns : (List ℕ → Type 0) → CStr → Type 0
Owns P null = Unit
Owns P (held s) = P s
Owns P freed = ⊥

-- `stat_nr` is excluded: the interface was loaded once. An invalid one may hold dangling strings.
abbrev pub IsLoaded : State → Type 0
IsLoaded invalid = ⊥
IsLoaded clean = Unit
IsLoaded dirty = Unit
IsLoaded stat_nr = ⊥

pub record IsIface (i : Iface) : Type 0 where
  pub state : IsLoaded i.state
  pub index : i.idx ≢ 0
  pub dirty_flags : bit_and i.dirty_flags iff_volatile ≡ 0
  pub name : IsName i.name
  pub alias : Owns IsAlias i.alias
  pub distinct : i.alias ≢ held i.name
  pub kind : Owns (λ s. 0 < length s) i.kind
  pub mtu_min : i.min_mtu ≤ i.mtu
  pub mtu_max : (i.max_mtu ≡ 0) ⊎ (i.mtu ≤ i.max_mtu)
  pub hwaddr : hwaddr_is_ucast i.hwadr ≡ true

pub Owns-weaken : (P : List ℕ → Type 0) (c : CStr) → Owns P c → Owns (λ _. Unit) c
Owns-weaken P null h = tt
Owns-weaken P (held s) h = tt
Owns-weaken P freed h = elim h [ ]

pub Owns-cases :
    (P : List ℕ → Type 0) (c : CStr) → Owns P c → (c ≡ null) ⊎ ((s : List ℕ) × (c ≡ held s) × P s)
Owns-cases P null h = inl refl
Owns-cases P (held s) h = inr (s, refl, h)
Owns-cases P freed h = elim h [ ]
