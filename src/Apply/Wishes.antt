-- ===== src/Apply/Wishes.antt =====
-- What a client's settings ask of the kernel's link, and that the interface shows the link so
-- changed (lib/iface.c).
use nlif.Prelude.{
  ℕ, ◌<◌, ◌^◌, ◌≡◌, refl, sym, subst, ◌∙◌, ap, ◌⊎◌, inl, inr, Bool, Bool-cases, true, Option, none,
  some, List, [], ◌∷◌, if◌then◌else◌, ◌==◌, ◌&&◌, ◌||◌, leb, str_eq, str_eq_refl, eq_of_str_eq,
  bit_and, bit_or, arith,
}
use nlif.Prelude.Bits.{split_word, bit_and_one}
use nlif.Link.{EtherAddr, Link}
use nlif.Stroll.{Stroll}
use nlif.Iface.{
  Iface, dirty, Field, group_fld, name_fld, alias_fld, mtu_fld, hwadr_fld, CStr, held, clone,
  iff_up, complement, fill,
}
use nlif.Iface.Valid.{IsIface}
use nlif.Settings.Names.{wanted}
use nlif.Settings.State.{up_mask, up_flags, InRange, restore}
use nlif.Apply.{settle}
use nlif.Apply.Session.{Setting, group, mtu, alias, hwaddr, admstate, IsSetting}

-- The link that a setting asks for. An MTU out of range and an alias that is the name ask for
-- nothing.
abbrev pub asked : Setting → Link → Link
asked (group n) l = record l { group = n }
asked (mtu n) l =
    if leb l.min_mtu n && (l.max_mtu == 0 || leb n l.max_mtu) then record l { mtu = n } else l
asked (alias none) l = record l { ifalias = [] }
asked (alias (some a)) l = if str_eq a l.ifname then l else record l { ifalias = a }
asked (hwaddr a) l = record l { address = a }
asked (admstate up) l = record l { ifi_flags = up_flags l.ifi_flags up }

abbrev pub asked_all : List Setting → Link → Link
asked_all [] l = l
asked_all (s ∷ rest) l = asked_all rest (asked s l)

module _ (S : Stroll) where
  -- But for what is dirty, the interface reads as if filled from the link.
  abbrev pub Shows : Link → Iface → Type 0
  Shows l j = fill S l j ≡ settle S j

  -- The interface is to be applied, or is the one of the start.
  abbrev pub Kept : Iface → Iface → Type 0
  Kept start j = (j.state ≡ dirty) ⊎ (j ≡ start)

  pub kept_on :
      {A : Type 0} (start i j : Iface)
      → (j ≡ i) ⊎ ((j.state ≡ dirty) × A)
      → Kept start i
      → Kept start j
  kept_on start i j (inl e) k = subst (Kept start) (sym e) k
  kept_on start i j (inr (st, _)) k = inl st

  module _ (i j : Iface) (l : Link) (shows : Shows l i) where
    -- The same of the interface with the field put back.
    restored : (r : Iface) → r ≡ i → Shows l r
    restored r e = subst (Shows l) (sym e) shows

    pub group-Shows :
        (n : ℕ) → restore group_fld i j ≡ i → j.group ≡ n → Shows (record l { group = n }) j
    unfolding fill
    group-Shows n e is =
        ap (λ (x : Iface). record x { group = n }) (restored (restore group_fld i j) e)
        ∙ ap (λ (g : ℕ). record (settle S j) { group = g }) (sym is)

    pub mtu-Shows : (n : ℕ) → restore mtu_fld i j ≡ i → j.mtu ≡ n → Shows (record l { mtu = n }) j
    unfolding fill
    mtu-Shows n e is =
        ap (λ (x : Iface). record x { mtu = n }) (restored (restore mtu_fld i j) e)
        ∙ ap (λ (g : ℕ). record (settle S j) { mtu = g }) (sym is)

    alias-Shows :
        (a : List ℕ)
        → restore alias_fld i j ≡ i
        → j.alias ≡ clone a
        → Shows (record l { ifalias = a }) j
    unfolding fill
    alias-Shows a e is =
        ap (λ (x : Iface). record x { alias = clone a }) (restored (restore alias_fld i j) e)
        ∙ ap (λ (g : CStr). record (settle S j) { alias = g }) (sym is)

    pub hwaddr-Shows :
        (a : EtherAddr)
        → restore hwadr_fld i j ≡ i
        → j.hwadr ≡ a
        → Shows (record l { address = a }) j
    unfolding fill
    hwaddr-Shows a e is =
        ap (λ (x : Iface). record x { hwadr = a }) (restored (restore hwadr_fld i j) e)
        ∙ ap (λ (g : EtherAddr). record (settle S j) { hwadr = g }) (sym is)

    flags-Shows :
        (f : ℕ)
        → record j { state = i.state; flags = i.flags; dirty_flags = i.dirty_flags } ≡ i
        → j.flags ≡ f
        → Shows (record l { ifi_flags = f }) j
    unfolding fill
    flags-Shows f e is =
        ap (λ (x : Iface). record x { flags = f })
          (restored (record j { state = i.state; flags = i.flags; dirty_flags = i.dirty_flags }) e)
        ∙ ap (λ (g : ℕ). record (settle S j) { flags = g }) (sym is)

    pub up-Shows :
        (up : Bool)
        → nlif.Iface.admstate j ≡ up
        → bit_and j.flags (complement iff_up) ≡ bit_and i.flags (complement iff_up)
        → j.flags < 2 ^ 32
        → record j { state = i.state; flags = i.flags; dirty_flags = i.dirty_flags } ≡ i
        → Shows (asked (admstate up) l) j
    unfolding fill nlif.Iface.admstate
    up-Shows up is keep lt e =
        let low : bit_and j.flags iff_up ≡ up_mask up = ground (arith, bit_and_one j.flags) in
        let here : i.flags ≡ l.ifi_flags = sym (ap (λ x. x.flags) shows) in
        flags-Shows (up_flags l.ifi_flags up) e (
          sym (split_word j.flags 1 lt refl)
          ∙ ap (bit_or (bit_and j.flags (complement iff_up))) low
          ∙ ap (λ f. bit_or f (up_mask up)) (keep ∙ ap (λ f. bit_and f (complement iff_up)) here))

    -- An MTU that was set is in the range that asks for it.
    pub mtu_taken :
        (n : ℕ) → IsIface j → restore mtu_fld i j ≡ i → j.mtu ≡ n → Shows (asked (mtu n) l) j
    unfolding fill
    mtu_taken n good e is =
        let low : j.min_mtu ≡ l.min_mtu = ap (λ x. x.min_mtu) e ∙ sym (ap (λ x. x.min_mtu) shows) in
        let high : j.max_mtu ≡ l.max_mtu =
          ap (λ x. x.max_mtu) e ∙ sym (ap (λ x. x.max_mtu) shows) in
        let fits : (leb l.min_mtu n && (l.max_mtu == 0 || leb n l.max_mtu)) ≡ true =
          ground (arith, good.mtu_min, good.mtu_max) in
        rw fits (mtu-Shows n e is)

    -- An alias that was set is not the name.
    pub alias_taken :
        (a : Option (List ℕ))
        → IsSetting (alias a)
        → IsIface j
        → restore alias_fld i j ≡ i
        → j.alias ≡ wanted a
        → Shows (asked (alias a) l) j
    unfolding fill
    alias_taken none fits good e is = alias-Shows [] e is
    alias_taken (some []) fits good e is = absurd (omega arith)
    alias_taken (some (c ∷ a)) fits good e is =
        let name : j.name ≡ l.ifname = ap (λ x. x.name) e ∙ sym (ap (λ x. x.name) shows) in
        elim (Bool-cases (str_eq (c ∷ a) l.ifname)) [
          | inl clash ↦
              absurd (good.distinct (is ∙ ap held (eq_of_str_eq (c ∷ a) l.ifname clash ∙ sym name)))
          | inr other ↦ rw other (alias-Shows (c ∷ a) e is)
        ]

  module _ (i : Iface) (l : Link) (shows : Shows l i) where
    -- Nothing is asked for by what is refused.
    pub mtu_refused : (n : ℕ) → ¬ InRange i n → asked (mtu n) l ≡ l
    unfolding fill
    mtu_refused n off =
        let low : i.min_mtu ≡ l.min_mtu = sym (ap (λ x. x.min_mtu) shows) in
        let high : i.max_mtu ≡ l.max_mtu = sym (ap (λ x. x.max_mtu) shows) in
        elim (Bool-cases (leb l.min_mtu n && (l.max_mtu == 0 || leb n l.max_mtu))) [
          | inl fits ↦ absurd (off (ground arith))
          | inr out ↦ rw out
        ]

    pub alias_refused : (a : Option (List ℕ)) → wanted a ≡ held i.name → asked (alias a) l ≡ l
    unfolding fill
    alias_refused none e = absurd cc
    alias_refused (some a) e =
        let same : a ≡ l.ifname = ground arith in rw (same, str_eq_refl l.ifname)
