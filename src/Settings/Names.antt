-- ===== src/Settings/Names.antt =====
-- `nlif_iface_set_name` and `nlif_iface_set_alias`: the two strings of an interface stay distinct.
use nlif.Prelude.{
  ℕ, ◌≡◌, ◌≢◌, refl, sym, ap, ◌∙◌, inl, inr, false, Option, none, some, List, str_eq, eq_of_str_eq,
  str_eq_iff, take_all, take, if◌then◌else◌, arith, Bool-cases,
}
use nlif.Errno.{eexist}
use nlif.Link.{ifnamsiz}
use nlif.Link.Validate.{IsName, IsAlias}
use nlif.Stroll.{Ptr, Stroll}
use nlif.Ynl.{Ynl}
use nlif.Iface.{Iface, name_fld, alias_fld, CStr, null, held}
use nlif.Iface.Valid.{IsIface, Owns, Owns-cases}
use nlif.World.{World, Run, M, done, fail, fault, write_iface, put_iface, read_str, free_str}
use nlif.World.Returns.{Ends, Sets, Sets-write, Sets-refl}
use nlif.Gate.{Event}
use nlif.Settings.{change_name, change_alias, set_name, set_alias, replace_alias, remove_alias}
use nlif.Settings.State.{synced_loaded, Changes}

-- The alias that a call of `nlif_iface_set_alias` asks for.
abbrev pub wanted : Option (List ℕ) → CStr
wanted none = null
wanted (some a) = held a

read_held : (c : CStr) (a : List ℕ) (w : World) → c ≡ held a → read_str c w ≡ done a w
unfolding read_str
read_held c a w e = rw e

-- The two outcomes of `nlif_iface_set_alias`: the alias is the one asked for, and nothing else of the
-- interface differs but its marks, or it is the name, and nothing changed.
abbrev pub AliasSets : Stroll → Ptr → World → Iface → CStr → Run (Unit {0}) → Type 0
AliasSets S p w i c =
    Ends (λ _. Sets p w λ j. IsIface j × (j.alias ≡ c) × Changes S alias_fld i j)
      (λ e u. (e ≡ eexist) × (u ≡ w) × (c ≡ held i.name))

module _ (S : Stroll) (Y : Ynl) (notif : Event → M (Unit {0})) (p : Ptr) (w : World) (i : Iface)
    (at : w.mem p ≡ some i) (v : IsIface i) where
  -- For a well-formed interface without an alias, and a name that is not its own:
  -- `nlif_iface_set_name` faults, since it compares the name with a NULL alias.
  pub set_name-null_alias :
      (name : List ℕ) → i.alias ≡ null → name ≢ i.name → set_name S Y notif p name w ≡ fault
  unfolding set_name read_str
  set_name-null_alias name e n =
      rw (synced_loaded S Y notif p w i at v.state) (ground (arith, str_eq_iff i.name name))

  change_name-IsIface :
      (name a : List ℕ)
      → IsName name
      → i.alias ≡ held a
      → str_eq name a ≡ false
      → IsIface (change_name S name i) × (take ifnamsiz name ≡ name)
  change_name-IsIface name a fits e n =
      let whole : take ifnamsiz name ≡ name = take_all ifnamsiz name (omega arith) in
      (
        record {
          state = tt;
          index = v.index;
          dirty_flags = v.dirty_flags;
          name = rw whole fits;
          alias = v.alias;
          distinct = rw whole (ground (arith, str_eq_iff name a));
          kind = v.kind;
          mtu_min = v.mtu_min;
          mtu_max = v.mtu_max;
          hwaddr = v.hwaddr;
        },
        whole,
      )

  -- For a well-formed interface that has an alias, and a valid name: `nlif_iface_set_name` either
  -- leaves a well-formed interface with this name, which differs in nothing else but its marks, or
  -- fails with EEXIST, with nothing changed, the name being the alias.
  pub set_name-Sets :
      (name : List ℕ)
      → IsName name
      → i.alias ≢ null
      → Ends
          (λ _. Sets p w λ j. IsIface j × (j.name ≡ name) × Changes S name_fld i j)
          (λ e u. (e ≡ eexist) × (u ≡ w) × (i.alias ≡ held name))
          (set_name S Y notif p name w)
  unfolding set_name put_iface read_str
  set_name-Sets name fits n =
      rw (synced_loaded S Y notif p w i at v.state) (elim (Bool-cases (str_eq i.name name)) [
        | inl same ↦
            rw same (Sets-refl p w _ i at (v, eq_of_str_eq i.name name same, (inl refl, refl)))
        | inr differs ↦ rw differs (elim (Owns-cases IsAlias i.alias v.alias) [
          | inl none_held ↦ absurd (n none_held)
          | inr (a, e, _) ↦ rw (read_held i.alias a w e) (elim (Bool-cases (str_eq name a)) [
            | inl clash ↦ rw clash (refl, refl, e ∙ ap held (sym (eq_of_str_eq name a clash)))
            | inr free ↦ rw free (
                let (good, whole) = change_name-IsIface name a fits e free in
                Sets-write p w _ _ (good, whole, (inr (refl, refl), refl)))
          ])
        ])
      ])

  remove_null : i.alias ≡ null → remove_alias S Y notif p i w ≡ done tt w
  unfolding remove_alias
  remove_null e = rw e

  remove_held :
      (a : List ℕ)
      → i.alias ≡ held a
      → remove_alias S Y notif p i w ≡ done tt (write_iface p (some (change_alias S null i)) w)
  unfolding remove_alias free_str put_iface
  remove_held a e = rw e

  -- What is left to do once the alias is known to differ.
  abbrev replacing : List ℕ → Run (Unit {0})
  replacing b =
      if str_eq b i.name
      then fail eexist w
      else done tt (write_iface p (some (change_alias S (held b) i)) w)

  replace_null : (b : List ℕ) → i.alias ≡ null → replace_alias S Y notif p i b w ≡ replacing b
  unfolding replace_alias free_str put_iface
  replace_null b e = elim (Bool-cases (str_eq b i.name)) [
    | inl clash ↦ rw (e, clash)
    | inr free ↦ rw (e, free)
  ]

  replace_held :
      (b a : List ℕ)
      → i.alias ≡ held a
      → replace_alias S Y notif p i b w ≡ (if str_eq a b then done tt w else replacing b)
  unfolding replace_alias free_str put_iface read_str
  replace_held b a e = elim (Bool-cases (str_eq a b)) [
    | inl same ↦ rw (e, same)
    | inr differs ↦ elim (Bool-cases (str_eq b i.name)) [
      | inl clash ↦ rw (e, differs, clash)
      | inr free ↦ rw (e, differs, free)
    ]
  ]

  change_alias-AliasSets :
      (c : CStr)
      → Owns IsAlias c
      → c ≢ held i.name
      → AliasSets S p w i c (done tt (write_iface p (some (change_alias S c i)) w))
  change_alias-AliasSets c own n = Sets-write p w _ _ (
    record {
      state = tt;
      index = v.index;
      dirty_flags = v.dirty_flags;
      name = v.name;
      alias = own;
      distinct = n;
      kind = v.kind;
      mtu_min = v.mtu_min;
      mtu_max = v.mtu_max;
      hwaddr = v.hwaddr;
    },
    refl,
    (inr (refl, refl), refl),
  )

  replacing-AliasSets : (b : List ℕ) → IsAlias b → AliasSets S p w i (held b) (replacing b)
  replacing-AliasSets b fits = elim (Bool-cases (str_eq b i.name)) [
    | inl clash ↦ rw clash (refl, refl, ap held (eq_of_str_eq b i.name clash))
    | inr free ↦
        rw free (change_alias-AliasSets (held b) fits (ground (arith, str_eq_iff b i.name)))
  ]

  -- For a well-formed interface, and a valid alias or none: `nlif_iface_set_alias` either leaves a
  -- well-formed interface with this alias, which differs in nothing else but its marks, or fails
  -- with EEXIST, with nothing changed, the alias being the interface's name.
  pub set_alias-Sets :
      (alias : Option (List ℕ))
      → Owns IsAlias (wanted alias)
      → AliasSets S p w i (wanted alias) (set_alias S Y notif p alias w)
  unfolding set_alias
  set_alias-Sets none fits =
      rw (synced_loaded S Y notif p w i at v.state) (elim (Owns-cases IsAlias i.alias v.alias) [
        | inl e ↦ rw (remove_null e) (Sets-refl p w _ i at (v, e, (inl refl, refl)))
        | inr (a, e, _) ↦ rw (remove_held a e) (change_alias-AliasSets null tt (λ q. cc))
      ])
  set_alias-Sets (some b) fits =
      rw (synced_loaded S Y notif p w i at v.state) (elim (Owns-cases IsAlias i.alias v.alias) [
        | inl e ↦ rw (replace_null b e) (replacing-AliasSets b fits)
        | inr (a, e, _) ↦ rw (replace_held b a e) (elim (Bool-cases (str_eq a b)) [
          | inl same ↦
              rw same
                (Sets-refl p w _ i at (v, e ∙ ap held (eq_of_str_eq a b same), (inl refl, refl)))
          | inr differs ↦ rw differs (replacing-AliasSets b fits)
        ])
      ])
