-- ===== src/Apply/Request.antt =====
-- The request of `nlif_iface_apply` against what RTM_SETLINK means: attributes that are sent replace
-- the link's, and the flags selected by `ifi_change` are set.
use nlif.Prelude.{
  ℕ, ◌<◌, ◌^◌, ◌≡◌, refl, sym, ◌⊎◌, inl, inr, Bool, false, true, if◌then◌else◌, Option, none, some,
  List, [], ◌∷◌, bit_and, bit_or, arith,
}
use nlif.Prelude.Bits.{split_word, bit_and-ones, bit_and-zero, bit_or-zero}
use nlif.Link.{Link}
use nlif.Link.Validate.{IsAlias}
use nlif.Stroll.{Stroll}
use nlif.Stroll.Laws.{IsLawful}
use nlif.Ynl.{SetReq}
use nlif.Iface.{
  Iface, clean, group_fld, name_fld, alias_fld, mtu_fld, hwadr_fld, CStr, null, held, freed, clone,
  clone_attr, value_or_zero, complement, iff_up, fill,
}
use nlif.Iface.Valid.{IsIface, Owns}
use nlif.World.{World, done, read_str}
use nlif.Apply.{is_dirty, alias_attr, dirty_alias, setlink_req, settle, when_dirty}

abbrev pub or_keep : {A : Type 0} → Option A → A → A
or_keep none a = a
or_keep (some b) a = b

-- An alias that is sent as NULL is removed.
abbrev pub patch_alias : Option (Option (List ℕ)) → List ℕ → List ℕ
patch_alias none s = s
patch_alias (some none) s = []
patch_alias (some (some t)) s = t

abbrev pub patch_flags : ℕ → ℕ → ℕ → ℕ
patch_flags flags change old = bit_or (bit_and old (complement change)) (bit_and flags change)

-- The link that the kernel has once it accepted the request.
unfoldable pub patch : SetReq → Link → Link
patch req l = record l {
  ifi_flags = patch_flags req.ifi_flags req.ifi_change l.ifi_flags;
  group = or_keep req.group l.group;
  ifname = or_keep req.ifname l.ifname;
  ifalias = patch_alias req.ifalias l.ifalias;
  mtu = or_keep req.mtu l.mtu;
  address = or_keep req.address l.address;
}

or_keep-when :
    {A : Type 0} (b : Bool) {a c : A}
    → (b ≡ false → a ≡ c)
    → or_keep (if b then some a else none) c ≡ a
or_keep-when true h = refl
or_keep-when false h = sym (h refl)

-- What is sent of the alias.
abbrev pub sent_alias : CStr → Option (List ℕ)
sent_alias null = none
sent_alias (held s) = some s
sent_alias freed = none

alias_attr-sent :
    (c : CStr) (w : World) → Owns (λ _. Unit) c → alias_attr c w ≡ done (sent_alias c) w
unfolding alias_attr read_str
alias_attr-sent null w h = refl
alias_attr-sent (held s) w h = refl
alias_attr-sent freed w h = elim h [ ]

-- The alias that the kernel then has, as the interface holds it.
clone-sent :
    (b : Bool) (c : CStr) (s : List ℕ)
    → Owns IsAlias c
    → (b ≡ false → c ≡ clone s)
    → clone (patch_alias (if b then some (sent_alias c) else none) s) ≡ c
clone-sent true null s own h = refl
clone-sent true (held []) s own h = absurd (omega arith)
clone-sent true (held (x ∷ a)) s own h = refl
clone-sent true freed s own h = elim own [ ]
clone-sent false c s own h = sym (h refl)

module _ (S : Stroll) where
  -- The interface differs from the link at most where it is dirty.
  pub record Coherent (i : Iface) (l : Link) : Type 0 where
    pub idx : i.idx ≡ l.ifi_index
    pub group : is_dirty S group_fld i ≡ false → i.group ≡ l.group
    pub flags :
        bit_and i.flags (complement i.dirty_flags) ≡ bit_and l.ifi_flags (complement i.dirty_flags)
    pub dirty_flags : (i.dirty_flags ≡ 0) ⊎ (i.dirty_flags ≡ iff_up)
    pub width : i.flags < 2 ^ 32
    pub opstat : i.opstat ≡ l.operstate
    pub lnkmod : i.lnkmod ≡ l.linkmode
    pub type : i.type ≡ l.ifi_type
    pub name : is_dirty S name_fld i ≡ false → i.name ≡ l.ifname
    pub alias : is_dirty S alias_fld i ≡ false → i.alias ≡ clone l.ifalias
    pub kind : i.kind ≡ clone_attr l.linkinfo
    pub lnk : i.lnk ≡ value_or_zero l.link
    pub mst : i.mst ≡ value_or_zero l.master
    pub mtu : is_dirty S mtu_fld i ≡ false → i.mtu ≡ l.mtu
    pub min_mtu : i.min_mtu ≡ l.min_mtu
    pub max_mtu : i.max_mtu ≡ l.max_mtu
    pub hwadr : is_dirty S hwadr_fld i ≡ false → i.hwadr ≡ l.address

  -- A freshly filled interface is coherent.
  pub fill-Coherent :
      IsLawful S → (l : Link) (i : Iface) → l.ifi_flags < 2 ^ 32 → Coherent (fill S l i) l
  unfolding fill is_dirty
  fill-Coherent laws l i h = record {
    idx = refl;
    group = λ _. refl;
    flags = refl;
    dirty_flags = inl laws.bmap_empty-zero;
    width = h;
    opstat = refl;
    lnkmod = refl;
    type = refl;
    name = λ _. refl;
    alias = λ _. refl;
    kind = refl;
    lnk = refl;
    mst = refl;
    mtu = λ _. refl;
    min_mtu = refl;
    max_mtu = refl;
    hwadr = λ _. refl;
  }

  abbrev pub request_of : Iface → SetReq
  request_of i = setlink_req S i (when_dirty S alias_fld i (sent_alias i.alias))

  pub dirty_alias-sent :
      (i : Iface) (w : World)
      → Owns (λ _. Unit) i.alias
      → dirty_alias S i w ≡ done (when_dirty S alias_fld i (sent_alias i.alias)) w
  unfolding dirty_alias is_dirty
  dirty_alias-sent i w h = ground (arith, alias_attr-sent i.alias w h)

  patched_flags :
      (f d l : ℕ)
      → (d ≡ 0) ⊎ (d ≡ iff_up)
      → f < 2 ^ 32
      → bit_and f (complement d) ≡ bit_and l (complement d)
      → patch_flags f d l ≡ f
  patched_flags f d l (inl e) h same = rw e (
      rw (rw e at (sym same), bit_and-zero f, bit_or-zero (bit_and f (complement 0)))
        (bit_and-ones 32 f h))
  patched_flags f d l (inr e) h same = rw e (rw (rw e at (sym same)) (split_word f 1 h refl))

  -- For a well-formed interface that differs from a link at most where it is marked dirty: the
  -- request that `nlif_iface_apply` builds, applied to the link as RTM_SETLINK means it, gives a
  -- link from which the interface would be filled as it is left once settled.
  pub patch-request :
      (i : Iface) (l : Link)
      → IsIface i
      → Coherent i l
      → fill S (patch (request_of i) l) i ≡ settle S i
  unfolding fill patch is_dirty
  patch-request i l v c = λ k. record {
    state = clean;
    dirty_fields = S.bmap_empty;
    gate = i.gate;
    idx = sym c.idx k;
    group = or_keep-when (S.bmap_test i.dirty_fields 0) c.group k;
    flags = patched_flags i.flags i.dirty_flags l.ifi_flags c.dirty_flags c.width c.flags k;
    dirty_flags = S.bmap_empty;
    opstat = sym c.opstat k;
    lnkmod = sym c.lnkmod k;
    type = sym c.type k;
    name = or_keep-when (S.bmap_test i.dirty_fields 1) c.name k;
    alias = clone-sent (S.bmap_test i.dirty_fields 2) i.alias l.ifalias v.alias c.alias k;
    kind = sym c.kind k;
    lnk = sym c.lnk k;
    mst = sym c.mst k;
    mtu = or_keep-when (S.bmap_test i.dirty_fields 3) c.mtu k;
    min_mtu = sym c.min_mtu k;
    max_mtu = sym c.max_mtu k;
    hwadr = or_keep-when (S.bmap_test i.dirty_fields 4) c.hwadr k;
  }
