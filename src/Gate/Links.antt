-- ===== src/Gate/Links.antt =====
-- `nlif_gate_islink_valid` with `nlif_iface_fill`: a link that is accepted makes a well-formed
-- interface.
use nlif.Prelude.{
  ℕ, ◌<◌, ◌≡◌, ◌≢◌, str_eq_refl, ◌⊎◌, Option, none, some, List, [], ◌∷◌, length, arith, inl, inr,
}
use nlif.Stroll.{Stroll}
use nlif.Stroll.Laws.{IsLawful}
use nlif.Link.{Link}
use nlif.Link.Validate.{IsAlias}
use nlif.Iface.{Iface, fill, clone, clone_attr, held}
use nlif.Errno.{ok}
use nlif.Gate.{islink_valid}
use nlif.Iface.Valid.{IsLink, IsIface, Owns}

clone-Owns : (s : List ℕ) → (s ≡ []) ⊎ IsAlias s → Owns IsAlias (clone s)
clone-Owns [] h = tt
clone-Owns (c ∷ s) (inl e) = cc
clone-Owns (c ∷ s) (inr h) = h

clone_attr-Owns : (s : Option (List ℕ)) → Owns (λ k. 0 < length k) (clone_attr s)
clone_attr-Owns none = tt
clone_attr-Owns (some []) = tt
clone_attr-Owns (some (c ∷ s)) = omega arith

clone-ne-held : (s name : List ℕ) → 0 < length name → s ≢ name → clone s ≢ held name
clone-ne-held [] name h n e = cc
clone-ne-held (c ∷ s) name h n e = n (ground arith)

islink_valid-distinct : (l : Link) → islink_valid l ≡ ok tt → l.ifalias ≢ l.ifname
unfolding islink_valid
islink_valid-distinct l h e = ground (arith, str_eq_refl l.ifname)

-- For a lawful stroll: a link that meets `nlif_link_assert` and passes `nlif_gate_islink_valid`
-- fills an interface that meets what is required of one, and whose alias is not its name.
pub fill-IsIface :
    (S : Stroll)
    → IsLawful S
    → (l : Link) (i : Iface) → IsLink l
    → islink_valid l ≡ ok tt
    → IsIface (fill S l i)
unfolding fill
fill-IsIface S laws l i v valid = record {
  state = tt;
  index = v.index;
  dirty_flags = rw laws.bmap_empty-zero;
  name = v.name;
  alias = clone-Owns l.ifalias v.alias;
  distinct = clone-ne-held l.ifalias l.ifname v.name.0 (islink_valid-distinct l valid);
  kind = clone_attr-Owns l.linkinfo;
  mtu_min = v.mtu_min;
  mtu_max = v.mtu_max;
  hwaddr = v.hwaddr;
}
