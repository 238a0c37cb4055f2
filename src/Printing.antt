-- ===== src/Printing.antt =====
-- `nlif_iface_print` of lib/iface.c and `nlif_link_print` of lib/link.c, with the macros of
-- lib/link.h and lib/common.h that they use: what is written, line by line.
pub mod Agree
pub mod Clean
use nlif.Prelude.{
  ℕ, zero, suc, ◌-◌, ◌++◌, Option, none, some, List, [], ◌∷◌, length, codes, dec_str,
}
use nlif.Link.{Link}
use nlif.Link.Print.{
  Text, text, aborted, undefined, out_of_fuel, hwaddr_str, operstate_str, mode_str, arphrd_str,
  nozero_str, flags_str,
}
use nlif.Stroll.{Ptr, Stroll}
use nlif.Ynl.{Ynl}
use nlif.Iface.{Iface, CStr, null, held, freed, clone, clone_attr, value_or_zero}
use nlif.World.{M, done, fault, pure, ◌>>=◌, ◌>>◌, deref, get_iface, read_str}
use nlif.Gate.{Event}
use nlif.Lifecycle.{sync}

-- A line, without its newline.
abbrev pub Line : Type 0
Line = List ℕ

-- The string that `printf` reads where `nlif_maybe_empty_str` gives its argument back.
unfoldable pub maybe_empty_str : CStr → M Line
unfolding read_str
maybe_empty_str null = pure (codes "none")
maybe_empty_str (held s) = read_str (held s)
maybe_empty_str freed = read_str freed

-- A call of `abort`, or what C does not define, does not return.
unfoldable pub written : Text → M Line
written (text t) w = done t w
written aborted w = fault
written undefined w = fault
written out_of_fuel w = fault

abbrev pub spaces : ℕ → Line
spaces zero = []
spaces (suc n) = 32 ∷ spaces n

-- `%3u`
unfoldable pub index_text : ℕ → Line
unfolding dec_str
index_text index = spaces (3 - length (dec_str index)) ++ dec_str index

abbrev pub heading : ℕ → List ℕ → Line
heading index name = index_text index ++ codes ": " ++ name

-- What is written once the texts of the attributes that have one are there.
unfoldable pub link_lines : Link → Line → Line → Line → Line → Line → Line → List Line
unfolding index_text arphrd_str nozero_str hwaddr_str dec_str
link_lines link flags change operstate linkmode kind alias =
    heading link.ifi_index link.ifname
    ∷ (codes "     group:     " ++ dec_str link.group)
    ∷ (codes "     flags:     " ++ flags)
    ∷ (codes "     change:    " ++ change)
    ∷ (codes "     operstate: " ++ operstate)
    ∷ (codes "     carrier:   " ++ dec_str link.carrier)
    ∷ (codes "     linkmode:  " ++ linkmode)
    ∷ (codes "     type:      " ++ arphrd_str link.ifi_type)
    ∷ (codes "     kind:      " ++ kind)
    ∷ (codes "     alias:     " ++ alias)
    ∷ (codes "     link:      " ++ nozero_str (value_or_zero link.link))
    ∷ (codes "     master:    " ++ nozero_str (value_or_zero link.master))
    ∷ (codes "     mtu:       " ++ nozero_str link.mtu)
    ∷ (codes "     min_mtu:   " ++ nozero_str link.min_mtu)
    ∷ (codes "     max_mtu:   " ++ nozero_str link.max_mtu)
    ∷ (codes "     hwaddr:    " ++ hwaddr_str link.address)
    ∷ []

unfoldable pub iface_lines : Iface → Line → Line → Line → Line → Line → List Line
unfolding index_text arphrd_str nozero_str hwaddr_str dec_str
iface_lines i flags operstate linkmode alias kind =
    heading i.idx i.name
    ∷ (codes "     group:     " ++ dec_str i.group)
    ∷ (codes "     flags:     " ++ flags)
    ∷ (codes "     operstate: " ++ operstate)
    ∷ (codes "     linkmode:  " ++ linkmode)
    ∷ (codes "     type:      " ++ arphrd_str i.type)
    ∷ (codes "     alias:     " ++ alias)
    ∷ (codes "     kind:      " ++ kind)
    ∷ (codes "     link:      " ++ nozero_str i.lnk)
    ∷ (codes "     master:    " ++ nozero_str i.mst)
    ∷ (codes "     mtu:       " ++ nozero_str i.mtu)
    ∷ (codes "     min_mtu:   " ++ nozero_str i.min_mtu)
    ∷ (codes "     max_mtu:   " ++ nozero_str i.max_mtu)
    ∷ (codes "     hwaddr:    " ++ hwaddr_str i.hwadr)
    ∷ []

module _ (ffs : ℕ → ℕ) (flag_text : ℕ → Option (List ℕ)) where
  abbrev pub flags_line : ℕ → M Line
  flags_line flags = written (flags_str ffs flag_text flags)

  unfoldable pub link_print : Link → M (List Line)
  unfolding flags_str written operstate_str mode_str maybe_empty_str link_lines
  link_print link = do
    flags ← flags_line link.ifi_flags
    change ← flags_line link.ifi_flags
    operstate ← deref (operstate_str link.operstate)
    linkmode ← deref (mode_str link.linkmode)
    kind ← maybe_empty_str (clone_attr link.linkinfo)
    alias ← maybe_empty_str (clone link.ifalias)
    pure (link_lines link flags change operstate linkmode kind alias)

  module _ (S : Stroll) (Y : Ynl) (notif : Event → M (Unit {0})) where
    unfoldable pub iface_print : Ptr → M (List Line)
    unfolding flags_str written operstate_str mode_str maybe_empty_str sync get_iface iface_lines
    iface_print p = do
      sync S Y notif p
      i ← get_iface p
      flags ← flags_line i.flags
      operstate ← deref (operstate_str i.opstat)
      linkmode ← deref (mode_str i.lnkmod)
      alias ← maybe_empty_str i.alias
      kind ← maybe_empty_str i.kind
      pure (iface_lines i flags operstate linkmode alias kind)
