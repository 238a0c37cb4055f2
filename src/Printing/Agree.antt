-- ===== src/Printing/Agree.antt =====
-- `nlif_iface_print` against `nlif_link_print`.
use nlif.Prelude.{ℕ, ◌≡◌, refl, Option, some, List, [], ◌∷◌}
use nlif.Link.{Link}
use nlif.Stroll.{Ptr, Stroll}
use nlif.Ynl.{Ynl}
use nlif.Iface.{Iface, clone, clone_attr, fill}
use nlif.World.{World, M, done, get_iface}
use nlif.Gate.{Event}
use nlif.Settings.State.{sync_state}
use nlif.Store.Arrive.{clone-Owns, clone_attr-Owns}
use nlif.Printing.{Line, written, link_lines, iface_lines, link_print, iface_print}
use nlif.Printing.Clean.{shown, maybe_empty_str-shown, IsLegible}

-- What `nlif_iface_print` writes of what `nlif_link_print` writes: the lines `change` and `carrier`
-- are left out, and the alias comes before the kind.
abbrev pub as_iface : List Line → List Line
as_iface (index ∷ group ∷ flags ∷ change ∷ oper ∷ carrier ∷ mode ∷ type ∷ kind ∷ alias ∷ rest) =
    index ∷ group ∷ flags ∷ oper ∷ mode ∷ type ∷ alias ∷ kind ∷ rest
as_iface lines = []

module _ (ffs : ℕ → ℕ) (flag_text : ℕ → Option (List ℕ)) (S : Stroll) (Y : Ynl)
    (notif : Event → M (Unit {0})) where
  -- For a link whose flags, operational state and mode have a text, and an interface filled from
  -- it: `nlif_link_print` and `nlif_iface_print` return, with the memory as it was, and the latter
  -- writes the lines of the former without `change` and `carrier`, the alias before the kind.
  pub iface_print-link_print :
      (p : Ptr) (w : World) (l : Link) (i : Iface)
      → IsLegible ffs flag_text l.ifi_flags l.operstate l.linkmode
      → w.mem p ≡ some (fill S l i)
      → (lines : List Line) × (link_print ffs flag_text l w ≡ done lines w)
        × (iface_print ffs flag_text S Y notif p w ≡ done (as_iface lines) w)
  unfolding link_print iface_print get_iface written fill link_lines iface_lines
  iface_print-link_print p w l i h at =
      let alias = maybe_empty_str-shown (clone l.ifalias) w (clone-Owns l.ifalias) in
      let kind = maybe_empty_str-shown (clone_attr l.linkinfo) w (clone_attr-Owns l.linkinfo) in
      (
        link_lines l h.flags_line h.flags_line h.operstate_line h.mode_line
            (shown (clone_attr l.linkinfo)) (shown (clone l.ifalias)),
        rw (h.flags_text, h.operstate_text, h.mode_text) (rw (kind, alias) refl),
        rw (sync_state S Y notif p w (fill S l i) at (fill S l i).state refl tt)
            (rw at (rw (h.flags_text, h.operstate_text, h.mode_text) (rw (alias, kind) refl))),
      )
