-- ===== src/Printing/Clean.antt =====
-- `nlif_iface_print` on an interface that is in sync.
use nlif.Prelude.{ℕ, ◌≡◌, refl, Option, some, List, [], codes}
use nlif.Link.Print.{text, flags_str, operstate_str, mode_str}
use nlif.Stroll.{Ptr, Stroll}
use nlif.Ynl.{Ynl}
use nlif.Iface.{Iface, CStr, null, held, freed}
use nlif.Iface.Valid.{IsLoaded, Owns}
use nlif.World.{World, M, done, fail, get_iface, read_str}
use nlif.Gate.{Event}
use nlif.Lifecycle.{sync}
use nlif.Settings.State.{sync_state}
use nlif.Printing.{Line, maybe_empty_str, written, iface_lines, iface_print}

-- The text of a string that does not dangle.
abbrev pub shown : CStr → Line
shown null = codes "none"
shown (held s) = s
shown freed = []

pub maybe_empty_str-shown :
    (c : CStr) (w : World) → Owns (λ _. Unit) c → maybe_empty_str c w ≡ done (shown c) w
unfolding maybe_empty_str read_str
maybe_empty_str-shown null w own = refl
maybe_empty_str-shown (held s) w own = refl
maybe_empty_str-shown freed w own = elim own [ ]

module _ (ffs : ℕ → ℕ) (flag_text : ℕ → Option (List ℕ)) where
  -- Words that the three functions have a text for.
  pub record IsLegible (flags operstate linkmode : ℕ) : Type 0 where
    pub flags_line : Line
    pub flags_text : flags_str ffs flag_text flags ≡ text flags_line
    pub operstate_line : Line
    pub operstate_text : operstate_str operstate ≡ some operstate_line
    pub mode_line : Line
    pub mode_text : mode_str linkmode ≡ some mode_line

  -- An interface that can be printed as it stands.
  pub record IsPrintable (i : Iface) : Type 0 where
    pub state : IsLoaded i.state
    pub legible : IsLegible i.flags i.opstat i.lnkmod
    pub alias : Owns (λ _. Unit) i.alias
    pub kind : Owns (λ _. Unit) i.kind

  module _ (S : Stroll) (Y : Ynl) (notif : Event → M (Unit {0})) where
    -- Once it is in sync.
    pub iface_print-synced :
        (p : Ptr) (w v : World) (i : Iface)
        → sync S Y notif p w ≡ done tt v
        → v.mem p ≡ some i
        → IsPrintable i
        → (lines : List Line) × (iface_print ffs flag_text S Y notif p w ≡ done lines v)
    unfolding iface_print get_iface written
    iface_print-synced p w v i ran at h =
        let l : IsLegible i.flags i.opstat i.lnkmod = h.legible in
        (
          iface_lines i l.flags_line l.operstate_line l.mode_line (shown i.alias) (shown i.kind),
          rw ran (
              rw at (
                rw (l.flags_text, l.operstate_text, l.mode_text)
                  (rw
                    (maybe_empty_str-shown i.alias v h.alias, maybe_empty_str-shown i.kind v h.kind)
                    refl))),
        )

    pub iface_print-lines :
        (p : Ptr) (w : World) (i : Iface)
        → w.mem p ≡ some i
        → IsPrintable i
        → (lines : List Line) × (iface_print ffs flag_text S Y notif p w ≡ done lines w)
    iface_print-lines p w i at h =
        iface_print-synced p w w i (sync_state S Y notif p w i at i.state refl h.state) at h

    pub iface_print-failed :
        (p : Ptr) (w v : World) (e : ℕ)
        → sync S Y notif p w ≡ fail e v
        → iface_print ffs flag_text S Y notif p w ≡ fail e v
    unfolding iface_print
    iface_print-failed p w v e ran = rw ran refl
