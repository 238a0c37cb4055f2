-- ===== src/Lifecycle/Refresh.antt =====
-- `nlif_iface_sync` on an invalid interface: what a reload gives, and what a refused one leaves.
use nlif.Prelude.{ℕ, ◌≡◌, refl, ap, ◌∙◌, ◌⊎◌, inl, inr, false, some, ==_refl, arith}
use nlif.Errno.{err}
use nlif.Link.{Link}
use nlif.Stroll.{Ptr, Stroll}
use nlif.Stroll.Laws.{IsLawful}
use nlif.Ynl.{Ynl}
use nlif.Iface.{Iface, invalid, CStr, null, freed, fill}
use nlif.Iface.Valid.{IsLink, IsIface, Owns, Owns-cases}
use nlif.World.{World, M, done, fail, fault, get_iface, free_str, write_iface}
use nlif.World.Returns.{Returns}
use nlif.Gate.{Event, notify, ynl_err}
use nlif.Gate.Links.{fill-IsIface}
use nlif.Gate.Requests.{index_req, Answers}
use nlif.Lifecycle.{fini, reload_iface, sync}
use nlif.Lifecycle.Reload.{
  dangle, finished, free_str-freed, sync-reload, loading, sync-loaded, sync-failed,
}

free_str-null : (c : CStr) (w : World) → c ≡ null → free_str c w ≡ done null w
unfolding free_str
free_str-null c w e = rw e refl

module _ (S : Stroll) (Y : Ynl) (notif : Event → M (Unit {0})) (p : Ptr) where
  -- An invalid interface with a dangling string is not to be synchronised.
  pub Dangles : Iface → Type 0
  Dangles j = (j.alias ≡ freed) ⊎ ((j.alias ≡ null) × (j.kind ≡ freed))

  pub fini-fault : (u : World) (j : Iface) → u.mem p ≡ some j → Dangles j → fini p u ≡ fault
  unfolding fini get_iface Dangles
  fini-fault u j at (inl e) = rw at (rw (free_str-freed j.alias u e))
  fini-fault u j at (inr (n, e)) =
      rw at (rw (free_str-null j.alias u n) (rw (free_str-freed j.kind u e)))

  sync-fault :
      (u : World) (j : Iface)
      → u.mem p ≡ some j
      → j.state ≡ invalid
      → Dangles j
      → sync S Y notif p u ≡ fault
  unfolding reload_iface
  sync-fault u j at is_invalid d =
      sync-reload S Y notif p u j at is_invalid ∙ rw (fini-fault u j at d)

  pub finished-Dangles :
      (i : Iface)
      → Owns (λ _. Unit) i.alias
      → Owns (λ _. Unit) i.kind
      → ¬ ((i.alias ≡ null) × (i.kind ≡ null))
      → Dangles (record (finished i) { state = invalid })
  unfolding Dangles
  finished-Dangles i alias kind n = elim (Owns-cases (λ _. Unit) i.alias alias) [
    | inr (a, e, _) ↦ inl (ap dangle e)
    | inl e ↦ elim (Owns-cases (λ _. Unit) i.kind kind) [
      | inr (k, f, _) ↦ inr (ap dangle e, ap dangle f)
      | inl f ↦ absurd (n (e, f))
    ]
  ]

  module _ (w : World) (i : Iface) (at : w.mem p ≡ some i) (is_invalid : i.state ≡ invalid)
      (own_alias : Owns (λ _. Unit) i.alias) (own_kind : Owns (λ _. Unit) i.kind) where
    -- For an invalid interface that holds an alias or a kind, and a kernel that refuses to say what
    -- its link is: `nlif_iface_sync` fails, and calling it once more faults, since the reload that
    -- failed freed the strings and left them to be freed again.
    pub sync-sync :
        (code : ℕ)
        → Y.on_getlink w.calls (index_req i.idx) ≡ err code
        → ¬ ((i.alias ≡ null) × (i.kind ≡ null))
        → (e : ℕ) × (u : World) × (sync S Y notif p w ≡ fail e u) × (sync S Y notif p u ≡ fault)
    sync-sync code e n = (
      ynl_err Y code,
      write_iface p (some (record (finished i) { state = invalid }))
          (loading S Y notif p w i at is_invalid own_alias own_kind),
      sync-failed S Y notif p w i at is_invalid own_alias own_kind code e,
      sync-fault _ (record (finished i) { state = invalid }) (ground (arith, ==_refl p)) refl
          (finished-Dangles i own_alias own_kind n),
    )

    -- For a lawful stroll, an invalid interface whose strings are not dangling and a kernel that
    -- answers with a well-formed and valid link, with no subscriber on the gate: `nlif_iface_sync`
    -- returns with a well-formed interface, filled from the link.
    pub sync-IsIface :
        IsLawful S
        → (lnk : Link) → Answers Y w (index_req i.idx) lnk
        → IsLink lnk
        → w.gate.notif ≡ false
        → Returns
            (λ _ u. (j : Iface) × (u.mem p ≡ some j) × IsIface j × (j ≡ fill S lnk i))
            (sync S Y notif p w)
    unfolding notify fill
    sync-IsIface laws lnk ans is_link quiet =
        rw (sync-loaded S Y notif p w i at is_invalid own_alias own_kind lnk ans) (
          rw quiet (
            fill S lnk i,
            ground (arith, ==_refl p),
            fill-IsIface S laws lnk i is_link ans.1,
            refl,
          ))
