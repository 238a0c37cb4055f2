-- ===== src/Lifecycle/Reload.antt =====
-- `nlif_iface_reload`, by way of `nlif_iface_sync`.
use nlif.Prelude.{ℕ, ◌≡◌, refl, ◌∙◌, some, ==_refl, arith}
use nlif.Errno.{err}
use nlif.Link.{Link}
use nlif.Stroll.{Ptr, Stroll}
use nlif.Ynl.{Ynl}
use nlif.Iface.{Iface, invalid, CStr, null, held, freed, fill}
use nlif.Iface.Valid.{Owns}
use nlif.World.{World, M, done, fail, fault, get_iface, put_iface, free_str, write_iface, on_error}
use nlif.Gate.{Event, reload, notify, ynl_err}
use nlif.Gate.Requests.{
  index_req, Answers, asked, load_link_byidx-accepted, load_link_byidx-refused,
}
use nlif.Lifecycle.{fini, fill_iface, load_index, invalidate, reload_iface, sync}

-- A string that was freed and is still pointed to.
abbrev pub dangle : CStr → CStr
dangle null = null
dangle (held _) = freed
dangle freed = freed

abbrev pub finished : Iface → Iface
finished i = record i { alias = dangle i.alias; kind = dangle i.kind }

free_str-dangle : (c : CStr) (w : World) → Owns (λ _. Unit) c → free_str c w ≡ done (dangle c) w
unfolding free_str
free_str-dangle null w h = refl
free_str-dangle (held s) w h = refl
free_str-dangle freed w h = elim h [ ]

pub free_str-freed : (c : CStr) (w : World) → c ≡ freed → free_str c w ≡ fault
unfolding free_str
free_str-freed c w e = rw e refl

-- `nlif_iface_fini` where both strings are NULL or allocated.
pub fini-finished :
    (p : Ptr) (w : World) (i : Iface)
    → w.mem p ≡ some i
    → Owns (λ _. Unit) i.alias
    → Owns (λ _. Unit) i.kind
    → fini p w ≡ done tt (write_iface p (some (finished i)) w)
unfolding fini get_iface put_iface
fini-finished p w i at alias kind =
    rw at (rw (free_str-dangle i.alias w alias) (rw (free_str-dangle i.kind w kind)))

pub sync-reload :
    (S : Stroll) (Y : Ynl) (notif : Event → M (Unit {0})) (p : Ptr) (w : World) (i : Iface)
    → w.mem p ≡ some i
    → i.state ≡ invalid
    → sync S Y notif p w ≡ reload_iface S Y notif p w
unfolding sync get_iface
sync-reload S Y notif p w i at is_invalid = ground arith

module _ (S : Stroll) (Y : Ynl) (notif : Event → M (Unit {0})) (p : Ptr) (w : World) (i : Iface)
    (at : w.mem p ≡ some i) (is_invalid : i.state ≡ invalid) where
  abbrev pub before_load : World
  before_load = write_iface p (some (finished i)) w

  fini-done : Owns (λ _. Unit) i.alias → Owns (λ _. Unit) i.kind → fini p w ≡ done tt before_load
  fini-done = fini-finished p w i at

  module _ (own_alias : Owns (λ _. Unit) i.alias) (own_kind : Owns (λ _. Unit) i.kind) where
    -- The memory once the link was asked for.
    abbrev pub loading : World
    loading = asked Y before_load (index_req i.idx)

    pub sync-loaded :
        (lnk : Link)
        → Answers Y w (index_req i.idx) lnk
        → sync S Y notif p w
          ≡ on_error
              (notify notif (reload p))
              (invalidate S Y notif p)
              (write_iface p (some (fill S lnk (finished i))) loading)
    unfolding reload_iface load_index fill_iface get_iface put_iface
    sync-loaded lnk ans =
        sync-reload S Y notif p w i at is_invalid
        ∙ rw ((fini-done own_alias own_kind)) (
            rw (==_refl p)
              (rw (load_link_byidx-accepted Y before_load i.idx lnk ans) (rw (==_refl p) refl)))

    pub sync-failed :
        (code : ℕ)
        → Y.on_getlink w.calls (index_req i.idx) ≡ err code
        → sync S Y notif p w
          ≡ fail
              (ynl_err Y code)
              (write_iface p (some (record (finished i) { state = invalid })) loading)
    unfolding reload_iface load_index fill_iface get_iface put_iface
    sync-failed code e =
        sync-reload S Y notif p w i at is_invalid
        ∙ rw ((fini-done own_alias own_kind)) (
            rw (==_refl p)
              (rw (load_link_byidx-refused Y before_load i.idx code e) (rw (==_refl p) refl)))
