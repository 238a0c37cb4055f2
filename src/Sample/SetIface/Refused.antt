-- ===== src/Sample/SetIface/Refused.antt =====
-- sample/set_iface.c where the kernel refuses the change, and then to tell of the link.
use nlif.Prelude.{ℕ, ◌≡◌, refl, Option, some, List, ◌∷◌, ==_refl, arith}
use nlif.Errno.{err}
use nlif.Stroll.{Ptr, Stroll}
use nlif.Ynl.{setlink, Ynl}
use nlif.Iface.{Iface, dirty, invalid, null}
use nlif.Iface.Valid.{Owns}
use nlif.World.{World, fault, write_iface}
use nlif.Gate.{ynl_err}
use nlif.Gate.Requests.{index_req}
use nlif.Lifecycle.{destroy}
use nlif.Lifecycle.Reload.{finished, loading, sync-failed}
use nlif.Lifecycle.Refresh.{fini-fault, finished-Dangles}
use nlif.Apply.Request.{request_of}
use nlif.Apply.Outcome.{sent, apply-rejected}
use nlif.Printing.Clean.{iface_print-failed}
use nlif.Sample.{no_subscriber}
use nlif.Sample.SetIface.{apply_tuned, finish}

module _ (ffs : ℕ → ℕ) (flag_text : ℕ → Option (List ℕ)) (S : Stroll) (Y : Ynl) (p : Ptr)
    (w : World) (i : Iface) (at : w.mem p ≡ some i) (is_dirty : i.state ≡ dirty)
    (own_alias : Owns (λ _. Unit) i.alias) (own_kind : Owns (λ _. Unit) i.kind) where
  abbrev bad : Iface
  bad = record i { state = invalid }

  abbrev after : World
  after = write_iface p (some bad) (sent S w i)

  here : after.mem p ≡ some bad
  here = ground (arith, ==_refl p)

  abbrev left : World
  left =
      write_iface p (some (record (finished bad) { state = invalid }))
        (loading S Y no_subscriber p after bad here refl own_alias own_kind)

  left_here : left.mem p ≡ some (record (finished bad) { state = invalid })
  left_here = ground (arith, ==_refl p)

  destroy-fault : ¬ ((i.alias ≡ null) × (i.kind ≡ null)) → destroy p left ≡ fault
  unfolding destroy
  destroy-fault n =
      rw
        (fini-fault S Y no_subscriber p left (record (finished bad) { state = invalid }) left_here
          (finished-Dangles S Y no_subscriber p bad own_alias own_kind n))
        refl

  -- For a dirty interface that has an alias or a kind, and a kernel that refuses the RTM_SETLINK of
  -- `nlif_iface_apply` and the RTM_GETLINK that follows it: what sample/set_iface.c does from
  -- `nlif_iface_apply` on faults, since `nlif_iface_print` reloads the interface, which frees its
  -- strings, and `nlif_iface_destroy` frees them again.
  pub apply_tuned-fault :
      (code code' : ℕ)
      → Y.on_setlink w.calls (request_of S i) ≡ err code
      → Y.on_getlink (setlink (request_of S i) ∷ w.calls) (index_req i.idx) ≡ err code'
      → ¬ ((i.alias ≡ null) × (i.kind ≡ null))
      → apply_tuned ffs flag_text S Y p w ≡ fault
  unfolding apply_tuned finish
  apply_tuned-fault code code' refused gone n =
      rw (apply-rejected S Y no_subscriber p w i at is_dirty own_alias code refused) (
        rw
          (iface_print-failed ffs flag_text S Y no_subscriber p after left (ynl_err Y code')
            (sync-failed S Y no_subscriber p after bad here refl own_alias own_kind code' gone))
          (rw (destroy-fault n) refl))
