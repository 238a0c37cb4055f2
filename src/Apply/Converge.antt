-- ===== src/Apply/Converge.antt =====
-- A session that ends with `nlif_iface_apply`: the kernel's link becomes what the interface shows.
use nlif.Prelude.{ℕ, ◌≡◌, refl, sym, subst, ◌∙◌, ap, ◌⊎◌, inl, inr, false, some, List, ◌∷◌, arith}
use nlif.Errno.{ok}
use nlif.Link.{Link}
use nlif.Stroll.{Ptr, Stroll}
use nlif.Stroll.Laws.{IsLawful}
use nlif.Ynl.{SetReq, setlink, Ynl}
use nlif.Iface.{Iface, fill}
use nlif.Apply.Outcome.{State-cases}
use nlif.Iface.Valid.{IsLink, Owns-weaken}
use nlif.Link.Validate.{IsAlias}
use nlif.World.{World, Run, M, done, fail, fault, and_then, log_call, ◌>>=◌}
use nlif.World.Returns.{Returns, Sets, Returns-mono}
use nlif.Gate.{Event, modified, notify, islink_valid}
use nlif.Gate.Links.{fill-IsIface}
use nlif.Apply.{apply, settle}
use nlif.Apply.Request.{request_of, patch, patch-request, fill-Coherent}
use nlif.Apply.Session.{Setting, AreSettings, set_all}
use nlif.Apply.Wishes.{asked_all}
use nlif.Apply.Stage.{Stage, set_all-Stage}
use nlif.Apply.Outcome.{apply-clean, apply-accepted}

-- The interface reads as if filled from the link that was wanted of `l`. Either 0 came back, with no
-- request made and the interface as at the start; or 1, with one request made for its index, and the
-- interface also reads as if filled from the link that this request makes of `l`.
abbrev pub Converged : Stroll → Link → Link → Iface → Ptr → World → ℕ → World → Type 0
Converged S l wanted start p w n v =
    (j : Iface) × (v.mem p ≡ some j)
    × (fill S wanted j ≡ j)
    × (((n ≡ 0) × (v.calls ≡ w.calls) × (j ≡ start))
        ⊎ ((n ≡ 1)
            × (req : SetReq) × (req.ifi_index ≡ l.ifi_index)
            × (v.calls ≡ setlink req ∷ w.calls)
            × (fill S (patch req l) j ≡ j)))

fill-settle : (S : Stroll) (i : Iface) (l : Link) → fill S l (settle S i) ≡ fill S l i
unfolding fill
fill-settle S i l = refl

settled : (S : Stroll) (i : Iface) (l : Link) (start : Iface) → i ≡ fill S l start → settle S i ≡ i
unfolding fill
settled S i l start e = subst (λ x. settle S x ≡ x) (sym e) refl

module _ (S : Stroll) (Y : Ynl) (notif : Event → M (Unit {0})) (p : Ptr)
    (accepts : (req : SetReq) → (w : World) → Y.on_setlink w.calls req ≡ ok tt) where
  pub notify-none : (ev : Event) (w : World) → w.gate.notif ≡ false → notify notif ev w ≡ done tt w
  unfolding notify
  notify-none ev w e = rw e

  apply-Converged :
      (laws : IsLawful S) (l wanted : Link) (i0 : Iface) (w : World) (i : Iface)
      → w.mem p ≡ some i
      → w.gate.notif ≡ false
      → Stage S Y notif p laws l (fill S l i0) wanted i
      → Returns (Converged S l wanted (fill S l i0) p w) (apply S Y notif p w)
  apply-Converged laws l wanted i0 w i at quiet ((v, c), (shows, kept)) =
      elim (State-cases i.state) [
        | inr other ↦
            let same : i ≡ fill S l i0 = elim kept [ inl st ↦ absurd (other st) | inr e ↦ e ] in
            rw (apply-clean S Y notif p w i at other)
              (i, at, shows ∙ settled S i l i0 same, inl (refl, refl, same))
        | inl is_dirty ↦
            rw
              (apply-accepted S Y notif p w i at is_dirty (Owns-weaken IsAlias i.alias v.alias)
                (accepts (request_of S i) w) (log_call (setlink (request_of S i)) w) i at
                (notify-none (modified p) (log_call (setlink (request_of S i)) w) quiet))
              (
                settle S i,
                ground arith,
                fill-settle S i wanted ∙ shows,
                inr (
                  refl,
                  request_of S i,
                  c.idx,
                  refl,
                  fill-settle S i _ ∙ patch-request S i l v c,
                ),
              )
      ]

  -- For a lawful stroll and a kernel that accepts each RTM_SETLINK: an interface is filled from a
  -- valid link, then any settings (group, MTU, alias, hardware address, administrative state) are
  -- made, the client going on after one that is refused, then `nlif_iface_apply` is called with no
  -- subscriber on the gate. The interface then reads as if it were filled from the link changed in
  -- turn as each setting asks, but for an MTU out of the range of the link and an alias that is its
  -- name. Either 0 comes back, with no request made and the interface as it was filled first; or 1,
  -- with one request made, for the index of the first link, and the interface also reads as if it
  -- were filled from the link that this request makes of the first.
  pub set_all-apply-Converged :
      IsLawful S
      → (l : Link) (settings : List Setting) (w : World) (i : Iface) → IsLink l
      → islink_valid l ≡ ok tt
      → AreSettings settings
      → w.mem p ≡ some (fill S l i)
      → w.gate.notif ≡ false
      → Returns
          (Converged S l (asked_all settings l) (fill S l i) p w)
          ((set_all S Y notif p settings >>= λ _. apply S Y notif p) w)
  unfolding fill
  set_all-apply-Converged laws l settings w i is_link valid are at quiet =
      go (set_all S Y notif p settings w) (
        set_all-Stage S Y notif p laws l (fill S l i) settings l w (fill S l i) at are (
          (fill-IsIface S laws l i is_link valid, fill-Coherent S laws l i is_link.flags),
          (refl, inr refl),
        ))
    where
      go :
          (r : Run (Unit {0}))
          → Returns (λ _. Sets p w (Stage S Y notif p laws l (fill S l i) (asked_all settings l))) r
          → Returns
              (Converged S l (asked_all settings l) (fill S l i) p w)
              (and_then r (λ _. apply S Y notif p))
      go (done _ u) (j, here, good, same) =
          Returns-mono _ _ (apply S Y notif p u) (λ n v. from_start n v same.calls)
            (apply-Converged laws l (asked_all settings l) i u j here (rw same.gate quiet) good)
        where
          from_start :
              (n : ℕ) (v : World)
              → u.calls ≡ w.calls
              → Converged S l (asked_all settings l) (fill S l i) p u n v
              → Converged S l (asked_all settings l) (fill S l i) p w n v
          from_start n v e (k, m, f, inl (z, c, st)) = (k, m, f, inl (z, c ∙ e, st))
          from_start n v e (k, m, f, inr (o, req, x, c, g)) =
              (k, m, f, inr (o, req, x, c ∙ ap (◌∷◌ (setlink req)) e, g))
      go (fail c u) h = elim h [ ]
      go fault h = elim h [ ]
