-- ===== src/Apply/Outcome.antt =====
-- What `nlif_iface_apply` does on each of its branches.
use nlif.Prelude.{ℕ, refl, ◌≡◌, ◌≢◌, ◌∙◌, ◌⊎◌, inl, inr, some, arith}
use nlif.Errno.{Result, ok, err}
use nlif.Stroll.{Ptr, Stroll}
use nlif.Ynl.{setlink, Ynl}
use nlif.Iface.{Iface, State, invalid, clean, dirty, stat_nr}
use nlif.Iface.Valid.{Owns}
use nlif.World.{World, Run, M, done, fail, fault, log_call, write_iface, get_iface, put_iface}
use nlif.Gate.{Event, modified, notify, ynl_err, send_setlink}
use nlif.Apply.{settle, apply, apply_dirty}
use nlif.Apply.Request.{request_of, dirty_alias-sent}

pub State-cases : (st : State) → (st ≡ dirty) ⊎ (st ≢ dirty)
State-cases invalid = inr (λ e. cc)
State-cases clean = inr (λ e. cc)
State-cases dirty = inl refl
State-cases stat_nr = inr (λ e. cc)

-- The memory once the request was sent.
abbrev pub sent : Stroll → World → Iface → World
sent S w i = log_call (setlink (request_of S i)) w

module _ (S : Stroll) (Y : Ynl) (notif : Event → M (Unit {0})) (p : Ptr) (w : World) (i : Iface)
    (at : w.mem p ≡ some i) where
  abbrev invalidated : Iface → Iface
  invalidated j = record j { state = invalid }

  send_rejected :
      (code : ℕ)
      → Y.on_setlink w.calls (request_of S i) ≡ err code
      → send_setlink Y (request_of S i) w ≡ fail (ynl_err Y code) (sent S w i)
  unfolding send_setlink
  send_rejected code e = rw e

  send_accepted :
      Y.on_setlink w.calls (request_of S i) ≡ ok tt
      → send_setlink Y (request_of S i) w ≡ done tt (sent S w i)
  unfolding send_setlink
  send_accepted e = rw e

  pub apply-clean : i.state ≢ dirty → apply S Y notif p w ≡ done 0 w
  unfolding apply get_iface
  apply-clean n = ground arith

  module _ (is_dirty : i.state ≡ dirty) (own : Owns (λ _. Unit) i.alias) where
    apply-apply_dirty : apply S Y notif p w ≡ apply_dirty S Y notif p i w
    unfolding apply get_iface
    apply-apply_dirty = ground arith

    pub apply-rejected :
        (code : ℕ)
        → Y.on_setlink w.calls (request_of S i) ≡ err code
        → apply S Y notif p w
          ≡ fail (ynl_err Y code) (write_iface p (some (invalidated i)) (sent S w i))
    unfolding apply_dirty get_iface put_iface
    apply-rejected code e =
        apply-apply_dirty ∙ rw (dirty_alias-sent S i w own) (rw (send_rejected code e) (rw at))

    module _ (e : Y.on_setlink w.calls (request_of S i) ≡ ok tt) (v : World) (j : Iface)
        (at_v : v.mem p ≡ some j) where
      pub apply-vetoed :
          (c : ℕ)
          → notify notif (modified p) (sent S w i) ≡ fail c v
          → apply S Y notif p w ≡ fail c (write_iface p (some (invalidated j)) v)
      unfolding apply_dirty get_iface put_iface
      apply-vetoed c n =
          apply-apply_dirty
          ∙ rw (dirty_alias-sent S i w own) (rw (send_accepted e) (rw n (rw at_v)))

      pub apply-accepted :
          notify notif (modified p) (sent S w i) ≡ done tt v
          → apply S Y notif p w ≡ done 1 (write_iface p (some (settle S j)) v)
      unfolding apply_dirty get_iface put_iface
      apply-accepted n =
          apply-apply_dirty
          ∙ rw (dirty_alias-sent S i w own) (rw (send_accepted e) (rw n (rw at_v)))

-- The outcome from the state, the kernel's answer and that of the notification.
abbrev pub expected :
    Stroll → Ynl → Ptr → World → Iface → State → Result (Unit {0}) → Run (Unit {0}) → Run ℕ
expected S Y p w i clean answer told = done 0 w
expected S Y p w i invalid answer told = done 0 w
expected S Y p w i stat_nr answer told = done 0 w
expected S Y p w i dirty (err code) told =
    fail (ynl_err Y code) (write_iface p (some (record i { state = invalid })) (sent S w i))
expected S Y p w i dirty (ok _) (done _ v) = done 1 (write_iface p (some (settle S i)) v)
expected S Y p w i dirty (ok _) (fail c v) =
    fail c (write_iface p (some (record i { state = invalid })) v)
expected S Y p w i dirty (ok _) fault = fault

-- The subscriber does not fault and leaves the interface alone.
abbrev pub Leaves : Ptr → Iface → Run (Unit {0}) → Type 0
Leaves p i (done _ v) = v.mem p ≡ some i
Leaves p i (fail _ v) = v.mem p ≡ some i
Leaves p i fault = ⊥

module _ (S : Stroll) (Y : Ynl) (notif : Event → M (Unit {0})) (p : Ptr) (w : World) (i : Iface)
    (at : w.mem p ≡ some i) (own : Owns (λ _. Unit) i.alias) where
  outcome_lem :
      (st : State) (answer : Result (Unit {0})) (told : Run (Unit {0}))
      → i.state ≡ st
      → Y.on_setlink w.calls (request_of S i) ≡ answer
      → notify notif (modified p) (sent S w i) ≡ told
      → Leaves p i told
      → apply S Y notif p w ≡ expected S Y p w i st answer told
  outcome_lem clean answer told e _ _ _ = apply-clean S Y notif p w i at (λ d. cc)
  outcome_lem invalid answer told e _ _ _ = apply-clean S Y notif p w i at (λ d. cc)
  outcome_lem stat_nr answer told e _ _ _ = apply-clean S Y notif p w i at (λ d. cc)
  outcome_lem dirty (err code) told e a _ _ = apply-rejected S Y notif p w i at e own code a
  outcome_lem dirty (ok _) (done _ v) e a n here =
      apply-accepted S Y notif p w i at e own a v i here n
  outcome_lem dirty (ok _) (fail c v) e a n here =
      apply-vetoed S Y notif p w i at e own a v i here c n
  outcome_lem dirty (ok _) fault e a n here = elim here [ ]

  pub apply_lem :
      Leaves p i (notify notif (modified p) (sent S w i))
      → apply S Y notif p w
        ≡ expected S Y p w i i.state
            (Y.on_setlink w.calls (request_of S i))
            (notify notif (modified p) (sent S w i))
  apply_lem here = outcome_lem i.state _ _ refl refl refl here
