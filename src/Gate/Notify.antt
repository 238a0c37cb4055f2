-- ===== src/Gate/Notify.antt =====
-- `nlif_gate_notify_changes`: the loop over the notifications of the socket.
use nlif.Prelude.{
  ℕ, zero, suc, ◌<◌, length, ◌≡◌, ◌≢◌, ◌⊎◌, refl, sym, ◌∙◌, true, inl, inr, Bool-cases, List, [],
  ◌∷◌, ◌++◌, ap, arith, ◌==◌, str_eq_refl, eq_of_str_eq,
}
use mathlib.Core.List.{append-nil, append_assoc}
use nlif.Errno.{ok, err, Result-cases}
use nlif.Link.{Link}
use nlif.Ynl.{Call, Ntf, Ynl, ntf_check}
use nlif.World.{World, Run, M, done, fail, fault, and_then}
use nlif.World.Returns.{Ends}
use nlif.Gate.Queue.{queued, drain-none, drain-some}
use nlif.Gate.{
  Event, change, notify, islink_valid, rtm_newlink, notify_change, drain, notify_changes,
}

-- A notification that a link is there or changed, whose name is not its alias.
abbrev pub IsChange : Ntf → Type 0
IsChange ntf = (ntf.cmd ≡ 16) × (ntf.obj.ifname ≢ ntf.obj.ifalias)

-- What a subscriber that notes one thing of each link notes of these notifications.
pub data Told {A : Type 0} (key : Link → A) : List Ntf → List A → Type 0 where
  none_left : Told key [] []
  passed :
      {ntf : Ntf} {rest : List Ntf} {keys : List A}
      → ¬ IsChange ntf
      → Told key rest keys
      → Told key (ntf ∷ rest) keys
  noted :
      {ntf : Ntf} {rest : List Ntf} {keys : List A}
      → IsChange ntf
      → Told key rest keys
      → Told key (ntf ∷ rest) (key ntf.obj ∷ keys)

module _ {A : Type 0} (key : Link → A) (heard : World → List A) (notif : Event → M (Unit {0})) where
  -- The link was noted, and the gate left alone.
  abbrev Notes : Link → World → World → Type 0
  Notes l w u = (u.gate ≡ w.gate) × (heard u ≡ heard w ++ key l ∷ [])

  -- A subscriber that notes the link of a change, whether it then returns or fails, and leaves the
  -- gate alone; what it noted is neither in the gate's queue nor among the calls to the kernel.
  pub record IsListener : Type 0 where
    pub apart : (l : List Ntf) (calls : List Call) (w : World) → heard (queued l calls w) ≡ heard w
    pub listens :
        (l : Link) (w : World) → Ends (λ _. Notes l w) (λ _. Notes l w) (notif (change l) w)

  -- All was noted and nothing is queued; or the subscriber failed on a change, all up to it was
  -- noted, and what came behind it is still queued.
  abbrev pub Drained : World → List Ntf → Run (Unit {0}) → Type 0
  Drained w ntfs =
      Ends
        (λ _ u.
          (u.gate.queue ≡ []) × (keys : List A) × Told key ntfs keys × (heard u ≡ heard w ++ keys))
        (λ c u.
          (before : List Ntf) × (refused : Ntf) × (ntfs ≡ before ++ refused ∷ u.gate.queue)
          × IsChange refused
          × (keys : List A) × Told key before keys
          × (heard u ≡ heard w ++ keys ++ key refused.obj ∷ [])
          × (v : World) × (notif (change refused.obj) v ≡ fail c u))

  module _ (Y : Ynl) (listener : IsListener) where
    valid-distinct : (l : Link) → islink_valid l ≡ ok tt → l.ifname ≢ l.ifalias
    unfolding islink_valid
    valid-distinct l h e = ground (arith, str_eq_refl l.ifname)

    invalid-same : (l : Link) (c : ℕ) → islink_valid l ≡ err c → l.ifname ≡ l.ifalias
    unfolding islink_valid
    invalid-same l c h = ground (arith, eq_of_str_eq l.ifname l.ifalias)

    notify_on : (ev : Event) (w : World) → w.gate.notif ≡ true → notify notif ev w ≡ notif ev w
    unfolding notify
    notify_on ev w e = ground arith

    notify_change-passed :
        (ntf : Ntf) (w : World) → ¬ IsChange ntf → notify_change Y notif ntf w ≡ done tt w
    unfolding notify_change
    notify_change-passed ntf w other = elim (Bool-cases (ntf.cmd == rtm_newlink)) [
      | inr e ↦ rw e
      | inl e ↦ rw e (elim (Result-cases (islink_valid ntf.obj)) [
        | inr (c, bad) ↦ rw bad
        | inl (_, good) ↦ absurd (other (ground arith, valid-distinct ntf.obj good))
      ])
    ]

    notify_change-noted :
        (ntf : Ntf) (w : World)
        → IsChange ntf
        → w.gate.notif ≡ true
        → notify_change Y notif ntf w ≡ notif (change ntf.obj) w
    unfolding notify_change
    notify_change-noted ntf w (cmd, distinct) on = elim (Result-cases (islink_valid ntf.obj)) [
      | inr (c, bad) ↦ absurd (distinct (invalid-same ntf.obj c bad))
      | inl (_, good) ↦ rw (cmd, good) (notify_on (change ntf.obj) w on)
    ]

    IsChange-cases : (ntf : Ntf) → IsChange ntf ⊎ (¬ IsChange ntf)
    IsChange-cases ntf = elim (Bool-cases (ntf.cmd == 16)) [
      | inr e ↦ inr (λ (cmd, _). ground arith)
      | inl e ↦ elim (Result-cases (islink_valid ntf.obj)) [
        | inr (c, bad) ↦ inr (λ (_, distinct). distinct (invalid-same ntf.obj c bad))
        | inl (_, good) ↦ inl (ground arith, valid-distinct ntf.obj good)
      ]
    ]

    -- One more notification in front.
    further :
        (w v : World) (ntf : Ntf) (rest : List Ntf)
        → IsChange ntf
        → heard v ≡ heard w ++ key ntf.obj ∷ []
        → (r : Run (Unit {0})) → Drained v rest r
        → Drained w (ntf ∷ rest) r
    further w v ntf rest is h (done _ u) (empty, keys, told, e) = (
      empty,
      key ntf.obj ∷ keys,
      noted is told,
      e ∙ ap (λ l. l ++ keys) h ∙ append_assoc (heard w) (key ntf.obj ∷ []) keys,
    )
    further w v ntf rest is h (fail c u) (before, refused, split, it, keys, told, e, x, ran) = (
      ntf ∷ before,
      refused,
      ap (◌∷◌ ntf) split,
      it,
      key ntf.obj ∷ keys,
      noted is told,
      e
          ∙ ap (λ l. l ++ keys ++ key refused.obj ∷ []) h
          ∙ ap (λ l. l ++ key refused.obj ∷ []) (append_assoc (heard w) (key ntf.obj ∷ []) keys),
      x,
      ran,
    )
    further w v ntf rest is h fault q = elim q [ ]

    skipped :
        (w : World) (ntf : Ntf) (rest : List Ntf)
        → ¬ IsChange ntf
        → (r : Run (Unit {0})) → Drained w rest r
        → Drained w (ntf ∷ rest) r
    skipped w ntf rest other (done _ u) (empty, keys, told, e) = (empty, keys, passed other told, e)
    skipped w ntf rest other (fail c u) (before, refused, split, it, keys, told, e, x, ran) =
        (ntf ∷ before, refused, ap (◌∷◌ ntf) split, it, keys, passed other told, e, x, ran)
    skipped w ntf rest other fault q = elim q [ ]

    -- Counted from where as much was noted.
    rebase :
        (w v : World) (ntfs : List Ntf)
        → heard v ≡ heard w
        → (r : Run (Unit {0})) → Drained v ntfs r
        → Drained w ntfs r
    rebase w v ntfs h (done _ u) (empty, keys, told, e) =
        (empty, keys, told, e ∙ ap (λ l. l ++ keys) h)
    rebase w v ntfs h (fail c u) (before, refused, split, it, keys, told, e, x, ran) = (
      before,
      refused,
      split,
      it,
      keys,
      told,
      e ∙ ap (λ l. l ++ keys ++ key refused.obj ∷ []) h,
      x,
      ran,
    )
    rebase w v ntfs h fault q = elim q [ ]

    drain-Drained :
        (n : ℕ) (ntfs : List Ntf) (w : World)
        → length ntfs < n
        → w.gate.queue ≡ ntfs
        → w.gate.notif ≡ true
        → Drained w ntfs (drain Y notif n w)
    unfolding queued
    drain-Drained zero ntfs w fuel e on = absurd (omega (arith, fuel))
    drain-Drained (suc n) [] w fuel e on =
        rw (drain-none w Y notif n e) (e, [], none_left, sym (append-nil (heard w)))
    drain-Drained (suc n) (ntf ∷ rest) w fuel e on =
        rw (drain-some w Y notif n ntf rest e) (elim (IsChange-cases ntf) [
          | inr other ↦ rw (notify_change-passed ntf (queued rest w.calls w) other) (
              skipped w ntf rest other _ (
                rebase w (queued rest w.calls w) rest (listener.apart rest w.calls w) _
                  (drain-Drained n rest (queued rest w.calls w) (omega (arith, fuel)) refl on)))
          | inl is ↦ rw (notify_change-noted ntf (queued rest w.calls w) is on) (
              go is (λ u same on'. drain-Drained n rest u (omega (arith, fuel)) same on') _ refl
                (listener.listens ntf.obj (queued rest w.calls w)))
        ])
      where
        go :
            IsChange ntf
            → ((u : World)
                → u.gate.queue ≡ rest
                → u.gate.notif ≡ true
                → Drained u rest (drain Y notif n u))
            → (r : Run (Unit {0})) → notif (change ntf.obj) (queued rest w.calls w) ≡ r
            → Ends
                (λ _. Notes ntf.obj (queued rest w.calls w))
                (λ _. Notes ntf.obj (queued rest w.calls w))
                r
            → Drained w (ntf ∷ rest) (and_then r (λ _. drain Y notif n))
        go is ih (done _ u) _ (gate, h) =
            further w u ntf rest is
              (h ∙ ap (λ l. l ++ key ntf.obj ∷ []) (listener.apart rest w.calls w)) _
              (ih u (ap (λ g. g.queue) gate) (ap (λ g. g.notif) gate ∙ on))
        go is ih (fail c u) ran (gate, h) = (
          [],
          ntf,
          sym (ap (λ g. ntf ∷ g.queue) gate),
          is,
          [],
          none_left,
          h
              ∙ ap (λ l. l ++ key ntf.obj ∷ [])
                  (listener.apart rest w.calls w ∙ sym (append-nil (heard w))),
          queued rest w.calls w,
          ran,
        )
        go is ih fault ran q = elim q [ ]

    -- For a subscriber that is set, leaves the gate alone and, whether it then returns or fails,
    -- appends something of the link of each change to what it noted: `nlif_gate_notify_changes`
    -- ends without a fault. It returns with the queue empty and noted, in their order, the links of
    -- those notifications, queued before or new, that are RTM_NEWLINK and whose link has not its
    -- name as alias; or it fails as the subscriber did on such a notification, all up to this one
    -- being noted so, and the queue holding what is behind it.
    pub notify_changes-Drained :
        (w : World)
        → w.gate.notif ≡ true
        → Drained w (w.gate.queue ++ Y.on_ntf_check w.calls) (notify_changes Y notif w)
    unfolding notify_changes queued
    notify_changes-Drained w on =
        let found : List Ntf = w.gate.queue ++ Y.on_ntf_check w.calls in
        let v : World = queued found (ntf_check ∷ w.calls) w in
        rebase w v found (listener.apart found (ntf_check ∷ w.calls) w) _
          (drain-Drained (suc (length found)) found v (omega arith) refl on)
