-- ===== src/Daemon/Settle.antt =====
-- The loops of `nlifd_iface_process_changes` and `nlifd_iface_process_aborts` over the interfaces.
use nlif.Prelude.{
  ℕ, ◌≡◌, refl, sym, subst, ap, ◌∙◌, ◌⊎◌, inl, inr, true, some, List, [], ◌∷◌, has, ◌==◌, ==_refl,
  Bool-cases, arith, if◌then◌else◌,
}
use nlif.Stroll.{Ptr, Stroll}
use nlif.Stroll.Laws.{IsLawful}
use nlif.Ynl.{Ynl}
use nlif.World.{World, Run, M, done, fail, fault, either, and_then, pure}
use nlif.World.Returns.{Returns, Ends, Returns-mono}
use nlif.Tables.{hndl_iface}
use nlif.Store.Events.{on_event}
use nlif.Apply.{apply}
use nlif.Srplug.{SrError, sr_ok, is_ok, Srplug}
use nlif.Srplug.Laws.{Keep, OnlyHandlers}
use nlif.Daemon.{iface_error}
use nlif.Daemon.Config.{abort_each, apply_each, process_aborts, restore_hndlrs}
use nlif.Daemon.Commit.{
  IsSound, IsSettled, SameHandles, SameHandles-refl, SameHandles-trans, Applied, apply-Applied,
}

-- Nothing is left to be applied.
abbrev pub AllSettled : World → List Ptr → Type 0
AllSettled w hs = (h : Ptr) → has h hs ≡ true → IsSettled w h

-- What was settled is still so, the store being sound and its handles the same.
pub record Went (S : Stroll) (w u : World) : Type 0 where
  pub sound : IsSound S u
  pub handles : SameHandles w u
  pub kept : (h : Ptr) → IsSettled w h → IsSettled u h

pub Went-trans : (S : Stroll) (u v w : World) → Went S u v → Went S v w → Went S u w
Went-trans S u v w a b = record {
  sound = b.sound;
  handles = SameHandles-trans u v w a.handles b.handles;
  kept = λ h s. b.kept h (a.kept h s);
}

module _ (S : Stroll) (w u : World) (q : Ptr) (applied : Applied S q w u) where
  Applied-Went : Went S w u
  Applied-Went = record {
    sound = applied.sound;
    handles = applied.handles;
    kept = λ g (p, i, (a, b), settled). elim (Bool-cases (q == p)) [
      | inl same ↦
          let (j, at, settled') = applied.here in
          (p, j, (ap (λ f. f g) applied.handles.1 ∙ a, ground arith), settled')
      | inr other ↦ (
        p,
        i,
        (ap (λ f. f g) applied.handles.1 ∙ a, applied.others p (ground arith) ∙ b),
        settled,
      )
    ];
  }

  Applied-IsSettled : (h : Ptr) → w.hndls h ≡ some q → IsSettled u h
  Applied-IsSettled h a =
      let (j, at, settled) = applied.here in
      (q, j, (ap (λ f. f h) applied.handles.1 ∙ a, at), settled)

module _ (S : Stroll) (laws : IsLawful S) (P : Srplug) (Y : Ynl)
    (on_sub : Ptr → ℕ → Ptr → M (Unit {0})) (gate : Ptr) where
  -- All handles of the list are the store's.
  abbrev pub Inside : World → List Ptr → Type 0
  Inside w hs = (h : Ptr) → has h hs ≡ true → has h w.store.ifaces ≡ true

  abbrev pub Aborted : List Ptr → World → World → Type 0
  Aborted hs w u = Went S w u × AllSettled u hs

  -- The body of a loop: an interface is applied, and the rest follows.
  stepped :
      (h : Ptr) (hs : List Ptr) (w u : World) (q : Ptr)
      → Inside w (h ∷ hs)
      → w.hndls h ≡ some q
      → Applied S q w u
      → Went S w u × IsSettled u h × Inside u hs
  unfolding has
  stepped h hs w u q inside a applied = (
    Applied-Went S w u q applied,
    Applied-IsSettled S w u q applied h a,
    λ g e. ap (λ l. has g l) applied.handles.0 ∙ inside g (ground arith),
  )

  joined :
      (h : Ptr) (hs : List Ptr) (w u v : World)
      → Went S w u
      → IsSettled u h
      → Aborted hs u v
      → Aborted (h ∷ hs) w v
  unfolding has
  joined h hs w u v first settled (then_, all) = (
    Went-trans S w u v first then_,
    λ g e. elim (Bool-cases (h == g)) [
      | inl same ↦
          let meet : h ≡ g = ground arith in subst (λ x. IsSettled v x) meet (then_.kept h settled)
      | inr other ↦ all g (ground arith)
    ],
  )

  abort_each-Aborted :
      (hs : List Ptr) (ret : SrError) (w : World)
      → IsSound S w
      → Inside w hs
      → Returns (λ _ u. Aborted hs w u) (abort_each P S Y (on_event S on_sub gate) ret hs w)
  unfolding abort_each hndl_iface has
  abort_each-Aborted [] ret w sound inside =
      (record { sound = sound; handles = SameHandles-refl w; kept = λ h s. s }, λ h e. cc)
  abort_each-Aborted (h ∷ hs) ret w sound inside =
      let listed : has h w.store.ifaces ≡ true = inside h (ground (arith, ==_refl h)) in
      let (q, i, (a, b), _) = sound.0.live h listed in
      rw a (
        go q a (apply S Y (on_event S on_sub gate) q w)
          (apply-Applied S laws Y on_sub gate w sound h q i (listed, a, b))
          (λ r u. abort_each-Aborted hs r u))
    where
      go :
          (q : Ptr)
          → w.hndls h ≡ some q
          → (r : Run ℕ) → Ends (λ _ u. Applied S q w u) (λ _ u. Applied S q w u) r
          → ((ret' : SrError) (u : World)
              → IsSound S u
              → Inside u hs
              → Returns
                  (λ _ x. Aborted hs u x)
                  (abort_each P S Y (on_event S on_sub gate) ret' hs u))
          → Returns
              (λ _ u. Aborted (h ∷ hs) w u)
              (and_then
                (either r (λ n. pure ret) (λ e. pure (if is_ok ret then iface_error e else ret)))
                (λ ret'. abort_each P S Y (on_event S on_sub gate) ret' hs))
      go q a (done n u) applied ih =
          let (went, settled, inside') = stepped h hs w u q inside a applied in
          Returns-mono _ _ (abort_each P S Y (on_event S on_sub gate) ret hs u)
            (λ _ v. joined h hs w u v went settled) (ih ret u applied.sound inside')
      go q a (fail e u) applied ih =
          let (went, settled, inside') = stepped h hs w u q inside a applied in
          Returns-mono _ _
            (abort_each P S Y (on_event S on_sub gate) (if is_ok ret then iface_error e else ret) hs
              u)
            (λ _ v. joined h hs w u v went settled) (ih _ u applied.sound inside')
      go q a fault h ih = elim h [ ]

  -- What the handlers keep.
  abbrev pub Steady : World → World → Type 0
  Steady w u = IsSound S u × SameHandles w u

  abbrev pub Finished : World → World → Type 0
  Finished w u = Steady w u × AllSettled u u.store.ifaces

  pub Steady-Finished : (w u v : World) → Steady w u → Aborted u.store.ifaces u v → Finished w v
  Steady-Finished w u v (_, same) (went, all) = (
    (went.sound, SameHandles-trans w u v same went.handles),
    λ h e. all h (ap (λ l. has h l) (sym went.handles.0) ∙ e),
  )

  module _ (only : OnlyHandlers P)
      (restores : (w : World)
        → Keep (Steady w) (restore_hndlrs P S Y (on_event S on_sub gate))) where
    pub process_aborts-Finished :
        (w : World)
        → IsSound S w
        → Returns (λ _ u. Finished w u) (process_aborts P S Y (on_event S on_sub gate) w)
    unfolding process_aborts
    process_aborts-Finished w sound =
        go (P.process_child_changes (restore_hndlrs P S Y (on_event S on_sub gate)) w)
          (only (Steady w) _ w (restores w) (sound, SameHandles-refl w))
      where
        go :
            (r : Run SrError)
            → Returns (λ _ u. Steady w u) r
            → Returns
                (λ _ u. Finished w u)
                (and_then r
                  (λ ret v. abort_each P S Y (on_event S on_sub gate) ret v.store.ifaces v))
        go (done ret u) steady =
            Returns-mono _ _ (abort_each P S Y (on_event S on_sub gate) ret u.store.ifaces u)
              (λ _ v. Steady-Finished w u v steady)
              (abort_each-Aborted u.store.ifaces ret u steady.0 (λ h e. e))
        go (fail e u) h = elim h [ ]
        go fault h = elim h [ ]

    -- The loop ends with all that it walked settled, or with everything settled and an error.
    abbrev pub Walked : List Ptr → World → SrError → World → Type 0
    Walked hs w e u = ((e ≡ sr_ok) × Aborted hs w u) ⊎ Finished w u

    pub apply_each-Walked :
        (hs : List Ptr) (w : World)
        → IsSound S w
        → Inside w hs
        → Returns (λ e u. Walked hs w e u) (apply_each P S Y (on_event S on_sub gate) hs w)
    unfolding apply_each hndl_iface has
    apply_each-Walked [] w sound inside =
        inl (
          refl,
          (record { sound = sound; handles = SameHandles-refl w; kept = λ h s. s }, λ h e. cc),
        )
    apply_each-Walked (h ∷ hs) w sound inside =
        let listed : has h w.store.ifaces ≡ true = inside h (ground (arith, ==_refl h)) in
        let (q, i, (a, b), _) = sound.0.live h listed in
        rw a (
          go q a (apply S Y (on_event S on_sub gate) q w)
            (apply-Applied S laws Y on_sub gate w sound h q i (listed, a, b))
            (λ u. apply_each-Walked hs u))
      where
        finish :
            (u : World)
            → Went S w u
            → (e : ℕ) → (r : Run SrError) → Returns (λ _ v. Finished u v) r
            → Returns (λ e v. Walked (h ∷ hs) w e v) (and_then r (λ _. pure (iface_error e)))
        finish u went e (done _ v) ((sound', same), all) =
            inr ((sound', SameHandles-trans w u v went.handles same), all)
        finish u went e (fail _ v) h = elim h [ ]
        finish u went e fault h = elim h [ ]

        go :
            (q : Ptr)
            → w.hndls h ≡ some q
            → (r : Run ℕ) → Ends (λ _ u. Applied S q w u) (λ _ u. Applied S q w u) r
            → ((u : World)
                → IsSound S u
                → Inside u hs
                → Returns (λ e x. Walked hs u e x) (apply_each P S Y (on_event S on_sub gate) hs u))
            → Returns
                (λ e u. Walked (h ∷ hs) w e u)
                (either r
                  (λ n. apply_each P S Y (on_event S on_sub gate) hs)
                  (λ e v.
                    and_then
                      (process_aborts P S Y (on_event S on_sub gate) v)
                      (λ _. pure (iface_error e))))
        go q a (done n u) applied ih =
            let (went, settled, inside') = stepped h hs w u q inside a applied in
            Returns-mono _ _ (apply_each P S Y (on_event S on_sub gate) hs u)
              (λ e v x. elim x [
                | inl (fine, walked) ↦ inl (fine, joined h hs w u v went settled walked)
                | inr ((sound', same), all) ↦
                    inr ((sound', SameHandles-trans w u v went.handles same), all)
              ])
              (ih u applied.sound inside')
        go q a (fail e u) applied ih =
            finish u (stepped h hs w u q inside a applied).0 e
              (process_aborts P S Y (on_event S on_sub gate) u)
              (process_aborts-Finished u applied.sound)
        go q a fault h ih = elim h [ ]
