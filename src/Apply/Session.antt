-- ===== src/Apply/Session.antt =====
-- A client's session: an interface is loaded, set in any way, and applied (lib/iface.c).
use nlif.Prelude.Bits.{bit_and_assoc}
use nlif.Prelude.{
  ◌<◌, ◌^◌, bit_and, bit_or, ℕ, ◌≡◌, refl, sym, ◌∙◌, ap, subst, ◌⊎◌, inl, inr, Bool, Option, some,
  List, [], ◌∷◌, ◌==◌, ◌||◌, arith,
}
use nlif.Errno.{ok}
use nlif.Link.{EtherAddr, Link}
use nlif.Link.Validate.{IsAlias}
use nlif.Ynl.{Ynl}
use nlif.Iface.Valid.{IsIface, Owns}
use nlif.World.{World, Run, M, done, fail, fault, pure, ◌>>◌, on_error}
use nlif.World.Returns.{
  Returns, Ends, Sets, Sets-refl, SameBut-trans, Ends-mono, Returns-Ends, Returns-mono,
}
use nlif.Gate.{Event}
use nlif.Settings.{set_group, set_mtu, set_alias, set_hwaddr, set_admstate}
use nlif.Settings.Names.{wanted, set_alias-Sets}
use nlif.Stroll.{Ptr, Stroll}
use nlif.Stroll.Laws.{IsLawful}
use nlif.Iface.{
  Iface, iff_up, complement, dirty, validate_hwaddr, Field, group_fld, name_fld, alias_fld, mtu_fld,
  hwadr_fld, field_bit,
}
use nlif.Settings.State.{Changes, set_group-Sets, set_mtu-Sets, set_hwaddr-Sets, set_admstate-Sets}
use nlif.Apply.{is_dirty}
use nlif.Apply.Request.{Coherent}

-- A well-formed interface that agrees with the link `l` but where it is dirty.
abbrev pub Agrees : Stroll → Link → Iface → Type 0
Agrees S l j = IsIface j × Coherent S j l

module _ (S : Stroll) (laws : IsLawful S) (i j : Iface) (l : Link) where
  tests :
      (fld : Field)
      → j.dirty_fields ≡ S.bmap_set i.dirty_fields (field_bit fld)
      → (f : Field) → is_dirty S f j ≡ (field_bit fld == field_bit f || is_dirty S f i)
  unfolding is_dirty
  tests fld e f = rw e (laws.bmap_test-set i.dirty_fields (field_bit fld) (field_bit f))

  pub Changes-Coherent : (fld : Field) → Changes S fld i j → Coherent S i l → Coherent S j l
  Changes-Coherent fld (inl e, fr) c = subst (λ x. Coherent S x l) (sym e) c
  Changes-Coherent group_fld (inr (st, e), fr) c = ground (
    arith,
    tests group_fld e group_fld,
    tests group_fld e name_fld,
    tests group_fld e alias_fld,
    tests group_fld e mtu_fld,
    tests group_fld e hwadr_fld,
  )
  Changes-Coherent fld (inr (st, e), fr) c = ground (
    arith,
    tests fld e group_fld,
    tests fld e name_fld,
    tests fld e alias_fld,
    tests fld e mtu_fld,
    tests fld e hwadr_fld,
  )

  -- The flags that are not dirty still agree once IFF_UP is dirty too.
  up_flags-agree :
      (d : ℕ)
      → (d ≡ 0) ⊎ (d ≡ iff_up)
      → bit_and i.flags (complement d) ≡ bit_and l.ifi_flags (complement d)
      → bit_and i.flags (complement iff_up) ≡ bit_and l.ifi_flags (complement iff_up)
  up_flags-agree d (inr e) h = rw e at h
  up_flags-agree d (inl e) h =
      sym (bit_and_assoc i.flags (complement 0) (complement iff_up))
      ∙ ap (λ x. bit_and x (complement iff_up)) (rw e at h)
      ∙ bit_and_assoc l.ifi_flags (complement 0) (complement iff_up)

  or_up : (d : ℕ) → (d ≡ 0) ⊎ (d ≡ iff_up) → bit_or d iff_up ≡ iff_up
  or_up d (inl e) = rw e
  or_up d (inr e) = rw e

  pub admstate-Coherent :
      bit_and j.flags (complement iff_up) ≡ bit_and i.flags (complement iff_up)
      → j.flags < 2 ^ 32
      → (j ≡ i) ⊎ ((j.state ≡ dirty) × (j.dirty_flags ≡ bit_or i.dirty_flags iff_up))
      → record j { state = i.state; flags = i.flags; dirty_flags = i.dirty_flags } ≡ i
      → Coherent S i l
      → Coherent S j l
  unfolding is_dirty
  admstate-Coherent keep lt (inl e) fr c = subst (λ x. Coherent S x l) (sym e) c
  admstate-Coherent keep lt (inr (st, e)) fr c =
      let up : j.dirty_flags ≡ iff_up = e ∙ or_up i.dirty_flags c.dirty_flags in
      let agree : bit_and j.flags (complement iff_up) ≡ bit_and l.ifi_flags (complement iff_up) =
        keep ∙ up_flags-agree i.dirty_flags c.dirty_flags c.flags in
      ground arith

-- A call of one of the setters. `nlif_iface_set_name` has a precondition of its own.
pub data Setting : Type 0 where
  group mtu : ℕ → Setting
  alias : Option (List ℕ) → Setting
  hwaddr : EtherAddr → Setting
  admstate : Bool → Setting

abbrev pub IsSetting : Setting → Type 0
IsSetting (group n) = Unit
IsSetting (mtu n) = Unit
IsSetting (alias a) = Owns IsAlias (wanted a)
IsSetting (hwaddr a) = validate_hwaddr a ≡ ok tt
IsSetting (admstate up) = Unit

module _ (S : Stroll) (Y : Ynl) (notif : Event → M (Unit {0})) (p : Ptr) where
  unfoldable pub set : Setting → M (Unit {0})
  set (group n) = set_group S Y notif p n
  set (mtu n) = set_mtu S Y notif p n
  set (alias a) = set_alias S Y notif p a
  set (hwaddr a) = set_hwaddr S Y notif p a
  set (admstate up) = set_admstate S Y notif p up

  module _ (laws : IsLawful S) (w : World) (i : Iface) (l : Link) (at : w.mem p ≡ some i) where
    -- Any setter
    pub set-Agrees :
        (s : Setting)
        → IsSetting s
        → Agrees S l i
        → Ends (λ _. Sets p w (Agrees S l)) (λ e u. u ≡ w) (set s w)
    unfolding set
    set-Agrees (group n) h (v, c) =
        Returns-Ends _ _ _ (set_group S Y notif p n w)
          (λ _ u (j, here, (good, _, ch), same).
            (j, here, (good, Changes-Coherent S laws i j l group_fld ch c), same))
          (set_group-Sets S Y notif p w i at v n)
    set-Agrees (mtu n) h (v, c) =
        Ends-mono _ _ _ _ (set_mtu S Y notif p n w)
          (λ _ u (j, here, (good, _, ch), same).
            (j, here, (good, Changes-Coherent S laws i j l mtu_fld ch c), same))
          (λ e u q. q.1) (set_mtu-Sets S Y notif p w i at v n)
    set-Agrees (alias a) h (v, c) =
        Ends-mono _ _ _ _ (set_alias S Y notif p a w)
          (λ _ u (j, here, (good, _, ch), same).
            (j, here, (good, Changes-Coherent S laws i j l alias_fld ch c), same))
          (λ e u q. q.1) (set_alias-Sets S Y notif p w i at v a h)
    set-Agrees (hwaddr a) h (v, c) =
        Returns-Ends _ _ _ (set_hwaddr S Y notif p a w)
          (λ _ u (j, here, (good, _, ch), same).
            (j, here, (good, Changes-Coherent S laws i j l hwadr_fld ch c), same))
          (set_hwaddr-Sets S Y notif p w i at v a h)
    set-Agrees (admstate up) h (v, c) =
        Returns-Ends _ _ _ (set_admstate S Y notif p up w)
          (λ _ u (j, here, (good, _, keep, lt, d, fr), same).
            (j, here, (good, admstate-Coherent S laws i j l keep lt d fr c), same))
          (set_admstate-Sets S Y notif p w i at v up c.width)

abbrev pub AreSettings : List Setting → Type 0
AreSettings [] = Unit
AreSettings (s ∷ rest) = IsSetting s × AreSettings rest

module _ (S : Stroll) (Y : Ynl) (notif : Event → M (Unit {0})) (p : Ptr) where
  -- Settings made one after the other by a client that goes on after a refused one.
  unfoldable pub set_all : List Setting → M (Unit {0})
  unfolding set
  set_all [] = pure tt
  set_all (s ∷ rest) = on_error (set S Y notif p s) (λ e. pure tt) >> set_all rest

  -- One setting of a session, whether it is refused or not.
  pub set_one :
      (laws : IsLawful S) (l : Link) (s : Setting) (w : World) (i : Iface)
      → w.mem p ≡ some i
      → IsSetting s
      → Agrees S l i
      → (u : World) × (on_error (set S Y notif p s) (λ e. pure tt) w ≡ done tt u)
        × Sets p w (Agrees S l) u
  set_one laws l s w i at h a =
      go (set S Y notif p s w) refl (set-Agrees S Y notif p laws w i l at s h a)
    where
      go :
          (r : Run (Unit {0}))
          → set S Y notif p s w ≡ r
          → Ends (λ _. Sets p w (Agrees S l)) (λ e u. u ≡ w) r
          → (u : World) × (on_error (set S Y notif p s) (λ e. pure tt) w ≡ done tt u)
            × Sets p w (Agrees S l) u
      go (done _ u) e q = (u, rw e, q)
      go (fail c u) e q = (u, rw e, rw q (Sets-refl p w _ i at a))
      go fault e q = elim q [ ]

  -- For a lawful stroll and an interface that is well-formed and differs from a link at most where
  -- it is marked dirty: any settings, the client going on after one that is refused, keep this,
  -- touch nothing but the interface and make no call to the kernel.
  pub set_all-Agrees :
      (laws : IsLawful S) (l : Link) (settings : List Setting) (w : World) (i : Iface)
      → w.mem p ≡ some i
      → AreSettings settings
      → Agrees S l i
      → Returns (λ _. Sets p w (Agrees S l)) (set_all settings w)
  unfolding set_all
  set_all-Agrees laws l [] w i at h a = Sets-refl p w _ i at a
  set_all-Agrees laws l (s ∷ rest) w i at h a =
      let (u, e, (j, here, good, same)) = set_one laws l s w i at h.0 a in
      rw e (
        Returns-mono _ _ (set_all rest u)
          (λ _ v (k, there, fine, same'). (k, there, fine, SameBut-trans p w u v same same'))
          (set_all-Agrees laws l rest u j here h.1 good))
