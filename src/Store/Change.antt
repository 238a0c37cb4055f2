-- ===== src/Store/Change.antt =====
-- `nlif_store_on_iface_change`: a notification of the kernel reaches the interface and then the
-- store's subscribers.
use nlif.Prelude.{
  ℕ, ◌≡◌, ◌↔◌, refl, sym, subst, ap, ◌∙◌, ◌⊎◌, inl, inr, Bool-cases, Option, none, some, has, ◌==◌,
  if◌then◌else◌, arith,
}
use nlif.Errno.{ok}
use nlif.Link.{Link, validate_index}
use nlif.Stroll.{Ptr, Stroll}
use nlif.Iface.{Iface, refresh_state}
use nlif.Iface.Valid.{Owns}
use nlif.Iface.Refresh.{InSync, refresh_state-InSync}
use nlif.World.{World, Run, M, done, write_iface, get_iface, put_iface}
use nlif.Obsrv.{notify}
use nlif.Tables.{find_byindex}
use nlif.Store.Entry.{IsStore, Stands, Registered, Refers-eq, some_eq}
use nlif.Store.Lookup.{find_byindex-Registered}
use nlif.Store.Events.{iface_change_evt, on_iface_change}

module _ (S : Stroll) (w : World) (v : IsStore S w) (q : Ptr) (i j : Iface) (at : w.mem q ≡ some i)
    (same_idx : j.idx ≡ i.idx) where
  abbrev after : World
  after = write_iface q (some j) w

  -- What stands in the store afterwards stood there before with the same index.
  Stands-after :
      (h r : Ptr) (k : Iface)
      → Stands after h r k
      → (k' : Iface) × Stands w h r k' × (k.idx ≡ k'.idx)
  Stands-after h r k (listed, a, b) = elim (Bool-cases (q == r)) [
    | inl here ↦
        let meet : q ≡ r = ground arith in
        let is : j ≡ k = some_eq j k (ground arith) in
        (i, (listed, a, subst (λ x. w.mem x ≡ some i) meet at), ap (λ x. x.idx) (sym is) ∙ same_idx)
    | inr other ↦ (k, (listed, a, ground arith), refl)
  ]

  pub write_iface-IsStore : Owns (λ _. Unit) j.alias → IsStore S after
  write_iface-IsStore own = record {
    distinct = v.distinct;
    live = λ h e.
        let (r, k, (a, b), own') = v.live h e in
        elim (Bool-cases (q == r)) [
          | inl here ↦ (r, j, (a, ground arith), own)
          | inr other ↦ (r, k, (a, ground arith), own')
        ];
    fresh = v.fresh;
    below = λ h r k st. let (k', old, _) = Stands-after h r k st in v.below h r k' old;
    in_nameh = v.in_nameh;
    in_aliash = v.in_aliash;
    in_indxh = v.in_indxh;
    hashed = λ h r k b st.
        let (k', old, same) = Stands-after h r k st in
        subst (λ n. has h (w.store.indxh b) ≡ (S.hash n == b)) (sym same) (v.hashed h r k' b old);
    unique = λ h r h' r' k l st st' same.
        let (k', old, e) = Stands-after h r k st in
        let (l', old', e') = Stands-after h' r' l st' in
        v.unique h r h' r' k' l' old old' (sym e ∙ same ∙ e');
    count = v.count;
  }

no_some : {A : Type 0} {a : A} → ¬ (none ≡ some a)
no_some e = cc

-- What becomes of a link's notification: no interface has its index, and nothing happens; or one has,
-- which is then in sync, and the subscribers hear of it if it changed.
abbrev pub Changed :
    Stroll → (Ptr → ℕ → Ptr → M (Unit {0})) → Link → World → Run (Unit {0}) → Type 0
Changed S on_sub link w r =
    (((q : Ptr) → ¬ Registered w link.ifi_index q) × (r ≡ done tt w))
    ⊎ ((q : Ptr) × (i : Iface) × Registered w link.ifi_index q
        × (w.mem q ≡ some i)
        × InSync (refresh_state i link).0 link
        × IsStore S (write_iface q (some (refresh_state i link).0) w)
        × (r
            ≡ (if (refresh_state i link).1
                  then notify on_sub w.store.subs iface_change_evt q
                  else done tt)
                (write_iface q (some (refresh_state i link).0) w)))

module _ (S : Stroll) (on_sub : Ptr → ℕ → Ptr → M (Unit {0})) (w : World) (v : IsStore S w)
    (link : Link) where
  refreshed_alias-Owns :
      (h q : Ptr) (i : Iface) → Stands w h q i → Owns (λ _. Unit) (refresh_state i link).0.alias
  refreshed_alias-Owns h q i st =
      let (q', i', at', own) = v.live h st.0 in
      let (_, same) = Refers-eq w h q' q i' i at' (st.1, st.2) in
      let kept : (refresh_state i link).0.alias ≡ i.alias =
        ap (λ x. x.alias) (refresh_state-InSync i link).2 in
      subst (λ c. Owns (λ _. Unit) c) (sym kept) (subst (λ x. Owns (λ _. Unit) x.alias) same own)

  step :
      (q : Ptr) (i : Iface)
      → w.mem q ≡ some i
      → find_byindex S link.ifi_index w ≡ done (some q) w
      → on_iface_change S on_sub link w
        ≡ (if (refresh_state i link).1
              then notify on_sub w.store.subs iface_change_evt q
              else done tt)
            (write_iface q (some (refresh_state i link).0) w)
  unfolding on_iface_change get_iface put_iface
  step q i at run = elim (Bool-cases (refresh_state i link).1) [
    | inl e ↦ rw run (rw at (rw e refl))
    | inr e ↦ rw run (rw at (rw e refl))
  ]

  -- On a well-formed store, for a link with a valid index: if no interface has the index,
  -- `nlif_store_on_iface_change` does nothing; otherwise the interface that has it is refreshed and
  -- then in sync with the link, the store stays well-formed, and its subscribers are notified
  -- exactly if the interface changed.
  pub on_iface_change-Changed :
      validate_index link.ifi_index ≡ ok tt
      → Changed S on_sub link w (on_iface_change S on_sub link w)
  unfolding on_iface_change get_iface put_iface
  on_iface_change-Changed valid = go (find_byindex-Registered S w v link.ifi_index valid)
    where
      go :
          ((r : Option Ptr) × (find_byindex S link.ifi_index w ≡ done r w)
            × ((q : Ptr) → (r ≡ some q) ↔ Registered w link.ifi_index q))
          → Changed S on_sub link w (on_iface_change S on_sub link w)
      go (none, run, means) = inl ((λ q g. no_some ((means q).1 g)), rw run refl)
      go (some q, run, means) =
          let (h, i, st, same) = (means q).0 refl in
          let facts = refresh_state-InSync i link in
          inr (
            q,
            i,
            (h, i, st, same),
            st.2,
            facts.0,
            write_iface-IsStore S w v q i (refresh_state i link).0 st.2 (ap (λ x. x.idx) facts.2)
                (refreshed_alias-Owns h q i st),
            step q i st.2 run,
          )
