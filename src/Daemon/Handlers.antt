-- ===== src/Daemon/Handlers.antt =====
-- The handlers of changed leaves on a store that is the gate's subscriber.
use mathlib.Core.Path.{fun_ext}
use nlif.Prelude.{
  ℕ, suc, ◌≤◌, ◌≡◌, refl, sym, subst, ap, ◌∙◌, inl, inr, Bool, true, false, Option, none, some,
  List, [], ◌∷◌, ==_refl, arith, if◌then◌else◌,
}
use nlif.Errno.{ok, Result-cases}
use nlif.Link.{Link, validate_name}
use nlif.Link.Validate.{IsName}
use nlif.Stroll.{Ptr, Stroll}
use nlif.Stroll.Laws.{IsLawful}
use nlif.Ynl.{getlink, Ynl}
use nlif.Iface.{Iface, State, invalid, clean, dirty, stat_nr, clone, fill}
use nlif.Iface.Valid.{Owns}
use nlif.World.{
  World, Run, M, done, fail, fault, or_else, pure, update, write_iface, get_iface, put_iface,
}
use nlif.World.Returns.{Ends, Ends-mono}
use nlif.Gate.{reload, notify}
use nlif.Gate.Requests.{index_req, Answers}
use nlif.Lifecycle.{sync, invalidate}
use nlif.Lifecycle.Reload.{finished, sync-loaded}
use nlif.Tables.{search_byname, find_byname}
use nlif.Store.Entry.{IsStore, Stands, aside-IsStore}
use nlif.Store.Names.{NameFound, search_byname-NameFound}
use nlif.Store.Arrive.{clone_attr-Owns}
use nlif.Store.Events.{on_event, on_iface_reload}
use nlif.Store.Rehash.{SameMap}
use nlif.Store.Follow.{on_iface_reload-Indexed}
use nlif.Srplug.{Node, free_path}
use nlif.Daemon.{iface_from_node}
use nlif.Daemon.Commit.{
  IsFit, IsSound, SameHandles, SameHandles-refl, write_iface-IsSound, aside-IsSound,
}

-- What a node leads to is an interface of the store.
abbrev pub NodeFound : World → Option Ptr → Type 0
NodeFound w none = Unit
NodeFound w (some q) = (h : Ptr) × (i : Iface) × Stands w h q i

module _ (S : Stroll) (w : World) (v : IsStore S w) where
  find_byname-NodeFound :
      (name : List ℕ) (n : ℕ)
      → validate_name name ≡ ok n
      → (r : Option Ptr) × (find_byname S name w ≡ done r w) × NodeFound w r
  unfolding find_byname
  find_byname-NodeFound name n valid = go (
      search_byname-NameFound w name (w.store.nameh (S.hash_str name))
        (λ h e. v.live h (v.in_nameh h _ e)))
    where
      go :
          ((r : Option Ptr) × (search_byname name (w.store.nameh (S.hash_str name)) w ≡ done r w)
            × NameFound w name (w.store.nameh (S.hash_str name)) r)
          → (r : Option Ptr) × (find_byname S name w ≡ done r w) × NodeFound w r
      go (none, run, _) = (none, ground arith, tt)
      go (some q, run, (h, i, e, at, _)) =
          (some q, ground arith, (h, i, (v.in_nameh h _ e, at.0, at.1)))

-- `nlifd_iface_from_node` frees its path on every branch.
pub iface_from_node-NodeFound :
    (S : Stroll) (w : World) (node : Node)
    → IsStore S w
    → (r : Option Ptr) × (iface_from_node S node w ≡ done r w) × NodeFound w r
unfolding iface_from_node free_path
iface_from_node-NodeFound S w node v = go node.key refl
  where
    with_path : World
    with_path = record w { host = record w.host { paths = suc w.host.paths } }

    same_found : (r : Option Ptr) → NodeFound with_path r → NodeFound w r
    same_found none h = tt
    same_found (some q) h = h

    go :
        (key : Option (List ℕ))
        → node.key ≡ key
        → (r : Option Ptr) × (iface_from_node S node w ≡ done r w) × NodeFound w r
    go none e = (none, rw e refl, tt)
    go (some name) e = elim (Result-cases (validate_name name)) [
      | inr (c, bad) ↦ (none, rw e (rw bad refl), tt)
      | inl (n, fine) ↦
          let (r, run, found) =
            find_byname-NodeFound S with_path
              (aside-IsStore S w v w.gate w.store.subs w.calls with_path.host) name n fine in
          (r, rw e (rw fine (rw run refl)), same_found r found)
    ]

-- A link with a name that fits and an operational state that the kernel has.
abbrev pub IsPublicLink : Link → Type 0
IsPublicLink lnk = IsName lnk.ifname × (lnk.operstate ≤ 6)

-- The kernel tells of any link that it is asked for by index: a valid one of this index.
abbrev pub Tells : Ynl → Type 0
Tells Y =
    (w : World) (index : ℕ)
    → (lnk : Link) × Answers Y w (index_req index) lnk × (lnk.ifi_index ≡ index) × IsPublicLink lnk

filled-IsFit : (S : Stroll) (lnk : Link) (i : Iface) → IsPublicLink lnk → IsFit (fill S lnk i)
unfolding fill
filled-IsFit S lnk i public = (go lnk.ifalias, clone_attr-Owns lnk.linkinfo, public)
  where
    go : (s : List ℕ) → Owns (λ _. Unit) (clone s)
    go [] = tt
    go (c ∷ s) = tt

-- Two writes in a row are the second.
write_twice :
    (mem : Ptr → Option Iface) (q : Ptr) (i j : Option Iface)
    → update (update mem q i) q j ≡ update mem q j
write_twice mem q i j = fun_ext (λ p. ground arith)

module _ (S : Stroll) (laws : IsLawful S) (Y : Ynl) (tells : Tells Y)
    (on_sub : Ptr → ℕ → Ptr → M (Unit {0})) (gate : Ptr) (w : World) (sound : IsSound S w)
    (h q : Ptr) (i : Iface) (st : Stands w h q i) where
  abbrev pub Steadied : World → Type 0
  Steadied u = IsSound S u × SameHandles w u

  -- The interface can be read afterwards.
  abbrev pub Synced : World → Type 0
  Synced u = Steadied u × (j : Iface) × (u.mem q ≡ some j) × (j.idx ≡ i.idx)

  rewritten :
      (u : World) (j k : Iface)
      → IsSound S u
      → SameHandles w u
      → u.mem q ≡ some j
      → k.idx ≡ j.idx
      → IsFit k
      → Steadied (write_iface q (some k) u)
  rewritten u j k good same at eq both = (write_iface-IsSound S u q j k good at eq both, same)

  module _ (lnk : Link) (same_idx : lnk.ifi_index ≡ i.idx) (public : IsPublicLink lnk) where
    abbrev refilled : Iface
    refilled = fill S lnk (finished i)

    -- The memory in which the reload is told to the store.
    abbrev reloaded : World
    reloaded = record w {
      mem = update (update w.mem q (some (finished i))) q (some refilled);
      calls = getlink (index_req i.idx) ∷ w.calls;
    }

    at_reloaded : reloaded.mem q ≡ some refilled
    at_reloaded = ground (arith, ==_refl q)

    reloaded-IsSound : IsSound S reloaded
    unfolding fill
    reloaded-IsSound =
        subst (λ m. IsSound S (record w { mem = m; calls = getlink (index_req i.idx) ∷ w.calls }))
          (sym (write_twice w.mem q (some (finished i)) (some refilled)))
          (
            aside-IsStore S once good.0 w.gate w.store.subs (getlink (index_req i.idx) ∷ w.calls)
                w.host,
            good.1,
          )
      where
        once : World
        once = write_iface q (some refilled) w

        good : IsSound S once
        good =
            write_iface-IsSound S w q i refilled sound st.2 same_idx
              (filled-IsFit S lnk (finished i) public)

    abbrev Heard : World → Type 0
    Heard u = IsStore S u × SameMap reloaded u

    heard :
        Ends (λ _ u. Heard u) (λ _ u. Heard u) (notify (on_event S on_sub gate) (reload q) reloaded)
    unfolding notify on_event
    heard = go w.gate.notif
      where
        go :
            (on : Bool)
            → Ends
                (λ _ u. Heard u)
                (λ _ u. Heard u)
                ((if on then on_iface_reload S q else pure tt) reloaded)
        go true =
            Ends-mono _ _ _ _ (on_iface_reload S q reloaded) (λ _ u (good, same, _). (good, same))
              (λ e u (_, good, same). (good, same))
              (on_iface_reload-Indexed S laws reloaded reloaded-IsSound.0 h q refilled
                (st.0, st.1, at_reloaded) (filled-IsFit S lnk (finished i) public).0)
        go false = (reloaded-IsSound.0, (refl, refl, refl, (refl, refl, refl)))

    told-Synced :
        (r : Run (Unit {0}))
        → Ends (λ _ u. Heard u) (λ _ u. Heard u) r
        → Ends
            (λ _ u. Synced u)
            (λ _ u. Steadied u)
            (or_else r (invalidate S Y (on_event S on_sub gate) q))
    unfolding get_iface put_iface fill
    told-Synced (done _ u) (good, same) = (
      (aside-IsSound S reloaded u reloaded-IsSound good same, (same.0, same.1, same.3)),
      refilled,
      ap (λ f. f q) same.2 ∙ at_reloaded,
      same_idx,
    )
    told-Synced (fail e u) (good, same) =
        let at : u.mem q ≡ some refilled = ap (λ f. f q) same.2 ∙ at_reloaded in
        rw at (
          rewritten u refilled (record refilled { state = invalid })
            (aside-IsSound S reloaded u reloaded-IsSound good same) (same.0, same.1, same.3) at refl
            (filled-IsFit S lnk (finished i) public))
    told-Synced fault h = elim h [ ]

  pub sync-Synced :
      (s : State)
      → i.state ≡ s
      → Ends (λ _ u. Synced u) (λ _ u. Steadied u) (sync S Y (on_event S on_sub gate) q w)
  unfolding sync get_iface
  sync-Synced clean e = rw st.2 (rw e ((sound, SameHandles-refl w), i, st.2, refl))
  sync-Synced dirty e = rw st.2 (rw e ((sound, SameHandles-refl w), i, st.2, refl))
  sync-Synced stat_nr e = rw st.2 (rw e (sound, SameHandles-refl w))
  sync-Synced invalid e =
      let (lnk, ans, same_idx, public) = tells w i.idx in
      let own : IsFit i = sound.1 h q i st in
      rw (sync-loaded S Y (on_event S on_sub gate) q w i st.2 e own.0 own.1 lnk ans) (
        told-Synced lnk same_idx public
          (notify (on_event S on_sub gate) (reload q) (reloaded lnk same_idx public))
          (heard lnk same_idx public))
