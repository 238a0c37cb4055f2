-- ===== src/Daemon/Entries.antt =====
-- `nlifd_iface_reset_config_dstore`: the configuration of the interfaces as a list of requests.
use nlif.Prelude.{
  ℕ, ◌≡◌, refl, sym, subst, ap, ◌∙◌, inl, inr, true, Option, none, some, List, [], ◌∷◌,
  if◌then◌else◌, has, ==_refl, ◌==◌, Bool-cases, arith, codes,
}
use nlif.Stroll.{Ptr}
use nlif.Iface.{Iface, CStr, null, held, freed}
use nlif.Iface.Valid.{Owns}
use nlif.World.{
  Run, fault, World, Request, key, default_nodes, leaf, container, replace_config, free_tree, M,
  done, ◌>>=◌, gets, and_then, get_iface, read_str,
}
use nlif.Tables.{hndl_iface}
use nlif.Store.Entry.{Refers}
use nlif.Srplug.{SrError, sr_ok, unsupported, is_ok, next_ok, Srplug, ask}
use nlif.Daemon.{arphrd_ether, arphrd_loopback, kind_type, type_str}
use nlif.Daemon.Config.{
  alias_leaf, type_leaf, new_entry, new_entries, owned, free_top, replace_top, reset_config_dstore,
}
use nlif.Daemon.Publish.{ifaces_at, ifaces_at-cons, made}
use nlif.Daemon.Plan.{Plan, follow, followed, Follows, Follows-next, Follows-ask, Follows-pure}
use nlif.Daemon.Load.{Readable, AllReadable}

-- The type that an interface is given, if it has one.
abbrev pub ether_kind : CStr → Option (List ℕ)
ether_kind null = some (codes "iana-if-type:ethernetCsmacd")
ether_kind (held s) = kind_type s
ether_kind freed = none

pub type_of : ℕ → CStr → Option (List ℕ)
type_of type kind =
    if type == arphrd_ether
    then ether_kind kind
    else if type == arphrd_loopback
    then some (codes "iana-if-type:softwareLoopback")
    else none

abbrev pub description : CStr → List Request
description null = []
description (held s) = leaf (codes "description") s ∷ []
description freed = []

-- The entry of an interface; one without a type is not supported, and its alias is left out.
pub entry_plan : Iface → Plan
entry_plan i = elim (type_of i.type i.kind) [
  | none ↦ (key i.name ∷ default_nodes ∷ [], unsupported)
  | some type ↦ (key i.name ∷ default_nodes ∷ leaf (codes "type") type ∷ description i.alias, sr_ok)
]

pub entries_plan : List Iface → Plan
entries_plan [] = ([], sr_ok)
entries_plan (i ∷ is) = follow (entry_plan i) (entries_plan is)

module _ (P : Srplug) where
  module _ (w : World) where
    alias_leaf-Follows :
        (c : CStr) → Owns (λ _. Unit) c → Follows P w (description c, sr_ok) (alias_leaf P c)
    unfolding read_str
    alias_leaf-Follows null own = Follows-pure P w sr_ok
    alias_leaf-Follows (held s) own = Follows-ask P w (leaf (codes "description") s)
    alias_leaf-Follows freed own = elim own [ ]

    type_str-type_of :
        (type : ℕ) (kind : CStr)
        → Owns (λ _. Unit) kind
        → type_str type kind w ≡ done (type_of type kind) w
    unfolding type_str type_of read_str
    type_str-type_of type kind own = elim (Bool-cases (type == arphrd_ether)) [
      | inl ether ↦ rw ether (read kind own)
      | inr other ↦ rw other (elim (Bool-cases (type == arphrd_loopback)) [
        | inl loopback ↦ rw loopback refl
        | inr none_such ↦ rw none_such refl
      ])
    ]
      where
        read : (c : CStr) → Owns (λ _. Unit) c → nlif.Daemon.ether_type c w ≡ done (ether_kind c) w
        read null own = refl
        read (held s) own = refl
        read freed own = elim own [ ]

  -- What follows the key and the default nodes.
  rest_plan : Option (List ℕ) → CStr → Plan
  rest_plan type c = elim type [
    | none ↦ ([], unsupported)
    | some s ↦ (leaf (codes "type") s ∷ description c, sr_ok)
  ]

  entry_plan-follow :
      (i : Iface)
      → entry_plan i
        ≡ follow
            (key i.name ∷ [], sr_ok)
            (follow (default_nodes ∷ [], sr_ok) (rest_plan (type_of i.type i.kind) i.alias))
  unfolding entry_plan follow rest_plan is_ok
  entry_plan-follow i = go (type_of i.type i.kind)
    where
      go :
          (t : Option (List ℕ))
          → elim t [
            | none ↦ (key i.name ∷ default_nodes ∷ [], unsupported)
            | some type ↦
                (key i.name ∷ default_nodes ∷ leaf (codes "type") type ∷ description i.alias, sr_ok)
          ]
            ≡ follow
                (key i.name ∷ [], sr_ok)
                (follow (default_nodes ∷ [], sr_ok) (rest_plan t i.alias))
      go none = refl
      go (some t) = refl

  rest-Follows :
      (t : Option (List ℕ)) (c : CStr) (w : World)
      → Owns (λ _. Unit) c
      → Follows P w
          (rest_plan t c)
          (λ v. and_then (type_leaf P t v) (λ e. next_ok e (alias_leaf P c)))
  unfolding rest_plan follow is_ok
  rest-Follows none c w own = Follows-pure P w unsupported
  rest-Follows (some s) c w own =
      Follows-next P w (leaf (codes "type") s ∷ [], sr_ok) (description c, sr_ok)
        (type_leaf P (some s)) (alias_leaf P c) (Follows-ask P w (leaf (codes "type") s))
        (alias_leaf-Follows _ c own)

  new_entry-Follows :
      (i : Iface) (w : World) → Readable P w i → Follows P w (entry_plan i) (new_entry P i)
  unfolding new_entry
  new_entry-Follows i w (kind, alias) =
      subst (λ p. Follows P w p (new_entry P i)) (sym (entry_plan-follow i))
        (Follows-next P w (key i.name ∷ [], sr_ok) _ (ask P (key i.name)) _
          (Follows-ask P w (key i.name))
          (Follows-next P _ (default_nodes ∷ [], sr_ok) (rest_plan (type_of i.type i.kind) i.alias)
            (ask P default_nodes) _ (Follows-ask P _ default_nodes)
            (rw (type_str-type_of _ i.type i.kind kind)
              (rest-Follows (type_of i.type i.kind) i.alias _ alias))))

  new_entries-Follows :
      (hs : List Ptr) (w : World)
      → ((h : Ptr) → has h hs ≡ true → (q : Ptr) × (i : Iface) × Refers w h q i × Readable P w i)
      → Follows P w (entries_plan (ifaces_at w.hndls w.mem hs)) (new_entries P hs)
  unfolding new_entries hndl_iface get_iface has entries_plan ifaces_at
  new_entries-Follows [] w live = Follows-pure P w sr_ok
  new_entries-Follows (h ∷ hs) w live =
      let (q, i, r, own) = live h (ground (arith, ==_refl h)) in
      rw (ifaces_at-cons w h q i hs r) (
        rw r.0 (
          rw r.1 (
            Follows-next P w (entry_plan i) _ (new_entry P i) (new_entries P hs)
              (new_entry-Follows i w own)
              (new_entries-Follows hs _ (λ g e. live g (ground arith))))))

  -- How the replacement of the configuration ends, after other requests: the tree was taken, and is
  -- freed twice where it is refused.
  pub replaced : World → List Request → Run SrError
  replaced w past =
      if is_ok (P.on_request past replace_config)
      then done sr_ok (made P (sr_ok, replace_config ∷ past) w)
      else fault

  -- The entries are made on the container; what is left of them is freed if one fails.
  pub config_outcome : List Iface → World → Run SrError
  config_outcome is w =
      let c = followed P (container ∷ [], sr_ok) w.host.requests in
      let r = followed P (entries_plan is) c.1 in
      if is_ok c.0
      then (if is_ok r.0 then replaced w r.1 else done r.0 (made P (r.0, free_tree ∷ r.1) w))
      else done c.0 (made P c w)

  -- What comes after the container.
  finish : SrError → M SrError
  finish e = if is_ok e then replace_top P else free_top P owned e

  inner : M SrError
  inner = gets (λ w. w.store.ifaces) >>= λ hs. new_entries P hs >>= finish

  replace_top-replaced :
      (r : SrError × List Request) (w : World) → replace_top P (made P r w) ≡ replaced w r.1
  unfolding replace_top replaced free_top ask
  replace_top-replaced r w = elim (Bool-cases (is_ok (P.on_request r.1 replace_config))) [
    | inl fine ↦ rw fine refl
    | inr refused ↦ rw refused refl
  ]

  -- What is left to do once the entries are made.
  ended : World → SrError × List Request → Run SrError
  ended w r = if is_ok r.0 then replaced w r.1 else done r.0 (made P (r.0, free_tree ∷ r.1) w)

  finish-ended : (r : SrError × List Request) (w : World) → finish r.0 (made P r w) ≡ ended w r
  unfolding finish ended free_top ask
  finish-ended r w = elim (Bool-cases (is_ok r.0)) [
    | inl fine ↦ rw fine (replace_top-replaced r w)
    | inr refused ↦ rw refused refl
  ]

  entries-ended :
      (w : World)
      → AllReadable P w
      → inner w
        ≡ ended w
            (followed P (entries_plan (ifaces_at w.hndls w.mem w.store.ifaces)) w.host.requests)
  unfolding inner
  entries-ended w live =
      ap (λ r. and_then r finish) (new_entries-Follows w.store.ifaces w live) ∙ finish-ended _ w

  -- Whatever sysrepo answers, and for handles that lead to interfaces whose kind and alias do not
  -- dangle: `nlifd_iface_reset_config_dstore` asks for the container, whose refusal comes back, and
  -- then makes one list of requests in turn, up to the first that is refused: in the store's order,
  -- the key, the default nodes, the type and the description of each interface. An interface
  -- without a type ends the list with SR_ERR_UNSUPPORTED. Where the list ends early, what was built
  -- is freed and the error comes back; otherwise the configuration is to be replaced, and success
  -- comes back where this is granted, while where it is refused the function faults, since it frees
  -- the tree that the replacement has taken and freed. Nothing else changes.
  pub reset_config_dstore-followed :
      (w : World)
      → AllReadable P w
      → reset_config_dstore P w ≡ config_outcome (ifaces_at w.hndls w.mem w.store.ifaces) w
  unfolding reset_config_dstore config_outcome finish ended inner replaced
  reset_config_dstore-followed w live =
      let c = followed P (container ∷ [], sr_ok) w.host.requests in
      ap (λ r. and_then r (λ e. next_ok e inner)) (Follows-ask P w container)
      ∙ elim (Bool-cases (is_ok c.0)) [
        | inl fine ↦ rw fine (entries-ended (made P c w) (λ h e. live h e))
        | inr refused ↦ rw refused refl
      ]
