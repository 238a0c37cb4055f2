-- ===== src/Daemon/Load.antt =====
-- `nlifd_load`: all that it does is to ask sysrepo, whatever it answers.
use nlif.Prelude.{
  Bool-cases, ◌==◌, ℕ, ◌≡◌, refl, sym, subst, ap, ◌∙◌, inl, inr, Bool, true, false, not, Option,
  none, some, List, [], ◌∷◌, has, if◌then◌else◌, ==_refl, arith, codes, ◌<◌, dec_str,
}
use nlif.Errno.{ok, Result-cases, eperm}
use nlif.Stroll.{Ptr}
use nlif.Iface.{Iface, CStr, null, held, freed}
use nlif.World.{
  World, Host, Request, Run, M, done, fail, fault, and_then, pure, key, default_nodes, leaf,
  container, replace_config, free_tree, load_data, probe_feature, change_subscribe, oper_subscribe,
  raise, modify, ◌>>◌, acquire_context, release_context, get_iface, read_str,
}
use nlif.Iface.Valid.{Owns}
use nlif.Tables.{hndl_iface}
use nlif.Store.Entry.{Refers}
use nlif.Daemon.{arphrd_ether, arphrd_loopback, ether_type, kind_type, type_str}
use nlif.Daemon.Config.{
  alias_leaf, type_leaf, new_entry, new_entries, free_top, replace_top, reset_config_dstore,
}
use nlif.Daemon.Oper.{setup_oper_dstore, create_leaves}
use nlif.Daemon.Publish.{Shown, outcome, setup_oper_dstore-answered}
use nlif.Daemon.Sequence.{
  call, subscribed, probed, probe, probe_if_mib, dstore_empty, dstore_found, load_steps, nlifd_load,
}
use nlif.World.Returns.{Returns, Ends}
use nlif.Srplug.{SrError, sr_ok, unsupported, not_found, is_ok, next_ok, Srplug, ask, log_request}

-- sysrepo takes whatever configuration is to replace its own.
abbrev pub Replaces : Srplug → Type 0
Replaces P = (past : List Request) → is_ok (P.on_request past replace_config) ≡ true

-- Another account of the requests to sysrepo, the memory being the same.
abbrev pub at : World → Host → World
at w h = record w { host = h }

-- Nothing differs but the requests that were made and what is known of sysrepo's features.
abbrev pub Asked : World → World → Type 0
Asked w u =
    (h : Host) × (u ≡ at w h)
    × (h.plugged ≡ w.host.plugged)
    × (h.watched ≡ w.host.watched)
    × (h.paths ≡ w.host.paths)

-- The command returns and only asks, whatever was asked before.
pub record Asks {A : Type 0} (w : World) (m : M A) : Type 0 where
  pub ask_on : (h : Host) → Returns (λ _ u. Asked (at w h) u) (m (at w h))

pure-Asks : {A : Type 0} (w : World) (a : A) → Asks w (λ v. done a v)
pure-Asks w a = record { ask_on = λ h. (h, refl, refl, refl, refl) }

-- What was asked before another command has to be counted with it.
module _ {A B : Type 0} (w : World) (m : M A) (k : A → M B) where
  relay :
      (h h' : Host)
      → (h'.plugged ≡ h.plugged) × (h'.watched ≡ h.watched) × (h'.paths ≡ h.paths)
      → (r : Run B) → Returns (λ _ u. Asked (at w h') u) r
      → Returns (λ _ u. Asked (at w h) u) r
  relay h h' (p, q, n) (done b u) (g, same, p', q', n') = (g, same, p' ∙ p, q' ∙ q, n' ∙ n)
  relay h h' kept (fail e u) x = elim x [ ]
  relay h h' kept fault x = elim x [ ]

  bind-Asks : Asks w m → ((a : A) → Asks w (k a)) → Asks w (λ v. and_then (m v) k)
  bind-Asks first then_ = record { ask_on = λ h. go h (m (at w h)) (first.ask_on h) }
    where
      go :
          (h : Host) (r : Run A)
          → Returns (λ _ u. Asked (at w h) u) r
          → Returns (λ _ u. Asked (at w h) u) (and_then r k)
      go h (done a u) (h', same, p, q, n) =
          subst (λ x. Returns (λ _ v. Asked (at w h) v) (k a x)) (sym same)
            (relay h h' (p, q, n) (k a (at w h')) ((then_ a).ask_on h'))
      go h (fail e u) x = elim x [ ]
      go h fault x = elim x [ ]

module _ (w : World) where
  if-Asks : {A : Type 0} (b : Bool) (m k : M A) → Asks w m → Asks w k → Asks w (if b then m else k)
  if-Asks true m k x y = x
  if-Asks false m k x y = y

  next_ok-Asks : (e : SrError) (k : M SrError) → Asks w k → Asks w (next_ok e k)
  next_ok-Asks e k x = if-Asks (is_ok e) k (pure e) x (pure-Asks w e)

  pub next-Asks :
      (m k : M SrError) → Asks w m → Asks w k → Asks w (λ v. and_then (m v) (λ e. next_ok e k))
  next-Asks m k x y = bind-Asks w m (λ e. next_ok e k) x (λ e. next_ok-Asks e k y)

module _ (P : Srplug) (w : World) where
  pub ask-Asks : (r : Request) → Asks w (ask P r)
  unfolding ask
  ask-Asks r = record {
    ask_on = λ h. (record h { requests = r ∷ h.requests }, refl, refl, refl, refl);
  }

  alias_leaf-Asks : (c : CStr) → Owns (λ _. Unit) c → Asks w (alias_leaf P c)
  unfolding read_str
  alias_leaf-Asks null own = pure-Asks w sr_ok
  alias_leaf-Asks (held s) own = ask-Asks (leaf (codes "description") s)
  alias_leaf-Asks freed own = absurd own

  type_leaf-Asks : (type : Option (List ℕ)) → Asks w (type_leaf P type)
  type_leaf-Asks none = pure-Asks w unsupported
  type_leaf-Asks (some str) = ask-Asks (leaf (codes "type") str)

  ether_type-Asks : (c : CStr) → Owns (λ _. Unit) c → Asks w (ether_type c)
  unfolding read_str
  ether_type-Asks null own = pure-Asks w (some (codes "iana-if-type:ethernetCsmacd"))
  ether_type-Asks (held s) own = pure-Asks w (kind_type s)
  ether_type-Asks freed own = absurd own

  type_str-Asks : (type : ℕ) (kind : CStr) → Owns (λ _. Unit) kind → Asks w (type_str type kind)
  unfolding type_str
  type_str-Asks type kind own =
      if-Asks w (type == arphrd_ether) (ether_type kind) others (ether_type-Asks kind own) (
        if-Asks w (type == arphrd_loopback) (pure loopback) (pure none) (pure-Asks w loopback)
          (pure-Asks w no_type))
    where
      loopback : Option (List ℕ)
      loopback = some (codes "iana-if-type:softwareLoopback")

      no_type : Option (List ℕ)
      no_type = none

      others : M (Option (List ℕ))
      others = if type == arphrd_loopback then pure loopback else pure none

  -- The strings of the interface can be read.
  abbrev pub Readable : Iface → Type 0
  Readable i = Owns (λ _. Unit) i.kind × Owns (λ _. Unit) i.alias

  new_entry-Asks : (i : Iface) → Readable i → Asks w (new_entry P i)
  unfolding new_entry
  new_entry-Asks i (kind, alias) = next-Asks w _ _ (ask-Asks (key i.name)) (
      next-Asks w _ _ (ask-Asks default_nodes) (
        bind-Asks w _ _ (type_str-Asks i.type i.kind kind)
          (λ type. next-Asks w _ _ (type_leaf-Asks type) (alias_leaf-Asks i.alias alias))))

  new_entries-Asks :
      (hs : List Ptr)
      → ((h : Ptr) → has h hs ≡ true → (q : Ptr) × (i : Iface) × Refers w h q i × Readable i)
      → Asks w (new_entries P hs)
  unfolding new_entries hndl_iface get_iface has
  new_entries-Asks [] live = pure-Asks w sr_ok
  new_entries-Asks (h ∷ hs) live =
      let (q, i, r, own) = live h (ground (arith, ==_refl h)) in
      record {
        ask_on = λ g. rw r.0 (
            rw r.1 (
              (next-Asks w (new_entry P i) (new_entries P hs) (new_entry-Asks i own)
                  (new_entries-Asks hs (λ g e. live g (ground arith)))).ask_on
                g));
      }

  -- Every handle of the store leads to an interface whose strings can be read.
  abbrev pub AllReadable : Type 0
  AllReadable =
      (h : Ptr)
      → has h w.store.ifaces ≡ true
      → (q : Ptr) × (i : Iface) × Refers w h q i × Readable i

  replace_top-Asks : Replaces P → Asks w (replace_top P)
  unfolding replace_top ask
  replace_top-Asks granted = record {
    ask_on = λ h.
        rw (granted h.requests)
          ((record h { requests = replace_config ∷ h.requests }, refl, refl, refl, refl));
  }

  reset_config_dstore-Asks : Replaces P → AllReadable → Asks w (reset_config_dstore P)
  unfolding reset_config_dstore free_top
  reset_config_dstore-Asks granted live =
      next-Asks w (ask P container) _ (ask-Asks container) (record {
        ask_on = λ h.
            (bind-Asks w _ _ (new_entries-Asks w.store.ifaces live) (λ e.
                if-Asks w (is_ok e) _ _ (replace_top-Asks granted)
                  (bind-Asks w _ _ (ask-Asks free_tree) (λ _. pure-Asks w e)))).ask_on
              h;
      })

  subscribed-Asks : (r : Request) → Asks w (subscribed P r)
  unfolding call
  subscribed-Asks r = record {
    ask_on = λ h. elim (Result-cases (P.on_call h.requests r)) [
      | inl (_, fine) ↦ rw fine (record h { requests = r ∷ h.requests }, refl, refl, refl, refl)
      | inr (e, refused) ↦
          rw refused (record h { requests = r ∷ h.requests }, refl, refl, refl, refl)
    ];
  }

  probed-Asks : (m k : M SrError) → Asks w m → Asks w k → Asks w (probed P m k)
  probed-Asks m k x y =
      bind-Asks w m _ x (λ e. if-Asks w (is_ok e) k (pure not_found) y (pure-Asks w not_found))

  probe-Asks : (name : List ℕ) → Asks w (probe P name)
  unfolding probe
  probe-Asks name = ask-Asks (probe_feature name)

  probe_if_mib-Asks : Asks w (probe_if_mib P)
  unfolding probe_if_mib probe ask
  probe_if_mib-Asks = record { ask_on = λ h. (_, refl, refl, refl, refl) }

  dstore_empty-Asks : Asks w (dstore_empty P)
  unfolding dstore_empty
  dstore_empty-Asks = bind-Asks w (ask P load_data) _ (ask-Asks load_data) found
    where
      found : (e : SrError) → Asks w (dstore_found P e)
      found not_found = pure-Asks w (sr_ok, true)
      found sr_ok = pure-Asks w (sr_ok, false)
      found e = pure-Asks w (e, false)

  create_leaves-Asks : (leaves : List (List ℕ × ℕ)) → Asks w (create_leaves P leaves)
  unfolding create_leaves
  create_leaves-Asks [] = pure-Asks w sr_ok
  create_leaves-Asks ((name, n) ∷ rest) =
      next-Asks w (ask P (leaf name (dec_str n))) (create_leaves P rest) (ask-Asks _)
        (create_leaves-Asks rest)

  pub create_leaves-Asked :
      (leaves : List (List ℕ × ℕ)) → Returns (λ _ u. Asked w u) (create_leaves P leaves w)
  create_leaves-Asked leaves = (create_leaves-Asks leaves).ask_on w.host

  module _ (live : AllReadable) (granted : Replaces P) (room : 74 < P.xpath_size)
      (printf : (path : List ℕ) → P.on_printf path ≡ ok tt)
      (shown : (h : Ptr) → has h w.store.ifaces ≡ true → Shown P w h) where
    setup_oper_dstore-Asks : Asks w (setup_oper_dstore P)
    setup_oper_dstore-Asks = record {
      ask_on = λ h.
          subst (λ r. Returns (λ _ u. Asked (at w h) u) r)
            (sym (setup_oper_dstore-answered P room printf (at w h) shown))
            (record h { requests = (outcome P (at w h)).1 }, refl, refl, refl, refl);
    }

    load_steps-Asks : Asks w (load_steps P)
    unfolding load_steps
    load_steps-Asks =
        if-Asks w (not (P.find_module (codes "iana-if-type"))) _ _ (pure-Asks w not_found) (
          probed-Asks _ _ (probe-Asks (codes "arbitrary-names")) (
            probed-Asks _ _ (probe-Asks (codes "pre-provisioning")) (
              probed-Asks _ _ probe_if_mib-Asks (
                if-Asks w (not (P.find_module (codes "netlink-interfaces"))) _ _
                  (pure-Asks w not_found)
                  (bind-Asks w _ _ dstore_empty-Asks (λ r. next_ok-Asks w r.0 _ (
                    next-Asks w _ _
                      (if-Asks w r.1 _ _ (reset_config_dstore-Asks granted live)
                        (pure-Asks w sr_ok))
                      (next-Asks w _ _ (subscribed-Asks change_subscribe) (
                        next-Asks w _ _ setup_oper_dstore-Asks
                          (subscribed-Asks oper_subscribe))))))))))

    -- It returns or fails, and has only asked.
    pub nlifd_load-Asked : Ends (λ _ u. Asked w u) (λ _ u. Asked w u) (nlifd_load P w)
    unfolding nlifd_load ask
    nlifd_load-Asked = elim (Bool-cases (is_ok (P.on_request w.host.requests acquire_context))) [
      | inl good ↦ rw good (go (load_steps P (at w first)) (load_steps-Asks.ask_on first))
      | inr bad ↦ rw bad (_, refl, refl, refl, refl)
    ]
      where
        first : Host
        first = record w.host { requests = acquire_context ∷ w.host.requests }

        after : SrError → M (Unit {0})
        after e = do modify (log_request release_context); if is_ok e then pure tt else raise eperm

        go :
            (r : Run SrError)
            → Returns (λ _ u. Asked (at w first) u) r
            → Ends (λ _ u. Asked w u) (λ _ u. Asked w u) (and_then r after)
        go (done e u) (h, same, p, q, n) = elim (Bool-cases (is_ok e)) [
          | inl fine ↦ rw fine (_, ap (log_request release_context) same, p, q, n)
          | inr bad ↦ rw bad (_, ap (log_request release_context) same, p, q, n)
        ]
        go (fail e u) x = elim x [ ]
        go fault x = elim x [ ]
