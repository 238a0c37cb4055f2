-- ===== src/Store/Reload.antt =====
-- `nlif_store_clear` and `nlif_store_reload`.
use nlif.Prelude.{ℕ, ◌≡◌, sym, subst, ap, ◌∙◌, true, List}
use nlif.Errno.{ok}
use nlif.Link.{Link}
use nlif.Stroll.{Ptr, Stroll}
use nlif.Stroll.Laws.{IsLawful}
use nlif.Ynl.{Ynl, dump}
use nlif.Iface.{Iface}
use nlif.World.{World, Store, Run, M, done, fail, fault, and_then, log_call}
use nlif.World.Returns.{Returns, Ends, Ends-mono}
use nlif.Gate.{links_req}
use nlif.Store.{emptied, release, reinit, clear, load, reload}
use nlif.Store.Entry.{IsStore, aside-IsStore}
use nlif.Store.Events.{on_event}
use nlif.Store.Names.{NamesIndexed, AliasesIndexed}
use nlif.Store.Arrive.{AllOf, Grows, OwnsKinds}
use nlif.Store.Init.{
  initial, initial-IsStore, initial-AllOf, initial-NamesIndexed, initial-AliasesIndexed,
}
use nlif.Store.Load.{AllEntered, Give, load-Loaded}
use nlif.Store.Release.{Freed, Beside, release_each-Freed, store-Sound, store-Separate}

-- Each handle of the store and each interface is freed, the store is empty, and its subscribers and
-- all else are as before.
pub record Cleared (w x : World) : Type 0 where
  pub heap : Freed w.store.ifaces w x
  pub store : x.store ≡ emptied w.store
  pub gate : x.gate ≡ w.gate
  pub calls : x.calls ≡ w.calls
  pub host : x.host ≡ w.host

module _ (S : Stroll) (Y : Ynl) (gate : Ptr) (P : Iface → Type 0) (w : World) where
  -- The store once it was emptied and given the links of a dump.
  abbrev pub Reloaded : World → Type 0
  Reloaded u =
      (x : World) × Cleared w x
      × (links : List Link) × (Y.on_dump w.calls links_req ≡ ok links)
      × AllEntered u links
      × Grows (log_call (dump links_req) x) u
      × IsStore S u
      × NamesIndexed S u
      × AliasesIndexed S u
      × (u.store.subs ≡ w.store.subs)
      × (Give S P gate links → AllOf P u)

-- The store once the dump was refused.
abbrev pub Emptied : World → World → Type 0
Emptied w u = (x : World) × Cleared w x × (u ≡ log_call (dump links_req) x)

-- An empty store, whatever else is there.
module _ (S : Stroll) (x : World) (s : Store) (empty : x.store ≡ emptied s) where
  abbrev with_empty : World
  with_empty = record x { store = emptied s }

  as_empty : with_empty ≡ x
  as_empty = ap (λ t. record x { store = t }) (sym empty)

  cleared-IsStore : IsStore S x
  cleared-IsStore = subst (IsStore S) as_empty (
      aside-IsStore S (initial with_empty) (initial-IsStore S with_empty) x.gate s.subs x.calls
        x.host)

  cleared-NamesIndexed : NamesIndexed S x
  cleared-NamesIndexed = subst (NamesIndexed S) as_empty (initial-NamesIndexed S with_empty)

  cleared-AliasesIndexed : AliasesIndexed S x
  cleared-AliasesIndexed = subst (AliasesIndexed S) as_empty (initial-AliasesIndexed S with_empty)

  cleared-AllOf : (P : Iface → Type 0) → AllOf P x
  cleared-AllOf P = subst (AllOf P) as_empty (initial-AllOf P with_empty)

module _ (S : Stroll) (w : World) (v : IsStore S w) (kinds : OwnsKinds w) where
  clear-Cleared : Returns (λ _ x. Cleared w x) (clear S w)
  unfolding clear release reinit
  clear-Cleared = go (release S w) (
      release_each-Freed S w.store.ifaces w v.distinct (store-Separate S w v kinds)
        (store-Sound S w v kinds))
    where
      go :
          (r : Run (Unit {0}))
          → Returns (λ _ u. Freed w.store.ifaces w u × Beside w u) r
          → Returns (λ _ x. Cleared w x) (and_then r (λ _. reinit S))
      go (done _ u) (f, b) = record {
        heap = record { hndls = f.hndls; ifaces = f.ifaces; others = f.others; brk = f.brk };
        store = ap emptied b.store;
        gate = b.gate;
        calls = b.calls;
        host = b.host;
      }
      go (fail e u) h = elim h [ ]
      go fault h = elim h [ ]

  module _ (laws : IsLawful S) (Y : Ynl) (on_sub : Ptr → ℕ → Ptr → M (Unit {0})) (gate : Ptr)
      (P : Iface → Type 0) where
    -- For a lawful stroll and a well-formed store that is subscribed to the gate and none of whose
    -- interfaces has a dangling kind: `nlif_store_reload` frees each interface and handle once. It
    -- then either returns with a well-formed store that has the subscribers it had, into which each
    -- valid link of the kernel's dump was entered, and whose handles stand in the buckets of their
    -- interfaces' names and aliases alone, a property of the interfaces that the valid links give
    -- being one of all and what is new on the heap being in the store; or fails with the store
    -- empty and nothing new.
    pub reload-Reloaded :
        w.gate.notif ≡ true
        → Ends
            (λ _ u. Reloaded S Y gate P w u)
            (λ e u. Emptied w u)
            (reload S Y (on_event S on_sub gate) w)
    unfolding reload
    reload-Reloaded on = go (clear S w) clear-Cleared
      where
        go :
            (r : Run (Unit {0}))
            → Returns (λ _ x. Cleared w x) r
            → Ends
                (λ _ u. Reloaded S Y gate P w u)
                (λ e u. Emptied w u)
                (and_then r (λ _. load S Y (on_event S on_sub gate)))
        go (done _ x) c =
            let good : IsStore S x = cleared-IsStore S x w.store c.store in
            Ends-mono _ _ _ _ (load S Y (on_event S on_sub gate) x)
              (λ _ u (links, e, r). (
                x,
                c,
                links,
                subst (λ calls. Y.on_dump calls links_req ≡ ok links) c.calls e,
                r.entered,
                r.grows,
                r.store,
                r.names (cleared-NamesIndexed S x w.store c.store),
                r.aliases (cleared-AliasesIndexed S x w.store c.store),
                r.apart.subs ∙ ap (λ t. t.subs) c.store,
                λ each. r.all each (cleared-AllOf S x w.store c.store P),
              ))
              (λ e u same. (x, c, same))
              (load-Loaded S laws Y on_sub gate P x good (ap (λ g. g.notif) c.gate ∙ on))
        go (fail e x) h = elim h [ ]
        go fault h = elim h [ ]
