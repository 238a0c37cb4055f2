-- ===== src/Store/Init.antt =====
-- `nlif_store_init`, with the `nlif_store_load` that follows it.
use nlif.Prelude.{◌≡◌, ◌≢◌, ℕ, refl, false, true, List, []}
use nlif.Errno.{ok}
use nlif.Link.{Link}
use nlif.Stroll.{Ptr, Stroll}
use nlif.Stroll.Laws.{IsLawful}
use nlif.Ynl.{dump, Ynl}
use nlif.World.{World, M, ◌>>◌, log_call}
use nlif.World.Returns.{Ends, Ends-mono}
use nlif.Gate.{Event, links_req}
use nlif.Store.{emptied, init, load}
use nlif.Store.Entry.{IsStore}
use nlif.Store.Events.{on_event}
use nlif.Iface.{Iface}
use nlif.Store.Arrive.{AllOf}
use nlif.Store.Names.{NamesIndexed, AliasesIndexed}
use nlif.Store.Load.{AllEntered, Give, load-Loaded}
use nlif.Gate

-- The memory that `nlif_store_init` leaves.
abbrev pub initial : World → World
initial w = record w {
  store = record (emptied w.store) { subs = [] };
  gate = record w.gate { notif = true };
}

empty_list : ¬ (false ≡ true)
empty_list e = cc

pub initial-IsStore : (S : Stroll) (w : World) → IsStore S (initial w)
unfolding nlif.Prelude.has
initial-IsStore S w = record {
  distinct = tt;
  live = λ h e. cc;
  fresh = λ h e. cc;
  below = λ h q i st. absurd (empty_list st.0);
  in_nameh = λ h k e. cc;
  in_aliash = λ h k e. cc;
  in_indxh = λ h k e. cc;
  hashed = λ h q i k st. absurd (empty_list st.0);
  unique = λ h q h' q' i i' st st' same. absurd (empty_list st.0);
  count = refl;
}

pub initial-AllOf : (P : Iface → Type 0) (w : World) → AllOf P (initial w)
unfolding nlif.Prelude.has
initial-AllOf P w h q j st = absurd (empty_list st.0)

pub initial-NamesIndexed : (S : Stroll) (w : World) → NamesIndexed S (initial w)
unfolding nlif.Prelude.has
initial-NamesIndexed S w h q j k st = absurd (empty_list st.0)

pub initial-AliasesIndexed : (S : Stroll) (w : World) → AliasesIndexed S (initial w)
unfolding nlif.Prelude.has
initial-AliasesIndexed S w h q j k st = absurd (empty_list st.0)

-- For a lawful stroll, from any memory: `nlif_store_init` followed by `nlif_store_load` either
-- returns with a well-formed store, into which each valid link of the kernel's dump was entered (an
-- interface of the store has its index, or one has its name or its alias as name or alias), and
-- whose handles stand in the buckets of their interfaces' names and aliases alone, a property of
-- the interfaces that the valid links give being one of all; or fails with the store empty; it
-- never faults.
pub init-load :
    (S : Stroll)
    → IsLawful S
    → (Y : Ynl) (on_sub : Ptr → ℕ → Ptr → M (Unit {0})) (gate : Ptr) (P : Iface → Type 0)
      (w : World)
    → Ends
        (λ _ u.
          IsStore S u
          × NamesIndexed S u
          × AliasesIndexed S u
          × (links : List Link) × (Y.on_dump w.calls links_req ≡ ok links)
          × AllEntered u links
          × (Give S P gate links → AllOf P u))
        (λ e u. u ≡ log_call (dump links_req) (initial w))
        ((init S >> load S Y (on_event S on_sub gate)) w)
unfolding init nlif.Store.reinit Gate.subscribe
init-load S laws Y on_sub gate P w =
    Ends-mono _ _ _ _ (load S Y (on_event S on_sub gate) (initial w))
      (λ _ u (links, e, r). (
        r.store,
        r.names (initial-NamesIndexed S w),
        r.aliases (initial-AliasesIndexed S w),
        links,
        e,
        r.entered,
        λ each. r.all each (initial-AllOf P w),
      ))
      (λ e u h. h) (load-Loaded S laws Y on_sub gate P (initial w) (initial-IsStore S w) refl)
