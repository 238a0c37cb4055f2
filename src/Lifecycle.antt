-- ===== src/Lifecycle.antt =====
-- lib/iface.c: allocation, loading, reloading and destruction of interfaces.
pub mod Reload
pub mod Refresh
pub mod Balance
use nlif.Prelude.{ℕ, suc, Option, none, some, List, []}
use nlif.Errno.{ebadfd}
use nlif.Link.{zero_addr, Link}
use nlif.Stroll.{Ptr, Stroll}
use nlif.Ynl.{LinkStats, Ynl}
use nlif.Iface.{Iface, invalid, clean, dirty, stat_nr, freed, fill}
use nlif.World.{
  World, M, done, fault, pure, raise, ◌>>=◌, ◌>>◌, on_error, gets, modify, get_iface, put_iface,
  free_str, write_iface,
}
use nlif.Gate
use nlif.Gate.{Event, reload, notify, load_link_byidx, load_link_byname, load_link_stats}

-- What `malloc` returns reads as zeros, and a pointer in it must not be followed.
abbrev pub uninit : Iface
uninit = record {
  state = stat_nr;
  dirty_fields = 0;
  gate = 0;
  idx = 0;
  group = 0;
  flags = 0;
  dirty_flags = 0;
  opstat = 0;
  lnkmod = 0;
  type = 0;
  name = [];
  alias = freed;
  kind = freed;
  lnk = 0;
  mst = 0;
  mtu = 0;
  min_mtu = 0;
  max_mtu = 0;
  hwadr = zero_addr;
}

abbrev pub write_new : World → World
write_new w = record (write_iface w.brk (some uninit) w) { brk = suc w.brk }

unfoldable pub alloc : M Ptr
alloc w = done w.brk (write_new w)

unfoldable pub free : Ptr → M (Unit {0})
unfolding get_iface
free p = do _ ← get_iface p; modify (write_iface p none)

-- `nlif_iface_fini`: the two pointers keep their value.
unfoldable pub fini : Ptr → M (Unit {0})
unfolding get_iface put_iface free_str
fini p = do
  i ← get_iface p
  alias ← free_str i.alias
  kind ← free_str i.kind
  put_iface p (record i { alias = alias; kind = kind })

unfoldable pub destroy : Ptr → M (Unit {0})
destroy p = fini p >> free p

module _ (S : Stroll) where
  unfoldable pub fill_iface : Ptr → Link → M (Unit {0})
  unfolding get_iface put_iface
  fill_iface p link = do i ← get_iface p; put_iface p (fill S link i)

  abbrev pub set_gate : Ptr → Ptr → M (Unit {0})
  set_gate p gate = do i ← get_iface p; put_iface p (record i { gate = gate })

  unfoldable pub reload_bylink : Ptr → Link → M (Unit {0})
  unfolding fini fill_iface
  reload_bylink p link = fini p >> fill_iface p link

  unfoldable pub create_bylink : Link → Ptr → M Ptr
  unfolding alloc fill_iface
  create_bylink link gate = do p ← alloc; set_gate p gate; fill_iface p link; pure p

  module _ (Y : Ynl) where
    -- `_nlif_iface_load_byidx`
    unfoldable pub load_index : Ptr → ℕ → M (Unit {0})
    unfolding fill_iface
    load_index p index = do lnk ← load_link_byidx Y index; fill_iface p lnk

    unfoldable pub load_byidx : Ptr → ℕ → Ptr → M (Unit {0})
    unfolding load_index get_iface put_iface
    load_byidx p index gate = do load_index p index; set_gate p gate

    unfoldable pub load_byname : Ptr → List ℕ → Ptr → M (Unit {0})
    unfolding fill_iface get_iface put_iface
    load_byname p name gate = do lnk ← load_link_byname Y name; set_gate p gate; fill_iface p lnk

    abbrev pub or_free : Ptr → M (Unit {0}) → M Ptr
    or_free p load = on_error (do load; pure p) (λ e. free p >> raise e)

    unfoldable pub create_byidx : ℕ → Ptr → M Ptr
    unfolding alloc load_byidx free
    create_byidx index gate = do p ← alloc; or_free p (load_byidx p index gate)

    unfoldable pub create_byname : List ℕ → Ptr → M Ptr
    unfolding alloc load_byname free
    create_byname name gate = do p ← alloc; or_free p (load_byname p name gate)

    unfoldable pub load_stats : Ptr → M LinkStats
    unfolding get_iface
    load_stats p = do i ← get_iface p; load_link_stats Y i.idx

    module _ (notif : Event → M (Unit {0})) where
      -- The error path of `nlif_iface_reload` and of `nlif_iface_apply`.
      abbrev pub invalidate : {A : Type 0} → Ptr → ℕ → M A
      invalidate p e = do i ← get_iface p; put_iface p (record i { state = invalid }); raise e

      unfoldable pub reload_iface : Ptr → M (Unit {0})
      unfolding fini load_index get_iface put_iface
      reload_iface p = do
        fini p
        i ← get_iface p
        on_error (do load_index p i.idx; notify notif (reload p)) (invalidate p)

      unfoldable pub sync : Ptr → M (Unit {0})
      unfolding get_iface
      sync p = do
        i ← get_iface p
        elim i.state [
          | clean ↦ pure tt
          | dirty ↦ pure tt
          | invalid ↦ reload_iface p
          | stat_nr ↦ raise ebadfd
        ]
