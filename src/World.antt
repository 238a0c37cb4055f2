-- ===== src/World.antt =====
-- The memory that the library works on: `struct nlif_gate` (lib/gate.h), `struct nlif_store` and
-- its handles (lib/store.h), the interfaces, and the calls made to the kernel. An operation is a
-- command on it, which returns, fails with an errno, or faults as C does on a bad pointer.
pub mod Returns
use nlif.Prelude.{ℕ, ◌+◌, Bool, true, false, Option, none, some, List, ◌∷◌, ◌==◌, if◌then◌else◌}
use nlif.Errno.{Result, ok, err}
use nlif.Stroll.{Ptr}
use nlif.Iface.{Iface, CStr, null, held, freed}
use nlif.Ynl.{Call, Ntf}

-- One netlink socket: whether it exists, whether a subscriber is set, whether it joined the link
-- multicast group, and the notifications parsed and not yet dequeued.
pub record Gate : Type 0 where
  pub sock : Bool
  pub notif : Bool
  pub joined : Bool
  pub queue : List Ntf

abbrev pub Buckets : Type 0
Buckets = ℕ → List Ptr

pub record Store : Type 0 where
  pub nameh : Buckets
  pub indxh : Buckets
  pub aliash : Buckets
  pub ifaces : List Ptr
  pub count : ℕ
  pub subs : List Ptr

-- What the daemon (src/nlifd.c) asks of sysrepo, srplug and upoll. An edit sets a leaf of the
-- session's data, and a node is added to the tree being built.
pub data Request : Type 0 where
  edit : List ℕ → List ℕ → Request
  apply_changes discard_changes switch_dstore load_data : Request
  container default_nodes free_tree replace_config : Request
  key : List ℕ → Request
  leaf : List ℕ → List ℕ → Request
  acquire_context release_context : Request
  probe_feature : List ℕ → Request
  change_subscribe oper_subscribe open_plug close_plug watch unwatch : Request

-- The daemon's own part of the memory: the requests that it made, the newest first, the path
-- buffers allocated and not freed, whether the `if-mib` feature is on, whether the plug-in is open,
-- and whether the gate's descriptor is polled.
pub record Host : Type 0 where
  pub requests : List Request
  pub paths : ℕ
  pub if_mib : Bool
  pub plugged : Bool
  pub watched : Bool

-- `mem` and `hndls` hold what `malloc` gave for an interface and for a `struct nlif_store_hndl`,
-- the latter by the interface that it points to; `brk` is above every address given so far.
pub record World : Type 0 where
  pub mem : Ptr → Option Iface
  pub hndls : Ptr → Option Ptr
  pub brk : Ptr
  pub store : Store
  pub gate : Gate
  pub calls : List Call
  pub host : Host

pub data Run (A : Type 0) : Type 0 where
  done : A → World → Run A
  fail : ℕ → World → Run A
  fault : Run A

abbrev pub M : Type 0 → Type 0
M A = World → Run A

abbrev pub pure : {A : Type 0} → A → M A
pure = done

-- `return -e`
abbrev pub raise : {A : Type 0} → ℕ → M A
raise = fail

abbrev pub and_then : {A B : Type 0} → Run A → (A → M B) → Run B
and_then (done a w) k = k a w
and_then (fail e w) k = fail e w
and_then fault k = fault

-- `ret = m; if (ret) return ret;` and what follows
infixl 5 ◌>>=◌ ◌>>◌
abbrev pub ◌>>=◌ : {A B : Type 0} → M A → (A → M B) → M B
◌>>=◌ m k = λ w. and_then (m w) k

abbrev pub ◌>>◌ : {B : Type 0} → M (Unit {0}) → M B → M B
m >> k = m >>= λ _. k

-- An error path that does more before it returns.
abbrev pub or_else : {A : Type 0} → Run A → (ℕ → M A) → Run A
or_else (done a w) handler = done a w
or_else (fail e w) handler = handler e w
or_else fault handler = fault

abbrev pub on_error : {A : Type 0} → M A → (ℕ → M A) → M A
on_error m handler = λ w. or_else (m w) handler

-- What follows a success, and what follows a failure.
abbrev pub either : {A B : Type 0} → Run A → (A → M B) → (ℕ → M B) → Run B
either (done a w) k handler = k a w
either (fail e w) k handler = handler e w
either fault k handler = fault

abbrev pub attempt : {A B : Type 0} → M A → (A → M B) → (ℕ → M B) → M B
attempt m k handler = λ w. either (m w) k handler

abbrev pub lift : {A : Type 0} → Result A → M A
lift (ok a) = pure a
lift (err e) = raise e

abbrev pub gets : {A : Type 0} → (World → A) → M A
gets f w = done (f w) w

abbrev pub modify : (World → World) → M (Unit {0})
modify f w = done tt (f w)

-- A read through a pointer, which faults where nothing is allocated.
abbrev pub deref : {A : Type 0} → Option A → M A
deref none w = fault
deref (some a) w = done a w

abbrev pub update : {A : Type 0} → (Ptr → Option A) → Ptr → Option A → Ptr → Option A
update f p c q = if p == q then c else f q

unfoldable pub get_iface : Ptr → M Iface
get_iface p w = deref (w.mem p) w

abbrev pub write_iface : Ptr → Option Iface → World → World
write_iface p c w = record w { mem = update w.mem p c }

unfoldable pub put_iface : Ptr → Iface → M (Unit {0})
put_iface p i = modify (write_iface p (some i))

-- The bytes of a string that is read, as by `strcmp`.
unfoldable pub read_str : CStr → M (List ℕ)
read_str null w = fault
read_str (held s) w = done s w
read_str freed w = fault

-- `free`, after which the pointer dangles; NULL stays NULL, and a dangling one must not be freed.
unfoldable pub free_str : CStr → M CStr
free_str null w = done null w
free_str (held s) w = done freed w
free_str freed w = fault

abbrev pub log_call : Call → World → World
log_call c w = record w { calls = c ∷ w.calls }
