-- ===== src/Lib.antt =====
-- nlif: a C library that keeps the network interfaces of a Linux host in memory, reads them from
-- the kernel and changes them over rtnetlink, with a daemon (src/nlifd.c) that offers them to
-- sysrepo and three sample programs, sample/. This development models all of them.
--
-- The parts. A gate (lib/gate.c) owns one netlink socket, asks the kernel for links, sends changes
-- and hands events to one subscriber. An interface (lib/iface.c) is filled from a link; setters
-- change it in memory and mark what they changed, `nlif_iface_apply` sends that in one request, and
-- a failure invalidates the interface, which is then reloaded before it is read. A store
-- (lib/store.c) subscribes to the gate, creates an interface for each link, and finds interfaces by
-- index, name or alias in three hash tables; its own subscribers (lib/obsrv.c) hear of changes.
-- The two call each other: `nlif_iface_apply` and `nlif_iface_reload` notify the gate, whose
-- subscriber, the store, moves the interface's handle in its tables and may refuse. The daemon owns
-- a gate and a store: it publishes the interfaces as data of sysrepo, has the handlers of changed
-- leaves set them in memory, then applies all interfaces of the store, or restores and applies them
-- when one is refused; as the store's subscriber it publishes what the kernel reports.
--
-- The files, with the C functions less their `nlif_` and the part's name:
--   Prelude, Errno     shared names, tests on numbers and bytes, words of bits; `int` results
--   Link               lib/link.h, lib/link.c: links, the validators of their attributes, and
--                      hardware addresses, flags, states, modes and types as text
--   Ynl, Stroll        what ynl (the kernel's side of the socket) and stroll (lists, hashes,
--                      bitmaps) provide, as parameters; Stroll/Laws has what is assumed of stroll
--                      and Stroll/Lists a stroll that meets it
--   Iface              lib/iface.h and what lib/iface.c does on one interface alone: `fill`,
--                      `refresh_state`, the validators
--   World              the memory: interfaces and handles by address, the store, the gate, and the
--                      calls made to the kernel; commands on it
--   Gate               lib/gate.h, lib/gate.c: requests, dumps, notifications
--   Lifecycle          lib/iface.c: create, load, reload, sync and destroy
--   Settings           lib/iface.c: the setters, and the getters that sync first
--   Apply              lib/iface.c: `apply`; Apply/Request says what RTM_SETLINK means,
--                      Apply/Promise what `apply` is to do, Apply/Session what a client's settings
--                      lead to, and Apply/Wishes and Apply/Stage what
--                      they ask for
--   Obsrv              lib/obsrv.h, lib/obsrv.c: a notifier and its subscribers
--   Tables             lib/store.c: the searches in the three hash tables
--   Store              the rest of lib/store.h and lib/store.c; Store/Entry has what is true of a
--                      store
--   Srplug             what sysrepo, srplug, upoll and utils provide, as parameters; Srplug/Laws has
--                      what is assumed of `srplug_process_child_changes`
--   Daemon             src/nlifd.c: errors, paths and types; Daemon/Oper what is published,
--                      Daemon/Config the handlers and what is applied, Daemon/Sequence how it starts
--                      and stops; its other modules have the proofs
--   Printing           lib/iface.c and lib/link.c: `iface_print` and `link_print`, as the lines that
--                      they write
--   Sample             sample/set_iface.c, sample/show_iface.c and sample/mon.c: Sample/Args the
--                      arguments of the first two, with `strtoul` of the C library;
--                      Sample/SetIface, Sample/ShowIface and Sample/Mon the programs;
--                      Sample/Restore what the first two give back
--   Examples           the theorems at concrete inputs
--
-- How the C is read. A command is a function from the memory to an outcome: it returns (`done`),
-- returns a negated errno (`fail`), or faults where C would follow a bad pointer or free twice. A
-- `char *` that owns its string is NULL, allocated, or dangling. Addresses are numbers; the
-- allocator gives one that it never gave before, and never fails, as `nlif_malloc` aborts. The
-- kernel's answers are a function of all calls made before, so that nothing is assumed of it but
-- where a theorem says so. Assertions are not executed: what they require is a hypothesis where a
-- theorem needs it. The subscriber of a gate is a parameter; it is the store's where it matters.
-- A loop over a list is structural recursion on it, and the endless one of sample/mon.c is run for any
-- number of rounds. The loop on notifications dequeues until the queue is empty; its fuel is one more
-- than the notifications that are queued when it starts, which is enough as long as the subscriber
-- queues none, and where the fuel ends it faults. Numbers are printed with 20 digits of fuel,
-- enough for 64 bits. The loop of `nlif_link_flags_str` has 32 rounds of fuel, as each shifts a bit
-- out of a word. The store's counter wraps at 32 bits, and flags are 32-bit words.
--
-- The daemon asks sysrepo and srplug by requests, which are kept in the memory; their answers are a
-- function of all requests made before. A path buffer is counted from its allocation to its free,
-- and a write behind its end is a fault, as are the assertions that stand where nothing is
-- returned. The tree of a new configuration is owned until it is handed over to the replacement, which
-- frees it, as the comment in `nlifd_iface_reset_config_dstore` says; freeing it then is a fault.
-- A callback of a notifier returns nothing: where the model of one fails, the next is called.
--
-- The library is taken as configured with CONFIG_NLIF_NOTIF_CHANGES and, as its build file does,
-- with NLIF_YNL_NULL_STR. Not modelled: logging, which only writes; the daemon's
-- command line (`nlifd_setup`); what `srplug_daemon_poll` runs and when, which is a parameter of
-- `run`, and of which Daemon/Poll says that it is callbacks of the daemon alone; src/repo.c, which
-- is not built and calls functions that the library no longer has; how long
-- sample/mon.c sleeps between two rounds of its loop, and the lines that its subscriber prints.
pub mod Prelude
pub mod Printing
pub mod Sample
pub mod Errno
pub mod Link
pub mod Stroll
pub mod Ynl
pub mod Iface
pub mod World
pub mod Gate
pub mod Lifecycle
pub mod Settings
pub mod Apply
pub mod Obsrv
pub mod Tables
pub mod Store
pub mod Srplug
pub mod Daemon
pub mod Examples
