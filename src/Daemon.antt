-- ===== src/Daemon.antt =====
-- src/nlifd.c: what the parts of the daemon share. Errors as sysrepo has them, the paths of
-- interfaces in its data, and their types.
pub mod Oper
pub mod Config
pub mod Sequence
pub mod State
pub mod Start
pub mod Close
pub mod Load
pub mod Serve
pub mod Dispatch
pub mod Push
pub mod Poll
pub mod Run
pub mod Publish
pub mod Plan
pub mod Entries
pub mod Statistics
pub mod Commit
pub mod Settle
pub mod Handlers
pub mod Enabled
pub mod Changes
use nlif.Prelude.{
  ℕ, suc, ◌+◌, Bool, true, false, ◌||◌, Option, none, some, List, ◌++◌, ltb, ◌==◌, if◌then◌else◌,
  length, str_eq, codes,
}
use nlif.Errno.{
  Result, ok, err, eperm, enoent, eio, eagain, enomem, eacces, eexist, enodev, einval, edeadlock,
  enolck, etime, enotsup, etimedout,
}
use nlif.Link.{validate_name}
use nlif.Stroll.{Ptr, Stroll}
use nlif.Ynl.{Ynl}
use nlif.Iface.{Iface, CStr, null, held, freed}
use nlif.World.{
  World, M, done, fail, fault, pure, raise, ◌>>=◌, ◌>>◌, lift, gets, modify, get_iface, read_str,
}
use nlif.Gate.{Event}
use nlif.Settings.{coherent_type, coherent_name}
use nlif.Tables.{find_byname}
use nlif.Srplug.{
  SrError, sr_ok, not_found, exists, inval_arg, unsupported, operation_failed, unauthorized,
  time_out, locked, callback_shelve, no_memory, sys, other, Node, Srplug, new_path, free_path,
}

-- `nlifd_iface_error` of `-e`.
unfoldable pub iface_error : ℕ → SrError
iface_error e =
    if e == 0
    then sr_ok
    else if (e == enodev) || (e == enoent)
    then not_found
    else if e == eexist
    then exists
    else if e == einval
    then inval_arg
    else if e == enotsup
    then unsupported
    else if e == eperm
    then operation_failed
    else if e == eacces
    then unauthorized
    else if (e == etime) || (e == etimedout)
    then time_out
    else if (e == enolck) || (e == edeadlock)
    then locked
    else if e == eagain
    then callback_shelve
    else if e == enomem
    then no_memory
    else sys

-- NLIFD_IETF_IFACE_YANG_LIST_PATH
abbrev pub list_path : List ℕ
list_path = codes "/ietf-interfaces:interfaces/interface"

-- "[name='%s']"
abbrev pub named_path : List ℕ → List ℕ
named_path name = list_path ++ codes "[name='" ++ (name ++ codes "']")

-- <net/if_arp.h>
abbrev pub arphrd_ether : ℕ
arphrd_ether = 1

abbrev pub arphrd_loopback : ℕ
arphrd_loopback = 772

abbrev pub kind_type : List ℕ → Option (List ℕ)
kind_type kind =
    if str_eq kind (codes "bridge")
    then some (codes "iana-if-type:bridge")
    else if str_eq kind (codes "dummy")
    then some (codes "iana-if-type:other")
    else none

-- The type of an Ethernet interface, whose kind is NULL or is read.
abbrev pub ether_type : CStr → M (Option (List ℕ))
ether_type null = pure (some (codes "iana-if-type:ethernetCsmacd"))
ether_type (held s) = do kind ← read_str (held s); pure (kind_type kind)
ether_type freed = do kind ← read_str freed; pure (kind_type kind)

-- The `type` leaf of an interface.
unfoldable pub type_str : ℕ → CStr → M (Option (List ℕ))
unfolding read_str
type_str type kind =
    if type == arphrd_ether
    then ether_type kind
    else if type == arphrd_loopback
    then pure (some (codes "iana-if-type:softwareLoopback"))
    else pure none

module _ (P : Srplug) where
  -- A leaf's name is written behind the path of its interface, in the interface's path buffer,
  -- whose bytes before that stay as they are.
  unfoldable pub concat_leaf_path : List ℕ → List ℕ → M (List ℕ)
  concat_leaf_path path string =
      if ltb (length path + length string) P.xpath_size then pure (path ++ string) else λ _. fault

  -- The path of an interface, put into a buffer that the caller has.
  unfoldable pub fill_path_name : List ℕ → M (List ℕ)
  fill_path_name name = do lift (P.on_printf (named_path name)); pure (named_path name)

module _ (S : Stroll) where
  -- The interface that a node belongs to, if there is one.
  unfoldable pub iface_from_node : Node → M (Option Ptr)
  unfolding find_byname free_path
  iface_from_node node = do
    new_path
    elim node.key [
      | none ↦ (do free_path; pure none)
      | some name ↦ elim (validate_name name) [
        | err e ↦ (do free_path; pure none)
        | ok _ ↦ (do found ← find_byname S name; free_path; pure found)
      ]
    ]

  module _ (Y : Ynl) (notif : Event → M (Unit {0})) where
    abbrev pub or_notsup : Option (List ℕ) → M (List ℕ)
    or_notsup none = raise enotsup
    or_notsup (some str) = pure str

    unfoldable pub coherent_type_str : Ptr → M (List ℕ)
    unfolding coherent_type get_iface type_str
    coherent_type_str p = do
      type ← coherent_type S Y notif p
      i ← get_iface p
      str ← type_str type i.kind
      or_notsup str

    -- The path of an interface in a new buffer.
    unfoldable pub create_path : Srplug → Ptr → M (List ℕ)
    unfolding coherent_name
    create_path P p = do
      name ← coherent_name S Y notif p
      lift (P.on_printf (named_path name))
      new_path
      pure (named_path name)
