-- ===== src/Tables.antt =====
-- lib/store.c: the searches in the three hash tables of a store, by index, name and alias, and the
-- tests of what may be registered. A table lists the handles of each bucket.
use nlif.Prelude.{
  ℕ, Bool, true, false, Option, none, some, List, [], ◌∷◌, ◌==◌, if◌then◌else◌, str_eq,
}
use nlif.Errno.{ok, err, eexist}
use nlif.Link.{validate_index, validate_name, validate_alias}
use nlif.Stroll.{Ptr, Stroll}
use nlif.Iface.{Iface, CStr, null, held, freed}
use nlif.World.{M, pure, raise, ◌>>=◌, gets, deref, get_iface, read_str}

-- `hndl->iface`
unfoldable pub hndl_iface : Ptr → M Ptr
hndl_iface h w = deref (w.hndls h) w

unfoldable pub entry : Ptr → M (Ptr × Iface)
unfolding hndl_iface get_iface
entry h = do q ← hndl_iface h; i ← get_iface q; pure (q, i)

-- `!strcmp(s, alias)` where `alias` may be NULL only if the caller tested it.
unfoldable pub alias_eq : List ℕ → CStr → M Bool
unfolding read_str
alias_eq s alias = do a ← read_str alias; pure (str_eq s a)

unfoldable pub match_bystrid : Iface → List ℕ → M Bool
unfolding alias_eq
match_bystrid i strid = if str_eq strid i.name then pure true else elim i.alias [
  | null ↦ pure false
  | held a ↦ alias_eq strid (held a)
  | freed ↦ alias_eq strid freed
]

-- The `stroll_hlist_foreach_entry` loops.
unfoldable pub search_byname : List ℕ → List Ptr → M (Option Ptr)
unfolding entry
search_byname name [] = pure none
search_byname name (h ∷ hs) = do
  e ← entry h
  if str_eq name e.1.name then pure (some e.0) else search_byname name hs

unfoldable pub search_byalias : List ℕ → List Ptr → M (Option Ptr)
unfolding entry alias_eq
search_byalias alias [] = pure none
search_byalias alias (h ∷ hs) = do
  e ← entry h
  same ← alias_eq alias e.1.alias
  if same then pure (some e.0) else search_byalias alias hs

unfoldable pub search_hndl : ℕ → List Ptr → M (Option Ptr)
unfolding entry
search_hndl index [] = pure none
search_hndl index (h ∷ hs) = do
  e ← entry h
  if index == e.1.idx then pure (some h) else search_hndl index hs

unfoldable pub matches_any : List ℕ → List Ptr → M Bool
unfolding entry match_bystrid
matches_any strid [] = pure false
matches_any strid (h ∷ hs) = do
  e ← entry h
  same ← match_bystrid e.1 strid
  if same then pure true else matches_any strid hs

abbrev pub or_exists : {A : Type 0} → Option A → M A
or_exists none = raise eexist
or_exists (some a) = pure a

module _ (S : Stroll) where
  unfoldable pub find_byname : List ℕ → M (Option Ptr)
  unfolding search_byname
  find_byname name = elim (validate_name name) [
    | err e ↦ pure none
    | ok _ ↦ do bucket ← gets (λ w. w.store.nameh (S.hash_str name)); search_byname name bucket
  ]

  unfoldable pub find_byalias : List ℕ → M (Option Ptr)
  unfolding search_byalias
  find_byalias alias = elim (validate_alias (some alias)) [
    | err e ↦ pure none
    | ok _ ↦ do bucket ← gets (λ w. w.store.aliash (S.hash_str alias)); search_byalias alias bucket
  ]

  -- The name is tried first, then the alias.
  unfoldable pub find_bystrid : List ℕ → M (Option Ptr)
  unfolding find_byname find_byalias
  find_bystrid strid = do
    named ← find_byname strid
    elim named [ some q ↦ pure (some q) | none ↦ find_byalias strid ]

  unfoldable pub search_hndl_byindex : ℕ → M (Option Ptr)
  unfolding search_hndl
  search_hndl_byindex index = do
    bucket ← gets (λ w. w.store.indxh (S.hash index))
    search_hndl index bucket

  unfoldable pub find_byindex : ℕ → M (Option Ptr)
  unfolding search_hndl_byindex hndl_iface
  find_byindex index = elim (validate_index index) [
    | err e ↦ pure none
    | ok _ ↦ do
      found ← search_hndl_byindex index
      elim found [ none ↦ pure none | some h ↦ (do q ← hndl_iface h; pure (some q)) ]
  ]

  -- The bucket to add the handle to, or `none` where the string is taken.
  unfoldable pub may_register_name : List ℕ → M (Option ℕ)
  unfolding matches_any
  may_register_name name = do
    bucket ← gets (λ w. w.store.nameh (S.hash_str name))
    taken ← matches_any name bucket
    pure (if taken then none else some (S.hash_str name))

  unfoldable pub may_register_alias : List ℕ → M (Option ℕ)
  unfolding matches_any
  may_register_alias alias = do
    bucket ← gets (λ w. w.store.aliash (S.hash_str alias))
    taken ← matches_any alias bucket
    pure (if taken then none else some (S.hash_str alias))

  abbrev pub free_bucket : ℕ → Option Ptr → Option ℕ
  free_bucket index none = some (S.hash index)
  free_bucket index (some _) = none

  unfoldable pub may_register_index : ℕ → M (Option ℕ)
  unfolding search_hndl
  may_register_index index = do
    bucket ← gets (λ w. w.store.indxh (S.hash index))
    taken ← search_hndl index bucket
    pure (free_bucket index taken)
