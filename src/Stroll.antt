-- ===== src/Stroll.antt =====
-- The stroll library (hash.h, hlist.h, dlist.h, bmap.h, bops.h), which lib/ builds on and which
-- is not part of the repository: its operations are parameters. A bucket and a list are the
-- addresses of the handles that a `foreach` visits, in its order.
pub mod Laws
pub mod Lists
use nlif.Prelude.{ℕ, Bool, List}

abbrev pub Ptr : Type 0
Ptr = ℕ

pub record Stroll : Type 0 where
  -- `stroll_hash_str_djb2(s, NLIF_STORE_NAMEH_BITS)`, `stroll_hash(i, NLIF_STORE_INDXH_BITS)`
  pub hash_str : List ℕ → ℕ
  pub hash : ℕ → ℕ
  pub hlist_add : Ptr → List Ptr → List Ptr
  -- `stroll_hlist_del` of a node that may stand on the bucket
  pub hlist_del : Ptr → List Ptr → List Ptr
  pub dlist_nqueue_back : List Ptr → Ptr → List Ptr
  pub dlist_remove : Ptr → List Ptr → List Ptr
  pub bmap_set : ℕ → ℕ → ℕ
  pub bmap_test : ℕ → ℕ → Bool
  -- the value that `stroll_bmap_clear_all` leaves
  pub bmap_empty : ℕ
