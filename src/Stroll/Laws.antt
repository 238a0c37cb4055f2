-- ===== src/Stroll/Laws.antt =====
-- What the code relies on in stroll, as hypotheses of the theorems.
use nlif.Prelude.{
  ℕ, ◌^◌, ◌<◌, ◌≡◌, false, ◌||◌, List, [], ◌∷◌, ◌++◌, ◌==◌, if◌then◌else◌, has, remove, Distinct,
}
use nlif.Stroll.{Ptr, Stroll}

-- Hashes stay below the number of buckets; a node that is added to a bucket is visited there, and
-- no more once it is deleted, whatever the order; a list is a queue; a bitmap is a set.
pub record IsLawful (s : Stroll) : Type 0 where
  pub hash_str-lt : (name : List ℕ) → s.hash_str name < 2 ^ 7
  pub hash-lt : (index : ℕ) → s.hash index < 2 ^ 7
  pub has-hlist_add :
      (p q : Ptr) (bucket : List Ptr)
      → has p bucket ≡ false
      → has q (s.hlist_add p bucket) ≡ (p == q || has q bucket)
  pub has-hlist_del :
      (p q : Ptr) (bucket : List Ptr)
      → has q (s.hlist_del p bucket) ≡ (if p == q then false else has q bucket)
  pub dlist_nqueue_back-eq : (l : List Ptr) (p : Ptr) → s.dlist_nqueue_back l p ≡ l ++ p ∷ []
  pub dlist_remove-eq : (p : Ptr) (l : List Ptr) → Distinct l → s.dlist_remove p l ≡ remove p l
  pub bmap_test-set : (m i j : ℕ) → s.bmap_test (s.bmap_set m i) j ≡ (i == j || s.bmap_test m j)
  pub bmap_empty-zero : s.bmap_empty ≡ 0
  pub bmap_test-empty : (i : ℕ) → s.bmap_test s.bmap_empty i ≡ false
