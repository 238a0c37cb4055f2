-- ===== src/Store/Names.antt =====
-- `nlif_store_find_iface_byname`, where the name table is in step with the interfaces.
use nlif.Prelude.{
  ℕ, ◌≡◌, ◌≢◌, refl, sym, subst, ap, ◌∙◌, inl, inr, Bool, true, false, Bool-cases, Option, none,
  some, List, [], ◌∷◌, has, ◌==◌, ==_refl, str_eq, eq_of_str_eq, str_eq_iff, arith,
}
use nlif.Errno.{ok}
use nlif.Link.{validate_name, validate_name}
use nlif.Stroll.{Ptr, Stroll}
use nlif.Iface.{Iface, CStr, null, held, freed}
use nlif.World.{World, done}
use nlif.Tables.{search_byname, find_byname}
use nlif.Store.Entry.{
  IsStore, Refers, Stands, AllLive, head-Live, tail-AllLive, entry-Refers, Refers-eq,
}

-- Each handle stands in the bucket of its interface's name and in no other.
abbrev pub NamesIndexed : Stroll → World → Type 0
NamesIndexed S w =
    (h q : Ptr) (i : Iface) (k : ℕ)
    → Stands w h q i
    → has h (w.store.nameh k) ≡ (S.hash_str i.name == k)

-- Whether a bucket of the alias table has an interface with this alias.
abbrev pub alias_in : Stroll → ℕ → CStr → Bool
alias_in S k null = false
alias_in S k (held s) = S.hash_str s == k
alias_in S k freed = false

-- Each handle stands in the bucket of its interface's alias and in no other.
abbrev pub AliasesIndexed : Stroll → World → Type 0
AliasesIndexed S w =
    (h q : Ptr) (i : Iface) (k : ℕ)
    → Stands w h q i
    → has h (w.store.aliash k) ≡ alias_in S k i.alias

-- What a search along a bucket finds: an interface of this kind, or nothing where there is none.
abbrev pub Found : (Iface → Type 0) → World → List Ptr → Option Ptr → Type 0
Found Q w hs none = (h q : Ptr) (i : Iface) → has h hs ≡ true → Refers w h q i → ¬ Q i
Found Q w hs (some q) = (h : Ptr) × (i : Iface) × (has h hs ≡ true) × Refers w h q i × Q i

-- One handle more, whose interface is not of the kind.
pub Found-cons :
    (Q : Iface → Type 0) (w : World) (h q : Ptr) (i : Iface) (hs : List Ptr) (r : Option Ptr)
    → Refers w h q i
    → ¬ Q i
    → Found Q w hs r
    → Found Q w (h ∷ hs) r
unfolding has
Found-cons Q w h q i hs none at other found = λ g q' i' e at' is. elim (Bool-cases (h == g)) [
  | inl eq ↦
      let meet : h ≡ g = ground arith in
      let (_, same) = Refers-eq w h q q' i i' at (subst (λ x. Refers w x q' i') (sym meet) at') in
      other (subst Q (sym same) is)
  | inr ne ↦ found g q' i' (ground arith) at' is
]
Found-cons Q w h q i hs (some p) at other (g, j, e, at', is) = (g, j, ground arith, at', is)

abbrev pub NameFound : World → List ℕ → List Ptr → Option Ptr → Type 0
NameFound w name = Found (λ i. i.name ≡ name) w

differs : (name : List ℕ) (i : Iface) → i.name ≡ name → str_eq name i.name ≢ false
differs name i same = ground (arith, str_eq_iff name i.name)

module _ (w : World) (name : List ℕ) where
  pub search_byname-NameFound :
      (hs : List Ptr)
      → AllLive w hs
      → (r : Option Ptr) × (search_byname name hs w ≡ done r w) × NameFound w name hs r
  unfolding search_byname has
  search_byname-NameFound [] live = (none, refl, λ h q i e at same. cc)
  search_byname-NameFound (h ∷ hs) live =
      let (q, i, at, _) = head-Live w h hs live in
      elim (Bool-cases (str_eq name i.name)) [
        | inl same ↦ (
          some q,
          rw (entry-Refers w h q i at) (rw same),
          (h, i, ground (arith, ==_refl h), at, sym (eq_of_str_eq name i.name same)),
        )
        | inr other ↦
            let (r, run, found) = search_byname-NameFound hs (tail-AllLive w h hs live) in
            (
              r,
              rw (entry-Refers w h q i at) (rw other run),
              Found-cons (λ j. j.name ≡ name) w h q i hs r at (λ same. differs name i same other)
                  found,
            )
      ]

-- On a well-formed store whose handles stand in the buckets of their interfaces' names alone, for a
-- valid name: `nlif_store_find_iface_byname` returns with the memory as it was; it returns an
-- interface of the store that has the name, or nothing when none has it.
pub find_byname-NameFound :
    (S : Stroll) (w : World) (name : List ℕ) (n : ℕ)
    → IsStore S w
    → NamesIndexed S w
    → validate_name name ≡ ok n
    → (r : Option Ptr) × (find_byname S name w ≡ done r w) × NameFound w name w.store.ifaces r
unfolding find_byname
find_byname-NameFound S w name n v indexed valid = go (
    search_byname-NameFound w name (w.store.nameh (S.hash_str name))
      (λ h e. v.live h (v.in_nameh h _ e)))
  where
    go :
        ((r : Option Ptr) × (search_byname name (w.store.nameh (S.hash_str name)) w ≡ done r w)
          × NameFound w name (w.store.nameh (S.hash_str name)) r)
        → (r : Option Ptr) × (find_byname S name w ≡ done r w) × NameFound w name w.store.ifaces r
    go (none, run, out) = (
      none,
      ground arith,
      λ h q i e at same.
          out h q i
            (indexed h q i (S.hash_str name) (e, at.0, at.1)
              ∙ ground (arith, ==_refl (S.hash_str name), ap S.hash_str same))
            at same,
    )
    go (some q, run, (h, i, e, at, same)) =
        (some q, ground arith, (h, i, v.in_nameh h _ e, at, same))
