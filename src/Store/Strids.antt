-- ===== src/Store/Strids.antt =====
-- `nlif_store_find_iface_byalias` and `nlif_store_find_iface_bystrid`, where the name and alias
-- tables are in step with the interfaces.
use nlif.Prelude.{
  ℕ, ◌≡◌, ◌≢◌, refl, sym, subst, ap, ◌∙◌, ◌⊎◌, inl, inr, true, false, Bool-cases, Option, none,
  some, List, [], ◌∷◌, has, ==_refl, str_eq, eq_of_str_eq, str_eq_iff, arith,
}
use nlif.Errno.{ok, err, Result-cases}
use nlif.Link.{validate_name, validate_alias}
use nlif.Link.Validate.{IsName, IsAlias}
use nlif.Stroll.{Ptr, Stroll}
use nlif.Iface.{Iface, CStr, null, held, freed}
use nlif.Iface.Valid.{Owns}
use nlif.World.{World, done}
use nlif.Tables.{alias_eq, search_byalias, find_byname, find_byalias, find_bystrid}
use nlif.Store.Arrive.{AllOf}
use nlif.Store.Entry.{IsStore, Refers, entry-Refers}
use nlif.Store.Names.{
  alias_in, NamesIndexed, AliasesIndexed, Found, Found-cons, NameFound, find_byname-NameFound,
}

abbrev pub AliasFound : World → List ℕ → List Ptr → Option Ptr → Type 0
AliasFound w s = Found (λ i. i.alias ≡ held s) w

-- Names and aliases that fit, none dangling.
abbrev pub FitStrings : Iface → Type 0
FitStrings i = IsName i.name × Owns IsAlias i.alias

-- The interface that has the string as its name, or else as its alias.
abbrev pub StridFound : World → List ℕ → Option Ptr → Type 0
StridFound w s r =
    ((q : Ptr) × (r ≡ some q) × NameFound w s w.store.ifaces (some q))
    ⊎ (NameFound w s w.store.ifaces none × AliasFound w s w.store.ifaces r)

differs : (s a : List ℕ) (i : Iface) → i.alias ≡ held a → str_eq s a ≡ false → i.alias ≢ held s
differs s a i here other same =
    let taken : CStr → List ℕ = λ c. elim c [ null ↦ [] | held t ↦ t | freed ↦ [] ] in
    let is : a ≡ s = ap taken (sym here ∙ same) in ground (arith, str_eq_iff s a)

module _ (w : World) (s : List ℕ) where
  -- Each handle leads to an interface with an alias.
  abbrev AllAliased : List Ptr → Type 0
  AllAliased hs =
      (h : Ptr)
      → has h hs ≡ true
      → (q : Ptr) × (i : Iface) × Refers w h q i × ((a : List ℕ) × (i.alias ≡ held a))

  alias_eq-held : (c : CStr) (a : List ℕ) → c ≡ held a → alias_eq s c w ≡ done (str_eq s a) w
  unfolding alias_eq nlif.World.read_str
  alias_eq-held c a e = rw e refl

  search_byalias-AliasFound :
      (hs : List Ptr)
      → AllAliased hs
      → (r : Option Ptr) × (search_byalias s hs w ≡ done r w) × AliasFound w s hs r
  unfolding search_byalias has
  search_byalias-AliasFound [] all = (none, refl, λ h q i e at same. cc)
  search_byalias-AliasFound (h ∷ hs) all =
      let (q, i, at, (a, here)) = all h (ground (arith, ==_refl h)) in
      elim (Bool-cases (str_eq s a)) [
        | inl same ↦ (
          some q,
          rw (entry-Refers w h q i at) (rw (alias_eq-held i.alias a here) (rw same refl)),
          (h, i, ground (arith, ==_refl h), at, here ∙ ap held (sym (eq_of_str_eq s a same))),
        )
        | inr other ↦
            let (r, run, found) = search_byalias-AliasFound hs (λ g e. all g (ground arith)) in
            (
              r,
              rw (entry-Refers w h q i at) (rw (alias_eq-held i.alias a here) (rw other run)),
              Found-cons (λ j. j.alias ≡ held s) w h q i hs r at (differs s a i here other) found,
            )
      ]

not_alias :
    (s : List ℕ) (c : CStr) (e : ℕ) → validate_alias (some s) ≡ err e → Owns IsAlias c → c ≢ held s
unfolding validate_alias
not_alias s c e bad own same = let fit : IsAlias s = subst (Owns IsAlias) same own in ground arith

not_name : (s t : List ℕ) (e : ℕ) → validate_name s ≡ err e → IsName t → t ≢ s
unfolding validate_name
not_name s t e bad fit same = let fit' : IsName s = subst IsName same fit in ground arith

module _ (S : Stroll) (w : World) (v : IsStore S w) (all : AllOf FitStrings w) (s : List ℕ) where
  module _ (aliases : AliasesIndexed S w) where
    aliased :
        (k h : ℕ)
        → has h (w.store.aliash k) ≡ true
        → (q : Ptr) × (i : Iface) × Refers w h q i × ((a : List ℕ) × (i.alias ≡ held a))
    aliased k h e =
        let (q, i, at, _) = v.live h (v.in_aliash h k e) in
        (q, i, at, go i.alias (sym (aliases h q i k (v.in_aliash h k e, at.0, at.1)) ∙ e))
      where
        go : (c : CStr) → alias_in S k c ≡ true → (a : List ℕ) × (c ≡ held a)
        go null is = cc
        go (held a) is = (a, refl)
        go freed is = cc

    find_byalias-AliasFound :
        (r : Option Ptr) × (find_byalias S s w ≡ done r w) × AliasFound w s w.store.ifaces r
    unfolding find_byalias
    find_byalias-AliasFound = elim (Result-cases (validate_alias (some s))) [
      | inr (e, bad) ↦ (
        none,
        rw (find_byalias, bad) refl,
        λ h q i listed at same. not_alias s i.alias e bad (all h q i (listed, at.0, at.1)).1 same,
      )
      | inl (n, fine) ↦
          go n fine
            (search_byalias-AliasFound w s (w.store.aliash (S.hash_str s)) (aliased (S.hash_str s)))
    ]
      where
        go :
            (n : ℕ)
            → validate_alias (some s) ≡ ok n
            → ((r : Option Ptr) × (search_byalias s (w.store.aliash (S.hash_str s)) w ≡ done r w)
                × AliasFound w s (w.store.aliash (S.hash_str s)) r)
            → (r : Option Ptr) × (find_byalias S s w ≡ done r w) × AliasFound w s w.store.ifaces r
        go n fine (none, run, out) = (
          none,
          rw (find_byalias, fine) run,
          λ h q i e at same.
              out h q i
                (aliases h q i (S.hash_str s) (e, at.0, at.1)
                  ∙ (ap (alias_in S (S.hash_str s)) same ∙ ==_refl (S.hash_str s)))
                at same,
        )
        go n fine (some q, run, (h, i, e, at, same)) =
            (some q, rw (find_byalias, fine) run, (h, i, v.in_aliash h _ e, at, same))

    named_first :
        NamesIndexed S w
        → (r : Option Ptr) × (find_byname S s w ≡ done r w) × NameFound w s w.store.ifaces r
    unfolding find_byname
    named_first names = elim (Result-cases (validate_name s)) [
      | inr (e, bad) ↦ (
        none,
        rw (find_byname, bad) refl,
        λ h q i listed at same. not_name s i.name e bad (all h q i (listed, at.0, at.1)).0 same,
      )
      | inl (n, fine) ↦ find_byname-NameFound S w s n v names fine
    ]

    -- On a well-formed store whose handles stand in the buckets of their interfaces' names and
    -- aliases alone, these names and aliases being fit to be registered: for any string,
    -- `nlif_store_find_iface_bystrid` returns with the memory as it was; it returns an interface of
    -- the store that has the string as its name, or, when none has, one that has it as its alias,
    -- or nothing when none has either.
    pub find_bystrid-StridFound :
        NamesIndexed S w → (r : Option Ptr) × (find_bystrid S s w ≡ done r w) × StridFound w s r
    unfolding find_bystrid
    find_bystrid-StridFound names = go (named_first names)
      where
        go :
            ((r : Option Ptr) × (find_byname S s w ≡ done r w) × NameFound w s w.store.ifaces r)
            → (r : Option Ptr) × (find_bystrid S s w ≡ done r w) × StridFound w s r
        go (some q, run, found) = (some q, rw run refl, inl (q, refl, found))
        go (none, run, out) =
            let (r, run', found) = find_byalias-AliasFound in (r, rw run run', inr (out, found))
