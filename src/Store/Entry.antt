-- ===== src/Store/Entry.antt =====
-- What lib/store.c keeps true of a store, and its searches along one bucket. Names and aliases of
-- interfaces change before their tables do, so the index table alone is tied to the interfaces.
use nlif.Prelude.{
  ℕ, ◌<◌, ◌%◌, ◌^◌, ◌≡◌, ◌≢◌, ◌⊎◌, inl, inr, refl, sym, subst, ◌∙◌, ap, Bool, true, false, Option,
  none, some, List, [], ◌∷◌, length, has, Distinct, ◌==◌, ==_refl, Bool-cases, arith, str_eq, ◌↔◌,
  eq_of_str_eq, str_eq_iff,
}
use nlif.Stroll.{Ptr, Stroll}
use nlif.Iface.{Iface, held}
use nlif.Iface.Valid.{Owns, Owns-cases}
use nlif.Ynl.{Call}
use nlif.World.{Gate, Host, World, done, get_iface, read_str}
use nlif.Tables.{entry, hndl_iface, search_hndl, matches_any, match_bystrid, alias_eq}

-- The handle `h` points to the interface `i` at `q`.
abbrev pub Refers : World → Ptr → Ptr → Iface → Type 0
Refers w h q i = (w.hndls h ≡ some q) × (w.mem q ≡ some i)

-- It is one of the store's.
abbrev pub Stands : World → Ptr → Ptr → Iface → Type 0
Stands w h q i = (has h w.store.ifaces ≡ true) × (w.hndls h ≡ some q) × (w.mem q ≡ some i)

-- It leads to an interface, whose alias can be read.
abbrev pub Live : World → Ptr → Type 0
Live w h = (q : Ptr) × (i : Iface) × Refers w h q i × Owns (λ _. Unit) i.alias

pub record IsStore (S : Stroll) (w : World) : Type 0 where
  pub distinct : Distinct w.store.ifaces
  pub live : (h : Ptr) → has h w.store.ifaces ≡ true → Live w h
  pub fresh : (h : Ptr) → has h w.store.ifaces ≡ true → h < w.brk
  pub below : (h q : Ptr) (i : Iface) → Stands w h q i → q < w.brk
  pub in_nameh : (h : Ptr) (k : ℕ) → has h (w.store.nameh k) ≡ true → has h w.store.ifaces ≡ true
  pub in_aliash : (h : Ptr) (k : ℕ) → has h (w.store.aliash k) ≡ true → has h w.store.ifaces ≡ true
  pub in_indxh : (h : Ptr) (k : ℕ) → has h (w.store.indxh k) ≡ true → has h w.store.ifaces ≡ true
  pub hashed :
      (h q : Ptr) (i : Iface) (k : ℕ)
      → Stands w h q i
      → has h (w.store.indxh k) ≡ (S.hash i.idx == k)
  pub unique :
      (h q h' q' : Ptr) (i i' : Iface)
      → Stands w h q i
      → Stands w h' q' i'
      → i.idx ≡ i'.idx
      → h ≡ h'
  pub count : w.store.count ≡ length w.store.ifaces % 2 ^ 32

-- The gate, the calls, the daemon's part and the subscribers do not concern the interfaces.
pub aside-IsStore :
    (S : Stroll) (w : World)
    → IsStore S w
    → (gate : Gate) (subs : List Ptr) (calls : List Call) (host : Host)
    → IsStore S (record w {
      gate = gate;
      store = record w.store { subs = subs };
      calls = calls;
      host = host;
    })
aside-IsStore S w v gate subs calls host = record {
  distinct = v.distinct;
  live = v.live;
  fresh = v.fresh;
  below = v.below;
  in_nameh = v.in_nameh;
  in_aliash = v.in_aliash;
  in_indxh = v.in_indxh;
  hashed = v.hashed;
  unique = v.unique;
  count = v.count;
}

-- An interface of the store with this index stands at `q`.
abbrev pub Registered : World → ℕ → Ptr → Type 0
Registered w index q = (h : Ptr) × (i : Iface) × Stands w h q i × (i.idx ≡ index)

pub entry-Refers : (w : World) (h q : Ptr) (i : Iface) → Refers w h q i → entry h w ≡ done (q, i) w
unfolding entry hndl_iface get_iface
entry-Refers w h q i (a, b) = rw a (rw b)

-- What a search for an index along a bucket finds.
abbrev pub Found : World → ℕ → List Ptr → Option Ptr → Type 0
Found w index hs none = (h q : Ptr) (i : Iface) → has h hs ≡ true → Refers w h q i → i.idx ≢ index
Found w index hs (some h) =
    (has h hs ≡ true) × (q : Ptr) × (i : Iface) × Refers w h q i × (i.idx ≡ index)

pub some_eq : {A : Type 0} (a b : A) → some a ≡ some b → a ≡ b
some_eq {A = A} a b e = ap or_a e
  where
    or_a : Option A → A
    or_a none = a
    or_a (some x) = x

-- The string is the interface's name or its alias.
abbrev pub Bears : List ℕ → Iface → Type 0
Bears strid i = (i.name ≡ strid) ⊎ (i.alias ≡ held strid)

abbrev pub Matched : World → List ℕ → List Ptr → Bool → Type 0
Matched w strid hs true =
    (h : Ptr) × (has h hs ≡ true) × (q : Ptr) × (i : Iface) × Refers w h q i × Bears strid i
Matched w strid hs false =
    (h q : Ptr) (i : Iface) → has h hs ≡ true → Refers w h q i → ¬ Bears strid i

held_eq : (a b : List ℕ) → held a ≡ held b → a ≡ b
held_eq a b e = cc

module _ (w : World) where
  abbrev pub AllLive : List Ptr → Type 0
  AllLive hs = (h : Ptr) → has h hs ≡ true → Live w h

  pub head-Live : (h : Ptr) (hs : List Ptr) → AllLive (h ∷ hs) → Live w h
  unfolding has
  head-Live h hs live = live h (ground (arith, ==_refl h))

  pub tail-AllLive : (h : Ptr) (hs : List Ptr) → AllLive (h ∷ hs) → AllLive hs
  unfolding has
  tail-AllLive h hs live g e = live g (ground arith)

  pub Refers-eq :
      (h q q' : Ptr) (i i' : Iface) → Refers w h q i → Refers w h q' i' → (q ≡ q') × (i ≡ i')
  Refers-eq h q q' i i' (a, b) (a', b') =
      let same : q ≡ q' = some_eq q q' (sym a ∙ a') in
      (same, some_eq i i' (sym b ∙ ap w.mem same ∙ b'))

  -- A search for an index along a bucket whose handles are live returns, with the memory as it was.
  pub search_hndl-Found :
      (index : ℕ) (hs : List Ptr)
      → AllLive hs
      → (r : Option Ptr) × (search_hndl index hs w ≡ done r w) × Found w index hs r
  unfolding search_hndl has
  search_hndl-Found index [] live = (none, refl, λ h q i e. cc)
  search_hndl-Found index (h ∷ hs) live =
      let (q, i, at, _) = head-Live h hs live in
      elim (Bool-cases (index == i.idx)) [
        | inl same ↦ (
          some h,
          rw (entry-Refers w h q i at) (rw same),
          (ground (arith, ==_refl h), q, i, at, ground arith),
        )
        | inr other ↦
            let (r, run, found) = search_hndl-Found index hs (tail-AllLive h hs live) in
            (r, rw (entry-Refers w h q i at) (rw other run), further h q i hs r at other found)
      ]
    where
      further :
          (h q : Ptr) (i : Iface) (hs : List Ptr) (r : Option Ptr)
          → Refers w h q i
          → (index == i.idx) ≡ false
          → Found w index hs r
          → Found w index (h ∷ hs) r
      further h q i hs none at other found = λ g q' i' e at' same. elim (Bool-cases (h == g)) [
        | inl eq ↦
            let meet : h ≡ g = ground arith in
            let (_, same_i) =
              Refers-eq h q q' i i' at (subst (λ x. Refers w x q' i') (sym meet) at') in
            absurd (ground (arith, ==_refl index, ap (λ j. j.idx) same_i))
        | inr ne ↦ found g q' i' (ground arith) at' same
      ]
      further h q i hs (some g) at other (e, q', i', at', same) = (ground arith, q', i', at', same)

  named : (strid : List ℕ) (i : Iface) → i.name ≡ strid → str_eq strid i.name ≢ false
  named strid i n other = ground (arith, str_eq_iff strid i.name)

  pub match_bystrid-Bears :
      (i : Iface) (strid : List ℕ)
      → Owns (λ _. Unit) i.alias
      → (b : Bool) × (match_bystrid i strid w ≡ done b w) × ((b ≡ true) ↔ Bears strid i)
  unfolding match_bystrid alias_eq read_str
  match_bystrid-Bears i strid own = elim (Bool-cases (str_eq strid i.name)) [
    | inl same ↦ (true, rw same, (λ _. inl (sym (eq_of_str_eq strid i.name same)), λ _. refl))
    | inr other ↦ elim (Owns-cases (λ _. Unit) i.alias own) [
      | inl e ↦ (
        false,
        rw (other, e),
        (λ h. cc, λ b. elim b [ inl n ↦ absurd (named strid i n other) | inr a ↦ cc ]),
      )
      | inr (a, e, _) ↦ (
        str_eq strid a,
        rw (other, e),
        (
          λ h. inr (e ∙ ap held (sym (eq_of_str_eq strid a h))),
          λ b. elim b [
            | inl n ↦ absurd (named strid i n other)
            | inr a' ↦ (str_eq_iff strid a).1 (held_eq strid a (sym a' ∙ e))
          ],
        ),
      )
    ]
  ]

  -- A comparison with the names and aliases along a bucket.
  pub matches_any-Matched :
      (strid : List ℕ) (hs : List Ptr)
      → AllLive hs
      → (b : Bool) × (matches_any strid hs w ≡ done b w) × Matched w strid hs b
  unfolding matches_any has
  matches_any-Matched strid [] live = (false, refl, λ h q i e. cc)
  matches_any-Matched strid (h ∷ hs) live =
      let (q, i, at, own) = head-Live h hs live in
      let (b, run, means) = match_bystrid-Bears i strid own in
      let (r, rest, found) = matches_any-Matched strid hs (tail-AllLive h hs live) in
      elim (Bool-cases b) [
        | inl same ↦ (
          true,
          rw (entry-Refers w h q i at) (rw run (rw same)),
          (h, ground (arith, ==_refl h), q, i, at, means.0 same),
        )
        | inr other ↦ (
          r,
          rw (entry-Refers w h q i at) (rw run (rw other rest)),
          further h q i hs r at (λ n. ground (arith, means.1 n)) found,
        )
      ]
    where
      further :
          (h q : Ptr) (i : Iface) (hs : List Ptr) (r : Bool)
          → Refers w h q i
          → ¬ Bears strid i
          → Matched w strid hs r
          → Matched w strid (h ∷ hs) r
      further h q i hs false at other found = λ g q' i' e at' same. elim (Bool-cases (h == g)) [
        | inl eq ↦
            let meet : h ≡ g = ground arith in
            let (_, same_i) =
              Refers-eq h q q' i i' at (subst (λ x. Refers w x q' i') (sym meet) at') in
            other (subst (λ j. Bears strid j) (sym same_i) same)
        | inr ne ↦ found g q' i' (ground arith) at' same
      ]
      further h q i hs true at other (g, e, q', i', at', same) =
          (g, ground arith, q', i', at', same)
