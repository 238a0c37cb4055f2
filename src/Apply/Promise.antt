-- ===== src/Apply/Promise.antt =====
-- What `nlif_iface_apply` promises, told without its helpers: what the request carries, what becomes
-- of the interface, and what comes back.
use nlif.Prelude.{
  ℕ, ◌≡◌, ◌≢◌, refl, ◌⊎◌, inl, inr, Bool, true, false, Option, none, some, ltb, if◌then◌else◌,
}
use nlif.Errno.{ok, err, eio, Result-cases}
use nlif.Stroll.{Ptr, Stroll}
use nlif.Stroll.Laws.{IsLawful}
use nlif.Ynl.{SetReq, setlink, Ynl}
use nlif.Iface.{Iface, invalid, clean, dirty}
use nlif.Iface.Valid.{Owns}
use nlif.World.{World, Run, M, done, fail, fault, log_call, write_iface}
use nlif.Gate.{Event, modified, notify, ynl_err}
use nlif.Apply.{is_dirty, settle, apply}
use nlif.Apply.Request.{request_of, sent_alias}
use nlif.Apply.Outcome.{
  State-cases, sent, Leaves, apply-clean, apply-rejected, apply-vetoed, apply-accepted,
}

-- An attribute is there with the value if the bit is set, and is not there else.
abbrev pub Sent : {A : Type 0} → Bool → A → Option A → Type 0
Sent true a attr = attr ≡ some a
Sent false a attr = attr ≡ none

-- The request names the interface, selects the flags that are dirty and carries the fields whose bits
-- are set in the bitmap, and no others; no alias is carried as NULL.
pub record Carries (S : Stroll) (i : Iface) (req : SetReq) : Type 0 where
  pub index : req.ifi_index ≡ i.idx
  pub flags : req.ifi_flags ≡ i.flags
  pub change : req.ifi_change ≡ i.dirty_flags
  pub group : Sent (S.bmap_test i.dirty_fields 0) i.group req.group
  pub name : Sent (S.bmap_test i.dirty_fields 1) i.name req.ifname
  pub alias : Sent (S.bmap_test i.dirty_fields 2) (sent_alias i.alias) req.ifalias
  pub mtu : Sent (S.bmap_test i.dirty_fields 3) i.mtu req.mtu
  pub address : Sent (S.bmap_test i.dirty_fields 4) i.hwadr req.address

-- The interface is clean, no field and no flag being dirty, and is as before otherwise.
pub record Settled (S : Stroll) (i j : Iface) : Type 0 where
  pub state : j.state ≡ clean
  pub fields : (f : ℕ) → S.bmap_test j.dirty_fields f ≡ false
  pub flags : j.dirty_flags ≡ 0
  pub same :
      record j { state = i.state; dirty_fields = i.dirty_fields; dirty_flags = i.dirty_flags } ≡ i

module _ (S : Stroll) (Y : Ynl) (notif : Event → M (Unit {0})) (p : Ptr) (w : World)
    (i : Iface) where
  -- The memory once the request was made.
  abbrev asked : SetReq → World
  asked req = log_call (setlink req) w

  -- The kernel refuses.
  abbrev Refused : SetReq → Run ℕ → Type 0
  Refused req r =
      (code : ℕ) × (Y.on_setlink w.calls req ≡ err code)
      × (r
          ≡ fail (if ltb code Y.errno_end then code else eio)
              (write_iface p (some (record i { state = invalid })) (asked req)))

  -- The kernel accepts, and the gate's subscriber refuses.
  abbrev Vetoed : SetReq → Run ℕ → Type 0
  Vetoed req r =
      (Y.on_setlink w.calls req ≡ ok tt)
      × (c : ℕ) × (v : World) × (notify notif (modified p) (asked req) ≡ fail c v)
      × (r ≡ fail c (write_iface p (some (record i { state = invalid })) v))

  -- Both accept.
  abbrev Taken : SetReq → Run ℕ → Type 0
  Taken req r =
      (Y.on_setlink w.calls req ≡ ok tt)
      × (v : World) × (notify notif (modified p) (asked req) ≡ done tt v)
      × (j : Iface) × Settled S i j
      × (r ≡ done 1 (write_iface p (some j) v))

  -- Nothing was to be applied; or one request was made, which carries what is dirty.
  abbrev pub Promised : Run ℕ → Type 0
  Promised r =
      ((i.state ≢ dirty) × (r ≡ done 0 w))
      ⊎ ((i.state ≡ dirty)
          × (req : SetReq) × Carries S i req
          × (Refused req r ⊎ (Vetoed req r ⊎ Taken req r)))

  request_of-Carries : Carries S i (request_of S i)
  unfolding is_dirty
  request_of-Carries = record {
    index = refl;
    flags = refl;
    change = refl;
    group = sent_lem (S.bmap_test i.dirty_fields 0) i.group;
    name = sent_lem (S.bmap_test i.dirty_fields 1) i.name;
    alias = sent_lem (S.bmap_test i.dirty_fields 2) (sent_alias i.alias);
    mtu = sent_lem (S.bmap_test i.dirty_fields 3) i.mtu;
    address = sent_lem (S.bmap_test i.dirty_fields 4) i.hwadr;
  }
    where
      sent_lem : {A : Type 0} (b : Bool) (a : A) → Sent b a (if b then some a else none)
      sent_lem true a = refl
      sent_lem false a = refl

  module _ (laws : IsLawful S) (at : w.mem p ≡ some i) (own : Owns (λ _. Unit) i.alias) where
    settle-Settled : Settled S i (settle S i)
    settle-Settled = record {
      state = refl;
      fields = laws.bmap_test-empty;
      flags = laws.bmap_empty-zero;
      same = refl;
    }

    told :
        i.state ≡ dirty
        → Y.on_setlink w.calls (request_of S i) ≡ ok tt
        → (n : Run (Unit {0})) → notify notif (modified p) (sent S w i) ≡ n
        → Leaves p i n
        → Vetoed (request_of S i) (apply S Y notif p w)
          ⊎ Taken (request_of S i) (apply S Y notif p w)
    told st a (done _ v) n here =
        inr (
          a,
          v,
          n,
          settle S i,
          settle-Settled,
          apply-accepted S Y notif p w i at st own a v i here n,
        )
    told st a (fail c v) n here =
        inl (a, c, v, n, apply-vetoed S Y notif p w i at st own a v i here c n)
    told st a fault n here = elim here [ ]

    -- For a lawful stroll, an interface whose alias is not dangling, and a subscriber that neither
    -- faults nor touches it: `nlif_iface_apply` returns 0 with nothing changed where the interface
    -- is not dirty. Where it is, one request is made, which names the interface, selects its dirty
    -- flags, and carries each of group, name, alias, MTU and address with the interface's value if
    -- its bit is set, and not else. If the kernel refuses, its code comes back, or EIO where it is
    -- not an errno, with the interface invalid; if the gate's subscriber refuses, so does its code,
    -- with the interface invalid; otherwise 1 comes back, with the interface clean, no field and no
    -- flag dirty, and all else in it as before.
    pub apply-Promised :
        ((req : SetReq) → Leaves p i (notify notif (modified p) (asked req)))
        → Promised (apply S Y notif p w)
    unfolding ynl_err
    apply-Promised leaves = elim (State-cases i.state) [
      | inr other ↦ inl (other, apply-clean S Y notif p w i at other)
      | inl st ↦ inr (
        st,
        request_of S i,
        request_of-Carries,
        elim (Result-cases (Y.on_setlink w.calls (request_of S i))) [
          | inr (code, e) ↦ inl (code, e, apply-rejected S Y notif p w i at st own code e)
          | inl (tt, e) ↦ inr (told st e _ refl (leaves (request_of S i)))
        ],
      )
    ]
