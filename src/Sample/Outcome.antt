-- ===== src/Sample/Outcome.antt =====
-- What a sample program leaves of the interface that it used.
use nlif.Prelude.{
  ℕ, suc, [], ◌≡◌, ◌≢◌, refl, sym, subst, ◌∙◌, Bool, true, Option, none, some, List, ◌∷◌, ==_refl,
  arith,
}
use nlif.Errno.{ok, err}
use nlif.Link.{Link}
use nlif.Stroll.{Ptr, Stroll}
use nlif.Stroll.Laws.{IsLawful}
use nlif.Ynl.{GetReq, SetReq, Call, setlink, Ynl}
use nlif.Iface.{Iface, fill}
use nlif.Iface.Valid.{IsLink, Owns-weaken}
use nlif.Link.Validate.{IsAlias}
use nlif.World.{World, write_iface}
use nlif.World.Returns.{SameBut}
use nlif.Gate.{islink_valid}
use nlif.Gate.Requests.{index_req}
use nlif.Gate.Links.{fill-IsIface}
use nlif.Lifecycle.Reload.{finished}
use nlif.Settings.State.{up_flags}
use nlif.Apply.Request.{fill-Coherent}
use nlif.Apply.Session.{Agrees}
use nlif.Printing.Clean.{IsLegible, IsPrintable}
use nlif.Sample.{Exit}
use nlif.Sample.Flags.{Coherent-up_flags}

-- The number of RTM_SETLINK that were sent.
unfoldable pub setlinks : List Call → ℕ
setlinks [] = 0
setlinks (setlink req ∷ calls) = suc (setlinks calls)
setlinks (_ ∷ calls) = setlinks calls

-- Nothing but the interface, the calls and the next address differs.
pub record Like (p : Ptr) (w u : World) : Type 0 where
  pub mem : (q : Ptr) → p ≢ q → u.mem q ≡ w.mem q
  pub hndls : u.hndls ≡ w.hndls
  pub store : u.store ≡ w.store
  pub gate : u.gate ≡ w.gate
  pub host : u.host ≡ w.host

pub Like-trans : (p : Ptr) (u v w : World) → Like p u v → Like p v w → Like p u w
Like-trans p u v w a b = record {
  mem = λ q n. b.mem q n ∙ a.mem q n;
  hndls = b.hndls ∙ a.hndls;
  store = b.store ∙ a.store;
  gate = b.gate ∙ a.gate;
  host = b.host ∙ a.host;
}

pub SameBut-Like : (p : Ptr) (w u : World) → SameBut p w u → Like p w u
SameBut-Like p w u s = record {
  mem = s.mem;
  hndls = s.hndls;
  store = s.store;
  gate = s.gate;
  host = s.host;
}

pub Like-refl : (p : Ptr) (w : World) → Like p w w
Like-refl p w = record { mem = λ q n. refl; hndls = refl; store = refl; gate = refl; host = refl }

-- What is written at the address, and the calls made.
pub Like-write :
    (p : Ptr) (w : World) (c : Option Iface) (calls : List Call)
    → Like p w (record (write_iface p c w) { calls = calls })
Like-write p w c calls = record {
  mem = λ q n. ground arith;
  hndls = refl;
  store = refl;
  gate = refl;
  host = refl;
}

-- The interface is gone; the program succeeds only where no RTM_SETLINK was sent.
pub record Done (p : Ptr) (w : World) (x : Exit) (u : World) : Type 0 where
  pub like : Like p w u
  pub gone : u.mem p ≡ none
  pub unsent : x.success ≡ true → setlinks u.calls ≡ setlinks w.calls

module _ (p : Ptr) where
  pub Done-after :
      (u v w : World) (x : Exit)
      → Like p u v
      → setlinks v.calls ≡ setlinks u.calls
      → Done p v x w
      → Done p u x w
  Done-after u v w x like same d = record {
    like = Like-trans p u v w like d.like;
    gone = d.gone;
    unsent = λ s. d.unsent s ∙ same;
  }

  -- What is left once the interface `i`, which stands in `v`, is destroyed.
  abbrev pub destroyed : Iface → World → World
  destroyed i v = write_iface p none (write_iface p (some (finished i)) v)

  pub destroy-Like : (i : Iface) (v : World) → Like p v (destroyed i v)
  destroy-Like i v =
      Like-trans p v (write_iface p (some (finished i)) v) (destroyed i v)
        (Like-write p v (some (finished i)) v.calls)
        (Like-write p (write_iface p (some (finished i)) v) none v.calls)

  pub destroyed-Done :
      (w v u : World) (x : Exit) (i : Iface)
      → u ≡ destroyed i v
      → Like p w v
      → (x.success ≡ true → setlinks v.calls ≡ setlinks w.calls)
      → Done p w x u
  destroyed-Done w v u x i e like unsent = subst (Done p w x) (sym e) (record {
    like = Like-trans p w v (destroyed i v) like (destroy-Like i v);
    gone = ground (arith, ==_refl p);
    unsent = unsent;
  })

module _ (ffs : ℕ → ℕ) (flag_text : ℕ → Option (List ℕ)) where
  -- A well-formed link that can be printed, with IFF_UP or without.
  pub record IsShowable (l : Link) : Type 0 where
    pub is_link : IsLink l
    pub legible :
        (up : Bool) → IsLegible ffs flag_text (up_flags l.ifi_flags up) l.operstate l.linkmode

  -- The kernel tells of such links alone, and after it refused a change it still tells of the link.
  pub record Answering (Y : Ynl) : Type 0 where
    pub showable :
        (calls : List Call) (req : GetReq) (l : Link) → Y.on_getlink calls req ≡ ok l → IsShowable l
    pub again :
        (calls : List Call) (req : SetReq) (code : ℕ)
        → Y.on_setlink calls req ≡ err code
        → (l : Link) × (Y.on_getlink (setlink req ∷ calls) (index_req req.ifi_index) ≡ ok l)
          × (islink_valid l ≡ ok tt)

  module _ (S : Stroll) (laws : IsLawful S) where
    pub Agrees-IsPrintable :
        (l : Link) (i : Iface) → IsShowable l → Agrees S l i → IsPrintable ffs flag_text i
    Agrees-IsPrintable l i h (v, c) =
        let (up, e) = Coherent-up_flags S i l h.is_link.flags c in
        record {
          state = v.state;
          legible = rw e (
              subst (λ o. IsLegible ffs flag_text (up_flags l.ifi_flags up) o i.lnkmod)
                (sym c.opstat)
                (subst (λ m. IsLegible ffs flag_text (up_flags l.ifi_flags up) l.operstate m)
                  (sym c.lnkmod) (h.legible up)));
          alias = Owns-weaken IsAlias i.alias v.alias;
          kind = Owns-weaken _ i.kind v.kind;
        }

    pub filled-IsPrintable :
        (l : Link) (i : Iface)
        → IsShowable l
        → islink_valid l ≡ ok tt
        → IsPrintable ffs flag_text (fill S l i)
    filled-IsPrintable l i h valid =
        Agrees-IsPrintable l (fill S l i) h
          (fill-IsIface S laws l i h.is_link valid, fill-Coherent S laws l i h.is_link.flags)
