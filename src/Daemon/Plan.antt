-- ===== src/Daemon/Plan.antt =====
-- Requests to sysrepo that are made in turn, as `src/nlifd.c` does where it returns the first error.
use nlif.Prelude.{◌≡◌, refl, inl, inr, List, [], ◌∷◌, ◌++◌, if◌then◌else◌, Bool-cases}
use nlif.World.{World, Request, M, done, pure, and_then}
use nlif.Srplug.{SrError, sr_ok, is_ok, next_ok, Srplug, ask}
use nlif.Daemon.Publish.{answered, answered-append, made, sr_ok_of}

-- Requests to be made in turn, and what comes back once all are granted.
abbrev pub Plan : Type 0
Plan = List Request × SrError

-- The second plan follows if the first ends well.
unfoldable pub follow : Plan → Plan → Plan
follow p q = if is_ok p.1 then (p.0 ++ q.0, q.1) else p

module _ (P : Srplug) where
  -- What comes back of a plan that is followed after other requests, and all requests then made.
  unfoldable pub followed : Plan → List Request → SrError × List Request
  followed p past = let r = answered P p.0 past in if is_ok r.0 then (p.1, r.1) else r

  followed-follow :
      (p q : Plan) (past : List Request)
      → followed (follow p q) past
        ≡ (if is_ok (followed p past).0 then followed q (followed p past).1 else followed p past)
  unfolding followed follow
  followed-follow p q past = elim (Bool-cases (is_ok p.1)) [
    | inl fine ↦ rw fine (
        rw (answered-append P p.0 q.0 past) (elim (Bool-cases (is_ok (answered P p.0 past).0)) [
          | inl granted ↦ rw granted (rw fine refl)
          | inr refused ↦ rw refused (rw refused refl)
        ]))
    | inr bad ↦ rw bad (elim (Bool-cases (is_ok (answered P p.0 past).0)) [
      | inl granted ↦ rw granted (rw bad refl)
      | inr refused ↦ rw refused (rw refused refl)
    ])
  ]

  -- The command follows the plan.
  abbrev pub Follows : World → Plan → M SrError → Type 0
  Follows w p m = m w ≡ done (followed p w.host.requests).0 (made P (followed p w.host.requests) w)

  pub Follows-next :
      (w : World) (p q : Plan) (m k : M SrError)
      → Follows w p m
      → Follows (made P (followed p w.host.requests) w) q k
      → Follows w (follow p q) (λ v. and_then (m v) (λ e. next_ok e k))
  Follows-next w p q m k first second = rw first (
      rw (followed-follow p q w.host.requests)
        (elim (Bool-cases (is_ok (followed p w.host.requests).0)) [
          | inl fine ↦ rw fine second
          | inr refused ↦ rw refused refl
        ]))

  pub Follows-ask : (w : World) (r : Request) → Follows w (r ∷ [], sr_ok) (ask P r)
  unfolding followed answered ask is_ok
  Follows-ask w r = elim (Bool-cases (is_ok (P.on_request w.host.requests r))) [
    | inl fine ↦ rw fine (rw (sr_ok_of _ fine) refl)
    | inr refused ↦ rw refused (rw refused refl)
  ]

  pub Follows-pure : (w : World) (e : SrError) → Follows w ([], e) (pure e)
  unfolding followed answered is_ok
  Follows-pure w e = refl
