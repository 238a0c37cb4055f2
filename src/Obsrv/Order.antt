-- ===== src/Obsrv/Order.antt =====
-- The list of a notifier's subscribers.
use nlif.Prelude.{
  ◌≡◌, ◌∙◌, false, List, [], ◌∷◌, ◌++◌, has, remove, Distinct, append-Distinct, arith,
}
use nlif.Stroll.{Ptr, Stroll}
use nlif.Stroll.Laws.{IsLawful}
use nlif.Obsrv.{subscribe, unsubscribe}

-- Removing what is not on the list, or is at its end.
remove_last :
    (sub : Ptr) (subs : List Ptr) → has sub subs ≡ false → remove sub (subs ++ sub ∷ []) ≡ subs
unfolding has remove
remove_last sub [] h = ground arith
remove_last sub (s ∷ subs) h = ground (arith, remove_last sub subs)

-- For a lawful stroll and a list of distinct subscribers: adding a subscriber that is not on it and
-- removing it again leaves the list as it was.
pub unsubscribe-subscribe :
    (S : Stroll)
    → IsLawful S
    → (subs : List Ptr) (sub : Ptr) → Distinct subs
    → has sub subs ≡ false
    → unsubscribe S (subscribe S subs sub) sub ≡ subs
unfolding subscribe unsubscribe
unsubscribe-subscribe S laws subs sub d h = rw (laws.dlist_nqueue_back-eq subs sub) (
    laws.dlist_remove-eq sub (subs ++ sub ∷ []) (append-Distinct sub subs d h)
    ∙ remove_last sub subs h)
