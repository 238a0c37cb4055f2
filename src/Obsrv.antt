-- ===== src/Obsrv.antt =====
-- lib/obsrv.h and lib/obsrv.c: a notifier is the list of its subscribers, by address. What a
-- subscriber does with an event, `on_event`, is a parameter.
pub mod Order
use nlif.Prelude.{ℕ, Bool, true, false, List, [], ◌∷◌}
use nlif.Stroll.{Ptr, Stroll}
use nlif.World.{M, pure, ◌>>◌, on_error}

unfoldable pub notifier_empty : List Ptr → Bool
notifier_empty [] = true
notifier_empty (_ ∷ _) = false

unfoldable pub subscribe : Stroll → List Ptr → Ptr → List Ptr
subscribe S subs sub = S.dlist_nqueue_back subs sub

unfoldable pub unsubscribe : Stroll → List Ptr → Ptr → List Ptr
unsubscribe S subs sub = S.dlist_remove sub subs

-- A callback returns nothing, so that whatever becomes of one, the next is called.
abbrev pub called : M (Unit {0}) → M (Unit {0})
called callback = on_error callback (λ e. pure tt)

-- `nlif_obsrv_notify`: each subscriber in turn, with the event and its data.
unfoldable pub notify : (Ptr → ℕ → Ptr → M (Unit {0})) → List Ptr → ℕ → Ptr → M (Unit {0})
notify on_event [] event arg = pure tt
notify on_event (sub ∷ subs) event arg = do
  called (on_event sub event arg)
  notify on_event subs event arg
