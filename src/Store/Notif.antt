-- ===== src/Store/Notif.antt =====
-- `nlif_store_enable_change_notif` and `nlif_store_disable_change_notif`.
use nlif.Prelude.{◌≡◌, refl, true, false, ◌∷◌}
use nlif.Errno.{ok}
use nlif.Stroll.{Stroll}
use nlif.Ynl.{join, Ynl}
use nlif.World.{World, ◌>>◌}
use nlif.World.Returns.{Returns}
use nlif.Store.{enable_change_notif, disable_change_notif}
use nlif.Gate

-- Where the kernel lets the socket join: `nlif_store_enable_change_notif` followed by
-- `nlif_store_disable_change_notif` leaves the socket in the multicast group, no request to leave
-- it being made, and the gate without a subscriber; the store is as before.
pub enable_change_notif-disable_change_notif :
    (S : Stroll) (Y : Ynl) (w : World)
    → Y.on_join w.calls ≡ ok tt
    → Returns
        (λ _ u.
          (u.gate.joined ≡ true)
          × (u.gate.notif ≡ false)
          × (u.calls ≡ join ∷ w.calls)
          × (u.store ≡ w.store))
        ((enable_change_notif S Y >> disable_change_notif S Y) w)
unfolding enable_change_notif disable_change_notif Gate.enable_change_notif Gate.unsubscribe
enable_change_notif-disable_change_notif S Y w e = rw e (refl, refl, refl, refl)
