-- ===== src/Gate/Queue.antt =====
-- `ynl_ntf_dequeue` and one turn of the loop of `nlif_gate_notify_changes` on it.
use nlif.Prelude.{ℕ, suc, ◌≡◌, none, some, List, [], ◌∷◌}
use nlif.Ynl.{Call, Ntf, Ynl}
use nlif.World.{World, M, done, and_then}
use nlif.Gate.{Event, dequeue, drain, notify_change}

-- The queue and the calls to the kernel aside, nothing differs.
unfoldable pub queued : List Ntf → List Call → World → World
queued l calls w = record w { gate = record w.gate { queue = l }; calls = calls }

module _ (w : World) where
  pub dequeue-none : w.gate.queue ≡ [] → dequeue w ≡ done none w
  unfolding dequeue
  dequeue-none e = rw e

  pub dequeue-some :
      (ntf : Ntf) (rest : List Ntf)
      → w.gate.queue ≡ ntf ∷ rest
      → dequeue w ≡ done (some ntf) (queued rest w.calls w)
  unfolding dequeue queued
  dequeue-some ntf rest e = rw e

  module _ (Y : Ynl) (notif : Event → M (Unit {0})) (n : ℕ) where
    pub drain-none : w.gate.queue ≡ [] → drain Y notif (suc n) w ≡ done tt w
    unfolding drain
    drain-none e = rw (dequeue-none e)

    pub drain-some :
        (ntf : Ntf) (rest : List Ntf)
        → w.gate.queue ≡ ntf ∷ rest
        → drain Y notif (suc n) w
          ≡ and_then (notify_change Y notif ntf (queued rest w.calls w)) (λ _. drain Y notif n)
    unfolding drain
    drain-some ntf rest e = rw (dequeue-some ntf rest e)
