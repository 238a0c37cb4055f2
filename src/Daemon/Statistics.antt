-- ===== src/Daemon/Statistics.antt =====
-- `nlifd_iface_get_stats`: the statistics of an interface as a list of requests.
use nlif.Prelude.{
  ℕ, ◌≡◌, refl, subst, ◌⊎◌, inl, inr, Option, none, some, List, [], ◌∷◌, codes, dec_str,
}
use nlif.Errno.{ok, err, Result-cases}
use nlif.Stroll.{Ptr, Stroll}
use nlif.Ynl.{Ynl, LinkStats, stats}
use nlif.Iface.{Iface}
use nlif.World.{World, Run, leaf, done, get_iface, log_call}
use nlif.Gate.{load_link_stats, ynl_err}
use nlif.Lifecycle.{load_stats}
use nlif.Store.Entry.{IsStore, Stands}
use nlif.Srplug.{SrError, sr_ok, not_found, is_ok, Node, Srplug, ask}
use nlif.Daemon.{iface_error, iface_from_node}
use nlif.Daemon.Oper.{create_leaves, stats_leaves, get_stats}
use nlif.Daemon.Handlers.{NodeFound, iface_from_node-NodeFound}
use nlif.Daemon.Publish.{made}
use nlif.Daemon.Plan.{Plan, follow, followed, Follows, Follows-next, Follows-ask, Follows-pure}

-- The leaves in turn.
pub leaves_plan : List (List ℕ × ℕ) → Plan
leaves_plan [] = ([], sr_ok)
leaves_plan ((name, n) ∷ rest) = follow (leaf name (dec_str n) ∷ [], sr_ok) (leaves_plan rest)

-- The counters that are published, under their names in the model of RFC 8343.
abbrev pub stats_plan : LinkStats → Plan
stats_plan s = (
  leaf (codes "statistics/in-octets") (dec_str s.rx_bytes)
      ∷ leaf (codes "statistics/in-discards") (dec_str s.rx_dropped)
      ∷ leaf (codes "statistics/in-errors") (dec_str s.rx_errors)
      ∷ leaf (codes "statistics/out-octets") (dec_str s.tx_bytes)
      ∷ leaf (codes "statistics/out-discards") (dec_str s.tx_dropped)
      ∷ leaf (codes "statistics/out-errors") (dec_str s.tx_errors)
      ∷ [],
  sr_ok,
)

module _ (P : Srplug) where
  create_leaves-Follows :
      (leaves : List (List ℕ × ℕ)) (w : World)
      → Follows P w (leaves_plan leaves) (create_leaves P leaves)
  unfolding create_leaves leaves_plan
  create_leaves-Follows [] w = Follows-pure P w sr_ok
  create_leaves-Follows ((name, n) ∷ rest) w =
      Follows-next P w (leaf name (dec_str n) ∷ [], sr_ok) (leaves_plan rest)
        (ask P (leaf name (dec_str n))) (create_leaves P rest)
        (Follows-ask P w (leaf name (dec_str n))) (create_leaves-Follows rest _)

  stats_plan-leaves : (s : LinkStats) → leaves_plan (stats_leaves P s) ≡ stats_plan s
  unfolding leaves_plan follow is_ok
  stats_plan-leaves s = refl

  module _ (S : Stroll) (Y : Ynl) (node : Node) (w : World) where
    -- What was asked of the kernel, if anything, and what comes back.
    abbrev pub Reported : Run SrError → Type 0
    Reported r =
        ((iface_from_node S node w ≡ done none w) × (r ≡ done not_found w))
        ⊎ ((h q : Ptr) × (i : Iface) × (iface_from_node S node w ≡ done (some q) w)
            × Stands w h q i
            × (((c : ℕ) × (Y.on_getstats w.calls i.idx ≡ err c)
                  × (r ≡ done (iface_error (ynl_err Y c)) (log_call (stats i.idx) w)))
                ⊎ ((s : LinkStats) × (Y.on_getstats w.calls i.idx ≡ ok s)
                    × (r
                        ≡ done (followed P (stats_plan s) w.host.requests).0 (
                            made P (followed P (stats_plan s) w.host.requests)
                              (log_call (stats i.idx) w))))))

    published :
        (s : LinkStats) (u : World)
        → Follows P u (stats_plan s) (create_leaves P (stats_leaves P s))
    published s u =
        subst (λ p. Follows P u p (create_leaves P (stats_leaves P s))) (stats_plan-leaves s)
          (create_leaves-Follows (stats_leaves P s) u)

    -- On a well-formed store, whatever the kernel and sysrepo answer: where the node has no
    -- interface, `nlifd_iface_get_stats` asks for nothing and SR_ERR_NOT_FOUND comes back.
    -- Otherwise it asks the kernel once for the statistics of the interface's index. The error of a
    -- refusal comes back, nothing being asked of sysrepo; else six leaves are requested in turn,
    -- the octets, discards and errors that came in and went out in decimal, up to the first that is
    -- refused, whose error comes back. Nothing else changes.
    pub get_stats-Reported : IsStore S w → Reported (get_stats P S Y node w)
    unfolding get_stats load_stats load_link_stats get_iface
    get_stats-Reported v = go (iface_from_node-NodeFound S w node v)
      where
        go :
            ((r : Option Ptr) × (iface_from_node S node w ≡ done r w) × NodeFound w r)
            → Reported (get_stats P S Y node w)
        go (none, run, _) = inl (run, rw run refl)
        go (some q, run, (h, i, st)) = inr (
          h,
          q,
          i,
          run,
          st,
          elim (Result-cases (Y.on_getstats w.calls i.idx)) [
            | inr (c, e) ↦ inl (c, e, rw run (rw st.2 (rw e refl)))
            | inl (s, e) ↦
                inr (s, e, rw run (rw st.2 (rw e (published s (log_call (stats i.idx) w)))))
          ],
        )
