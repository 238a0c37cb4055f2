-- ===== src/Examples/Sessions.antt =====
-- The theorems on `nlif_iface_apply`, on the port of the examples.
use nlif.Prelude.{◌≡◌, refl, inl, inr, false, some, List, [], ◌∷◌, arith}
use nlif.Stroll.Lists.{list_stroll, list_stroll-IsLawful}
use nlif.Iface.{fill}
use nlif.Iface.Valid.{IsIface, Owns-weaken}
use nlif.Link.Validate.{IsAlias}
use nlif.World.{M, raise, ◌>>=◌, log_call}
use nlif.Ynl.{SetReq, setlink}
use nlif.World.Returns.{Returns, Sets}
use nlif.Gate.{Event, modified, notify}
use nlif.Apply.{apply, settle}
use nlif.Apply.Request.{Coherent, patch, request_of, fill-Coherent, patch-request}
use nlif.Apply.Session.{Setting, mtu, alias, admstate, AreSettings, Agrees, set_all, set_all-Agrees}
use nlif.Apply.Outcome.{Leaves}
use nlif.Apply.Promise.{Promised, apply-Promised}
use nlif.Apply.Wishes.{asked_all}
use nlif.Apply.Converge.{Converged, set_all-apply-Converged}
use nlif.Examples.{
  up_alias, link, obliging, ignore, port, memory, listening, tuned, link_up-IsLink, link_up-valid,
  up_alias-IsAlias, port_up-IsIface,
}
use nlif.Lifecycle.{uninit}

-- An MTU, the alias `up` once more, and the interface is brought down.
abbrev settings : List Setting
settings = mtu 1400 ∷ alias (some up_alias) ∷ admstate false ∷ []

settings-AreSettings : AreSettings settings
settings-AreSettings = (tt, (up_alias-IsAlias, (tt, tt)))

set_all-apply-Converged_example :
    Returns
      (Converged list_stroll
        (link up_alias)
        (asked_all settings (link up_alias))
        (port up_alias)
        1
        (memory (port up_alias)))
      ((set_all list_stroll obliging ignore 1 settings >>= λ _. apply list_stroll obliging ignore 1)
        (memory (port up_alias)))
set_all-apply-Converged_example =
    set_all-apply-Converged list_stroll obliging ignore 1 (λ req w. refl) list_stroll-IsLawful
      (link up_alias) settings (memory (port up_alias)) uninit link_up-IsLink link_up-valid
      settings-AreSettings refl refl

port-Coherent : Coherent list_stroll (port up_alias) (link up_alias)
port-Coherent = fill-Coherent list_stroll list_stroll-IsLawful (link up_alias) uninit (omega arith)

set_all-Agrees_example :
    Returns
      (λ _. Sets 1 (memory (port up_alias)) (Agrees list_stroll (link up_alias)))
      (set_all list_stroll obliging ignore 1 settings (memory (port up_alias)))
set_all-Agrees_example =
    set_all-Agrees list_stroll obliging ignore 1 list_stroll-IsLawful (link up_alias) settings
      (memory (port up_alias)) (port up_alias) refl settings-AreSettings
      (port_up-IsIface, port-Coherent)

tuned-IsIface : IsIface tuned
unfolding fill
tuned-IsIface =
    let v : IsIface (port up_alias) = port_up-IsIface in
    record {
      state = tt;
      index = v.index;
      dirty_flags = v.dirty_flags;
      name = v.name;
      alias = v.alias;
      distinct = v.distinct;
      kind = v.kind;
      mtu_min = omega arith;
      mtu_max = inr (omega arith);
      hwaddr = v.hwaddr;
    }

tuned-Coherent : Coherent list_stroll tuned (link up_alias)
unfolding fill nlif.Apply.is_dirty list_stroll
tuned-Coherent =
    let c : Coherent list_stroll (port up_alias) (link up_alias) = port-Coherent in
    record {
      idx = refl;
      group = λ _. refl;
      flags = refl;
      dirty_flags = inl refl;
      width = omega arith;
      opstat = refl;
      lnkmod = refl;
      type = refl;
      name = λ _. refl;
      alias = λ _. refl;
      kind = refl;
      lnk = refl;
      mst = refl;
      mtu = λ e. cc;
      min_mtu = refl;
      max_mtu = refl;
      hwadr = λ _. refl;
    }

patch-request_example :
    fill list_stroll (patch (request_of list_stroll tuned) (link up_alias)) tuned
    ≡ settle list_stroll tuned
patch-request_example = patch-request list_stroll tuned (link up_alias) tuned-IsIface tuned-Coherent

-- A subscriber that refuses.
abbrev refuse : Event → M (Unit {0})
refuse _ = raise 17

refuse-Leaves :
    (req : SetReq)
    → Leaves 1 tuned
        (notify refuse (modified 1) (log_call (setlink req) (listening (memory tuned))))
unfolding notify
refuse-Leaves req = refl

apply-Promised_example :
    Promised list_stroll obliging refuse 1
      (listening (memory tuned))
      tuned
      (apply list_stroll obliging refuse 1 (listening (memory tuned)))
apply-Promised_example =
    apply-Promised list_stroll obliging refuse 1 (listening (memory tuned)) tuned
      list_stroll-IsLawful refl (Owns-weaken IsAlias tuned.alias tuned-IsIface.alias) refuse-Leaves
