-- ===== src/Examples/Sample.antt =====
-- The theorems on the sample programs and on printing, on the port of the examples.
use nlif.Prelude.{
  ℕ, ◌≤◌, ◌≡◌, refl, sym, subst, ap, inl, inr, Bool, true, false, Option, some, none, List, [], ◌∷◌,
  codes, dec_str, ==_refl, arith,
}
use nlif.Errno.{ok_eq}
use nlif.Iface.{Iface, null, refresh_state}
use nlif.Ynl.{Ynl}
use nlif.Link.{Link}
use nlif.Stroll.Lists.{list_stroll, list_stroll-IsLawful}
use nlif.World.{World, Run, fail, fault, done}
use nlif.Sample.{Exit}
use nlif.World.Returns.{Returns}
use nlif.Settings.State.{up_flags}
use nlif.Printing.{Line, iface_print, link_print}
use nlif.Printing.Clean.{IsLegible, IsPrintable}
use nlif.Printing.Agree.{as_iface, iface_print-link_print}
use nlif.Sample.Args.{target, by_index}
use nlif.Sample.Args.Number.{target-dec_str}
use nlif.Sample.Outcome.{IsShowable, Answering, filled-IsPrintable}
use nlif.Iface.Valid.{IsLoaded, Owns}
use nlif.Iface.Refresh.{refresh_state-InSync}
use nlif.Store.Load.{Give}
use nlif.Sample.Mon.{watch_main}
use nlif.Sample.Mon.Heard.{Notifying}
use nlif.Sample.Mon.Safe.{Giving, Watches, watch_main-Watches}
use nlif.Sample.Restore.{Ended}
use nlif.Sample.SetIface.{set_main, apply_tuned}
use nlif.Sample.SetIface.Safe.{set_main-Ended}
use nlif.Sample.SetIface.Refused.{apply_tuned-fault}
use nlif.Sample.ShowIface.{show_main}
use nlif.Sample.ShowIface.Each.{IsUnused, AllShowable, Listing}
use nlif.Sample.ShowIface.Safe.{show_main-Ended}
use nlif.Examples.{
  up_alias, eth0, link, obliging, refusing, ignore, port, memory, tuned, link_up-IsLink,
  link_bare-IsLink,
}
use nlif.Examples.Printing.{ffs}
use nlif.Lifecycle.{uninit}

-- Every flag has the same name.
abbrev flag_text : ℕ → Option (List ℕ)
flag_text flag = some (codes "flag")

legible : (up : Bool) → IsLegible ffs flag_text (up_flags 0x1003 up) 6 0
unfolding nlif.Link.Print.flags_str nlif.Link.Print.operstate_str nlif.Link.Print.mode_str
    nlif.Link.Print.more_flags nlif.Link.Print.put_flag nlif.Examples.Printing.search_bit
legible true = record {
  flags_line = codes "flag,flag,flag";
  flags_text = refl;
  operstate_line = codes "up";
  operstate_text = refl;
  mode_line = codes "default";
  mode_text = refl;
}
legible false = record {
  flags_line = codes "flag,flag";
  flags_text = refl;
  operstate_line = codes "up";
  operstate_text = refl;
  mode_line = codes "default";
  mode_text = refl;
}

up-IsShowable : IsShowable ffs flag_text (link up_alias)
up-IsShowable = record { is_link = link_up-IsLink; legible = legible }

bare-IsShowable : IsShowable ffs flag_text (link [])
bare-IsShowable = record { is_link = link_bare-IsLink; legible = legible }

obliging-Answering : Answering ffs flag_text obliging
obliging-Answering = record {
  showable =
      λ calls req l e. subst (IsShowable ffs flag_text) (ok_eq (link up_alias) l e) up-IsShowable;
  again = λ calls req code e. cc;
}

obliging-Listing : Listing ffs flag_text obliging
obliging-Listing calls req links e =
    subst (AllShowable ffs flag_text) (ok_eq (link up_alias ∷ link [] ∷ []) links e)
      (up-IsShowable, (bare-IsShowable, tt))

-- The gate's socket is not there.
abbrev cold : World
cold = record (memory (port up_alias)) {
  gate = record { sock = false; notif = false; joined = false; queue = [] };
}

cold-IsUnused : IsUnused cold
cold-IsUnused = record { mem = λ q h. ground arith; hndls = λ h n. refl }

target-dec_str_example : target (codes "31") ≡ by_index 31
unfolding dec_str nlif.Prelude.put_dec
target-dec_str_example = target-dec_str 31 (omega arith) (omega arith)

iface_print-link_print_example :
    (lines : List Line) × (link_print ffs flag_text (link up_alias) (memory (port up_alias))
      ≡ done lines (memory (port up_alias)))
    × (iface_print ffs flag_text list_stroll obliging ignore 1 (memory (port up_alias))
        ≡ done (as_iface lines) (memory (port up_alias)))
iface_print-link_print_example =
    iface_print-link_print ffs flag_text list_stroll obliging ignore 1 (memory (port up_alias))
      (link up_alias) uninit (legible true) refl

set_main-Ended_example :
    Returns (Ended cold) (set_main ffs flag_text list_stroll obliging 9 (eth0 ∷ []) cold)
set_main-Ended_example =
    set_main-Ended ffs flag_text list_stroll list_stroll-IsLawful obliging 9 obliging-Answering
      (eth0 ∷ []) cold refl refl

show_main-Ended_example :
    Returns (Ended cold) (show_main ffs flag_text list_stroll obliging 9 [] cold)
show_main-Ended_example =
    show_main-Ended ffs flag_text list_stroll list_stroll-IsLawful obliging 9 obliging-Listing
      obliging-Answering [] cold cold-IsUnused refl

tuned_strings : ¬ ((tuned.alias ≡ null) × (tuned.kind ≡ null))
unfolding nlif.Iface.fill
tuned_strings (a, k) = cc

apply_tuned-fault_example : apply_tuned ffs flag_text list_stroll refusing 1 (memory tuned) ≡ fault
unfolding nlif.Iface.fill
apply_tuned-fault_example =
    apply_tuned-fault ffs flag_text list_stroll refusing 1 (memory tuned) tuned refl refl tt tt 19
      19 refl refl tuned_strings

-- The exit status, EXIT_SUCCESS being `true`.
abbrev status : Run Exit → Bool
status (done x w) = x.success
status (fail e w) = false
status fault = false

-- The kernel takes the settings, and the status is a failure; an unusable name is a success.
applied_status : status (set_main ffs flag_text list_stroll obliging 9 (eth0 ∷ []) cold) ≡ false
unfolding set_main nlif.Gate.load_link_byname nlif.Gate.send_getlink nlif.Gate.islink_valid
    nlif.Iface.fill nlif.Prelude.str_eq nlif.Link.addr_eq list_stroll nlif.Gate.send_setlink
    nlif.Gate.notify nlif.Link.Print.put_flag nlif.Examples.Printing.search_bit
    nlif.Link.Print.more_flags nlif.Lifecycle.fini
applied_status = refl

bad_name_status :
    status (set_main ffs flag_text list_stroll obliging 9 (codes "a-name-of-16-byte" ∷ []) cold)
    ≡ true
unfolding set_main
bad_name_status = refl

too_many_status :
    status (show_main ffs flag_text list_stroll obliging 9 (eth0 ∷ eth0 ∷ []) cold) ≡ true
unfolding show_main
too_many_status = refl

-- A kernel that notifies, at each round, that the port is down.
abbrev down : Link
down = record (link up_alias) { operstate = 2 }

abbrev chatty : Ynl
chatty = record obliging { on_ntf_check = λ _. record { cmd = 16; obj = down } ∷ [] }

-- An interface that can be printed and has the port's flags.
abbrev Ported : Iface → Type 0
Ported i = IsPrintable ffs flag_text i × (i.flags ≡ 0x1003)

down_flags : (i : Iface) → i.flags ≡ 0x1003 → (refresh_state i down).0.flags ≡ 0x1003
unfolding refresh_state
down_flags i e = ground arith

down-IsLegible : IsLegible ffs flag_text 0x1003 2 0
unfolding nlif.Link.Print.flags_str nlif.Link.Print.operstate_str nlif.Link.Print.mode_str
    nlif.Link.Print.more_flags nlif.Link.Print.put_flag nlif.Examples.Printing.search_bit
down-IsLegible = record {
  flags_line = codes "flag,flag,flag";
  flags_text = refl;
  operstate_line = codes "down";
  operstate_text = refl;
  mode_line = codes "default";
  mode_text = refl;
}

down-Ported : (i : Iface) → Ported i → Ported (refresh_state i down).0
down-Ported i (p, e) =
    let facts = refresh_state-InSync i down in
    let flags = down_flags i e in
    (
      record {
        state = subst IsLoaded (sym (ap (λ x. x.state) facts.2)) p.state;
        legible = rw (flags, facts.0.opstat, facts.0.lnkmod) down-IsLegible;
        alias = subst (Owns (λ _. Unit)) (sym (ap (λ x. x.alias) facts.2)) p.alias;
        kind = subst (Owns (λ _. Unit)) (sym (ap (λ x. x.kind) facts.2)) p.kind;
      },
      flags,
    )

chatty-Notifying : Notifying Ported chatty
chatty-Notifying calls = ((λ i valid. down-Ported i), tt)

chatty-Giving : Giving list_stroll Ported 9 chatty
unfolding nlif.Iface.fill
chatty-Giving w links e =
    subst (Give list_stroll Ported 9) (ok_eq (link up_alias ∷ link [] ∷ []) links e) (
      (λ valid. (
        filled-IsPrintable ffs flag_text list_stroll list_stroll-IsLawful (link up_alias)
            (record uninit { gate = 9 }) up-IsShowable valid,
        refl,
      )),
      (
        (λ valid. (
          filled-IsPrintable ffs flag_text list_stroll list_stroll-IsLawful (link [])
              (record uninit { gate = 9 }) bare-IsShowable valid,
          refl,
        )),
        tt,
      ),
    )

watch_main-Watches_example :
    Returns
      (Watches ffs flag_text list_stroll list_stroll-IsLawful chatty 9 7 Ported cold)
      (watch_main ffs flag_text list_stroll chatty 9 7 [] cold)
watch_main-Watches_example =
    watch_main-Watches ffs flag_text list_stroll list_stroll-IsLawful chatty 9 7 Ported (λ i p. p.0)
      chatty-Giving chatty-Notifying [] cold refl
