-- ===== src/Examples/Lookups.antt =====
-- Lookups by a string in the store of the examples.
use nlif.Prelude.{ℕ, ◌≡◌, refl, subst, inl, inr, Option, some, has, arith}
use nlif.Stroll.{Ptr}
use nlif.Stroll.Lists.{list_stroll, list_stroll-IsLawful}
use nlif.Iface.{fill}
use nlif.World.{World, done}
use nlif.Store.{enrolled}
use nlif.Tables.{find_bystrid}
use nlif.Store.Entry.{IsStore}
use nlif.Store.Enroll.{
  after-IsStore, after-NamesIndexed, after-AliasesIndexed, in_bucket, Stands-after,
}
use nlif.Store.Names.{alias_in, NamesIndexed, AliasesIndexed}
use nlif.Store.Strids.{FitStrings, StridFound, find_bystrid-StridFound}
use nlif.Store.Arrive.{AllOf}
use nlif.Examples.{eth0, up_alias, port}
use nlif.Examples.Registry.{empty, empty_list, empty-IsStore, port_alias-Owns}

empty-NamesIndexed : NamesIndexed list_stroll empty
unfolding has
empty-NamesIndexed h q i k st = absurd (empty_list st.0)

port_name-hash : list_stroll.hash_str (port up_alias).name ≡ list_stroll.hash_str eth0
unfolding fill
port_name-hash = refl

empty-AliasesIndexed : AliasesIndexed list_stroll empty
unfolding has
empty-AliasesIndexed h q i k st = absurd (empty_list st.0)

-- The port with its alias in the alias table.
abbrev labelled : World
labelled =
    enrolled list_stroll 1 (list_stroll.hash (port up_alias).idx) (list_stroll.hash_str eth0)
      (some (list_stroll.hash_str up_alias)) empty

labelled-IsStore : IsStore list_stroll labelled
unfolding has
labelled-IsStore =
    after-IsStore list_stroll list_stroll-IsLawful empty empty-IsStore 1 (port up_alias) refl
      (list_stroll.hash (port up_alias).idx) (list_stroll.hash_str eth0)
      (some (list_stroll.hash_str up_alias)) port_alias-Owns refl
      (λ q (h, i, st, same). absurd (empty_list st.0)) (omega arith)

labelled-NamesIndexed : NamesIndexed list_stroll labelled
labelled-NamesIndexed =
    after-NamesIndexed list_stroll list_stroll-IsLawful empty empty-IsStore 1 (port up_alias) refl
      (list_stroll.hash (port up_alias).idx) (list_stroll.hash_str eth0)
      (some (list_stroll.hash_str up_alias)) port_name-hash empty-NamesIndexed

port_alias-bucket :
    (k : ℕ)
    → in_bucket (some (list_stroll.hash_str up_alias)) k
      ≡ alias_in list_stroll k (port up_alias).alias
unfolding fill
port_alias-bucket k = refl

labelled-AliasesIndexed : AliasesIndexed list_stroll labelled
labelled-AliasesIndexed =
    after-AliasesIndexed list_stroll list_stroll-IsLawful empty empty-IsStore 1 (port up_alias) refl
      (list_stroll.hash (port up_alias).idx) (list_stroll.hash_str eth0)
      (some (list_stroll.hash_str up_alias)) port_alias-bucket empty-AliasesIndexed

port-FitStrings : FitStrings (port up_alias)
unfolding fill
port-FitStrings = ((omega arith, omega arith), (omega arith, omega arith))

labelled-FitStrings : AllOf FitStrings labelled
unfolding has
labelled-FitStrings h q i st =
    elim (Stands-after list_stroll list_stroll-IsLawful empty empty-IsStore 1 (port up_alias) refl
      (list_stroll.hash (port up_alias).idx) (list_stroll.hash_str eth0)
      (some (list_stroll.hash_str up_alias)) h q i st) [
        | inl (_, _, same) ↦ subst FitStrings same port-FitStrings
        | inr old ↦ absurd (empty_list old.0)
      ]

find_bystrid-StridFound_example :
    (r : Option Ptr) × (find_bystrid list_stroll up_alias labelled ≡ done r labelled)
    × StridFound labelled up_alias r
find_bystrid-StridFound_example =
    find_bystrid-StridFound list_stroll labelled labelled-IsStore labelled-FitStrings up_alias
      labelled-AliasesIndexed labelled-NamesIndexed
