-- ===== src/Srplug/Laws.antt =====
-- What the daemon relies on in `srplug_process_child_changes`, as a hypothesis of the theorems.
use nlif.Prelude.{ℕ, Option, none, some, List, [], ◌∷◌}
use nlif.World.{World}
use nlif.World.Returns.{Returns}
use nlif.Srplug.{ChangeOper, created, modified, deleted, moved, Node, Handler, Srplug}

-- A created leaf has no previous value, a modified or deleted one has; leaves are never moved.
abbrev pub IsChange : ChangeOper → Option (List ℕ) → Type 0
IsChange created none = Unit
IsChange created (some _) = ⊥
IsChange modified none = ⊥
IsChange modified (some _) = Unit
IsChange deleted none = ⊥
IsChange deleted (some _) = Unit
IsChange moved old = ⊥

-- Each handler returns and keeps the property, on any change.
abbrev pub Keep : (World → Type 0) → List Handler → Type 0
Keep Q [] = Unit
Keep Q (h ∷ hs) =
    ((node : Node) (oper : ChangeOper) (old : Option (List ℕ))
      → IsChange oper old
      → (w : World) → Q w
      → Returns (λ _ u. Q u) (h.run node oper old w))
    × Keep Q hs

-- It does nothing to the memory but to call the handlers: what they keep is kept.
abbrev pub OnlyHandlers : Srplug → Type 1
OnlyHandlers P =
    (Q : World → Type 0) (hs : List Handler) (w : World)
    → Keep Q hs
    → Q w
    → Returns (λ _ u. Q u) (P.process_child_changes hs w)
