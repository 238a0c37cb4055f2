-- ===== src/Sample/Flags.antt =====
-- The flags that the programs may print: those of the kernel's link, but for IFF_UP.
use nlif.Prelude.{
  ℕ, ◌<◌, ◌^◌, ◌≡◌, refl, ◌∙◌, if◌then◌else◌, sym, ap, inl, inr, Bool, true, false, bit_and, bit_or,
}
use nlif.Prelude.Bits.{split_word, bit_and-ones, bit_and_one}
use nlif.Link.{Link}
use nlif.Stroll.{Stroll}
use nlif.Iface.{Iface, iff_up, complement}
use nlif.Settings.State.{up_flags}
use nlif.Apply.Request.{Coherent}

flags-up_flags : (f : ℕ) → f < 2 ^ 32 → (up : Bool) × (f ≡ up_flags f up)
flags-up_flags f h = elim (bit_and_one f) [
  | inl off ↦ (false, sym (split_word f 1 h refl) ∙ ap (bit_or (bit_and f (complement iff_up))) off)
  | inr on ↦ (true, sym (split_word f 1 h refl) ∙ ap (bit_or (bit_and f (complement iff_up))) on)
]

pub Coherent-up_flags :
    (S : Stroll) (i : Iface) (l : Link)
    → l.ifi_flags < 2 ^ 32
    → Coherent S i l
    → (up : Bool) × (i.flags ≡ up_flags l.ifi_flags up)
Coherent-up_flags S i l word c = elim c.dirty_flags [
  | inl clean ↦
      let same : i.flags ≡ l.ifi_flags =
        sym (bit_and-ones 32 i.flags c.width)
        ∙ rw clean at c.flags
        ∙ bit_and-ones 32 l.ifi_flags word in
      let (up, e) = flags-up_flags l.ifi_flags word in (up, same ∙ e)
  | inr dirty ↦
      let (up, e) = flags-up_flags i.flags c.width in
      (up, e ∙ ap (λ x. bit_or x (if up then iff_up else 0)) (rw dirty at c.flags))
]
