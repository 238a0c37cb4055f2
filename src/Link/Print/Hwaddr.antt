-- ===== src/Link/Print/Hwaddr.antt =====
-- The text of a hardware address has one length, and the address can be read back from it.
use nlif.Prelude.{
  ℕ, ◌+◌, ◌-◌, ◌*◌, ◌/◌, ◌%◌, ◌<◌, ◌≡◌, refl, Option, none, some, List, [], ◌∷◌, length, ltb,
  if◌then◌else◌, arith,
}
use nlif.Link.{EtherAddr}
use nlif.Link.Print.{hex_digit, hwaddr_str}

-- What a `uint8_t` holds.
pub record IsOctets (a : EtherAddr) : Type 0 where
  pub octet0 : a.octet0 < 256
  pub octet1 : a.octet1 < 256
  pub octet2 : a.octet2 < 256
  pub octet3 : a.octet3 < 256
  pub octet4 : a.octet4 < 256
  pub octet5 : a.octet5 < 256

abbrev digit_value : ℕ → ℕ
digit_value c = if ltb c 58 then c - 48 else c - 87

abbrev octet_value : ℕ → ℕ → ℕ
octet_value hi lo = digit_value hi * 16 + digit_value lo

-- The address in a text of six octets that single bytes keep apart.
unfoldable pub read_hwaddr : List ℕ → Option EtherAddr
read_hwaddr (a ∷ b ∷ _ ∷ c ∷ d ∷ _ ∷ e ∷ f ∷ _ ∷ g ∷ h ∷ _ ∷ i ∷ j ∷ _ ∷ k ∷ l ∷ []) =
    some (record {
      octet0 = octet_value a b;
      octet1 = octet_value c d;
      octet2 = octet_value e f;
      octet3 = octet_value g h;
      octet4 = octet_value i j;
      octet5 = octet_value k l;
    })
read_hwaddr _ = none

octet_value-hex_digit :
    (o : ℕ) → o < 256 → octet_value (hex_digit (o % 256 / 16)) (hex_digit (o % 16)) ≡ o
unfolding hex_digit
octet_value-hex_digit o h = ground arith

-- For any address of six octets: the text of `nlif_link_hwaddr_str` has 17 bytes, and reading each
-- pair of digits as hexadecimal gives the address back.
pub read_hwaddr-hwaddr_str :
    (a : EtherAddr)
    → IsOctets a
    → (length (hwaddr_str a) ≡ 17) × (read_hwaddr (hwaddr_str a) ≡ some a)
unfolding read_hwaddr hwaddr_str
read_hwaddr-hwaddr_str a v = (
  refl,
  rw
      (
        octet_value-hex_digit a.octet0 v.octet0,
        octet_value-hex_digit a.octet1 v.octet1,
        octet_value-hex_digit a.octet2 v.octet2,
        octet_value-hex_digit a.octet3 v.octet3,
        octet_value-hex_digit a.octet4 v.octet4,
        octet_value-hex_digit a.octet5 v.octet5,
      )
      refl,
)
