-- ===== src/Link/Print.antt =====
-- The attributes of a link as text (lib/link.c, lib/common.c).
pub mod Flags
pub mod Hwaddr
use nlif.Prelude.{
  ℕ, zero, suc, ◌+◌, ◌-◌, ◌/◌, ◌%◌, ◌^◌, length, ◌++◌, Option, none, some, List, [], ◌∷◌, ltb, ◌==◌,
  if◌then◌else◌, codes, dec_str,
}
use nlif.Link.{EtherAddr}

-- A hexadecimal digit, in lower case.
unfoldable pub hex_digit : ℕ → ℕ
hex_digit d = if ltb d 10 then 48 + d else 87 + d

-- `%02hhx`, before what follows it.
unfoldable pub put_octet : ℕ → List ℕ → List ℕ
unfolding hex_digit
put_octet octet rest = hex_digit (octet % 256 / 16) ∷ hex_digit (octet % 16) ∷ rest

abbrev pub colon : ℕ
colon = 58

unfoldable pub hwaddr_str : EtherAddr → List ℕ
unfolding put_octet
hwaddr_str a = put_octet a.octet0 (
    colon
    ∷ put_octet a.octet1 (
        colon
        ∷ put_octet a.octet2 (
            colon
            ∷ put_octet a.octet3 (colon ∷ put_octet a.octet4 (colon ∷ put_octet a.octet5 [])))))

-- `nlif_link_operstate_str`, from `enum IF_OPER_UNKNOWN` on; `none` is not to be reached.
unfoldable pub operstate_str : ℕ → Option (List ℕ)
operstate_str operstate =
    if operstate == 1
    then some (codes "notpresent")
    else if operstate == 2
    then some (codes "down")
    else if operstate == 3
    then some (codes "lowerlayerdown")
    else if operstate == 4
    then some (codes "testing")
    else if operstate == 5
    then some (codes "dormant")
    else if operstate == 6
    then some (codes "up")
    else if operstate == 0
    then some (codes "unknown")
    else none

unfoldable pub mode_str : ℕ → Option (List ℕ)
mode_str mode =
    if mode == 0
    then some (codes "default")
    else if mode == 1
    then some (codes "dormant")
    else if mode == 2
    then some (codes "testing")
    else none

-- `nlif_link_type_str`
unfoldable pub arphrd_str : ℕ → List ℕ
arphrd_str type =
    if type == 1
    then codes "ethernet"
    else if type == 772
    then codes "loopback"
    else if type == 0xffff
    then codes "unknown"
    else codes "unsupported"

unfoldable pub nozero_str : ℕ → List ℕ
unfolding dec_str
nozero_str uint = if uint == 0 then codes "none" else dec_str uint

-- What `nlif_link_flags_str` ends in: the text before its NUL, a call of `nlif_abort`, what C does
-- not define (a NULL name, a shift by the width of the word), or more rounds than were allowed.
pub data Text : Type 0 where
  text : List ℕ → Text
  aborted : Text
  undefined : Text
  out_of_fuel : Text

abbrev pub then_text : Text → (List ℕ → Text) → Text
then_text (text t) next = next t
then_text aborted next = aborted
then_text undefined next = undefined
then_text out_of_fuel next = out_of_fuel

abbrev pub strsz : ℕ
strsz = 256

abbrev pub comma : ℕ
comma = 44

-- `memcpy` of a name behind what the buffer holds, after the test of its room.
abbrev pub append_text : List ℕ → Option (List ℕ) → Text
append_text before none = undefined
append_text before (some src) =
    if ltb (length before + length src) strsz then text (before ++ src) else aborted

-- `ffs` is `stroll_bops_ffs`, which counts bits from 1, and `flag_text` is
-- `rt_link_ifinfo_flags_str`, which ynl generates; `none` is NULL.
module _ (ffs : ℕ → ℕ) (flag_text : ℕ → Option (List ℕ)) where
  -- The name of `1U << (fl - 1)`.
  unfoldable pub put_flag : ℕ → List ℕ → Text
  put_flag fl before =
      if ltb (fl - 1) 32 then append_text before (flag_text (2 ^ (fl - 1))) else undefined

  -- The `while` loop on what is left of the flags, of which `fl` have been shifted out.
  unfoldable pub more_flags : ℕ → ℕ → ℕ → List ℕ → Text
  unfolding put_flag
  more_flags zero flags fl dst = if flags == 0 then text dst else out_of_fuel
  more_flags (suc fuel) flags fl dst =
      if flags == 0
      then text dst
      else then_text (put_flag (fl + ffs flags) (dst ++ comma ∷ [])) (λ out.
        if ltb (ffs flags) 32
        then more_flags fuel (flags / 2 ^ ffs flags) (fl + ffs flags) out
        else undefined)

  -- A word has 32 bits, and each round shifts one out at least.
  unfoldable pub flags_str : ℕ → Text
  flags_str flags =
      if flags == 0
      then text []
      else then_text (put_flag (ffs flags) []) (λ out.
        if ltb (ffs flags) 32
        then more_flags 32 (flags / 2 ^ ffs flags) (ffs flags) out
        else undefined)
