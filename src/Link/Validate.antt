-- ===== src/Link/Validate.antt =====
-- The validators of lib/link.c against the bounds that they stand for.
use nlif.Prelude.{ℕ, ◌≤◌, ◌<◌, ◌≡◌, ◌↔◌, List, length, arith}
use nlif.Errno.{ok, err, enodata, enametoolong}
use nlif.Link.{ifnamsiz, ifaliasz, validate_name}

-- A name that fits the buffer with its NUL and is not empty.
abbrev pub IsName : List ℕ → Type 0
IsName name = (0 < length name) × (length name < ifnamsiz)

abbrev pub IsAlias : List ℕ → Type 0
IsAlias alias = (0 < length alias) × (length alias < ifaliasz)

pub validate_name_ok :
    (name : List ℕ) (n : ℕ) → (validate_name name ≡ ok n) ↔ (IsName name × (n ≡ length name))
unfolding validate_name
validate_name_ok name n = ground arith

-- For any string: `nlif_link_validate_name` returns its length exactly when it is neither empty nor
-- too long for a name, ENODATA exactly when it is empty, and ENAMETOOLONG exactly when it does not
-- fit with its NUL.
pub validate_name_cases :
    (name : List ℕ)
    → ((IsName name) ↔ (validate_name name ≡ ok (length name)))
      × ((length name ≡ 0) ↔ (validate_name name ≡ err enodata))
      × ((ifnamsiz ≤ length name) ↔ (validate_name name ≡ err enametoolong))
unfolding validate_name
validate_name_cases name = ground arith
