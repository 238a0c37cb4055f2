-- ===== src/Srplug.antt =====
-- What the daemon (src/nlifd.c) uses of sysrepo, srplug, upoll and utils, which are not part of the
-- repository. Their answers are parameters: each is a function of all requests made so far.
pub mod Laws
use nlif.Prelude.{ℕ, suc, Bool, true, false, Option, List, ◌∷◌, zero, if◌then◌else◌}
use nlif.Errno.{Result}
use nlif.World.{Request, Host, World, M, done, fault, pure, modify}

-- `sr_error_t`: the codes that the daemon names, and those that it only passes on.
pub data SrError : Type 0 where
  sr_ok not_found exists inval_arg unsupported operation_failed unauthorized time_out locked :
      SrError
  callback_shelve no_memory sys : SrError
  other : ℕ → SrError

-- `sr_change_oper_t` and `sr_event_t`
pub data ChangeOper : Type 0 where
  created modified deleted moved : ChangeOper

pub data SrEvent : Type 0 where
  update change finished abort enabled rpc : SrEvent

-- A `struct lyd_node`: the key `name` of the step `interface` of its path, its value as a Boolean
-- and as a string, and its default as a Boolean, where it has one.
pub record Node : Type 0 where
  pub key : Option (List ℕ)
  pub as_bool : Bool
  pub as_str : List ℕ
  pub dflt_as_bool : Option Bool

-- `struct srplug_change_hndlr`: the leaf's name, and what is called with the node, the operation
-- and the previous value.
pub record Handler : Type 0 where
  pub name : List ℕ
  pub run : Node → ChangeOper → Option (List ℕ) → M SrError

pub record Srplug : Type 0 where
  -- `SREPO_XPATH_SIZE`, and the negated errno of `srepo_xpath_createf` or `srepo_xpath_printf` on a
  -- path, if it fails
  pub xpath_size : ℕ
  pub on_printf : List ℕ → Result (Unit {0})
  pub on_request : List Request → Request → SrError
  -- the calls that return an `int`
  pub on_call : List Request → Request → Result (Unit {0})
  pub find_module : List ℕ → Bool
  -- the state of a feature once it was probed
  pub feature_on : List ℕ → Bool
  pub parse_bool : List ℕ → Result Bool
  -- `srplug_process_child_changes` with these handlers
  pub process_child_changes : List Handler → M SrError

unfoldable pub is_ok : SrError → Bool
is_ok sr_ok = true
is_ok not_found = false
is_ok exists = false
is_ok inval_arg = false
is_ok unsupported = false
is_ok operation_failed = false
is_ok unauthorized = false
is_ok time_out = false
is_ok locked = false
is_ok callback_shelve = false
is_ok no_memory = false
is_ok sys = false
is_ok (other e) = false

-- `if (err != SR_ERR_OK) return err;` and what follows
abbrev pub next_ok : SrError → M SrError → M SrError
next_ok e k = if is_ok e then k else pure e

abbrev pub with_host : (Host → Host) → World → World
with_host f w = record w { host = f w.host }

abbrev pub log_request : Request → World → World
log_request r = with_host λ h. record h { requests = r ∷ h.requests }

-- A path buffer is allocated, and freed.
abbrev pub new_path : M (Unit {0})
new_path = modify (with_host λ h. record h { paths = suc h.paths })

abbrev pub free_last : ℕ → World → M (Unit {0})
free_last zero w = λ _. fault
free_last (suc n) w = λ _. done tt (with_host (λ h. record h { paths = n }) w)

unfoldable pub free_path : M (Unit {0})
free_path w = free_last w.host.paths w w

module _ (P : Srplug) where
  unfoldable pub ask : Request → M SrError
  ask r w = done (P.on_request w.host.requests r) (log_request r w)
