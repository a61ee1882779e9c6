-- ===== src/Exn.antt =====
-- Python exceptions as values, by the classes that the program's `except` clauses tell apart.
use indy_perf.Base.{Bool, true, false, Option, none, some, String}

-- The error codes of libindy that the program tells apart; `other_code` is any other.
pub data ErrorCode : Type 0 where
  pool_config_exists wallet_exists did_exists other_code : ErrorCode

pub data Exn : Type 0 where
  -- AnchorException, with its message, and its subclass NotReadyException
  anchor : String → Exn
  not_ready : Exn
  -- indy.error.IndyError
  indy_error : ErrorCode → Exn
  key_error : String → Exn
  index_error type_error attribute_error value_error : Exn
  -- json.JSONDecodeError, a ValueError
  decode_error : Exn
  -- sqlite3.IntegrityError, InterfaceError and OperationalError
  integrity_error interface_error operational_error : Exn
  -- OverflowError
  overflow_error : Exn
  timeout_error : Exn
  -- ZeroDivisionError
  zero_division : Exn
  -- UnboundLocalError, NameError and FileNotFoundError
  unbound_local name_error file_not_found : Exn

-- isinstance(e, AnchorException)
abbrev pub is_anchor : Exn → Bool
is_anchor (anchor m) = true
is_anchor not_ready = true
is_anchor _ = false

-- isinstance(e, ValueError)
abbrev pub is_value_error : Exn → Bool
is_value_error value_error = true
is_value_error decode_error = true
is_value_error _ = false

pub data Result (A : Type 0) : Type 0 where
  ok : A → Result A
  err : Exn → Result A

infixl 5 ◌>>=◌ ◌>>◌
abbrev pub ◌>>=◌ : {A B : Type 0} → Result A → (A → Result B) → Result B
ok a >>= f = f a
err e >>= f = err e

abbrev pub ◌>>◌ : {A B : Type 0} → Result A → Result B → Result B
m >> k = m >>= λ _. k

abbrev pub or_raise : {A : Type 0} → Option A → Exn → Result A
or_raise none e = err e
or_raise (some a) e = ok a
