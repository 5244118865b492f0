-- ===== src/Errors.antt =====
-- gateway/src/mmws_gateway/errors.py: the errors of the protocol layer, and the result of a
-- call that may raise. Messages are left out.
use rise_sun.Common.{ℕ, Bool, true, false, Option, none, some, List}

-- The class of a `GatewayError`, which its `code` attribute tells.
pub data ErrorCode : Type 0 where
  gateway_error timeout auth_failed connection_lost crc_error addressing_error no_connection_yet :
      ErrorCode

pub record GatewayError : Type 0 where
  pub code : ErrorCode
  pub is_partial : Bool
  pub raw_frame : Option (List ℕ)

-- What Python code of the gateway can raise: an error of `errors.py`, `DlmsDataError` of
-- `datatypes.py`, or a built-in exception. `out_of_fuel` is no exception: a loop of the model
-- stopped before the program's loop would.
pub data Error : Type 0 where
  raised : GatewayError → Error
  dlms_data_error value_error unicode_error overflow_error index_error assertion_error : Error
  out_of_fuel : Error

pub data Result {ℓ} (A : Type ℓ) : Type ℓ where
  err : Error → Result A
  ok : A → Result A

-- The next call, unless this one raises.
module _ {ℓ κ} {A : Type ℓ} {B : Type κ} where
  infixl 5 ◌>>=◌
  abbrev pub ◌>>=◌ : Result A → (A → Result B) → Result B
  err raised_error >>= next = err raised_error
  ok value >>= next = next value

infixl 5 ◌>>◌
abbrev pub ◌>>◌ {ℓ} : {B : Type ℓ} → Result (Unit {0}) → Result B → Result B
first >> second = first >>= λ _. second

-- The error that `SomeError(message)` makes, and the same with `raw_frame=`.
abbrev pub plain : ErrorCode → Error
plain c = raised (record { code = c; is_partial = false; raw_frame = none })

abbrev pub with_raw : ErrorCode → List ℕ → Error
with_raw c raw = raised (record { code = c; is_partial = false; raw_frame = some raw })

-- `raise SomeError(message)`.
abbrev pub fail {ℓ} : {A : Type ℓ} → ErrorCode → Result A
fail c = err (plain c)

abbrev pub fail_raw {ℓ} : {A : Type ℓ} → ErrorCode → List ℕ → Result A
fail_raw c raw = err (with_raw c raw)

-- `if not b: raise e`.
abbrev pub guard : Bool → Error → Result (Unit {0})
guard true e = ok tt
guard false e = err e
