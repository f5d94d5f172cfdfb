-- ===== src/Errors.antt =====
-- valuerpc/error.go, with the readers of an error's code in valueserver/serving_client.go and
-- valueclient/request.go. A code is a number, since one from the wire may be any.
use value_rpc.Prelude.{ℕ, Bool, ◌||◌, ◌==◌, if◌then◌else◌, not, Option, none, some}

abbrev pub code_ok : ℕ
code_ok = 0

abbrev pub code_unknown : ℕ
code_unknown = 1

abbrev pub code_canceled : ℕ
code_canceled = 2

abbrev pub code_invalid_argument : ℕ
code_invalid_argument = 3

abbrev pub code_deadline_exceeded : ℕ
code_deadline_exceeded = 4

abbrev pub code_not_found : ℕ
code_not_found = 5

abbrev pub code_resource_exhausted : ℕ
code_resource_exhausted = 6

abbrev pub code_unavailable : ℕ
code_unavailable = 7

abbrev pub code_unauthenticated : ℕ
code_unauthenticated = 8

abbrev pub code_internal : ℕ
code_internal = 9

-- Go's errors: what xerrors.As, xerrors.Is and == find out about one.
pub record Errors : Type 1 where
  pub Err : Type 0
  -- The code of the first *valuerpc.Error in the chain.
  pub coded : Err → Option ℕ
  -- err == context.DeadlineExceeded, and xerrors.Is of it.
  pub equals_deadline : Err → Bool
  pub is_deadline : Err → Bool
  -- err == context.Canceled, and xerrors.Is of it.
  pub equals_canceled : Err → Bool
  pub is_canceled : Err → Bool
  -- xerrors.Is of valueclient.ErrTimeoutError.
  pub is_timeout : Err → Bool

module _ (e : Errors) where
  open e use {Err, coded, equals_deadline, is_deadline, equals_canceled, is_canceled, is_timeout}

  abbrev pub code_or_unknown : Option ℕ → ℕ
  code_or_unknown none = code_unknown
  code_or_unknown (some c) = c

  unfoldable pub code_of : Option Err → ℕ
  code_of none = code_ok
  code_of (some x) = code_or_unknown (coded x)

  unfoldable pub handler_err_code : Err → ℕ
  unfolding code_of
  handler_err_code x =
      let code = code_of (some x) in
      if not (code == code_unknown)
      then code
      else if equals_deadline x
      then code_deadline_exceeded
      else if equals_canceled x
      then code_canceled
      else code_internal

  unfoldable pub metrics_code : Option Err → ℕ
  unfolding code_of
  metrics_code none = code_ok
  metrics_code (some x) =
      if is_timeout x || is_deadline x
      then code_deadline_exceeded
      else if is_canceled x
      then code_canceled
      else code_of (some x)
