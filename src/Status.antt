-- ===== src/Status.antt =====
-- What the library takes from google.golang.org/grpc (packages codes and status) and from Go's
-- `error`, `any` and `context` values, none of which is code of the repository.
use grpcapi.Base.{String, Bool, true, false, ℕ, Option, none, some, ◌≡◌, ◌≢◌}

-- codes.Code
pub data Code : Type 0 where
  ok canceled unknown invalid_argument deadline_exceeded not_found already_exists : Code
  permission_denied resource_exhausted failed_precondition aborted out_of_range : Code
  unimplemented internal unavailable data_loss unauthenticated : Code
  other : ℕ → Code

abbrev pub is_ok : Code → Bool
is_ok Code.ok = true
is_ok _ = false

-- `if code == codes.OK { code = d }`
abbrev pub code_or : Code → Code → Code
code_or Code.ok d = d
code_or c d = c

-- A *status.Status, or the error that `status.Error` makes of it.
pub record Status : Type 0 where
  pub code : Code
  pub message : String

-- The types behind `any`, `error` and the values of a context, with the operations that the
-- library calls on errors. The laws are those that the grpc documentation states of `FromError`
-- and `Error`, and that an error of `fmt.Errorf` carries no status.
pub record World : Type 1 where
  -- the request message or *http.Request
  pub Request : Type 0
  -- the resource of object-level authorization
  pub Resource : Type 0
  -- Principal.Raw
  pub Raw : Type 0
  -- what else a context carries
  pub Ambient : Type 0
  -- an error that is not nil
  pub Failure : Type 0
  -- status.FromError: none where the error carries no status
  pub from_error : Failure → Option Status
  -- status.Error with a code other than OK
  pub status_error : Status → Failure
  -- fmt.Errorf of a message, its arguments dropped
  pub plain : String → Failure
  pub from_error-status_error :
      (s : Status) → s.code ≢ Code.ok → from_error (status_error s) ≡ some s
  pub from_error-plain : (m : String) → from_error (plain m) ≡ none
