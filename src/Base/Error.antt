-- ===== src/Base/Error.antt =====
-- error.rs: the error type of every fallible function, and its `Result` with the `?` operator as
-- bind. Static messages are kept; a formatted message keeps its fixed text.
use Prim.Native.Nat.{ℕ}
use Prim.Native.String.{String}
use mathlib.Core.Path.{◌≡◌, refl}
use mathlib.Core.Bool.{Bool, true, false}
use mathlib.Core.Option.{Option, none, some}

-- `ExitCode`
pub data ExitCode : Type 0 where
  failure : ExitCode
  permanent_bootstrap : ExitCode

-- `EX_CONFIG`
abbrev pub ex_config : ℕ
ex_config = 78

unfoldable pub as_i32 : ExitCode → ℕ
as_i32 failure = 1
as_i32 permanent_bootstrap = ex_config

-- `LambError`. A path is its text, and an `std::io::Error` its message. `panic` stands for the
-- unwinding of a failed index, slice or division, which is no value in the source.
pub data LambError : Type 0 where
  non_restartable_bootstrap : LambError → LambError
  config : String → LambError
  validation : String → LambError
  io : String → String → LambError
  persistence_cleanup : LambError → LambError → LambError
  indeterminate_publication : LambError → LambError
  unidentified_staging_cleanup : String → LambError
  control : String → LambError
  capture : String → LambError
  daemon_fatal : String → LambError
  capture_invariant : String → LambError
  export : String → LambError
  export_invariant : String → LambError
  control_invariant : String → LambError
  panic : LambError

-- `LambError::process_exit_code`
unfoldable pub process_exit_code : LambError → ℕ
unfolding as_i32
process_exit_code (non_restartable_bootstrap source) = as_i32 permanent_bootstrap
process_exit_code _ = as_i32 failure

-- `Result<T>` of the crate: a value, or one of the errors above.
pub data Result {ℓ} (Value : Type ℓ) : Type ℓ where
  err : LambError → Result Value
  ok : Value → Result Value

-- `Option::ok_or`
abbrev pub ok_or {ℓ} : {Value : Type ℓ} → Option Value → LambError → Result Value
ok_or (some value) error = ok value
ok_or none error = err error

-- `if !test { return Err(error) }`
abbrev pub require : Bool → LambError → Result (Unit {0})
require false error = err error
require true error = ok tt

-- The `?` operator.
infixl 5 ◌>>=◌
abbrev pub ◌>>=◌ {i j} :
    {Value : Type i} {Next : Type j} → Result Value → (Value → Result Next) → Result Next
err error >>= next = err error
ok value >>= next = next value

-- What a successful chain has passed through.
pub >>=-eq-ok {i j} :
    {Value : Type i} {Next : Type j} (first : Result Value) (next : Value → Result Next)
    {result : Next}
    → (first >>= next) ≡ ok result
    → (value : Value) × (first ≡ ok value) × (next value ≡ ok result)
>>=-eq-ok (err error) next h = cc
>>=-eq-ok (ok value) next h = (value, refl, h)

-- A statement whose value is not used.
infixl 5 ◌>>◌
abbrev pub ◌>>◌ {j} : {Next : Type j} → Result (Unit {0}) → Result Next → Result Next
checked >> next = checked >>= λ _. next

-- A predicate that holds of both ends of a step that may fail, where its result is known on each.
pub each_result {i j κ} :
    {Value : Type i} {A : Type j} (P : A → Type κ) (r : Result Value) {x : LambError → A}
    {y : Value → A}
    → ((error : LambError) → r ≡ err error → P (x error))
    → ((value : Value) → r ≡ ok value → P (y value))
    → P (elim r [ err error ↦ x error | ok value ↦ y value ])
each_result P (err error) px py = px error refl
each_result P (ok value) px py = py value refl
