-- ===== src/Errors.antt =====
-- How a C++ call ends: ToxTun.hpp and ToxTunError.cpp, and what the language adds.
pub mod Ending
use Prim.Native.String.{String}
use lib_tox_tun.Base.{ℕ, Bool, true, false}

-- The arguments of `Logger::concat`, or one literal.
pub data Message : Type 0 where
  text : String → Message
  concat : String → ℕ → Message

pub record ToxTunError : Type 0 where
  pub message : Message
  pub silent : Bool

-- `out_of_range` is what `vector::at` throws. The last three are no exceptions: `terminated` is
-- `std::terminate`, `undefined` an access that C++ leaves undefined, `diverged` lack of fuel.
pub data Fault : Type 0 where
  thrown : ToxTunError → Fault
  out_of_range terminated undefined diverged : Fault

pub data Result (A : Type 0) : Type 0 where
  ok : A → Result A
  err : Fault → Result A

-- A statement list stops at its first exception.
infixl 5 ◌>>=◌ ◌>>◌
abbrev pub ◌>>=◌ : {A B : Type 0} → Result A → (A → Result B) → Result B
ok value >>= rest = rest value
err fault >>= rest = err fault

abbrev pub ◌>>◌ : {B : Type 0} → Result (Unit {0}) → Result B → Result B
first >> rest = first >>= λ done. rest

-- `ToxTunError("...")`, and a `throw` of it
abbrev pub error : String → Fault
error s = thrown (record { message = text s; silent = false })

abbrev pub throw : {A : Type 0} → String → Result A
throw s = err (error s)

-- A test that throws `fault` where it fails.
abbrev pub guard : Bool → Fault → Result (Unit {0})
guard holds fault = elim holds [ true ↦ ok tt | false ↦ err fault ]

-- An exception that leaves a `noexcept` function ends the process.
abbrev pub at_boundary : Fault → Fault
at_boundary (thrown e) = terminated
at_boundary out_of_range = terminated
at_boundary e = e

abbrev pub noexcept : {A : Type 0} → Result A → Result A
noexcept (ok a) = ok a
noexcept (err e) = err (at_boundary e)
