-- ===== src/Method.antt =====
-- A method of a C++ class: it changes the state of its object and may throw. What was changed
-- before a throw stays changed.
use lib_tox_tun.Errors.{Fault, thrown, Result, ok, err}
use lib_tox_tun.Errors

-- A method on objects of type `S`.
abbrev pub Method : Type 0 → Type 0 → Type 0
Method S A = S → Result A × S

module _ {S : Type 0} where
  abbrev pub pure : {A : Type 0} → A → Method S A
  pure a s = (ok a, s)

  abbrev pub raise : {A : Type 0} → Fault → Method S A
  raise e s = (err e, s)

  abbrev pub lift : {A : Type 0} → Result A → Method S A
  lift r s = (r, s)

  abbrev pub gets : {A : Type 0} → (S → A) → Method S A
  gets f s = (ok (f s), s)

  abbrev pub modify : (S → S) → Method S (Unit {0})
  modify f s = (ok tt, f s)

  abbrev pub continue : {A B : Type 0} → Result A → (A → Method S B) → Method S B
  continue (ok a) f s = f a s
  continue (err e) f s = (err e, s)

  infixl 5 ◌>>=◌ ◌>>◌
  abbrev pub ◌>>=◌ : {A B : Type 0} → Method S A → (A → Method S B) → Method S B
  ◌>>=◌ m f s = continue (m s).0 f (m s).1

  abbrev pub ◌>>◌ : {B : Type 0} → Method S (Unit {0}) → Method S B → Method S B
  m >> n = m >>= λ _. n

  abbrev pub caught : {A : Type 0} → Result A → Method S A → Method S A
  caught (ok a) handler s = (ok a, s)
  caught (err (thrown e)) handler s = handler s
  caught (err e) handler s = (err e, s)

  -- `try { m } catch (ToxTunError &error) { handler }`
  abbrev pub try_catch : {A : Type 0} → Method S A → Method S A → Method S A
  try_catch m handler s = caught (m s).0 handler (m s).1

  -- A `noexcept` function: what is thrown out of it ends the process.
  abbrev pub noexcept : {A : Type 0} → Method S A → Method S A
  noexcept m s = (Errors.noexcept (m s).0, (m s).1)
