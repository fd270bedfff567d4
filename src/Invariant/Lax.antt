-- ===== src/Invariant/Lax.antt =====
-- The rules by which a method that may still be running keeps the connections sound.
use lib_tox_tun.Base.{ℕ, ◌≡◌, Bool, true, false, some, Option-cases, inl, inr, if◌then◌else◌}
use lib_tox_tun.Errors
use lib_tox_tun.Errors.{
  Fault, thrown, out_of_range, terminated, undefined, diverged, Result, ok, err,
}
use lib_tox_tun.Assoc.{find}
use lib_tox_tun.Assoc.Every.{find-Every}
use lib_tox_tun.World.{World, Connection}
use lib_tox_tun.World.Exec.{Exec, caught, continue, this, ◌>>=◌}
use lib_tox_tun.Invariant.{IsSound, IsValid}

-- A call leaves the connections sound if it goes on or throws; it may still be running.
abbrev pub LaxFault : Fault → World → Type 0
LaxFault (thrown e) w = IsValid w
LaxFault out_of_range w = IsValid w
LaxFault _ w = Unit

abbrev pub Lax : {A : Type 0} → Result A → World → Type 0
Lax (ok a) w = IsValid w
Lax (err e) w = LaxFault e w

abbrev pub Keeps : {A : Type 0} → Exec A → Type 0
Keeps m = (w : World) → IsValid w → Lax (m w).0 (m w).1

module _ {A : Type 0} where
  pub Lax-continue :
      {B : Type 0} (r : Result A) (f : A → Exec B) (w : World)
      → Lax r w
      → ((a : A) → IsValid w → Lax (f a w).0 (f a w).1)
      → Lax (continue r f w).0 (continue r f w).1
  Lax-continue (ok a) f w h k = k a h
  Lax-continue (err e) f w h k = h

  pub Keeps-bind :
      {B : Type 0} (m : Exec A) (f : A → Exec B)
      → Keeps m
      → ((a : A) → Keeps (f a))
      → Keeps (m >>= f)
  Keeps-bind m f s k w v = Lax-continue (m w).0 f (m w).1 (s w v) (λ a v'. k a (m w).1 v')

  pub Lax-lift : (r : Result A) (w : World) → IsValid w → Lax r w
  Lax-lift (ok a) w v = v
  Lax-lift (err (thrown e)) w v = v
  Lax-lift (err out_of_range) w v = v
  Lax-lift (err terminated) w v = tt
  Lax-lift (err undefined) w v = tt
  Lax-lift (err diverged) w v = tt

  pub Lax-caught :
      (r : Result A) (handler : Exec A) (w : World)
      → Lax r w
      → Keeps handler
      → Lax (caught r handler w).0 (caught r handler w).1
  Lax-caught (ok a) handler w h k = h
  Lax-caught (err (thrown e)) handler w h k = k w h
  Lax-caught (err out_of_range) handler w h k = h
  Lax-caught (err terminated) handler w h k = h
  Lax-caught (err undefined) handler w h k = h
  Lax-caught (err diverged) handler w h k = h

  pub Lax-noexcept : (r : Result A) (w : World) → Lax r w → Lax (Errors.noexcept r) w
  Lax-noexcept (ok a) w h = h
  Lax-noexcept (err (thrown e)) w h = tt
  Lax-noexcept (err out_of_range) w h = tt
  Lax-noexcept (err terminated) w h = h
  Lax-noexcept (err undefined) w h = h
  Lax-noexcept (err diverged) w h = h

  pub Keeps-this :
      (friend : ℕ) (f : Connection → Exec A)
      → ((c : Connection) (w : World)
          → IsValid w
          → find friend w.connections ≡ some c
          → IsSound friend c
          → Lax (f c w).0 (f c w).1)
      → Keeps (this friend >>= f)
  unfolding this
  Keeps-this friend f k w v = elim (Option-cases (find friend w.connections)) [
    | inl absent ↦ rw absent tt
    | inr (c, h) ↦ rw h (k c w v h (find-Every IsSound friend w.connections c v.1 h))
  ]

  pub Keeps-if : (b : Bool) (m n : Exec A) → Keeps m → Keeps n → Keeps (if b then m else n)
  Keeps-if true m n s k = s
  Keeps-if false m n s k = k

module _ {A : Type 0} where
  pub Keeps-either :
      (b : Bool) (m n : Exec A) → Keeps m → Keeps n → Keeps (elim b [ true ↦ m | false ↦ n ])
  Keeps-either true m n s k = s
  Keeps-either false m n s k = k
