-- ===== src/Errors/Ending.antt =====
-- Results that do not lack fuel, and what a chain of them returned on the way.
use lib_tox_tun.Base.{◌≡◌, refl, Bool, true, false, if◌then◌else◌}
use lib_tox_tun.Errors.{Fault, diverged, Result, ok, err, guard, ◌>>=◌, ◌>>◌}

abbrev pub EndsFault : Fault → Type 0
EndsFault diverged = ⊥
EndsFault _ = Unit

abbrev pub Ends : {A : Type 0} → Result A → Type 0
Ends (ok a) = Unit
Ends (err e) = EndsFault e

pub Ends-bind :
    {A B : Type 0} (r : Result A) (f : A → Result B)
    → Ends r
    → ((a : A) → Ends (f a))
    → Ends (r >>= f)
Ends-bind (ok a) f h k = k a
Ends-bind (err e) f h k = h

pub Ends-guard :
    {B : Type 0} (b : Bool) (e : Fault) (r : Result B)
    → EndsFault e
    → Ends r
    → Ends (guard b e >> r)
Ends-guard true e r h k = k
Ends-guard false e r h k = h

pub Ends-if : {B : Type 0} (b : Bool) (r q : Result B) → Ends r → Ends q → Ends (if b then r else q)
Ends-if true r q h k = h
Ends-if false r q h k = k

pub bind-ok :
    {A B : Type 0} (r : Result A) (f : A → Result B) (b : B)
    → (r >>= f) ≡ ok b
    → (a : A) × (r ≡ ok a) × (f a ≡ ok b)
bind-ok (ok a) f b h = (a, refl, h)
bind-ok (err e) f b h = absurd (cc)

pub guard-ok :
    {B : Type 0} (holds : Bool) (e : Fault) (r : Result B) (b : B)
    → (guard holds e >> r) ≡ ok b
    → (holds ≡ true) × (r ≡ ok b)
guard-ok true e r b h = (refl, h)
guard-ok false e r b h = absurd (cc)
