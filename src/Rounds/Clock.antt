-- ===== src/Rounds/Clock.antt =====
-- The rules by which a method returns and does not turn back the clock.
use lib_tox_tun.Base.{
  ℕ, ◌≤◌, ◌≡◌, ◌≢◌, refl, Bool, true, false, arith, Option-cases, inl, inr, if◌then◌else◌,
}
use lib_tox_tun.Errors
use lib_tox_tun.Errors.{
  Fault, thrown, out_of_range, terminated, undefined, diverged, Result, ok, err,
}
use lib_tox_tun.Errors.Ending.{Ends}
use lib_tox_tun.Assoc.{find}
use lib_tox_tun.World.{World, Connection}
use lib_tox_tun.World.Exec.{Exec, lift, caught, continue, this, ◌>>=◌}

-- From `w` on, the clock does not go back, and the result does not lack fuel.
abbrev pub Goes : {A : Type 0} → World → Result A × World → Type 0
Goes w done = (w.clock ≤ done.1.clock) × Ends done.0

abbrev pub Advances : {A : Type 0} → Exec A → Type 0
Advances m = (w : World) → Goes w (m w)

module _ {A : Type 0} where
  pub Goes-continue :
      {B : Type 0} (w : World) (r : Result A) (f : A → Exec B) (u : World)
      → Goes w (r, u)
      → ((a : A) → r ≡ ok a → Goes u (f a u))
      → Goes w (continue r f u)
  Goes-continue w (ok a) f u g k = let g' = k a refl in (omega (arith, g.0, g'.0), g'.1)
  Goes-continue w (err e) f u g k = g

  pub Advances-bind :
      {B : Type 0} (m : Exec A) (f : A → Exec B)
      → Advances m
      → ((a : A) → Advances (f a))
      → Advances (m >>= f)
  Advances-bind m f s k w = Goes-continue w (m w).0 f (m w).1 (s w) (λ a e. k a (m w).1)

  pub Goes-caught :
      (w : World) (r : Result A) (handler : Exec A) (u : World)
      → Goes w (r, u)
      → Advances handler
      → Goes w (caught r handler u)
  Goes-caught w (ok a) handler u g k = g
  Goes-caught w (err (thrown e)) handler u g k = let g' = k u in (omega (arith, g.0, g'.0), g'.1)
  Goes-caught w (err out_of_range) handler u g k = g
  Goes-caught w (err terminated) handler u g k = g
  Goes-caught w (err undefined) handler u g k = g
  Goes-caught w (err diverged) handler u g k = g

  pub Advances-lift : (r : Result A) → Ends r → Advances (lift r)
  Advances-lift r h w = (omega arith, h)

  pub Advances-this :
      (friend : ℕ) (f : Connection → Exec A)
      → ((c : Connection) → Advances (f c))
      → Advances (this friend >>= f)
  unfolding this
  Advances-this friend f k w = elim (Option-cases (find friend w.connections)) [
    | inl absent ↦ rw absent (omega arith, tt)
    | inr (c, h) ↦ rw h (k c w)
  ]

  pub Advances-if :
      (b : Bool) (m n : Exec A) → Advances m → Advances n → Advances (if b then m else n)
  Advances-if true m n s k = s
  Advances-if false m n s k = k

pub Ends-continue :
    {A B : Type 0} (r : Result A) (f : A → Exec B) (w : World)
    → Ends r
    → ((a : A) → Ends (f a w).0)
    → Ends (continue r f w).0
Ends-continue (ok a) f w h k = k a
Ends-continue (err e) f w h k = h

pub Ends-either :
    {A : Type 0} (b : Bool) (m n : Exec A) (w : World)
    → (b ≡ true → Ends (m w).0)
    → (b ≡ false → Ends (n w).0)
    → let chosen : Exec A = elim b [ true ↦ m | false ↦ n ] in Ends (chosen w).0
Ends-either true m n w s k = s refl
Ends-either false m n w s k = k refl

pub noexcept-diverged : {A : Type 0} (r : Result A) → Ends r → Errors.noexcept r ≢ err diverged
noexcept-diverged (ok a) h e = absurd (cc)
noexcept-diverged (err (thrown f)) h e = absurd (cc)
noexcept-diverged (err out_of_range) h e = absurd (cc)
noexcept-diverged (err terminated) h e = absurd (cc)
noexcept-diverged (err undefined) h e = absurd (cc)
noexcept-diverged (err diverged) h e = h
