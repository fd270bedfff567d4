-- ===== src/Locality.antt =====
-- src/ToxTunCore.cpp and src/Connection.cpp: a call for one friend changes the connection to that
-- friend, and nothing else of the core. `IsLocal` is what a property of the core must allow; the
-- children show that every call then keeps it.
pub mod Sending
pub mod Closing
pub mod Handling
pub mod Packets
pub mod Calls
pub mod Performing
use lib_tox_tun.Base.{
  ℕ, ◌≡◌, refl, Bool, true, false, Option, none, some, List, [], ◌∷◌, Option-cases, inl, inr,
  if◌then◌else◌,
}
use lib_tox_tun.Errors.{thrown, out_of_range, terminated, undefined, diverged, Result, ok, err}
use lib_tox_tun.Assoc.{find, erase, emplace, assign}
use lib_tox_tun.World.{World, Connection, Action, ip_set, frame_written}
use lib_tox_tun.World.Exec.{Exec, continue, caught, try_catch, this, store, callback, act, ◌>>=◌}

-- An address is set and a frame written for this friend only.
abbrev pub About : ℕ → Action → Type 0
About friend (ip_set f subnet postfix) = f ≡ friend
About friend (frame_written f frame) = f ≡ friend
About friend _ = Unit

-- What a property of the core allows to a call for `friend`.
pub record IsLocal (friend : ℕ) (P : World → Type 0) : Type 0 where
  pub after_clock : (n : ℕ) (w : World) → P w → P (record w { clock = n })
  pub after_act :
      (a : Action) (w : World) → About friend a → P w → P (record w { actions = a ∷ w.actions })
  pub own_key :
      (c : Connection) (w : World)
      → P w
      → find friend w.connections ≡ some c
      → c.connected_friend ≡ friend
  pub after_assign :
      (c : Connection) (w : World)
      → P w
      → c.connected_friend ≡ friend
      → P (record w { connections = assign friend c w.connections })
  pub after_erase : (w : World) → P w → P (record w { connections = erase friend w.connections })
  pub after_emplace :
      (c : Connection) (w : World)
      → P w
      → c.connected_friend ≡ friend
      → P (record w { connections = emplace friend c w.connections })

abbrev pub Preserves : {A : Type 0} → (World → Type 0) → Exec A → Type 0
Preserves P m = (w : World) → P w → P (m w).1

module _ {A : Type 0} (P : World → Type 0) where
  pub continue-Preserves :
      {B : Type 0} (r : Result A) (f : A → Exec B) (w : World)
      → P w
      → ((a : A) → r ≡ ok a → P (f a w).1)
      → P (continue r f w).1
  continue-Preserves (ok a) f w h k = k a refl
  continue-Preserves (err e) f w h k = h

  pub bind-Preserves :
      {B : Type 0} (m : Exec A) (f : A → Exec B)
      → Preserves P m
      → ((a : A) → Preserves P (f a))
      → Preserves P (m >>= f)
  bind-Preserves m f s k w h =
      continue-Preserves (m w).0 f (m w).1 (s w h) (λ a e. k a (m w).1 (s w h))

  caught-Preserves :
      (r : Result A) (handler : Exec A) (w : World)
      → P w
      → Preserves P handler
      → P (caught r handler w).1
  caught-Preserves (ok a) handler w h k = h
  caught-Preserves (err (thrown e)) handler w h k = k w h
  caught-Preserves (err out_of_range) handler w h k = h
  caught-Preserves (err terminated) handler w h k = h
  caught-Preserves (err undefined) handler w h k = h
  caught-Preserves (err diverged) handler w h k = h

  pub try_catch-Preserves :
      (m handler : Exec A) → Preserves P m → Preserves P handler → Preserves P (try_catch m handler)
  try_catch-Preserves m handler s k w h = caught-Preserves (m w).0 handler (m w).1 (s w h) k

  pub this-Preserves :
      (friend : ℕ) (f : Connection → Exec A)
      → ((c : Connection) (w : World) → P w → find friend w.connections ≡ some c → P (f c w).1)
      → Preserves P (this friend >>= f)
  unfolding this
  this-Preserves friend f k w h = elim (Option-cases (find friend w.connections)) [
    | inl absent ↦ rw absent h
    | inr (c, there) ↦ rw there (k c w h there)
  ]

  pub if-Preserves :
      (b : Bool) (m n : Exec A) → Preserves P m → Preserves P n → Preserves P (if b then m else n)
  if-Preserves true m n s k = s
  if-Preserves false m n s k = k

  pub either-Preserves :
      (b : Bool) (m n : Exec A)
      → Preserves P m
      → Preserves P n
      → Preserves P (elim b [ true ↦ m | false ↦ n ])
  either-Preserves true m n s k = s
  either-Preserves false m n s k = k
