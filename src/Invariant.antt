-- ===== src/Invariant.antt =====
-- src/ToxTunCore.cpp and src/Connection.cpp: what holds of the connections between two calls of the
-- library, and the rules by which the methods keep it.
pub mod Closing
pub mod Searching
pub mod Negotiating
pub mod Waiting
pub mod Packets
pub mod Calls
pub mod Lax
pub mod Iterating
pub mod Reached
use lib_tox_tun.Base.{
  ℕ, ◌≤◌, ◌<◌, ◌≡◌, length, ◌≢◌, refl, Bool, true, false, Option, none, some, List, [], ◌∷◌, All,
  if◌then◌else◌, Option-cases, inl, inr,
}
use lib_tox_tun.Errors
use lib_tox_tun.Errors.{
  Fault, thrown, out_of_range, terminated, undefined, diverged, Result, ok, err,
}
use lib_tox_tun.Errors.Ending.{EndsFault, Ends}
use lib_tox_tun.Data.{Data, is_valid_fragment, get_splitted_data_index}
use lib_tox_tun.Assoc.{Keyed, find, assign, assign-Keyed}
use lib_tox_tun.Assoc.Every.{Every, find-Every, assign-Every}
use lib_tox_tun.World.{World, Connection, State, deleting, Event, ℤ, pos, negsuc}
use lib_tox_tun.World.Exec.{
  Exec, pure, raise, lift, caught, try_catch, noexcept, attempt, to_result, continue, this, store,
  callback, ◌>>=◌, ◌>>◌,
}
use lib_tox_tun.World.{Attempt, returned, failed}

-- `subnet` between two proposals.
abbrev pub IsSubnet : ℤ → Type 0
IsSubnet (pos n) = n ≤ 255
IsSubnet (negsuc n) = n ≡ 0

-- A fragment that waits under its own index.
pub record Waits (index : ℕ) (d : Data) : Type 0 where
  pub valid : is_valid_fragment d ≡ ok true
  pub in_set : get_splitted_data_index d ≡ ok index

abbrev pub IsSetOf : ℕ → List Data → Type 0
IsSetOf index l = (0 < length l) × All (Waits index) l

-- A connection in the map of the core, under the key `friend`.
pub record IsSound (friend : ℕ) (c : Connection) : Type 0 where
  pub own_key : c.connected_friend ≡ friend
  pub alive : c.state ≢ deleting
  pub in_range : IsSubnet c.subnet
  pub next_is_byte : c.next_fragment_index ≤ 255
  pub sets_keyed : Keyed 0 c.fragments
  pub sets : Every IsSetOf c.fragments

-- Every connection is sound, and the map is in the order of its keys.
abbrev pub IsValid : World → Type 0
IsValid w = Keyed 0 w.connections × Every IsSound w.connections

-- A call leaves the connections sound, unless it ended the process or ran into undefined
-- behaviour; it never runs out of fuel.
abbrev pub FineFault : Fault → World → Type 0
FineFault (thrown e) w = IsValid w
FineFault out_of_range w = IsValid w
FineFault terminated w = Unit
FineFault undefined w = Unit
FineFault diverged w = ⊥

abbrev pub Fine : {A : Type 0} → Result A → World → Type 0
Fine (ok a) w = IsValid w
Fine (err e) w = FineFault e w

abbrev pub Safe : {A : Type 0} → Exec A → Type 0
Safe m = (w : World) → IsValid w → Fine (m w).0 (m w).1

pub Fine-noexcept : {A : Type 0} (r : Result A) (w : World) → Fine r w → Fine (Errors.noexcept r) w
Fine-noexcept (ok a) w h = h
Fine-noexcept (err (thrown e)) w h = tt
Fine-noexcept (err out_of_range) w h = tt
Fine-noexcept (err terminated) w h = h
Fine-noexcept (err undefined) w h = h
Fine-noexcept (err diverged) w h = h

pub Fine-continue :
    {A B : Type 0} (r : Result A) (f : A → Exec B) (w : World)
    → Fine r w
    → ((a : A) → r ≡ ok a → IsValid w → Fine (f a w).0 (f a w).1)
    → Fine (continue r f w).0 (continue r f w).1
Fine-continue (ok a) f w h k = k a refl h
Fine-continue (err e) f w h k = h

Fine-caught :
    {A : Type 0} (r : Result A) (handler : Exec A) (w : World)
    → Fine r w
    → Safe handler
    → Fine (caught r handler w).0 (caught r handler w).1
Fine-caught (ok a) handler w h k = h
Fine-caught (err (thrown e)) handler w h k = k w h
Fine-caught (err out_of_range) handler w h k = h
Fine-caught (err terminated) handler w h k = h
Fine-caught (err undefined) handler w h k = h
Fine-caught (err diverged) handler w h k = h

Fine-fault : (e : Fault) (w : World) → EndsFault e → IsValid w → FineFault e w
Fine-fault (thrown e) w h v = v
Fine-fault out_of_range w h v = v
Fine-fault terminated w h v = tt
Fine-fault undefined w h v = tt
Fine-fault diverged w h v = h

pub Safe-lift : {A : Type 0} (r : Result A) → Ends r → Safe (lift r)
Safe-lift (ok a) h w v = v
Safe-lift (err e) h w v = Fine-fault e w h v

module _ {A : Type 0} where
  pub Safe-noexcept : (m : Exec A) → Safe m → Safe (noexcept m)
  Safe-noexcept m s w v = Fine-noexcept (m w).0 (m w).1 (s w v)

  pub Safe-try_catch : (m handler : Exec A) → Safe m → Safe handler → Safe (try_catch m handler)
  Safe-try_catch m handler s k w v = Fine-caught (m w).0 handler (m w).1 (s w v) k

  pub Safe-bind :
      {B : Type 0} (m : Exec A) (f : A → Exec B) → Safe m → ((a : A) → Safe (f a)) → Safe (m >>= f)
  Safe-bind m f s k w v = Fine-continue (m w).0 f (m w).1 (s w v) (λ a e v'. k a (m w).1 v')

  pub Fine-if :
      (b : Bool) (m n : Exec A) (w : World)
      → (b ≡ true → Fine (m w).0 (m w).1)
      → Fine (n w).0 (n w).1
      → Fine ((if b then m else n) w).0 ((if b then m else n) w).1
  Fine-if true m n w s k = s refl
  Fine-if false m n w s k = k

  pub Safe-if : (b : Bool) (m n : Exec A) → Safe m → Safe n → Safe (if b then m else n)
  Safe-if true m n s k = s
  Safe-if false m n s k = k

  -- The rest of a block after a function that returns `b`.
  pub Safe-ok :
      {B : Type 0} (r : Result B) (f : B → Exec A) (b : B)
      → r ≡ ok b
      → Safe (f b)
      → Safe (lift r >>= f)
  Safe-ok r f b e s w v = rw e (s w v)

  pub Safe-attempt : (r : Attempt A) → Safe (attempt r)
  Safe-attempt (returned a) w v = v
  Safe-attempt (failed e) w v = v

  -- A method on a connection of the map, which is sound.
  pub Safe-this :
      (friend : ℕ) (f : Connection → Exec A)
      → ((c : Connection) (w : World)
          → IsValid w
          → find friend w.connections ≡ some c
          → IsSound friend c
          → Fine (f c w).0 (f c w).1)
      → Safe (this friend >>= f)
  unfolding this
  Safe-this friend f k w v = elim (Option-cases (find friend w.connections)) [
    | inl absent ↦ rw absent tt
    | inr (c, h) ↦ rw h (k c w v h (find-Every IsSound friend w.connections c v.1 h))
  ]

pub assign-IsValid :
    (friend : ℕ) (c : Connection) (w : World)
    → IsValid w
    → IsSound friend c
    → IsValid (record w { connections = assign friend c w.connections })
assign-IsValid friend c w v s =
    (assign-Keyed friend 0 c w.connections v.0, assign-Every IsSound friend c w.connections s v.1)

pub Safe-store : (friend : ℕ) (c : Connection) → IsSound friend c → Safe (store friend c)
unfolding store
Safe-store friend c s w v = assign-IsValid friend c w v s

pub Safe-callback : (event : Event) (friend : ℕ) → Safe (callback event friend)
unfolding callback
Safe-callback event friend w v = elim (Option-cases w.callback_function) [
  | inl unset ↦ rw (unset, callback) v
  | inr (function, set) ↦ rw (set, callback) v
]
