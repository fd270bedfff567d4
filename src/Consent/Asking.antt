-- ===== src/Consent/Asking.antt =====
-- src/ToxTunCore.cpp: what a program sees of a friend whom it did not ask and did not accept.
use mathlib.Core.Path.{subst}
use lib_tox_tun.Base.{
  Option, none, some, ℕ, ◌<◌, ◌≡◌, ◌≢◌, refl, ◌⊎◌, inl, inr, List, [], ◌∷◌, All, arith, ◌==◌,
  Bool-cases, Option-cases,
}
use lib_tox_tun.Handshake.{then_some}
use lib_tox_tun.Errors.{Result, ok, err, thrown, out_of_range, terminated, undefined, diverged}
use lib_tox_tun.Assoc.{find}
use lib_tox_tun.Assoc.Every.{find-Every}
use lib_tox_tun.World.{World, Env, disconnected, friend_is_ringing}
use lib_tox_tun.Core.{set_callback, iterate_all, get_connection_state}
use lib_tox_tun.Handlers.{connection_state}
use lib_tox_tun.Invariant.Reached.{
  Call, packet_received, callback_changed, request_sent, request_accepted, request_rejected,
  connection_ended, perform,
}
use lib_tox_tun.Locality.{Preserves}
use lib_tox_tun.Locality.Calls.{
  tox_packet_callback-Preserves, send_request-Preserves, accept_connection-Preserves,
  reject_connection-Preserves, close_connection-Preserves,
}
use lib_tox_tun.Consent.{IsWaiting, Harmless, Unasked, Unasked-IsLocal}
use lib_tox_tun.Consent.Calls.{
  tox_packet_callback-Unasked, reject_connection-Unasked, close_connection-Unasked,
  iterate_all-Unasked,
}

-- What happens to the library: a call, or a round of `iterate`.
pub data Happening : Type 0 where
  called : (c : Call) → Happening
  iterated : (fuel : ℕ) → Happening

-- The program does not request a connection to the friend, and accepts none.
abbrev pub Aloof : ℕ → Happening → Type 0
Aloof friend (called (request_sent f)) = f ≢ friend
Aloof friend (called (request_accepted f)) = f ≢ friend
Aloof friend _ = Unit

-- After an access that is undefined, or the end of the process, there is no world.
abbrev came_back : Result (Unit {0}) × World → Option World
came_back (ok done, w) = some w
came_back (err (thrown e), w) = some w
came_back (err out_of_range, w) = some w
came_back (err terminated, w) = none
came_back (err undefined, w) = none
came_back (err diverged, w) = none

module _ (P : World → Type 0) where
  came_back-then :
      (r : Result (Unit {0})) (w w' : World) (rest : World → Option World)
      → P w
      → ((u : World) → P u → rest u ≡ some w' → P w')
      → then_some (came_back (r, w)) rest ≡ some w'
      → P w'
  came_back-then (ok done) w w' rest h k e = k w h e
  came_back-then (err (thrown x)) w w' rest h k e = k w h e
  came_back-then (err out_of_range) w w' rest h k e = k w h e
  came_back-then (err terminated) w w' rest h k e = absurd (cc)
  came_back-then (err undefined) w w' rest h k e = absurd (cc)
  came_back-then (err diverged) w w' rest h k e = absurd (cc)

module _ (env : Env) where
  -- One thing after another, as long as each gives a value or an exception back to its caller.
  abbrev pub happen : List Happening → World → Option World
  happen [] w = some w
  happen (called c ∷ rest) w = then_some (came_back (perform env c w)) (happen rest)
  happen (iterated fuel ∷ rest) w = then_some (came_back (iterate_all env fuel w)) (happen rest)

  module _ (friend : ℕ) where
    -- A call for the friend himself, or for another one.
    for_either :
        (m : ℕ → World → World) (f : ℕ)
        → ((w : World) → Unasked friend w → Unasked friend (m friend w))
        → (f ≢ friend → (w : World) → Unasked friend w → Unasked friend (m f w))
        → (w : World) → Unasked friend w
        → Unasked friend (m f w)
    for_either m f own others = elim (Bool-cases (f == friend)) [
      | inl same ↦
          let it : friend ≡ f = ground arith in
          subst (λ g. (w : World) → Unasked friend w → Unasked friend (m g w)) it own
      | inr other ↦ others (ground arith)
    ]

    perform-Unasked :
        (c : Call)
        → 0 < env.max_packet
        → Aloof friend (called c)
        → Preserves (Unasked friend) (perform env c)
    perform-Unasked (packet_received f bytes) room aloof =
        for_either (λ g w. (perform env (packet_received g bytes) w).1) f
          (tox_packet_callback-Unasked env friend bytes room)
          (λ apart.
            tox_packet_callback-Preserves env f (Unasked friend) (Unasked-IsLocal friend f apart)
              bytes)
    perform-Unasked (callback_changed function user_data) room aloof =
        λ w h. unfold set_callback in h
    perform-Unasked (request_sent f) room aloof =
        send_request-Preserves env f (Unasked friend) (Unasked-IsLocal friend f aloof)
    perform-Unasked (request_accepted f) room aloof =
        accept_connection-Preserves env f (Unasked friend) (Unasked-IsLocal friend f aloof)
    perform-Unasked (request_rejected f) room aloof =
        for_either (λ g w. (perform env (request_rejected g) w).1) f
          (reject_connection-Unasked env friend)
          (λ apart.
            reject_connection-Preserves env f (Unasked friend) (Unasked-IsLocal friend f apart))
    perform-Unasked (connection_ended f) room aloof =
        for_either (λ g w. (perform env (connection_ended g) w).1) f
          (close_connection-Unasked env friend)
          (λ apart.
            close_connection-Preserves env f (Unasked friend) (Unasked-IsLocal friend f apart))

    happen-Unasked :
        (happenings : List Happening) (w w' : World)
        → 0 < env.max_packet
        → All (Aloof friend) happenings
        → Unasked friend w
        → happen happenings w ≡ some w'
        → Unasked friend w'
    happen-Unasked [] w w' room a h e = let same : w ≡ w' = cc (e) in subst (Unasked friend) same h
    happen-Unasked (called c ∷ rest) w w' room a h e =
        came_back-then (Unasked friend) (perform env c w).0 (perform env c w).1 w' (happen rest)
          (perform-Unasked c room a.0 w h) (λ u g k. happen-Unasked rest u w' room a.1 g k) e
    happen-Unasked (iterated fuel ∷ rest) w w' room a h e =
        came_back-then (Unasked friend) (iterate_all env fuel w).0 (iterate_all env fuel w).1 w'
          (happen rest) (iterate_all-Unasked env friend fuel w h)
          (λ u g k. happen-Unasked rest u w' room a.1 g k) e

  idle-Unasked : (friend : ℕ) (w : World) → w.connections ≡ [] → w.actions ≡ [] → Unasked friend w
  idle-Unasked friend w empty idle = rw (empty, idle) (tt, tt, tt)

  pub seen :
      (friend : ℕ) (w : World)
      → Unasked friend w
      → (get_connection_state friend w ≡ disconnected)
        ⊎ (get_connection_state friend w ≡ friend_is_ringing)
  unfolding get_connection_state connection_state
  seen friend w h = elim (Option-cases (find friend w.connections)) [
    | inl absent ↦ inl (rw (absent, get_connection_state) refl)
    | inr (c, there) ↦
        let waiting = (find-Every (IsWaiting friend) friend w.connections c h.1 there).1 refl in
        inr (rw (there, get_connection_state, waiting) refl)
  ]

-- From a library with no connections that has done nothing: whatever packets arrive, from the
-- friend or from others, however often `iterate` runs and whatever the program calls, except that
-- it does not request a connection to the friend and accepts none from him, as long as every call
-- came back to its caller with a value or an exception, the friend is disconnected or ringing, no
-- address was set for him, and none of his frames was written to the host. tox takes packets of one
-- byte. A data packet of a friend who is ringing does not come back: it is undefined.
pub happen-consent :
    (env : Env) (friend : ℕ) (w w' : World) (happenings : List Happening)
    → 0 < env.max_packet
    → w.connections ≡ []
    → w.actions ≡ []
    → All (Aloof friend) happenings
    → happen env happenings w ≡ some w'
    → ((get_connection_state friend w' ≡ disconnected)
        ⊎ (get_connection_state friend w' ≡ friend_is_ringing))
      × All (Harmless friend) w'.actions
happen-consent env friend w w' happenings room empty idle aloof back =
    let kept =
      happen-Unasked env friend happenings w w' room aloof (idle-Unasked env friend w empty idle)
        back in
    (seen env friend w' kept, kept.2)
