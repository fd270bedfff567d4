-- ===== src/Rounds.antt =====
-- src/Connection.cpp, `iterate`: the loop over the frames that are pending.
mod Clock
use lib_tox_tun.Base.{
  ℕ, zero, suc, ◌+◌, ◌≤◌, ◌<◌, ◌≡◌, ◌≢◌, refl, Bool, true, false, Option, none, some, List, [], ◌∷◌,
  length, arith, leb, Option-cases, Bool-cases, inl, inr, if◌then◌else◌,
}
use lib_tox_tun.Errors
use lib_tox_tun.Errors.{
  Fault, thrown, out_of_range, terminated, undefined, diverged, Result, ok, err,
}
use lib_tox_tun.Errors.Ending.{Ends, EndsFault}
use lib_tox_tun.Data.{
  Data, packet_data, to_byte, SendTox, lossless, lossy, size_mod, get_send_tox, get_tox_data,
  get_tox_data_len,
}
use lib_tox_tun.Data.Frames.{from_tun_data-nil, from_tun_data-cons}
use lib_tox_tun.Data.Ending.{get_send_tox-Ends, get_tox_data-Ends}
use lib_tox_tun.Split.{get_splitted}
use lib_tox_tun.Split.Laws.{get_splitted-pieces}
use lib_tox_tun.Tun.{from_backend, get_data}
use lib_tox_tun.Tun.Ending.{get_data-Ends, get_data-ok}
use lib_tox_tun.Assoc.{find}
use lib_tox_tun.World.{World, Env, Connection, connected, Attempt, returned, failed}
use lib_tox_tun.World.Exec.{
  Exec, pure, lift, caught, try_catch, noexcept, attempt, to_result, continue, this, store, tick,
  tox_send, ◌>>=◌, ◌>>◌,
}
use lib_tox_tun.Connection.{
  cannot_send, check, take_index, packets_of, send_packet, send_packets, send_to_tox_from,
  send_to_tox,
}
use lib_tox_tun.Handlers.{same_state}
use lib_tox_tun.Incoming.{next_frame, iterate_on, iterate}
use lib_tox_tun.Rounds.Clock.{
  Goes, Advances, Goes-continue, Advances-bind, Goes-caught, Advances-lift, Advances-this,
  Advances-if, Ends-continue, Ends-either, noexcept-diverged,
}

Advances-check :
    (status : Bool) (mode : SendTox) (friend : ℕ)
    → Advances (check status (cannot_send mode friend))
Advances-check true mode friend w = (omega arith, tt)
Advances-check false lossless friend w = (omega arith, tt)
Advances-check false lossy friend w = (omega arith, tt)

Advances-take_index : (slot : Option ℕ) → Advances (take_index slot)
unfolding take_index store
Advances-take_index none w = (omega arith, tt)
Advances-take_index (some friend) w = Advances-this friend _ (λ c u. (omega arith, tt)) w

to_result-Ends : {A : Type 0} (r : Attempt A) → Ends (to_result r)
to_result-Ends (returned a) = tt
to_result-Ends (failed e) = tt

-- What was read, if anything, has a size to which five can be added.
abbrev IsSmall : Attempt (List ℕ) → Type 0
IsSmall r = (frame : List ℕ) → r ≡ returned frame → length frame + 5 < size_mod

from_backend-Ends : (r : Attempt (List ℕ)) → IsSmall r → Ends (from_backend (to_result r))
from_backend-Ends (failed e) small = tt
from_backend-Ends (returned []) small = rw from_tun_data-nil tt
from_backend-Ends (returned (b ∷ frame)) small =
    let fits = small (b ∷ frame) refl in
    rw (from_tun_data-cons (b ∷ frame) (omega arith) (omega arith)) tt

from_backend_small :
    (r : Attempt (List ℕ)) (d : Data)
    → IsSmall r
    → from_backend (to_result r) ≡ ok d
    → length d.bytes + 4 < size_mod
from_backend_small (failed e) d small h = absurd (cc (h))
from_backend_small (returned []) d small h = absurd (cc (h, from_tun_data-nil))
from_backend_small (returned (b ∷ frame)) d small h =
    let fits = small (b ∷ frame) refl in
    let is : record { bytes = to_byte packet_data ∷ (b ∷ frame); tox_header_set = true } ≡ d =
      cc (from_tun_data-cons (b ∷ frame) (omega arith) (omega arith), h) in
    rw (← is) (omega arith)

abbrev forward : Env → ℕ → Exec (Unit {0})
forward env friend = try_catch (next_frame env friend >>= λ d. send_to_tox env friend d) (pure tt)

module _ (env : Env) (big : 4 < env.max_packet) where
  Advances-packets_of :
      (d : Data) (slot : Option ℕ)
      → length d.bytes + 4 < size_mod
      → Advances (packets_of env d slot)
  unfolding packets_of
  Advances-packets_of d slot small =
      Advances-if (leb (get_tox_data_len d) env.max_packet) (pure (d ∷ [])) _
        (λ w. (omega arith, tt))
        (Advances-bind (take_index slot) _ (Advances-take_index slot) (λ index.
          Advances-lift (get_splitted env.max_packet d index) (
            let (cs, e, j, fit, few) = get_splitted-pieces env.max_packet d index big small in
            rw e tt)))

  Advances-send_packet : (friend : ℕ) (d : Data) → Advances (send_packet env friend d)
  unfolding send_packet tox_send
  Advances-send_packet friend d =
      Advances-bind (lift (get_send_tox d)) _ (Advances-lift _ (get_send_tox-Ends d)) (λ mode.
        Advances-bind (lift (get_tox_data d)) _ (Advances-lift _ (get_tox_data-Ends d)) (λ bytes.
          Advances-bind (tox_send env friend mode bytes)
            (λ status. check status (cannot_send mode friend)) (λ w. (omega arith, tt))
            (λ status. Advances-check status mode friend)))

  Advances-send_packets : (friend : ℕ) (l : List Data) → Advances (send_packets env friend l)
  unfolding send_packets
  Advances-send_packets friend [] = λ w. (omega arith, tt)
  Advances-send_packets friend (d ∷ l) =
      Advances-bind (send_packet env friend d) _ (Advances-send_packet friend d)
        (λ done. Advances-send_packets friend l)

  Advances-send_to_tox :
      (friend : ℕ) (d : Data) → length d.bytes + 4 < size_mod → Advances (send_to_tox env friend d)
  unfolding send_to_tox send_to_tox_from
  Advances-send_to_tox friend d small = Advances-this friend _ λ c.
      Advances-bind (packets_of env d (some friend)) _ (Advances-packets_of d (some friend) small)
        (λ packets. Advances-send_packets c.connected_friend packets)

  module _
      (frames : (now : ℕ) (frame : List ℕ)
        → env.read_tun now ≡ returned frame
        → length frame + 5 < size_mod) where
    -- One frame is read and sent; what either throws is caught.
    forward-Goes : (friend : ℕ) (w : World) → Goes w (forward env friend w)
    unfolding next_frame this
    forward-Goes friend w = Goes-caught w _ (pure tt) _ sent (λ u. (omega arith, tt))
      where
        sent : Goes w ((next_frame env friend >>= λ d. send_to_tox env friend d) w)
        sent = elim (Option-cases (find friend w.connections)) [
          | inl absent ↦ rw absent (omega arith, tt)
          | inr (c, h) ↦
              let backend = from_backend (to_result (env.read_tun w.clock)) in
              rw h (
                Goes-continue w (get_data c.tox_udp_port backend) _ (tick w).1
                  (
                    omega arith,
                    get_data-Ends c.tox_udp_port backend
                        (from_backend-Ends (env.read_tun w.clock) (frames w.clock)),
                  )
                  (λ d e.
                    Advances-send_to_tox friend d
                      (from_backend_small (env.read_tun w.clock) d (frames w.clock)
                        (get_data-ok c.tox_udp_port backend d e))
                      (tick w).1))
        ]

    module _ (limit time : ℕ)
        (over : (now : ℕ) → limit ≤ now → env.elapsed_over now time ≡ true) where
      early : (now : ℕ) → env.elapsed_over now time ≡ false → now < limit
      early now e = elim (Bool-cases (leb limit now)) [
        | inl late ↦
            let h : env.elapsed_over now time ≡ true = over now (ground arith) in absurd (cc (e, h))
        | inr soon ↦ ground arith
      ]

      -- The rest of a round after the clock was read.
      round-Ends :
          (fuel friend : ℕ) (u : World) (now : ℕ)
          → ((v : World)
              → u.clock ≤ v.clock
              → now < limit
              → Ends (iterate_on env fuel friend time v).0)
          → let rest : Exec (Unit {0}) = elim (env.elapsed_over now time) [
            | true ↦ pure tt
            | false ↦ forward env friend >> iterate_on env fuel friend time
          ] in
            Ends (rest u).0
      round-Ends fuel friend u now again =
          Ends-either (env.elapsed_over now time) (pure tt) _ u (λ e. tt)
            (λ e.
              let g = forward-Goes friend u in
              Ends-continue (forward env friend u).0 _ (forward env friend u).1 g.1
                (λ done. again (forward env friend u).1 g.0 (early now e)))

      iterate_on-Ends :
          (fuel friend : ℕ) (w : World)
          → 0 < fuel
          → limit < w.clock + fuel
          → Ends (iterate_on env fuel friend time w).0
      unfolding iterate_on this
      iterate_on-Ends zero friend w some_fuel enough = absurd (omega arith)
      iterate_on-Ends (suc fuel) friend w some_fuel enough =
          elim (Option-cases (find friend w.connections)) [
            | inl absent ↦ rw absent tt
            | inr (c, h) ↦ rw h (
                Ends-either (same_state c.state connected) _ (pure tt) w
                  (λ e.
                    Ends-continue (to_result (env.data_pending w.clock)) _ (tick w).1
                      (to_result-Ends (env.data_pending w.clock))
                      (λ pending.
                        Ends-either pending _ (pure tt) (tick w).1
                          (λ e.
                            round-Ends fuel friend (tick (tick w).1).1 (w.clock + 1)
                              (λ v later before.
                                iterate_on-Ends fuel friend v (omega (arith, before))
                                  (omega (arith, before, later))))
                          (λ e. tt)))
                  (λ e. tt))
          ]

      -- `iterate` of a connection ends, for any fuel above the clock `limit`, if from that clock on
      -- its time is over. Tox takes packets of more than four bytes, and the size of a frame that
      -- the tun interface returns, with five bytes added, fits into 64 bits.
      pub iterate-ends :
          (fuel friend : ℕ) (w : World)
          → limit < fuel
          → (iterate env fuel friend time w).0 ≢ err diverged
      unfolding iterate
      iterate-ends fuel friend w enough =
          noexcept-diverged (iterate_on env fuel friend time w).0
            (iterate_on-Ends fuel friend w (omega arith) (omega arith))
