-- ===== src/Invariant/Iterating.antt =====
-- src/ToxTunCore.cpp and src/Connection.cpp, `iterate`: the frames of the tun interface are sent,
-- and the connections stay sound.
use lib_tox_tun.Base.{
  ℕ, zero, suc, ◌/◌, Bool, true, false, Option, none, some, List, [], ◌∷◌, length, map, arith, leb,
}
use lib_tox_tun.Errors.{Result, ok}
use lib_tox_tun.Data.{SendTox, lossless, lossy, Data, get_send_tox, get_tox_data, get_tox_data_len}
use lib_tox_tun.Split.{get_splitted}
use lib_tox_tun.Tun.{from_backend, get_data}
use lib_tox_tun.World.{World, Env, Connection, connected}
use lib_tox_tun.World.Exec.{
  Exec, pure, try_catch, noexcept, to_result, store, attempt, tick, tox_send, ◌>>=◌,
}
use lib_tox_tun.Connection.{
  cannot_send, check, next_index, take_index, packets_of, send_packet, send_packets,
  send_to_tox_from, send_to_tox,
}
use lib_tox_tun.Handlers.{same_state}
use lib_tox_tun.Incoming.{next_frame, iterate_on, iterate}
use lib_tox_tun.Core.{iterate_each, iterate_all}
use lib_tox_tun.Invariant.{assign-IsValid}
use lib_tox_tun.Invariant.Lax.{
  Lax, Keeps, Lax-continue, Keeps-bind, Lax-lift, Lax-caught, Lax-noexcept, Keeps-this, Keeps-if,
  Keeps-either,
}

-- The index of the next fragments stays a byte.
Keeps-take_index : (slot : Option ℕ) → Keeps (take_index slot)
unfolding take_index store
Keeps-take_index none w v = v
Keeps-take_index (some friend) w v =
    Keeps-this friend _
      (λ c u vu h s.
        assign-IsValid friend (record c { next_fragment_index = next_index c.next_fragment_index })
          u vu
          (record {
            own_key = s.own_key;
            alive = s.alive;
            in_range = s.in_range;
            next_is_byte = ground (arith, s.next_is_byte);
            sets_keyed = s.sets_keyed;
            sets = s.sets;
          }))
      w v

Keeps-check :
    (status : Bool) (mode : SendTox) (friend : ℕ) → Keeps (check status (cannot_send mode friend))
Keeps-check true mode friend = λ w v. v
Keeps-check false lossless friend = λ w v. v
Keeps-check false lossy friend = λ w v. v

module _ (env : Env) where
  Keeps-packets_of : (d : Data) (slot : Option ℕ) → Keeps (packets_of env d slot)
  unfolding packets_of
  Keeps-packets_of d slot =
      Keeps-if (leb (get_tox_data_len d) env.max_packet) (pure (d ∷ [])) _ (λ w v. v)
        (Keeps-bind (take_index slot) _ (Keeps-take_index slot)
          (λ index w v. Lax-lift (get_splitted env.max_packet d index) w v))

  Keeps-send_packet : (friend : ℕ) (d : Data) → Keeps (send_packet env friend d)
  unfolding send_packet tox_send
  Keeps-send_packet friend d w v =
      Lax-continue (get_send_tox d) _ w (Lax-lift (get_send_tox d) w v) (λ mode v1.
        Lax-continue (get_tox_data d) _ w (Lax-lift (get_tox_data d) w v) (λ bytes v2.
          Keeps-check (env.send_status w.clock friend mode bytes) mode friend
            (tox_send env friend mode bytes w).1 v2))

  Keeps-send_packets : (friend : ℕ) (l : List Data) → Keeps (send_packets env friend l)
  unfolding send_packets
  Keeps-send_packets friend [] = λ w v. v
  Keeps-send_packets friend (d ∷ l) =
      Keeps-bind (send_packet env friend d) _ (Keeps-send_packet friend d)
        (λ done. Keeps-send_packets friend l)

  Keeps-send_to_tox : (friend : ℕ) (d : Data) → Keeps (send_to_tox env friend d)
  unfolding send_to_tox send_to_tox_from
  Keeps-send_to_tox friend d = Keeps-this friend _ λ c w v h s.
      Keeps-bind (packets_of env d (some friend)) _ (Keeps-packets_of d (some friend))
        (λ packets. Keeps-send_packets c.connected_friend packets) w v

  -- One frame is read and sent; what either throws is caught.
  abbrev forward : ℕ → Exec (Unit {0})
  forward friend = try_catch (next_frame env friend >>= λ d. send_to_tox env friend d) (pure tt)

  Keeps-forward : (friend : ℕ) → Keeps (forward friend)
  unfolding next_frame
  Keeps-forward friend w v =
      Lax-caught ((next_frame env friend >>= λ d. send_to_tox env friend d) w).0 (pure tt) _
        (Keeps-bind (next_frame env friend) _
          (Keeps-this friend _ (λ c u vu h s.
            Lax-lift (get_data c.tox_udp_port (from_backend (to_result (env.read_tun u.clock))))
              (tick u).1 vu))
          (λ d. Keeps-send_to_tox friend d) w v)
        (λ u vu. vu)

  Keeps-iterate_on : (fuel friend time : ℕ) → Keeps (iterate_on env fuel friend time)
  unfolding iterate_on
  Keeps-iterate_on zero friend time = λ w v. tt
  Keeps-iterate_on (suc fuel) friend time = Keeps-this friend _ λ c w v h s.
      Keeps-either (same_state c.state connected) _ (pure tt)
        (λ w1 v1.
          Keeps-bind (attempt (env.data_pending w1.clock)) _ (λ w2 v2. Lax-lift _ w2 v2)
            (λ pending.
              Keeps-either pending _ (pure tt)
                (λ w3 v3.
                  Keeps-either (env.elapsed_over w3.clock time) (pure tt) _ (λ w4 v4. v4)
                    (Keeps-bind (forward friend) _ (Keeps-forward friend)
                      (λ done. Keeps-iterate_on fuel friend time))
                    (tick w3).1 v3)
                (λ w3 v3. v3))
            (tick w1).1 v1)
        (λ w1 v1. v1) w v

  Keeps-iterate : (fuel friend time : ℕ) → Keeps (iterate env fuel friend time)
  unfolding iterate
  Keeps-iterate fuel friend time w v =
      Lax-noexcept (iterate_on env fuel friend time w).0 (iterate_on env fuel friend time w).1
        (Keeps-iterate_on fuel friend time w v)

  Keeps-iterate_each :
      (fuel time : ℕ) (friends : List ℕ) → Keeps (iterate_each env fuel time friends)
  unfolding iterate_each
  Keeps-iterate_each fuel time [] = λ w v. v
  Keeps-iterate_each fuel time (friend ∷ friends) =
      Keeps-bind (iterate env fuel friend time) _ (Keeps-iterate fuel friend time)
        (λ done. Keeps-iterate_each fuel time friends)

  pub Keeps-iterate_all : (fuel : ℕ) → Keeps (iterate_all env fuel)
  unfolding iterate_all
  Keeps-iterate_all fuel w v = over w.connections
    where
      over :
          (l : List (ℕ × Connection))
          → let done : Result (Unit {0}) × World = elim l [
            | [] ↦ (ok tt, w)
            | entry ∷ rest ↦
                noexcept
                  (iterate_each env fuel
                    (500 / length (entry ∷ rest))
                    (map (λ e. e.0) (entry ∷ rest)))
                  w
          ] in
            Lax done.0 done.1
      over [] = v
      over (entry ∷ rest) =
          let friends = map (λ e. e.0) (entry ∷ rest) in
          let time = 500 / length (entry ∷ rest) in
          Lax-noexcept (iterate_each env fuel time friends w).0
            (iterate_each env fuel time friends w).1 (Keeps-iterate_each fuel time friends w v)
