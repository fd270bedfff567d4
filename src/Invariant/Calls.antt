-- ===== src/Invariant/Calls.antt =====
-- src/ToxTunCore.cpp: every operation but `iterate` keeps the connections sound and ends.
use mathlib.Core.Path.{subst}
use lib_tox_tun.Base.{
  ℕ, ◌+◌, ◌<◌, ◌≡◌, ◌≢◌, refl, Bool, true, false, none, List, arith, Bool-cases, inl, inr,
}
use lib_tox_tun.Errors.{
  Result, ok, err, error, thrown, out_of_range, terminated, undefined, diverged,
}
use lib_tox_tun.Data.{
  Data, PacketId, connection_request, connection_accept, connection_reject, connection_close,
  connection_reset, ip_proposal, ip_accept, ip_reject, packet_data, fragment, unnamed, lossless,
  from_tox_data, get_tox_header, get_send_tox,
}
use lib_tox_tun.Data.Ending.{from_tox_data-Ends, get_tox_header-Ends}
use lib_tox_tun.Assoc.{emplace-Keyed}
use lib_tox_tun.Assoc.Every.{emplace-Every}
use lib_tox_tun.World.{World, Env, Connection, connection_requested, deleting}
use lib_tox_tun.World.Exec.{Exec, pure, raise, lift, gets, continue, attempt, to_result, ◌>>◌}
use lib_tox_tun.Connection.{
  send_connection_request, or_close_tun, request, construct, fresh, initial_state, reset_friend,
  erase_connection,
}
use lib_tox_tun.Closing.{bare, from_packet_id-bare, send_to_tox_from-fits}
use lib_tox_tun.Handlers.{accept}
use lib_tox_tun.Core.{
  is_some, has, emplace_connection, handle_connection_request, greet, handle_packet,
  tox_packet_callback, send_request, or_erase, accept_connection, reject_connection,
  close_connection,
}
use lib_tox_tun.Invariant.{
  IsSound, Fine, Safe, Fine-continue, Safe-lift, Safe-bind, Safe-if, Safe-ok, Safe-try_catch,
  Safe-noexcept, Safe-callback, Safe-attempt,
}
use lib_tox_tun.Invariant.Closing.{Safe-reset_friend, Safe-erase_connection}
use lib_tox_tun.Invariant.Negotiating.{Safe-accept}
use lib_tox_tun.Invariant.Packets.{Safe-handle_data}

initial-alive : (env : Env) (initiate : Bool) → initial_state env initiate ≢ deleting
initial-alive env true e = absurd (cc)
initial-alive env false e = absurd (cc)

fresh-IsSound :
    (env : Env) (friend : ℕ) (initiate : Bool) (port : ℕ)
    → IsSound friend (fresh env friend initiate port)
fresh-IsSound env friend initiate port = record {
  own_key = refl;
  alive = initial-alive env initiate;
  in_range = refl;
  next_is_byte = omega arith;
  sets_keyed = tt;
  sets = tt;
}

-- What a method returned at a step of a block that returned.
pub continue-ok :
    {A B : Type 0} (r : Result A) (f : A → Exec B) (w : World) (b : B)
    → (continue r f w).0 ≡ ok b
    → (a : A) × (r ≡ ok a) × ((f a w).0 ≡ ok b)
continue-ok (ok a) f w b h = (a, refl, h)
continue-ok (err e) f w b h = absurd (cc)

pub construct-IsSound :
    (env : Env) (friend : ℕ) (initiate : Bool) (c : Connection) (w : World)
    → (construct env friend initiate w).0 ≡ ok c
    → IsSound friend c
unfolding construct
construct-IsSound env friend initiate c w h =
    let (opened, h1, h2) = continue-ok (to_result (env.open_tun (w.clock + 1))) _ _ c h in
    let (done, h3, h4) =
      continue-ok (request env initiate friend _).0 _ (request env initiate friend _).1 c h2 in
    let it : fresh env friend initiate (env.self_udp_port w.clock) ≡ c = cc (h4) in
    subst (λ x. IsSound friend x) it (fresh-IsSound env friend initiate (env.self_udp_port w.clock))

module _ (env : Env) (room : 2 < env.max_packet) where
  Safe-send_connection_request : (friend : ℕ) → Safe (send_connection_request env friend)
  unfolding send_connection_request
  Safe-send_connection_request friend =
      Safe-ok _ _ (bare connection_request) (from_packet_id-bare connection_request) (λ w v.
        let sent =
          send_to_tox_from-fits env (bare connection_request) friend none lossless w (omega arith)
            refl (unfold get_send_tox in refl) in
        elim (Bool-cases
          (env.send_status w.clock friend lossless (bare connection_request).bytes)) [
            | inl accepted ↦ rw (sent, accepted) v
            | inr refused ↦ rw (sent, refused) v
          ])

  or_close_tun-Fine :
      (friend : ℕ) (r : Result (Unit {0})) (w : World)
      → Fine r w
      → Fine (or_close_tun env friend r w).0 (or_close_tun env friend r w).1
  or_close_tun-Fine friend (ok a) w h = h
  or_close_tun-Fine friend (err (thrown e)) w h = h
  or_close_tun-Fine friend (err out_of_range) w h = h
  or_close_tun-Fine friend (err terminated) w h = h
  or_close_tun-Fine friend (err undefined) w h = h
  or_close_tun-Fine friend (err diverged) w h = h

  Safe-request : (initiate : Bool) (friend : ℕ) → Safe (request env initiate friend)
  Safe-request false friend w v = v
  Safe-request true friend w v =
      or_close_tun-Fine friend (send_connection_request env friend w).0
        (send_connection_request env friend w).1 (Safe-send_connection_request friend w v)

  Safe-construct : (friend : ℕ) (initiate : Bool) → Safe (construct env friend initiate)
  unfolding construct
  Safe-construct friend initiate w v =
      Safe-bind (attempt (env.open_tun (w.clock + 1))) _ (Safe-attempt _)
        (λ opened u v'.
          Safe-bind (request env initiate friend) _ (Safe-request initiate friend) (λ done t vt. vt)
            _ v')
        (record w { clock = w.clock + 1 + 1 }) v

  Safe-emplace_connection :
      (friend : ℕ) (initiate : Bool) → Safe (emplace_connection env friend initiate)
  unfolding emplace_connection
  Safe-emplace_connection friend initiate w v =
      Fine-continue (construct env friend initiate w).0 _ (construct env friend initiate w).1
        (Safe-construct friend initiate w v)
        (λ c built v'. (
          emplace-Keyed friend 0 c _ (omega arith) v'.0,
          emplace-Every IsSound friend c _ (construct-IsSound env friend initiate c w built) v'.1,
        ))

  Safe-handle_connection_request : (friend : ℕ) → Safe (handle_connection_request env friend)
  unfolding handle_connection_request
  Safe-handle_connection_request friend = Safe-noexcept _ (
      Safe-bind (gets (λ w. is_some w.callback_function)) _ (λ w v. v)
        (λ ready.
          Safe-if ready _ (pure tt)
            (Safe-bind _ _
              (Safe-try_catch (emplace_connection env friend false >> pure true) _
                (Safe-bind (emplace_connection env friend false) _
                  (Safe-emplace_connection friend false) (λ done w v. v))
                (Safe-bind (erase_connection env friend) _ (Safe-erase_connection env room friend)
                  (λ done.
                    Safe-bind (reset_friend env friend) (λ done. pure false)
                      (Safe-reset_friend env room friend) (λ done w v. v))))
              (λ added.
                Safe-if added _ (pure tt) (Safe-callback connection_requested friend) (λ w v. v)))
            (λ w v. v)))

  Safe-greet : (id : PacketId) (friend : ℕ) → Safe (greet env id friend)
  unfolding greet
  Safe-greet connection_request friend = Safe-handle_connection_request friend
  Safe-greet connection_reset friend = λ w v. v
  Safe-greet connection_accept friend = Safe-reset_friend env room friend
  Safe-greet connection_reject friend = Safe-reset_friend env room friend
  Safe-greet connection_close friend = Safe-reset_friend env room friend
  Safe-greet ip_proposal friend = Safe-reset_friend env room friend
  Safe-greet ip_accept friend = Safe-reset_friend env room friend
  Safe-greet ip_reject friend = Safe-reset_friend env room friend
  Safe-greet packet_data friend = Safe-reset_friend env room friend
  Safe-greet fragment friend = Safe-reset_friend env room friend
  Safe-greet (unnamed b) friend = Safe-reset_friend env room friend

  Safe-handle_packet : (d : Data) (friend : ℕ) → Safe (handle_packet env d friend)
  unfolding handle_packet
  Safe-handle_packet d friend = Safe-noexcept _ (
      Safe-bind (gets (has friend)) _ (λ w v. v)
        (λ known. Safe-if known _ _ (Safe-handle_data env room friend d) (
          Safe-bind (lift (get_tox_header d)) _ (Safe-lift _ (get_tox_header-Ends d))
            (λ id. Safe-greet id friend))))

  pub Safe-tox_packet_callback :
      (friend : ℕ) (bytes : List ℕ) → Safe (tox_packet_callback env friend bytes)
  unfolding tox_packet_callback
  Safe-tox_packet_callback friend bytes = Safe-noexcept _ (
      Safe-bind (lift (from_tox_data bytes)) _ (Safe-lift _ (from_tox_data-Ends bytes))
        (λ d. Safe-handle_packet d friend))

  pub Safe-send_request : (friend : ℕ) → Safe (send_request env friend)
  unfolding send_request
  Safe-send_request friend =
      Safe-bind (gets (has friend)) _ (λ w v. v)
        (λ known.
          Safe-if known (raise (error "You have allready an open connection to this friend")) _
            (λ w v. v) (Safe-emplace_connection friend true))

  or_erase-Fine :
      (friend : ℕ) (r : Result (Unit {0})) (w : World)
      → Fine r w
      → Fine (or_erase env friend r w).0 (or_erase env friend r w).1
  or_erase-Fine friend (ok a) w h = h
  or_erase-Fine friend (err (thrown e)) w h =
      Safe-bind (erase_connection env friend) _ (Safe-erase_connection env room friend)
        (λ done u v. v) w h
  or_erase-Fine friend (err out_of_range) w h = h
  or_erase-Fine friend (err terminated) w h = h
  or_erase-Fine friend (err undefined) w h = h
  or_erase-Fine friend (err diverged) w h = h

  pub Safe-accept_connection : (friend : ℕ) → Safe (accept_connection env friend)
  unfolding accept_connection
  Safe-accept_connection friend =
      Safe-bind (gets (has friend)) _ (λ w v. v)
        (λ known.
          Safe-if known _ (raise (error "No connection to accept from this friend"))
            (λ w v.
              or_erase-Fine friend (accept env friend w).0 (accept env friend w).1
                (Safe-accept env room friend w v))
            (λ w v. v))

  pub Safe-reject_connection : (friend : ℕ) → Safe (reject_connection env friend)
  unfolding reject_connection
  Safe-reject_connection friend = Safe-noexcept _ (Safe-erase_connection env room friend)

  pub Safe-close_connection : (friend : ℕ) → Safe (close_connection env friend)
  unfolding close_connection
  Safe-close_connection friend = Safe-noexcept _ (Safe-erase_connection env room friend)
