-- ===== src/Invariant/Negotiating.antt =====
-- src/Connection.cpp: the handlers of the packets of the negotiation keep the connections sound.
use lib_tox_tun.Base.{ℕ, ◌<◌, ◌≡◌, ◌≢◌, refl, arith, Bool-cases, inl, inr, if◌then◌else◌}
use lib_tox_tun.Errors.{Result, thrown, out_of_range, terminated, undefined, diverged, ok, err}
use lib_tox_tun.Data.{
  Data, PacketId, lossless, connection_accept, ip_accept, ip_reject, get_send_tox, get_ip_postfix,
  get_ip_subnet, get_ip_data,
}
use lib_tox_tun.World.{
  Env, Connection, State, own_request_pending, friends_request_pending, expecting_ip_packet,
  expecting_ip_confirmation, connected, deleting, connection_accepted, connection_rejected,
  connection_closed, Event, ip_set,
}
use lib_tox_tun.World.Exec.{Exec, act, pure, this, store, callback, tick, attempt, ◌>>=◌, ◌>>◌}
use lib_tox_tun.Connection.{delete_connection, reset_and_delete_connection}
use lib_tox_tun.Handlers.{
  same_state, expect, assume_unused, set_ip, send_or_reset, handle_connection_accepted,
  handle_connection_rejected, handle_connection_closed, handle_connection_reset, answer_proposal,
  with_proposal, proposal_of, handle_ip_proposal, handle_ip_accepted, handle_ip_rejected,
  write_frame, send_to_tun, accept, to_byte_of,
}
use lib_tox_tun.Closing.{bare, from_packet_id-bare}
use lib_tox_tun.Proposal.{assume_unused-asks}
use lib_tox_tun.Errors.Ending.{Ends}
use lib_tox_tun.Data.Ending.{get_ip_postfix-Ends, get_ip_subnet-Ends, get_ip_data-Ends}
use lib_tox_tun.Invariant.{
  IsSound, Safe, Safe-lift, Safe-noexcept, Safe-try_catch, Safe-bind, Safe-this, Safe-store,
  Safe-callback, Safe-attempt, Safe-if, Safe-ok,
}
use lib_tox_tun.Invariant.Closing.{
  Safe-delete_connection, Safe-reset_and_delete, Safe-send_or_reset,
}
use lib_tox_tun.Invariant.Searching.{Safe-send_ip}

in_state :
    (friend : ℕ) (c : Connection) (state : State)
    → IsSound friend c
    → state ≢ deleting
    → IsSound friend (record c { state = state })
in_state friend c state s lives = record {
  own_key = s.own_key;
  alive = lives;
  in_range = s.in_range;
  next_is_byte = s.next_is_byte;
  sets_keyed = s.sets_keyed;
  sets = s.sets;
}

module _ (env : Env) (room : 2 < env.max_packet) where
  Safe-expect :
      (state : State) (friend : ℕ) (body : Exec (Unit {0}))
      → Safe body
      → Safe (expect env state friend body)
  unfolding expect
  Safe-expect state friend body safe = Safe-this friend _ λ c w v h s.
      elim (Bool-cases (same_state c.state state)) [
        | inl same ↦ rw same (safe w v)
        | inr other ↦ rw other (Safe-reset_and_delete env room friend w v)
      ]

  pub Safe-handle_connection_accepted : (friend : ℕ) → Safe (handle_connection_accepted env friend)
  unfolding handle_connection_accepted
  Safe-handle_connection_accepted friend = Safe-noexcept _ (
      Safe-expect own_request_pending friend _ (
        Safe-this friend _ λ c w v h s.
          Safe-bind (store friend (record c { state = expecting_ip_confirmation })) _
            (Safe-store friend _ (in_state friend c expecting_ip_confirmation s (λ e. absurd (cc))))
            (λ done. Safe-send_ip env room friend) w v))

  -- The program is told, and the connection deleted.
  Safe-tell_and_delete :
      (event : Event) (friend : ℕ)
      → Safe
          (this friend >>= λ c. callback event c.connected_friend >> delete_connection env friend)
  Safe-tell_and_delete event friend = Safe-this friend _ λ c w v h s.
      Safe-bind (callback event c.connected_friend) _ (Safe-callback event c.connected_friend)
        (λ done. Safe-delete_connection env room friend) w v

  pub Safe-handle_connection_rejected : (friend : ℕ) → Safe (handle_connection_rejected env friend)
  unfolding handle_connection_rejected
  Safe-handle_connection_rejected friend =
      Safe-noexcept _
        (Safe-expect own_request_pending friend _ (Safe-tell_and_delete connection_rejected friend))

  pub Safe-handle_connection_closed : (friend : ℕ) → Safe (handle_connection_closed env friend)
  unfolding handle_connection_closed
  Safe-handle_connection_closed friend =
      Safe-noexcept _
        (Safe-expect connected friend _ (Safe-tell_and_delete connection_closed friend))

  pub Safe-handle_connection_reset : (friend : ℕ) → Safe (handle_connection_reset env friend)
  unfolding handle_connection_reset
  Safe-handle_connection_reset friend =
      Safe-noexcept _ (Safe-tell_and_delete connection_closed friend)

  Safe-set_ip : (friend subnet postfix : ℕ) → Safe (set_ip env friend subnet postfix)
  unfolding set_ip
  Safe-set_ip friend subnet postfix = Safe-noexcept _ (
      Safe-this friend _ λ c w v h s.
        Safe-bind (store friend (record c { state = connected })) _
          (Safe-store friend _ (in_state friend c connected s (λ e. absurd (cc))))
          (λ done. Safe-callback connection_accepted c.connected_friend)
          (act (ip_set friend subnet postfix) w).1 v)

  Safe-assume_unused : (subnet : ℕ) → Safe (assume_unused env subnet)
  Safe-assume_unused subnet w v = rw (assume_unused-asks env subnet w) v

  Safe-send_bare :
      (friend : ℕ) (id : PacketId)
      → get_send_tox (bare id) ≡ ok lossless
      → Safe (send_or_reset env friend (bare id))
  Safe-send_bare friend id sends =
      Safe-send_or_reset env room friend (bare id) (omega arith) refl sends

  Safe-answer_proposal :
      (friend postfix subnet : ℕ) → Safe (answer_proposal env friend postfix subnet)
  unfolding answer_proposal
  Safe-answer_proposal friend postfix subnet =
      Safe-bind (assume_unused env subnet) _ (Safe-assume_unused subnet) (λ unused.
        Safe-if unused _ _
          (Safe-ok _ _ (bare ip_accept) (from_packet_id-bare ip_accept) (
            Safe-bind (send_or_reset env friend (bare ip_accept)) _
              (Safe-send_bare friend ip_accept (unfold get_send_tox in refl))
              (λ done. Safe-set_ip friend subnet postfix)))
          (Safe-ok _ _ (bare ip_reject) (from_packet_id-bare ip_reject)
            (Safe-send_bare friend ip_reject (unfold get_send_tox in refl))))

  Safe-with_proposal :
      (r : Result (ℕ × ℕ)) (k : ℕ → ℕ → Exec (Unit {0}))
      → Ends r
      → ((postfix subnet : ℕ) → Safe (k postfix subnet))
      → Safe (with_proposal env r k)
  Safe-with_proposal (ok (postfix, subnet)) k e s = s postfix subnet
  Safe-with_proposal (err (thrown f)) k e s = λ w v. v
  Safe-with_proposal (err out_of_range) k e s = λ w v. v
  Safe-with_proposal (err terminated) k e s = λ w v. tt
  Safe-with_proposal (err undefined) k e s = λ w v. tt
  Safe-with_proposal (err diverged) k e s = absurd e

  proposal_of-Ends : (d : Data) → Ends (proposal_of env d)
  proposal_of-Ends d =
      both (get_ip_postfix d) (get_ip_postfix-Ends d) (get_ip_subnet d) (get_ip_subnet-Ends d)
    where
      both :
          (postfix : Result ℕ)
          → Ends postfix
          → (subnet : Result ℕ) → Ends subnet
          → Ends {A = ℕ × ℕ} (elim postfix [
            | ok p ↦ elim subnet [ ok s ↦ ok (p, s) | err e ↦ err e ]
            | err e ↦ err e
          ])
      both (ok p) h (ok s) k = tt
      both (ok p) h (err e) k = k
      both (err e) h subnet k = h

  pub Safe-handle_ip_proposal : (friend : ℕ) (d : Data) → Safe (handle_ip_proposal env friend d)
  unfolding handle_ip_proposal
  Safe-handle_ip_proposal friend d = Safe-noexcept _ (
      Safe-expect expecting_ip_packet friend _ (
        Safe-with_proposal (proposal_of env d) _ (proposal_of-Ends d)
          (Safe-answer_proposal friend)))

  pub Safe-handle_ip_accepted : (friend : ℕ) → Safe (handle_ip_accepted env friend)
  unfolding handle_ip_accepted
  Safe-handle_ip_accepted friend = Safe-noexcept _ (
      Safe-expect expecting_ip_confirmation friend _
        (Safe-this friend _ λ c w v h s. Safe-set_ip friend (to_byte_of c.subnet) 1 w v))

  pub Safe-handle_ip_rejected : (friend : ℕ) → Safe (handle_ip_rejected env friend)
  unfolding handle_ip_rejected
  Safe-handle_ip_rejected friend =
      Safe-noexcept _
        (Safe-expect expecting_ip_confirmation friend _ (Safe-send_ip env room friend))

  Safe-write_frame : (friend : ℕ) (d : Data) → Safe (write_frame env friend d)
  unfolding write_frame
  Safe-write_frame friend d = Safe-this friend _ λ c w v h s.
      Safe-bind _ _ (Safe-lift (get_ip_data d) (get_ip_data-Ends d))
        (λ frame u v'.
          Safe-bind (attempt (env.write_tun u.clock frame)) _ (Safe-attempt _) (λ done u' v''. v'')
            (tick u).1 v')
        w v

  pub Safe-send_to_tun : (friend : ℕ) (d : Data) → Safe (send_to_tun env friend d)
  unfolding send_to_tun
  Safe-send_to_tun friend d = Safe-noexcept _ (
      Safe-this friend _ λ c w v h s.
        Safe-bind
          (if same_state c.state connected then pure tt else reset_and_delete_connection env friend)
          _
          (Safe-if (same_state c.state connected) _ _ (λ u v'. v')
            (Safe-reset_and_delete env room friend))
          (λ done.
            Safe-try_catch (write_frame env friend d) _ (Safe-write_frame friend d) (λ u v'. v'))
          w v)

  -- `acceptConnection` throws in any state but the one that waits for it.
  pub Safe-accept : (friend : ℕ) → Safe (accept env friend)
  unfolding accept
  Safe-accept friend = Safe-this friend _ λ c w v h s.
      Safe-if (same_state c.state friends_request_pending) _ _
        (Safe-bind (store friend (record c { state = expecting_ip_packet })) _
          (Safe-store friend _ (in_state friend c expecting_ip_packet s (λ e. absurd (cc))))
          (λ done.
            Safe-ok _ _ (bare connection_accept) (from_packet_id-bare connection_accept)
              (Safe-send_bare friend connection_accept (unfold get_send_tox in refl))))
        (λ u v'. v') w v
