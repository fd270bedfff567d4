-- ===== src/Proposal/Search.antt =====
-- The loop of `sendIp`.
use lib_tox_tun.Base.{
  ℕ, zero, suc, ◌+◌, ◌%◌, ◌≤◌, ◌<◌, ◌≡◌, refl, Bool, true, false, some, List, arith, ◌==◌, ◌⊎◌,
  if◌then◌else◌, Bool-cases, inl, inr,
}
use lib_tox_tun.Errors.{ToxTunError, ok}
use lib_tox_tun.Tun.{Address, none_in_subnet, is_addrspace_unused}
use lib_tox_tun.Assoc.{find, assign, assign-assign, find-assign_self}
use lib_tox_tun.World.{World, Env, Connection, ℤ, pos, Attempt, returned, failed}
use lib_tox_tun.World.Exec.{◌>>◌, pure, this, store}
use lib_tox_tun.Connection.{reset_and_delete_connection}
use lib_tox_tun.Handlers.{incr, to_byte_of, is_256, addrspace_unused, assume_unused, search_subnet}
use lib_tox_tun.Closing.{after_reset, reset_and_delete-ok}

module _ (env : Env) where
  -- Whether `sendIp` takes the subnet for unused when it asks at the clock `now`.
  abbrev taken_for_unused : Attempt (List Address) → ℕ → Bool
  taken_for_unused (returned used) subnet = none_in_subnet subnet used
  taken_for_unused (failed e) subnet = true

  abbrev pub free_at : ℕ → ℕ → Bool
  free_at now subnet = taken_for_unused (env.used_addresses now) subnet

  Attempt-cases :
      {A : Type 0} (r : Attempt A)
      → ((a : A) × (r ≡ returned a)) ⊎ ((e : ToxTunError) × (r ≡ failed e))
  Attempt-cases (returned a) = inl (a, refl)
  Attempt-cases (failed e) = inr (e, refl)

  pub assume_unused-asks :
      (subnet : ℕ) (w : World)
      → assume_unused env subnet w ≡ (ok (free_at w.clock subnet), record w { clock = w.clock + 1 })
  unfolding assume_unused addrspace_unused is_addrspace_unused
  assume_unused-asks subnet w = elim (Attempt-cases (env.used_addresses w.clock)) [
    | inl (used, e) ↦ rw e
    | inr (e, h) ↦ rw h
  ]

  module _ (friend : ℕ) (c : Connection) (w : World) (h : find friend w.connections ≡ some c) where
    -- The world when the search stands at `subnet`, after `n` questions.
    abbrev pub tried : ℤ → ℕ → World
    tried subnet n = record w {
      connections = assign friend (record c { subnet = subnet }) w.connections;
      clock = w.clock + n;
    }

    pub search_subnet-step :
        (fuel : ℕ) (z : ℤ) (n : ℕ)
        → is_256 (incr z) ≡ false
        → search_subnet env (suc fuel) friend (tried z n) ≡ (
            if free_at (w.clock + n) (to_byte_of (incr z))
            then (ok true, tried (incr z) (n + 1))
            else search_subnet env fuel friend (tried (incr z) (n + 1)))
    unfolding search_subnet this store
    search_subnet-step fuel z n inside =
        let kept = find-assign_self friend (record c { subnet = z }) c w.connections h in
        let now : (w.clock + n) + 1 ≡ w.clock + (n + 1) = omega arith in
        rw (kept, inside)
          (rw
            (
              assign-assign friend (record c { subnet = incr z }) (record c { subnet = z })
                  w.connections,
              assume_unused-asks (to_byte_of (incr z)) (record (tried z n) {
                connections = assign friend (record c { subnet = incr z }) w.connections;
              }),
              now,
            )
            (elim (Bool-cases (free_at (w.clock + n) (to_byte_of (incr z)))) [
              | inl free ↦ rw free
              | inr used ↦ rw used
            ]))

    search_subnet-at :
        (fuel : ℕ) (z : ℤ) (n s : ℕ)
        → incr z ≡ pos s
        → s ≤ 255
        → search_subnet env (suc fuel) friend (tried z n) ≡ (
            if free_at (w.clock + n) s
            then (ok true, tried (pos s) (n + 1))
            else search_subnet env fuel friend (tried (pos s) (n + 1)))
    search_subnet-at fuel z n s at inside =
        let small : s % 256 ≡ s = omega arith in
        let not_256 : (s == 256) ≡ false = ground arith in
        rw (search_subnet-step fuel z n (rw at not_256), at) (rw small)

    -- From `s` on, `k` subnets are used when they are asked for, one after another.
    abbrev pub AllUsed : ℕ → ℕ → ℕ → Type 0
    AllUsed n s k = (i : ℕ) → i < k → free_at (w.clock + (n + i)) (s + i) ≡ false

    AllUsed-tail : (n s k : ℕ) → AllUsed n s (suc k) → AllUsed (n + 1) (s + 1) k
    AllUsed-tail n s k used i below =
        let a : n + 1 + i ≡ n + (i + 1) = omega arith in
        let b : s + 1 + i ≡ s + (i + 1) = omega arith in rw (a, b) (used (i + 1) (omega arith))

    used_now : (n s k : ℕ) → AllUsed n s (suc k) → free_at (w.clock + n) s ≡ false
    used_now n s k used =
        let a : n + 0 ≡ n = omega arith in
        let b : s + 0 ≡ s = omega arith in rw (a, b) at (used 0 (omega arith))

    -- At 256 the search gives up, whether the answer to its last question was yes or no.
    pub search_subnet-over :
        (fuel : ℕ) (z : ℤ) (n : ℕ)
        → incr z ≡ pos 256
        → search_subnet env (suc fuel) friend (tried z n)
          ≡ (reset_and_delete_connection env friend >> pure false) (tried (pos 256) (n + 1))
    unfolding search_subnet this store
    search_subnet-over fuel z n at =
        let kept = find-assign_self friend (record c { subnet = z }) c w.connections h in
        let now : (w.clock + n) + 1 ≡ w.clock + (n + 1) = omega arith in
        rw (kept, at)
          (rw (
            assign-assign friend (record c { subnet = pos 256 }) (record c { subnet = z })
                w.connections,
            assume_unused-asks 0 (record (tried z n) {
              connections = assign friend (record c { subnet = pos 256 }) w.connections;
            }),
            now,
          ))

    search_subnet-last :
        (function fuel : ℕ) (z : ℤ) (n : ℕ)
        → incr z ≡ pos 256
        → c.connected_friend ≡ friend
        → w.callback_function ≡ some function
        → 0 < env.max_packet
        → search_subnet env (suc fuel) friend (tried z n)
          ≡ (ok false, after_reset env function friend (tried (pos 256) (n + 1)))
    search_subnet-last function fuel z n at named set room =
        let there = find-assign_self friend (record c { subnet = pos 256 }) c w.connections h in
        rw (
          search_subnet-over fuel z n at,
          reset_and_delete-ok env friend (record c { subnet = pos 256 }) function
              (tried (pos 256) (n + 1)) there named set room,
        )

    pub search_subnet-finds :
        (fuel : ℕ) (z : ℤ) (n s k : ℕ)
        → incr z ≡ pos s
        → k < fuel
        → s + k ≤ 255
        → AllUsed n s k
        → free_at (w.clock + (n + k)) (s + k) ≡ true
        → search_subnet env fuel friend (tried z n) ≡ (ok true, tried (pos (s + k)) (n + k + 1))
    search_subnet-finds zero z n s k at enough inside used free = absurd (omega arith)
    search_subnet-finds (suc fuel) z n s zero at enough inside used free =
        let a : n + 0 ≡ n = omega arith in
        let b : s + 0 ≡ s = omega arith in
        rw (search_subnet-at fuel z n s at (omega arith), a, b, rw (a, b) at free)
    search_subnet-finds (suc fuel) z n s (suc k) at enough inside used free =
        let a : n + suc k ≡ n + 1 + k = omega arith in
        let b : s + suc k ≡ s + 1 + k = omega arith in
        rw (search_subnet-at fuel z n s at (omega arith), used_now n s k used, a, b)
          (search_subnet-finds fuel (pos s) (n + 1) (s + 1) k refl (omega arith) (omega arith)
            (AllUsed-tail n s k used) (rw (a, b) at free))

    pub search_subnet-exhausted :
        (function fuel : ℕ) (z : ℤ) (n s k : ℕ)
        → incr z ≡ pos s
        → k < fuel
        → s + k ≡ 256
        → AllUsed n s k
        → c.connected_friend ≡ friend
        → w.callback_function ≡ some function
        → 0 < env.max_packet
        → search_subnet env fuel friend (tried z n)
          ≡ (ok false, after_reset env function friend (tried (pos 256) (n + k + 1)))
    search_subnet-exhausted function zero z n s k at enough last used named set room =
        absurd (omega arith)
    search_subnet-exhausted function (suc fuel) z n s zero at enough last used named set room =
        let a : n + 0 ≡ n = omega arith in
        let b : s ≡ 256 = omega arith in
        rw a (search_subnet-last function fuel z n (rw b at at) named set room)
    search_subnet-exhausted function (suc fuel) z n s (suc k) at enough last used named set room =
        let a : n + suc k ≡ n + 1 + k = omega arith in
        rw (search_subnet-at fuel z n s at (omega arith), used_now n s k used, a)
          (search_subnet-exhausted function fuel (pos s) (n + 1) (s + 1) k refl (omega arith)
            (omega arith) (AllUsed-tail n s k used) named set room)
