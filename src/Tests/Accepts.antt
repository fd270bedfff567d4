-- ===== src/Tests/Accepts.antt =====
-- The program accepts.
use lib_tox_tun.Base.{◌≡◌, refl, arith}
use lib_tox_tun.Errors.{err, error}
use lib_tox_tun.Assoc.{find}
use lib_tox_tun.World.{connected}
use lib_tox_tun.Core.{accept_connection}
use lib_tox_tun.Lifecycle.{closed}
use lib_tox_tun.Accepting.{accept_connection-other}
use lib_tox_tun.Scenario.{calm, one_friend, with_state}

accept_connection-other_example : accept_connection calm 7 (one_friend connected) ≡ (
  err (error "Connection not on right state to accept connection request"),
  closed calm 1 connected 7 (one_friend connected),
)
unfolding find
accept_connection-other_example =
    accept_connection-other calm 7 (with_state connected) (one_friend connected) (omega arith) refl
      refl 1 refl refl
