-- ===== src/Lifetime.antt =====
-- How a core begins and ends: src/ToxTun.cpp, the constructor and the destructor of
-- src/ToxTunCore.cpp, toxtun_new and toxtun_kill of src/ToxTunC.cpp. Each Tox instance keeps one
-- callback for the lossless packets of friends and one for the lossy ones, each with the address of
-- a core.
pub mod Live
pub mod Kill
use lib_tox_tun.Base.{
  ℕ, ◌<◌, ◌≡◌, ◌≢◌, refl, Option, none, some, List, [], ◌∷◌, All, Option-cases, inl, inr, ◌==◌,
  if◌then◌else◌,
}
use lib_tox_tun.Errors.{Message, Result, ok, err, undefined, error}
use lib_tox_tun.Errors
use lib_tox_tun.Data.{SendTox, lossless, lossy}
use lib_tox_tun.Assoc.{Keyed, find, erase, emplace, assign, find-erase_self, find-erase_ne}
use lib_tox_tun.World.{World, Env, Connection}
use lib_tox_tun.World.Exec.{Exec, pure, noexcept, ◌>>=◌, ◌>>◌}
use lib_tox_tun.Connection.{destroy}
use lib_tox_tun.Core.{tox_packet_callback}
use lib_tox_tun.CApi.{CState, toxtun_get_last_error}

-- The callbacks that each Tox instance was given, by the core in their user data, the field `tox` of
-- the core at each address, and the C interface.
pub record Process : Type 0 where
  pub lossless_to : ℕ → Option ℕ
  pub lossy_to : ℕ → Option ℕ
  pub tox_of : ℕ → ℕ
  pub c_interface : CState

abbrev pub new_core : World
new_core = record {
  connections = [];
  callback_function = none;
  callback_user_data = 0;
  clock = 0;
  actions = [];
}

-- `to` with the value `v` at `k`.
abbrev pub set_at : {V : Type 0} → ℕ → V → (ℕ → V) → ℕ → V
set_at k v to i = if i == k then v else to i

-- ToxTunCore::ToxTunCore
unfoldable pub construct_core : ℕ → ℕ → Process → Process
construct_core tox address p = record {
  lossless_to = set_at tox (some address) p.lossless_to;
  lossy_to = set_at tox (some address) p.lossy_to;
  tox_of = set_at address tox p.tox_of;
  c_interface = record p.c_interface { cores = emplace address new_core p.c_interface.cores };
}

-- ToxTun::newToxTun. `allocated` is the memory that `new` got, if any.
unfoldable pub new_tox_tun : ℕ → Option ℕ → Process → Result ℕ × Process
new_tox_tun tox none p = (err (error "Can't allocate memory"), p)
new_tox_tun tox (some address) p = (ok address, construct_core tox address p)

-- ToxTun::newToxTunNoExp
unfoldable pub new_tox_tun_no_exp : ℕ → Option ℕ → Process → Option ℕ × Process
new_tox_tun_no_exp tox none p = (none, p)
new_tox_tun_no_exp tox (some address) p = (some address, construct_core tox address p)

unfoldable pub toxtun_new : ℕ → Option ℕ → Process → Option ℕ × Process
toxtun_new tox allocated p = new_tox_tun_no_exp tox allocated p

module _ (env : Env) where
  unfoldable pub destroy_each : List (ℕ × Connection) → Exec (Unit {0})
  destroy_each [] = pure tt
  destroy_each ((friend, c) ∷ rest) = do destroy env (some c); destroy_each rest

  -- The destruction of `connections`, which the standard orders in no way: `order` is the order of
  -- the library's `std::map`.
  unfoldable pub destroy_members : (List (ℕ × Connection) → List (ℕ × Connection)) → Exec (Unit {0})
  destroy_members order w = destroy_each (order w.connections) (record w { connections = [] })

  module _ (order : List (ℕ × Connection) → List (ℕ × Connection)) where
    -- ToxTunCore::~ToxTunCore, and the memory is given back.
    unfoldable pub destroy_core : ℕ → Process → Result (Unit {0}) × Process
    destroy_core address p = elim (find address p.c_interface.cores) [
      | none ↦ (err undefined, p)
      | some w ↦ (
        (noexcept (destroy_members order) w).0,
        record {
          lossless_to = set_at (p.tox_of address) none p.lossless_to;
          lossy_to = set_at (p.tox_of address) none p.lossy_to;
          tox_of = p.tox_of;
          c_interface = record p.c_interface { cores = erase address p.c_interface.cores };
        },
      )
    ]

    -- `delete t`, which does nothing on a null pointer.
    unfoldable pub toxtun_kill : Option ℕ → Process → Result (Unit {0}) × Process
    toxtun_kill none p = (ok tt, p)
    toxtun_kill (some address) p = destroy_core address p

  abbrev pub callback_of : SendTox → ℕ → Process → Option ℕ
  callback_of lossless tox p = p.lossless_to tox
  callback_of lossy tox p = p.lossy_to tox

  -- A Tox instance hands a packet of a friend to the core whose callback it has.
  unfoldable pub hand_over : SendTox → ℕ → ℕ → List ℕ → Process → Result (Unit {0}) × Process
  hand_over mode tox friend bytes p = elim (callback_of mode tox p) [
    | none ↦ (ok tt, p)
    | some address ↦ elim (find address p.c_interface.cores) [
      | none ↦ (err undefined, p)
      | some w ↦ (
        (tox_packet_callback env friend bytes w).0,
        record p {
          c_interface = record p.c_interface {
            cores = assign address (tox_packet_callback env friend bytes w).1 p.c_interface.cores;
          };
        },
      )
    ]
  ]
