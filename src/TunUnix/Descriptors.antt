-- ===== src/TunUnix/Descriptors.antt =====
-- src/TunUnix.cpp: the file descriptors that are opened and closed, and the requests between.
use Prim.Native.String.{String}
use lib_tox_tun.Base.{ℕ, ◌+◌, ◌≡◌, refl, Option, none, some, List, ◌∷◌, Option-cases, inl, inr}
use lib_tox_tun.Errors.{Result, ok, err, error}
use lib_tox_tun.TunUnix.{
  TunUnix, UnixApi, tun_set_iff, get_flags, set_address, set_netmask, set_mtu, set_flags,
  UnixAction, fd_opened, fd_closed, ioctl_called, ipv4_from_postfix, netmask, raised, lowered, mtu,
  construct, shutdown, destroy, set_ip,
}

module _ (api : UnixApi) (t : TunUnix) where
  -- What the constructor leaves, by the name that the system gave to the interface.
  abbrev pub constructed : ℕ → Option String → Result (Unit {0}) × TunUnix
  constructed fd (some name) = (
    ok tt,
    record t {
      fd = fd;
      name = name;
      clock = t.clock + 1 + 1;
      actions = ioctl_called (some fd) "" tun_set_iff ∷ fd_opened fd ∷ t.actions;
    },
  )
  constructed fd none = (
    err (error "ioctl failed"),
    record t {
      fd = fd;
      clock = t.clock + 1 + 1;
      actions = fd_closed fd ∷ ioctl_called (some fd) "" tun_set_iff ∷ fd_opened fd ∷ t.actions;
    },
  )

  -- The constructor throws if the device cannot be opened or set up, and closes the descriptor of
  -- a device that it opened and could not set up.
  pub construct-closes :
      (fd : ℕ)
      → api.open_tun t.clock ≡ some fd
      → construct api t ≡ constructed fd (api.interface_name (t.clock + 1))
  unfolding construct
  construct-closes fd opens = elim (Option-cases (api.interface_name (t.clock + 1))) [
    | inl refused ↦ rw (opens, refused)
    | inr (name, named) ↦ rw (opens, named)
  ]

  -- The actions between, from the latest on, if the flags could be read.
  abbrev pub flags_set : (ℕ → ℕ) → ℕ → Option ℕ → List UnixAction → List UnixAction
  flags_set change socket none actions =
      fd_closed socket ∷ ioctl_called (some socket) t.name get_flags ∷ actions
  flags_set change socket (some flags) actions =
      fd_closed socket
      ∷ ioctl_called (some socket) t.name (set_flags (change flags))
      ∷ ioctl_called (some socket) t.name get_flags
      ∷ actions

  -- `setIp` opens one socket and closes it again, whichever of its requests fail. Between, it sets
  -- the address, the netmask, the MTU, and, if the flags can be read, the flags, of the interface
  -- that the constructor made.
  pub set_ip-actions :
      (subnet postfix socket : ℕ)
      → api.socket t.clock ≡ some socket
      → ((set_ip api subnet postfix t).0 ≡ ok tt)
        × ((set_ip api subnet postfix t).1.fd ≡ t.fd)
        × ((set_ip api subnet postfix t).1.actions
            ≡ flags_set raised socket (api.flags (t.clock + 1 + 1 + 1 + 1)) (
                ioctl_called (some socket) t.name (set_mtu (mtu api.max_packet))
                ∷ ioctl_called (some socket) t.name (set_netmask (api.inet_addr netmask))
                ∷ ioctl_called
                    (some socket)
                    t.name
                    (set_address (api.inet_addr (ipv4_from_postfix subnet postfix)))
                ∷ fd_opened socket
                ∷ t.actions))
  unfolding set_ip
  set_ip-actions subnet postfix socket opens =
      elim (Option-cases (api.flags (t.clock + 1 + 1 + 1 + 1))) [
        | inl unread ↦ rw (opens, unread) (refl, refl, refl)
        | inr (flags, reads) ↦ rw (opens, reads) (refl, refl, refl)
      ]

  -- The destructor takes the interface down with one more socket, which it closes again whichever
  -- of its requests fail, and then closes the device.
  pub destroy-closes :
      (socket : ℕ)
      → api.socket t.clock ≡ some socket
      → ((destroy api t).0 ≡ ok tt)
        × ((destroy api t).1.actions
            ≡ fd_closed t.fd
              ∷ flags_set lowered socket (api.flags (t.clock + 1)) (fd_opened socket ∷ t.actions))
  unfolding destroy shutdown
  destroy-closes socket opens = elim (Option-cases (api.flags (t.clock + 1))) [
    | inl unread ↦ rw (opens, unread) (refl, refl)
    | inr (flags, reads) ↦ rw (opens, reads) (refl, refl)
  ]
