-- ===== src/Tests/Unix.antt =====
-- The backend for Unix, and the frames that it reads.
use lib_tox_tun.Base.{◌≡◌, refl, true, false, none, some, [], ◌∷◌, arith}
use lib_tox_tun.Errors.{ok}
use lib_tox_tun.Data.{
  to_byte, packet_data, get_tox_header, get_ip_data, get_ip_data_len, get_tox_data_len,
}
use lib_tox_tun.Data.Frames.{from_tun_data-cons, get_ip_data-from_tun_data}
use lib_tox_tun.Sockets.{other_family}
use lib_tox_tun.TunUnix.{
  TunUnix, UnixApi, set_address, set_netmask, set_mtu, fd_opened, fd_closed, ioctl_called,
  ipv4_from_postfix, raised, lowered, construct, destroy, set_ip,
}
use lib_tox_tun.TunUnix.Descriptors.{
  constructed, construct-closes, flags_set, set_ip-actions, destroy-closes,
}
use lib_tox_tun.TunUnix.Interface.{octets, octets-ipv4_from_postfix}
use lib_tox_tun.Scenario.{data_of}

-- The device has the descriptor 3 and a socket 4; the requests fail but to read the flags.
abbrev linux : UnixApi
linux = record {
  max_packet = 1373;
  open_tun = λ now. some 3;
  interface_name = λ now. none;
  socket = λ now. some 4;
  ioctl = λ now request. false;
  flags = λ now. some 0x1002;
  inet_addr = λ text. 7;
  interfaces = λ now. some (none ∷ some other_family ∷ []);
  select = λ now. none;
  read = λ now. none;
  write = λ now frame. true;
}

abbrev tap : TunUnix
tap = record { fd = 3; name = "tap0"; clock = 5; actions = [] }

construct-closes_example : construct linux tap ≡ constructed linux tap 3 none
construct-closes_example = construct-closes linux tap 3 refl

set_ip-actions_example :
    ((set_ip linux 9 1 tap).0 ≡ ok tt)
    × ((set_ip linux 9 1 tap).1.fd ≡ 3)
    × ((set_ip linux 9 1 tap).1.actions
        ≡ flags_set linux tap raised 4 (some 0x1002) (
            ioctl_called (some 4) "tap0" (set_mtu 1354)
            ∷ ioctl_called (some 4) "tap0" (set_netmask 7)
            ∷ ioctl_called (some 4) "tap0" (set_address 7)
            ∷ fd_opened 4
            ∷ []))
set_ip-actions_example = set_ip-actions linux tap 9 1 4 refl

destroy-closes_example :
    ((destroy linux tap).0 ≡ ok tt)
    × ((destroy linux tap).1.actions
        ≡ fd_closed 3 ∷ flags_set linux tap lowered 4 (some 0x1002) (fd_opened 4 ∷ []))
destroy-closes_example = destroy-closes linux tap 4 refl

octets-ipv4_from_postfix_example : octets 0 (ipv4_from_postfix 9 201) ≡ 192 ∷ 168 ∷ 9 ∷ 201 ∷ []
octets-ipv4_from_postfix_example = octets-ipv4_from_postfix 9 201 (omega arith) (omega arith)

get_ip_data-from_tun_data_example :
    (get_tox_header (data_of (200 ∷ 4 ∷ 5 ∷ [])) ≡ ok packet_data)
    × (get_ip_data (data_of (200 ∷ 4 ∷ 5 ∷ [])) ≡ ok (4 ∷ 5 ∷ []))
    × (get_ip_data_len (data_of (200 ∷ 4 ∷ 5 ∷ [])) ≡ 2)
    × (get_tox_data_len (data_of (200 ∷ 4 ∷ 5 ∷ [])) ≡ 3)
unfolding to_byte
get_ip_data-from_tun_data_example =
    get_ip_data-from_tun_data (4 ∷ 5 ∷ []) (data_of (200 ∷ 4 ∷ 5 ∷ [])) (omega arith)
      (from_tun_data-cons (4 ∷ 5 ∷ []) (omega arith) (omega arith))
