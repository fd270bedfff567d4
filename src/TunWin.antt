-- ===== src/TunWin.antt =====
-- src/TunWin.hpp and src/TunWin.cpp, the backend for Windows: its object, the calls of the Win32
-- API, and the reading and writing of frames. Reading is what holds of the reads.
pub mod Adapter
pub mod Reading
pub mod Writing
use mathlib.Core.List.{reverse}
use lib_tox_tun.Base.{
  ℕ, ◌+◌, Bool, true, false, Option, none, some, List, [], ◌∷◌, length, take, drop, ◌++◌,
  if◌then◌else◌, ◌==◌,
}
use lib_tox_tun.Errors.{Result, ok, err, error}
use lib_tox_tun.Data.{Data, from_tun_data, get_ip_data, get_ip_data_len}
use lib_tox_tun.Method.{Method, pure, raise, lift, gets, modify, ◌>>=◌, ◌>>◌}
use Prim.Native.String.{String}

-- TunWin::ReadState
pub data ReadState : Type 0 where
  idle queued ready : ReadState

-- What `ReadFile` and `WriteFile` answer.
pub data IoStatus : Type 0 where
  done io_pending io_failed : IoStatus

-- What `GetOverlappedResult` answers.
pub data OverlappedStatus : Type 0 where
  overlapped_done overlapped_incomplete overlapped_failed : OverlappedStatus

-- What the object asked of Windows and not only for an answer.
pub data WinAction : Type 0 where
  key_opened key_closed handle_closed : WinAction
  device_opened : (guid : String) → WinAction
  media_status_set : Bool → WinAction
  ip_added : (ip netmask index : ℕ) → WinAction
  ip_deleted : (context : ℕ) → WinAction
  frame_queued : List ℕ → WinAction

-- The fields, `overlappedRead` as the number of the latest read request, `overlappedWrite` as the
-- numbers of the write requests, the newest first, and `readBuffer` by what was read into it.
pub record TunWin : Type 0 where
  pub dev_guid : String
  pub ip_api_context : ℕ
  pub read_buffer : List ℕ
  pub bytes_read : ℕ
  pub read_state : ReadState
  pub overlapped_read : ℕ
  pub overlapped_write : List ℕ
  pub ip_is_set : Bool
  pub clock : ℕ
  pub actions : List WinAction

-- The Win32 API. `frame i` is what the read request `i` reads. An answer may depend on the clock.
-- `read_early` says that the driver has written the frame of a pending request before the program
-- asked whether it completed.
pub record WinApi : Type 0 where
  pub frame : ℕ → List ℕ
  pub read_file : ℕ → IoStatus
  pub read_completed : ℕ → Bool
  pub read_early : ℕ → Bool
  pub overlapped_result : ℕ → OverlappedStatus
  pub write_file : ℕ → IoStatus
  pub write_completed : ℕ → ℕ → Bool

-- The clock before a call of the API.
abbrev pub tick : Method TunWin ℕ
tick t = (ok t.clock, record t { clock = t.clock + 1 })

abbrev pub act : WinAction → Method TunWin (Unit {0})
act a t = (ok tt, record t { actions = a ∷ t.actions })

abbrev pub get_state : Method TunWin ReadState
get_state t = (ok t.read_state, t)

abbrev pub set_state : ReadState → Method TunWin (Unit {0})
set_state state t = (ok tt, record t { read_state = state })

-- `while (!l.empty() && completed(l.back())) l.pop_back();`, on the list from its back.
pop_completed : (ℕ → Bool) → List ℕ → List ℕ
pop_completed completed [] = []
pop_completed completed (i ∷ l) =
    let rest = pop_completed completed l in if completed i then rest else i ∷ l

abbrev pub is_ready : ReadState → Bool
is_ready ready = true
is_ready _ = false

module _ (api : WinApi) where
  -- The driver wrote the frame of the latest request to the buffer.
  abbrev pub fill : TunWin → TunWin
  fill t =
      let frame = api.frame t.overlapped_read in
      record t { read_buffer = frame ++ drop (length frame) t.read_buffer }

  abbrev take_result : OverlappedStatus → Method TunWin (Unit {0})
  take_result overlapped_done t =
      (ok tt, record t { bytes_read = length (api.frame t.overlapped_read) })
  take_result overlapped_incomplete t = (ok tt, record t { read_state = queued })
  take_result overlapped_failed t = (err (error "Error while calling GetOverlappedResult"), t)

  -- TunWin::setBytesRead
  unfoldable pub set_bytes_read : Method TunWin (Unit {0})
  set_bytes_read = do now ← tick; take_result (api.overlapped_result now)

  abbrev after_read_file : IoStatus → Method TunWin (Unit {0})
  after_read_file done = do modify fill; set_bytes_read; set_state ready
  after_read_file io_pending = set_state queued
  after_read_file io_failed = raise (error "ReadFile failed")

  -- TunWin::queueRead. The OVERLAPPED is cleared and used for the next request.
  unfoldable pub queue_read : Method TunWin (Unit {0})
  queue_read = do
    modify (λ t. record t { overlapped_read = t.overlapped_read + 1 })
    now ← tick
    after_read_file (api.read_file now)

  abbrev pending_in : ReadState → Method TunWin Bool
  pending_in queued = do
    now ← tick
    if api.read_completed now
        then (do modify fill; set_bytes_read; set_state ready; pure true)
        else pure false
  pending_in idle = do queue_read; state ← get_state; pure (is_ready state)
  pending_in ready = pure true

  -- TunWin::dataPending
  unfoldable pub data_pending : Method TunWin Bool
  data_pending = do state ← get_state; pending_in state

  -- What the driver does to the buffer before the program copies it.
  abbrev race : ReadState → Bool → TunWin → TunWin
  race queued true t = fill t
  race _ _ t = t

  -- TunWin::getDataBackend. The next read is queued before the buffer is copied.
  unfoldable pub get_data_backend : Method TunWin Data
  get_data_backend = do
    state ← get_state
    if is_ready state
        then (do
          set_state idle
          queue_read
          now ← tick
          modify (λ t. race t.read_state (api.read_early now) t)
          bytes ← gets (λ t. take t.bytes_read t.read_buffer)
          lift (from_tun_data bytes))
        else raise (error "Wrong readState in getData")

  abbrev pop_front : List ℕ → List ℕ
  pop_front [] = []
  pop_front (i ∷ l) = l

  abbrev after_write_file : IoStatus → Method TunWin (Unit {0})
  after_write_file done = modify (λ t. record t { overlapped_write = pop_front t.overlapped_write })
  after_write_file io_pending = pure tt
  after_write_file io_failed = raise (error "Writing to tun failed")

  -- TunWin::sendData. A write request is named by the clock.
  unfoldable pub send_data : Data → Method TunWin (Unit {0})
  unfolding pop_completed
  send_data d = do
    modify (λ t. record t { overlapped_write = t.clock ∷ t.overlapped_write })
    frame ← lift (get_ip_data d)
    now ← tick
    act (frame_queued (take (get_ip_data_len d) frame))
    after_write_file (api.write_file now)
    now ← tick
    modify (λ t. record t {
      overlapped_write =
          reverse (pop_completed (api.write_completed now) (reverse t.overlapped_write));
    })
