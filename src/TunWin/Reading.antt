-- ===== src/TunWin/Reading.antt =====
-- src/TunWin.cpp: which frames `dataPending` announces and `getDataBackend` returns.
use lib_tox_tun.Base.{
  ℕ, ◌+◌, ◌≡◌, refl, Bool, true, false, length, take, drop, take-append, Bool-cases, ◌⊎◌, inl, inr,
}
use lib_tox_tun.Errors.{ok, err, error}
use lib_tox_tun.Data.{from_tun_data}
use lib_tox_tun.TunWin.{
  ReadState, idle, queued, ready, IoStatus, done, io_pending, io_failed, OverlappedStatus,
  overlapped_done, overlapped_incomplete, overlapped_failed, TunWin, WinApi, fill, set_bytes_read,
  queue_read, is_ready, data_pending, get_data_backend,
}

OverlappedStatus-cases :
    (s : OverlappedStatus)
    → (s ≡ overlapped_done) ⊎ (s ≡ overlapped_incomplete) ⊎ (s ≡ overlapped_failed)
OverlappedStatus-cases overlapped_done = inl refl
OverlappedStatus-cases overlapped_incomplete = inr (inl refl)
OverlappedStatus-cases overlapped_failed = inr (inr refl)

IoStatus-cases : (s : IoStatus) → (s ≡ done) ⊎ (s ≡ io_pending) ⊎ (s ≡ io_failed)
IoStatus-cases done = inl refl
IoStatus-cases io_pending = inr (inl refl)
IoStatus-cases io_failed = inr (inr refl)

ReadState-cases : (s : ReadState) → (s ≡ ready) ⊎ (s ≡ queued) ⊎ (s ≡ idle)
ReadState-cases ready = inl refl
ReadState-cases queued = inr (inl refl)
ReadState-cases idle = inr (inr refl)

-- The bytes that would be copied are the frame of the latest request.
abbrev pub Holds : WinApi → TunWin → Type 0
Holds api t = take t.bytes_read t.read_buffer ≡ api.frame t.overlapped_read

abbrev pub HoldsIn : WinApi → TunWin → ReadState → Type 0
HoldsIn api t ready = Holds api t
HoldsIn api t idle = Unit {0}
HoldsIn api t queued = Unit {0}

-- In the state `ready` the buffer holds the frame of the latest request.
abbrev pub IsConsistent : WinApi → TunWin → Type 0
IsConsistent api t = HoldsIn api t t.read_state

-- Windows said that the request is incomplete, of which it had said that it completed: the object
-- `t'` is in the state `ready`, with the number of bytes that `t` has.
pub record IsStale (api : WinApi) (t t' : TunWin) : Type 0 where
  pub now : ℕ
  pub incomplete : api.overlapped_result now ≡ overlapped_incomplete
  pub at_last : t'.clock ≡ now + 1
  pub in_state : t'.read_state ≡ ready
  pub bytes_kept : t'.bytes_read ≡ t.bytes_read

module _ (api : WinApi) where
  -- The object after a request that completed was taken.
  abbrev pub completed : TunWin → TunWin
  completed t = record (fill api t) {
    bytes_read = length (api.frame t.overlapped_read);
    read_state = ready;
    clock = t.clock + 1;
  }

  completed-Holds : (t : TunWin) → Holds api (completed t)
  completed-Holds t =
      take-append (length (api.frame t.overlapped_read)) (api.frame t.overlapped_read) _ refl

  queue_read-done :
      (t : TunWin)
      → api.read_file t.clock ≡ done
      → api.overlapped_result (t.clock + 1) ≡ overlapped_done
      → queue_read api t ≡ (
        ok tt,
        completed (record t { overlapped_read = t.overlapped_read + 1; clock = t.clock + 1 }),
      )
  unfolding queue_read set_bytes_read
  queue_read-done t h result = rw (h, result)

  queue_read-pending :
      (t : TunWin)
      → api.read_file t.clock ≡ io_pending
      → queue_read api t ≡ (
        ok tt,
        record t {
          overlapped_read = t.overlapped_read + 1;
          clock = t.clock + 1;
          read_state = queued;
        },
      )
  unfolding queue_read
  queue_read-pending t h = rw h

  queue_read-failed :
      (t : TunWin)
      → api.read_file t.clock ≡ io_failed
      → queue_read api t ≡ (
        err (error "ReadFile failed"),
        record t { overlapped_read = t.overlapped_read + 1; clock = t.clock + 1 },
      )
  unfolding queue_read
  queue_read-failed t h = rw h

  -- If the next read has to wait and the driver has not yet written to the buffer,
  -- `getDataBackend` returns the frame that `dataPending` announced.
  pub get_data_backend-pending :
      (t : TunWin)
      → t.read_state ≡ ready
      → Holds api t
      → api.read_file t.clock ≡ io_pending
      → api.read_early (t.clock + 1) ≡ false
      → (get_data_backend api t).0 ≡ from_tun_data (api.frame t.overlapped_read)
  unfolding get_data_backend
  get_data_backend-pending t state holds waits late =
      rw (state, queue_read-pending (record t { read_state = idle }) waits, late, holds)

  -- The object after `getDataBackend` if the next read succeeded at once.
  abbrev pub read_on : TunWin → TunWin
  read_on t =
      record (completed
        (record t { overlapped_read = t.overlapped_read + 1; clock = t.clock + 1 })) {
          clock = t.clock + 1 + 1 + 1;
        }

  get_data_backend-done :
      (t : TunWin)
      → t.read_state ≡ ready
      → api.read_file t.clock ≡ done
      → api.overlapped_result (t.clock + 1) ≡ overlapped_done
      → get_data_backend api t ≡ (from_tun_data (api.frame (t.overlapped_read + 1)), read_on t)
  unfolding get_data_backend
  get_data_backend-done t state at_once result =
      rw (state, queue_read-done (record t { read_state = idle }) at_once result)
        (rw (
          take-append (length (api.frame (t.overlapped_read + 1)))
            (api.frame (t.overlapped_read + 1))
            (drop (length (api.frame (t.overlapped_read + 1))) t.read_buffer) refl))

  -- If the next read succeeds at once and the one after it has to wait, two calls of
  -- `getDataBackend` return the same frame, that of the next read: the frame that `dataPending`
  -- had announced is lost, and the other delivered twice.
  pub get_data_backend-get_data_backend :
      (t : TunWin)
      → t.read_state ≡ ready
      → api.read_file t.clock ≡ done
      → api.overlapped_result (t.clock + 1) ≡ overlapped_done
      → api.read_file (t.clock + 1 + 1 + 1) ≡ io_pending
      → api.read_early (t.clock + 1 + 1 + 1 + 1) ≡ false
      → ((get_data_backend api t).0 ≡ from_tun_data (api.frame (t.overlapped_read + 1)))
        × ((get_data_backend api (get_data_backend api t).1).0
            ≡ from_tun_data (api.frame (t.overlapped_read + 1)))
  get_data_backend-get_data_backend t state at_once result waits late =
      let first = get_data_backend-done t state at_once result in
      (
        rw first,
        rw first (
            get_data_backend-pending (read_on t) refl
              (completed-Holds
                (record t { overlapped_read = t.overlapped_read + 1; clock = t.clock + 1 }))
              waits late),
      )

  -- `dataPending` returned `b` and left the object `t'`.
  abbrev pub Announced : TunWin → Bool → TunWin → Type 0
  Announced t b t' = (is_ready t'.read_state ≡ b) × (IsConsistent api t' ⊎ IsStale api t t')

  -- A completed read is taken while the buffer holds its frame, whatever its result.
  taken_from_queue :
      (t : TunWin) (b : Bool)
      → t.read_state ≡ queued
      → api.read_completed t.clock ≡ true
      → (data_pending api t).0 ≡ ok b
      → Announced t b (data_pending api t).1
  unfolding data_pending set_bytes_read
  taken_from_queue t b state at_last e =
      elim (OverlappedStatus-cases (api.overlapped_result (t.clock + 1))) [
        | inl result ↦
            let e' = rw (state, at_last, result) at e in
            rw (state, at_last, result)
              (cc, inl (completed-Holds (record t { clock = t.clock + 1 })))
        | inr (inl result) ↦
            let e' = rw (state, at_last, result) at e in
            rw (state, at_last, result)
              (
                cc,
                inr (record {
                  now = t.clock + 1;
                  incomplete = result;
                  at_last = refl;
                  in_state = refl;
                  bytes_kept = refl;
                }),
              )
        | inr (inr result) ↦ absurd (cc (rw (state, at_last, result) at e))
      ]

  read_at_once :
      (t : TunWin) (b : Bool)
      → t.read_state ≡ idle
      → api.read_file t.clock ≡ done
      → (data_pending api t).0 ≡ ok b
      → Announced t b (data_pending api t).1
  unfolding data_pending queue_read set_bytes_read
  read_at_once t b state at_once e =
      elim (OverlappedStatus-cases (api.overlapped_result (t.clock + 1))) [
        | inl result ↦
            let e' = rw (state, at_once, result) at e in
            rw (state, at_once, result)
              (
                cc,
                inl (
                    completed-Holds
                      (record t { overlapped_read = t.overlapped_read + 1; clock = t.clock + 1 })),
              )
        | inr (inl result) ↦
            let e' = rw (state, at_once, result) at e in
            rw (state, at_once, result)
              (
                cc,
                inr (record {
                  now = t.clock + 1;
                  incomplete = result;
                  at_last = refl;
                  in_state = refl;
                  bytes_kept = refl;
                }),
              )
        | inr (inr result) ↦ absurd (cc (rw (state, at_once, result) at e))
      ]

  -- After `dataPending` returns, the object is in the state `ready` exactly if it returned true;
  -- and in that state the buffer holds the frame of the latest request, unless
  -- GetOverlappedResult called the completed request incomplete: then the object is in the state
  -- `ready` too, but with the number of bytes of an earlier read.
  pub data_pending-IsConsistent :
      (t : TunWin) (b : Bool)
      → IsConsistent api t
      → (data_pending api t).0 ≡ ok b
      → (is_ready (data_pending api t).1.read_state ≡ b)
        × (IsConsistent api (data_pending api t).1 ⊎ IsStale api t (data_pending api t).1)
  unfolding data_pending
  data_pending-IsConsistent t b h e = elim (ReadState-cases t.read_state) [
    | inl state ↦ rw state (cc (rw state at e), inl (rw state at h))
    | inr (inl state) ↦ elim (Bool-cases (api.read_completed t.clock)) [
      | inl at_last ↦ taken_from_queue t b state at_last e
      | inr not_yet ↦ let e' = rw (state, not_yet) at e in rw (state, not_yet) (cc, inl tt)
    ]
    | inr (inr state) ↦
        let t' : TunWin = record t { read_state = idle } in
        elim (IoStatus-cases (api.read_file t.clock)) [
          | inl at_once ↦ read_at_once t b state at_once e
          | inr (inl waits) ↦
              let e' = rw (state, queue_read-pending t' waits) at e in
              rw (state, queue_read-pending t' waits) (cc, inl tt)
          | inr (inr fails) ↦ absurd (cc (rw (state, queue_read-failed t' fails) at e))
        ]
  ]
