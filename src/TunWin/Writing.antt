-- ===== src/TunWin/Writing.antt =====
-- src/TunWin.cpp, `sendData`: the write requests that are kept.
use mathlib.Core.List.{reverse, reverse-reverse}
use lib_tox_tun.Base.{
  ℕ, ◌+◌, ◌≡◌, refl, ap, Bool, true, false, List, [], ◌∷◌, ◌++◌, All, Bool-cases, inl, inr,
}
use lib_tox_tun.Errors.{ok}
use lib_tox_tun.Data.{Data, get_ip_data}
use lib_tox_tun.TunWin.{TunWin, WinApi, io_pending, pop_completed, send_data}

-- The first request, if any, is not completed.
abbrev pub Stops : (ℕ → Bool) → List ℕ → Type 0
Stops completed [] = Unit {0}
Stops completed (i ∷ l) = completed i ≡ false

pop_completed-splits :
    (completed : ℕ → Bool) (l : List ℕ)
    → (popped : List ℕ) × (l ≡ popped ++ pop_completed completed l)
      × All (λ i. completed i ≡ true) popped
      × Stops completed (pop_completed completed l)
unfolding pop_completed
pop_completed-splits completed [] = ([], refl, tt, tt)
pop_completed-splits completed (i ∷ l) = elim (Bool-cases (completed i)) [
  | inl yes_it_is ↦
      let (popped, e, all, stops) = pop_completed-splits completed l in
      (i ∷ popped, rw yes_it_is (ap (λ r. i ∷ r) e), (yes_it_is, all), rw yes_it_is stops)
  | inr not_yet ↦ ([], rw not_yet, tt, rw not_yet not_yet)
]

-- A write that has to wait: from the oldest on, the write requests with the new one are those that
-- `sendData` drops, which have completed, and those that it keeps, of which the oldest has not.
pub send_data-keeps :
    (api : WinApi) (t : TunWin) (d : Data) (frame : List ℕ)
    → get_ip_data d ≡ ok frame
    → api.write_file t.clock ≡ io_pending
    → ((send_data api d t).0 ≡ ok tt)
      × ((popped : List ℕ) × (reverse (t.clock ∷ t.overlapped_write)
            ≡ popped ++ reverse (send_data api d t).1.overlapped_write)
          × All (λ i. api.write_completed (t.clock + 1) i ≡ true) popped
          × Stops
              (api.write_completed (t.clock + 1))
              (reverse (send_data api d t).1.overlapped_write))
unfolding send_data
send_data-keeps api t d frame h waits =
    let completed = api.write_completed (t.clock + 1) in
    let (popped, e, all, stops) =
      pop_completed-splits completed (reverse (t.clock ∷ t.overlapped_write)) in
    let back = reverse-reverse (pop_completed completed (reverse (t.clock ∷ t.overlapped_write))) in
    (rw (h, waits), (popped, rw (h, waits, back) e, all, rw (h, waits, back) stops))
