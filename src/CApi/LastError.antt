-- ===== src/CApi/LastError.antt =====
-- src/ToxTunC.cpp: the error of a handle is kept until it is asked for.
use lib_tox_tun.Base.{ℕ, ◌≡◌, false, some, List, arith, eq_self, Bool, Option-cases, inl, inr}
use lib_tox_tun.Errors.{Message, text, ToxTunError, Result, ok, err, thrown}
use lib_tox_tun.Assoc.{
  Keyed, find, find-emplace, find-erase_self, find-assign_self, emplace-Keyed, assign-Keyed,
}
use lib_tox_tun.World.{World, Env}
use lib_tox_tun.Core.{send_request}
use lib_tox_tun.CApi.{CState, put, on_core, toxtun_send_connection_request, toxtun_get_last_error}

find-put : (k : ℕ) (v : Message) (m : List (ℕ × Message)) → Keyed 0 m → find k (put k v m) ≡ some v
unfolding put
find-put k v m s = elim (Option-cases (find k m)) [
  | inl new ↦ rw (new, put) (rw (find-emplace k k 0 v m s new, eq_self k))
  | inr (u, old) ↦ rw (old, put) (find-assign_self k v u m old)
]

put-Keyed : (k : ℕ) (v : Message) (m : List (ℕ × Message)) → Keyed 0 m → Keyed 0 (put k v m)
unfolding put
put-Keyed k v m s = elim (Option-cases (find k m)) [
  | inl new ↦ rw (new, put) (emplace-Keyed k 0 v m (omega arith) s)
  | inr (u, old) ↦ rw (old, put) (assign-Keyed k 0 v m s)
]

-- The program asks twice for the last error after a call.
abbrev pub asked_twice : ℕ → Result Bool × CState → Result Bool × Message × Message
asked_twice handle (r, s) =
    let (first, s') = toxtun_get_last_error handle s in
    (r, first, (toxtun_get_last_error handle s').0)

-- A request that the core refuses with an error returns false, the last error is then the text of
-- that error, whatever error was kept before, and after it was asked for there is none.
pub toxtun_get_last_error-toxtun_send_connection_request :
    (env : Env) (handle friend : ℕ) (s : CState) (w w' : World) (e : ToxTunError)
    → find handle s.cores ≡ some w
    → Keyed 0 s.error_strings
    → send_request env friend w ≡ (err (thrown e), w')
    → asked_twice handle (toxtun_send_connection_request env handle friend s)
      ≡ (ok false, e.message, text "No error")
unfolding toxtun_send_connection_request on_core toxtun_get_last_error
toxtun_get_last_error-toxtun_send_connection_request env handle friend s w w' e h keyed refused =
    let kept = put-Keyed handle e.message s.error_strings keyed in
    rw (h, on_core, refused)
      (rw (
        find-put handle e.message s.error_strings keyed,
        find-erase_self handle 0 (put handle e.message s.error_strings) kept,
      ))
