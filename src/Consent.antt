-- ===== src/Consent.antt =====
-- src/ToxTunCore.cpp and src/Connection.cpp: a friend gets no address and no frame through to the
-- host unless the program asked for the connection or accepted it.
pub mod Packets
pub mod Calls
pub mod Asking
use lib_tox_tun.Base.{
  ℕ, ◌+◌, ◌≤◌, ◌<◌, ◌≡◌, ◌≢◌, refl, sym, ◌∙◌, Bool, true, false, Option, none, some, List, [], ◌∷◌,
  All, arith, Option-cases, inl, inr,
}
use lib_tox_tun.Errors.{ok, err, terminated}
use lib_tox_tun.Assoc.{
  Keyed, find, erase, emplace, assign, erase-Keyed, emplace-Keyed, assign-Keyed, find-erase_self,
}
use lib_tox_tun.Assoc.Every.{Every, find-Every, erase-Every, assign-Every, emplace-Every}
use lib_tox_tun.World.{
  World, Env, Connection, Action, packet_sent, callback_called, ip_set, frame_written, tun_opened,
  tun_closed, State, friends_request_pending,
}
use lib_tox_tun.Locality.{IsLocal, About}

-- Nothing on the host was done for the friend.
abbrev pub Harmless : ℕ → Action → Type 0
Harmless friend (ip_set f subnet postfix) = f ≢ friend
Harmless friend (frame_written f frame) = f ≢ friend
Harmless friend _ = Unit

-- An entry of the map; one for `friend` waits for the program.
abbrev pub IsWaiting : ℕ → ℕ → Connection → Type 0
IsWaiting friend k c = (c.connected_friend ≡ k) × (k ≡ friend → c.state ≡ friends_request_pending)

-- The program was not asked, or did not answer, and nothing was done for the friend.
abbrev pub Unasked : ℕ → World → Type 0
Unasked friend w =
    Keyed 0 w.connections × Every (IsWaiting friend) w.connections × All (Harmless friend) w.actions

Harmless-About : (friend g : ℕ) (a : Action) → g ≢ friend → About g a → Harmless friend a
Harmless-About friend g (packet_sent f mode bytes accepted) apart about = tt
Harmless-About friend g (callback_called function event f user_data) apart about = tt
Harmless-About friend g (tun_opened f) apart about = tt
Harmless-About friend g (tun_closed f) apart about = tt
Harmless-About friend g (ip_set f subnet postfix) apart about = λ e. apart (sym about ∙ e)
Harmless-About friend g (frame_written f frame) apart about = λ e. apart (sym about ∙ e)

-- The calls for others keep that.
pub Unasked-IsLocal : (friend g : ℕ) → g ≢ friend → IsLocal g (Unasked friend)
Unasked-IsLocal friend g apart = record {
  after_clock = λ n w h. h;
  after_act = λ a w about h. (h.0, h.1, (Harmless-About friend g a apart about, h.2));
  own_key = λ c w h there. (find-Every (IsWaiting friend) g w.connections c h.1 there).0;
  after_assign = λ c w h own. (
    assign-Keyed g 0 c w.connections h.0,
    assign-Every (IsWaiting friend) g c w.connections (own, λ e. absurd (apart e)) h.1,
    h.2,
  );
  after_erase = λ w h.
      (erase-Keyed g 0 w.connections h.0, erase-Every (IsWaiting friend) g w.connections h.1, h.2);
  after_emplace = λ c w h own. (
    emplace-Keyed g 0 c w.connections (omega arith) h.0,
    emplace-Every (IsWaiting friend) g c w.connections (own, λ e. absurd (apart e)) h.1,
    h.2,
  );
}

-- So do calls whose friend does not matter, the number after that of the friend among them.
pub Unasked-bystander : (friend : ℕ) → IsLocal (friend + 1) (Unasked friend)
Unasked-bystander friend = Unasked-IsLocal friend (friend + 1) (omega arith)
