-- ===== src/Isolation.antt =====
-- src/ToxTunCore.cpp: the connection to a friend is changed by the calls for him only.
use lib_tox_tun.Base.{ℕ, ◌<◌, ◌≡◌, ◌≢◌, refl, sym, ◌∙◌, Option, List, [], ◌∷◌, All, arith}
use lib_tox_tun.Assoc.{find, assign, emplace, find-erase_ne}
use lib_tox_tun.Assoc.Every.{Every, find-Every, erase-Every, assign-Every, emplace-Every}
use lib_tox_tun.World.{World, Env, Connection}
use lib_tox_tun.Invariant.{IsSound}
use lib_tox_tun.Invariant.Reached.{Call, perform, Reached, Reached-IsValid}
use lib_tox_tun.Locality.{IsLocal}
use lib_tox_tun.Locality.Performing.{Concerns, perform-Preserves}

module _ {V : Type 0} where
  find-assign_ne : (k i : ℕ) (v : V) (m : List (ℕ × V)) → i ≢ k → find i (assign k v m) ≡ find i m
  unfolding find assign
  find-assign_ne k i v [] h = refl
  find-assign_ne k i v ((j, u) ∷ m) h = ground (arith, find-assign_ne k i v m)

  find-emplace_ne : (k i : ℕ) (v : V) (m : List (ℕ × V)) → i ≢ k → find i (emplace k v m) ≡ find i m
  unfolding find emplace
  find-emplace_ne k i v [] h = ground arith
  find-emplace_ne k i v ((j, u) ∷ m) h = ground (arith, find-emplace_ne k i v m)

abbrev pub OwnKey : ℕ → Connection → Type 0
OwnKey k c = c.connected_friend ≡ k

-- The connection to `other` is as it was.
abbrev Apart : ℕ → Option Connection → World → Type 0
Apart other was w = (find other w.connections ≡ was) × Every OwnKey w.connections

Apart-IsLocal :
    (other friend : ℕ) (was : Option Connection) → friend ≢ other → IsLocal friend (Apart other was)
Apart-IsLocal other friend was apart = record {
  after_clock = λ n w h. h;
  after_act = λ a w about h. h;
  own_key = λ c w h there. find-Every OwnKey friend w.connections c h.1 there;
  after_assign = λ c w h own. (
    find-assign_ne friend other c w.connections (λ e. apart (sym e)) ∙ h.0,
    assign-Every OwnKey friend c w.connections own h.1,
  );
  after_erase = λ w h. (
    find-erase_ne friend other w.connections (λ e. apart (sym e)) ∙ h.0,
    erase-Every OwnKey friend w.connections h.1,
  );
  after_emplace = λ c w h own. (
    find-emplace_ne friend other c w.connections (λ e. apart (sym e)) ∙ h.0,
    emplace-Every OwnKey friend c w.connections own h.1,
  );
}

sound-OwnKey : (m : List (ℕ × Connection)) → Every IsSound m → Every OwnKey m
sound-OwnKey [] e = tt
sound-OwnKey ((k, c) ∷ m) e = (e.0.own_key, sound-OwnKey m e.1)

-- One call after another.
abbrev pub perform_all : Env → List Call → World → World
perform_all env [] w = w
perform_all env (c ∷ calls) w = perform_all env calls (perform env c w).1

perform_all-Apart :
    (env : Env) (other : ℕ) (was : Option Connection) (calls : List Call) (w : World)
    → All (Concerns (λ f. f ≢ other)) calls
    → Apart other was w
    → Apart other was (perform_all env calls w)
perform_all-Apart env other was [] w a h = h
perform_all-Apart env other was (c ∷ calls) w a h =
    perform_all-Apart env other was calls (perform env c w).1 a.1 (
      perform-Preserves env (λ f. f ≢ other) (Apart other was) c (λ u function user_data g. g)
        (λ f q. Apart-IsLocal other f was q) a.0 w h)

-- After any calls that came back: whatever calls follow for other friends, their packets among
-- them, and whatever callback is set, the connection to a friend, or that he has none, stays
-- exactly as it was. At least three bytes fit into a packet.
pub perform_all-find :
    (env : Env) (w : World) (other : ℕ) (calls : List Call)
    → 2 < env.max_packet
    → Reached env w
    → All (Concerns (λ f. f ≢ other)) calls
    → find other (perform_all env calls w).connections ≡ find other w.connections
perform_all-find env w other calls room r a =
    (perform_all-Apart env other (find other w.connections) calls w a
      (refl, sound-OwnKey w.connections (Reached-IsValid env room r).1)).0
