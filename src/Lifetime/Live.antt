-- ===== src/Lifetime/Live.antt =====
-- Which core a packet of tox reaches.
use lib_tox_tun.Base.{
  ℕ, ◌≡◌, ◌≢◌, Option, none, some, List, [], ◌∷◌, arith, ◌⊎◌, Option-cases, Bool-cases, inl, inr,
  ◌==◌, refl,
}
use lib_tox_tun.Data.{SendTox, lossless, lossy}
use lib_tox_tun.Assoc.{find, erase, emplace, assign, find-erase_ne}
use lib_tox_tun.World.{World, Env, Connection}
use lib_tox_tun.Core.{tox_packet_callback}
use lib_tox_tun.Lifetime.Kill.{without_core}
use lib_tox_tun.Lifetime.{
  Process, new_core, set_at, construct_core, new_tox_tun_no_exp, toxtun_new, destroy_core,
  toxtun_kill, callback_of, hand_over,
}

-- What happens to the cores of a process.
pub data Step : Type 0 where
  created : (tox : ℕ) (allocated : Option ℕ) → Step
  killed : (handle : Option ℕ) → Step
  received : (mode : SendTox) (tox friend : ℕ) (bytes : List ℕ) → Step

-- Each callback is that of a core, which belongs to the Tox instance that has it.
abbrev AreOf : (ℕ → Option ℕ) → (ℕ → ℕ) → List (ℕ × World) → Type 0
AreOf to tox_of cores =
    (tox address : ℕ) → to tox ≡ some address → (find address cores ≢ none) × (tox_of address ≡ tox)

abbrev AreLive : Process → Type 0
AreLive p =
    AreOf p.lossless_to p.tox_of p.c_interface.cores × AreOf p.lossy_to p.tox_of p.c_interface.cores

find-emplace_some : {V : Type 0} (k : ℕ) (v : V) (m : List (ℕ × V)) → find k (emplace k v m) ≢ none
unfolding find emplace
find-emplace_some k v [] = ground arith
find-emplace_some k v ((j, u) ∷ m) = ground (arith, find-emplace_some k v m)

find-assign_some :
    {V : Type 0} (k i : ℕ) (v : V) (m : List (ℕ × V))
    → find i m ≢ none
    → find i (assign k v m) ≢ none
unfolding find assign
find-assign_some k i v [] h = h
find-assign_some k i v ((j, u) ∷ m) h = ground (arith, find-assign_some k i v m)

find-emplace_kept :
    {V : Type 0} (k i : ℕ) (v : V) (m : List (ℕ × V))
    → find i m ≢ none
    → find i (emplace k v m) ≢ none
unfolding find emplace
find-emplace_kept k i v [] h = absurd (h refl)
find-emplace_kept k i v ((j, u) ∷ m) h = ground (arith, find-emplace_kept k i v m)

AreOf-assign :
    (to : ℕ → Option ℕ) (tox_of : ℕ → ℕ) (k : ℕ) (w : World) (m : List (ℕ × World))
    → AreOf to tox_of m
    → AreOf to tox_of (assign k w m)
AreOf-assign to tox_of k w m h tox address set =
    let (there, mine) = h tox address set in (find-assign_some k address w m there, mine)

AreOf-emplace :
    (to : ℕ → Option ℕ) (tox_of : ℕ → ℕ) (tox address : ℕ) (w : World) (m : List (ℕ × World))
    → find address m ≡ none
    → AreOf to tox_of m
    → AreOf (set_at tox (some address) to) (set_at address tox tox_of) (emplace address w m)
AreOf-emplace to tox_of tox address w m fresh h tox' address' set =
    elim (Bool-cases (tox' == tox)) [
      | inl same ↦
          let e : some address ≡ some address' = rw same at set in
          let here : address ≡ address' = cc (e) in
          rw (← here) (find-emplace_some address w m, ground arith)
      | inr other ↦
          let (there, mine) = h tox' address' (rw other at set) in
          elim (Bool-cases (address' == address)) [
            | inl same ↦
                let here : address' ≡ address = ground arith in absurd (there (cc (here, fresh)))
            | inr apart ↦ (find-emplace_kept address address' w m there, rw apart mine)
          ]
    ]

AreOf-erase :
    (to : ℕ → Option ℕ) (tox_of : ℕ → ℕ) (address : ℕ) (m : List (ℕ × World))
    → AreOf to tox_of m
    → AreOf (set_at (tox_of address) none to) tox_of (erase address m)
AreOf-erase to tox_of address m h tox address' set = elim (Bool-cases (tox == tox_of address)) [
  | inl same ↦ absurd (cc (rw same at set))
  | inr other ↦
      let (there, mine) = h tox address' (rw other at set) in
      elim (Bool-cases (address' == address)) [
        | inl same ↦
            let here : address' ≡ address = ground arith in
            let its : tox ≡ tox_of address = cc (here, mine) in absurd (ground arith)
        | inr apart ↦ let e = find-erase_ne address address' m (ground arith) in (rw e there, mine)
      ]
]

module _ (env : Env) (order : List (ℕ × Connection) → List (ℕ × Connection)) where
  abbrev pub step : Step → Process → Process
  step (created tox allocated) p = (toxtun_new tox allocated p).1
  step (killed handle) p = (toxtun_kill env order handle p).1
  step (received mode tox friend bytes) p = (hand_over env mode tox friend bytes p).1

  abbrev pub run : List Step → Process → Process
  run [] p = p
  run (s ∷ l) p = run l (step s p)

  -- `new` returns no address at which there is a core.
  abbrev pub IsFresh : Step → Process → Type 0
  IsFresh (created tox (some address)) p = find address p.c_interface.cores ≡ none
  IsFresh s p = Unit {0}

  abbrev pub AreFresh : List Step → Process → Type 0
  AreFresh [] p = Unit {0}
  AreFresh (s ∷ l) p = IsFresh s p × AreFresh l (step s p)

  destroy_core-is :
      (address : ℕ) (p : Process)
      → ((destroy_core env order address p).1 ≡ p)
        ⊎ ((destroy_core env order address p).1 ≡ without_core address p)
  unfolding destroy_core
  destroy_core-is address p = elim (Option-cases (find address p.c_interface.cores)) [
    | inl absent ↦ inl (rw (absent, destroy_core))
    | inr (w, there) ↦ inr (rw (there, destroy_core))
  ]

  handed : ℕ → World → Process → Process
  handed address w p = record p {
    c_interface = record p.c_interface { cores = assign address w p.c_interface.cores };
  }

  hand_over-is :
      (mode : SendTox) (tox friend : ℕ) (bytes : List ℕ) (p : Process)
      → ((hand_over env mode tox friend bytes p).1 ≡ p)
        ⊎ ((address : ℕ) × (w : World) × ((hand_over env mode tox friend bytes p).1
              ≡ handed address w p))
  unfolding hand_over handed
  hand_over-is mode tox friend bytes p = elim (Option-cases (callback_of env mode tox p)) [
    | inl unset ↦ inl (rw (unset, hand_over))
    | inr (address, set) ↦ elim (Option-cases (find address p.c_interface.cores)) [
      | inl absent ↦ inl (rw (set, absent, hand_over))
      | inr (w, there) ↦
          inr (address, (tox_packet_callback env friend bytes w).1, rw (set, there, hand_over))
    ]
  ]

  step-AreLive : (s : Step) (p : Process) → IsFresh s p → AreLive p → AreLive (step s p)
  unfolding toxtun_new new_tox_tun_no_exp construct_core toxtun_kill handed
  step-AreLive (created tox none) p fresh h = h
  step-AreLive (created tox (some address)) p fresh h = (
    AreOf-emplace p.lossless_to p.tox_of tox address new_core p.c_interface.cores fresh h.0,
    AreOf-emplace p.lossy_to p.tox_of tox address new_core p.c_interface.cores fresh h.1,
  )
  step-AreLive (killed none) p fresh h = h
  step-AreLive (killed (some address)) p fresh h = elim (destroy_core-is address p) [
    | inl e ↦ rw e h
    | inr e ↦ rw e (
      AreOf-erase p.lossless_to p.tox_of address p.c_interface.cores h.0,
      AreOf-erase p.lossy_to p.tox_of address p.c_interface.cores h.1,
    )
  ]
  step-AreLive (received mode tox friend bytes) p fresh h =
      elim (hand_over-is mode tox friend bytes p) [
        | inl e ↦ rw e h
        | inr (address, w, e) ↦ rw e (
          AreOf-assign p.lossless_to p.tox_of address w p.c_interface.cores h.0,
          AreOf-assign p.lossy_to p.tox_of address w p.c_interface.cores h.1,
        )
      ]

  run-AreLive : (l : List Step) (p : Process) → AreFresh l p → AreLive p → AreLive (run l p)
  run-AreLive [] p fresh h = h
  run-AreLive (s ∷ l) p fresh h = run-AreLive l (step s p) fresh.1 (step-AreLive s p fresh.0 h)

  unset :
      (p : Process)
      → ((tox : ℕ) → p.lossless_to tox ≡ none)
      → ((tox : ℕ) → p.lossy_to tox ≡ none)
      → AreLive p
  unset p first second = (
    λ tox address set. absurd (cc (first tox, set)),
    λ tox address set. absurd (cc (second tox, set)),
  )

  callback-there :
      (mode : SendTox) (tox address : ℕ) (p : Process)
      → AreLive p
      → callback_of env mode tox p ≡ some address
      → find address p.c_interface.cores ≢ none
  callback-there lossless tox address p h set = (h.0 tox address set).0
  callback-there lossy tox address p h set = (h.1 tox address set).0

  -- Whatever cores are created and killed, on whatever Tox instances, and whatever packets arrive,
  -- one after another, from a process in which no instance has a callback: the core to which an
  -- instance then hands a packet is alive, and the call ends as its toxPacketCallback ends. A core
  -- is created at an address at which there is none.
  pub hand_over-reaches :
      (l : List Step) (p : Process) (mode : SendTox) (tox friend address : ℕ) (bytes : List ℕ)
      → ((tox : ℕ) → p.lossless_to tox ≡ none)
      → ((tox : ℕ) → p.lossy_to tox ≡ none)
      → AreFresh l p
      → callback_of env mode tox (run l p) ≡ some address
      → (w : World) × (find address (run l p).c_interface.cores ≡ some w)
        × ((hand_over env mode tox friend bytes (run l p)).0
            ≡ (tox_packet_callback env friend bytes w).0)
  unfolding hand_over
  hand_over-reaches l p mode tox friend address bytes first second fresh set =
      let q = run l p in
      let live = run-AreLive l p fresh (unset p first second) in
      elim (Option-cases (find address q.c_interface.cores)) [
        | inl absent ↦ absurd (callback-there mode tox address q live set absent)
        | inr (w, there) ↦ (w, there, rw (set, there, hand_over))
      ]
