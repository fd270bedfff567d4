-- ===== src/Reassembly.antt =====
-- src/Connection.cpp, `handleFragment`: the fragments of one packet arrive one by one, in any
-- order.
pub mod Steps
use mathlib.Core.List.{Perm, Permᴰ, reverse_aux, reverse_perm}
use mathlib.Core.List.Perm
use lib_tox_tun.Base.{
  ℕ, zero, suc, ◌+◌, ◌≤◌, ◌<◌, ◌≡◌, refl, sym, ap, ◌∙◌, true, false, Bool, none, some, List, [],
  ◌∷◌, ◌++◌, length, reverse, All, All-Permᴰ, length-Permᴰ, arith, ◌==◌, if◌then◌else◌, Bool-cases,
  Option-cases, inl, inr, eq_self,
}
use lib_tox_tun.Errors.{Result, ok, err}
use lib_tox_tun.Data.{
  Data, PacketId, fragment, is_packet, get_tox_header, at, to_byte, connection_request,
  connection_accept, connection_reject, connection_close, connection_reset, ip_proposal, ip_accept,
  ip_reject, packet_data, unnamed,
}
use lib_tox_tun.Split.{get_splitted}
use lib_tox_tun.RoundTrip.{CanSplit, OnWire, get_splitted-OnWire, from_fragments-get_splitted}
use lib_tox_tun.Assembly.{from_fragments}
use lib_tox_tun.Assoc.{
  Keyed, find, assign, emplace, erase, find-emplace, find-assign_self, assign-emplace,
  assign-assign, assign_same, erase-emplace, erase_absent,
}
use lib_tox_tun.World.{World, Env, Connection}
use lib_tox_tun.World.Exec.{Exec, ◌>>=◌, ◌>>◌, continue, noexcept, pure, this, store}
use lib_tox_tun.Incoming.{
  Fragments, collect, take_out, dispatch, handle_complete, handle_data_on, waiting_at, handle_data,
}
use lib_tox_tun.Collecting.{IsFragment, with_fragments, handle_data-fragment}
use lib_tox_tun.Reassembly.Steps.{handle_joined, collected, collect_more, taken_out, collect_last}

pub continue-pure :
    (r : Result (Unit {0})) (w : World) → continue r (λ (done : Unit {0}). pure tt) w ≡ (r, w)
continue-pure (ok a) w = refl
continue-pure (err e) w = refl

module _ (env : Env) where
  -- `handleData` on one packet after another, as long as it returns.
  abbrev pub feed : ℕ → List Data → Exec (Unit {0})
  feed friend [] = pure tt
  feed friend (d ∷ ds) = handle_data env friend d >> feed friend ds

  module _ (friend index count : ℕ) (c : Connection) (w : World)
      (h : find friend w.connections ≡ some c) (s : Keyed 0 c.fragments)
      (free : find index c.fragments ≡ none) (whole : Data) (id : PacketId)
      (named : get_tox_header whole ≡ ok id) (other : is_packet id fragment ≡ false) where
    feed-collected :
        (ds l : List Data)
        → All (IsFragment index count) ds
        → length l + length ds ≡ count
        → 0 < length ds
        → from_fragments (reverse_aux ds l) ≡ ok whole
        → feed friend ds (collected env friend index count c w h s free l)
          ≡ handle_joined env friend whole (taken_out env friend index count c w h s free)
    feed-collected [] l fs total more joins = absurd (omega arith)
    feed-collected (d ∷ []) l fs total more joins =
        let last =
          collect_last env friend index count c w h s free d l whole id fs.0 (omega arith) joins
            named other in
        rw last (continue-pure _ _)
    feed-collected (d ∷ (e ∷ ds)) l fs total more joins =
        rw (collect_more env friend index count c w h s free d l fs.0 (omega arith))
          (feed-collected (e ∷ ds) (d ∷ l) fs.1 (omega arith) (omega arith) joins)

    pub feed-set :
        (ds : List Data)
        → All (IsFragment index count) ds
        → length ds ≡ count
        → 0 < length ds
        → from_fragments (reverse ds) ≡ ok whole
        → feed friend ds w
          ≡ handle_joined env friend whole (with_fragments friend c (take_out index c.fragments) w)
    feed-set ds fs total more joins =
        let same : with_fragments friend c c.fragments w ≡ w =
          rw (assign_same friend c w.connections h) in
        ap (feed friend ds) (sym same) ∙ feed-collected ds [] fs (omega arith) more joins

pub wire-IsFragment :
    (max index count : ℕ) (l : List Data)
    → All (OnWire max index count) l
    → All (IsFragment index count) l
wire-IsFragment max index count [] a = tt
wire-IsFragment max index count (f ∷ l) ((small, sends, named, valid, in_set, of_parts), a) = (
  record { named = named; valid = valid; in_set = in_set; of_parts = of_parts },
  wire-IsFragment max index count l a,
)

pub reassembly :
    (env : Env) (friend index max : ℕ) (c : Connection) (w : World) (d : Data) {id : PacketId}
    (sent arrived : List Data)
    → find friend w.connections ≡ some c
    → Keyed 0 c.fragments
    → find index c.fragments ≡ none
    → CanSplit max d
    → get_splitted max d index ≡ ok sent
    → Permᴰ sent arrived
    → get_tox_header (record d { tox_header_set = true }) ≡ ok id
    → is_packet id fragment ≡ false
    → feed env friend arrived w
      ≡ handle_joined env friend
          (record d { tox_header_set = true })
          (with_fragments friend c (take_out index c.fragments) w)
reassembly env friend index max c w d {id} sent arrived h s free can cut p named other =
    finish (get_splitted-OnWire max d index can)
  where
    whole : Data
    whole = record d { tox_header_set = true }

    finish :
        (pieces : List Data) × (get_splitted max d index ≡ ok pieces)
          × (0 < length pieces)
          × All (OnWire max index (length pieces)) pieces
        → feed env friend arrived w
          ≡ handle_joined env friend whole (with_fragments friend c (take_out index c.fragments) w)
    finish (pieces, e, more, fit) =
        feed-set env friend index (length arrived) c w h s free whole id named other arrived
          (wire-IsFragment max index (length arrived) arrived (All-Permᴰ _ p fit')) refl
          (rw (← length-Permᴰ p) (rw same more))
          (from_fragments-get_splitted max d index sent (reverse arrived) can cut
            (Perm.trans ∣ p ∣₁ (Perm.symm (reverse_perm arrived))))
      where
        same : sent ≡ pieces
        same = cc (e, cut)

        fit' : All (OnWire max index (length arrived)) sent
        fit' = rw (← length-Permᴰ p) (rw same fit)
