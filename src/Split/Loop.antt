-- ===== src/Split/Loop.antt =====
-- The loop of `getSplitted`.
use mathlib.Core.List.{reverse_aux, append-nil}
use lib_tox_tun.Base.{
  ℕ, zero, suc, ◌+◌, ◌-◌, ◌*◌, ◌%◌, ◌≤◌, ◌<◌, ◌≡◌, refl, sym, ap, ◌∙◌, inl, inr, true, false, List,
  [], ◌∷◌, ◌++◌, arith, length, take, drop, replicate, ltb, length-take, length-drop,
  take-append-drop, drop_all, drop-drop, Bool-cases,
}
use lib_tox_tun.Errors.{Result, ok, ◌>>=◌}
use lib_tox_tun.Data.{Data, size_mod, add_size, copy_at, new, fragment, to_byte}
use lib_tox_tun.Data.Laws.{put_at_inside, new-pos, set_tox_header-cons, copy_onto_zeros}
use lib_tox_tun.Pieces.{piece, pieces, Fit, joined}
use lib_tox_tun.Split.{to_copy, cut, split_loop}

no_more : (l m : ℕ) → l * m < m → l ≡ 0
no_more zero m h = refl
no_more (suc l) m h = absurd (omega arith)

module _ (max : ℕ) (d : Data) (index : ℕ) where
  abbrev size : ℕ
  size = length d.bytes

  cut-piece :
      (pos k n : ℕ)
      → pos < size
      → 0 < n
      → n + pos ≤ size
      → size + 4 < size_mod
      → cut max d index pos k n ≡ ok (piece index 0 k (take n (drop pos d.bytes)))
  unfolding cut to_byte
  cut-piece pos k n inside some_bytes fits small = rw (
    room,
    no_overflow,
    fresh,
    set_tox_header-cons 0 _ false fragment,
    ◌>>=◌,
    put_at_inside (201 ∷ 0 ∷ 0 ∷ 0 ∷ replicate n 0) 1 index (omega arith),
    put_at_inside (201 ∷ index ∷ 0 ∷ 0 ∷ replicate n 0) 2 (k % 256) (omega arith),
    inside_test,
    copied,
    none_left,
    append-nil,
  )
    where
      room : add_size n 4 ≡ suc (suc (suc (suc n)))
      room = omega arith

      no_overflow : ltb (suc (suc (suc (suc n)))) n ≡ false
      no_overflow = ground arith

      fresh :
          new (suc (suc (suc (suc n))))
          ≡ record { bytes = 0 ∷ 0 ∷ 0 ∷ 0 ∷ replicate n 0; tox_header_set = false }
      fresh = new-pos (suc (suc (suc (suc n)))) (omega arith)

      inside_test : ltb pos size ≡ true
      inside_test = ground arith

      chunk : List ℕ
      chunk = take n (drop pos d.bytes)

      measured : length chunk ≡ n
      measured = omega (arith, length-take n (drop pos d.bytes), length-drop pos d.bytes)

      none_left : n - length chunk ≡ 0
      none_left = omega (arith, measured)

      copied :
          copy_at (201 ∷ index ∷ k % 256 ∷ 0 ∷ replicate n 0) 4 chunk
          ≡ ok (201 ∷ index ∷ k % 256 ∷ 0 ∷ chunk ++ replicate (n - length chunk) 0)
      copied =
          copy_onto_zeros (201 ∷ index ∷ k % 256 ∷ 0 ∷ []) chunk n (omega (arith, measured))
            (omega (arith, measured))

  -- What the loop returns from `pos`: pieces that join to the rest of the data, all but the last
  -- of them full.
  abbrev pub Splits : ℕ → ℕ → List Data → Result (List Data × ℕ) → Type 0
  Splits pos k list r =
      (cs : List (List ℕ)) × (r ≡ ok (reverse_aux (pieces index 0 k cs) list, k + length cs))
      × (joined cs ≡ drop pos d.bytes)
      × Fit (max - 4) cs
      × (length cs * (max - 4) < size - pos + (max - 4))

  -- A round that copies `n` bytes in front of a loop that does the rest.
  Splits-cons :
      (pos k n : ℕ) (list : List Data) (r : Result (List Data × ℕ))
      → 4 < max
      → pos < size
      → n ≡ to_copy max d index pos
      → Splits (pos + n) (k + 1) (piece index 0 k (take n (drop pos d.bytes)) ∷ list) r
      → Splits pos k list r
  Splits-cons pos k n list r big inside copied (cs, e, j, fit, few) = (
    chunk ∷ cs,
    e ∙ ap (λ (t : ℕ). ok (reverse_aux (pieces index 0 k (chunk ∷ cs)) list, t)) (omega arith),
    rw (j, ← drop-drop n pos d.bytes) (take-append-drop n (drop pos d.bytes)),
    (ground (arith, measured), ground (arith, measured), fit),
    ground (arith, no_more (length cs) (max - 4)),
  )
    where
      chunk : List ℕ
      chunk = take n (drop pos d.bytes)

      measured : length chunk ≡ n
      measured = ground (arith, length-take n (drop pos d.bytes), length-drop pos d.bytes)

  pub split_loop-Splits :
      (fuel pos k : ℕ) (list : List Data)
      → 4 < max
      → size + 4 < size_mod
      → k ≤ pos
      → pos ≤ size
      → size - pos < fuel
      → Splits pos k list (split_loop max d index fuel pos k list)
  unfolding split_loop
  split_loop-Splits zero pos k list big small low in_data enough = absurd (omega arith)
  split_loop-Splits (suc fuel) pos k list big small low in_data enough =
      elim (Bool-cases (ltb pos size)) [
        | inr done ↦ (
          [],
          rw (done, split_loop) (ap (λ (t : ℕ). ok (list, t)) (omega arith)),
          sym (drop_all pos d.bytes (ground arith)),
          tt,
          ground arith,
        )
        | inl more ↦
            rw (more, split_loop)
              (rw
                (
                  cut-piece pos k n (ground arith) (ground arith) (ground arith) small,
                  ◌>>=◌,
                  pos_next,
                  k_next,
                )
                (Splits-cons pos k n list _ big (ground arith) refl (
                  split_loop-Splits fuel (pos + n) (k + 1)
                    (piece index 0 k (take n (drop pos d.bytes)) ∷ list) big small (ground arith)
                    (ground arith) (ground arith))))
      ]
    where
      n : ℕ
      n = to_copy max d index pos

      pos_next : add_size pos n ≡ pos + n
      pos_next = ground arith

      k_next : add_size k 1 ≡ k + 1
      k_next = omega arith
