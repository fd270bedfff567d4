-- ===== src/Assembly/Laws.antt =====
-- What `fromFragments` returns.
use mathlib.Core.Logic.{∥∥₁_elim}
use mathlib.Core.List.{Perm, Permᴰ, append_assoc}
use native.Mathlib.Nat.{ℕ_set}
use lib_tox_tun.Base.{
  ℕ, ◌+◌, ◌-◌, ◌%◌, ◌≤◌, ◌<◌, ◌≡◌, refl, sym, ap, ◌∙◌, true, false, Bool, List, [], ◌∷◌, ◌++◌,
  arith, length, replicate, ◌==◌, if◌then◌else◌, length-append, ltb,
}
use lib_tox_tun.Errors.{ok, ◌>>=◌}
use lib_tox_tun.Data.{Data, size_mod, add_size, copy_at}
use lib_tox_tun.Data.Laws.{copy_onto_zeros}
use lib_tox_tun.Pieces.{piece, pieces, Fit, joined}
use lib_tox_tun.Assembly.{payload_size, total_size, has_short, sort, copy_fragments, from_fragments}
use lib_tox_tun.Assembly.Sort.{Rises, sort-Perm}

total_size-Permᴰ :
    {xs ys : List Data} → Permᴰ xs ys → (len : ℕ) → total_size len xs ≡ total_size len ys
unfolding total_size
total_size-Permᴰ Permᴰ.nil len = refl
total_size-Permᴰ (Permᴰ.cons {a} {b} e p) len =
    rw e (total_size-Permᴰ p (add_size len (payload_size b)))
total_size-Permᴰ (Permᴰ.swap {a} {b} {l = l} e k) len =
    rw (← e, ← k) (ap (λ n. total_size n l) (omega arith))
total_size-Permᴰ (Permᴰ.trans p q) len = total_size-Permᴰ p len ∙ total_size-Permᴰ q len

has_short-Permᴰ : {xs ys : List Data} → Permᴰ xs ys → has_short xs ≡ has_short ys
unfolding has_short
has_short-Permᴰ Permᴰ.nil = refl
has_short-Permᴰ (Permᴰ.cons e p) = rw (e, has_short-Permᴰ p)
has_short-Permᴰ (Permᴰ.swap e k) = rw (e, k) (ground arith)
has_short-Permᴰ (Permᴰ.trans p q) = has_short-Permᴰ p ∙ has_short-Permᴰ q

total_size-Perm : {xs ys : List Data} → Perm xs ys → total_size 0 xs ≡ total_size 0 ys
total_size-Perm p = ∥∥₁_elim p (ℕ_set _ _) (λ q. total_size-Permᴰ q 0)

Bool-set : IsSet Bool
Bool-set = hlevel

has_short-Perm : {xs ys : List Data} → Perm xs ys → has_short xs ≡ has_short ys
has_short-Perm p = ∥∥₁_elim p (Bool-set _ _) has_short-Permᴰ

module _ (index count : ℕ) where
  total_size-pieces :
      (k len : ℕ) (cs : List (List ℕ))
      → len + length (joined cs) < size_mod
      → total_size len (pieces index count k cs) ≡ len + length (joined cs)
  unfolding total_size
  total_size-pieces k len [] h = omega arith
  total_size-pieces k len (c ∷ cs) h =
      rw (total_size, added)
        (total_size-pieces (k + 1) (len + length c) cs (omega (arith, size)) ∙ omega (arith, size))
    where
      size : length (c ++ joined cs) ≡ length c + length (joined cs)
      size = length-append c (joined cs)

      added : add_size len (payload_size (piece index count k c)) ≡ len + length c
      added = omega (arith, size)

  has_short-pieces : (k : ℕ) (cs : List (List ℕ)) → has_short (pieces index count k cs) ≡ false
  unfolding has_short
  has_short-pieces k [] = refl
  has_short-pieces k (c ∷ cs) = ground (arith, has_short-pieces (k + 1) cs)

  pieces-Rises :
      (k : ℕ) (cs : List (List ℕ)) → k + length cs ≤ 256 → Rises k (pieces index count k cs)
  pieces-Rises k [] h = tt
  pieces-Rises k (c ∷ cs) h =
      let e : k % 256 ≡ k = omega arith in
      (omega arith, rw e (pieces-Rises (k + 1) cs (omega arith)))

  copy_fragments-pieces :
      (k most : ℕ) (pre : List ℕ) (cs : List (List ℕ))
      → Fit most cs
      → k + length cs ≤ 256
      → length pre + length (joined cs) < size_mod
      → copy_fragments k
          (length pre)
          (pre ++ replicate (length (joined cs)) 0)
          (pieces index count k cs)
        ≡ ok (pre ++ joined cs)
  unfolding copy_fragments
  copy_fragments-pieces k most pre [] f h s = refl
  copy_fragments-pieces k most pre (c ∷ cs) f h s =
      rw (numbered, nonempty, copied, ◌>>=◌, moved, left)
        (copy_fragments-pieces (k + 1) most (pre ++ c) cs f.2 (omega arith)
            (omega (arith, size, grown))
          ∙ ap ok (append_assoc pre c (joined cs)))
    where
      size : length (c ++ joined cs) ≡ length c + length (joined cs)
      size = length-append c (joined cs)

      grown : length (pre ++ c) ≡ length pre + length c
      grown = length-append pre c

      numbered : (k == k % 256) ≡ true
      numbered = ground arith

      nonempty : ltb 4 (length (piece index count k c).bytes) ≡ true
      nonempty = ground (arith, f.0)

      copied :
          copy_at (pre ++ replicate (length (joined (c ∷ cs))) 0) (length pre) c
          ≡ ok ((pre ++ c) ++ replicate (length (joined (c ∷ cs)) - length c) 0)
      copied = copy_onto_zeros pre c (length (joined (c ∷ cs))) f.0 (omega (arith, size))

      moved : add_size (length pre) (payload_size (piece index count k c)) ≡ length (pre ++ c)
      moved = omega (arith, size, grown)

      left : length (joined (c ∷ cs)) - length c ≡ length (joined cs)
      left = omega (arith, size)

joined_pos : (most : ℕ) (cs : List (List ℕ)) → Fit most cs → 0 < length cs → 0 < length (joined cs)
joined_pos most [] f h = absurd (omega arith)
joined_pos most (c ∷ cs) f h = omega (arith, length-append c (joined cs), f.0)

-- The fragments of one set, in whatever order they arrive, are put together to what was cut.
pub from_fragments-pieces :
    (index most : ℕ) (cs : List (List ℕ)) (fs : List Data)
    → Fit most cs
    → 0 < length cs
    → length cs ≤ 256
    → length (joined cs) < size_mod
    → Perm (pieces index (length cs) 0 cs) fs
    → from_fragments fs ≡ ok (record { bytes = joined cs; tox_header_set = true })
unfolding from_fragments
from_fragments-pieces index most cs fs fit pos few small p =
    rw (total, whole, short, sorted)
      (rw (copy_fragments-pieces index (length cs) 0 most [] cs fit (omega arith) (omega arith)))
  where
    total : total_size 0 fs ≡ length (joined cs)
    total =
        sym (total_size-Perm p)
        ∙ total_size-pieces index (length cs) 0 0 cs (omega arith)
        ∙ omega arith

    short : has_short fs ≡ false
    short = sym (has_short-Perm p) ∙ has_short-pieces index (length cs) 0 cs

    sorted : sort fs ≡ pieces index (length cs) 0 cs
    sorted = sort-Perm fs _ (pieces-Rises index (length cs) 0 cs (omega arith)) p

    whole : (if length (joined cs) == 0 then 1 else length (joined cs)) ≡ length (joined cs)
    whole = ground (arith, joined_pos most cs fit pos)
