-- ===== src/Assembly/Size.antt =====
-- The bytes of what `fromFragments` returns, against those of the fragments.
use lib_tox_tun.Base.{
  ℕ, ◌+◌, ◌*◌, ◌≤◌, ◌<◌, ◌≡◌, refl, ap, ◌∙◌, true, not, ◌&&◌, List, [], ◌∷◌, ◌++◌, arith, length,
  length-append, length-take, length-drop, length-replicate, take, drop, All, ltb, leb, ◌==◌,
  Bool-cases, inl, inr, if◌then◌else◌,
}
use lib_tox_tun.Errors.{ok, out_of_range, undefined, error}
use lib_tox_tun.Errors.Ending.{Ends, Ends-bind, Ends-guard, bind-ok, guard-ok}
use lib_tox_tun.Data.{Data, add_size, at, copy_at, new}
use lib_tox_tun.Data.Ending.{at-Ends, copy_at-Ends}
use lib_tox_tun.Assembly.{
  total_bytes, payload_size, total_size, insert, sort, fragment_number, has_short, sort_fragments,
  copy_fragments, from_fragments,
}

total_bytes-insert :
    (f : Data) (l : List Data) → total_bytes (insert f l) ≡ length f.bytes + total_bytes l
unfolding insert
total_bytes-insert f [] = refl
total_bytes-insert f (g ∷ l) = ground (arith, total_bytes-insert f l)

total_bytes-sort : (l : List Data) → total_bytes (sort l) ≡ total_bytes l
unfolding sort
total_bytes-sort [] = refl
total_bytes-sort (f ∷ l) = omega (arith, total_bytes-insert f (sort l), total_bytes-sort l)

total_size-insert :
    (f : Data) (l : List Data) (len : ℕ) → total_size len (insert f l) ≡ total_size len (f ∷ l)
unfolding total_size insert
total_size-insert f [] len = refl
total_size-insert f (g ∷ l) len =
    let swapped : add_size (add_size len (payload_size g)) (payload_size f)
        ≡ add_size (add_size len (payload_size f)) (payload_size g) =
      omega arith in
    elim (Bool-cases (ltb (fragment_number g) (fragment_number f))) [
      | inl before ↦
          rw before (
            total_size-insert f l (add_size len (payload_size g))
            ∙ ap (λ n. total_size n l) swapped)
      | inr behind ↦ rw behind
    ]

total_size-sort : (l : List Data) (len : ℕ) → total_size len (sort l) ≡ total_size len l
unfolding total_size sort
total_size-sort [] len = refl
total_size-sort (f ∷ l) len =
    total_size-insert f (sort l) len ∙ total_size-sort l (add_size len (payload_size f))

length-copy_at :
    (v : List ℕ) (pos : ℕ) (src r : List ℕ) → copy_at v pos src ≡ ok r → length r ≡ length v
unfolding copy_at
length-copy_at v pos src r h =
    let (inside, h') = guard-ok (ltb pos (length v)) out_of_range _ r h in
    let (room, h'') = guard-ok (leb (pos + length src) (length v)) undefined _ r h' in
    let parts : take pos v ++ src ++ drop (pos + length src) v ≡ r = cc (h'') in
    let fits : pos + length src ≤ length v = ground arith in
    rw (← parts) (
      omega (
        arith,
        length-append (take pos v ++ src) (drop (pos + length src) v),
        length-append (take pos v) src,
        length-take pos v,
        length-drop (pos + length src) v,
      ))

-- What is copied was copied from fragments with a payload, and into a buffer of the same size.
HasPayload : Data → Type 0
HasPayload f = 4 < length f.bytes

copy_fragments-ok :
    (i pos : ℕ) (bytes : List ℕ) (l : List Data) (r : List ℕ)
    → copy_fragments i pos bytes l ≡ ok r
    → (length r ≡ length bytes) × All HasPayload l
unfolding copy_fragments HasPayload
copy_fragments-ok i pos bytes [] r h = (let same : bytes ≡ r = cc in rw same, tt)
copy_fragments-ok i pos bytes (f ∷ l) r h =
    let (number, h1, h2) = bind-ok (at f.bytes 2) _ r h in
    let (next, h3) = guard-ok (i == number) (error "Fragmented package corrupted") _ r h2 in
    let (long, h4) = guard-ok (ltb 4 (length f.bytes)) out_of_range _ r h3 in
    let (copied, h5, h6) = bind-ok (copy_at bytes pos (drop 4 f.bytes)) _ r h4 in
    let (same, rest) = copy_fragments-ok (i + 1) (add_size pos (payload_size f)) copied l r h6 in
    (omega (arith, same, length-copy_at bytes pos (drop 4 f.bytes) copied h5), (ground arith, rest))

total_size-most :
    (l : List Data) (len : ℕ)
    → All HasPayload l
    → total_size len l + 4 * length l ≤ len + total_bytes l
unfolding total_size HasPayload
total_size-most [] len a = omega arith
total_size-most (f ∷ l) len (long, a) =
    omega (arith, total_size-most l (add_size len (payload_size f)) a)

payload-least : (l : List Data) → All HasPayload l → 0 < length l → 4 < total_bytes l
unfolding HasPayload
payload-least [] a some_of = absurd (omega arith)
payload-least (f ∷ l) (long, a) some_of = omega arith

new-most : (n : ℕ) → length (new n).bytes ≤ n + (if n == 0 then 1 else 0)
unfolding new
new-most n = elim (Bool-cases (n == 0)) [
  | inl empty ↦ rw empty (omega arith)
  | inr filled ↦ rw filled (omega (arith, length-replicate {A = ℕ} n 0))
]

length-insert : (f : Data) (l : List Data) → length (insert f l) ≡ length l + 1
unfolding insert
length-insert f [] = refl
length-insert f (g ∷ l) = ground (arith, length-insert f l)

length-sort : (l : List Data) → length (sort l) ≡ length l
unfolding sort
length-sort [] = refl
length-sort (f ∷ l) = omega (arith, length-insert f (sort l), length-sort l)

copy_fragments-Ends :
    (i pos : ℕ) (bytes : List ℕ) (l : List Data) → Ends (copy_fragments i pos bytes l)
unfolding copy_fragments
copy_fragments-Ends i pos bytes [] = tt
copy_fragments-Ends i pos bytes (f ∷ l) = Ends-bind (at f.bytes 2) _ (at-Ends f.bytes 2) (λ number.
    Ends-guard (i == number) _ _ tt (
      Ends-guard (ltb 4 (length f.bytes)) out_of_range _ tt (
        Ends-bind (copy_at bytes pos (drop 4 f.bytes)) _ (copy_at-Ends bytes pos (drop 4 f.bytes))
          (λ next. copy_fragments-Ends (i + 1) (add_size pos (payload_size f)) next l))))

-- What a set of fragments gives is smaller than the set: each gave up at least its four bytes.
pub from_fragments-shrinks :
    (l : List Data) (whole : Data)
    → 0 < length l
    → from_fragments l ≡ ok whole
    → length whole.bytes + 4 ≤ total_bytes l
unfolding from_fragments sort_fragments
from_fragments-shrinks l whole some_of h =
    let (sorted, h1, h2) = bind-ok (sort_fragments l) _ whole h in
    let (bytes, h3, h4) =
      bind-ok (copy_fragments 0 0 (new (total_size 0 l)).bytes sorted) _ whole h2 in
    let (allowed, h5) = guard-ok (not (has_short l && leb 2 (length l))) out_of_range _ sorted h1 in
    let in_order : sort l ≡ sorted = cc (h5) in
    let (same, long) = copy_fragments-ok 0 0 (new (total_size 0 l)).bytes sorted bytes h3 in
    let it : record { bytes = bytes; tox_header_set = true } ≡ whole = cc (h4) in
    let long' : All HasPayload (sort l) = rw in_order long in
    rw (← it) (
      ground (
        arith,
        same,
        new-most (total_size 0 l),
        total_size-most (sort l) 0 long',
        total_size-sort l 0,
        total_bytes-sort l,
        length-sort l,
        payload-least (sort l) long',
      ))

pub from_fragments-Ends : (l : List Data) → Ends (from_fragments l)
unfolding from_fragments sort_fragments
from_fragments-Ends l =
    Ends-bind (sort_fragments l) _
      (Ends-guard (not (has_short l && leb 2 (length l))) out_of_range (ok (sort l)) tt tt)
      (λ sorted.
        Ends-bind (copy_fragments 0 0 (new (total_size 0 l)).bytes sorted) _
          (copy_fragments-Ends 0 0 (new (total_size 0 l)).bytes sorted) (λ bytes. tt))
