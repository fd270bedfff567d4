-- ===== src/Assembly/Sort.antt =====
-- Sorting fragments by their number: the order of arrival is forgotten.
use mathlib.Core.Logic.{∥∥₁_elim}
use mathlib.Core.List.{
  Nodup, Perm, Permᴰ, Mem, Nodup-nil, Nodup-cons, mem-cons, mem-cons_self, not-mem-nil,
}
use mathlib.Core.List.Perm
use mathlib.Core.Logic.Or
use mathlib.Core.HLevel.{⊥_prop}
use native.Mathlib.Nat.{ℕ_set}
use mathlib.Core.List.Permᴰ
use lib_tox_tun.Base.{ℕ, ◌+◌, ◌<◌, ◌≤◌, ◌≡◌, ◌≢◌, refl, sym, ◌∙◌, List, [], ◌∷◌, map, arith}
use lib_tox_tun.Data.{Data}
use lib_tox_tun.Assembly.{fragment_number, insert, sort}

abbrev numbers : List Data → List ℕ
numbers = map fragment_number

insert_comm :
    (f g : Data) (l : List Data)
    → fragment_number f ≢ fragment_number g
    → insert f (insert g l) ≡ insert g (insert f l)
unfolding insert
insert_comm f g [] h = ground arith
insert_comm f g (x ∷ l) h = ground (arith, insert_comm f g l h)

heads_differ : {a b : ℕ} {l : List ℕ} → Nodup (a ∷ b ∷ l) → a ≢ b
heads_differ n e = (Nodup-cons.0 n).0 (rw e mem-cons_self)

sort-Permᴰ : {xs ys : List Data} → Permᴰ xs ys → Nodup (numbers xs) → sort xs ≡ sort ys
unfolding sort
sort-Permᴰ Permᴰ.nil n = refl
sort-Permᴰ (Permᴰ.cons e p) n = rw (e, sort-Permᴰ p (Nodup-cons.0 n).1)
sort-Permᴰ (Permᴰ.swap {a} {b} {l = l} e k) n =
    rw (← e, ← k) (insert_comm a b (sort l) (heads_differ n))
sort-Permᴰ (Permᴰ.trans p q) n =
    sort-Permᴰ p n ∙ sort-Permᴰ q (Perm.nodup ∣ Permᴰ.map fragment_number p ∣₁ n)

Data-set : IsSet (List Data)
Data-set = hlevel ℕ_set

-- Numbers that rise along the list, from `k` on.
abbrev pub Rises : ℕ → List Data → Type 0
Rises k [] = Unit {0}
Rises k (f ∷ fs) = (k ≤ fragment_number f) × Rises (fragment_number f + 1) fs

Rises-weaken : (j k : ℕ) (fs : List Data) → j ≤ k → Rises k fs → Rises j fs
Rises-weaken j k [] h r = tt
Rises-weaken j k (f ∷ fs) h r = (omega arith, r.1)

insert_least : (f : Data) (fs : List Data) → Rises (fragment_number f + 1) fs → insert f fs ≡ f ∷ fs
unfolding insert
insert_least f [] r = refl
insert_least f (g ∷ gs) r = ground arith

sort_sorted : (k : ℕ) (fs : List Data) → Rises k fs → sort fs ≡ fs
unfolding sort
sort_sorted k [] r = refl
sort_sorted k (f ∷ fs) r = rw (sort_sorted (fragment_number f + 1) fs r.1) (insert_least f fs r.1)

number_above : (a k : ℕ) (fs : List Data) → Rises k fs → a < k → ¬ Mem a (numbers fs)
number_above a k [] r h m = not-mem-nil m
number_above a k (f ∷ fs) r h m =
    Or.elim ⊥_prop (mem-cons.0 m) (λ e. omega arith)
      (number_above a (fragment_number f + 1) fs r.1 (omega arith))

Rises-Nodup : (k : ℕ) (fs : List Data) → Rises k fs → Nodup (numbers fs)
Rises-Nodup k [] r = Nodup-nil
Rises-Nodup k (f ∷ fs) r = Nodup-cons.1 (
  number_above (fragment_number f) (fragment_number f + 1) fs r.1 (omega arith),
  Rises-Nodup (fragment_number f + 1) fs r.1,
)

-- Whatever the order of the fragments, `sort` puts them in the order of their numbers.
pub sort-Perm : (fs sorted : List Data) → Rises 0 sorted → Perm sorted fs → sort fs ≡ sorted
sort-Perm fs sorted r p =
    ∥∥₁_elim p (Data-set _ _)
      λ q. sym (sort-Permᴰ q (Rises-Nodup 0 sorted r)) ∙ sort_sorted 0 sorted r
