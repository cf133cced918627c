-- ===== src/Sstable/Order.antt =====
-- `less` is a strict order, total on distinct versions.
use flume.Common.{◌<◌, ◌≡◌, sym, arith, Ordering, true, false, inl, inr, ◌⊎◌, subst}
use flume.Bytes.{Bytes, bytes_compare, KeyLt}
use flume.Bytes.Order.{compare_self, compare-eq→eq, KeyLt-trans, compare_cases}
use flume.Sstable.{Record, less}

-- What a comparison by `less` means.
pub less-cases :
    (a b : Record) → less a b ≡ true → KeyLt a.key b.key ⊎ ((a.key ≡ b.key) × (b.seq < a.seq))
unfolding less
less-cases a b h = ground (arith, compare-eq→eq a.key b.key)

pub less-of-key : (a b : Record) → KeyLt a.key b.key → less a b ≡ true
unfolding less
less-of-key a b h = rw (h, less)

pub less-of-seq : (a b : Record) → a.key ≡ b.key → b.seq < a.seq → less a b ≡ true
unfolding less
less-of-seq a b e h =
    let c : bytes_compare a.key b.key ≡ Ordering.eq =
      subst (λ k. bytes_compare a.key k ≡ Ordering.eq) e (compare_self a.key) in
    rw (c, less) (ground arith)

pub less_trans : (a b c : Record) → less a b ≡ true → less b c ≡ true → less a c ≡ true
less_trans a b c h k = elim (less-cases a b h) [
  | inl p ↦ elim (less-cases b c k) [
    | inl q ↦ less-of-key a c (KeyLt-trans a.key b.key c.key p q)
    | inr (e, q) ↦ less-of-key a c (subst (λ x. KeyLt a.key x) e p)
  ]
  | inr (e, p) ↦ elim (less-cases b c k) [
    | inl q ↦ less-of-key a c (subst (λ x. KeyLt x c.key) (sym e) q)
    | inr (f, q) ↦ less-of-seq a c (cc) (omega arith)
  ]
]

-- Keys that do not come before one another.
abbrev pub KeyLe : Bytes → Bytes → Type 0
KeyLe a b = KeyLt a b ⊎ (a ≡ b)

pub KeyLe-trans : (a b c : Bytes) → KeyLe a b → KeyLe b c → KeyLe a c
KeyLe-trans a b c (inl p) (inl q) = inl (KeyLt-trans a b c p q)
KeyLe-trans a b c (inl p) (inr e) = inl (subst (λ x. KeyLt a x) e p)
KeyLe-trans a b c (inr e) q = subst (λ x. KeyLe x c) (sym e) q

pub KeyLe-of-less : (a b : Record) → less a b ≡ true → KeyLe a.key b.key
KeyLe-of-less a b h = elim (less-cases a b h) [ inl p ↦ inl p | inr (e, p) ↦ inr e ]

-- A record before which `y` does not come has a key not after that of `y`.
pub KeyLe-of-not_less : (y m : Record) → less y m ≡ false → KeyLe m.key y.key
unfolding less
KeyLe-of-not_less y m h = elim (compare_cases y.key m.key) [
  | inl p ↦ cc (rw (p, less) at h)
  | inr (inl (p, e)) ↦ inr (sym e)
  | inr (inr (p, q)) ↦ inl q
]

pub KeyLt-irrefl : (a : Bytes) → KeyLt a a → ⊥
KeyLt-irrefl a h = cc (compare_self a)
