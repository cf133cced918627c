-- ===== src/Sstable/Merge/Heap.antt =====
-- The heap of iterators, over sequences in memory: what is popped, and what stays.
use flume.Common.{
  ◌≡◌, refl, sym, ap, ◌∙◌, List, [], ◌∷◌, ◌++◌, append-nil, append_assoc, All, All-append, inl, inr,
  Bool-cases, ok, ◌>>=◌, Returns, Returns-bind, Returns-imp,
}
use flume.Common.Perm.{All-perm, All-imp, of_eq, exchange}
use mathlib.Core.List.Permᴰ
use mathlib.Core.List.{Permᴰ}
use flume.Bytes.{Bytes}
use flume.Sstable.{Record, less}
use flume.Sstable.Order.{KeyLe, KeyLe-trans, KeyLe-of-less, KeyLe-of-not_less}
use flume.Sstable.Merge.{pop_min, refill, fill, pop_next, next_of}

abbrev pub Item : Type 0
Item = Record × List Record

-- All records that the items still hold.
abbrev pub contents : List Item → List Record
contents [] = []
contents ((r, rs) ∷ h) = r ∷ (rs ++ contents h)

-- A sequence whose keys do not go down.
abbrev pub KeySorted : List Record → Type 0
KeySorted [] = Unit
KeySorted (r ∷ rs) = All (λ x. KeyLe r.key x.key) rs × KeySorted rs

abbrev pub IsRun : Item → Type 0
IsRun i = KeySorted (i.0 ∷ i.1)

contents-perm : {h h' : List Item} → Permᴰ h h' → Permᴰ (contents h) (contents h')
contents-perm Permᴰ.nil = Permᴰ.nil
contents-perm (Permᴰ.cons {a = a} {l₁ = h} {l₂ = h'} e p) =
    Permᴰ.trans (Permᴰ.append_left (a.0 ∷ a.1) (contents-perm p))
      (of_eq (ap (λ i. i.0 ∷ (i.1 ++ contents h')) e))
contents-perm (Permᴰ.swap {a = a} {b = b} {a' = a'} {b' = b'} {l = h} e f) =
    Permᴰ.trans (exchange (a.0 ∷ a.1) (b.0 ∷ b.1) (contents h)) (
      of_eq (
        ap (λ i. (i.0 ∷ i.1) ++ ((a.0 ∷ a.1) ++ contents h)) f
        ∙ ap (λ i. (a'.0 ∷ a'.1) ++ ((i.0 ∷ i.1) ++ contents h)) e))
contents-perm (Permᴰ.trans p q) = Permᴰ.trans (contents-perm p) (contents-perm q)

pub contents-append : (h h' : List Item) → contents (h ++ h') ≡ contents h ++ contents h'
contents-append [] h' = refl
contents-append (i ∷ h) h' =
    ap (λ c. (i.0 ∷ i.1) ++ c) (contents-append h h')
    ∙ sym (append_assoc (i.0 ∷ i.1) (contents h) (contents h'))

-- What `heap.Pop` gives back.
record Popped (x : Item) (xs : List Item) (p : Item × List Item) : Type 0 where
  same_items : Permᴰ (x ∷ xs) (p.0 ∷ p.1)
  first : KeyLe p.0.0.key x.0.key
  least : All (λ (i : Item). KeyLe p.0.0.key i.0.key) p.1

pop_min-Popped : (x : Item) (xs : List Item) → Popped x xs (pop_min next_of x xs)
unfolding pop_min
pop_min-Popped x [] = record { same_items = Permᴰ.refl (x ∷ []); first = inr refl; least = tt }
pop_min-Popped x (y ∷ ys) = elim (Bool-cases (less y.0 x.0)) [
  | inl e ↦
      let q = pop_min-Popped y ys in
      rw (e, pop_min)
        (record {
          same_items = Permᴰ.trans (Permᴰ.cons refl q.same_items) (Permᴰ.swap refl refl);
          first = KeyLe-trans _ y.0.key x.0.key q.first (KeyLe-of-less y.0 x.0 e);
          least = (KeyLe-trans _ y.0.key x.0.key q.first (KeyLe-of-less y.0 x.0 e), q.least);
        })
  | inr e ↦
      let q = pop_min-Popped x ys in
      rw (e, pop_min)
        (record {
          same_items =
              Permᴰ.trans (Permᴰ.swap refl refl)
                (Permᴰ.trans (Permᴰ.cons refl q.same_items) (Permᴰ.swap refl refl));
          first = q.first;
          least = (KeyLe-trans _ x.0.key y.0.key q.first (KeyLe-of-not_less y.0 x.0 e), q.least);
        })
]

KeySorted-All :
    (k : Bytes) (i : Item) → KeyLe k i.0.key → IsRun i → All (λ x. KeyLe k x.key) (i.0 ∷ i.1)
KeySorted-All k i e h = (
  e,
  All-imp (λ x. KeyLe i.0.key x.key) (λ x. KeyLe k x.key) i.1
      (λ x p. KeyLe-trans k i.0.key x.key e p) h.0,
)

contents-least :
    (k : Bytes) (h : List Item)
    → All (λ (i : Item). KeyLe k i.0.key) h
    → All IsRun h
    → All (λ x. KeyLe k x.key) (contents h)
contents-least k [] l s = tt
contents-least k (i ∷ h) l s =
    let a = KeySorted-All k i l.0 s.0 in
    (a.0, All-append (λ x. KeyLe k x.key) i.1 (contents h) a.1 (contents-least k h l.1 s.1))

-- One pop with its refill: the record comes from the heap, the rest stays, and no key that stays is
-- before that of the record.
pub record Stepped (x : Item) (xs : List Item) (p : Record × List Item) : Type 0 where
  pub is_top : p.0 ≡ (pop_min next_of x xs).0.0
  pub same : Permᴰ (contents (x ∷ xs)) (p.0 ∷ contents p.1)
  pub runs : All IsRun p.1
  pub least : All (λ x. KeyLe p.0.key x.key) (contents p.1)

refill-Returns :
    (rs : List Record) (h : List Item)
    → KeySorted rs
    → All IsRun h
    → Returns (refill next_of rs h) (λ h'. Permᴰ (rs ++ contents h) (contents h') × All IsRun h')
unfolding refill
refill-Returns [] h s r = (Permᴰ.refl (contents h), r)
refill-Returns (x ∷ rs) h s r = (
  Permᴰ.trans (Permᴰ.append_comm (x ∷ rs) (contents h)) (
      of_eq (
        ap (λ c. contents h ++ (x ∷ c)) (sym (append-nil rs))
        ∙ sym (contents-append h ((x, rs) ∷ [])))),
  All-append IsRun h ((x, rs) ∷ []) r (s, tt),
)

pub pop_next-Returns :
    (x : Item) (xs : List Item)
    → All IsRun (x ∷ xs)
    → Returns (pop_next next_of x xs) (Stepped x xs)
unfolding pop_next
pop_next-Returns x xs s =
    step (pop_min next_of x xs).0 (pop_min next_of x xs).1 (pop_min-Popped x xs) refl
  where
    step :
        (m : Item) (rest : List Item)
        → Popped x xs (m, rest)
        → m.0 ≡ (pop_min next_of x xs).0.0
        → Returns (refill next_of m.1 rest >>= λ h. ok (m.0, h)) (Stepped x xs)
    step m rest p t =
        let r = All-perm IsRun p.same_items s in
        Returns-bind (λ h. Permᴰ (m.1 ++ contents rest) (contents h) × All IsRun h) _
          (refill next_of m.1 rest) _ (refill-Returns m.1 rest r.0.1 r.1)
          λ h q. record {
            is_top = t;
            same = Permᴰ.trans (contents-perm p.same_items) (Permᴰ.cons refl q.0);
            runs = q.1;
            least =
                All-perm (λ y. KeyLe m.0.key y.key) q.0
                  (All-append (λ y. KeyLe m.0.key y.key) m.1 (contents rest) r.0.0
                    (contents-least m.0.key rest p.least r.1));
          }

-- The top of the heap is a record of it with a least key.
pub record Top (x : Item) (xs : List Item) (r : Record) : Type 0 where
  pub others : List Record
  pub inside : Permᴰ (contents (x ∷ xs)) (r ∷ others)
  pub least : All (λ y. KeyLe r.key y.key) (contents (x ∷ xs))

pub pop_min-Top :
    (x : Item) (xs : List Item) → All IsRun (x ∷ xs) → Top x xs (pop_min next_of x xs).0.0
pop_min-Top x xs s =
    let p = pop_min-Popped x xs in
    let m = (pop_min next_of x xs).0 in
    let rest = (pop_min next_of x xs).1 in
    let r = All-perm IsRun p.same_items s in
    record {
      others = m.1 ++ contents rest;
      inside = contents-perm p.same_items;
      least =
          All-perm (λ y. KeyLe m.0.key y.key) (Permᴰ.symm (contents-perm p.same_items))
            (contents-least m.0.key (m ∷ rest) (inr refl, p.least) r);
    }

-- The records of several tables.
abbrev pub all_records : List (List Record) → List Record
all_records [] = []
all_records (t ∷ ts) = t ++ all_records ts

pub fill-Returns :
    (ts : List (List Record)) (h : List Item)
    → All KeySorted ts
    → All IsRun h
    → Returns
        (fill next_of ts h)
        (λ h'. Permᴰ (all_records ts ++ contents h) (contents h') × All IsRun h')
unfolding fill
fill-Returns [] h s r = (Permᴰ.refl (contents h), r)
fill-Returns (t ∷ ts) h s r =
    Returns-bind (λ h'. Permᴰ (t ++ contents h) (contents h') × All IsRun h') _ (refill next_of t h)
      _ (refill-Returns t h s.0 r)
      λ h1 q.
        Returns-imp (λ h'. Permᴰ (all_records ts ++ contents h1) (contents h') × All IsRun h') _
          (fill next_of ts h1) (fill-Returns ts h1 s.1 q.1)
          λ h2 u. (
            Permᴰ.trans (of_eq (append_assoc t (all_records ts) (contents h))) (
                Permᴰ.trans (exchange t (all_records ts) (contents h))
                  (Permᴰ.trans (Permᴰ.append_left (all_records ts) q.0) u.0)),
            u.1,
          )
