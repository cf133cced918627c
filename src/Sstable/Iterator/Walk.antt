-- ===== src/Sstable/Iterator/Walk.antt =====
-- The calls of RangeIterator's `Next`, from the first to the one that ends the walk.
use flume.Common.{
  ℕ, zero, suc, ◌≤◌, ◌≡◌, refl, ap, ◌∙◌, subst, arith, true, false, List, [], ◌∷◌, Option, none,
  some, length, Result, ok, Bool-cases, Option-cases, inl, inr,
}
use flume.Bytes.{Bytes, bytes_equal}
use flume.Sstable.{Record, newest}
use flume.Sstable.Versions.{bytes_equal_self}
use flume.Sstable.Merge.Retain.{Ascending}
use flume.Sstable.Format.{Flate, IndexEntry}
use flume.Sstable.Table.Lookup.{Holds}
use flume.Sstable.Iterator.{RangeIterator, past_end, range_loop, range_next, group_loop}
use flume.Sstable.Iterator.Group.{
  after, entries_after, after-Ascending, length-entries_after, Holds-after, group_loop-newest,
  entries_after-equal,
}
use flume.Sstable.Iterator.Range.{
  Shown, nothing-Shown, stopped-Shown, skipped-Shown, found-Shown, least,
}

-- The calls of `Next` give these records one by one, and then `ok=false`.
abbrev pub RangeYields : Flate → RangeIterator → List Record → Type 0
RangeYields z it [] = (it' : RangeIterator) × (range_next z it ≡ ok (none, it'))
RangeYields z it (r ∷ rs) =
    (it' : RangeIterator) × (range_next z it ≡ ok (some r, it')) × RangeYields z it' rs

module _ (z : Flate) (file : Bytes) (end : Option Bytes) (s : ℕ) where
  abbrev pub at : List IndexEntry → RangeIterator
  at es = record { file = file; rest = es; end = end; max_seq = s }

  -- The same of the value of the loop in one call.
  abbrev Gives : Result (Option Record × List IndexEntry) → List Record → Type 0
  Gives q [] = (es : List IndexEntry) × (q ≡ ok (none, es))
  Gives q (r ∷ rs) = (es : List IndexEntry) × (q ≡ ok (some r, es)) × RangeYields z (at es) rs

  range_next-loop :
      (es es' : List IndexEntry) (o : Option Record)
      → range_loop z (length es) file end s es ≡ ok (o, es')
      → range_next z (at es) ≡ ok (o, at es')
  unfolding range_next
  range_next-loop es es' o e = rw (e, range_next) refl

  pub Gives-RangeYields :
      (es : List IndexEntry) (out : List Record)
      → Gives (range_loop z (length es) file end s es) out
      → RangeYields z (at es) out
  Gives-RangeYields es [] g = (at g.0, range_next-loop es g.0 none g.1)
  Gives-RangeYields es (r ∷ rs) g = (at g.0, range_next-loop es g.0 (some r) g.1, g.2)

  module _ (e : IndexEntry) (es : List IndexEntry) (r : Record) (rs : List Record)
      (h : Holds z file (e ∷ es) (r ∷ rs)) (a : Ascending (r ∷ rs)) (m : ℕ) where
    loop_stops :
        past_end end r.key ≡ true → range_loop z (suc m) file end s (e ∷ es) ≡ ok (none, e ∷ es)
    unfolding range_loop
    loop_stops p =
        let q : past_end end e.key ≡ true = ap (past_end end) h.0 ∙ p in rw (q, range_loop) refl

    group :
        (o : Option Record)
        → newest r.key s (r ∷ rs) ≡ o
        → group_loop z file e.key s none (e ∷ es) ≡ ok (o, entries_after r.key (e ∷ es))
    group o e1 =
        ap (λ k. group_loop z file k s none (e ∷ es)) h.0
        ∙ group_loop-newest z file r.key s (e ∷ es) (r ∷ rs) h a (least r rs a)
        ∙ ap (λ o. ok (o, entries_after r.key (e ∷ es))) e1

    loop_skips :
        past_end end r.key ≡ false
        → newest r.key s (r ∷ rs) ≡ none
        → range_loop z m file end s (entries_after r.key (e ∷ es))
          ≡ range_loop z (suc m) file end s (e ∷ es)
    unfolding range_loop
    loop_skips p n =
        let q : past_end end e.key ≡ false = ap (past_end end) h.0 ∙ p in
        rw (q, range_loop) (rw (group none n) refl)

    loop_finds :
        (x : Record)
        → past_end end r.key ≡ false
        → newest r.key s (r ∷ rs) ≡ some x
        → range_loop z (suc m) file end s (e ∷ es) ≡ ok (some x, entries_after r.key (e ∷ es))
    unfolding range_loop
    loop_finds x p n =
        let q : past_end end e.key ≡ false = ap (past_end end) h.0 ∙ p in
        rw (q, range_loop) (rw (group (some x) n) refl)

  -- What the walk of `n` entries at most gives.
  abbrev Walked : List IndexEntry → List Record → List Record → Type 0
  Walked es rs out =
      Shown end s rs out × ((m : ℕ) → length es ≤ m → Gives (range_loop z m file end s es) out)

  loop_ends : (m : ℕ) → range_loop z m file end s [] ≡ ok (none, [])
  unfolding range_loop
  loop_ends m = refl

  module _ (e : IndexEntry) (es : List IndexEntry) (r : Record) (rs out : List Record)
      (h : Holds z file (e ∷ es) (r ∷ rs)) (a : Ascending (r ∷ rs))
      (w : Walked (entries_after r.key (e ∷ es)) (after r.key (r ∷ rs)) out)
      (short : length (entries_after r.key (e ∷ es)) ≤ length es)
      (p : past_end end r.key ≡ false) where
    skipped-Walked : newest r.key s (r ∷ rs) ≡ none → Walked (e ∷ es) (r ∷ rs) out
    skipped-Walked n = (skipped-Shown end s r rs out a w.0 n, λ m l. more m l)
      where
        more : (m : ℕ) → length (e ∷ es) ≤ m → Gives (range_loop z m file end s (e ∷ es)) out
        more zero l = absurd (omega arith)
        more (suc m) l =
            subst (λ q. Gives q out) (loop_skips e es r rs h a m p n) (w.1 m (omega arith))

    shown-Walked :
        (x : Record) → newest r.key s (r ∷ rs) ≡ some x → Walked (e ∷ es) (r ∷ rs) (x ∷ out)
    shown-Walked x n = (found-Shown end s r rs out a w.0 x n p, λ m l. more m l)
      where
        more : (m : ℕ) → length (e ∷ es) ≤ m → Gives (range_loop z m file end s (e ∷ es)) (x ∷ out)
        more zero l = absurd (omega arith)
        more (suc m) l = (
          entries_after r.key (e ∷ es),
          loop_finds e es r rs h a m x p n,
          Gives-RangeYields (entries_after r.key (e ∷ es)) out
              (w.1 (length (entries_after r.key (e ∷ es))) (omega arith)),
        )

  stopped-Walked :
      (e : IndexEntry) (es : List IndexEntry) (r : Record) (rs : List Record)
      → Holds z file (e ∷ es) (r ∷ rs)
      → Ascending (r ∷ rs)
      → past_end end r.key ≡ true
      → Walked (e ∷ es) (r ∷ rs) []
  stopped-Walked e es r rs h a p = (stopped-Shown end s r rs a p, λ m l. more m l)
    where
      more : (m : ℕ) → length (e ∷ es) ≤ m → Gives (range_loop z m file end s (e ∷ es)) []
      more zero l = absurd (omega arith)
      more (suc m) l = (e ∷ es, loop_stops e es r rs h a m p)

  pub walk :
      (n : ℕ) (es : List IndexEntry) (rs : List Record)
      → Holds z file es rs
      → Ascending rs
      → length es ≤ n
      → (out : List Record) × Walked es rs out
  walk n [] [] h a l = ([], (nothing-Shown end s, λ m l. ([], loop_ends m)))
  walk n [] (r ∷ rs) h a l = absurd h
  walk n (e ∷ es) [] h a l = absurd h
  walk zero (e ∷ es) (r ∷ rs) h a l = absurd (omega arith)
  walk (suc n) (e ∷ es) (r ∷ rs) h a l =
      let eq : bytes_equal e.key r.key ≡ true =
        ap (λ k. bytes_equal k r.key) h.0 ∙ bytes_equal_self r.key in
      let short : length (entries_after r.key (e ∷ es)) ≤ length es =
        subst (λ t. length t ≤ length es) (entries_after-equal z file r.key s e es eq)
          (length-entries_after r.key es) in
      let (out, w) =
        walk n (entries_after r.key (e ∷ es)) (after r.key (r ∷ rs))
          (Holds-after z file r.key s (e ∷ es) (r ∷ rs) h) (after-Ascending r.key (r ∷ rs) a)
          (omega (arith, short)) in
      elim (Bool-cases (past_end end r.key)) [
        | inl p ↦ ([], stopped-Walked e es r rs h a p)
        | inr p ↦ elim (Option-cases (newest r.key s (r ∷ rs))) [
          | inl none_seen ↦ (out, skipped-Walked e es r rs out h a w short p none_seen)
          | inr (x, found) ↦ (x ∷ out, shown-Walked e es r rs out h a w short p x found)
        ]
      ]
