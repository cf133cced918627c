-- ===== src/Sstable/Iterator/Group.antt =====
-- The inner loop of RangeIterator: the versions of one key, and what comes after them.
use flume.Common.{
  ℕ, ◌≤◌, ◌≡◌, ◌≢◌, refl, sym, ap, ◌∙◌, subst, arith, true, false, List, [], ◌∷◌, none, some, leb,
  if◌then◌else◌, length, All, ok, Bool-cases, inl, inr,
}
use flume.Bytes.{Bytes, bytes_equal, KeyLt}
use flume.Bytes.Order.{compare-eq→eq}
use flume.Sstable.{Record, newest}
use flume.Sstable.Order.{KeyLe}
use flume.Sstable.Versions.{bytes_equal_self, candidate-other}
use flume.Sstable.Merge.Retain.{Ascending}
use flume.Sstable.Format.{Flate, IndexEntry}
use flume.Sstable.Table.{read_record_at}
use flume.Sstable.Table.Lookup.{
  Holds, newest-visible, newest-passed, not_visible, newest-before, later_all,
}
use flume.Sstable.Iterator.{look, group_loop}

-- The records and the entries behind the leading ones of a key.
unfoldable pub after : Bytes → List Record → List Record
after key [] = []
after key (r ∷ rs) = elim (bytes_equal r.key key) [ true ↦ after key rs | false ↦ r ∷ rs ]

unfoldable pub entries_after : Bytes → List IndexEntry → List IndexEntry
entries_after key [] = []
entries_after key (e ∷ es) = elim (bytes_equal e.key key) [
  | true ↦ entries_after key es
  | false ↦ e ∷ es
]

module _ (key : Bytes) where
  pub after-Ascending : (rs : List Record) → Ascending rs → Ascending (after key rs)
  unfolding after
  after-Ascending [] a = tt
  after-Ascending (r ∷ rs) a = elim (Bool-cases (bytes_equal r.key key)) [
    | inl e ↦ rw (e, after) (after-Ascending rs a.1)
    | inr e ↦ rw (e, after) a
  ]

  pub after-All : (P : Record → Type 0) (rs : List Record) → All P rs → All P (after key rs)
  unfolding after
  after-All P [] h = tt
  after-All P (r ∷ rs) h = elim (Bool-cases (bytes_equal r.key key)) [
    | inl e ↦ rw (e, after) (after-All P rs h.1)
    | inr e ↦ rw (e, after) h
  ]

  strictly_after : (k : Bytes) → KeyLe key k → bytes_equal k key ≡ false → KeyLt key k
  strictly_after k (inl p) e = p
  strictly_after k (inr q) e =
      cc (subst (λ x. bytes_equal x key ≡ false) (sym q) e, bytes_equal_self key)

  -- Behind the versions of the least key all keys are later.
  pub after-later :
      (rs : List Record)
      → Ascending rs
      → All (λ r. KeyLe key r.key) rs
      → All (λ r. KeyLt key r.key) (after key rs)
  unfolding after
  after-later [] a l = tt
  after-later (r ∷ rs) a l = elim (Bool-cases (bytes_equal r.key key)) [
    | inl e ↦ rw (e, after) (after-later rs a.1 l.1)
    | inr e ↦ rw (e, after) (later_all key r rs (strictly_after r.key l.0 e) a)
  ]

  -- The versions of a key hide no version of another.
  pub newest-after_key :
      (k : Bytes) (s : ℕ) (rs : List Record) → k ≢ key → newest k s rs ≡ newest k s (after key rs)
  unfolding after
  newest-after_key k s [] n = refl
  newest-after_key k s (r ∷ rs) n = elim (Bool-cases (bytes_equal r.key key)) [
    | inl e ↦
        rw (e, after)
          (newest-passed k s r rs
              (candidate-other k s r λ q. n (sym q ∙ compare-eq→eq r.key key (ground arith)))
            ∙ newest-after_key k s rs n)
    | inr e ↦ rw (e, after) refl
  ]

  pub length-entries_after : (es : List IndexEntry) → length (entries_after key es) ≤ length es
  unfolding entries_after
  length-entries_after [] = omega arith
  length-entries_after (e ∷ es) = elim (Bool-cases (bytes_equal e.key key)) [
    | inl q ↦ rw (q, entries_after) (omega (arith, length-entries_after es))
    | inr q ↦ rw (q, entries_after) (omega arith)
  ]

module _ (z : Flate) (file : Bytes) (key : Bytes) (s : ℕ) where
  pub Holds-after :
      (es : List IndexEntry) (rs : List Record)
      → Holds z file es rs
      → Holds z file (entries_after key es) (after key rs)
  unfolding after entries_after
  Holds-after [] [] h = tt
  Holds-after [] (r ∷ rs) h = absurd h
  Holds-after (e ∷ es) [] h = absurd h
  Holds-after (e ∷ es) (r ∷ rs) h = elim (Bool-cases (bytes_equal r.key key)) [
    | inl q ↦
        rw (q, after)
          (rw (ap (λ k. bytes_equal k key) h.0 ∙ q, entries_after) (Holds-after es rs h.2))
    | inr q ↦ rw (q, after) (rw (ap (λ k. bytes_equal k key) h.0 ∙ q, entries_after) h)
  ]

  -- Once a version was found, the others of its key are passed over unread.
  group_loop-found :
      (x : Record) (es : List IndexEntry)
      → group_loop z file key s (some x) es ≡ ok (some x, entries_after key es)
  unfolding group_loop entries_after
  group_loop-found x [] = refl
  group_loop-found x (e ∷ es) = elim (Bool-cases (bytes_equal e.key key)) [
    | inl q ↦ rw (q, group_loop) (rw (q, entries_after) (unfold look in group_loop-found x es))
    | inr q ↦ rw (q, group_loop) (rw (q, entries_after) refl)
  ]

  group_loop-read :
      (e : IndexEntry) (es : List IndexEntry) (r : Record)
      → bytes_equal e.key key ≡ true
      → read_record_at z file e.offset ≡ ok r
      → group_loop z file key s none (e ∷ es)
        ≡ group_loop z file key s (if leb r.seq s then some r else none) es
  unfolding group_loop look
  group_loop-read e es r q read = rw (q, group_loop) (rw read refl)

  pub entries_after-equal :
      (e : IndexEntry) (es : List IndexEntry)
      → bytes_equal e.key key ≡ true
      → entries_after key es ≡ entries_after key (e ∷ es)
  unfolding entries_after
  entries_after-equal e es q = rw (q, entries_after) refl

  group_loop-stops :
      (e : IndexEntry) (es : List IndexEntry)
      → bytes_equal e.key key ≡ false
      → group_loop z file key s none (e ∷ es) ≡ ok (none, entries_after key (e ∷ es))
  unfolding group_loop entries_after
  group_loop-stops e es q = rw (q, group_loop) (rw (q, entries_after) refl)

  -- The inner loop finds the newest visible version of the key, and leaves the entries of later keys.
  pub group_loop-newest :
      (es : List IndexEntry) (rs : List Record)
      → Holds z file es rs
      → Ascending rs
      → All (λ r. KeyLe key r.key) rs
      → group_loop z file key s none es ≡ ok (newest key s rs, entries_after key es)
  group_loop-newest [] [] h a l = unfold group_loop newest entries_after in refl
  group_loop-newest [] (r ∷ rs) h a l = absurd h
  group_loop-newest (e ∷ es) [] h a l = absurd h
  group_loop-newest (e ∷ es) (r ∷ rs) h a l = elim (Bool-cases (bytes_equal r.key key)) [
    | inl q ↦
        let eq : bytes_equal e.key key ≡ true = ap (λ k. bytes_equal k key) h.0 ∙ q in
        let same : r.key ≡ key = compare-eq→eq r.key key (ground arith) in
        elim (Bool-cases (leb r.seq s)) [
          | inl v ↦
              group_loop-read e es r eq h.1
              ∙ rw v (
                  group_loop-found r es
                  ∙ ap (λ t. ok (some r, t)) (entries_after-equal e es eq)
                  ∙ ap (λ o. ok (o, entries_after key (e ∷ es)))
                      (sym (newest-visible key s r rs same v a.0)))
          | inr v ↦
              group_loop-read e es r eq h.1
              ∙ rw v (
                  group_loop-newest es rs h.2 a.1 l.1
                  ∙ ap (λ t. ok (newest key s rs, t)) (entries_after-equal e es eq)
                  ∙ ap (λ o. ok (o, entries_after key (e ∷ es)))
                      (sym (newest-passed key s r rs (not_visible key s r same v))))
        ]
    | inr q ↦
        group_loop-stops e es (ap (λ k. bytes_equal k key) h.0 ∙ q)
        ∙ ap (λ o. ok (o, entries_after key (e ∷ es)))
            (sym (
              newest-before key s (r ∷ rs) (later_all key r rs (strictly_after key r.key l.0 q) a)))
  ]
