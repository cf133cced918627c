-- ===== src/Engine/Compaction/Reads.antt =====
-- What reads find after a compaction.
use flume.Common.{
  ℕ, ◌<◌, ◌≤◌, ◌≡◌, sym, ap, ◌∙◌, arith, Bool, true, List, ◌++◌, none, some, All, inl, inr, ◌⊎◌,
  Option-cases,
}
use flume.Bytes.{Bytes}
use flume.Sstable.{Record, better, newest, type_tombstone}
use flume.Sstable.Versions.{newest-append, better-none, newest-Found}
use flume.Sstable.Merge.Correct.{MergeOf}
use flume.Engine.{answer}

-- Each version of `xs` is newer than all those of its key in `ys`.
abbrev pub Over : List Record → List Record → Type 0
Over xs ys = All (λ (x : Record). All (λ (y : Record). x.key ≡ y.key → y.seq < x.seq) ys) xs

gone : (t : Record) → t.type ≡ type_tombstone → answer none ≡ answer (better none (some t))
unfolding better
gone t e = rw e

wins : (x t : Record) → t.seq < x.seq → better (some x) (some t) ≡ some x
unfolding better
wins x t h = ground arith

module _ (m : ℕ) (b : Bool) (rest inputs out : List Record) (o : MergeOf m b inputs out) where
  -- The merge's output in place of its inputs, beside what stays.
  pub merged-read :
      (b ≡ true → Over rest inputs)
      → (k : Bytes) (s : ℕ) → m ≤ s
      → answer (newest k s (rest ++ out)) ≡ answer (newest k s (rest ++ inputs))
  merged-read over k s bound =
      ap answer (newest-append k s rest out)
      ∙ elim (o.reads k s bound) [
        | inl e ↦ ap (λ x. answer (better (newest k s rest) x)) e
        | inr d ↦
            ap (λ x. answer (better (newest k s rest) x)) d.gone
            ∙ ap answer (better-none (newest k s rest))
            ∙ hidden d.tombstone d.was d.is_tombstone (over d.allowed)
                (Option-cases (newest k s rest))
            ∙ ap (λ x. answer (better (newest k s rest) x)) (sym d.was)
      ]
      ∙ ap answer (sym (newest-append k s rest inputs))
    where
      hidden :
          (t : Record)
          → newest k s inputs ≡ some t
          → t.type ≡ type_tombstone
          → Over rest inputs
          → (newest k s rest ≡ none) ⊎ ((x : Record) × (newest k s rest ≡ some x))
          → answer (newest k s rest) ≡ answer (better (newest k s rest) (some t))
      hidden t was dead over (inl e) =
          ap answer e ∙ gone t dead ∙ ap (λ x. answer (better x (some t))) (sym e)
      hidden t was dead over (inr (x, e)) =
          let f =
            newest-Found
              (λ (x : Record). All (λ (y : Record). x.key ≡ y.key → y.seq < x.seq) inputs) k s rest
              x e over in
          let g =
            newest-Found (λ (y : Record). x.key ≡ y.key → y.seq < x.seq) k s inputs t was f.0 in
          ap answer e
          ∙ ap answer (sym (wins x t (g.0 (f.1 ∙ sym g.1))))
          ∙ ap (λ x. answer (better x (some t))) (sym e)
