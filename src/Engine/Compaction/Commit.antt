-- ===== src/Engine/Compaction/Commit.antt =====
-- The commit of a compaction: its inputs make way for their merge.
use flume.Common.{
  ℕ, ◌≤◌, ◌≡◌, ◌≢◌, refl, sym, ap, ◌∙◌, subst, arith, Bool, true, false, List, [], ◌∷◌, ◌++◌,
  append-nil, append_assoc, some, if◌then◌else◌, All, length,
}
use flume.Common.Perm.{All-perm, All-left, of_eq, append-perm}
use mathlib.Core.List.Permᴰ
use mathlib.Core.List.{Permᴰ}
use flume.Bytes.{Bytes}
use flume.Sstable.{Record, newest, Distinct}
use flume.Sstable.Versions.{newest-perm, Distinct-perm, Distinct-left, Distinct-right}
use flume.Sstable.Merge.Heap.{all_records}
use flume.Sstable.Merge.Retain.{Ascending}
use flume.Sstable.Merge.Correct.{MergeOf, outcome, merge-MergeOf}
use flume.Engine.{Engine, Table, build_records, get_at, answer, is_empty}
use flume.Engine.Reads.{IsReadable, versions, imm_versions, table_versions, get_at-newest}
use flume.Engine.Writes.{IsStore}
use flume.Engine.Flush.{maybe_trigger_compaction}
use flume.Engine.Flush.Reads.{table_versions-snoc}
use flume.Engine.Compaction.{Running, records_of, merge_inputs, remaining, commit_compaction}
use flume.Engine.Compaction.Inputs.{Taken}
use flume.Engine.Compaction.Reads.{Over, merged-read}

-- What a store holds outside the inputs of a pass.
abbrev pub outside : Running → Engine → List Record
outside r e =
    build_records e.mem ++ (imm_versions e.imm ++ table_versions (remaining r.plan.inputs e.tables))

abbrev pub input_records : Running → List Record
input_records r = all_records (records_of r.plan.inputs)

-- A pass that can be committed on a store: it has inputs, sorted as tables are; its result is their
-- merge; the store still holds all of them; and if it may drop tombstones, then nothing that stays is
-- older than what it merges, key by key.
pub record IsPass (r : Running) (e : Engine) : Type 0 where
  pub some_input : r.plan.inputs ≢ []
  pub sorted : All Ascending (records_of r.plan.inputs)
  pub merged : r.merged ≡ merge_inputs r.min_keep r.bottommost r.plan.inputs
  pub taken : Taken r.plan.inputs e.tables
  pub over : Over (outside r e) (if r.bottommost then input_records r else [])

-- What the commit leaves.
pub record Compacted (r : Running) (e e' : Engine) : Type 0 where
  pub out : List Record
  pub merge : MergeOf r.min_keep r.bottommost (input_records r) out
  pub held : versions e' ≡ outside r e ++ out
  pub readable : IsReadable e → IsReadable e'
  pub seq : e'.seq ≡ e.seq
  pub closed : e'.closed ≡ e.closed

split_off :
    (mem is ts ts' new : List Record)
    → Permᴰ ts (ts' ++ new)
    → Permᴰ (mem ++ (is ++ ts)) ((mem ++ (is ++ ts')) ++ new)
split_off mem is ts ts' new p = Permᴰ.trans (Permᴰ.append_left mem (Permᴰ.append_left is p)) (
    of_eq
      (ap (λ l. mem ++ l) (sym (append_assoc is ts' new)) ∙ sym (append_assoc mem (is ++ ts') new)))

versions-Taken :
    (r : Running) (e : Engine)
    → Taken r.plan.inputs e.tables
    → Permᴰ (versions e) (outside r e ++ input_records r)
versions-Taken r e t =
    split_off (build_records e.mem) (imm_versions e.imm) (table_versions e.tables)
      (table_versions (remaining r.plan.inputs e.tables)) (input_records r) t

-- `Merge` of the inputs gives `outcome` of a merge.
pub merge_inputs-MergeOf :
    (m : ℕ) (b : Bool) (ts : List Table)
    → ts ≢ []
    → All Ascending (records_of ts)
    → Distinct (all_records (records_of ts))
    → (out : List Record) × MergeOf m b (all_records (records_of ts)) out
      × (merge_inputs m b ts ≡ outcome out)
unfolding merge_inputs
merge_inputs-MergeOf m b [] n a d = absurd (n refl)
merge_inputs-MergeOf m b (t ∷ ts) n a d =
    merge-MergeOf m b t.records (records_of ts) (length (all_records (records_of (t ∷ ts)))) a d
      (omega arith)

added : (mem is ts new : List Record) → mem ++ (is ++ (ts ++ new)) ≡ (mem ++ (is ++ ts)) ++ new
added mem is ts new =
    ap (λ l. mem ++ l) (sym (append_assoc is ts new)) ∙ sym (append_assoc mem (is ++ ts) new)

committed :
    (size : ℕ) (r : Running) (e : Engine) (out : List Record)
    → MergeOf r.min_keep r.bottommost (input_records r) out
    → r.merged ≡ outcome out
    → Compacted r e (commit_compaction (some size) r e).1
unfolding commit_compaction maybe_trigger_compaction
committed size r e [] o h = record {
  out = [];
  merge = o;
  held = rw (h, commit_compaction) (sym (append-nil (outside r e)));
  readable =
      rw (h, commit_compaction)
        (λ i. record { mem_ordered = i.mem_ordered; imm_ordered = i.imm_ordered });
  seq = rw (h, commit_compaction) refl;
  closed = rw (h, commit_compaction) refl;
}
committed size r e (x ∷ out) o h = record {
  out = x ∷ out;
  merge = o;
  held =
      rw (h, commit_compaction)
        (ap (λ l. build_records e.mem ++ (imm_versions e.imm ++ l))
            (table_versions-snoc (remaining r.plan.inputs e.tables) (record {
              level = r.plan.target_level;
              table = record { gen = r.gen; records = x ∷ out; size_bytes = size };
            }))
          ∙ added (build_records e.mem) (imm_versions e.imm)
              (table_versions (remaining r.plan.inputs e.tables)) (x ∷ out));
  readable =
      rw (h, commit_compaction)
        (λ i. record { mem_ordered = i.mem_ordered; imm_ordered = i.imm_ordered });
  seq = rw (h, commit_compaction) refl;
  closed = rw (h, commit_compaction) refl;
}

pub inputs-Distinct :
    (r : Running) (e : Engine) → IsStore e → IsPass r e → Distinct (outside r e ++ input_records r)
inputs-Distinct r e i p = Distinct-perm (versions-Taken r e p.taken) i.distinct

pub commit-Compacted :
    (size : ℕ) (r : Running) (e : Engine)
    → IsStore e
    → IsPass r e
    → Compacted r e (commit_compaction (some size) r e).1
commit-Compacted size r e i p =
    let (out, o, h) =
      merge_inputs-MergeOf r.min_keep r.bottommost r.plan.inputs p.some_input p.sorted
        (Distinct-right (outside r e) (input_records r) (inputs-Distinct r e i p)) in
    committed size r e out o (p.merged ∙ h)

commit-IsStore :
    (r : Running) (e e' : Engine) → Compacted r e e' → IsStore e → IsPass r e → IsStore e'
commit-IsStore r e e' c i p =
    let split = Permᴰ.trans (versions-Taken r e p.taken) (
      Permᴰ.trans (append-perm (Permᴰ.refl (outside r e)) c.merge.parts)
        (of_eq (sym (append_assoc (outside r e) c.out c.merge.dropped)))) in
    let used : Record → Type 0 = λ x. x.seq ≤ e.seq in
    record {
      readable = c.readable i.readable;
      given_out =
          subst (λ l. All (λ (x : Record). x.seq ≤ e'.seq) l) (sym c.held)
            (subst (λ s. All (λ (x : Record). x.seq ≤ s) (outside r e ++ c.out)) (sym c.seq)
              (All-left used (outside r e ++ c.out) c.merge.dropped
                (All-perm used split i.given_out)));
      distinct =
          subst Distinct (sym c.held)
            (Distinct-left (outside r e ++ c.out) c.merge.dropped (Distinct-perm split i.distinct));
    }

Over-dropped :
    (r : Running) (e : Engine)
    → IsPass r e
    → r.bottommost ≡ true
    → Over (outside r e) (input_records r)
Over-dropped r e p b = subst (λ x. Over (outside r e) (if x then input_records r else [])) b p.over

-- In an open store with its invariant, the commit of a pass whose table reached the disk changes no
-- read at or above the oldest sequence number that was pinned when the pass chose what to keep, also
-- where the pass dropped tombstones and older versions. The store may have changed since the pass
-- began, as long as what it holds is as `IsPass` says.
pub compaction-get :
    (size : ℕ) (r : Running) (e : Engine)
    → IsStore e
    → IsPass r e
    → e.closed ≡ false
    → (k : Bytes) (s : ℕ) → r.min_keep ≤ s
    → is_empty k ≡ false
    → get_at k s (commit_compaction (some size) r e).1 ≡ get_at k s e
compaction-get size r e i p closed k s bound n =
    let e' = (commit_compaction (some size) r e).1 in
    let c = commit-Compacted size r e i p in
    get_at-newest k s e' (c.readable i.readable) (c.closed ∙ closed) n
    ∙ ap (λ l. answer (newest k s l)) c.held
    ∙ merged-read r.min_keep r.bottommost (outside r e) (input_records r) c.out c.merge
        (Over-dropped r e p) k s bound
    ∙ ap answer (sym (newest-perm k s (versions-Taken r e p.taken) i.distinct))
    ∙ sym (get_at-newest k s e i.readable closed n)

-- The commit of a pass whose table reached the disk keeps the store's invariant.
pub compaction-IsStore :
    (size : ℕ) (r : Running) (e : Engine)
    → IsStore e
    → IsPass r e
    → IsStore (commit_compaction (some size) r e).1
compaction-IsStore size r e i p =
    commit-IsStore r e (commit_compaction (some size) r e).1 (commit-Compacted size r e i p) i p
