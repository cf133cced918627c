-- ===== src/Engine/Steps/Order.antt =====
-- Lists of versions that are newer, key by key, than others.
use flume.Common.{◌<◌, sym, subst, List, [], ◌∷◌, ◌++◌, map, All, All-append}
use flume.Common.Perm.{All-perm, All-left, All-right, All-imp}
use mathlib.Core.List.Permᴰ
use mathlib.Core.List.{Permᴰ}
use flume.Skiplist.{Kv, insert}
use flume.Memtable.{Entry}
use flume.Sstable.{Record}
use flume.Engine.{ImmEntry, record_of, build_records}
use flume.Engine.Reads.{imm_versions}
use flume.Engine.Writes.{entry_of, insert-Replaced, imm_versions-snoc}
use flume.Engine.Compaction.Reads.{Over}
use flume.Engine.Compaction.Levels.{NewerThan, Over-left, Over-right}
use flume.Engine.Steps.{ImmOrder}

-- The part of a list that another list is over.
pub Over-perm : {xs ys : List Record} (zs : List Record) → Permᴰ xs ys → Over xs zs → Over ys zs
Over-perm zs p h = All-perm (λ (x : Record). All (NewerThan x) zs) p h

pub Over-join : (xs ys zs : List Record) → Over xs zs → Over ys zs → Over (xs ++ ys) zs
Over-join xs ys zs h k = All-append (λ (x : Record). All (NewerThan x) zs) xs ys h k

pub Over-first : (xs ys zs : List Record) → Over (xs ++ ys) zs → Over xs zs
Over-first xs ys zs h = All-left (λ (x : Record). All (NewerThan x) zs) xs ys h

pub Over-rest : (xs ys zs : List Record) → Over (xs ++ ys) zs → Over ys zs
Over-rest xs ys zs h = All-right (λ (x : Record). All (NewerThan x) zs) xs ys h

-- A put of a record that is newer than all of `zs` keeps the MemTable over them.
pub insert-Over :
    (r : Record) (kvs : List (Kv Entry)) (zs : List Record)
    → All (λ (z : Record). z.seq < r.seq) zs
    → Over (map record_of kvs) zs
    → Over (map record_of (insert r.key (entry_of r) kvs)) zs
insert-Over r kvs zs new h =
    let p = insert-Replaced r kvs in
    Over-perm zs (Permᴰ.symm p.is) (
      All-imp (λ (z : Record). z.seq < r.seq) (NewerThan r) zs (λ z lt _. lt) new,
      Over-first p.kept p.lost zs (Over-perm zs p.was h),
    )

-- A new last MemTable that is over all the others keeps their order.
pub ImmOrder-snoc :
    (is : List ImmEntry) (i : ImmEntry)
    → ImmOrder is
    → Over (build_records i.mt) (imm_versions is)
    → ImmOrder (is ++ i ∷ [])
ImmOrder-snoc [] i h o = (tt, tt)
ImmOrder-snoc (j ∷ is) i h o = (
  subst (λ l. Over l (build_records j.mt)) (sym (imm_versions-snoc is i))
      (Over-join (build_records i.mt) (imm_versions is) (build_records j.mt)
        (Over-right (build_records i.mt) (imm_versions is) (build_records j.mt) o) h.0),
  ImmOrder-snoc is i h.1 (Over-left (build_records i.mt) (imm_versions is) (build_records j.mt) o),
)
