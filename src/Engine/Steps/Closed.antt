-- ===== src/Engine/Steps/Closed.antt =====
-- A Close of the stores that the steps lead to, and the next Open.
use flume.Common.{
  ℕ, ◌<◌, ◌≡◌, refl, sym, ap, ◌∙◌, subst, Bool, true, false, List, [], ◌∷◌, ◌++◌, map, append-nil,
  some, if◌then◌else◌, length, All, Result, ok, err, ◌>>=◌,
}
use flume.Common.Perm.{of_eq}
use mathlib.Core.List.Permᴰ
use mathlib.Core.List.{Permᴰ}
use flume.Bytes.{Bytes}
use flume.Sstable.{newest}
use flume.Sstable.Versions.{newest-perm}
use flume.Engine.{Engine, Config, ImmEntry, build_records, get, answer, unbounded_seq, is_empty}
use flume.Engine.Reads.{versions, table_versions, IsOrdered, get_at-newest}
use flume.Engine.Recovery.{open_engine}
use flume.Engine.Recovery.Replay.{HoldAll, open-get}
use flume.Engine.Close.{
  Shutdown, Session, drain, flush_last, close_files, close, sort_by_gen, directory,
}
use flume.Engine.Close.Drain.{
  IsFlushable, Drained, drain-Drained, LastFlushed, flush_last-LastFlushed, sort_by_gen-perm,
}
use flume.Engine.Steps.{IsSound}
use flume.Engine.Steps.Reach.{Reachable, Writes, latest, Reachable-get, Reachable-IsSound}
use flume.Engine.Steps.Filled.{Reachable-IsFlushable}

-- A file system that does everything; `sizes` are the sizes of the tables.
abbrev pub calm : (ℕ → ℕ) → Shutdown
calm sizes = record {
  writes = λ g. some (sizes g);
  log_closes = true;
  log_removed = true;
  tables_close = true;
}

abbrev pub running : Engine → Session
running e = record { engine = e; log_left = true }

-- All versions are in the tables, and there are no logs.
record CleanlyClosed (e : Engine) (q : Result (Unit {0}) × Session) : Type 0 where
  done : q.0 ≡ ok tt
  no_log : q.1.log_left ≡ false
  gone : q.1.engine.imm ≡ []
  held : Permᴰ (versions e) (table_versions q.1.engine.tables)

close-CleanlyClosed :
    (sizes : ℕ → ℕ) (e : Engine)
    → IsSound e
    → All IsFlushable e.imm
    → CleanlyClosed e (close (calm sizes) (running e))
unfolding close close_files
close-CleanlyClosed sizes e s f =
    subst (λ b. CleanlyClosed e (outcome b p.0)) (sym s.open_still)
      (subst (λ r. CleanlyClosed e (outcome false r)) (sym last.done)
        (record {
          done = refl;
          no_log = refl;
          gone = last.gone ∙ drained.gone;
          held = Permᴰ.trans (Permᴰ.append_left (build_records e.mem) drained.held) (
              Permᴰ.trans
                (of_eq (ap (λ m. build_records m ++ table_versions d.tables) (sym drained.mem)))
                last.held);
        }))
  where
    e' : Engine
    e' = record e { closed = true }

    d : Engine
    d = drain (λ g. some (sizes g)) (length e.queue) e'

    drained : Drained e' d
    drained =
        drain-Drained sizes e.queue e' (sym s.arranged.fifo) refl
          (subst (All IsFlushable) (sym s.arranged.fifo) f)

    p : Result (Unit {0}) × Engine
    p = flush_last (λ g. some (sizes g)) d

    last : LastFlushed d p
    last =
        flush_last-LastFlushed sizes d
          (subst IsOrdered (sym drained.mem) s.store.readable.mem_ordered)

    outcome : Bool → Result (Unit {0}) → Result (Unit {0}) × Session
    outcome b r = if b then (ok tt, running e) else elim r [
      | err x ↦ (err x, record { engine = p.1; log_left = true })
      | ok u ↦ close_files (calm sizes) p.1
    ]

CleanlyClosed-open :
    (e : Engine) (q : Result (Unit {0}) × Session) (c : Config) (size : ℕ) (k : Bytes)
    → IsSound e
    → CleanlyClosed e q
    → is_empty k ≡ false
    → (open_engine c (some size) true (directory q.1) >>= λ r. get k r) ≡ get k e
unfolding directory get
CleanlyClosed-open e q c size k s h n =
    open-get c size (directory q.1) [] k (subst (λ fs. HoldAll fs []) (sym no_files) tt) tt n
    ∙ ap answer (
        ap (newest k unbounded_seq) (append-nil (table_versions (sort_by_gen q.1.engine.tables)))
        ∙ sym (
            newest-perm k unbounded_seq (Permᴰ.trans h.held (sort_by_gen-perm q.1.engine.tables))
              s.store.distinct))
    ∙ sym (get_at-newest k unbounded_seq e s.store.readable s.open_still n)
  where
    logs : List ImmEntry → Bool → List Bytes
    logs is b =
        map (λ (i : ImmEntry). i.log.file) is ++ (if b then q.1.engine.log.file ∷ [] else [])

    no_files : logs q.1.engine.imm q.1.log_left ≡ []
    no_files = ap (λ is. logs is q.1.log_left) h.gone ∙ ap (logs []) h.no_log

-- Close loses no write: on a reachable store, if the file system works, `Close` succeeds, and in the store
-- that the next `Open` makes of the directory, with whatever configuration, `Get` of a key that is not
-- empty answers with the value of the last write to it, and ErrNotFound if that was a delete or there was
-- none; the trigger of compaction is not 0.
pub Reachable-close :
    {c : Config} {e : Engine} {ws : Writes}
    → Reachable c e ws
    → 0 < c.l0_compaction_trigger
    → (sizes : ℕ → ℕ) (c' : Config) (size : ℕ) (k : Bytes) → is_empty k ≡ false
    → ((close (calm sizes) (running e)).0 ≡ ok tt)
      × ((open_engine c' (some size) true (directory (close (calm sizes) (running e)).1) >>= λ r.
            get k r)
          ≡ latest k ws)
Reachable-close {e = e} r t sizes c' size k n =
    let s = Reachable-IsSound r t in
    let h = close-CleanlyClosed sizes e s (Reachable-IsFlushable r t) in
    (h.done, CleanlyClosed-open e _ c' size k s h n ∙ Reachable-get r t k n)
