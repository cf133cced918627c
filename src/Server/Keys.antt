-- ===== src/Server/Keys.antt =====
-- What the clients of the server see of the map of the store.
use flume.Common.{
  [], ◌+◌, ◌^◌, ◌<◌, ◌≤◌, ◌≡◌, refl, ap, ◌∙◌, arith, false, some, ltb, if◌then◌else◌, length,
  take_all, Result, ok, err, not_found,
}
use flume.Bytes.{Bytes, bytes_equal}
use flume.Wal.{record_put, record_delete}
use flume.Engine.{Engine, Config, Weather, put, delete, get, is_empty}
use flume.Engine.PutGet.{Logged, put-get, delete-get}
use flume.Common.{◌∷◌, true, Bool, none, Option}
use flume.Engine.Steps.Scans.{value_of}
use flume.Engine.Steps.Reach.{
  outcome_of, Reachable, Writes, latest, Reachable-get, Reachable-IsSound,
}
use flume.Server.{
  failure, Response, Body, max_request_body, write_engine_error, handle_put, handle_get,
  handle_delete,
}

abbrev pub served : Option Bytes → Response
served (some value) = record { status = 200; body = Body.octets value }
served none = failure 404

-- What a read of a key that is not empty answers on an open store.
abbrev IsAnswer : Result Bytes → Type 0
IsAnswer (ok v) = Unit
IsAnswer (err not_found) = Unit
IsAnswer (err _) = ⊥

either : (b : Bool) (x y : Result Bytes) → IsAnswer x → IsAnswer y → IsAnswer (if b then x else y)
either true x y h k = h
either false x y h k = k

latest-IsAnswer : (j : Bytes) (ws : Writes) → IsAnswer (latest j ws)
latest-IsAnswer j [] = tt
latest-IsAnswer j (w ∷ ws) =
    either (bytes_equal w.0 j) _ (latest j ws) (outcome w.1) (latest-IsAnswer j ws)
  where
    outcome : (o : Option Bytes) → IsAnswer (outcome_of o)
    outcome none = tt
    outcome (some v) = tt

handle_get-served :
    (k : Bytes) (e : Engine) (r : Result Bytes)
    → get k e ≡ r
    → IsAnswer r
    → handle_get k e ≡ served (value_of r)
unfolding handle_get
handle_get-served k e r p h = ap response p ∙ by_case r h
  where
    response : Result Bytes → Response
    response r = elim r [
      | err x ↦ write_engine_error x
      | ok value ↦ record { status = 200; body = Body.octets value }
    ]

    by_case : (r : Result Bytes) → IsAnswer r → response r ≡ served (value_of r)
    by_case (ok v) h = refl
    by_case (err not_found) h = refl
    by_case (err _) h = absurd h

-- A body within the limit reaches the store whole.
handle_put-put :
    (w : Weather) (k v : Bytes) (e : Engine)
    → length v ≤ max_request_body
    → (handle_put w k (some v) e).1 ≡ (put w k v e).1
unfolding handle_put
handle_put-put w k v e h =
    rw (take_all (max_request_body + 1) v (omega arith), within, handle_put) refl
  where
    within : ltb max_request_body (length v) ≡ false
    within = ground arith

-- The server answers from the map of the writes: on a reachable store a value of at most 64 MiB that PUT
-- stored under a key, where the log took it, is what GET of that key answers, with status 200, after a
-- DELETE GET answers 404, and GET of any other key answers with the last write to it, or 404; keys are not
-- empty, the trigger of compaction is not 0 and sequence numbers are not used up.
pub Reachable-served :
    {c : Config} {e : Engine} {ws : Writes}
    → Reachable c e ws
    → 0 < c.l0_compaction_trigger
    → (w : Weather) (k v : Bytes) → is_empty k ≡ false
    → length v ≤ max_request_body
    → Logged w k v record_put e
    → Logged w k [] record_delete e
    → e.seq + 1 < 2 ^ 64
    → (j : Bytes) → is_empty j ≡ false
    → (handle_get j e ≡ served (value_of (latest j ws)))
      × (handle_get j (handle_put w k (some v) e).1
          ≡ served (if bytes_equal k j then some v else value_of (latest j ws)))
      × (handle_get j (handle_delete w k e).1
          ≡ served (if bytes_equal k j then none else value_of (latest j ws)))
unfolding handle_delete
Reachable-served {e = e} {ws = ws} r t w k v n h l d q j m =
    let s = Reachable-IsSound r t in
    let before = Reachable-get r t j m in
    let shown = latest-IsAnswer j ws in
    let same = bytes_equal k j in
    (
      handle_get-served j e (latest j ws) before shown,
      ap (handle_get j) (handle_put-put w k v e h)
          ∙ handle_get-served j (put w k v e).1 (if same then ok v else latest j ws)
              (put-get w k v e s.store s.open_still l q n j m
                ∙ ap (λ x. if same then ok v else x) before)
              (either same (ok v) (latest j ws) tt shown)
          ∙ ap served (value_of-if same (ok v) (latest j ws)),
      handle_get-served j (delete w k e).1 (if same then err not_found else latest j ws)
            (delete-get w k e s.store s.open_still d q n j m
              ∙ ap (λ x. if same then err not_found else x) before)
            (either same (err not_found) (latest j ws) tt shown)
          ∙ ap served (value_of-if same (err not_found) (latest j ws)),
    )
  where
    value_of-if :
        (b : Bool) (x y : Result Bytes)
        → value_of (if b then x else y) ≡ (if b then value_of x else value_of y)
    value_of-if true x y = refl
    value_of-if false x y = refl
