-- ===== src/Server.antt =====
-- server/server.go: the handlers of PUT, GET and DELETE on /kv/{key}, as functions from the request to the
-- response and the store. Routing, logging and the text of error messages are left out.
pub mod Keys
mod Runs
use flume.Common.{
  ℕ, ◌+◌, ◌*◌, Bool, List, [], ◌∷◌, Option, none, some, ltb, if◌then◌else◌, length, take, Error,
  closed, not_found, empty_key, Result, ok, err,
}
use flume.Bytes.{Bytes}
use flume.Engine.{Engine, Weather, put, delete, get}

-- What a response carries: nothing, a message, or a value as application/octet-stream.
pub data Body : Type 0 where
  nothing message : Body
  octets : Bytes → Body

pub record Response : Type 0 where
  pub status : ℕ
  pub body : Body

abbrev max_request_body : ℕ
max_request_body = 64 * 1024 * 1024

abbrev failure : ℕ → Response
failure status = record { status = status; body = Body.message }

unfoldable write_engine_error : Error → Response
write_engine_error not_found = failure 404
write_engine_error empty_key = failure 400
write_engine_error closed = failure 503
write_engine_error _ = failure 500

abbrev no_content : Response
no_content = record { status = 204; body = Body.nothing }

-- The response to a write.
abbrev answer_write : Result (Unit {0}) × Engine → Response × Engine
answer_write p = (elim p.0 [ err x ↦ write_engine_error x | ok u ↦ no_content ], p.1)

-- The body of the request is `none` if it cannot be read; at most one byte more than the maximum is read.
unfoldable pub handle_put : Weather → Bytes → Option Bytes → Engine → Response × Engine
unfolding write_engine_error
handle_put w key none e = (failure 400, e)
handle_put w key (some body) e =
    let value = take (max_request_body + 1) body in
    if ltb max_request_body (length value)
    then (failure 413, e)
    else answer_write (put w key value e)

unfoldable pub handle_get : Bytes → Engine → Response
unfolding write_engine_error
handle_get key e = elim (get key e) [
  | err x ↦ write_engine_error x
  | ok value ↦ record { status = 200; body = Body.octets value }
]

unfoldable pub handle_delete : Weather → Bytes → Engine → Response × Engine
unfolding write_engine_error
handle_delete w key e = answer_write (delete w key e)
