-- ===== src/Session/Queue.antt =====
-- `on_send` and `on_write` of both session classes: at most one `async_write` at a time. They run on
-- the strand of the session, one after the other.
use aurum.Base.{Option, none, some, List, [], ◌∷◌, ◌++◌, ltb, length, if◌then◌else◌}
use aurum.Bytes.{Bytes}
use aurum.Session.{Session}

-- `queue_.front()`, handed to `async_write`; there is no write of an empty queue.
unfoldable pub front : List Bytes → Option Bytes
front [] = none
front (m ∷ ms) = some m

-- `queue_.erase(queue_.begin())`.
unfoldable pub pop : List Bytes → List Bytes
pop [] = []
pop (m ∷ ms) = ms

-- `on_send`.
unfoldable pub enqueue : Bytes → Session → Session
enqueue message s =
    let queue = s.queue ++ (message ∷ []) in
    if ltb 1 (length queue)
    then record s { queue = queue }
    else record s { queue = queue; writing = front queue }

-- `on_write` without an error: the next write starts if the queue is not empty.
unfoldable pub written : Session → Session
written s = record s { queue = pop s.queue; writing = front (pop s.queue) }

-- `on_write` with an error: the queue stays, and no write is started.
unfoldable pub write_failed : Session → Session
write_failed s = record s { writing = none }
