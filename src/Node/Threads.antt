-- ===== src/Node/Threads.antt =====
-- The calls of the state as several threads run them. A call is a sequence of pieces: one critical
-- section of the sessions' mutex, or one action outside of it. Between two pieces of a call the
-- other threads run pieces of theirs.
pub mod Alone
pub mod Cases
pub mod Conserved
pub mod Unique
pub mod Ending
pub mod Removed
use aurum.Base.{
  Option, ◌%◌, ℕ, ◌<◌, ◌≡◌, none, some, List, [], ◌∷◌, ◌++◌, map, get_elem?, set, length,
  if◌then◌else◌,
}
use aurum.Outcome.{Outcome, ok, ◌>>=◌}
use aurum.Bytes.{Bytes, same}
use aurum.Protocol.SessionType.{tcp, websocket}
use aurum.Session.{Session}
use aurum.World.{World, Entry}
use aurum.State.Defs.{State, draw, keyed, find_id, erase_id}
use aurum.State.Routing.{targets, send, rr_index, rr_advance}
use aurum.State.Registry.{add_session, close_socket, leave_frame}
use aurum.Handlers.Membership.{erase_all}
use aurum.Node.History.{Evolves}

-- What a thread has still to do in its call. A list of ids at the end is what the loop of
-- `disconnect` or `disconnect_all` has still to remove.
pub data Todo : Type 0 where
  idle collects_all : Todo
  adds : ℕ → Todo
  erases collects : Bytes → Todo
  removes : List Bytes → Todo
  closes leaves : ℕ → List Bytes → Todo
  broadcasts : Bytes → List Bytes → Todo
  sends : Bytes → List ℕ → List Bytes → Todo
  routes : Bytes → Bytes → Todo

-- The critical section of `remove_session`. The found session is to be disconnected next.
abbrev pub erase_next : Bytes → List Bytes → State → Outcome (Todo × State)
erase_next id ids s = elim (find_id s.object id s.sessions) [
  | none ↦ ok (removes ids, s)
  | some e ↦ ok (closes e.ref ids, record s { sessions = erase_id s.object id s.sessions })
]

-- The socket is closed. A WebSocket session then announces that it goes.
abbrev pub close_next : World → ℕ → List Bytes → State → Outcome (Todo × State)
close_next w ref ids s = elim (s.object ref).type [
  | tcp ↦ ok (removes ids, close_socket w ref s)
  | websocket ↦ ok (leaves ref ids, close_socket w ref s)
]

-- The critical sections of `disconnect` and `disconnect_all`: the ids that they collect.
abbrev pub collected : World → Bytes → State → List Bytes
collected w node_id s = map (λ r. (s.object r).id) (w.equal_range node_id (keyed s))

abbrev pub collected_all : State → List Bytes
collected_all s = map (λ e. (s.object e.ref).id) s.sessions

-- The critical section of `send_to_node`: the target, and the index that goes on.
abbrev pub chosen : Option ℕ → List ℕ
chosen none = []
chosen (some ref) = ref ∷ []

abbrev pub pick : List ℕ → Bytes → State → List ℕ × State
pick [] node_id s = ([], s)
pick (r ∷ rs) node_id s =
    let index = rr_index node_id s.round_robin_indices in
    (chosen (get_elem? (r ∷ rs) (index % length (r ∷ rs))), rr_advance node_id s)

-- One piece of a call: what is left of the call, and the state.
unfoldable pub advance : World → Todo → State → Outcome (Todo × State)
advance w idle s = ok (idle, s)
advance w collects_all s = ok (removes (collected_all s), s)
advance w (adds ref) s = ok (idle, (add_session w ref s).1)
advance w (erases id) s =
    ok (idle, record s { sessions = (erase_all (length s.sessions) s.object id s.sessions 0).0 })
advance w (collects node_id) s = ok (removes (collected w node_id s), s)
advance w (removes []) s = ok (idle, s)
advance w (removes (id ∷ ids)) s = erase_next id ids s
advance w (closes ref ids) s = close_next w ref ids s
advance w (leaves ref ids) s = do
  let (s', id) = draw w s
  frame ← leave_frame w (s.object ref).id id
  ok (broadcasts frame ids, s')
advance w (broadcasts message ids) s = ok (sends message (targets s.object [] s.sessions) ids, s)
advance w (sends message [] ids) s = ok (removes ids, s)
advance w (sends message (r ∷ rs) ids) s = ok (sends message rs ids, send r message s)
advance w (routes node_id message) s =
    let (target, s') = pick (w.equal_range_tcp node_id (keyed s)) node_id s in
    ok (sends message target [], s')

-- What happens to a session: it is registered, it is disconnected after it was erased, or the leave
-- handler erases it and no more.
pub data Happening : Type 0 where
  registered disconnected dropped : ℕ → Happening

-- The elements that the leave handler erases.
pub drops : (ℕ → Session) → Bytes → List Entry → List Happening
drops object id [] = []
drops object id (e ∷ es) =
    let rest = drops object id es in
    if same (object e.ref).id id then dropped e.ref ∷ rest else rest

-- What happens in the next piece of a call.
unfoldable pub happenings : Todo → State → List Happening
happenings (adds ref) s = elim (find_id s.object (s.object ref).id s.sessions) [
  | some e ↦ []
  | none ↦ registered ref ∷ []
]
happenings (erases id) s = drops s.object id s.sessions
happenings (closes ref ids) s = disconnected ref ∷ []
happenings todo s = []

-- The calls that a thread starts: `add_session` of an object that has been made, `remove_session`,
-- `disconnect`, `disconnect_all`, `broadcast_to_nodes`, `send_to_node`, and the section of the leave handler.
pub data Call : State → Todo → Type 0 where
  add_session_called : {s : State} (ref : ℕ) → ref < s.next_ref → Call s (adds ref)
  remove_session_called : {s : State} (id : Bytes) → Call s (removes (id ∷ []))
  disconnect_called : {s : State} (node_id : Bytes) → Call s (collects node_id)
  disconnect_all_called : {s : State} → Call s collects_all
  send_to_node_called : {s : State} (node_id message : Bytes) → Call s (routes node_id message)
  broadcast_called : {s : State} (message : Bytes) → Call s (broadcasts message [])
  leave_handler_called : {s : State} (id : Bytes) → Call s (erases id)

pub record System : Type 0 where
  pub state : State
  pub threads : List Todo
  -- What has happened, the earliest first.
  pub log : List Happening

module _ (w : World) where
  pub data Step : System → System → Type 0 where
    -- A thread runs the next piece of its call.
    moves :
        {x y : System} (i : ℕ) (todo todo' : Todo)
        → get_elem? x.threads i ≡ some todo
        → advance w todo x.state ≡ ok (todo', y.state)
        → y.threads ≡ set x.threads i todo'
        → y.log ≡ x.log ++ happenings todo x.state
        → Step x y
    -- A thread without a call starts one.
    calls :
        {x y : System} (i : ℕ) (todo : Todo)
        → get_elem? x.threads i ≡ some idle
        → Call x.state todo
        → y.state ≡ x.state
        → y.threads ≡ set x.threads i todo
        → y.log ≡ x.log
        → Step x y
    -- What threads do besides: they set fields of the sessions, make sessions, post tasks, and leave
    -- the registry alone.
    elsewhere :
        {x y : System}
        → y.state.sessions ≡ x.state.sessions
        → Evolves x.state y.state
        → ((r : ℕ) → length (y.state.object r).id ≡ 16)
        → y.threads ≡ x.threads
        → y.log ≡ x.log
        → Step x y

  pub data Reaches : System → System → Type 0 where
    here : {x : System} → Reaches x x
    there : {x y z : System} → Step x y → Reaches y z → Reaches x z
