-- ===== src/State/Defs.antt =====
-- The fields of the class `state`, the session objects that its pointers reach, and the work that
-- has been posted to the io_context.
use aurum.Base.{
  ℕ, ◌+◌, Bool, false, Option, none, some, List, [], ◌∷◌, ◌++◌, ◌==◌, if◌then◌else◌, map,
}
use aurum.Bytes.{Bytes, same}
use aurum.Session.{Session}
use aurum.World.{World, Entry, Keyed}

-- include/aurum/configuration.hpp.
pub record Configuration : Type 0 where
  pub threads : ℕ
  pub tcp_port : ℕ
  pub connections_per_node : ℕ
  pub tcp_ready : Bool
  pub websocket_port : ℕ
  pub websocket_ready : Bool

abbrev pub default_configuration : Configuration
default_configuration = record {
  threads = 1;
  tcp_port = 0;
  connections_per_node = 1;
  tcp_ready = false;
  websocket_port = 0;
  websocket_ready = false;
}

-- Work posted to the io_context or to a session's strand: `on_send` of a message, the body of a
-- session's `start`, a call of `state::connect`.
pub data Task : Type 0 where
  write : ℕ → Bytes → Task
  start : ℕ → Task
  dial : Bytes → ℕ → Task

pub record State : Type 0 where
  pub configuration : Configuration
  pub node_id : Bytes
  -- The elements in the order of iteration.
  pub sessions : List Entry
  pub round_robin_indices : List (Bytes × ℕ)
  -- Every session object, by its pointer.
  pub object : ℕ → Session
  pub next_ref : ℕ
  -- The number of observations of the outside so far.
  pub clock : ℕ
  -- In the order of posting.
  pub posted : List Task

-- A store through a pointer to a session.
unfoldable pub assign : ℕ → Session → State → State
assign ref session s = record s { object = λ r. if r == ref then session else s.object r }

-- `std::make_shared` of a session.
unfoldable pub allocate : Session → State → State × ℕ
allocate session s =
    (record (assign s.next_ref session s) { next_ref = s.next_ref + 1 }, s.next_ref)

unfoldable pub post : Task → State → State
post task s = record s { posted = s.posted ++ (task ∷ []) }

-- `boost::uuids::random_generator()()`.
unfoldable pub draw : World → State → State × Bytes
draw w s = (record s { clock = s.clock + 1 }, w.random s.clock)

-- The elements with the keys that their sessions have now.
abbrev pub keyed : State → List Keyed
keyed s =
    map
      (λ e. record { entry = e; node_id = (s.object e.ref).node_id; type = (s.object e.ref).type })
      s.sessions

-- `get<by_id>().find(id)`.
unfoldable pub find_id : (ℕ → Session) → Bytes → List Entry → Option Entry
find_id object id [] = none
find_id object id (e ∷ es) = if same (object e.ref).id id then some e else find_id object id es

-- `get<by_id>().erase(it)`, where `it` is what `find` returns.
unfoldable pub erase_id : (ℕ → Session) → Bytes → List Entry → List Entry
erase_id object id [] = []
erase_id object id (e ∷ es) = if same (object e.ref).id id then es else e ∷ erase_id object id es

-- `get<by_id>().count(id)`.
unfoldable pub count_id : (ℕ → Session) → Bytes → List Entry → ℕ
count_id object id [] = 0
count_id object id (e ∷ es) = (if same (object e.ref).id id then 1 else 0) + count_id object id es
