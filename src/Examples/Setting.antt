-- ===== src/Examples/Setting.antt =====
-- An outside world and some states to run the model in.
use aurum.Base.{
  refl, ℕ, ◌+◌, ◌%◌, ◌^◌, ◌<◌, ◌==◌, if◌then◌else◌, [], ◌∷◌, replicate, arith, true, ◌≤◌,
}
use mathlib.Core.List.Perm
use aurum.Bytes.{Bytes, IsUuid, to_le, from_le, length-to_le, to_le-IsByte}
use aurum.Protocol.Crc.{Crc}
use aurum.Protocol.SessionType.{tcp, websocket}
use aurum.Session.{Session, new_session}
use aurum.World.{World, connected, with_node, with_node_tcp}
use aurum.State.Invariant.{Inv}
use aurum.State.Defs.{count_id, State, default_configuration}

pub checksum_lt : (bs : Bytes) → from_le bs % 2 ^ 16 < 2 ^ 16
checksum_lt bs = omega arith

-- A checksum that is easy to follow: the first two bytes.
abbrev pub first_two : Crc
first_two = record { checksum = λ bs. from_le bs % 2 ^ 16; checksum_lt = checksum_lt }

pub to_le-IsUuid : (n : ℕ) → IsUuid (to_le 16 n)
to_le-IsUuid n = record { sixteen = length-to_le 16 n; bytes = to_le-IsByte 16 n }

-- Random ids are numbered, every attempt to connect succeeds, and a new element comes first.
abbrev pub world : World
world = record {
  crc = first_two;
  random = λ n. to_le 16 n;
  dial = λ n host port. connected;
  random-IsUuid = to_le-IsUuid;
  insert = λ e es. e ∷ es;
  insert-perm = λ e es. Perm.refl (e ∷ es);
  equal_range = with_node;
  equal_range-perm = λ node_id ks h. Perm.refl (with_node node_id ks);
  equal_range_tcp = with_node_tcp;
  equal_range_tcp-perm = λ node_id ks h. Perm.refl (with_node_tcp node_id ks);
}

-- The id of the node itself, of two peers, and of three sessions.
abbrev pub self : Bytes
self = replicate 16 7

abbrev pub peer : Bytes
peer = replicate 16 8

abbrev pub id_of : ℕ → Bytes
id_of n = replicate 16 (100 + n)

-- Two TCP sessions with a peer, and a WebSocket session with a client of this node.
abbrev pub objects : ℕ → Session
objects r =
    if r == 0
    then record (new_session tcp (id_of 0) true) { node_id = peer }
    else if r == 1
    then record (new_session tcp (id_of 1) true) { node_id = peer }
    else if r == 2
    then record (new_session websocket (id_of 2) true) { node_id = self }
    else new_session tcp (id_of 3) true

abbrev pub state : State
state = record {
  configuration = default_configuration;
  node_id = self;
  sessions =
      record { ref = 0; filed = peer }
      ∷ record { ref = 1; filed = peer }
      ∷ record { ref = 2; filed = self }
      ∷ [];
  round_robin_indices = [];
  object = objects;
  next_ref = 3;
  clock = 0;
  posted = [];
}

state_unique : (id : Bytes) → count_id state.object id state.sessions ≤ 1
unfolding count_id
state_unique id = ground arith

pub state-Inv : Inv state
state-Inv = record {
  unique = state_unique;
  allocated = omega arith;
  sixteen = λ r. ground arith;
  self = refl;
}

-- The same with no registered session, so that what is posted is short.
abbrev pub empty_state : State
empty_state = record state { sessions = [] }
