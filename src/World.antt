-- ===== src/World.antt =====
-- What the program calls and does not implement: random uuids, name resolution and connecting, the
-- checksum, and the hashed indices of `boost::multi_index_container`.
use aurum.Base.{ℕ, ◌≡◌, List, [], ◌∷◌, ◌&&◌, if◌then◌else◌, All}
use mathlib.Core.List.{Perm}
use aurum.Bytes.{Bytes, IsUuid, same}
use aurum.Protocol.SessionType.{SessionType, is_tcp}
use aurum.Protocol.Crc.{Crc}

-- An element of the container: a pointer, and the node id under which the indices filed it when it
-- was inserted. The session may have got another node id since.
pub record Entry : Type 0 where
  pub ref : ℕ
  pub filed : Bytes

-- What an index by node id looks at: the element with the keys that its session has now.
pub record Keyed : Type 0 where
  pub entry : Entry
  pub node_id : Bytes
  pub type : SessionType

-- The keys of an element may not change behind the container's back.
abbrev pub IsFiled : Keyed → Type 0
IsFiled k = k.entry.filed ≡ k.node_id

abbrev pub with_node : Bytes → List Keyed → List ℕ
with_node node_id [] = []
with_node node_id (k ∷ ks) =
    let rest = with_node node_id ks in if same k.node_id node_id then k.entry.ref ∷ rest else rest

abbrev pub with_node_tcp : Bytes → List Keyed → List ℕ
with_node_tcp node_id [] = []
with_node_tcp node_id (k ∷ ks) =
    let rest = with_node_tcp node_id ks in
    if same k.node_id node_id && is_tcp k.type then k.entry.ref ∷ rest else rest

pub data Dial : Type 0 where
  resolve_failed connect_failed connected : Dial

pub record World : Type 0 where
  pub crc : Crc
  -- The `n`-th observation of the outside: a uuid, or the outcome of an attempt to connect.
  pub random : ℕ → Bytes
  pub dial : ℕ → Bytes → ℕ → Dial
  pub random-IsUuid : (n : ℕ) → IsUuid (random n)
  -- An insertion. The order of a hashed index is unspecified, and an insertion may rehash it.
  pub insert : Entry → List Entry → List Entry
  pub insert-perm : (e : Entry) (es : List Entry) → Perm (insert e es) (e ∷ es)
  -- `get<by_node_id>().equal_range(node_id)`, in the index's order. It finds the elements with that
  -- key, as long as every element still has the key under which it was inserted.
  pub equal_range : Bytes → List Keyed → List ℕ
  pub equal_range-perm :
      (node_id : Bytes) (ks : List Keyed)
      → All IsFiled ks
      → Perm (equal_range node_id ks) (with_node node_id ks)
  -- `get<by_node_and_type>().equal_range(std::make_tuple(node_id, protocol::tcp))`.
  pub equal_range_tcp : Bytes → List Keyed → List ℕ
  pub equal_range_tcp-perm :
      (node_id : Bytes) (ks : List Keyed)
      → All IsFiled ks
      → Perm (equal_range_tcp node_id ks) (with_node_tcp node_id ks)
