-- ===== src/State/Removal/Lists.antt =====
-- Lists of elements without some ids.
use aurum.Base.{
  ℕ, ◌+◌, ◌≤◌, ◌<◌, ◌≡◌, refl, List, [], ◌∷◌, arith, All, All-mono, map, if◌then◌else◌, Bool, true,
  false, ◌||◌, ◌&&◌, sum_by, ltb, ap,
}
use aurum.Bytes.{Bytes, same}
use aurum.Session.{Session}
use aurum.World.{Entry, Keyed, with_node}
use aurum.State.Defs.{count_id, erase_id}

unfoldable pub listed : Bytes → List Bytes → Bool
listed id [] = false
listed id (i ∷ ids) = same i id || listed id ids

-- The elements whose session has none of the ids.
pub without : (ℕ → Session) → List Bytes → List Entry → List Entry
without o ids [] = []
without o ids (e ∷ es) =
    let rest = without o ids es in if listed (o e.ref).id ids then rest else e ∷ rest

-- The elements whose session has another node id.
pub other_nodes : (ℕ → Session) → Bytes → List Entry → List Entry
other_nodes o node_id [] = []
other_nodes o node_id (e ∷ es) =
    let rest = other_nodes o node_id es in if same (o e.ref).node_id node_id then rest else e ∷ rest

pub without-none : (o : ℕ → Session) (es : List Entry) → without o [] es ≡ es
unfolding without listed
without-none o [] = refl
without-none o (e ∷ es) = rw (without-none o es)

pub without-ids :
    (o p : ℕ → Session) (ids : List Bytes) (es : List Entry)
    → ((r : ℕ) → (o r).id ≡ (p r).id)
    → without o ids es ≡ without p ids es
unfolding without
without-ids o p ids [] h = refl
without-ids o p ids (e ∷ es) h = rw (h e.ref, without-ids o p ids es h)

pub without-missing :
    (o : ℕ → Session) (id : Bytes) (es : List Entry)
    → count_id o id es ≡ 0
    → without o (id ∷ []) es ≡ es
unfolding without listed count_id
without-missing o id [] h = refl
without-missing o id (e ∷ es) h = ground (arith, without-missing o id es)

-- No element with the id is left.
pub without-count :
    (o : ℕ → Session) (id : Bytes) (es : List Entry) → count_id o id (without o (id ∷ []) es) ≡ 0
unfolding without listed count_id
without-count o id [] = refl
without-count o id (e ∷ es) = ground (arith, without-count o id es)

-- Where an id occurs once, erasing one element of it leaves those without it.
pub erase_id-without :
    (o : ℕ → Session) (id : Bytes) (es : List Entry)
    → count_id o id es ≤ 1
    → erase_id o id es ≡ without o (id ∷ []) es
unfolding without listed erase_id count_id
erase_id-without o id [] h = refl
erase_id-without o id (e ∷ es) h = ground (arith, erase_id-without o id es, without-missing o id es)

-- An erased element would not have been left.
pub without-erase_id :
    (o : ℕ → Session) (id : Bytes) (es : List Entry)
    → without o (id ∷ []) (erase_id o id es) ≡ without o (id ∷ []) es
unfolding without listed erase_id
without-erase_id o id [] = refl
without-erase_id o id (e ∷ es) = ground (arith, without-erase_id o id es)

pub without-without :
    (o : ℕ → Session) (id : Bytes) (ids : List Bytes) (es : List Entry)
    → without o ids (without o (id ∷ []) es) ≡ without o (id ∷ ids) es
unfolding without listed
without-without o id ids [] = refl
without-without o id ids (e ∷ es) = ground (arith, without-without o id ids es)

-- Nothing is left where every id is listed.
pub without_everything :
    (o : ℕ → Session) (ids : List Bytes) (es : List Entry)
    → All (λ (e : Entry). listed (o e.ref).id ids ≡ true) es
    → without o ids es ≡ []
unfolding without
without_everything o ids [] h = refl
without_everything o ids (e ∷ es) h = rw (h.0, without_everything o ids es h.1)

pub listed_own :
    (o : ℕ → Session) (es : List Entry)
    → All (λ (e : Entry). listed (o e.ref).id (map (λ e'. (o e'.ref).id) es) ≡ true) es
unfolding listed
listed_own o [] = tt
listed_own o (e ∷ es) = (ground arith, All-mono _ _ es (λ x h. ground arith) (listed_own o es))

pub times : Bytes → List Bytes → ℕ
times id = sum_by (λ i. if same i id then 1 else 0)

pub listed-times : (id : Bytes) (ids : List Bytes) → listed id ids ≡ ltb 0 (times id ids)
unfolding listed times
listed-times id [] = refl
listed-times id (i ∷ ids) = ground (arith, listed-times id ids)

-- The elements with an id and a node id.
pub hits : (ℕ → Session) → Bytes → Bytes → List Entry → ℕ
hits o node_id id [] = 0
hits o node_id id (e ∷ es) =
    (if same (o e.ref).node_id node_id && same (o e.ref).id id then 1 else 0) + hits o node_id id es

hits-le :
    (o : ℕ → Session) (node_id id : Bytes) (es : List Entry)
    → hits o node_id id es ≤ count_id o id es
unfolding hits count_id
hits-le o node_id id [] = omega arith
hits-le o node_id id (e ∷ es) = ground (arith, hits-le o node_id id es)

-- Where no id occurs twice, an id has a hit exactly if its session has the node id.
pub hits-exact :
    (o : ℕ → Session) (node_id : Bytes) (es : List Entry)
    → ((id : Bytes) → count_id o id es ≤ 1)
    → All
        (λ (e : Entry).
          (ltb 0 (hits o node_id (o e.ref).id es) ≡ same (o e.ref).node_id node_id)
          × (0 < count_id o (o e.ref).id es))
        es
unfolding hits count_id
hits-exact o node_id [] unique = tt
hits-exact o node_id (x ∷ es) unique = (
  (ground (arith, unique (o x.ref).id, hits-le o node_id (o x.ref).id es), ground arith),
  All-mono _ _ es
      (λ e h. (ground (arith, unique (o e.ref).id), ground (arith, unique (o e.ref).id)))
      (hits-exact o node_id es (λ id. ground (arith, unique id))),
)

abbrev key : (ℕ → Session) → Entry → Keyed
key o e = record { entry = e; node_id = (o e.ref).node_id; type = (o e.ref).type }

pub times-map :
    (id : Bytes) (o : ℕ → Session) (rs : List ℕ)
    → times id (map (λ r. (o r).id) rs) ≡ sum_by (λ r. if same (o r).id id then 1 else 0) rs
unfolding times
times-map id o [] = refl
times-map id o (r ∷ rs) = ap (λ n. (if same (o r).id id then 1 else 0) + n) (times-map id o rs)

pub with_node-hits :
    (o : ℕ → Session) (node_id id : Bytes) (es : List Entry)
    → sum_by (λ r. if same (o r).id id then 1 else 0) (with_node node_id (map (key o) es))
      ≡ hits o node_id id es
unfolding hits
with_node-hits o node_id id [] = refl
with_node-hits o node_id id (e ∷ es) = ground (arith, with_node-hits o node_id id es)

-- Where exactly the ids of the sessions with the node id are listed, the others are left.
pub without-other_nodes :
    (o : ℕ → Session) (node_id : Bytes) (ids : List Bytes) (es : List Entry)
    → All (λ (e : Entry). listed (o e.ref).id ids ≡ same (o e.ref).node_id node_id) es
    → without o ids es ≡ other_nodes o node_id es
unfolding without other_nodes
without-other_nodes o node_id ids [] h = refl
without-other_nodes o node_id ids (e ∷ es) h = rw (h.0, without-other_nodes o node_id ids es h.1)

pub without-nil : (o : ℕ → Session) (id : Bytes) → without o (id ∷ []) [] ≡ []
unfolding without
without-nil o id = refl

pub without-cons :
    (o : ℕ → Session) (id : Bytes) (e : Entry) (es : List Entry)
    → without o (id ∷ []) (e ∷ es)
      ≡ (if same (o e.ref).id id then without o (id ∷ []) es else e ∷ without o (id ∷ []) es)
unfolding without listed
without-cons o id e es = ground arith
