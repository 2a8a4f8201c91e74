-- ===== src/State/Counts.antt =====
-- How the container's operations change the number of elements with an id.
use aurum.Base.{
  ℕ, suc, ◌≤◌, ◌<◌, ◌≡◌, refl, sym, ◌∙◌, ◌≢◌, inl, inr, subst, Bool-cases, none, some, List, [],
  ◌∷◌, arith, if◌then◌else◌, ◌==◌, All, Perm, sum_by, sum_by-perm, length,
}
use aurum.Bytes.{Bytes, same}
use aurum.Session.{Session}
use aurum.World.{Entry}
use aurum.State.Defs.{count_id, find_id, erase_id}

-- 1 for an element with the id.
abbrev pub hit : (ℕ → Session) → Bytes → Entry → ℕ
hit object id e = if same (object e.ref).id id then 1 else 0

count_id-sum :
    (object : ℕ → Session) (id : Bytes) (es : List Entry)
    → count_id object id es ≡ sum_by (hit object id) es
unfolding count_id
count_id-sum object id [] = refl
count_id-sum object id (e ∷ es) = omega (arith, count_id-sum object id es)

pub count_id-perm :
    (object : ℕ → Session) (id : Bytes) {es fs : List Entry}
    → Perm es fs
    → count_id object id es ≡ count_id object id fs
count_id-perm object id {es} {fs} p =
    count_id-sum object id es ∙ sum_by-perm (hit object id) p ∙ sym (count_id-sum object id fs)

-- Only the ids of the sessions matter.
pub count_id-ids :
    (o p : ℕ → Session) (id : Bytes) (es : List Entry)
    → ((r : ℕ) → (o r).id ≡ (p r).id)
    → count_id o id es ≡ count_id p id es
unfolding count_id
count_id-ids o p id [] h = refl
count_id-ids o p id (e ∷ es) h = rw (h e.ref, count_id-ids o p id es h)

pub count_id-below :
    (o p : ℕ → Session) (n : ℕ) (id : Bytes) (es : List Entry)
    → All (λ e. e.ref < n) es
    → ((r : ℕ) → r < n → (o r).id ≡ (p r).id)
    → count_id o id es ≡ count_id p id es
unfolding count_id
count_id-below o p n id [] h same_id = refl
count_id-below o p n id (e ∷ es) h same_id =
    rw (same_id e.ref h.0, count_id-below o p n id es h.1 same_id)

-- An object that no element points to does not count.
pub count_id-update :
    (o : ℕ → Session) (n : ℕ) (session : Session) (id : Bytes) (es : List Entry)
    → All (λ e. e.ref < n) es
    → count_id (λ r. if r == n then session else o r) id es ≡ count_id o id es
unfolding count_id
count_id-update o n session id [] h = refl
count_id-update o n session id (e ∷ es) h = ground (arith, count_id-update o n session id es h.1)

pub find_id-count :
    (o : ℕ → Session) (id : Bytes) (es : List Entry) → find_id o id es ≡ none → count_id o id es ≡ 0
unfolding find_id count_id
find_id-count o id [] e = refl
find_id-count o id (x ∷ es) e = ground (arith, find_id-count o id es)

-- A found element has the id, and is counted.
pub find_id-some :
    (o : ℕ → Session) (id : Bytes) (es : List Entry) {e : Entry}
    → find_id o id es ≡ some e
    → ((o e.ref).id ≡ id) × (0 < count_id o id es)
unfolding find_id count_id
find_id-some o id [] q = cc
find_id-some o id (x ∷ es) {e} q = ground (arith, find_id-some o id es {e = e})

-- Erasing what `find` returns takes one element of the id, and none of another id.
pub count_id-erase_id :
    (o : ℕ → Session) (id : Bytes) (es : List Entry) {e : Entry}
    → find_id o id es ≡ some e
    → count_id o id es ≡ suc (count_id o id (erase_id o id es))
unfolding find_id count_id erase_id
count_id-erase_id o id [] q = cc
count_id-erase_id o id (x ∷ es) {e} q = ground (arith, count_id-erase_id o id es {e = e})

pub count_id-erase_id_ne :
    (o : ℕ → Session) (id other : Bytes) (es : List Entry)
    → other ≢ id
    → count_id o other (erase_id o id es) ≡ count_id o other es
unfolding count_id erase_id
count_id-erase_id_ne o id other [] ne = refl
count_id-erase_id_ne o id other (x ∷ es) ne = ground (arith, count_id-erase_id_ne o id other es ne)

pub count_id-erase_id_le :
    (o : ℕ → Session) (id other : Bytes) (es : List Entry)
    → count_id o other (erase_id o id es) ≤ count_id o other es
unfolding count_id erase_id
count_id-erase_id_le o id other [] = omega arith
count_id-erase_id_le o id other (x ∷ es) = ground (arith, count_id-erase_id_le o id other es)

pub length-erase_id :
    (o : ℕ → Session) (id : Bytes) (es : List Entry) {e : Entry}
    → find_id o id es ≡ some e
    → length es ≡ suc (length (erase_id o id es))
unfolding find_id erase_id
length-erase_id o id [] q = cc
length-erase_id o id (x ∷ es) {e} q = ground (arith, length-erase_id o id es {e = e})

pub erase_id-All :
    (P : Entry → Type 0) (o : ℕ → Session) (id : Bytes) (es : List Entry)
    → All P es
    → All P (erase_id o id es)
unfolding erase_id
erase_id-All P o id [] h = tt
erase_id-All P o id (x ∷ es) h = ground (arith, erase_id-All P o id es h.1)

-- What is found is one of the elements.
pub find_id-All :
    (P : Entry → Type 0) (o : ℕ → Session) (id : Bytes) (es : List Entry) {e : Entry}
    → All P es
    → find_id o id es ≡ some e
    → P e
unfolding find_id
find_id-All P o id [] h q = cc
find_id-All P o id (x ∷ es) {e} h q = elim (Bool-cases (same (o x.ref).id id)) [
  | inl found ↦ let this : x ≡ e = ground arith in subst P this h.0
  | inr missed ↦
      let rest : find_id o id es ≡ some e = ground arith in find_id-All P o id es h.1 rest
]
