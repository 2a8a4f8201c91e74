-- ===== src/State/Invariant/Objects.antt =====
-- Stores through a pointer, new objects and insertions keep the state well formed.
use aurum.Base.{
  ℕ, ◌+◌, ◌≤◌, ◌<◌, ◌≡◌, none, List, [], ◌∷◌, arith, length, All, Option-cases, inl, inr, All-perm,
  if◌then◌else◌, ◌==◌,
}
use native.Mathlib.Bridge.{le_prop}
use mathlib.Core.List.Perm
use aurum.Session.{Session}
use aurum.World.{World, Entry}
use aurum.State.Defs.{State, count_id, find_id, assign, allocate}
use aurum.State.Registry.{add_session}
use aurum.State.Counts.{count_id-perm, count_id-ids, count_id-update, find_id-count, find_id-some}
use aurum.State.Invariant.Defs.{Inv}

-- A store that keeps the id of the session.
pub assign-Inv :
    (ref : ℕ) (session : Session) (s : State)
    → session.id ≡ (s.object ref).id
    → Inv s
    → Inv (assign ref session s)
unfolding assign
assign-Inv ref session s e v = record {
  unique = λ id.
      rw (← count_id-ids s.object (assign ref session s).object id s.sessions ids) (v.unique id);
  allocated = v.allocated;
  sixteen = λ r. rw (← ids r) (v.sixteen r);
  self = v.self;
}
  where
    ids : (r : ℕ) → (s.object r).id ≡ (if r == ref then session else s.object r).id
    ids r = ground arith

abbrev pub Below : ℕ → List Entry → Type 0
Below n = All (λ e. e.ref < n)

pub Below-mono : (m n : ℕ) (es : List Entry) → m ≤ n → Below m es → Below n es
Below-mono m n [] h b = tt
Below-mono m n (e ∷ es) h b = (omega arith, Below-mono m n es h b.1)

pub allocate-Inv :
    (session : Session) (s : State) → length session.id ≡ 16 → Inv s → Inv (allocate session s).0
unfolding allocate assign
allocate-Inv session s h v = record {
  unique = λ id.
      rw (count_id-update s.object s.next_ref session id s.sessions v.allocated) (v.unique id);
  allocated = Below-mono s.next_ref (s.next_ref + 1) s.sessions (omega arith) v.allocated;
  sixteen = λ r. ground (arith, v.sixteen r);
  self = v.self;
}

module _ (w : World) where
  pub add_session-Inv :
      (ref : ℕ) (s : State) → ref < s.next_ref → Inv s → Inv (add_session w ref s).1
  unfolding add_session
  add_session-Inv ref s h v = elim (Option-cases (find_id s.object (s.object ref).id s.sessions)) [
    | inr (e, found) ↦ rw (found, add_session) v
    | inl missing ↦ rw (missing, add_session) (inserted missing)
  ]
    where
      new : Entry
      new = record { ref = ref; filed = (s.object ref).node_id }

      inserted :
          find_id s.object (s.object ref).id s.sessions ≡ none
          → Inv (record s { sessions = w.insert new s.sessions })
      inserted missing = record {
        unique = λ id.
            unfold count_id in
            rw (count_id-perm s.object id (w.insert-perm new s.sessions)) (
              ground
                (arith, v.unique id, find_id-count s.object (s.object ref).id s.sessions missing));
        allocated =
            All-perm (λ e. e.ref < s.next_ref) (λ e. le_prop)
              (Perm.symm (w.insert-perm new s.sessions)) (h, v.allocated);
        sixteen = v.sixteen;
        self = v.self;
      }

  -- After `add_session` the id of the session is registered once, whatever it returned.
  pub add_session-once :
      (ref : ℕ) (s : State)
      → Inv s
      → count_id (add_session w ref s).1.object (s.object ref).id (add_session w ref s).1.sessions
        ≡ 1
  unfolding add_session
  add_session-once ref s v = elim (Option-cases (find_id s.object (s.object ref).id s.sessions)) [
    | inr (e, found) ↦
        rw (found, add_session)
          (ground (
            arith,
            v.unique (s.object ref).id,
            find_id-some s.object (s.object ref).id s.sessions {e = e} found,
          ))
    | inl missing ↦
        rw (missing, add_session)
          (rw
            (count_id-perm s.object (s.object ref).id
              (w.insert-perm (record { ref = ref; filed = (s.object ref).node_id }) s.sessions))
            (unfold count_id in
              ground (arith, find_id-count s.object (s.object ref).id s.sessions missing)))
  ]
