-- ===== src/Node/History.antt =====
-- What the state of the program never loses, whatever it does: `Evolves s t` relates a state to any
-- later one. The modules below follow every operation of the state, every handler, the kernel and
-- the completions of the sessions.
pub mod Registry
pub mod Handlers
pub mod Kernel
pub mod Runs
pub mod Announced
use aurum.Base.{
  ℕ, ◌+◌, ◌≤◌, ◌<◌, ◌≡◌, sym, refl, ◌∙◌, ◌==◌, if◌then◌else◌, arith, List, [], ◌∷◌, ◌++◌, ◌&&◌, leb,
  ltb, if_cases, false,
}
use aurum.Outcome.{Fault, Outcome, ◌>>=◌, Ends, returns, ok, fault, fails}
use aurum.Bytes.{Bytes}
use aurum.Session.{Session}
use aurum.World.{Entry}
use aurum.State.Defs.{State, Task, write, start, dial, assign, allocate, post}

-- How often the start of a session is among the tasks.
abbrev pub starts_of : ℕ → List Task → ℕ
starts_of r [] = 0
starts_of r (start ref ∷ tasks) = (if ref == r then 1 else 0) + starts_of r tasks
starts_of r (task ∷ tasks) = starts_of r tasks

-- Whether a pointer is given out between two values of `next_ref`.
abbrev pub made : ℕ → ℕ → ℕ → ℕ
made m n r = if leb m r && ltb r n then 1 else 0

pub record Evolves (s t : State) : Type 0 where
  pub configuration : t.configuration ≡ s.configuration
  pub node_id : t.node_id ≡ s.node_id
  -- A pointer is never used again, and the object keeps its id and its class.
  pub next_ref : s.next_ref ≤ t.next_ref
  pub id : (r : ℕ) → r < s.next_ref → (t.object r).id ≡ (s.object r).id
  pub type : (r : ℕ) → r < s.next_ref → (t.object r).type ≡ (s.object r).type
  -- A start is posted for a new session only, and once.
  pub starts : (r : ℕ) → starts_of r t.posted ≤ starts_of r s.posted + made s.next_ref t.next_ref r

pub starts_of-append :
    (r : ℕ) (xs ys : List Task) → starts_of r (xs ++ ys) ≡ starts_of r xs + starts_of r ys
starts_of-append r [] ys = omega arith
starts_of-append r (write ref m ∷ xs) ys = starts_of-append r xs ys
starts_of-append r (start ref ∷ xs) ys = omega (arith, starts_of-append r xs ys)
starts_of-append r (dial host port ∷ xs) ys = starts_of-append r xs ys

-- From the first state on no start of the session was posted that was not there.
abbrev pub Startable : State → ℕ → State → Type 0
Startable s ref t = starts_of ref t.posted < starts_of ref s.posted + made s.next_ref t.next_ref ref

pub Evolves-refl : (s : State) → Evolves s s
Evolves-refl s = record {
  configuration = refl;
  node_id = refl;
  next_ref = omega arith;
  id = λ r h. refl;
  type = λ r h. refl;
  starts = λ r. omega arith;
}

pub Evolves-trans : {s t u : State} → Evolves s t → Evolves t u → Evolves s u
Evolves-trans a b = record {
  configuration = b.configuration ∙ a.configuration;
  node_id = b.node_id ∙ a.node_id;
  next_ref = omega (arith, a.next_ref, b.next_ref);
  id = λ r h. b.id r (omega (arith, a.next_ref)) ∙ a.id r h;
  type = λ r h. b.type r (omega (arith, a.next_ref)) ∙ a.type r h;
  starts = λ r. ground (arith, a.starts r, b.starts r, a.next_ref, b.next_ref);
}

-- Whether the code returns or throws is left open.
abbrev pub Later : State → Outcome State → Type 0
Later s m = Ends (λ e. Unit {0}) (Evolves s) m

-- The same for a result beside the state.
abbrev pub LaterWith {ℓ} : {A : Type ℓ} → State → Outcome (A × State) → Type ℓ
LaterWith s m = Ends (λ e. Unit {0}) (λ r. Evolves s r.1) m

-- Nothing is asked of what a read returns.
pub after {ℓ κ} :
    {A : Type ℓ} {B : Type κ} {P : B → Type 0} (m : Outcome A) {f : A → Outcome B}
    → ((a : A) → Ends (λ e. Unit {0}) P (f a))
    → Ends (λ e. Unit {0}) P (m >>= f)
after (ok a) h = h a
after (fault e) h = fails tt

module _ {s₀ : State} where
  -- A change that leaves the objects alone.
  pub fields-Evolves :
      (s : State) {t : State}
      → t.configuration ≡ s.configuration
      → t.node_id ≡ s.node_id
      → t.next_ref ≡ s.next_ref
      → t.object ≡ s.object
      → t.posted ≡ s.posted
      → Evolves s₀ s
      → Evolves s₀ t
  fields-Evolves s hc hn hr ho hp h = record {
    configuration = hc ∙ h.configuration;
    node_id = hn ∙ h.node_id;
    next_ref = omega (arith, hr, h.next_ref);
    id = λ r old. rw ho (h.id r old);
    type = λ r old. rw ho (h.type r old);
    starts = λ r. rw (hp, hr) (h.starts r);
  }

  -- Other tasks, with no start that was not there.
  pub posted-Evolves :
      (tasks : List Task) (s : State)
      → ((r : ℕ) → starts_of r tasks ≤ starts_of r s.posted)
      → Evolves s₀ s
      → Evolves s₀ (record s { posted = tasks })
  posted-Evolves tasks s fewer h = record {
    configuration = h.configuration;
    node_id = h.node_id;
    next_ref = h.next_ref;
    id = h.id;
    type = h.type;
    starts = λ r. omega (arith, fewer r, h.starts r);
  }

  -- The start of a session that has none posted yet.
  pub start-Evolves :
      (ref : ℕ) (s : State) → Startable s₀ ref s → Evolves s₀ s → Evolves s₀ (post (start ref) s)
  unfolding post
  start-Evolves ref s unstarted h = record {
    configuration = h.configuration;
    node_id = h.node_id;
    next_ref = h.next_ref;
    id = h.id;
    type = h.type;
    starts =
        λ r. ground (arith, starts_of-append r s.posted (start ref ∷ []), h.starts r, unstarted);
  }

  -- A store to a session object that keeps its id and class.
  pub assign-Evolves :
      (ref : ℕ) (session : Session) (s : State)
      → session.id ≡ (s.object ref).id
      → session.type ≡ (s.object ref).type
      → Evolves s₀ s
      → Evolves s₀ (assign ref session s)
  unfolding assign
  assign-Evolves ref session s hi ht h = record {
    configuration = h.configuration;
    node_id = h.node_id;
    next_ref = h.next_ref;
    id = λ r old. sym (ids r) ∙ h.id r old;
    type = λ r old. sym (types r) ∙ h.type r old;
    starts = h.starts;
  }
    where
      ids : (r : ℕ) → (s.object r).id ≡ (if r == ref then session else s.object r).id
      ids r = ground arith

      types : (r : ℕ) → (s.object r).type ≡ (if r == ref then session else s.object r).type
      types r = ground arith

  pub allocate-Evolves :
      (session : Session) (s : State) → Evolves s₀ s → Evolves s₀ (allocate session s).0
  unfolding allocate assign
  allocate-Evolves session s h = record {
    configuration = h.configuration;
    node_id = h.node_id;
    next_ref = omega (arith, h.next_ref);
    id = λ r old.
        let other : (r == s.next_ref) ≡ false = ground (arith, h.next_ref, old) in
        rw other (h.id r old);
    type = λ r old.
        let other : (r == s.next_ref) ≡ false = ground (arith, h.next_ref, old) in
        rw other (h.type r old);
    starts = λ r. ground (arith, h.starts r);
  }
