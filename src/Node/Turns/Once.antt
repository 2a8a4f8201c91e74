-- ===== src/Node/Turns/Once.antt =====
-- A session is started once, and has one read at a time.
use aurum.Base.{
  Bool, true, false, ◌∙◌, ℕ, ◌+◌, ◌≤◌, ◌≡◌, refl, arith, List, ◌∷◌, ◌++◌, ◌==◌, if◌then◌else◌, ap,
}
use aurum.Protocol.SessionType.{SessionType, tcp, websocket}
use aurum.World.{World}
use aurum.State.Defs.{Task, Configuration, start}
use aurum.Node.Listeners.{initial}
use aurum.Node.Steps.{take_task}
use aurum.Node.History.{Evolves, Evolves-refl, starts_of, starts_of-append, made}
use aurum.Node.History.Runs.{Step-Evolves}
use aurum.Node.Turns.{
  Waiting, unstarted, accepting, reads, Program, update, first, Turn, begins, works, happens,
  receives, accepts, Turns, here, there, boot, Turn-Step,
}

-- Whether a session has been started.
abbrev pub begun : Waiting → ℕ
begun unstarted = 0
begun accepting = 1
begun (reads reading) = 1

-- The starts of a session that are posted or have run: one at most, and none before it is made.
abbrev pub Once : Program → Type 0
Once x = (r : ℕ) → starts_of r x.state.posted + begun (x.waiting r) ≤ made 0 x.state.next_ref r

begun-first : (type : SessionType) → begun (first type) ≡ 1
begun-first tcp = refl
begun-first websocket = refl

begun-update :
    (waiting : ℕ → Waiting) (ref r : ℕ) (v : Waiting)
    → begun (update waiting ref v r) ≡ (if r == ref then begun v else begun (waiting r))
begun-update waiting ref r v = by_test (r == ref)
  where
    by_test :
        (c : Bool) → begun (if c then v else waiting r) ≡ (if c then begun v else begun (waiting r))
    by_test true = refl
    by_test false = refl

module _ (w : World) where
  Turn-Evolves : {x y : Program} → Turn w x y → Evolves x.state y.state
  Turn-Evolves {x} turn = Step-Evolves w (Turn-Step w turn) (Evolves-refl x.state)

  -- A turn in which no session is started.
  goes_on :
      {x y : Program}
      → Turn w x y
      → ((r : ℕ) → begun (y.waiting r) ≡ begun (x.waiting r))
      → Once x
      → Once y
  goes_on {x} {y} turn same once =
      let evolves = Turn-Evolves turn in
      λ r. ground (arith, evolves.starts r, evolves.next_ref, same r, once r)

  -- A session that has been started waits for something else.
  waits_on :
      (x y : Program) (ref : ℕ) (v : Waiting)
      → begun v ≡ 1
      → begun (x.waiting ref) ≡ 1
      → y.waiting ≡ update x.waiting ref v
      → (r : ℕ) → begun (y.waiting r) ≡ begun (x.waiting r)
  waits_on x y ref v new old waiting r =
      ap (λ f. begun (f r)) waiting ∙ begun-update x.waiting ref r v ∙ by_test (r == ref) refl
    where
      by_test :
          (c : Bool)
          → (r == ref) ≡ c
          → (if c then begun v else begun (x.waiting r)) ≡ begun (x.waiting r)
      by_test true e = let this : r ≡ ref = ground arith in rw (this, new, old) refl
      by_test false e = refl

  begins-Once :
      (x y : Program) (before : List Task) (ref : ℕ) (after : List Task)
      → x.state.posted ≡ before ++ (start ref ∷ after)
      → y.state ≡ take_task w before after x.state
      → y.waiting ≡ update x.waiting ref (first (x.state.object ref).type)
      → Once x
      → Once y
  unfolding take_task
  begins-Once x y before ref after e state waiting once r =
      rw (state, waiting)
        (ground (
          arith,
          once r,
          ap (starts_of r) e,
          starts_of-append r before (start ref ∷ after),
          starts_of-append r before after,
          begun-update x.waiting ref r (first (x.state.object ref).type),
          begun-first (x.state.object ref).type,
        ))

  pub Turn-Once : {x y : Program} → Turn w x y → Once x → Once y
  Turn-Once (begins {x} {y} before ref after e state waiting) once =
      begins-Once x y before ref after e state waiting once
  Turn-Once (works before task after work e step waiting) once =
      goes_on (works before task after work e step waiting) (λ r. rw waiting refl) once
  Turn-Once (happens event other step waiting) once =
      goes_on (happens event other step waiting) (λ r. rw waiting refl) once
  Turn-Once (receives {x} {y} ref reading reading' b at fills e waiting) once =
      goes_on (receives ref reading reading' b at fills e waiting)
        (waits_on x y ref (reads reading') refl (ap begun at) waiting) once
  Turn-Once (accepts {x} {y} ref error reading' at e waiting) once =
      goes_on (accepts ref error reading' at e waiting)
        (waits_on x y ref (reads reading') refl (ap begun at) waiting) once

  pub Turns-Once : {x y : Program} → Turns w x y → Once x → Once y
  Turns-Once here once = once
  Turns-Once (there turn rest) once = Turns-Once rest (Turn-Once turn once)

  pub boot-Once : (c : Configuration) → Once (boot w c)
  unfolding boot initial
  boot-Once c r = omega arith

begun-unstarted : (v : Waiting) → begun v ≡ 0 → v ≡ unstarted
begun-unstarted unstarted h = refl
begun-unstarted accepting h = absurd (omega arith)
begun-unstarted (reads reading) h = absurd (omega arith)

-- Whenever the start of a session runs, the session waits for nothing yet, and no other start of it
-- is posted: a session is started once, and has at most one read or handshake under way at any time.
pub Turns-started_once :
    (w : World) (c : Configuration) (x : Program) (before : List Task) (ref : ℕ) (after : List Task)
    → Turns w (boot w c) x
    → x.state.posted ≡ before ++ (start ref ∷ after)
    → (x.waiting ref ≡ unstarted) × (starts_of ref (before ++ after) ≡ 0)
Turns-started_once w c x before ref after run e =
    let once = Turns-Once w run (boot-Once w c) ref in
    let all = ap (starts_of ref) e in
    let others = starts_of-append ref before after in
    let with_this = starts_of-append ref before (start ref ∷ after) in
    (
      begun-unstarted (x.waiting ref) (ground (arith, once, all, with_this)),
      ground (arith, once, all, others, with_this),
    )
