-- ===== src/Node/Turns.antt =====
-- The reads of every session in turn: `start` issues the first, and each completion the next.
pub mod Once
pub mod Stopped
use aurum.Base.{
  ℕ, ◌≡◌, refl, ap, Bool, none, some, Option, List, ◌∷◌, ◌++◌, length, ◌==◌, if◌then◌else◌, true,
}
use aurum.Outcome.{Outcome, ok, ◌>>=◌}
use aurum.Bytes.{Bytes}
use aurum.Protocol.SessionType.{SessionType, tcp, websocket}
use aurum.World.{World}
use aurum.State.Defs.{State, Task, Configuration, start, write, dial}
use aurum.Node.Reading.{
  Reading, header, body, message, stopped, on_header, on_body, on_read, on_accept,
}
use aurum.Node.Listeners.{initial}
use aurum.Node.Steps.{
  Buffer, bytes_of, Event, tcp_accepted, websocket_accepted, disconnects_all, connects, disconnects,
  header_read, body_read, message_read, written_out, accepted, run_task, run_event, take_task,
}
use aurum.Node.Steps

-- What a session waits for: to be started, the WebSocket handshake, or the read that it has issued.
pub data Waiting : Type 0 where
  unstarted accepting : Waiting
  reads : Reading → Waiting

pub record Program : Type 0 where
  pub state : State
  pub waiting : ℕ → Waiting

abbrev pub update : (ℕ → Waiting) → ℕ → Waiting → ℕ → Waiting
update waiting ref v r = if r == ref then v else waiting r

-- `tcp_session::start` and `websocket_session::start`.
abbrev pub first : SessionType → Waiting
first tcp = reads header
first websocket = accepting

-- A read ends with an error, or with as many bytes as it asks for.
abbrev pub Fills : Reading → Option Buffer → Type 0
Fills stopped b = ⊥
Fills reading none = Unit
Fills header (some b) = length b.bytes ≡ 4
Fills (body n) (some b) = length b.bytes ≡ n
Fills message (some b) = Unit

abbrev pub IsWork : Task → Type 0
IsWork (start ref) = ⊥
IsWork task = Unit

-- No completion of a read or of a handshake.
abbrev pub IsOther : Event → Type 0
IsOther (header_read ref b) = ⊥
IsOther (body_read ref b) = ⊥
IsOther (message_read ref b) = ⊥
IsOther (accepted ref error) = ⊥
IsOther event = Unit

module _ (w : World) where
  -- The completion of a read; a session that has stopped has none.
  unfoldable pub finish : ℕ → Reading → Option Buffer → State → Outcome (Reading × State)
  finish ref header b s = on_header w ref (bytes_of b) s
  finish ref (body n) b s = on_body w ref (bytes_of b) s
  finish ref message b s = on_read w ref (bytes_of b) s
  finish ref stopped b s = ok (stopped, s)

  pub data Turn : Program → Program → Type 0 where
    begins :
        {x y : Program} (before : List Task) (ref : ℕ) (after : List Task)
        → x.state.posted ≡ before ++ (start ref ∷ after)
        → y.state ≡ take_task w before after x.state
        → y.waiting ≡ update x.waiting ref (first (x.state.object ref).type)
        → Turn x y
    works :
        {x y : Program} (before : List Task) (task : Task) (after : List Task)
        → IsWork task
        → x.state.posted ≡ before ++ (task ∷ after)
        → run_task w task (take_task w before after x.state) ≡ ok y.state
        → y.waiting ≡ x.waiting
        → Turn x y
    happens :
        {x y : Program} (event : Event)
        → IsOther event
        → run_event w event x.state ≡ ok y.state
        → y.waiting ≡ x.waiting
        → Turn x y
    receives :
        {x y : Program} (ref : ℕ) (reading reading' : Reading) (b : Option Buffer)
        → x.waiting ref ≡ reads reading
        → Fills reading b
        → finish ref reading b x.state ≡ ok (reading', y.state)
        → y.waiting ≡ update x.waiting ref (reads reading')
        → Turn x y
    accepts :
        {x y : Program} (ref : ℕ) (error : Bool) (reading' : Reading)
        → x.waiting ref ≡ accepting
        → on_accept w ref error x.state ≡ ok (reading', y.state)
        → y.waiting ≡ update x.waiting ref (reads reading')
        → Turn x y

  -- A turn in which a read of the session, or its handshake, ends with an error.
  pub data Loses (ref : ℕ) : Program → Program → Type 0 where
    read_fails :
        {x y : Program} (reading reading' : Reading)
        → x.waiting ref ≡ reads reading
        → Fills reading none
        → finish ref reading none x.state ≡ ok (reading', y.state)
        → y.waiting ≡ update x.waiting ref (reads reading')
        → Loses ref x y
    accept_fails :
        {x y : Program} (reading' : Reading)
        → x.waiting ref ≡ accepting
        → on_accept w ref true x.state ≡ ok (reading', y.state)
        → y.waiting ≡ update x.waiting ref (reads reading')
        → Loses ref x y

  pub data Turns : Program → Program → Type 0 where
    here : {x : Program} → Turns x x
    there : {x y z : Program} → Turn x y → Turns y z → Turns x z

  -- The program before anything has happened.
  unfoldable pub boot : Configuration → Program
  boot c = record { state = initial w c; waiting = λ r. unstarted }

  -- A turn is a step of the program.
  pub Turn-Step : {x y : Program} → Turn x y → Steps.Step w x.state y.state
  unfolding run_task run_event finish
  Turn-Step (begins before ref after e state waiting) =
      Steps.runs before (start ref) after e (rw state refl)
  Turn-Step (works before task after work e step waiting) = Steps.runs before task after e step
  Turn-Step (happens event other step waiting) = Steps.happens event step
  Turn-Step (receives ref header reading' b at fills e waiting) =
      Steps.happens (header_read ref b) (ap (λ m. m >>= λ r. ok r.1) e)
  Turn-Step (receives ref (body n) reading' b at fills e waiting) =
      Steps.happens (body_read ref b) (ap (λ m. m >>= λ r. ok r.1) e)
  Turn-Step (receives ref message reading' b at fills e waiting) =
      Steps.happens (message_read ref b) (ap (λ m. m >>= λ r. ok r.1) e)
  Turn-Step (receives ref stopped reading' b at fills e waiting) = absurd fills
  Turn-Step (accepts ref error reading' at e waiting) =
      Steps.happens (accepted ref error) (ap (λ m. m >>= λ r. ok r.1) e)

  pub Loses-Turn : {ref : ℕ} {x y : Program} → Loses ref x y → Turn x y
  Loses-Turn {ref} (read_fails reading reading' at fills e waiting) =
      receives ref reading reading' none at fills e waiting
  Loses-Turn {ref} (accept_fails reading' at e waiting) = accepts ref true reading' at e waiting

  pub Turns-Reaches : {x y : Program} → Turns x y → Steps.Reaches w x.state y.state
  Turns-Reaches here = Steps.here
  Turns-Reaches (there turn rest) = Steps.there (Turn-Step turn) (Turns-Reaches rest)
