-- ===== src/Node/Turns/Stopped.antt =====
-- A session whose read or handshake has failed is gone, and reads nothing more.
use aurum.Base.{none, subst, true, false, ◌∙◌, ℕ, ◌≡◌, refl, arith, ◌∷◌, ◌==◌, ap}
use aurum.World.{World}
use aurum.Outcome.{Returns, returns, Ends-bind, Ends-ok}
use aurum.State.Counts.{count_id-ids}
use aurum.State.Invariant.{Inv}
use aurum.State.Removal.{remove_session-Removed}
use aurum.State.Removal.Lists.{without-count}
use aurum.State.Defs.{count_id, Configuration, start}
use aurum.Node.Reading.{
  header, body, message, stop_reading, drop_session, on_header, on_body, on_read, on_accept,
  stopped, Reading,
}
use aurum.Node.History.{starts_of, starts_of-append}
use aurum.Node.Safety.{Reaches-Inv}
use aurum.Node.Turns.{
  finish, Loses, read_fails, accept_fails, Loses-Turn, Turns-Reaches, Fills, Waiting, reads,
  Program, update, first, Turn, begins, works, happens, receives, accepts, Turns, here, there, boot,
  State,
}
use aurum.Node.Turns.Once.{begun, Once, Turn-Once, Turns-Once, boot-Once}

module _ (w : World) where
  -- A session that has stopped is not the one whose turn it is.
  stays :
      (r ref : ℕ) (v : Waiting) (x y : Program)
      → y.waiting ≡ update x.waiting ref v
      → (r ≡ ref → ⊥)
      → x.waiting r ≡ reads stopped
      → y.waiting r ≡ reads stopped
  stays r ref v x y waiting other stop =
      let missed : (r == ref) ≡ false = ground (arith, other) in rw (waiting, missed) stop

  Turn-stopped :
      (r : ℕ) (x y : Program)
      → Turn w x y
      → Once x
      → x.waiting r ≡ reads stopped
      → y.waiting r ≡ reads stopped
  Turn-stopped r x y (begins before ref after e state waiting) once stop =
      stays r ref (first (x.state.object ref).type) x y waiting
        (λ this. ground (
          arith,
          this,
          once r,
          ap begun stop,
          ap (starts_of r) e,
          starts_of-append r before (start ref ∷ after),
        ))
        stop
  Turn-stopped r x y (works before task after work e step waiting) once stop = rw waiting stop
  Turn-stopped r x y (happens event other step waiting) once stop = rw waiting stop
  Turn-stopped r x y (receives ref reading reading' b at fills e waiting) once stop =
      stays r ref (reads reading') x y waiting
        (λ this.
          let last : reading ≡ stopped = cc in subst (λ reading''. Fills reading'' b) last fills)
        stop
  Turn-stopped r x y (accepts ref error reading' at e waiting) once stop =
      stays r ref (reads reading') x y waiting (λ this. cc) stop

  Turns-stopped :
      (r : ℕ) {x y : Program}
      → Turns w x y
      → Once x
      → x.waiting r ≡ reads stopped
      → y.waiting r ≡ reads stopped
  Turns-stopped r here once stop = stop
  Turns-stopped r (there {x} {y} turn rest) once stop =
      Turns-stopped r rest (Turn-Once w turn once) (Turn-stopped r x y turn once stop)

  -- What a session does when a read or its handshake has ended with an error.
  abbrev Gone : ℕ → State → Reading × State → Type 0
  Gone ref s r = (r.0 ≡ stopped) × (count_id r.1.object (s.object ref).id r.1.sessions ≡ 0)

  stop_reading-Gone : (ref : ℕ) (s : State) → Inv s → Returns (Gone ref s) (stop_reading w ref s)
  unfolding stop_reading drop_session
  stop_reading-Gone ref s v =
      Ends-bind
        (Ends-bind (remove_session-Removed w (s.object ref).id s v) (λ r removed. returns (
          rw removed.1.sessions (
            count_id-ids _ s.object (s.object ref).id _ removed.1.keys.id
            ∙ without-count s.object (s.object ref).id s.sessions))))
        (λ t gone. returns (refl, gone))

  finish-Gone :
      (ref : ℕ) (reading : Reading) (s : State)
      → Fills reading none
      → Inv s
      → Returns (Gone ref s) (finish w ref reading none s)
  unfolding finish on_header on_body on_read
  finish-Gone ref header s fills v = stop_reading-Gone ref s v
  finish-Gone ref (body n) s fills v = stop_reading-Gone ref s v
  finish-Gone ref message s fills v = stop_reading-Gone ref s v
  finish-Gone ref stopped s fills v = absurd fills

  Loses-Gone :
      (ref : ℕ) (x y : Program)
      → Loses w ref x y
      → Inv x.state
      → (y.waiting ref ≡ reads stopped)
        × (count_id y.state.object (x.state.object ref).id y.state.sessions ≡ 0)
  unfolding on_accept
  Loses-Gone ref x y (read_fails reading reading' at fills e waiting) v =
      let (last, gone) = Ends-ok e (finish-Gone ref reading x.state fills v) in
      let own : (ref == ref) ≡ true = ground arith in (rw (waiting, own, last) refl, gone)
  Loses-Gone ref x y (accept_fails reading' at e waiting) v =
      let (last, gone) = Ends-ok e (stop_reading-Gone ref x.state v) in
      let own : (ref == ref) ≡ true = ground arith in (rw (waiting, own, last) refl, gone)

-- When a read of a session, or its handshake, ends with an error, the session is taken out of the
-- registry, and it never reads again: it has stopped, and is still stopped whatever happens later.
pub Turns-stay_stopped :
    (w : World) (c : Configuration) (x y z : Program) (ref : ℕ)
    → Turns w (boot w c) x
    → Loses w ref x y
    → Turns w y z
    → (count_id y.state.object (x.state.object ref).id y.state.sessions ≡ 0)
      × (z.waiting ref ≡ reads stopped)
unfolding boot
Turns-stay_stopped w c x y z ref run loses later =
    let once = Turns-Once w run (boot-Once w c) in
    let (stop, gone) = Loses-Gone w ref x y loses (Reaches-Inv w c x.state (Turns-Reaches w run)) in
    (gone, Turns-stopped w ref later (Turn-Once w (Loses-Turn w loses) once) stop)
