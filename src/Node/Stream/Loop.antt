-- ===== src/Node/Stream/Loop.antt =====
-- The fuel of `read_stream` is enough: it satisfies the equation of the loop, and the loop ends.
use aurum.Base.{
  ℕ, zero, suc, ◌+◌, ◌≤◌, ◌<◌, ◌≡◌, refl, none, some, arith, length, length-drop, Option-cases, inl,
  inr, ◌∙◌, sym, Option, ◌-◌,
}
use aurum.Outcome.{Fault, Outcome, ok, ◌>>=◌, fault, Ends, returns}
use aurum.Node.History.{after}
use aurum.Bytes.{Bytes}
use aurum.World.{World}
use aurum.State.Defs.{State}
use aurum.Node.Reading.{Reading, header, body, message, stopped, on_header, on_body, receive}
use aurum.Node.Stream.{exact, available, measure, complete, read_on, read_stream}

-- What is left of a stream.
exact-length :
    (n : ℕ) (stream : Bytes) {bytes rest : Bytes}
    → exact n stream ≡ some (bytes, rest)
    → length stream ≡ n + length rest
unfolding exact
exact-length n stream h = ground (arith, length-drop n stream)

module _ (w : World) (ref : ℕ) where
  -- One turn of the loop takes a completion off the measure.
  pub turn :
      (reading : Reading) (stream : Bytes) (s : State) {bytes rest : Bytes} {B : Type 0}
      (f g : Reading × State → Outcome B)
      → available reading stream ≡ some (bytes, rest)
      → ((r : Reading × State) → measure r.0 rest < measure reading stream → f r ≡ g r)
      → (complete w ref reading bytes s >>= f) ≡ (complete w ref reading bytes s >>= g)
  unfolding available complete on_header on_body
  turn header stream s f g e h = h _ (omega (arith, exact-length 4 stream e))
  turn (body n) stream s {bytes} f g e h = after (receive w ref bytes s)
    where
      after :
          (m : Outcome State)
          → ((m >>= λ s'. ok (header, s')) >>= f) ≡ ((m >>= λ s'. ok (header, s')) >>= g)
      after (ok s') = h _ (omega (arith, exact-length n stream e))
      after (fault e') = refl
  turn message stream s f g e h = cc
  turn stopped stream s f g e h = cc

  nothing_available :
      (reading : Reading) (stream : Bytes)
      → measure reading stream ≡ 0
      → available reading stream ≡ none
  unfolding available exact
  nothing_available header stream h = ground arith
  nothing_available (body n) stream h = absurd (omega arith)
  nothing_available message stream h = refl
  nothing_available stopped stream h = refl

  more_fuel :
      (fuel : ℕ) (reading : Reading) (stream : Bytes) (s : State)
      → measure reading stream ≤ fuel
      → read_on w ref (suc fuel) reading stream s ≡ read_on w ref fuel reading stream s
  unfolding read_on
  more_fuel zero reading stream s h =
      rw (nothing_available reading stream (omega arith), read_on) refl
  more_fuel (suc fuel) reading stream s h = elim (Option-cases (available reading stream)) [
    | inl waiting ↦ rw (waiting, read_on) refl
    | inr ((bytes, rest), e) ↦
        rw (e, read_on)
          (turn reading stream s _ _ e (λ r less. more_fuel fuel r.0 rest r.1 (omega arith)))
  ]

  -- Any fuel from the measure on gives the same.
  enough :
      (extra : ℕ) (reading : Reading) (stream : Bytes) (s : State) (fuel : ℕ)
      → fuel ≡ extra + measure reading stream
      → read_on w ref fuel reading stream s ≡ read_stream w ref reading stream s
  unfolding read_stream
  enough zero reading stream s fuel h =
      let same : fuel ≡ measure reading stream = omega arith in rw same
  enough (suc extra) reading stream s fuel h =
      let more : fuel ≡ suc (extra + measure reading stream) = omega arith in
      rw more (
        more_fuel (extra + measure reading stream) reading stream s (omega arith)
        ∙ enough extra reading stream s _ refl)

  -- A turn of the loop on what is available, and `k` on what follows.
  abbrev pub turn_then :
      (Reading → Bytes → State → Outcome (Reading × Bytes × State))
      → Reading
      → Bytes
      → State
      → Option (Bytes × Bytes)
      → Outcome (Reading × Bytes × State)
  turn_then k reading stream s none = ok (reading, stream, s)
  turn_then k reading stream s (some (bytes, rest)) =
      complete w ref reading bytes s >>= λ (reading', s'). k reading' rest s'

  -- The loop satisfies its equation without a bound.
  pub read_stream-loop :
      (reading : Reading) (stream : Bytes) (s : State)
      → read_stream w ref reading stream s
        ≡ turn_then (read_stream w ref) reading stream s (available reading stream)
  unfolding read_on
  read_stream-loop reading stream s =
      sym (enough 1 reading stream s (suc (measure reading stream)) (omega arith))
      ∙ elim (Option-cases (available reading stream)) [
        | inl waiting ↦ rw (waiting, read_on) refl
        | inr ((bytes, rest), e) ↦
            rw (e, read_on) (turn reading stream s _ _ e (λ r less. steady r.0 rest r.1 less))
      ]
    where
      steady :
          (reading' : Reading) (rest : Bytes) (s' : State)
          → measure reading' rest < measure reading stream
          → read_on w ref (measure reading stream) reading' rest s'
            ≡ read_stream w ref reading' rest s'
      steady reading' rest s' less =
          enough (measure reading stream - measure reading' rest) reading' rest s' _ (omega arith)

  -- A run of the loop of completions to its end: the read that is issued is completed as long as the
  -- stream has its bytes, until it has not, or until a completion fails.
  pub data Ran : Reading → Bytes → State → Outcome (Reading × Bytes × State) → Type 0 where
    waits :
        {reading : Reading} {stream : Bytes} {s : State}
        → available reading stream ≡ none
        → Ran reading stream s (ok (reading, stream, s))
    breaks :
        {reading : Reading} {stream bytes rest : Bytes} {s : State} {e : Fault}
        → available reading stream ≡ some (bytes, rest)
        → complete w ref reading bytes s ≡ fault e
        → Ran reading stream s (fault e)
    goes :
        {reading reading' : Reading} {stream bytes rest : Bytes} {s s' : State}
        {end : Outcome (Reading × Bytes × State)}
        → available reading stream ≡ some (bytes, rest)
        → complete w ref reading bytes s ≡ ok (reading', s')
        → Ran reading' rest s' end
        → Ran reading stream s end

  -- A completion makes the measure smaller.
  completes :
      (reading : Reading) (stream : Bytes) (s : State) {bytes rest : Bytes}
      → available reading stream ≡ some (bytes, rest)
      → Ends
          (λ e. Unit {0})
          (λ r. measure r.0 rest < measure reading stream)
          (complete w ref reading bytes s)
  unfolding available complete on_header on_body
  completes header stream s e = returns (omega (arith, exact-length 4 stream e))
  completes (body n) stream s {bytes} e =
      after (receive w ref bytes s) λ s'. returns (omega (arith, exact-length n stream e))
  completes message stream s e = cc
  completes stopped stream s e = cc

  read_on-Ran :
      (fuel : ℕ) (reading : Reading) (stream : Bytes) (s : State)
      → measure reading stream ≤ fuel
      → Ran reading stream s (read_on w ref fuel reading stream s)
  unfolding read_on
  read_on-Ran zero reading stream s h = waits (nothing_available reading stream (omega arith))
  read_on-Ran (suc fuel) reading stream s h = elim (Option-cases (available reading stream)) [
    | inl waiting ↦ rw (waiting, read_on) (waits waiting)
    | inr ((bytes, rest), e) ↦
        rw (e, read_on)
          (by_completion bytes rest e
            (λ reading' s' less. read_on-Ran fuel reading' rest s' (omega arith))
            (complete w ref reading bytes s) refl (completes reading stream s e))
  ]
    where
      by_completion :
          (bytes rest : Bytes)
          → available reading stream ≡ some (bytes, rest)
          → ((reading' : Reading) (s' : State)
              → measure reading' rest < measure reading stream
              → Ran reading' rest s' (read_on w ref fuel reading' rest s'))
          → (m : Outcome (Reading × State)) → complete w ref reading bytes s ≡ m
          → Ends
              (λ e. Unit {0})
              (λ (r : Reading × State). measure r.0 rest < measure reading stream)
              m
          → Ran reading stream s (m >>= λ (reading', s'). read_on w ref fuel reading' rest s')
      by_completion bytes rest e k (ok (reading', s')) q (returns less) =
          goes e q (k reading' s' less)
      by_completion bytes rest e k (fault f) q less = breaks e q

  -- The loop over the reads of a TCP session ends, whatever has been received: completion by
  -- completion it comes to a read for which the stream has not enough bytes, and leaves that read and
  -- those bytes, or to a completion that throws.
  pub read_stream-Ran :
      (reading : Reading) (stream : Bytes) (s : State)
      → Ran reading stream s (read_stream w ref reading stream s)
  unfolding read_stream
  read_stream-Ran reading stream s =
      read_on-Ran (measure reading stream) reading stream s (omega arith)
