-- ===== src/Node/Stream/Chunks.antt =====
-- How the network splits the stream into pieces does not matter.
use aurum.Base.{
  ℕ, zero, suc, ◌≤◌, ◌<◌, ◌≡◌, refl, ◌∙◌, sym, ap, some, List, [], ◌∷◌, ◌++◌, append-nil,
  append_assoc, arith, length, length-append, take, drop, Option-cases, inl, inr,
}
use aurum.Outcome.{bind_assoc, bind_ok, Outcome, ok, ◌>>=◌}
use aurum.Bytes.{Bytes}
use aurum.World.{World}
use aurum.State.Defs.{State}
use aurum.Node.Reading.{Reading, header, body, message, stopped}
use aurum.Node.Stream.{exact, available, measure, complete, read_stream}
use aurum.Node.Stream.Loop.{read_stream-loop, turn}

take-more : (n : ℕ) (xs ys : Bytes) → n ≤ length xs → take n (xs ++ ys) ≡ take n xs
take-more zero xs ys h = refl
take-more (suc n) [] ys h = absurd (omega arith)
take-more (suc n) (x ∷ xs) ys h = ap (◌∷◌ x) (take-more n xs ys (omega arith))

drop-more : (n : ℕ) (xs ys : Bytes) → n ≤ length xs → drop n (xs ++ ys) ≡ drop n xs ++ ys
drop-more zero xs ys h = refl
drop-more (suc n) [] ys h = absurd (omega arith)
drop-more (suc n) (x ∷ xs) ys h = drop-more n xs ys (omega arith)

-- What has arrived stays available.
exact-more :
    (n : ℕ) (stream more : Bytes) {bytes rest : Bytes}
    → exact n stream ≡ some (bytes, rest)
    → exact n (stream ++ more) ≡ some (bytes, rest ++ more)
unfolding exact
exact-more n stream more e =
    ground (arith, take-more n stream more, drop-more n stream more, length-append stream more)

available-more :
    (reading : Reading) (stream more : Bytes) {bytes rest : Bytes}
    → available reading stream ≡ some (bytes, rest)
    → available reading (stream ++ more) ≡ some (bytes, rest ++ more)
unfolding available
available-more header stream more e = exact-more 4 stream more e
available-more (body n) stream more e = exact-more n stream more e
available-more message stream more e = cc
available-more stopped stream more e = cc

module _ (w : World) (ref : ℕ) where
  -- A session's read, the bytes it has not taken, and the state.
  abbrev pub Position : Type 0
  Position = Reading × Bytes × State

  abbrev pub arrive : Bytes → Position → Outcome Position
  arrive piece (reading, unread, s) = read_stream w ref reading (unread ++ piece) s

  split :
      (bound : ℕ) (reading : Reading) (stream more : Bytes) (s : State)
      → measure reading stream < bound
      → read_stream w ref reading (stream ++ more) s
        ≡ (read_stream w ref reading stream s >>= arrive more)
  split zero reading stream more s h = absurd (omega arith)
  split (suc bound) reading stream more s h = elim (Option-cases (available reading stream)) [
    | inl waiting ↦ rw (read_stream-loop w ref reading stream s, waiting) refl
    | inr ((bytes, rest), e) ↦
        rw
          (
            read_stream-loop w ref reading (stream ++ more) s,
            read_stream-loop w ref reading stream s,
            available-more reading stream more e,
            e,
          )
          (turn w ref reading stream s _ _ e (λ r less. split bound r.0 rest more r.1 (omega arith))
            ∙ sym (
                bind_assoc (complete w ref reading bytes s) (λ r. read_stream w ref r.0 rest r.1)
                  (arrive more)))
  ]

  -- The pieces arrive one after the other.
  abbrev pub arrive_each : List Bytes → Position → Outcome Position
  arrive_each [] p = ok p
  arrive_each (piece ∷ pieces) p = arrive piece p >>= arrive_each pieces

  abbrev pub joined : List Bytes → Bytes
  joined [] = []
  joined (piece ∷ pieces) = piece ++ joined pieces

  arrive_after :
      (pieces : List Bytes) (reading : Reading) (stream : Bytes) (s : State)
      → (read_stream w ref reading stream s >>= arrive_each pieces)
        ≡ read_stream w ref reading (stream ++ joined pieces) s
  arrive_after [] reading stream s =
      bind_ok (read_stream w ref reading stream s)
      ∙ ap (λ t. read_stream w ref reading t s) (sym (append-nil stream))
  arrive_after (piece ∷ pieces) reading stream s =
      sym (bind_assoc (read_stream w ref reading stream s) (arrive piece) (arrive_each pieces))
      ∙ ap (λ m. m >>= arrive_each pieces)
          (sym (split (suc (measure reading stream)) reading stream piece s (omega arith)))
      ∙ arrive_after pieces reading (stream ++ piece) s
      ∙ ap (λ t. read_stream w ref reading t s) (append_assoc stream piece (joined pieces))

  -- A session does the same for a stream that arrives in pieces, however it is cut, as for the whole
  -- stream at once: the same replies and changes of state, and the same read is left.
  pub arrive_each-joined :
      (pieces : List Bytes) (reading : Reading) (s : State)
      → (read_stream w ref reading [] s >>= arrive_each pieces)
        ≡ read_stream w ref reading (joined pieces) s
  arrive_each-joined pieces reading s = arrive_after pieces reading [] s
