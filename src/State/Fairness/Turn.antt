-- ===== src/State/Fairness/Turn.antt =====
-- A part of a turn of the round robin.
use aurum.Base.{
  ℕ, ◌+◌, ◌%◌, ◌^◌, ◌<◌, ◌≡◌, refl, sym, ap, ◌∙◌, some, List, [], ◌∷◌, ◌++◌, length, get_elem?,
  length-append, append_assoc, append-nil, arith, true,
}
use native.Mathlib.Nat.{mod-eq_of_lt, mod-add-mod}
use aurum.Bytes.{Bytes, same}
use aurum.State.Defs.{State, Task, write, post}
use aurum.State.Routing.{rr_index, rr_advance, send, send_nth, send_in_range}
use aurum.State.Sending.{rr_index-store}

-- A write of each message to the session beside it.
abbrev pub writes : List ℕ → List Bytes → List Task
writes [] ms = []
writes (r ∷ rs) [] = []
writes (r ∷ rs) (m ∷ ms) = write r m ∷ writes rs ms

get_elem-append :
    (front : List ℕ) (r : ℕ) (back : List ℕ)
    → get_elem? (front ++ (r ∷ back)) (length front) ≡ some r
get_elem-append [] r back = refl
get_elem-append (x ∷ front) r back = get_elem-append front r back

same_self : (bs : Bytes) → same bs bs ≡ true
same_self bs = ground arith

module _ (node_id : Bytes) where
  abbrev pub index : State → ℕ
  index s = rr_index node_id s.round_robin_indices

  abbrev pub sends_in_range : List ℕ → List Bytes → State → State
  sends_in_range rs [] s = s
  sends_in_range rs (m ∷ ms) s = sends_in_range rs ms (send_in_range rs node_id m s)

  -- The counter says whose turn it is.
  send_in_range_at :
      (rs front : List ℕ) (r : ℕ) (back : List ℕ) (m : Bytes) (s : State)
      → rs ≡ front ++ (r ∷ back)
      → index s % length rs ≡ length front % length rs
      → send_in_range rs node_id m s ≡ send r m (rr_advance node_id s)
  unfolding send_in_range send_nth
  send_in_range_at [] front r back m s e h =
      absurd (omega (arith, ap length e, length-append front (r ∷ back)))
  send_in_range_at (x ∷ xs) front r back m s e h = rw at refl
    where
      place : index s % length (x ∷ xs) ≡ length front
      place = h ∙ mod-eq_of_lt (omega (arith, ap length e, length-append front (r ∷ back)))

      at : get_elem? (x ∷ xs) (index s % length (x ∷ xs)) ≡ some r
      at =
          ap (get_elem? (x ∷ xs)) place
          ∙ ap (λ l. get_elem? l (length front)) e
          ∙ get_elem-append front r back

  index-rr_advance : (s : State) → index s + 1 < 2 ^ 64 → index (rr_advance node_id s) ≡ index s + 1
  unfolding rr_advance
  index-rr_advance s h =
      rr_index-store node_id node_id _ s.round_robin_indices
      ∙ rw (same_self node_id) (omega (arith, h))

  -- The sessions from a place of the range on get the messages, and the counter goes on.
  pub turn :
      (rs front next back : List ℕ) (ms : List Bytes) (s : State)
      → rs ≡ front ++ (next ++ back)
      → length ms ≡ length next
      → index s % length rs ≡ length front % length rs
      → index s + length next < 2 ^ 64
      → ((sends_in_range rs ms s).posted ≡ s.posted ++ writes next ms)
        × (index (sends_in_range rs ms s) ≡ index s + length next)
  turn rs front [] back [] s e he hi small = (sym (append-nil s.posted), omega arith)
  turn rs front [] back (m ∷ ms) s e he hi small = absurd (omega (arith, he))
  turn rs front (r ∷ next) back [] s e he hi small = absurd (omega (arith, he))
  turn rs front (r ∷ next) back (m ∷ ms) s e he hi small =
      rw (send_in_range_at rs front r (next ++ back) m s e hi, sends_in_range)
        (let rest =
            turn rs (front ++ (r ∷ [])) next back ms (send r m (rr_advance node_id s))
              (e ∙ sym (append_assoc front (r ∷ []) (next ++ back))) (omega (arith, he)) place
              (omega (arith, advanced, small)) in
          (rest.0 ∙ posted, rest.1 ∙ omega (arith, advanced)))
    where
      advanced : index (send r m (rr_advance node_id s)) ≡ index s + 1
      advanced = unfold send post in index-rr_advance s (omega (arith, small))

      place :
          index (send r m (rr_advance node_id s)) % length rs
          ≡ length (front ++ (r ∷ [])) % length rs
      place =
          ap (λ k. k % length rs) advanced
          ∙ sym (mod-add-mod (index s) (length rs) 1)
          ∙ ap (λ k. (k + 1) % length rs) hi
          ∙ mod-add-mod (length front) (length rs) 1
          ∙ ap (λ k. k % length rs) (sym (length-append front (r ∷ [])))

      posted :
          (send r m (rr_advance node_id s)).posted ++ writes next ms
          ≡ s.posted ++ (write r m ∷ writes next ms)
      posted =
          unfold send post rr_advance in append_assoc s.posted (write r m ∷ []) (writes next ms)

  pub sends_in_range-append :
      (rs : List ℕ) (ms ns : List Bytes) (s : State)
      → sends_in_range rs (ms ++ ns) s ≡ sends_in_range rs ns (sends_in_range rs ms s)
  sends_in_range-append rs [] ns s = refl
  sends_in_range-append rs (m ∷ ms) ns s =
      sends_in_range-append rs ms ns (send_in_range rs node_id m s)

pub writes-append :
    (rs ss : List ℕ) (ms ns : List Bytes)
    → length ms ≡ length rs
    → writes (rs ++ ss) (ms ++ ns) ≡ writes rs ms ++ writes ss ns
writes-append [] ss [] ns h = refl
writes-append [] ss (m ∷ ms) ns h = absurd (omega (arith, h))
writes-append (r ∷ rs) ss [] ns h = absurd (omega (arith, h))
writes-append (r ∷ rs) ss (m ∷ ms) ns h =
    ap (◌∷◌ (write r m)) (writes-append rs ss ms ns (omega (arith, h)))
