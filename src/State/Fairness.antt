-- ===== src/State/Fairness.antt =====
-- The round robin of `state::send_to_node` over a whole turn.
pub mod Turn
use aurum.Base.{
  All, none, take-drop, length-take, length-drop, subst, ℕ, ◌+◌, ◌%◌, ◌^◌, ◌<◌, ◌≡◌, refl, sym, ap,
  ◌∙◌, some, List, [], ◌∷◌, ◌++◌, length, get_elem?, length-append, append_assoc, append-nil, arith,
  true, Perm, Option, take, drop,
}
use mathlib.Core.List.Permᴰ.{append_comm}
use mathlib.Core.List.Perm
use native.Mathlib.Nat.{mod-mod, zero-mod, mod-eq_of_lt, mod-add-mod, mod-lt, mod_self}
use aurum.Bytes.{Bytes, same}
use aurum.World.{World, IsFiled, with_node_tcp}
use aurum.State.Defs.{State, Task, write, post, keyed}
use aurum.State.Routing.{rr_index, rr_advance, send, send_nth, send_in_range, send_to_node}
use aurum.State.Sending.{rr_index-store, length-perm}
use aurum.State.Fairness.Turn.{
  writes, index, sends_in_range, turn, sends_in_range-append, writes-append,
}

-- Messages sent one after the other.
pub send_each_to : World → Bytes → List Bytes → State → State
send_each_to w node_id [] s = s
send_each_to w node_id (m ∷ ms) s = send_each_to w node_id ms (send_to_node w node_id m s)

module _ (node_id : Bytes) where
  -- Sending changes no session.
  keyed-send_in_range :
      (rs : List ℕ) (m : Bytes) (s : State) → keyed (send_in_range rs node_id m s) ≡ keyed s
  unfolding send_in_range rr_advance
  keyed-send_in_range [] m s = refl
  keyed-send_in_range (r ∷ rs) m s = by_ref (get_elem? (r ∷ rs) (index node_id s % length (r ∷ rs)))
    where
      by_ref : (found : Option ℕ) → keyed (send_nth found m (rr_advance node_id s)) ≡ keyed s
      by_ref none = unfold send_nth in refl
      by_ref (some ref) = unfold send_nth send post in refl

  send_each_to_lem :
      (w : World) (ms : List Bytes) (s : State)
      → send_each_to w node_id ms s
        ≡ sends_in_range node_id (w.equal_range_tcp node_id (keyed s)) ms s
  unfolding send_each_to send_to_node
  send_each_to_lem w [] s = refl
  send_each_to_lem w (m ∷ ms) s =
      send_each_to_lem w ms _
      ∙ ap
          (λ ks.
            sends_in_range node_id (w.equal_range_tcp node_id ks) ms
              (send_in_range (w.equal_range_tcp node_id (keyed s)) node_id m s))
          (keyed-send_in_range (w.equal_range_tcp node_id (keyed s)) m s)

  -- From the counter's place to the end of the range, then from the start to that place.
  whole_turn :
      (rs : List ℕ) (ms : List Bytes) (s : State)
      → length ms ≡ length rs
      → rr_index node_id s.round_robin_indices + length ms < 2 ^ 64
      → (rs' : List ℕ) × Perm rs' rs
        × ((sends_in_range node_id rs ms s).posted ≡ s.posted ++ writes rs' ms)
  whole_turn [] [] s h small = ([], Perm.refl [], sym (append-nil s.posted))
  whole_turn [] (m ∷ ms) s h small = absurd (omega (arith, h))
  whole_turn (r ∷ rs) ms s h small =
      (next ++ front, rotated, rw (take-drop (length next) ms) (sent ∙ together))
    where
      n : ℕ
      n = length (r ∷ rs)

      k : ℕ
      k = rr_index node_id s.round_robin_indices % n

      within : k < n
      within = mod-lt _ (omega arith)

      front : List ℕ
      front = take k (r ∷ rs)

      next : List ℕ
      next = drop k (r ∷ rs)

      parts : r ∷ rs ≡ front ++ next
      parts = take-drop k (r ∷ rs)

      front_length : length front ≡ k
      front_length = length-take k (r ∷ rs) (omega (arith, within))

      next_length : k + length next ≡ n
      next_length = omega (arith, length-drop k (r ∷ rs), within)

      early : List Bytes
      early = take (length next) ms

      late : List Bytes
      late = drop (length next) ms

      early_length : length early ≡ length next
      early_length = length-take (length next) ms (omega (arith, next_length, h))

      late_length : length late ≡ length front
      late_length = omega (arith, length-drop (length next) ms, next_length, front_length, h)

      s' : State
      s' = sends_in_range node_id (r ∷ rs) early s

      first :
          (s'.posted ≡ s.posted ++ writes next early)
          × (rr_index node_id s'.round_robin_indices
              ≡ rr_index node_id s.round_robin_indices + length next)
      first =
          turn node_id (r ∷ rs) front next [] early s
            (parts ∙ ap (λ t. front ++ t) (sym (append-nil next))) early_length
            (sym (mod-mod _ n) ∙ ap (λ l. l % n) (sym front_length))
            (omega (arith, small, next_length, h))

      round : rr_index node_id s'.round_robin_indices % n ≡ 0 % n
      round =
          ap (λ l. l % n) first.1
          ∙ sym (mod-add-mod _ n (length next))
          ∙ ap (λ l. l % n) next_length
          ∙ mod_self n
          ∙ sym (zero-mod n)

      second :
          ((sends_in_range node_id (r ∷ rs) late s').posted ≡ s'.posted ++ writes front late)
          × (rr_index node_id (sends_in_range node_id (r ∷ rs) late s').round_robin_indices
              ≡ rr_index node_id s'.round_robin_indices + length front)
      second =
          turn node_id (r ∷ rs) [] front next late s' parts late_length round
            (omega (arith, small, first.1, next_length, front_length, h))

      rotated : Perm (next ++ front) (r ∷ rs)
      rotated = subst (Perm (next ++ front)) (sym parts) ∣ append_comm next front ∣₁

      sent :
          (sends_in_range node_id (r ∷ rs) (early ++ late) s).posted
          ≡ (s.posted ++ writes next early) ++ writes front late
      sent =
          ap (λ t. t.posted) (sends_in_range-append node_id (r ∷ rs) early late s)
          ∙ second.0
          ∙ ap (λ t. t ++ writes front late) first.0

      together :
          (s.posted ++ writes next early) ++ writes front late
          ≡ s.posted ++ writes (next ++ front) (early ++ late)
      together =
          append_assoc s.posted (writes next early) (writes front late)
          ∙ ap (λ t. s.posted ++ t) (sym (writes-append next front early late early_length))

-- Let as many messages be sent to a node as the index finds TCP sessions for it, and let the node's
-- counter be that far from 2^64. Then each session found is handed exactly one of the messages,
-- wherever the counter stood, and nothing else is posted. Which sessions the index finds is left
-- open.
pub send_each_to-once :
    (w : World) (node_id : Bytes) (ms : List Bytes) (s : State)
    → length ms ≡ length (w.equal_range_tcp node_id (keyed s))
    → rr_index node_id s.round_robin_indices + length ms < 2 ^ 64
    → (rs : List ℕ) × Perm rs (w.equal_range_tcp node_id (keyed s))
      × ((send_each_to w node_id ms s).posted ≡ s.posted ++ writes rs ms)
send_each_to-once w node_id ms s h small =
    let (rs, rotated, posted) =
      whole_turn node_id (w.equal_range_tcp node_id (keyed s)) ms s h small in
    (rs, rotated, ap (λ t. t.posted) (send_each_to_lem node_id w ms s) ∙ posted)
