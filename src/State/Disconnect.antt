-- ===== src/State/Disconnect.antt =====
-- `state::disconnect` and `state::disconnect_all` remove the sessions they should and no other.
use aurum.Base.{ℕ, ◌≡◌, ◌∙◌, ap, List, [], All, All-mono, map, ltb, sum_by-perm}
use aurum.Outcome.{Returns, Ends-mono}
use aurum.Bytes.{Bytes, same}
use aurum.World.{World, Entry, IsFiled}
use aurum.State.Defs.{State, keyed}
use aurum.State.Registry.{disconnect, disconnect_all}
use aurum.State.Invariant.{Inv}
use aurum.State.Removal.{remove_each-Removed}
use aurum.State.Removal.Lists.{
  without, other_nodes, without_everything, listed, listed_own, listed-times, times, hits,
  hits-exact, without-other_nodes, times-map, with_node-hits,
}

module _ (w : World) where
  -- In a well-formed state `disconnect_all` returns, and no session is registered afterwards.
  pub disconnect_all-none :
      (s : State) → Inv s → Returns (λ t. Inv t × (t.sessions ≡ [])) (disconnect_all w s)
  unfolding disconnect_all
  disconnect_all-none s v =
      Ends-mono
        (λ t h. (
          h.inv,
          h.sessions ∙ without_everything s.object _ s.sessions (listed_own s.object s.sessions),
        ))
        (remove_each-Removed w _ s v)

  -- In a well-formed state `disconnect` returns, whatever the index by node id finds. The sessions
  -- registered afterwards are those whose ids it did not find, in the same order as before.
  pub disconnect-found :
      (node_id : Bytes) (s : State)
      → Inv s
      → Returns
          (λ t.
            Inv t
            × (t.sessions
                ≡ without s.object
                    (map (λ r. (s.object r).id) (w.equal_range node_id (keyed s)))
                    s.sessions))
          (disconnect w node_id s)
  unfolding disconnect
  disconnect-found node_id s v =
      Ends-mono (λ t h. (h.inv, h.sessions)) (remove_each-Removed w _ s v)

  -- In a well-formed state in which every registered session still has the node id under which the
  -- container filed it, `disconnect` returns, and the sessions registered afterwards are those with
  -- another node id, in the same order as before.
  pub disconnect-other_nodes :
      (node_id : Bytes) (s : State)
      → Inv s
      → All IsFiled (keyed s)
      → Returns
          (λ t. Inv t × (t.sessions ≡ other_nodes s.object node_id s.sessions))
          (disconnect w node_id s)
  unfolding disconnect
  disconnect-other_nodes node_id s v filed =
      Ends-mono
        (λ t h. (h.inv, h.sessions ∙ without-other_nodes s.object node_id _ s.sessions exact))
        (remove_each-Removed w _ s v)
    where
      refs : List ℕ
      refs = w.equal_range node_id (keyed s)

      counts :
          (id : Bytes)
          → times id (map (λ r. (s.object r).id) refs) ≡ hits s.object node_id id s.sessions
      counts id =
          times-map id s.object refs
          ∙ sum_by-perm _ (w.equal_range-perm node_id (keyed s) filed)
          ∙ with_node-hits s.object node_id id s.sessions

      exact :
          All
            (λ (e : Entry).
              listed (s.object e.ref).id (map (λ r. (s.object r).id) refs)
              ≡ same (s.object e.ref).node_id node_id)
            s.sessions
      exact =
          All-mono _ _ s.sessions (λ e h. listed-times _ _ ∙ ap (ltb 0) (counts _) ∙ h.0)
            (hits-exact s.object node_id s.sessions v.unique)
