-- ===== src/Examples/Accepted.antt =====
-- Two connections have been accepted, and the theorems about the index by node id at that state.
use aurum.Base.{Perm, ◌≡◌, refl, [], ◌∷◌, ◌++◌, ℕ, List, map, arith}
use aurum.Outcome.{Returns}
use aurum.Bytes.{bytes_discrete}
use aurum.Session.{nil_uuid}
use aurum.Session.{tcp_session}
use aurum.State.Defs.{State, keyed, default_configuration, draw, allocate, assign, post, find_id}
use aurum.State.Registry.{disconnect, disconnect_all, add_session}
use aurum.State.Routing.{rr_index}
use aurum.State.Invariant.{Inv}
use aurum.State.Removal.Lists.{without}
use aurum.State.Disconnect.{disconnect-found, disconnect_all-none}
use aurum.State.Fairness.{send_each_to, send_each_to-once}
use aurum.State.Fairness.Turn.{writes}
use aurum.Node.Listeners.{accept_tcp, initial}
use aurum.Node.Steps
use aurum.Node.Steps.{tcp_accepted, run_event}
use aurum.Node.Safety.{Reaches-Inv}
use aurum.Examples.Setting.{world}

abbrev once : State
once = accept_tcp world (initial world default_configuration)

abbrev twice : State
twice = accept_tcp world once

accepting : Steps.Reaches world (initial world default_configuration) twice
unfolding run_event
accepting =
    Steps.there (Steps.happens tcp_accepted refl)
      (Steps.there (Steps.happens tcp_accepted refl) Steps.here)

twice-Inv : Inv twice
twice-Inv = Reaches-Inv world default_configuration twice accepting

-- Neither peer has said which node it is.
disconnect-found_example :
    Returns
      (λ t.
        Inv t
        × (t.sessions
            ≡ without twice.object
                (map (λ r. (twice.object r).id) (world.equal_range nil_uuid (keyed twice)))
                twice.sessions))
      (disconnect world nil_uuid twice)
disconnect-found_example = disconnect-found world nil_uuid twice twice-Inv

send_each_to-once_example :
    (rs : List ℕ) × Perm rs (1 ∷ 0 ∷ [])
    × ((send_each_to world nil_uuid ((1 ∷ []) ∷ (2 ∷ []) ∷ []) twice).posted
        ≡ twice.posted ++ writes rs ((1 ∷ []) ∷ (2 ∷ []) ∷ []))
unfolding rr_index accept_tcp draw allocate assign add_session post find_id initial bytes_discrete
    tcp_session
send_each_to-once_example =
    send_each_to-once world nil_uuid ((1 ∷ []) ∷ (2 ∷ []) ∷ []) twice refl (omega arith)

disconnect_all-none_example : Returns (λ t. Inv t × (t.sessions ≡ [])) (disconnect_all world twice)
disconnect_all-none_example = disconnect_all-none world twice twice-Inv
