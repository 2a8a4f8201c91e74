-- ===== src/Node/Threads/Unique.antt =====
-- What the threads keep of the registry, whatever their pieces are interleaved with.
use aurum.Base.{
  ℕ, ◌≤◌, ◌<◌, ◌≡◌, [], ◌∷◌, All, All-mono, All-set, All-get_elem, refl, arith, length,
}
use native.Mathlib.Nat.{le_trans}
use aurum.Outcome.{Returns, returns, Ends-bind, Ends-mono, Ends-ok}
use aurum.World.{World}
use aurum.State.Defs.{keyed, State, draw}
use aurum.State.Counts.{count_id-below}
use aurum.State.Registry.{close_socket}
use aurum.State.Invariant.{Inv, SameSessions-Inv, send-SameSessions}
use aurum.State.Invariant.Objects.{add_session-Inv}
use aurum.State.Invariant.Registry.{close_socket-Inv, leave_frame-Returns, erase-Inv}
use aurum.Handlers.Safety.Membership.{erase_all-Inv}
use aurum.Node.History.{Evolves, Evolves-refl, Evolves-trans, fields-Evolves}
use aurum.Node.History.Registry.{
  add_session-Evolves, close_socket-Evolves, draw-Evolves, send-Evolves,
}
use aurum.Node.Threads.Cases.{pick-SameSessions, pick-Evolves, erase_next-Ends, close_next-Ends}
use aurum.Node.Threads.{
  routes, send_to_node_called, Todo, idle, collects_all, adds, erases, collects, removes, closes,
  leaves, broadcasts, sends, advance, System, Step, Reaches, moves, calls, elsewhere, here, there,
  Call, add_session_called, remove_session_called, disconnect_called, disconnect_all_called,
  broadcast_called, leave_handler_called,
}

-- The session that a thread is to add has been made.
abbrev pub Allowed : ℕ → Todo → Type 0
Allowed n (adds ref) = ref < n
Allowed n todo = Unit

pub record Sound (x : System) : Type 0 where
  pub inv : Inv x.state
  pub allowed : All (Allowed x.state.next_ref) x.threads

-- What a piece of a call leaves.
pub record Kept (s : State) (r : Todo × State) : Type 0 where
  pub inv : Inv r.1
  pub evolves : Evolves s r.1
  pub allowed : (n : ℕ) → Allowed n r.0

module _ (w : World) where
  unmoved : (todo' : Todo) (s : State) → ((n : ℕ) → Allowed n todo') → Inv s → Kept s (todo', s)
  unmoved todo' s h v = record { inv = v; evolves = Evolves-refl s; allowed = h }

  -- In a well-formed state every piece returns, and leaves the state well formed.
  pub advance-Kept :
      (todo : Todo) (s : State)
      → Allowed s.next_ref todo
      → Inv s
      → Returns (Kept s) (advance w todo s)
  unfolding advance
  advance-Kept idle s h v = returns (unmoved idle s (λ n. tt) v)
  advance-Kept collects_all s h v = returns (unmoved _ s (λ n. tt) v)
  advance-Kept (adds ref) s h v = returns (record {
    inv = add_session-Inv w ref s h v;
    evolves = add_session-Evolves w ref s (Evolves-refl s);
    allowed = λ n. tt;
  })
  advance-Kept (erases id) s h v = returns (record {
    inv = erase_all-Inv id s v;
    evolves = fields-Evolves s refl refl refl refl refl (Evolves-refl s);
    allowed = λ n. tt;
  })
  advance-Kept (collects node_id) s h v = returns (unmoved _ s (λ n. tt) v)
  advance-Kept (removes []) s h v = returns (unmoved idle s (λ n. tt) v)
  advance-Kept (removes (id ∷ ids)) s h v =
      erase_next-Ends _ ids s id (λ missing. unmoved _ s (λ n. tt) v)
        λ e found. record {
          inv = erase-Inv w id s v;
          evolves = fields-Evolves s refl refl refl refl refl (Evolves-refl s);
          allowed = λ n. tt;
        }
  advance-Kept (closes ref ids) s h v =
      close_next-Ends _ ids s w ref (closed (removes ids) (λ n. tt))
        (closed (leaves ref ids) (λ n. tt))
    where
      closed : (todo' : Todo) → ((n : ℕ) → Allowed n todo') → Kept s (todo', close_socket w ref s)
      closed todo' k = record {
        inv = close_socket-Inv w ref s v;
        evolves = close_socket-Evolves w ref s (Evolves-refl s);
        allowed = k;
      }
  advance-Kept (leaves ref ids) s h v =
      Ends-bind (leave_frame-Returns w (s.object ref).id (draw w s).1 (v.sixteen ref) sixteen)
        λ frame _.
          returns
            (record { inv = drawn; evolves = draw-Evolves w s (Evolves-refl s); allowed = λ n. tt })
    where
      sixteen : length (draw w s).1 ≡ 16
      sixteen = unfold draw in (w.random-IsUuid s.clock).sixteen

      drawn : Inv (draw w s).0
      drawn =
          unfold draw in
          record { unique = v.unique; allocated = v.allocated; sixteen = v.sixteen; self = v.self }
  advance-Kept (broadcasts message ids) s h v = returns (unmoved _ s (λ n. tt) v)
  advance-Kept (sends message [] ids) s h v = returns (unmoved _ s (λ n. tt) v)
  advance-Kept (sends message (r ∷ rs) ids) s h v = returns (record {
    inv = SameSessions-Inv _ _ (send-SameSessions r message s) v;
    evolves = send-Evolves w r message s (Evolves-refl s);
    allowed = λ n. tt;
  })
  advance-Kept (routes node_id message) s h v =
      let rs = w.equal_range_tcp node_id (keyed s) in
      returns (record {
        inv = SameSessions-Inv _ _ (pick-SameSessions rs node_id s) v;
        evolves = pick-Evolves rs node_id s;
        allowed = λ n. tt;
      })

  Allowed-mono : {m n : ℕ} (todo : Todo) → m ≤ n → Allowed m todo → Allowed n todo
  Allowed-mono idle h a = tt
  Allowed-mono collects_all h a = tt
  Allowed-mono (adds ref) h a = omega arith
  Allowed-mono (erases id) h a = tt
  Allowed-mono (collects node_id) h a = tt
  Allowed-mono (removes ids) h a = tt
  Allowed-mono (closes ref ids) h a = tt
  Allowed-mono (leaves ref ids) h a = tt
  Allowed-mono (broadcasts message ids) h a = tt
  Allowed-mono (sends message rs ids) h a = tt
  Allowed-mono (routes node_id message) h a = tt

  Call-Allowed : {s : State} {todo : Todo} → Call s todo → Allowed s.next_ref todo
  Call-Allowed (add_session_called ref h) = h
  Call-Allowed (remove_session_called id) = tt
  Call-Allowed (disconnect_called node_id) = tt
  Call-Allowed disconnect_all_called = tt
  Call-Allowed (broadcast_called message) = tt
  Call-Allowed (send_to_node_called node_id message) = tt
  Call-Allowed (leave_handler_called id) = tt

  pub Step-Sound : {x y : System} → Step w x y → Sound x → Sound y
  Step-Sound (moves {x} {y} i todo todo' at e threads log) sound =
      let kept =
        Ends-ok e
          (advance-Kept todo x.state (All-get_elem _ x.threads i at sound.allowed) sound.inv) in
      record {
        inv = kept.inv;
        allowed = rw threads (
            All-set _ x.threads i (kept.allowed y.state.next_ref) (
              All-mono _ _ x.threads (λ t a. Allowed-mono t kept.evolves.next_ref a)
                sound.allowed));
      }
  Step-Sound (calls {x} {y} i todo at call state threads log) sound = record {
    inv = rw state sound.inv;
    allowed = rw (state, threads) (All-set _ x.threads i (Call-Allowed call) sound.allowed);
  }
  Step-Sound (elsewhere {x} {y} sessions evolves sixteen threads log) sound = record {
    inv = record {
      unique = λ id.
          rw
            (
              sessions,
              count_id-below y.state.object x.state.object x.state.next_ref id x.state.sessions
                  sound.inv.allocated evolves.id,
            )
            (sound.inv.unique id);
      allocated =
          rw sessions (
            All-mono _ _ x.state.sessions (λ e h. le_trans h evolves.next_ref) sound.inv.allocated);
      sixteen = sixteen;
      self = rw evolves.node_id sound.inv.self;
    };
    allowed =
        rw threads
          (All-mono _ _ x.threads (λ t a. Allowed-mono t evolves.next_ref a) sound.allowed);
  }

  pub Reaches-kept : {x y : System} → Reaches w x y → Sound x → Sound y
  Reaches-kept here sound = sound
  Reaches-kept (there step rest) sound = Reaches-kept rest (Step-Sound step sound)

  pub Step-Evolves : {x y : System} → Step w x y → Sound x → Evolves x.state y.state
  Step-Evolves (moves {x} i todo todo' at e threads log) sound =
      let kept =
        Ends-ok e
          (advance-Kept todo x.state (All-get_elem _ x.threads i at sound.allowed) sound.inv) in
      kept.evolves
  Step-Evolves (calls {x} i todo at call state threads log) sound = rw state (Evolves-refl x.state)
  Step-Evolves (elsewhere sessions evolves sixteen threads log) sound = evolves

  pub Reaches-Evolves : {x y : System} → Reaches w x y → Sound x → Evolves x.state y.state
  Reaches-Evolves (here {x}) sound = Evolves-refl x.state
  Reaches-Evolves (there {x} {y} {z} step rest) sound =
      Evolves-trans (Step-Evolves step sound) (Reaches-Evolves rest (Step-Sound step sound))

-- However the threads interleave: if the state is well formed at the start, and every thread that is
-- to register a session is to register one that has been made, then that is so at any later moment,
-- so that no id is ever registered twice, and whichever thread runs next, its next piece returns:
-- it does not throw and reads within its buffers.
pub Reaches-Sound :
    (w : World) (x y : System)
    → Sound x
    → Reaches w x y
    → Sound y × All (λ todo. Returns (λ r. Unit {0}) (advance w todo y.state)) y.threads
Reaches-Sound w x y sound run =
    let later = Reaches-kept w run sound in
    (
      later,
      All-mono _ _ y.threads
          (λ todo allowed. Ends-mono (λ r h. tt) (advance-Kept w todo y.state allowed later.inv))
          later.allowed,
    )
