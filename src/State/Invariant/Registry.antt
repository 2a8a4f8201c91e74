-- ===== src/State/Invariant/Registry.antt =====
-- `remove_session`, `disconnect` and `disconnect_all` return, and keep the state well formed.
use aurum.Base.{
  Bool, ℕ, ◌≡◌, refl, List, [], ◌∷◌, arith, length, true, Option-cases, inl, inr, if_cases,
  length-append, append-nil,
}
use native.Mathlib.Nat.{le_trans}
use aurum.Outcome.{Returns, returns, Ends-bind, ok}
use aurum.Bytes.{Bytes}
use aurum.Protocol.SessionType.{SessionType, tcp, websocket}
use aurum.Protocol.Builder.{fresh, push_back}
use aurum.Protocol.Request
use aurum.Protocol.Frame.{payloads}
use aurum.Protocol.Frame.Layout.{Fits, get_data-Returns}
use aurum.Session.{close}
use aurum.World.{World}
use aurum.State.Defs.{State, draw, find_id, erase_id}
use aurum.State.Registry.{
  close_socket, leave_frame, announce_leave, disconnect_session, remove_session, remove_each,
  disconnect, disconnect_all,
}
use aurum.State.Counts.{count_id-erase_id_le, erase_id-All}
use aurum.State.Invariant.Defs.{Inv, SameSessions-Inv, broadcast-SameSessions}
use aurum.State.Invariant.Objects.{assign-Inv}

module _ (w : World) where
  pub close_socket-Inv : (ref : ℕ) (s : State) → Inv s → Inv (close_socket w ref s)
  unfolding close_socket
  close_socket-Inv ref s v =
      if_cases Inv _ _ _
        (λ opened. assign-Inv ref (close (s.object ref)) s (unfold close in refl) v) (λ closed. v)

  pub leave_frame-Returns :
      (session_id id : Bytes)
      → length session_id ≡ 16
      → length id ≡ 16
      → Returns (λ (frame : Bytes). Unit {0}) (leave_frame w session_id id)
  unfolding leave_frame
  leave_frame-Returns session_id id hs hi = get_data-Returns w.crc true _ fits
    where
      fits : Fits (Request.add_leave session_id id fresh).buffers
      fits =
          unfold Request.add_leave push_back fresh payloads in
          record {
            requests = omega arith;
            payload = rw append-nil (omega (arith, length-append id session_id));
          }

  pub announce_leave-Inv : (ref : ℕ) (s : State) → Inv s → Returns Inv (announce_leave w ref s)
  unfolding announce_leave draw
  announce_leave-Inv ref s v =
      Ends-bind (leave_frame-Returns _ _ (v.sixteen ref) (w.random-IsUuid s.clock).sixteen)
        (λ frame h. returns (
          SameSessions-Inv _ _ (broadcast-SameSessions frame _) (record {
            unique = v.unique;
            allocated = v.allocated;
            sixteen = v.sixteen;
            self = v.self;
          })))

  pub disconnect_session-Inv :
      (ref : ℕ) (s : State) → Inv s → Returns Inv (disconnect_session w ref s)
  unfolding disconnect_session
  disconnect_session-Inv ref s v = by_type (s.object ref).type
    where
      by_type :
          (type : SessionType)
          → Returns Inv (elim type [
            | tcp ↦ ok (close_socket w ref s)
            | websocket ↦ announce_leave w ref (close_socket w ref s)
          ])
      by_type tcp = returns (close_socket-Inv ref s v)
      by_type websocket = announce_leave-Inv ref _ (close_socket-Inv ref s v)

  pub erase-Inv :
      (id : Bytes) (s : State)
      → Inv s
      → Inv (record s { sessions = erase_id s.object id s.sessions })
  erase-Inv id s v = record {
    unique = λ other. le_trans (count_id-erase_id_le s.object id other s.sessions) (v.unique other);
    allocated = erase_id-All _ s.object id s.sessions v.allocated;
    sixteen = v.sixteen;
    self = v.self;
  }

  pub remove_session-Inv :
      (id : Bytes) (s : State)
      → Inv s
      → Returns (λ (r : Bool × State). Inv r.1) (remove_session w id s)
  unfolding remove_session
  remove_session-Inv id s v = elim (Option-cases (find_id s.object id s.sessions)) [
    | inl missing ↦ rw (missing, remove_session) (returns v)
    | inr (e, found) ↦
        rw (found, remove_session)
          (Ends-bind (disconnect_session-Inv e.ref _ (erase-Inv id s v)) (λ t h. returns h))
  ]

  pub remove_each-Inv : (ids : List Bytes) (s : State) → Inv s → Returns Inv (remove_each w ids s)
  unfolding remove_each
  remove_each-Inv [] s v = returns v
  remove_each-Inv (id ∷ ids) s v =
      Ends-bind (remove_session-Inv id s v) (λ r h. remove_each-Inv ids r.1 h)

  pub disconnect-Inv : (node_id : Bytes) (s : State) → Inv s → Returns Inv (disconnect w node_id s)
  unfolding disconnect
  disconnect-Inv node_id s v = remove_each-Inv _ s v

  pub disconnect_all-Inv : (s : State) → Inv s → Returns Inv (disconnect_all w s)
  unfolding disconnect_all
  disconnect_all-Inv s v = remove_each-Inv _ s v
