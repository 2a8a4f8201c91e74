-- ===== src/Session/Delivery.antt =====
-- The messages of one session: what was handed to `on_send`, and what reached the socket.
use aurum.Base.{
  ◌<◌, ◌≡◌, refl, sym, ◌∙◌, ap, Bool, true, false, Option, none, some, List, [], ◌∷◌, ◌++◌,
  append_assoc, append-nil, arith, length, length-append, ltb, if◌then◌else◌, ◌&&◌,
}
use aurum.Bytes.{Bytes}
use aurum.Session.{Session}
use aurum.Session.Queue.{front, pop, enqueue, written, write_failed}

pub record Wire : Type 0 where
  pub session : Session
  -- The arguments of `on_send`, in order.
  pub accepted : List Bytes
  -- The buffers of the writes that have succeeded, in order.
  pub sent : List Bytes
  -- A write has failed.
  pub broken : Bool

abbrev pub open_wire : Session → Wire
open_wire s = record { session = s; accepted = []; sent = []; broken = false }

abbrev pub after_send : Bytes → Wire → Wire
after_send m x = record x { session = enqueue m x.session; accepted = x.accepted ++ (m ∷ []) }

abbrev pub after_write : Bytes → Wire → Wire
after_write m x = record x { session = written x.session; sent = x.sent ++ (m ∷ []) }

abbrev pub after_failure : Wire → Wire
after_failure x = record x { session = write_failed x.session; broken = true }

-- A message is handed over at any time; a write ends, well or not, only if one is under way.
pub data Step : Wire → Wire → Type 0 where
  sends : (m : Bytes) (x : Wire) → Step x (after_send m x)
  writes : (m : Bytes) (x : Wire) → x.session.writing ≡ some m → Step x (after_write m x)
  fails : (m : Bytes) (x : Wire) → x.session.writing ≡ some m → Step x (after_failure x)

pub data Reaches : Wire → Wire → Type 0 where
  here : {x : Wire} → Reaches x x
  there : {x y z : Wire} → Step x y → Reaches y z → Reaches x z

-- Nothing is lost, sent twice or out of order, and a write is under way exactly if there is
-- something to write and no write has failed.
pub record Flow (x : Wire) : Type 0 where
  pub order : x.accepted ≡ x.sent ++ x.session.queue
  pub writing : x.session.writing ≡ (if x.broken then none else front x.session.queue)
  -- The message whose write failed stays in the queue.
  pub kept : x.broken && ltb (length x.session.queue) 1 ≡ false

front-pop : (q : List Bytes) {m : Bytes} → front q ≡ some m → q ≡ m ∷ pop q
unfolding front pop
front-pop [] h = cc
front-pop (a ∷ q) h = cc

front-append : (q : List Bytes) (m : Bytes) → 0 < length q → front (q ++ (m ∷ [])) ≡ front q
unfolding front
front-append [] m h = absurd (omega arith)
front-append (a ∷ q) m h = refl

-- What is being written is the front of the queue of an unbroken session.
writing-front :
    (x : Wire) {m : Bytes}
    → Flow x
    → x.session.writing ≡ some m
    → (x.broken ≡ false) × (front x.session.queue ≡ some m)
writing-front x f h = ground (arith, f.writing)

enqueue-queue : (m : Bytes) (s : Session) → (enqueue m s).queue ≡ s.queue ++ (m ∷ [])
unfolding enqueue
enqueue-queue m s = ground arith

enqueue-writing :
    (m : Bytes) (s : Session)
    → (enqueue m s).writing
      ≡ (if ltb 0 (length s.queue) then s.writing else front (s.queue ++ (m ∷ [])))
unfolding enqueue
enqueue-writing m s = ground (arith, length-append s.queue (m ∷ []))

under_way :
    (q : List Bytes) (m : Bytes) (broken : Bool) (writing : Option Bytes)
    → writing ≡ (if broken then none else front q)
    → broken && ltb (length q) 1 ≡ false
    → (if ltb 0 (length q) then writing else front (q ++ (m ∷ [])))
      ≡ (if broken then none else front (q ++ (m ∷ [])))
unfolding front
under_way [] m true writing h k = absurd (ground arith)
under_way [] m false writing h k = refl
under_way (a ∷ q) m broken writing h k = ground arith

front-length : (q : List Bytes) {m : Bytes} → front q ≡ some m → ltb (length q) 1 ≡ false
unfolding front
front-length [] h = cc
front-length (a ∷ q) h = ground arith

-- A message that is handed over changes neither what is under way nor what a failure left.
enqueue-Flow : (m : Bytes) (x : Wire) → Flow x → Flow (after_send m x)
enqueue-Flow m x f = record {
  order =
      ap (λ q. q ++ (m ∷ [])) f.order
      ∙ append_assoc x.sent x.session.queue (m ∷ [])
      ∙ ap (λ q. x.sent ++ q) (sym (enqueue-queue m x.session));
  writing =
      enqueue-writing m x.session
      ∙ rw (enqueue-queue m x.session)
          (under_way x.session.queue m x.broken x.session.writing f.writing f.kept);
  kept = rw (enqueue-queue m x.session) (ground (arith, length-append x.session.queue (m ∷ [])));
}

Step-Flow : {x y : Wire} → Step x y → Flow x → Flow y
unfolding written write_failed
Step-Flow (sends m x) f = enqueue-Flow m x f
Step-Flow (writes m x h) f =
    let now = writing-front x f h in
    record {
      order =
          f.order
          ∙ ap (λ q. x.sent ++ q) (front-pop x.session.queue now.1)
          ∙ sym (append_assoc x.sent (m ∷ []) (pop x.session.queue));
      writing = rw now.0;
      kept = rw now.0;
    }
Step-Flow (fails m x h) f = record {
  order = f.order;
  writing = refl;
  kept = front-length x.session.queue (writing-front x f h).1;
}

Reaches-Flow : {x y : Wire} → Reaches x y → Flow x → Flow y
Reaches-Flow here f = f
Reaches-Flow (there step r) f = Reaches-Flow r (Step-Flow step f)

open_wire-Flow : (s : Session) → s.queue ≡ [] → s.writing ≡ none → Flow (open_wire s)
unfolding front
open_wire-Flow s q w = record { order = sym q; writing = rw (q, w); kept = refl }

-- Whatever a session, at first with an empty queue and no write under way, is handed and however
-- its writes end, the messages that were sent, followed by the queue, are the messages handed over,
-- in that order; and the message being written is the front of the queue, or none once a write has
-- failed.
pub Reaches-in_order :
    (s : Session) (x : Wire)
    → s.queue ≡ []
    → s.writing ≡ none
    → Reaches (open_wire s) x
    → (x.accepted ≡ x.sent ++ x.session.queue)
      × (x.session.writing ≡ (if x.broken then none else front x.session.queue))
Reaches-in_order s x q w r = let f = Reaches-Flow r (open_wire-Flow s q w) in (f.order, f.writing)

broken-still :
    {x y : Wire}
    → Reaches x y
    → Flow x
    → x.broken ≡ true
    → (y.sent ≡ x.sent) × (y.session.writing ≡ none)
broken-still {x} here f b = (refl, f.writing ∙ rw b)
broken-still {x} (there (sends m _) r) f b = broken-still r (enqueue-Flow m x f) b
broken-still {x} (there (writes m _ h) r) f b = absurd (ground (arith, f.writing))
broken-still {x} (there (fails m _ h) r) f b = absurd (ground (arith, f.writing))

-- Once a write of a session, at first with an empty queue and no write under way, has failed, no
-- further message is sent and no write is under way, whatever is handed over.
pub broken-Reaches :
    (s : Session) (x y : Wire)
    → s.queue ≡ []
    → s.writing ≡ none
    → Reaches (open_wire s) x
    → x.broken ≡ true
    → Reaches x y
    → (y.sent ≡ x.sent) × (y.session.writing ≡ none)
broken-Reaches s x y q w r b r' = broken-still r' (Reaches-Flow r (open_wire-Flow s q w)) b

drain :
    (q : List Bytes) (x : Wire)
    → x.session.queue ≡ q
    → Flow x
    → x.broken ≡ false
    → (y : Wire) × Reaches x y × (y.sent ≡ x.accepted) × (y.session.queue ≡ [])
unfolding pop front written
drain [] x e f b = (x, here, sym (f.order ∙ ap (λ q. x.sent ++ q) e ∙ append-nil x.sent), e)
drain (m ∷ q) x e f b =
    let h : x.session.writing ≡ some m = f.writing ∙ rw (b, e) in
    let step : Step x (after_write m x) = writes m x h in
    let (y, r, sent, empty) = drain q (after_write m x) (rw e) (Step-Flow step f) b in
    (y, there step r, sent, empty)

-- As long as no write of a session, at first with an empty queue and no write under way, has
-- failed, there are steps after which every message handed over has been sent, in order, and the
-- queue is empty.
pub Reaches-drained :
    (s : Session) (x : Wire)
    → s.queue ≡ []
    → s.writing ≡ none
    → Reaches (open_wire s) x
    → x.broken ≡ false
    → (y : Wire) × Reaches x y × (y.sent ≡ x.accepted) × (y.session.queue ≡ [])
Reaches-drained s x q w r b = drain x.session.queue x refl (Reaches-Flow r (open_wire-Flow s q w)) b
