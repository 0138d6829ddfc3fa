-- ===== src/Worker/Stream/Drain.antt =====
-- A closed request ends: the loop of its goroutine terminates.
use cocaine_framework_go.Prelude.{
  ℕ, suc, ◌+◌, ◌≡◌, refl, ap, true, false, List, [], ◌∷◌, length, arith, if◌then◌else◌,
}
use cocaine_framework_go.Effects.{done}
use cocaine_framework_go.Message.{Message}
use cocaine_framework_go.Worker.Stream.{
  Stream, StreamEvent, pushes, closes, hands, notices, stream_step, stream_run, after_messages,
}
use cocaine_framework_go.Worker.Stream.Order.{stream_run-cons}

-- The moves that a closed request has left.
abbrev pub moves_left : Stream → ℕ
moves_left s = length s.pending + (if s.seen then 0 else 1)

-- The moves of the loop itself.
abbrev pub IsInternal : StreamEvent → Type 0
IsInternal hands = Unit {0}
IsInternal notices = Unit {0}
IsInternal _ = ⊥

abbrev pub AllInternal : List StreamEvent → Type 0
AllInternal [] = Unit {0}
AllInternal (e ∷ es) = IsInternal e × AllInternal es

stream_step-moves :
    (e : StreamEvent) (s t : Stream) (out : List Message)
    → IsInternal e
    → stream_step e s ≡ done (t, out)
    → suc (moves_left t) ≡ moves_left s
unfolding stream_step
stream_step-moves (pushes msg) s t out i h = absurd i
stream_step-moves closes s t out i h = absurd i
stream_step-moves hands s t out i h = ground arith
stream_step-moves notices s t out i h = ground arith

-- However the loop's select chooses, without further messages it makes at most as many rounds as
-- messages wait, and one for the close.
pub drain_bounded :
    (es : List StreamEvent) (s t : Stream) (out : List Message)
    → AllInternal es
    → stream_run es s ≡ done (t, out)
    → length es + moves_left t ≡ moves_left s
unfolding stream_run
drain_bounded [] s t out i h = ground arith
drain_bounded (e ∷ es) s t out i h =
    let (u, first, later, p, q, r) = stream_run-cons e es s t out h in
    omega (arith, stream_step-moves e s u first i.0 p, drain_bounded es u t later i.1 q)

-- The schedule that hands every message over.
abbrev hand_all : List Message → List StreamEvent
hand_all [] = []
hand_all (m ∷ ms) = hands ∷ hand_all ms

hand_all_ends :
    (m : Message) (ms : List Message)
    → stream_run
        (hand_all (m ∷ ms))
        (record { pending = m ∷ ms; closed = true; seen = true; ended = false })
      ≡ done (record { pending = []; closed = true; seen = true; ended = true }, m ∷ ms)
unfolding stream_run stream_step
hand_all_ends m [] = refl
hand_all_ends m (m' ∷ ms) = ap (after_messages (m ∷ [])) (hand_all_ends m' ms)

hand_all-AllInternal : (ms : List Message) → AllInternal (hand_all ms)
hand_all-AllInternal [] = tt
hand_all-AllInternal (m ∷ ms) = (tt, hand_all-AllInternal ms)

-- A request that the worker has closed can hand over all that waits, and its loop then returns.
pub drain_ends :
    (ms : List Message)
    → (es : List StreamEvent) × AllInternal es
      × (stream_run es (record { pending = ms; closed = true; seen = false; ended = false })
          ≡ done (record { pending = []; closed = true; seen = true; ended = true }, ms))
unfolding stream_run stream_step
drain_ends [] = (notices ∷ [], (tt, tt), refl)
drain_ends (m ∷ ms) = (
  notices ∷ hand_all (m ∷ ms),
  (tt, hand_all-AllInternal (m ∷ ms)),
  ap (after_messages []) (hand_all_ends m ms),
)
