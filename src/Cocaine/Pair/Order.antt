-- ===== src/Cocaine/Pair/Order.antt =====
-- cocaine/service.go: what the caller receives from a pair of channels.
use cocaine_framework_go.Prelude.{
  ◌≡◌, if◌then◌else◌, sym, ap, subst, ◌∙◌, Bool, true, false, List, [], ◌∷◌, ◌++◌, append_assoc,
  append-nil, arith,
}
use cocaine_framework_go.Effects.{done, blocked, >>=-eq-done}
use cocaine_framework_go.Cocaine.Pair.{
  ServiceRes, ChanPair, get_service_chan_pair, put, close_in, take_out, see_close, see_stop,
  pair_round, PairEvent, puts, closes, takes, sees_close, sees_stop, pair_step, pair_run,
}

-- The results that the service put.
abbrev put_once : PairEvent → List ServiceRes
put_once (puts r) = r ∷ []
put_once _ = []

abbrev pub put_all : List PairEvent → List ServiceRes
put_all [] = []
put_all (e ∷ es) = put_once e ++ put_all es

abbrev is_stop : PairEvent → Bool
is_stop sees_stop = true
is_stop _ = false

-- The goroutine saw the service closed.
abbrev pub stopped : List PairEvent → Bool
stopped [] = false
stopped (e ∷ es) = if is_stop e then true else stopped es

abbrev all_of : ChanPair × List ServiceRes → List ServiceRes
all_of (p, got) = got ++ p.pending

pair_round-pending : (p : ChanPair) → (pair_round p).pending ≡ p.pending
unfolding pair_round
pair_round-pending p = ground arith

put-pending : (r : ServiceRes) (p q : ChanPair) → put r p ≡ done q → q.pending ≡ p.pending ++ r ∷ []
unfolding put pair_round
put-pending r p q h = ground arith

close_in-pending : (p q : ChanPair) → close_in p ≡ done q → q.pending ≡ p.pending
unfolding close_in
close_in-pending p q h = ground arith

take_out-pending :
    (p q : ChanPair) (first : List ServiceRes)
    → take_out p ≡ done (q, first)
    → p.pending ≡ first ++ q.pending
unfolding take_out pair_round
take_out-pending p q first h = ground arith

see_close-pending : (p q : ChanPair) → see_close p ≡ done q → q.pending ≡ p.pending
unfolding see_close pair_round
see_close-pending p q h = ground arith

see_stop-pending : (p q : ChanPair) → see_stop true p ≡ done q → q.pending ≡ p.pending
unfolding see_stop
see_stop-pending p q h = ground arith

-- An event that leaves what was received.
waits_longer :
    (p p' : ChanPair) (got added : List ServiceRes) (t : ChanPair × List ServiceRes)
    → p'.pending ≡ p.pending ++ added
    → done (p', got) ≡ done t
    → all_of t ≡ all_of (p, got) ++ added
waits_longer p p' got added t e h =
    let same : (p', got) ≡ t = ground arith in
    subst (λ x. all_of x ≡ all_of (p, got) ++ added) same
      (ap (λ l. got ++ l) e ∙ sym (append_assoc got p.pending added))

pair_step-all_of :
    (e : PairEvent) (s t : ChanPair × List ServiceRes)
    → pair_step e s ≡ done t
    → all_of t ≡ all_of s ++ put_once e
unfolding pair_step
pair_step-all_of (puts r) (p, got) t h =
    let (p', h', h'') = >>=-eq-done (put r p) _ h in
    waits_longer p p' got (r ∷ []) t (put-pending r p p' h') h''
pair_step-all_of closes (p, got) t h =
    let (p', h', h'') = >>=-eq-done (close_in p) _ h in
    waits_longer p p' got [] t (close_in-pending p p' h' ∙ sym (append-nil p.pending)) h''
pair_step-all_of takes (p, got) t h =
    let ((p', first), h', h'') = >>=-eq-done (take_out p) _ h in
    let same : (p', got ++ first) ≡ t = ground arith in
    subst (λ x. all_of x ≡ all_of (p, got) ++ []) same
      (append_assoc got first p'.pending
        ∙ ap (λ l. got ++ l) (sym (take_out-pending p p' first h'))
        ∙ sym (append-nil (got ++ p.pending)))
pair_step-all_of sees_close (p, got) t h =
    let (p', h', h'') = >>=-eq-done (see_close p) _ h in
    waits_longer p p' got [] t (see_close-pending p p' h' ∙ sym (append-nil p.pending)) h''
pair_step-all_of sees_stop (p, got) t h =
    let (p', h', h'') = >>=-eq-done (see_stop true p) _ h in
    waits_longer p p' got [] t (see_stop-pending p p' h' ∙ sym (append-nil p.pending)) h''

-- Without a stop, Out is closed only when nothing waits and In is closed.
abbrev DrainsFirst : ChanPair → Type 0
DrainsFirst p =
    (p.ended ≡ true → (p.pending ≡ []) × (p.in_closed ≡ true))
    × (p.finished ≡ true → p.in_closed ≡ true)

pair_step-DrainsFirst :
    (e : PairEvent) (s t : ChanPair × List ServiceRes)
    → pair_step e s ≡ done t
    → DrainsFirst s.0
    → is_stop e ≡ false
    → DrainsFirst t.0
unfolding pair_step put close_in take_out see_close see_stop pair_round
pair_step-DrainsFirst (puts r) s t q h n = ground arith
pair_step-DrainsFirst closes s t q h n = ground arith
pair_step-DrainsFirst takes s t q h n = ground arith
pair_step-DrainsFirst sees_close s t q h n = ground arith
pair_step-DrainsFirst sees_stop s t q h n = cc

-- What a run leaves, relative to where it began.
record Ran (es : List PairEvent) (s t : ChanPair × List ServiceRes) : Type 0 where
  all_kept : all_of t ≡ all_of s ++ put_all es
  drains : DrainsFirst s.0 → stopped es ≡ false → DrainsFirst t.0

pair_run-Ran :
    (es : List PairEvent) (s t : ChanPair × List ServiceRes) → pair_run es s ≡ done t → Ran es s t
unfolding pair_run
pair_run-Ran [] s t p =
    let same : s ≡ t = ground arith in
    subst (Ran [] s) same (record { all_kept = sym (append-nil (all_of s)); drains = λ d n. d })
pair_run-Ran (e ∷ es) s t p =
    let (u, q, r) = >>=-eq-done (pair_step e s) (pair_run es) p in
    let h = pair_run-Ran es u t r in
    record {
      all_kept =
          h.all_kept
          ∙ ap (λ x. x ++ put_all es) (pair_step-all_of e s u q)
          ∙ append_assoc (all_of s) (put_once e) (put_all es);
      drains = λ d n.
          let none_now : is_stop e ≡ false = ground arith in
          let none_later : stopped es ≡ false = ground arith in
          h.drains (pair_step-DrainsFirst e s u q d none_now) none_later;
    }

-- In every interleaving of the service, the caller and the goroutine, what the caller of a method
-- has received from its channel and what still waits are the results that the service put, in
-- order; and when the channel is closed although the service was not, the service has closed its
-- end and the caller has received all of them.
pub pair_complete :
    (es : List PairEvent) (p : ChanPair) (got : List ServiceRes)
    → pair_run es (get_service_chan_pair, []) ≡ done (p, got)
    → (got ++ p.pending ≡ put_all es)
      × (p.ended ≡ true → stopped es ≡ false → (got ≡ put_all es) × (p.in_closed ≡ true))
pair_complete es p got h =
    let r = pair_run-Ran es (get_service_chan_pair, []) (p, got) h in
    (
      r.all_kept,
      λ ended n.
          let (empty, closed) = (r.drains (ground arith) n).0 ended in
          (sym (append-nil got) ∙ ap (λ l. got ++ l) (sym empty) ∙ r.all_kept, closed),
    )

-- A service that puts a result into the pair of a call after the goroutine ended on a Close waits
-- for ever, unless it has closed In itself.
pub put_after_stop :
    (r : ServiceRes) (p q : ChanPair)
    → see_stop true p ≡ done q
    → p.in_closed ≡ false
    → put r q ≡ blocked
unfolding see_stop put
put_after_stop r p q h n = ground arith
