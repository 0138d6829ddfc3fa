-- ===== src/Worker/State/Starts.antt =====
-- The handlers that a worker starts.
use cocaine_framework_go.Prelude.{ℕ, ◌≤◌, ◌<◌, ◌≡◌, List, [], ◌∷◌, ◌++◌, arith, Bytes, subst}
use cocaine_framework_go.Effects.{done}
use cocaine_framework_go.Message.{Message}
use cocaine_framework_go.Worker.State.{Worker, Invocation, WriteChoice, fresh_worker, start_handler}
use cocaine_framework_go.Worker.State.Lifetime.{receive_all, receive_all-cons, receive-Leads}

-- The sessions increase strictly, from above `lo` up to at most `hi`.
abbrev pub Increasing : ℕ → ℕ → List Invocation → Type 0
Increasing lo hi [] = lo ≤ hi
Increasing lo hi (i ∷ is) = (lo < i.session) × Increasing i.session hi is

Increasing-mono :
    (lo hi hi' : ℕ) (is : List Invocation) → hi ≤ hi' → Increasing lo hi is → Increasing lo hi' is
Increasing-mono lo hi hi' [] h p = omega arith
Increasing-mono lo hi hi' (i ∷ is) h p = (p.0, Increasing-mono i.session hi hi' is h p.1)

Increasing-append :
    (lo hi : ℕ) (is : List Invocation) (i : Invocation)
    → hi < i.session
    → Increasing lo hi is
    → Increasing lo i.session (is ++ i ∷ [])
Increasing-append lo hi [] i h p = omega arith
Increasing-append lo hi (j ∷ is) i h p = (p.0, Increasing-append j.session hi is i h p.1)

receive_all-Increasing :
    (msgs : List Message) (w u : Worker)
    → Increasing 1 w.protocol.max_session w.started
    → receive_all msgs w ≡ done u
    → Increasing 1 u.protocol.max_session u.started
unfolding receive_all start_handler
receive_all-Increasing [] w u h p =
    let same : w ≡ u = ground arith in
    subst (λ (x : Worker). Increasing 1 x.protocol.max_session x.started) same h
receive_all-Increasing (msg ∷ msgs) w u h p =
    let (v, x, q, r) = receive_all-cons msg msgs w u p in
    receive_all-Increasing msgs v u
      (receive-Leads (λ m _ is. Increasing 1 m is) w msg h h
        (λ n b. (
          Increasing-mono 1 w.protocol.max_session msg.session w.started (omega arith) h,
          Increasing-append 1 w.protocol.max_session w.started _ n h,
        ))
        v x q)
      r

-- A worker starts handlers for strictly increasing sessions, all above the utility session: no
-- session ever gets a second handler.
pub starts_increase :
    (id : Bytes) (c : WriteChoice) (msgs : List Message) (u : Worker)
    → receive_all msgs (fresh_worker id c) ≡ done u
    → Increasing 1 u.protocol.max_session u.started
starts_increase id c msgs u p = receive_all-Increasing msgs (fresh_worker id c) u (omega arith) p
