-- ===== src/Worker/State/Invariant.antt =====
-- What the worker keeps true of its sessions: its calls neither panic on a closed channel nor wait
-- for a loop that has returned.
use cocaine_framework_go.Prelude.{
  sym, ℕ, Bytes, ◌≤◌, ◌<◌, ◌≡◌, ◌≢◌, ◌∙◌, ap, subst, ◌⊎◌, false, ◌==◌, List, [], ◌∷◌, ◌++◌, some,
  length, get_elem?, set, arith, get_elem?-set_self, get_elem?-set_ne, get_elem?-append_left,
  get_elem?-append_length, get_elem?-some_lt, Bool-cases, inl, inr, ==_iff,
}
use cocaine_framework_go.Prelude.Maps.{lookup, insert, delete, lookup-insert, lookup-delete}
use cocaine_framework_go.Effects.{done}
use cocaine_framework_go.Message.{Message}
use cocaine_framework_go.Worker.Stream
use cocaine_framework_go.Worker.Stream.{Stream, new_request}
use cocaine_framework_go.Worker.State.{Worker, WriteChoice, fresh_worker}

-- A request that the worker may push to and close.
pub record IsOpen (s : Stream) : Type 0 where
  pub not_closed : s.closed ≡ false
  pub not_seen : s.seen ≡ false
  pub not_ended : s.ended ≡ false

-- The sessions of the map are at most `m`, and point to different open requests.
pub record Sessions (m : ℕ) (links : List (ℕ × ℕ)) (store : List Stream) : Type 0 where
  pub seen_before : (k r : ℕ) → lookup k links ≡ some r → k ≤ m
  pub live :
      (k r : ℕ) → lookup k links ≡ some r → (s : Stream) × (get_elem? store r ≡ some s) × IsOpen s
  pub apart : (j k r : ℕ) → lookup j links ≡ some r → lookup k links ≡ some r → j ≡ k

abbrev pub HasSessions : Worker → Type 0
HasSessions w = Sessions w.protocol.max_session w.sessions w.store

pub push-IsOpen :
    (msg : Message) (s : Stream) → IsOpen s → (t : Stream) × (Stream.push msg s ≡ done t) × IsOpen t
unfolding Stream.push
push-IsOpen msg s o = (record s { pending = s.pending ++ msg ∷ [] }, ground arith, ground arith)

abbrev pub Live : List Stream → ℕ → Type 0
Live store r = (s : Stream) × (get_elem? store r ≡ some s) × IsOpen s

-- Writing a request in the place of another keeps the invariant, if it is open where that was.
pub set-Sessions :
    (m : ℕ) (links : List (ℕ × ℕ)) (store : List Stream) (r : ℕ) (t : Stream)
    → ((s : Stream) → get_elem? store r ≡ some s → IsOpen s → IsOpen t)
    → Sessions m links store
    → Sessions m links (set store r t)
set-Sessions m links store r t opened v = record {
  seen_before = v.seen_before;
  live = live';
  apart = v.apart;
}
  where
    live' : (k r' : ℕ) → lookup k links ≡ some r' → Live (set store r t) r'
    live' k r' e =
        let (s, found, o) = v.live k r' e in
        elim (Bool-cases (r == r')) [
          | inl same ↦
              let p : r ≡ r' = (==_iff r r').0 same in
              (
                t,
                subst (λ x. get_elem? (set store r t) x ≡ some t) p
                    (get_elem?-set_self store r t
                      (omega (arith, p, get_elem?-some_lt store r' s found))),
                opened s (subst (λ x. get_elem? store x ≡ some s) (sym p) found) o,
              )
          | inr apart ↦ (s, get_elem?-set_ne store r r' t (ground arith) ∙ found, o)
        ]

-- Closing a session's request and deleting the session keeps it.
pub close-Sessions :
    (m : ℕ) (links : List (ℕ × ℕ)) (store : List Stream) (k r : ℕ) (t : Stream)
    → lookup k links ≡ some r
    → Sessions m links store
    → Sessions m (delete k links) (set store r t)
close-Sessions m links store k r t e v = record {
  seen_before = λ j r' p. v.seen_before j r' (kept j r' p).1;
  live = live';
  apart = λ i j r' p q. v.apart i j r' (kept i r' p).1 (kept j r' q).1;
}
  where
    kept : (j r' : ℕ) → lookup j (delete k links) ≡ some r' → (k ≢ j) × (lookup j links ≡ some r')
    kept j r' p = ground (arith, lookup-delete k j links)

    live' : (j r' : ℕ) → lookup j (delete k links) ≡ some r' → Live (set store r t) r'
    live' j r' p =
        let (ne, q) = kept j r' p in
        let (s, found, o) = v.live j r' q in
        (
          s,
          get_elem?-set_ne store r r' t
                (λ (same : r ≡ r'). ne (v.apart k j r' (e ∙ ap some same) q))
              ∙ found,
          o,
        )

-- A new session above all others, with a request of its own, keeps it.
pub invoke-Sessions :
    (m : ℕ) (links : List (ℕ × ℕ)) (store : List Stream) (k : ℕ)
    → m < k
    → Sessions m links store
    → Sessions k (insert k (length store) links) (store ++ new_request ∷ [])
invoke-Sessions m links store k h v = record {
  seen_before = λ j r p. ground (arith, cases j r p, v.seen_before j r);
  live = live';
  apart = apart';
}
  where
    cases :
        (j r : ℕ)
        → lookup j (insert k (length store) links) ≡ some r
        → ((j ≡ k) × (r ≡ length store)) ⊎ (lookup j links ≡ some r)
    cases j r p = ground (arith, lookup-insert k j (length store) links)

    below : (j r : ℕ) → lookup j links ≡ some r → r < length store
    below j r p = let (s, found, o) = v.live j r p in get_elem?-some_lt store r s found

    live' :
        (j r : ℕ)
        → lookup j (insert k (length store) links) ≡ some r
        → Live (store ++ new_request ∷ []) r
    live' j r p = elim (cases j r p) [
      | inl (_, last) ↦
          (new_request, rw last (get_elem?-append_length store new_request), ground arith)
      | inr old ↦
          let (s, found, o) = v.live j r old in
          (s, get_elem?-append_left store (new_request ∷ []) r (below j r old) ∙ found, o)
    ]

    apart' :
        (i j r : ℕ)
        → lookup i (insert k (length store) links) ≡ some r
        → lookup j (insert k (length store) links) ≡ some r
        → i ≡ j
    apart' i j r p q = elim (cases i r p) [
      | inl (a, last) ↦ elim (cases j r q) [
        | inl (b, _) ↦ omega arith
        | inr old ↦ absurd (omega (arith, below j r old))
      ]
      | inr old ↦ elim (cases j r q) [
        | inl (b, last) ↦ absurd (omega (arith, below i r old))
        | inr old' ↦ v.apart i j r old old'
      ]
    ]

-- A new worker has no session.
pub fresh-HasSessions : (id : Bytes) (c : WriteChoice) → HasSessions (fresh_worker id c)
fresh-HasSessions id c = record {
  seen_before = λ k r e. cc;
  live = λ k r e. cc;
  apart = λ j k r e e'. cc;
}
