-- ===== src/Cocaine/Service/Safety.antt =====
-- cocaine/service.go: the service sends on no closed channel and closes none twice.
use cocaine_framework_go.Prelude.{
  ℕ, ◌≡◌, refl, ◌∙◌, Bool, true, false, List, [], ◌∷◌, ◌++◌, some, get_elem?, arith, Bool-cases,
  Option-cases, if_cases, not, ◌&&◌, ◌||◌, ltb, inl, inr,
}
use cocaine_framework_go.Prelude.Maps.{lookup}
use cocaine_framework_go.Prelude.Links.{IsLinked, set-IsLinked, delete-IsLinked, forget-IsLinked}
use cocaine_framework_go.Effects.{Outcome, done, blocked, ◌>>=◌, Safely, >>=-Safely}
use cocaine_framework_go.Cocaine.Message.{
  MessageInterface, chunk, choke, error_msg, handshake_struct, heartbeat, terminate_struct, invoke,
  service_method,
}
use cocaine_framework_go.Cocaine.Pair.{
  ServiceRes, ChanPair, put, close_in, take_out, see_close, see_stop, pair_round,
}
use cocaine_framework_go.Cocaine.Service.{
  OpenPair, Client, on_pair, round_in, detached, keeper_get, keeper_detach, put_to, close_open,
  close_session, client_message, end_sessions, drop_sessions,
}
use cocaine_framework_go.Cocaine.Service.Steps.{
  PairMove, caller_takes, goroutine_sees_close, goroutine_sees_stop, move_pair,
}

-- The service may still put results into the pair, and close it.
abbrev pub IsOpen : OpenPair → Type 0
IsOpen p = p.chan.in_closed ≡ false

-- Each session has an open pair of its own.
abbrev pub HasPairs : Client → Type 0
HasPairs s = IsLinked IsOpen s.sessions.links s.pairs

-- And `closed` says whether a client has called Close since the socket was made.
abbrev pub IsUsableAt : Bool → Client → Type 0
IsUsableAt closed s = HasPairs s × (s.stop_closed ≡ closed)

abbrev pub IsUsable : Client → Type 0
IsUsable s = IsUsableAt false s

-- What an action did to a pair: it did not panic, and left In as it was.
abbrev Leaves : ChanPair → Outcome ChanPair → Type 0
Leaves c = Safely (λ d. d.in_closed ≡ c.in_closed)

pair_round-in_closed : (c : ChanPair) → (pair_round c).in_closed ≡ c.in_closed
unfolding pair_round
pair_round-in_closed c = ground arith

put-Leaves : (r : ServiceRes) (c : ChanPair) → c.in_closed ≡ false → Leaves c (put r c)
unfolding put
put-Leaves r c o =
    if_cases (Leaves c) c.in_closed _ _ (λ closed. absurd (ground arith))
      (λ open_in.
        if_cases (Leaves c) c.ended _ _ (λ ended. tt)
          (λ runs. pair_round-in_closed (record c { pending = c.pending ++ r ∷ [] })))

take_out-Leaves : (c : ChanPair) → Leaves c (take_out c >>= λ (q, first). done q)
unfolding take_out
take_out-Leaves c = elim (Bool-cases c.ended) [
  | inl e ↦ rw e tt
  | inr e ↦
      rw e
        (elim c.pending
          as (λ l. Leaves c (
            ◌>>=◌ {A = ChanPair × List ServiceRes}
              (elim l [
                | [] ↦ blocked
                | first ∷ rest ↦ done (pair_round (record c { pending = rest }), first ∷ [])
              ])
              (λ (q, first). done q))) [
                | [] ↦ tt
                | first ∷ rest ↦ pair_round-in_closed (record c { pending = rest })
              ])
]

see_close-Leaves : (c : ChanPair) → Leaves c (see_close c)
unfolding see_close
see_close-Leaves c =
    if_cases (Leaves c) (not c.ended && (c.in_closed && not c.finished)) _ _
      (λ sees. pair_round-in_closed (record c { finished = true })) (λ waits. tt)

see_stop-Leaves : (b : Bool) (c : ChanPair) → Leaves c (see_stop b c)
unfolding see_stop
see_stop-Leaves b c = if_cases (Leaves c) (not c.ended && b) _ _ (λ sees. refl) (λ waits. tt)

-- A round of the goroutine leaves an open pair open.
abbrev Opens : OpenPair → Outcome OpenPair → Type 0
Opens p = Safely (λ q. IsOpen p → IsOpen q)

round_in-Opens :
    (epoch : ℕ) (f : ChanPair → Outcome ChanPair) (p : OpenPair)
    → Leaves p.chan (f p.chan)
    → Opens p (round_in epoch f p)
round_in-Opens epoch f p h =
    >>=-Safely _ (λ q. IsOpen p → IsOpen q) (f p.chan) _ h (λ c same o. same ∙ o)

pub move_pair-Opens : (m : PairMove) (s : Client) (p : OpenPair) → Opens p (move_pair m s p)
unfolding move_pair
move_pair-Opens caller_takes s p =
    round_in-Opens s.epoch (λ c. take_out c >>= λ (q, first). done q) p (take_out-Leaves p.chan)
move_pair-Opens goroutine_sees_close s p =
    round_in-Opens s.epoch see_close p (see_close-Leaves p.chan)
move_pair-Opens goroutine_sees_stop s p =
    let stop = s.stop_closed || ltb p.stop_epoch s.epoch in
    round_in-Opens s.epoch (see_stop stop) p (see_stop-Leaves stop p.chan)

pub on_pair-IsUsableAt :
    (b : Bool) (f : OpenPair → Outcome OpenPair) (i : ℕ) (s : Client) (p : OpenPair)
    → get_elem? s.pairs i ≡ some p
    → Opens p (f p)
    → IsUsableAt b s
    → Safely (IsUsableAt b) (on_pair f i s)
unfolding on_pair
on_pair-IsUsableAt b f i s p found h (v, n) =
    rw (found, Safely)
      (>>=-Safely (λ q. IsOpen p → IsOpen q) (IsUsableAt b) (f p) _ h
        (λ q opens. (
          set-IsLinked IsOpen s.sessions.links s.pairs i q (λ a found' o. opens (ground arith)) v,
          n,
        )))

pub put_to-IsUsableAt :
    (b : Bool) (r : ServiceRes) (id : ℕ) (s : Client)
    → IsUsableAt b s
    → Safely (IsUsableAt b) (put_to r id s)
unfolding put_to keeper_get
put_to-IsUsableAt b r id s (v, n) = elim (Option-cases (lookup id s.sessions.links)) [
  | inl e ↦ rw (e, Safely) (v, n)
  | inr (i, e) ↦
      let (p, found, o) = v.live id i e in
      rw (e, Safely)
        (on_pair-IsUsableAt b _ i s p found
          (round_in-Opens s.epoch (put r) p (put-Leaves r p.chan o)) (v, n))
]

close_session-IsUsable : (id : ℕ) (s : Client) → IsUsable s → Safely IsUsable (close_session id s)
unfolding close_session keeper_get on_pair close_in keeper_detach
close_session-IsUsable id s (v, n) = elim (Option-cases (lookup id s.sessions.links)) [
  | inl e ↦ rw (e, Safely) (v, n)
  | inr (i, e) ↦
      let (p, found, o) = v.live id i e in
      rw (e, found, o, Safely) (delete-IsLinked IsOpen s.sessions.links s.pairs id i _ e v, n)
]

-- Between the close of a channel and the Detach, the session is the only one without an open pair.
pub close_open-detached :
    (id : ℕ) (s : Client) → IsUsable s → Safely (λ t. IsUsable (detached id t)) (close_open id s)
unfolding close_open keeper_get on_pair close_in keeper_detach detached
close_open-detached id s (v, n) = elim (Option-cases (lookup id s.sessions.links)) [
  | inl e ↦ rw (e, Safely) (forget-IsLinked IsOpen s.sessions.links s.pairs id v, n)
  | inr (i, e) ↦
      let (p, found, o) = v.live id i e in
      rw (e, found, o, Safely) (delete-IsLinked IsOpen s.sessions.links s.pairs id i _ e v, n)
]

pub detached-IsUsable : (id : ℕ) (s : Client) → IsUsable s → IsUsable (detached id s)
unfolding detached keeper_detach
detached-IsUsable id s (v, n) = (forget-IsLinked IsOpen s.sessions.links s.pairs id v, n)

pub client_message-IsUsable :
    (msg : MessageInterface) (s : Client) → IsUsable s → Safely IsUsable (client_message msg s)
unfolding client_message
client_message-IsUsable (chunk i d) s u = put_to-IsUsableAt false _ _ s u
client_message-IsUsable (choke i) s u = close_session-IsUsable _ s u
client_message-IsUsable (error_msg i c m) s u = put_to-IsUsableAt false _ _ s u
client_message-IsUsable (handshake_struct i x) s u = u
client_message-IsUsable (heartbeat i) s u = u
client_message-IsUsable (terminate_struct i r m) s u = u
client_message-IsUsable (invoke i e) s u = u
client_message-IsUsable (service_method i d) s u = u

pub end_sessions-IsUsable :
    (ids : List ℕ) (s : Client) → IsUsable s → Safely IsUsable (end_sessions ids s)
unfolding end_sessions
end_sessions-IsUsable [] s u = u
end_sessions-IsUsable (id ∷ ids) s u =
    >>=-Safely IsUsable IsUsable (put_to _ id s) _ (put_to-IsUsableAt false _ id s u) (λ t u'.
      >>=-Safely IsUsable IsUsable (close_session id t) _ (close_session-IsUsable id t u')
        (end_sessions-IsUsable ids))

pub drop_sessions-IsUsableAt :
    (b : Bool) (ids : List ℕ) (s : Client)
    → IsUsableAt b s
    → Safely (IsUsableAt b) (drop_sessions ids s)
unfolding drop_sessions detached keeper_detach
drop_sessions-IsUsableAt b [] s u = u
drop_sessions-IsUsableAt b (id ∷ ids) s u =
    >>=-Safely (IsUsableAt b) (IsUsableAt b) (put_to _ id s) _ (put_to-IsUsableAt b _ id s u)
      (λ t (v, n).
        drop_sessions-IsUsableAt b ids (detached id t)
          (forget-IsLinked IsOpen t.sessions.links t.pairs id v, n))
