-- ===== src/Cocaine/Service.antt =====
-- cocaine/service.go and cocaine/sessionkeeper.go: type Service. The channels of the calls live in
-- a store, since a caller keeps his after the session is detached. The socket is what was written
-- to it and whether IsClosed() is closed; resolving and connecting end as an event says.
pub mod Steps
pub mod Safety
pub mod Runs
pub mod Closed
use cocaine_framework_go.Prelude.{
  ℕ, suc, ◌+◌, ◌%◌, ◌^◌, if◌then◌else◌, not, ◌&&◌, ◌||◌, ltb, Bytes, bytes, bytes_eq, ℤ, pos,
  negsuc, to_uint64, to_int64, Bool, true, false, List, [], ◌∷◌, ◌++◌, Option, none, some, length,
  get_elem?, set,
}
use cocaine_framework_go.Prelude.Maps.{lookup, insert, delete, keys}
use cocaine_framework_go.Errors.{Error, foreign}
use cocaine_framework_go.Effects.{
  Outcome, done, panic, blocked, ◌>>=◌, nil_dereference, close_of_closed_channel,
}
use cocaine_framework_go.Message.{Value}
use cocaine_framework_go.Cocaine.Message.{
  MessageInterface, chunk, choke, error_msg, service_method, MessageInfo, info,
}
use cocaine_framework_go.Cocaine.Pair.{
  ServiceRes, ChanPair, get_service_chan_pair, put, close_in, take_out, see_close, see_stop,
}

-- A key of type int64 is kept as its two's complement.
pub record KeeperStruct : Type 0 where
  pub links : List (ℕ × ℕ)
  pub counter : ℕ

abbrev pub new_keeper_struct : KeeperStruct
new_keeper_struct = record { links = []; counter = 0 }

unfoldable pub keeper_attach : ℕ → KeeperStruct → KeeperStruct × ℕ
keeper_attach place k =
    let id = (k.counter + 1) % 2 ^ 64 in
    (record { links = insert id place k.links; counter = id }, id)

unfoldable pub keeper_detach : ℕ → KeeperStruct → KeeperStruct
keeper_detach id k = record k { links = delete id k.links }

unfoldable pub keeper_get : ℕ → KeeperStruct → Option ℕ
keeper_get id k = lookup id k.links

unfoldable pub keeper_keys : KeeperStruct → List ℕ
keeper_keys k = keys k.links

-- A pair, and the epoch whose channel `stop` its goroutine waits on: the select reads
-- service.stop in each round.
pub record OpenPair : Type 0 where
  pub chan : ChanPair
  pub stop_epoch : ℕ

pub record Client : Type 0 where
  pub api : List (ℤ × Bytes)
  pub sessions : KeeperStruct
  pub pairs : List OpenPair
  -- what was written to the socket
  pub sent : List MessageInterface
  -- socketIO.IsClosed() is closed
  pub is_closed : Bool
  -- the channel `stop` is closed, and with it the socket: Close does both
  pub stop_closed : Bool
  pub is_reconnecting : Bool
  -- how often `stop` was made anew
  pub epoch : ℕ

abbrev pub new_client : List (ℤ × Bytes) → Client
new_client api = record {
  api = api;
  sessions = new_keeper_struct;
  pairs = [];
  sent = [];
  is_closed = false;
  stop_closed = false;
  is_reconnecting = false;
  epoch = 0;
}

-- The map of a ResolveResult, in the order in which the loop meets its keys.
unfoldable pub get_method_number : Bytes → List (ℤ × Bytes) → Option ℤ
get_method_number name [] = none
get_method_number name ((key, value) ∷ api) =
    let rest = get_method_number name api in if bytes_eq value name then some key else rest

-- What is done to the pair at a place.
unfoldable pub on_pair : (OpenPair → Outcome OpenPair) → ℕ → Client → Outcome Client
on_pair f i s = elim (get_elem? s.pairs i) [
  | none ↦ panic nil_dereference
  | some p ↦ f p >>= λ q. done (record s { pairs = set s.pairs i q })
]

-- A round of the goroutine, which reads service.stop again.
abbrev pub round_in : ℕ → (ChanPair → Outcome ChanPair) → OpenPair → Outcome OpenPair
round_in epoch f p = f p.chan >>= λ q. done (record { chan = q; stop_epoch = epoch })

-- close(ch), which the goroutine sees later.
abbrev pub close_pair : OpenPair → Outcome OpenPair
unfolding close_in
close_pair p = close_in p.chan >>= λ q. done (record p { chan = q })

abbrev pub detached : ℕ → Client → Client
unfolding keeper_detach
detached id s = record s { sessions = keeper_detach id s.sessions }

abbrev pub service_error : ℤ → Bytes → ServiceRes
service_error code message = record { res = []; failure = some (Error.service code message) }

-- `if ch, ok := service.sessions.Get(id); ok { ch <- r }`
unfoldable pub put_to : ServiceRes → ℕ → Client → Outcome Client
unfolding on_pair keeper_get put
put_to r id s = elim (keeper_get id s.sessions) [
  | none ↦ done s
  | some i ↦ on_pair (round_in s.epoch (put r)) i s
]

-- `if ch, ok := service.sessions.Get(id); ok { close(ch) }`
unfoldable pub close_open : ℕ → Client → Outcome Client
unfolding on_pair keeper_get close_pair
close_open id s = elim (keeper_get id s.sessions) [
  | none ↦ done s
  | some i ↦ on_pair close_pair i s
]

-- `if ch, ok := service.sessions.Get(id); ok { close(ch); Detach }`, when nothing happens in between.
unfoldable pub close_session : ℕ → Client → Outcome Client
unfolding on_pair keeper_get close_pair
close_session id s = elim (keeper_get id s.sessions) [
  | none ↦ done s
  | some i ↦ on_pair close_pair i s >>= λ t. done (detached id t)
]

-- One message in loop, when nothing happens in between.
unfoldable pub client_message : MessageInterface → Client → Outcome Client
unfolding put_to close_session
client_message (chunk i content) s =
    put_to (record { res = content; failure = none }) (to_uint64 i.channel) s
client_message (choke i) s = close_session (to_uint64 i.channel) s
client_message (error_msg i code message) s =
    put_to (service_error code message) (to_uint64 i.channel) s
client_message _ s = done s

-- The end of loop: what it does with the keys, which it has read before, when nothing happens in
-- between.
unfoldable pub end_sessions : List ℕ → Client → Outcome Client
unfolding put_to close_session
end_sessions [] s = done s
end_sessions (id ∷ ids) s = put_to (service_error (negsuc 0) (bytes "Disconnected")) id s >>= λ t.
    close_session id t >>= end_sessions ids

unfoldable pub client_loop_end : Client → Outcome Client
unfolding end_sessions keeper_keys
client_loop_end s = end_sessions (keeper_keys s.sessions) s

unfoldable pub client_close : Client → Outcome Client
client_close s =
    if s.stop_closed
    then panic close_of_closed_channel
    else done (record s { stop_closed = true; is_closed = true })

-- The errors that Reconnect makes itself.
abbrev pub reconnecting_now : Error
reconnecting_now = foreign 0

abbrev pub already_connected : Error
already_connected = foreign 1

unfoldable pub drop_sessions : List ℕ → Client → Outcome Client
unfolding put_to
drop_sessions [] s = done s
drop_sessions (id ∷ ids) s = put_to (service_error (negsuc 99) (bytes "Disconnected")) id s >>= λ t.
    drop_sessions ids (detached id t)

-- From the new socket on; `resolved` is the error of resolving or connecting, if any.
unfoldable pub new_socket : Option Error → Client → Outcome (Client × Option Error)
unfolding client_close
new_socket (some e) s = done (s, some e)
new_socket none s = client_close s >>= λ t.
    done (record t { stop_closed = false; is_closed = false; sent = []; epoch = suc t.epoch }, none)

-- The deferred reset of is_reconnecting.
abbrev pub reset : Client × Option Error → Client × Option Error
reset (s, e) = (record s { is_reconnecting = false }, e)

-- Reconnect, when nothing happens in between.
unfoldable pub client_reconnect : Bool → Option Error → Client → Outcome (Client × Option Error)
unfolding drop_sessions new_socket keeper_keys
client_reconnect force resolved s =
    if s.is_reconnecting
    then done (s, some reconnecting_now)
    else if not force && not s.is_closed
    then done (s, some already_connected)
    else drop_sessions (keeper_keys s.sessions) (record s { is_reconnecting = true }) >>= λ t.
        new_socket resolved t >>= λ r. done (reset r)

-- The channel that a call returns: one that holds an error, or the Out of the pair at a place.
pub data CallChannel : Type 0 where
  failed : ServiceRes → CallChannel
  of_pair : ℕ → CallChannel

-- service.socketIO.Write() <- msg: after Close nobody receives.
unfoldable pub write_to : MessageInterface → Client → Outcome Client
write_to msg s = if s.stop_closed then blocked else done (record s { sent = s.sent ++ msg ∷ [] })

unfoldable pub client_call : Bytes → List Value → Client → Outcome (Client × CallChannel)
unfolding get_method_number keeper_attach write_to
client_call name args s = elim (get_method_number name s.api) [
  | none ↦ done (s, failed (service_error (negsuc 99) (bytes "Wrong method name")))
  | some method ↦
      let (sessions, id) = keeper_attach (length s.pairs) s.sessions in
      write_to (service_method (info method (to_int64 id)) args) (record s {
        sessions = sessions;
        pairs = s.pairs ++ record { chan = get_service_chan_pair; stop_epoch = s.epoch } ∷ [];
      })
      >>= λ t. done (t, of_pair (length s.pairs))
]

-- Call
abbrev pub call_if : Bytes → List Value → Client × Option Error → Outcome (Client × CallChannel)
unfolding client_call
call_if name args (s, some e) = done (s, failed (service_error (negsuc 31) (bytes "Disconnected")))
call_if name args (s, none) = client_call name args s

unfoldable pub client_call_checked :
    Bytes → List Value → Option Error → Client → Outcome (Client × CallChannel)
unfolding client_reconnect call_if
client_call_checked name args resolved s =
    if s.is_closed
    then client_reconnect false resolved s >>= call_if name args
    else client_call name args s
