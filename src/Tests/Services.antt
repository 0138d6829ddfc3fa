-- ===== src/Tests/Services.antt =====
-- A service of cocaine12/service.go.
use cocaine_framework_go.Prelude.{
  ℕ, ◌≡◌, ◌≢◌, refl, true, if◌then◌else◌, List, [], ◌∷◌, none, some, bytes, ℤ, Bytes, get_elem?,
}
use cocaine_framework_go.Errors.{Result, err, bad_payload}
use cocaine_framework_go.Effects.{done, panic, nil_dereference}
use cocaine_framework_go.Message.{Value, Message}
use cocaine_framework_go.Service.Dispatch.{
  StreamDescription, DispatchItem, tree, nil, end, item, dispatch_type, find_item,
}
use cocaine_framework_go.Service.Sessions
use cocaine_framework_go.Service.Sessions.{detach, session_keys}
use cocaine_framework_go.Service.Channel
use cocaine_framework_go.Service.Channel.{Rx, Tx, tree_entry, is_empty_type}
use cocaine_framework_go.Service.Channel.Moves.{waiting}
use cocaine_framework_go.Service.Client
use cocaine_framework_go.Service.Client.{
  Service, ServiceEvent, calls, channel_calls, closes, new_service, new_channel, on_data,
  push_disconnected_error, push_to_all,
}
use cocaine_framework_go.Service.Client.Routing.{result_of, data_routes}

abbrev convert : List Value → Result (ℤ × ℤ × Bytes)
convert payload = err bad_payload

abbrev value_or_error : StreamDescription
value_or_error = tree (item 0 (bytes "value") (tree end) (item 1 (bytes "error") (tree end) end))

abbrev only_values : StreamDescription
only_values = tree (item 0 (bytes "value") nil end)

abbrev ping : DispatchItem
ping = record { name = bytes "ping"; downstream = only_values; upstream = value_or_error }

abbrev watch : DispatchItem
watch = record { name = bytes "watch"; downstream = tree end; upstream = only_values }

abbrev api : List (ℕ × DispatchItem)
api = (5, ping) ∷ (6, watch) ∷ []

abbrev message : ℕ → ℕ → Message
message id n = record { session = id; msg_type = n; payload = []; headers = [] }

abbrev requests : List ServiceEvent
requests =
    calls (bytes "ping") [] [] none
    ∷ calls (bytes "watch") [] [] none
    ∷ channel_calls 0 (bytes "value") []
    ∷ []

abbrev busy : Service
busy = record (new_service api) {
  sessions = record { links = (3, 1) ∷ (2, 0) ∷ []; counter = 3 };
  channels = new_channel ping 2 [] ∷ new_channel watch 3 [] ∷ [];
  sent = message 2 5 ∷ message 3 6 ∷ message 2 0 ∷ [];
}

abbrev closed : Service
closed = record (new_service api) { is_closed = true; stop_closed = true }

closes_service : Client.close (new_service api) ≡ done closed
unfolding Client.close
closes_service = refl

nothing_to_push : push_disconnected_error closed ≡ done closed
unfolding push_disconnected_error push_to_all session_keys
nothing_to_push = refl

linked : Sessions.get 2 busy.sessions ≡ some 0
unfolding Sessions.get
linked = refl

value_known : tree_entry 0 value_or_error ≡ done (bytes "value", tree end)
unfolding tree_entry find_item
value_known = refl

data_routes_example :
    (t : Service) × (rx : Rx) × (on_data (message 2 0) busy ≡ done t)
    × (get_elem? t.channels 0 ≡ some (rx, (new_channel ping 2 []).1))
    × (waiting rx ≡ result_of (message 2 0) ∷ [])
    × ((i : ℕ) → 0 ≢ i → get_elem? t.channels i ≡ get_elem? busy.channels i)
    × (t.sessions ≡ (
        if is_empty_type (dispatch_type (tree end)) then detach 2 busy.sessions else busy.sessions))
data_routes_example =
    data_routes busy (message 2 0) 0 (new_channel ping 2 []).0 (new_channel ping 2 []).1
      (bytes "value") (tree end) linked refl value_known

no_error_method : tree_entry 1 only_values ≡ panic nil_dereference
unfolding tree_entry find_item
no_error_method = refl

-- The connection is lost before the first call.
abbrev lost : Service
lost = record (new_service api) { is_closed = true }

nothing_attached : push_disconnected_error lost ≡ done lost
unfolding push_disconnected_error push_to_all session_keys
nothing_attached = refl
