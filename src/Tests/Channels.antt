-- ===== src/Tests/Channels.antt =====
-- A channel of cocaine12/channel.go.
use cocaine_framework_go.Prelude.{
  ℕ, ◌≡◌, refl, true, false, List, [], ◌∷◌, ◌++◌, Option, none, some, bytes, ℤ, Bytes,
}
use cocaine_framework_go.Errors.{Error, Result, err, bad_payload}
use cocaine_framework_go.Effects.{done, panic, nil_dereference}
use cocaine_framework_go.Message.{Value, Message}
use cocaine_framework_go.Service.Dispatch.{
  StreamDescription, tree, nil, end, item, other_dispatch, dispatch_type, find_item, method_by_name,
}
use cocaine_framework_go.Service.Channel.{
  ServiceResult, Rx, Tx, tree_entry, is_empty_type, takes, get, push, call, finish_get,
}
use cocaine_framework_go.Service.Channel.Moves.{
  RxEvent, pushes, gets, plain, plains, waiting, all_arrived, rx_run, rx_step,
}
use cocaine_framework_go.Service.Channel.Order.{new_rx, rx_fifo, get_delivers}
use cocaine_framework_go.Service.Channel.Protocol.{Follows, methods, tx_run, tx-Follows}

abbrev convert : List Value → Result (ℤ × ℤ × Bytes)
convert payload = err bad_payload

-- A stream of chunks that `choke` ends.
abbrev stream : StreamDescription
stream = tree (
    item 0 (bytes "write") nil
      (item 1 (bytes "error") (tree end) (item 2 (bytes "close") (tree end) end)))

-- The first result leads to another tree.
abbrev two_steps : StreamDescription
two_steps = tree (item 0 (bytes "begin") (tree (item 7 (bytes "go") (tree end) end)) end)

abbrev chunk : ServiceResult
chunk = record { method = 0; payload = []; error = none }

abbrev choke : ServiceResult
choke = record { method = 2; payload = []; error = none }

abbrev step : ServiceResult
step = record { method = 7; payload = []; error = none }

abbrev arrivals : List RxEvent
arrivals = pushes chunk ∷ pushes choke ∷ gets takes ∷ []

abbrev left : Rx
left = record (new_rx stream) { queue = choke ∷ [] }

arrivals_run : rx_run convert arrivals (new_rx stream) ≡ done (left, chunk ∷ [])
unfolding rx_run rx_step push get tree_entry find_item finish_get dispatch_type
arrivals_run = refl

rx_fifo_example : plains (chunk ∷ []) ++ plains (waiting left) ≡ plains (all_arrived arrivals)
rx_fifo_example = rx_fifo convert stream arrivals left (chunk ∷ []) arrivals_run

chunk_known : tree_entry choke.method left.rx_tree ≡ done (bytes "close", tree end)
unfolding tree_entry find_item
chunk_known = refl

get_delivers_example :
    (u : Rx) × (r : ServiceResult) × (e : Option Error) × (get convert takes left
      ≡ done (u, some r, e))
    × (plain r ≡ plain choke)
    × (waiting u ≡ [])
    × (u.done ≡ is_empty_type (dispatch_type (tree end)))
get_delivers_example =
    get_delivers convert left choke [] (bytes "close") (tree end) refl refl chunk_known

abbrev sender : Tx
sender = record { tx_tree = stream; id = 2; done = false; headers = [] }

abbrev ended_sender : Tx
ended_sender = record sender { done = true }

abbrev message : ℕ → Message
message n = record { session = 2; msg_type = n; payload = []; headers = [] }

abbrev calls : List (Bytes × List Value)
calls = (bytes "write", []) ∷ (bytes "none", []) ∷ (bytes "close", []) ∷ (bytes "write", []) ∷ []

calls_run : tx_run calls sender ≡ done (ended_sender, message 0 ∷ message 2 ∷ [])
unfolding tx_run call method_by_name tree_entry find_item dispatch_type
calls_run = refl

tx-Follows_example : Follows stream (methods (message 0 ∷ message 2 ∷ []))
tx-Follows_example =
    tx-Follows calls sender ended_sender (message 0 ∷ message 2 ∷ []) refl calls_run

begin_known :
    tree_entry chunk.method two_steps
    ≡ done (bytes "begin", tree (item 7 (bytes "go") (tree end) end))
unfolding tree_entry find_item
begin_known = refl

go_known :
    tree_entry step.method (tree (item 7 (bytes "go") (tree end) end)) ≡ done (bytes "go", tree end)
unfolding tree_entry find_item
go_known = refl

go_unknown : tree_entry step.method two_steps ≡ panic nil_dereference
unfolding tree_entry find_item
go_unknown = refl

begins_type : dispatch_type (tree (item 7 (bytes "go") (tree end) end)) ≡ other_dispatch
unfolding dispatch_type
begins_type = refl
