-- ===== src/Proxy.antt =====
-- cocaine12/proxy/proxy.go: the HTTP server that passes a request on to an application. What it does
-- with its ResponseWriter is a list of acts. The service, the codec and the texts of errors are the
-- environment: a request says how each of these calls ends.
pub mod Route
pub mod Replies
use cocaine_framework_go.Prelude.{
  ℕ, zero, suc, ◌+◌, if◌then◌else◌, ltb, ◌==◌, ◌||◌, Bool, true, false, Bytes, bytes, ℤ, pos, List,
  [], ◌∷◌, ◌++◌, Option, none, some, length, take, drop, leb,
}
use cocaine_framework_go.Effects.{Outcome, Panic, done, panic, ◌>>=◌, index_out_of_range}
use cocaine_framework_go.Http.Header.{Header, header_get}

-- strings.IndexByte
abbrev pub index_byte : Bytes → ℕ → Option ℕ
index_byte [] c = none
index_byte (b ∷ bs) c =
    let rest = index_byte bs c in
    if b == c then some 0 else elim rest [ none ↦ none | some i ↦ some (suc i) ]

-- s[i:], which panics beyond the end.
abbrev pub slice_from : Bytes → ℕ → Outcome Bytes
slice_from s zero = done s
slice_from [] (suc i) = panic index_out_of_range
slice_from (b ∷ s) (suc i) = slice_from s i

abbrev pub is_empty : Bytes → Bool
is_empty [] = true
is_empty (b ∷ bs) = false

abbrev pub slash : ℕ
slash = 47

-- Where a request goes: nowhere, or to an event of a service with the path that is left.
pub data Routing : Type 0 where
  bad_request : Routing
  routed : Bytes → Bytes → Bytes → Routing

-- `if len(service) == 0 || len(event) == 0`, after the cut.
abbrev checked : Bytes → Bytes → Bytes → Routing
checked service event path =
    if is_empty service || is_empty event then bad_request else routed service event path

-- The switch on the position of the second slash.
unfoldable pub event_at : Bytes → Bytes → Option ℕ → Routing
event_at service rest none = checked service rest (bytes "/")
event_at service rest (some zero) = bad_request
event_at service rest (some (suc n)) = checked service (take (suc n) rest) (drop (suc n) rest)

abbrev pub route_event : Bytes → Bytes → Routing
unfolding event_at
route_event service rest = event_at service rest (index_byte rest slash)

-- The service ends at the first slash after the leading one.
unfoldable pub route_service : Bytes → Option ℕ → Routing
unfolding route_event
route_service tail none = bad_request
route_service tail (some npos) = route_event (take npos tail) (drop (suc npos) tail)

-- From `j = 1` on.
unfoldable pub route_path : Bytes → Outcome Routing
unfolding route_service
route_path path =
    slice_from path (suc zero) >>= λ tail. done (route_service tail (index_byte tail slash))

-- The headers X-Cocaine-Service and X-Cocaine-Event decide, if there are both.
unfoldable pub route : Header → Bytes → Outcome Routing
unfolding route_path header_get
route headers path =
    let service = header_get (bytes "X-Cocaine-Service") headers in
    let event = header_get (bytes "X-Cocaine-Event") headers in
    if is_empty service || is_empty event then route_path path else done (routed service event path)

-- The headers of packRequest: a pair for each value.
abbrev pub values_of : Bytes → List Bytes → List (Bytes × Bytes)
values_of header [] = []
values_of header (val ∷ values) = (header, val) ∷ values_of header values

unfoldable pub pack_headers : List (Bytes × Bytes) → Header → List (Bytes × Bytes)
pack_headers headers [] = headers
pack_headers headers ((header, values) ∷ rest) =
    pack_headers (headers ++ values_of header values) rest

-- How channel.Get ends for a body: with an error, with a result that has one, with a result and what
-- ExtractTuple makes of it (`none` if it cannot), or in a panic, as rx.Get reads the Description of
-- a nil item if the tree has no such method. The Boolean is channel.Closed() after it.
pub data Got : Type 0 where
  get_error : Got
  get_panics : Panic → Got
  result_error : Got
  result : Option Bytes → Bool → Got

-- The first Get: an error with its text, a panic, or the head of the answer.
pub data Head : Type 0 where
  head_error : Bytes → Head
  head_panics : Panic → Head
  -- the packed head, the code, which is an int, and the headers
  start_line : Bytes → ℤ → List (Bytes × Bytes) → Head

-- How a call ends that process only tests for an error.
pub data Ended : Type 0 where
  succeeds fails : Ended
  panics_with : Panic → Ended

-- How the calls that process makes end: NewService, packRequest, Call, the Call on the channel, and
-- the calls of Get.
pub record Upstream : Type 0 where
  pub new_service : Ended
  pub pack_request : Ended
  pub enqueue : Ended
  pub write : Ended
  pub head : Head
  pub body : List Got

-- What the handler does with its ResponseWriter; `panics` is the last act of one that panics, which
-- net/http ends by closing the connection.
pub data ReplyAct : Type 0 where
  adds : Bytes → Bytes → ReplyAct
  writes_header : ℤ → ReplyAct
  writes : Bytes → ReplyAct
  panics : Panic → ReplyAct

-- The loop BODY. A result that cannot be extracted leaves the last body, which is written again.
unfoldable pub body_loop : Bytes → List Got → List ReplyAct
body_loop body [] = []
body_loop body (get_error ∷ gots) = []
body_loop body (get_panics p ∷ gots) = panics p ∷ []
body_loop body (result_error ∷ gots) = []
body_loop body (result content true ∷ gots) = []
body_loop body (result none false ∷ gots) = ReplyAct.writes body ∷ body_loop body gots
body_loop body (result (some content) false ∷ gots) =
    ReplyAct.writes content ∷ body_loop content gots

abbrev pub add_headers : List (Bytes × Bytes) → List ReplyAct
add_headers [] = []
add_headers ((name, value) ∷ headers) = adds name value ∷ add_headers headers

-- From the first Get on.
unfoldable pub reply : Head → List Got → List ReplyAct
unfolding body_loop
reply (head_panics p) gots = panics p ∷ []
reply (head_error text) gots = writes_header (pos 500) ∷ ReplyAct.writes text ∷ []
reply (start_line packed code headers) gots =
    add_headers headers ++ (writes_header code ∷ body_loop packed gots)

-- From NewService on.
abbrev pub if_succeeds : Ended → ℤ → List ReplyAct → List ReplyAct
if_succeeds succeeds code acts = acts
if_succeeds fails code acts = writes_header code ∷ []
if_succeeds (panics_with p) code acts = panics p ∷ []

unfoldable pub pass_on : Upstream → List ReplyAct
unfolding reply
pass_on u = if_succeeds u.new_service (pos 500) (
    if_succeeds u.pack_request (pos 400)
      (if_succeeds u.enqueue (pos 400) (if_succeeds u.write (pos 500) (reply u.head u.body))))

-- What process does once it knows where the request goes.
unfoldable pub process_routed : (Bytes → Bytes → Bytes → Upstream) → Routing → List ReplyAct
unfolding pass_on
process_routed upstream bad_request =
    adds (bytes "X-Powered-By") (bytes "Cocaine") ∷ writes_header (pos 400) ∷ []
process_routed upstream (routed service event path) =
    adds (bytes "X-Powered-By") (bytes "Cocaine") ∷ pass_on (upstream service event path)

-- The environment may depend on the service, the event and the path.
unfoldable pub process :
    Header → Bytes → (Bytes → Bytes → Bytes → Upstream) → Outcome (List ReplyAct)
unfolding route process_routed
process headers path upstream = route headers path >>= λ r. done (process_routed upstream r)
