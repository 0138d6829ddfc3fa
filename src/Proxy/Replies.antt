-- ===== src/Proxy/Replies.antt =====
-- cocaine12/proxy/proxy.go: the answer that the client of the proxy gets.
use cocaine_framework_go.Prelude.{
  ℕ, ℤ, pos, Option, ◌≡◌, refl, ap, map, subst, sym, if_cases, true, false, Bytes, bytes, List, [],
  ◌∷◌, ◌++◌, none, some, ◌||◌,
}
use cocaine_framework_go.Effects.{Panic, done}
use cocaine_framework_go.Http.Header.{Header, header_get}
use cocaine_framework_go.Proxy.{
  Got, get_error, get_panics, head_panics, Ended, succeeds, fails, panics_with, if_succeeds, panics,
  result_error, result, Head, head_error, start_line, Upstream, ReplyAct, adds, writes_header,
  body_loop, add_headers, reply, pass_on, process, process_routed, route, is_empty, route_path,
  route_service, index_byte, slash, Routing, bad_request, routed,
}

-- The handler returns, or panics.
abbrev pub end_act : Option Panic → List ReplyAct
end_act none = []
end_act (some p) = panics p ∷ []

-- An HTTP answer: headers, then the code, then the pieces of the body, and after any of these
-- perhaps a panic.
pub data IsAnswer : List ReplyAct → Type 0 where
  header :
      (name value : Bytes) (acts : List ReplyAct)
      → IsAnswer acts
      → IsAnswer (adds name value ∷ acts)
  code :
      (n : ℤ) (pieces : List Bytes) (end : Option Panic)
      → IsAnswer (writes_header n ∷ (map ReplyAct.writes pieces ++ end_act end))
  unanswered : (p : Panic) → IsAnswer (panics p ∷ [])

-- The pieces that come before the first error or the end of the stream; what cannot be extracted
-- repeats the piece before it.
unfoldable pub pieces : Bytes → List Got → List Bytes
pieces body [] = []
pieces body (get_error ∷ gots) = []
pieces body (get_panics p ∷ gots) = []
pieces body (result_error ∷ gots) = []
pieces body (result content true ∷ gots) = []
pieces body (result none false ∷ gots) = body ∷ pieces body gots
pieces body (result (some content) false ∷ gots) = content ∷ pieces content gots

-- The panic of a Get, if it is met before an error or the end of the stream.
abbrev pub end_of : List Got → Option Panic
end_of [] = none
end_of (get_error ∷ gots) = none
end_of (get_panics p ∷ gots) = some p
end_of (result_error ∷ gots) = none
end_of (result content true ∷ gots) = none
end_of (result content false ∷ gots) = end_of gots

body_loop-pieces :
    (body : Bytes) (gots : List Got)
    → body_loop body gots ≡ map ReplyAct.writes (pieces body gots) ++ end_act (end_of gots)
unfolding body_loop pieces
body_loop-pieces body [] = refl
body_loop-pieces body (get_error ∷ gots) = refl
body_loop-pieces body (get_panics p ∷ gots) = refl
body_loop-pieces body (result_error ∷ gots) = refl
body_loop-pieces body (result content true ∷ gots) = refl
body_loop-pieces body (result none false ∷ gots) =
    ap (◌∷◌ (ReplyAct.writes body)) (body_loop-pieces body gots)
body_loop-pieces body (result (some content) false ∷ gots) =
    ap (◌∷◌ (ReplyAct.writes content)) (body_loop-pieces content gots)

add_headers-IsAnswer :
    (headers : List (Bytes × Bytes)) (acts : List ReplyAct)
    → IsAnswer acts
    → IsAnswer (add_headers headers ++ acts)
add_headers-IsAnswer [] acts a = a
add_headers-IsAnswer ((name, value) ∷ headers) acts a =
    header name value (add_headers headers ++ acts) (add_headers-IsAnswer headers acts a)

reply-IsAnswer : (h : Head) (gots : List Got) → IsAnswer (reply h gots)
unfolding reply
reply-IsAnswer (head_error text) gots = code (pos 500) (text ∷ []) none
reply-IsAnswer (head_panics p) gots = unanswered p
reply-IsAnswer (start_line packed n headers) gots = add_headers-IsAnswer headers _ (
    subst (λ x. IsAnswer (writes_header n ∷ x)) (sym (body_loop-pieces packed gots))
      (code n (pieces packed gots) (end_of gots)))

if_succeeds-IsAnswer :
    (e : Ended) (n : ℤ) (acts : List ReplyAct) → IsAnswer acts → IsAnswer (if_succeeds e n acts)
if_succeeds-IsAnswer succeeds n acts a = a
if_succeeds-IsAnswer fails n acts a = code n [] none
if_succeeds-IsAnswer (panics_with p) n acts a = unanswered p

pass_on-IsAnswer : (u : Upstream) → IsAnswer (pass_on u)
unfolding pass_on
pass_on-IsAnswer u = if_succeeds-IsAnswer u.new_service _ _ (
    if_succeeds-IsAnswer u.pack_request _ _ (
      if_succeeds-IsAnswer u.enqueue _ _
        (if_succeeds-IsAnswer u.write _ _ (reply-IsAnswer u.head u.body))))

route_path-returns : (b : ℕ) (tail : Bytes) → (r : Routing) × (route_path (b ∷ tail) ≡ done r)
unfolding route_path
route_path-returns b tail = (route_service tail (index_byte tail slash), refl)

route-returns :
    (headers : Header) (b : ℕ) (tail : Bytes) → (r : Routing) × (route headers (b ∷ tail) ≡ done r)
unfolding route
route-returns headers b tail =
    let service = header_get (bytes "X-Cocaine-Service") headers in
    let event = header_get (bytes "X-Cocaine-Event") headers in
    let by_headers = routed service event (b ∷ tail) in
    if_cases (λ m. (r : Routing) × (m ≡ done r)) (is_empty service || is_empty event)
      (route_path (b ∷ tail)) (done by_headers) (λ e. route_path-returns b tail)
      (λ e. (by_headers, refl))

process_routed-IsAnswer :
    (upstream : Bytes → Bytes → Bytes → Upstream) (r : Routing)
    → IsAnswer (process_routed upstream r)
unfolding process_routed
process_routed-IsAnswer upstream bad_request = header _ _ _ (code (pos 400) [] none)
process_routed-IsAnswer upstream (routed service event path) =
    header _ _ _ (pass_on-IsAnswer (upstream service event path))

-- However NewService, packRequest and the calls of Call and Get end, a panic included, a request with
-- a path that is not empty gets one HTTP answer: its headers, then one status code, then the pieces
-- of a body; or the part of one that comes before a panic, which is then the last act.
pub process-IsAnswer :
    (headers : Header) (b : ℕ) (tail : Bytes) (upstream : Bytes → Bytes → Bytes → Upstream)
    → (acts : List ReplyAct) × (process headers (b ∷ tail) upstream ≡ done acts) × IsAnswer acts
unfolding process
process-IsAnswer headers b tail upstream =
    let (r, e) = route-returns headers b tail in
    (process_routed upstream r, rw e refl, process_routed-IsAnswer upstream r)
