-- ===== src/Proxy/Route.antt =====
-- cocaine12/proxy/proxy.go: paths of the form /service/event/rest.
use cocaine_framework_go.Prelude.{
  ℕ, suc, ◌≡◌, ◌≢◌, refl, sym, ap, ap₂, ◌∙◌, Bytes, bytes, List, [], ◌∷◌, ◌++◌, none, some, length,
  take, drop, arith, append_assoc, append-nil,
}
use cocaine_framework_go.Effects.{done}
use cocaine_framework_go.Http.Header.{Header, headers_http_to_cocaine, with_name}
use cocaine_framework_go.Proxy.{
  index_byte, slash, routed, route_event, route_path, event_at, route_service, pack_headers,
  values_of,
}

-- No slash in a part of a path.
abbrev pub NoSlash : Bytes → Type 0
NoSlash [] = Unit {0}
NoSlash (b ∷ bs) = (b ≢ slash) × NoSlash bs

index_byte-append :
    (s rest : Bytes) → NoSlash s → index_byte (s ++ slash ∷ rest) slash ≡ some (length s)
index_byte-append [] rest h = refl
index_byte-append (b ∷ s) rest (ne, h) = ground (arith, index_byte-append s rest h)

index_byte-none : (s : Bytes) → NoSlash s → index_byte s slash ≡ none
index_byte-none [] h = refl
index_byte-none (b ∷ s) (ne, h) = ground (arith, index_byte-none s h)

take-append : (s rest : Bytes) → take (length s) (s ++ rest) ≡ s
take-append [] rest = refl
take-append (b ∷ s) rest = ap (◌∷◌ b) (take-append s rest)

drop-append : (s rest : Bytes) → drop (length s) (s ++ rest) ≡ rest
drop-append [] rest = refl
drop-append (b ∷ s) rest = drop-append s rest

drop-past : (s rest : Bytes) → drop (suc (length s)) (s ++ slash ∷ rest) ≡ rest
drop-past [] rest = refl
drop-past (b ∷ s) rest = drop-past s rest

route_path-cut :
    (service rest : Bytes)
    → NoSlash service
    → route_path (slash ∷ (service ++ slash ∷ rest)) ≡ done (route_event service rest)
unfolding route_path route_service
route_path-cut service rest h =
    let tail = service ++ slash ∷ rest in
    ap (λ o. done (route_service tail o)) (index_byte-append service rest h)
    ∙ ap₂ (λ x y. done (route_event x y)) (take-append service (slash ∷ rest))
        (drop-past service rest)

route_event-cut :
    (s : ℕ) (service : Bytes) (e : ℕ) (event rest : Bytes)
    → NoSlash (e ∷ event)
    → route_event (s ∷ service) ((e ∷ event) ++ slash ∷ rest)
      ≡ routed (s ∷ service) (e ∷ event) (slash ∷ rest)
unfolding event_at
route_event-cut s service e event rest h =
    ap (event_at (s ∷ service) ((e ∷ event) ++ slash ∷ rest)) (index_byte-append (e ∷ event) rest h)
    ∙ ap₂ (λ x y. routed (s ∷ service) (e ∷ x) y) (take-append event (slash ∷ rest))
        (drop-append event (slash ∷ rest))

route_event-whole :
    (s : ℕ) (service : Bytes) (e : ℕ) (event : Bytes)
    → NoSlash (e ∷ event)
    → route_event (s ∷ service) (e ∷ event) ≡ routed (s ∷ service) (e ∷ event) (bytes "/")
unfolding event_at
route_event-whole s service e event h =
    ap (event_at (s ∷ service) (e ∷ event)) (index_byte-none (e ∷ event) h)

-- A path /service/event/rest, where service and event are not empty and have no slash, goes to the
-- event of the service with the path /rest, and a path /service/event with the path /.
pub route_path-service_event :
    (s : ℕ) (service : Bytes) (e : ℕ) (event rest : Bytes)
    → NoSlash (s ∷ service)
    → NoSlash (e ∷ event)
    → (route_path (slash ∷ ((s ∷ service) ++ slash ∷ ((e ∷ event) ++ slash ∷ rest)))
        ≡ done (routed (s ∷ service) (e ∷ event) (slash ∷ rest)))
      × (route_path (slash ∷ ((s ∷ service) ++ slash ∷ e ∷ event))
          ≡ done (routed (s ∷ service) (e ∷ event) (bytes "/")))
route_path-service_event s service e event rest hs he = (
  route_path-cut (s ∷ service) ((e ∷ event) ++ slash ∷ rest) hs
      ∙ ap done (route_event-cut s service e event rest he),
  route_path-cut (s ∷ service) (e ∷ event) hs ∙ ap done (route_event-whole s service e event he),
)

values_of-with_name : (name : Bytes) (vs : List Bytes) → values_of name vs ≡ with_name name vs
values_of-with_name name [] = refl
values_of-with_name name (v ∷ vs) = ap (◌∷◌ (name, v)) (values_of-with_name name vs)

pack_headers-from :
    (headers : List (Bytes × Bytes)) (h : Header)
    → pack_headers headers h ≡ headers ++ headers_http_to_cocaine h
unfolding pack_headers headers_http_to_cocaine
pack_headers-from headers [] = sym (append-nil headers)
pack_headers-from headers ((name, vs) ∷ h) =
    pack_headers-from (headers ++ values_of name vs) h
    ∙ append_assoc headers (values_of name vs) (headers_http_to_cocaine h)
    ∙ ap (λ x. headers ++ (x ++ headers_http_to_cocaine h)) (values_of-with_name name vs)

-- The proxy packs the headers of a request as HeadersHTTPtoCocaine does.
pub pack_headers-headers_http_to_cocaine :
    (h : Header) → pack_headers [] h ≡ headers_http_to_cocaine h
pack_headers-headers_http_to_cocaine h = pack_headers-from [] h
