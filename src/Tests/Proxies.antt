-- ===== src/Tests/Proxies.antt =====
-- The HTTP proxy (cocaine12/proxy/proxy.go).
use cocaine_framework_go.Prelude.{
  ◌≡◌, refl, false, bytes, pos, List, [], ◌∷◌, ◌++◌, some, none, arith,
}
use cocaine_framework_go.Effects.{done, nil_dereference}
use cocaine_framework_go.Proxy.{
  slash, routed, route_path, Upstream, start_line, result, get_panics, succeeds, ReplyAct, process,
  body_loop,
}
use cocaine_framework_go.Proxy.Route.{route_path-service_event}
use cocaine_framework_go.Proxy.Replies.{IsAnswer, process-IsAnswer}

-- /a/b/c
route_path-service_event_example :
    (route_path (slash ∷ ((97 ∷ []) ++ slash ∷ ((98 ∷ []) ++ slash ∷ 99 ∷ [])))
      ≡ done (routed (97 ∷ []) (98 ∷ []) (slash ∷ 99 ∷ [])))
    × (route_path (slash ∷ ((97 ∷ []) ++ slash ∷ 98 ∷ []))
        ≡ done (routed (97 ∷ []) (98 ∷ []) (bytes "/")))
route_path-service_event_example =
    route_path-service_event 97 [] 98 [] (99 ∷ []) (omega arith, tt) (omega arith, tt)

abbrev up : Upstream
up = record {
  new_service = succeeds;
  pack_request = succeeds;
  enqueue = succeeds;
  write = succeeds;
  head = start_line [] (pos 200) [];
  body = result (some (bytes "hello")) false ∷ get_panics nil_dereference ∷ [];
}

process-IsAnswer_example :
    (acts : List ReplyAct) × (process [] (slash ∷ bytes "a/b") (λ service event path. up)
      ≡ done acts)
    × IsAnswer acts
process-IsAnswer_example = process-IsAnswer [] slash (bytes "a/b") (λ service event path. up)

-- A body that cannot be extracted repeats the one before it.
body_is_repeated :
    body_loop [] (result (some (1 ∷ [])) false ∷ result none false ∷ [])
    ≡ ReplyAct.writes (1 ∷ []) ∷ ReplyAct.writes (1 ∷ []) ∷ []
unfolding body_loop
body_is_repeated = refl
