-- ===== src/Service/Sessions.antt =====
-- cocaine12/sessions.go: the numbers of sessions and their channels, here positions in a store.
use cocaine_framework_go.Prelude.{ℕ, ◌+◌, ◌%◌, ◌^◌, List, [], Option}
use cocaine_framework_go.Prelude.Maps.{lookup, insert, delete, keys}

pub record Sessions : Type 0 where
  pub links : List (ℕ × ℕ)
  pub counter : ℕ

abbrev pub new_sessions : Sessions
new_sessions = record { links = []; counter = 1 }

-- The counter is a uint64.
abbrev pub next_counter : ℕ → ℕ
next_counter n = (n + 1) % 2 ^ 64

unfoldable pub next : Sessions → Sessions × ℕ
next s = (record s { counter = next_counter s.counter }, next_counter s.counter)

unfoldable pub attach : ℕ → Sessions → Sessions × ℕ
attach session s =
    let current = next_counter s.counter in
    (record { links = insert current session s.links; counter = current }, current)

unfoldable pub detach : ℕ → Sessions → Sessions
detach id s = record s { links = delete id s.links }

unfoldable pub get : ℕ → Sessions → Option ℕ
get id s = lookup id s.links

unfoldable pub session_keys : Sessions → List ℕ
session_keys s = keys s.links
