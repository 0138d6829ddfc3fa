-- ===== src/Worker/Response/Terminal.antt =====
-- What a client sees of a handler's response.
use cocaine_framework_go.Prelude.{
  ℕ, ◌≡◌, refl, Bytes, ℤ, true, List, [], ◌∷◌, ◌++◌, Option, none, some, map, arith, bytes,
  append-nil,
}
use cocaine_framework_go.Message.{Message, new_chunk_v1, new_choke_v1, new_error_v1}
use cocaine_framework_go.Worker.Response.{
  Response, new_response, Act, writes, zero_copy_writes, closes, fails, act, acts, serve,
  trap_recover_and_close, cworkererrorcategory, error_panic_in_handler,
}

-- The last message of a stream: a choke, or an error of the worker's category.
pub data Ending : Type 0 where
  choked : Ending
  failed_with : ℤ → Bytes → Ending

abbrev pub ending_message : ℕ → Ending → Message
ending_message session choked = new_choke_v1 session
ending_message session (failed_with code text) = new_error_v1 session cworkererrorcategory code text

-- The chunks before the first close or error of a script, and that close or error.
abbrev pub written : List Act → List Bytes
written [] = []
written (writes b ∷ as') = b ∷ written as'
written (zero_copy_writes b ∷ as') = b ∷ written as'
written (closes ∷ as') = []
written (fails code text ∷ as') = []

abbrev pub chosen_ending : List Act → Option Ending
chosen_ending [] = none
chosen_ending (writes b ∷ as') = chosen_ending as'
chosen_ending (zero_copy_writes b ∷ as') = chosen_ending as'
chosen_ending (closes ∷ as') = some choked
chosen_ending (fails code text ∷ as') = some (failed_with code text)

-- What the deferred call adds if the handler left its response open.
abbrev pub default_ending : Bytes → Option Bytes → Bytes → Ending
default_ending event none stack = choked
default_ending event (some info) stack = failed_with error_panic_in_handler (
    bytes "Event: '"
    ++ (event
        ++ (bytes "', recover: " ++ (info ++ (bytes ", stack: \n" ++ (stack ++ bytes "\n"))))))

abbrev pub final_ending : List Act → Ending → Ending
final_ending script otherwise = elim (chosen_ending script) [ some e ↦ e | none ↦ otherwise ]

abbrev closed_response : ℕ → Response
closed_response session = record { session = session; closed = true }

-- Nothing leaves a closed response.
acts-closed :
    (script : List Act) (session : ℕ)
    → acts script (closed_response session) ≡ (closed_response session, [])
unfolding acts act
acts-closed [] session = refl
acts-closed (writes b ∷ as') session = ground (arith, acts-closed as' session)
acts-closed (zero_copy_writes b ∷ as') session = ground (arith, acts-closed as' session)
acts-closed (closes ∷ as') session = ground (arith, acts-closed as' session)
acts-closed (fails code text ∷ as') session = ground (arith, acts-closed as' session)

abbrev left_open : Option Ending → ℕ → Response
left_open none session = new_response session
left_open (some e) session = closed_response session

abbrev ending_messages : ℕ → Option Ending → List Message
ending_messages session none = []
ending_messages session (some e) = ending_message session e ∷ []

acts-open :
    (script : List Act) (session : ℕ)
    → acts script (new_response session) ≡ (
      left_open (chosen_ending script) session,
      map (new_chunk_v1 session) (written script) ++ ending_messages session (chosen_ending script),
    )
unfolding acts act
acts-open [] session = refl
acts-open (writes b ∷ as') session = rw (acts-open as' session)
acts-open (zero_copy_writes b ∷ as') session = rw (acts-open as' session)
acts-open (closes ∷ as') session = rw (acts-closed as' session)
acts-open (fails code text ∷ as') session = rw (acts-closed as' session)

trap-closed :
    (event : Bytes) (recovered : Option Bytes) (stack : Bytes) (session : ℕ)
    → (trap_recover_and_close event recovered stack (closed_response session)).1 ≡ []
unfolding trap_recover_and_close
trap-closed event none stack session = refl
trap-closed event (some info) stack session = refl

trap-open :
    (event : Bytes) (recovered : Option Bytes) (stack : Bytes) (session : ℕ)
    → (trap_recover_and_close event recovered stack (new_response session)).1
      ≡ ending_message session (default_ending event recovered stack) ∷ []
unfolding trap_recover_and_close
trap-open event none stack session = refl
trap-open event (some info) stack session = refl

-- The goroutine of an invocation sends the chunks that the handler wrote before its first close
-- or error, then that close or error, and nothing more; if the handler made neither, a choke ends
-- the stream after a return and an error of code 100 after a panic.
pub serve_ends_once :
    (event : Bytes) (script : List Act) (recovered : Option Bytes) (stack : Bytes) (session : ℕ)
    → serve event script recovered stack session
      ≡ map (new_chunk_v1 session) (written script)
        ++ ending_message session (final_ending script (default_ending event recovered stack)) ∷ []
unfolding serve
serve_ends_once event script recovered stack session =
    rw (acts-open script session) (by_ending (chosen_ending script))
  where
    chunks : List Message
    chunks = map (new_chunk_v1 session) (written script)

    by_ending :
        (e : Option Ending)
        → (chunks ++ ending_messages session e)
            ++ (trap_recover_and_close event recovered stack (left_open e session)).1
          ≡ chunks
            ++ ending_message session
                (elim e [ some x ↦ x | none ↦ default_ending event recovered stack ])
              ∷ []
    by_ending none = rw (append-nil chunks, trap-open event recovered stack session)
    by_ending (some e) = rw (trap-closed event recovered stack session) (append-nil _)
