-- ===== src/Worker/Response.antt =====
-- cocaine12/handler.go: type response, and trapRecoverAndClose of cocaine12/workerng.go. A method
-- returns the response, the messages that it hands to the connection, and its result.
pub mod Terminal
use cocaine_framework_go.Prelude.{
  ℕ, ◌≡◌, if◌then◌else◌, Bytes, bytes, ℤ, pos, Bool, true, false, List, [], ◌∷◌, ◌++◌, Option, none,
  some, length,
}
use cocaine_framework_go.Errors.{Error, closed_pipe, invalid_argument}
use cocaine_framework_go.Message.{Message, new_chunk_v1, new_choke_v1, new_error_v1}

abbrev pub cworkererrorcategory : ℤ
cworkererrorcategory = pos 42

abbrev pub error_no_event_handler : ℤ
error_no_event_handler = pos 200

abbrev pub error_panic_in_handler : ℤ
error_panic_in_handler = pos 100

pub record Response : Type 0 where
  pub session : ℕ
  pub closed : Bool

abbrev pub new_response : ℕ → Response
new_response session = record { session = session; closed = false }

unfoldable pub zero_copy_write : Bytes → Response → Response × List Message × Option Error
zero_copy_write content r =
    if r.closed then (r, [], some closed_pipe) else (r, new_chunk_v1 r.session content ∷ [], none)

-- Write copies the data: on a value that is the same content.
unfoldable pub write : Bytes → Response → Response × List Message × (ℕ × Option Error)
unfolding zero_copy_write
write content r =
    let (r', sent, e) = zero_copy_write content r in
    elim e [ some x ↦ (r', sent, (0, some x)) | none ↦ (r', sent, (length content, none)) ]

unfoldable pub close : Response → Response × List Message × Option Error
close r =
    if r.closed
    then (r, [], some invalid_argument)
    else (record r { closed = true }, new_choke_v1 r.session ∷ [], none)

unfoldable pub error_msg : ℤ → Bytes → Response → Response × List Message × Option Error
error_msg code message r = if r.closed then (r, [], some closed_pipe) else (
  record r { closed = true },
  new_error_v1 r.session cworkererrorcategory code message ∷ [],
  none,
)

-- The deferred call: `recovered` is the printed value of a panic, `stack` what is printed of the
-- stack (nothing without the debug mode).
unfoldable pub trap_recover_and_close :
    Bytes → Option Bytes → Bytes → Response → Response × List Message × Option Error
unfolding error_msg close
trap_recover_and_close event recovered stack r = elim recovered [
  | some info ↦
      error_msg error_panic_in_handler
        (bytes "Event: '"
          ++ (event
              ++ (bytes "', recover: "
                  ++ (info ++ (bytes ", stack: \n" ++ (stack ++ bytes "\n"))))))
        r
  | none ↦ close r
]

-- What a handler does with its response.
pub data Act : Type 0 where
  writes : Bytes → Act
  zero_copy_writes : Bytes → Act
  closes : Act
  fails : ℤ → Bytes → Act

unfoldable pub act : Act → Response → Response × List Message
unfolding zero_copy_write write close error_msg
act (writes b) r = let (r', sent, _) = write b r in (r', sent)
act (zero_copy_writes b) r = let (r', sent, _) = zero_copy_write b r in (r', sent)
act closes r = let (r', sent, _) = close r in (r', sent)
act (fails code text) r = let (r', sent, _) = error_msg code text r in (r', sent)

unfoldable pub acts : List Act → Response → Response × List Message
acts [] r = (r, [])
acts (a ∷ as') r =
    let (r1, sent1) = act a r in let (r2, sent2) = acts as' r1 in (r2, sent1 ++ sent2)

-- The goroutine of onInvoke: the handler, up to its return or its panic, then the deferred call.
unfoldable pub serve : Bytes → List Act → Option Bytes → Bytes → ℕ → List Message
unfolding acts trap_recover_and_close
serve event script recovered stack session =
    let (r, sent) = acts script (new_response session) in
    let (r', last, e) = trap_recover_and_close event recovered stack r in sent ++ last
