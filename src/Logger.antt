-- ===== src/Logger.antt =====
-- The loggers of cocaine12/ (severity.go, clogger.go, entry.go, fallbacklogger.go and logger.go). The
-- texts that package fmt makes are a parameter. A map of fields is the list of its pairs in the
-- order in which Go ranges over it.
pub mod Records
use cocaine_framework_go.Prelude.{
  ℕ, ◌++◌, if◌then◌else◌, leb, ◌==◌, Bytes, bytes, ℤ, pos, negsuc, Bool, true, false, List, [], ◌∷◌,
  Option, none, some, not,
}
use cocaine_framework_go.Errors.{Error, Result, ok, err}
use cocaine_framework_go.Effects.{Outcome, done, ◌>>=◌}
use cocaine_framework_go.Message.{Value, Items, nil, cons, int32, text, array, Message}
use cocaine_framework_go.Service.Sessions.{next}
use cocaine_framework_go.Service.Client.{Service, send_msg, call, close}

-- fmt.Sprint, fmt.Sprintf and strconv.FormatInt in base 10.
pub record Fmt : Type 0 where
  pub sprint : List Value → Bytes
  pub sprintf : Bytes → List Value → Bytes
  pub format_int : ℤ → Bytes

abbrev pub debug_level : ℤ
debug_level = pos 0

abbrev pub info_level : ℤ
info_level = pos 1

abbrev pub warn_level : ℤ
warn_level = pos 2

abbrev pub error_level : ℤ
error_level = pos 3

-- severity <= level
unfoldable pub is_at_most : ℤ → ℤ → Bool
is_at_most (pos a) (pos b) = leb a b
is_at_most (pos a) (negsuc b) = false
is_at_most (negsuc a) (pos b) = true
is_at_most (negsuc a) (negsuc b) = leb b a

-- The severity before the logger has asked for the verbosity.
abbrev pub unknown_severity : ℤ
unknown_severity = negsuc 99

unfoldable pub is_unknown : ℤ → Bool
unfolding is_at_most
is_unknown s = if is_at_most s unknown_severity then is_at_most unknown_severity s else false

abbrev pub Fields : Type 0
Fields = List (Bytes × Value)

-- The methods that log: Err, Warn, Info and Debug.
pub data Method : Type 0 where
  err_method warn_method info_method debug_method : Method

abbrev pub level_of : Method → ℤ
level_of err_method = error_level
level_of warn_method = warn_level
level_of info_method = info_level
level_of debug_method = debug_level

-- A call with arguments to print, or one with a format (Errf and so on).
pub data LogCall : Type 0 where
  prints : Method → List Value → LogCall
  formats : Method → Bytes → List Value → LogCall

abbrev pub method_of : LogCall → Method
method_of (prints m args) = m
method_of (formats m msg args) = m

-- The part of interface Logger that an Entry calls.
pub record Logger {ℓ} (L : Type ℓ) : Type ℓ where
  pub v : ℤ → L → Bool
  pub log : ℤ → Fields → Bytes → List Value → L → L

pub record CocaineLogger : Type 0 where
  pub service : Service
  pub severity : ℤ
  pub prefix : Bytes

unfoldable pub new_cocaine_logger : Bytes → Service → CocaineLogger
new_cocaine_logger app service = record {
  service = service;
  severity = unknown_severity;
  prefix = bytes "app/" ++ app;
}

-- An attrPair is encoded as an array of two.
unfoldable pub format_fields : Fields → Items
format_fields [] = nil
format_fields ((name, value) ∷ fields) =
    cons (array (cons (text name) (cons value nil))) (format_fields fields)

unfoldable pub cocaine_v : ℤ → CocaineLogger → Bool
unfolding is_at_most
cocaine_v level c = is_at_most c.severity level

-- The message that log makes.
abbrev pub logger_msg : ℕ → ℤ → Bytes → Bytes → Fields → Message
logger_msg session level prefix msg fields = record {
  session = session;
  msg_type = 0;
  payload = int32 level ∷ text prefix ∷ text msg ∷ array (format_fields fields) ∷ [];
  headers = [];
}

abbrev pub emit : ℤ → Fields → Bytes → CocaineLogger → CocaineLogger
emit level fields msg c =
    let (sessions, id) = next c.service.sessions in
    record c {
      service =
          send_msg (logger_msg id level c.prefix msg fields)
            (record c.service { sessions = sessions });
    }

-- The result of Verbosity, once the call has ended; `reply` is the level that Get and Extract give.
abbrev pub after_verbosity :
    Option ℤ → CocaineLogger → Service × Result ℕ → Outcome (CocaineLogger × ℤ)
after_verbosity reply c (s, err e) = done (record c { service = s }, debug_level)
after_verbosity none c (s, ok channel) = done (record c { service = s }, debug_level)
after_verbosity (some level) c (s, ok channel) =
    done (record c { service = s; severity = level }, level)

unfoldable pub verbosity :
    List Value → Option Error → Option ℤ → CocaineLogger → Outcome (CocaineLogger × ℤ)
unfolding is_unknown
verbosity headers resolved reply c =
    if not (is_unknown c.severity)
    then done (c, c.severity)
    else call (bytes "verbosity") [] headers resolved c.service >>= after_verbosity reply c

-- Close closes the service.
unfoldable pub cocaine_close : CocaineLogger → Outcome CocaineLogger
cocaine_close c = close c.service >>= λ s. done (record c { service = s })

-- A line that log.Printf prints: the severity, the text, and the fields if there are any.
pub record Line : Type 0 where
  pub level : Bytes
  pub text : Bytes
  pub fields : Option Bytes

pub record FallbackLogger : Type 0 where
  pub severity : ℤ
  pub printed : List Line

abbrev pub new_fallback_logger : FallbackLogger
new_fallback_logger = record { severity = debug_level; printed = [] }

unfoldable pub fallback_v : ℤ → FallbackLogger → Bool
unfolding is_at_most
fallback_v level f = is_at_most f.severity level

unfoldable pub set_verbosity : ℤ → FallbackLogger → FallbackLogger
set_verbosity value f = record f { severity = value }

-- What NewLoggerWithName returns, for the result of NewService.
pub data AnyLogger : Type 0 where
  cocaine : CocaineLogger → AnyLogger
  fallback : FallbackLogger → AnyLogger

unfoldable pub new_logger_with_name : Bytes → Result Service → AnyLogger
unfolding new_cocaine_logger
new_logger_with_name app (ok service) = cocaine (new_cocaine_logger app service)
new_logger_with_name app (err e) = fallback new_fallback_logger

module _ (fmt : Fmt) where
  -- The text of a message of cocaineLogger.log.
  unfoldable pub text_of : Bytes → List Value → Bytes
  text_of msg [] = msg
  text_of msg (a ∷ args) = fmt.sprintf msg (a ∷ args)

  unfoldable pub cocaine_log : ℤ → Fields → Bytes → List Value → CocaineLogger → CocaineLogger
  unfolding text_of next send_msg
  cocaine_log level fields msg args c = emit level fields (text_of msg args) c

  abbrev pub cocaine_logger : Logger CocaineLogger
  cocaine_logger = record { v = cocaine_v; log = cocaine_log }

  -- The methods of cocaineLogger itself.
  unfoldable pub cocaine_call : LogCall → CocaineLogger → CocaineLogger
  unfolding cocaine_v cocaine_log
  cocaine_call (prints m args) c =
      if cocaine_v (level_of m) c then cocaine_log (level_of m) [] (fmt.sprint args) [] c else c
  cocaine_call (formats m msg args) c =
      if cocaine_v (level_of m) c then cocaine_log (level_of m) [] msg args c else c

  -- The methods of Entry.
  unfoldable pub entry_call {ℓ} : {L : Type ℓ} → Logger L → Fields → LogCall → L → L
  entry_call logger fields (prints m args) l =
      if logger.v (level_of m) l then logger.log (level_of m) fields (fmt.sprint args) [] l else l
  entry_call logger fields (formats m msg args) l =
      if logger.v (level_of m) l then logger.log (level_of m) fields msg args l else l

  -- Severity.String
  unfoldable pub severity_string : ℤ → Bytes
  severity_string (negsuc n) = fmt.format_int (negsuc n)
  severity_string (pos n) =
      if n == 0
      then bytes "DEBUG"
      else if n == 1
      then bytes "INFO"
      else if n == 2
      then bytes "WARNING"
      else if n == 3
      then bytes "ERROR"
      else fmt.format_int (pos n)

  abbrev each_field : Fields → Bytes
  each_field [] = []
  each_field ((name, value) ∷ fields) =
      name ++ (bytes "=" ++ (fmt.sprint (value ∷ []) ++ (bytes " " ++ each_field fields)))

  unfoldable pub fallback_fields : Fields → Bytes
  fallback_fields [] = bytes "[ ]"
  fallback_fields (f ∷ fields) = bytes "[ " ++ (each_field (f ∷ fields) ++ bytes "]")

  -- The line that log prints.
  abbrev pub line : ℤ → Fields → Bytes → Line
  line level [] msg = record { level = severity_string level; text = msg; fields = none }
  line level (f ∷ fields) msg = record {
    level = severity_string level;
    text = msg;
    fields = some (fallback_fields (f ∷ fields));
  }

  unfoldable pub fallback_log : ℤ → Fields → Bytes → List Value → FallbackLogger → FallbackLogger
  unfolding fallback_v severity_string fallback_fields
  fallback_log level fields msg args f =
      if not (fallback_v level f)
      then f
      else record f { printed = f.printed ++ line level fields (fmt.sprintf msg args) ∷ [] }

  abbrev pub fallback_logger : Logger FallbackLogger
  fallback_logger = record { v = fallback_v; log = fallback_log }

  -- The methods of fallbackLogger itself.
  unfoldable pub fallback_call : LogCall → FallbackLogger → FallbackLogger
  unfolding fallback_log
  fallback_call (prints m args) f = fallback_log (level_of m) [] (fmt.sprint args) [] f
  fallback_call (formats m msg args) f = fallback_log (level_of m) [] msg args f
