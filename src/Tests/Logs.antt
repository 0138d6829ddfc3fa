-- ===== src/Tests/Logs.antt =====
-- The loggers and the bridge (cocaine12/clogger.go, entry.go, fallbacklogger.go and bridge/).
use cocaine_framework_go.Prelude.{
  ◌≡◌, refl, Bytes, bytes, ℤ, pos, List, [], ◌∷◌, ◌++◌, none, arith, append-nil,
}
use cocaine_framework_go.Errors.{Result, ok, err, eof}
use cocaine_framework_go.Message.{Value, text}
use cocaine_framework_go.Service.Client.{new_service}
use cocaine_framework_go.Logger.{
  Fmt, Fields, LogCall, prints, formats, err_method, warn_method, info_method, CocaineLogger,
  FallbackLogger, cocaine_logger, fallback_logger, warn_level, new_fallback_logger,
}
use cocaine_framework_go.Logger.Records.{
  accepted, entry_calls, record_msgs, record_lines, same_records,
}
use cocaine_framework_go.Bridge.{
  AppResponse, Gets, bridge_handler, bridge_answers, endpoint_flag, filter_endpoint_arg,
  endpoint_cut,
}

-- Stand-ins for package fmt.
abbrev texts : List Value → Bytes
texts [] = []
texts (text t ∷ vs) = t ++ texts vs
texts (v ∷ vs) = bytes "?" ++ texts vs

abbrev fmt : Fmt
fmt = record {
  sprint = texts;
  sprintf = λ msg args. msg ++ texts args;
  format_int = λ i. bytes "#";
}

abbrev fields : Fields
fields = (bytes "host", text (bytes "a")) ∷ []

-- The second call is below the severity.
abbrev log_calls : List LogCall
log_calls =
    prints err_method (text (bytes "no") ∷ [])
    ∷ prints info_method (text (bytes "up") ∷ [])
    ∷ formats warn_method (bytes "%s") (text (bytes "slow") ∷ [])
    ∷ []

abbrev remote : CocaineLogger
remote = record { service = new_service []; severity = warn_level; prefix = bytes "app/x" }

abbrev local : FallbackLogger
local = record new_fallback_logger { severity = warn_level }

same_records_example :
    ((entry_calls fmt (cocaine_logger fmt) fields log_calls remote).service.sent
      ≡ record_msgs fmt (bytes "app/x") fields 1 (accepted fmt warn_level log_calls))
    × ((entry_calls fmt (fallback_logger fmt) fields log_calls local).printed
        ≡ record_lines fmt fields (accepted fmt warn_level log_calls))
same_records_example =
    same_records fmt fields log_calls remote local refl (λ msg h. append-nil msg)
      ((omega arith, (omega arith, tt)), ((omega arith, (omega arith, tt)), (tt, tt)))

abbrev write_head : ℤ → List (Bytes × Bytes) → Bytes
write_head code headers = bytes "head"

abbrev unpack : Bytes → Result Bytes
unpack [] = err eof
unpack (b ∷ bs) = ok (b ∷ bs)

-- The child answers with the address that it was asked at.
abbrev request_app : Bytes → Result AppResponse
request_app request = ok (record { status_code = pos 201; header = []; body = request ∷ [] })

bridge_answers_example :
    Gets write_head unpack
      (◌++◌)
      request_app
      (λ e. [])
      (bytes "h:80")
      (ok (bytes "/x"))
      none
      (bridge_handler write_head unpack
        (◌++◌)
        request_app
        (λ e. [])
        (bytes "h:80")
        (ok (bytes "/x"))
        none)
      (bytes "http")
      []
      2
bridge_answers_example =
    bridge_answers write_head unpack (◌++◌) request_app (λ e. []) (bytes "h:80") (ok (bytes "/x"))
      none (bytes "http") [] 2

endpoint_cut_example :
    (filter_endpoint_arg (bytes "-a" ∷ endpoint_flag ∷ bytes "s" ∷ bytes "-b" ∷ [])
      ≡ (bytes "-a" ∷ bytes "-b" ∷ [], bytes "-a" ∷ bytes "-b" ∷ bytes "s" ∷ bytes "-b" ∷ []))
    × (filter_endpoint_arg (bytes "-a" ∷ endpoint_flag ∷ [])
        ≡ (bytes "-a" ∷ endpoint_flag ∷ [], bytes "-a" ∷ endpoint_flag ∷ []))
    × (filter_endpoint_arg (bytes "-a" ∷ []) ≡ (bytes "-a" ∷ [], bytes "-a" ∷ []))
endpoint_cut_example =
    endpoint_cut (bytes "-a" ∷ []) (bytes "-b" ∷ []) (bytes "s") (ground arith, tt)
