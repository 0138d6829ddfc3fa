-- ===== src/Logger/Records.antt =====
-- cocaine12/clogger.go, entry.go and fallbacklogger.go: what calls of a logger leave behind.
use cocaine_framework_go.Prelude.{
  ℕ, ◌≡◌, ◌≢◌, refl, sym, ap, ◌∙◌, if◌then◌else◌, Bytes, ℤ, Bool, true, false, List, [], ◌∷◌, ◌++◌,
  All, append_assoc, append-nil, Bool-cases, inl, inr, not,
}
use cocaine_framework_go.Message.{Message}
use cocaine_framework_go.Service.Sessions.{next_counter, next}
use cocaine_framework_go.Service.Client.{send_msg}
use cocaine_framework_go.Logger.{
  Fmt, is_at_most, Fields, Method, LogCall, prints, formats, method_of, level_of, Logger,
  CocaineLogger, cocaine_v, logger_msg, emit, Line, FallbackLogger, fallback_v, text_of,
  cocaine_log, cocaine_logger, entry_call, cocaine_call, fallback_call, line, fallback_log,
  fallback_logger,
}

abbrev pub percent : ℕ
percent = 37

abbrev pub NoPercent : Bytes → Type 0
NoPercent [] = Unit {0}
NoPercent (b ∷ bs) = (b ≢ percent) × NoPercent bs

module _ (fmt : Fmt) where
  -- The documented behaviour of Sprintf: a format with no verbs is printed as it is.
  abbrev pub PrintsPlain : Type 0
  PrintsPlain = (msg : Bytes) → NoPercent msg → fmt.sprintf msg [] ≡ msg

  -- The text of a call.
  abbrev pub rendered : LogCall → Bytes
  rendered (prints m args) = fmt.sprint args
  rendered (formats m msg args) = text_of fmt msg args

  -- A text that no arguments follow has no percent sign.
  abbrev pub IsPlain : LogCall → Type 0
  IsPlain (prints m args) = NoPercent (fmt.sprint args)
  IsPlain (formats m msg []) = NoPercent msg
  IsPlain (formats m msg (a ∷ args)) = Unit {0}

  -- The level and the text of the calls that a severity lets through.
  abbrev pub accepted : ℤ → List LogCall → List (ℤ × Bytes)
  accepted severity [] = []
  accepted severity (call ∷ calls) =
      let rest = accepted severity calls in
      let level = level_of (method_of call) in
      if is_at_most severity level then (level, rendered call) ∷ rest else rest

  abbrev pub entry_calls {ℓ} : {L : Type ℓ} → Logger L → Fields → List LogCall → L → L
  entry_calls logger fields [] l = l
  entry_calls logger fields (call ∷ calls) l =
      entry_calls logger fields calls (entry_call fmt logger fields call l)

  -- The messages for records, each with the next session after `counter`.
  abbrev pub record_msgs : Bytes → Fields → ℕ → List (ℤ × Bytes) → List Message
  record_msgs prefix fields counter [] = []
  record_msgs prefix fields counter ((level, msg) ∷ rs) =
      logger_msg (next_counter counter) level prefix msg fields
      ∷ record_msgs prefix fields (next_counter counter) rs

  abbrev pub record_lines : Fields → List (ℤ × Bytes) → List Line
  record_lines fields [] = []
  record_lines fields ((level, msg) ∷ rs) = line fmt level fields msg ∷ record_lines fields rs

  cocaine_step :
      (fields : Fields) (call : LogCall) (c : CocaineLogger)
      → entry_call fmt (cocaine_logger fmt) fields call c ≡ (
          if is_at_most c.severity (level_of (method_of call))
          then emit (level_of (method_of call)) fields (rendered call) c
          else c)
  unfolding entry_call cocaine_v cocaine_log
  cocaine_step fields (prints m args) c = refl
  cocaine_step fields (formats m msg args) c = refl

  cocaine_records :
      (fields : Fields) (calls : List LogCall) (c : CocaineLogger)
      → (entry_calls (cocaine_logger fmt) fields calls c).service.sent
        ≡ c.service.sent
          ++ record_msgs c.prefix fields c.service.sessions.counter (accepted c.severity calls)
  unfolding next send_msg
  cocaine_records fields [] c = sym (append-nil c.service.sent)
  cocaine_records fields (call ∷ calls) c =
      ap (λ x. (entry_calls (cocaine_logger fmt) fields calls x).service.sent)
        (cocaine_step fields call c)
      ∙ elim (Bool-cases (is_at_most c.severity (level_of (method_of call)))) [
        | inl e ↦
            let level = level_of (method_of call) in
            let c' = emit level fields (rendered call) c in
            rw e (
              cocaine_records fields calls c'
              ∙ append_assoc c.service.sent
                  (logger_msg (next_counter c.service.sessions.counter) level c.prefix
                      (rendered call) fields
                    ∷ [])
                  (record_msgs c.prefix fields c'.service.sessions.counter
                    (accepted c.severity calls)))
        | inr e ↦ rw e (cocaine_records fields calls c)
      ]

  abbrev printed_line : Fields → Method → Bytes → FallbackLogger → FallbackLogger
  printed_line fields m msg f = record f {
    printed = f.printed ++ line fmt (level_of m) fields msg ∷ [];
  }

  -- The entry and its logger both test the severity.
  twice {ℓ} :
      {L : Type ℓ} (b : Bool) (x y : L)
      → (if b then (if not b then y else x) else y) ≡ (if b then x else y)
  twice true x y = refl
  twice false x y = refl

  once {ℓ} :
      {L : Type ℓ} (b : Bool) (x y : L)
      → (if not b then y else x) ≡ (if b then (if not b then y else x) else y)
  once true x y = refl
  once false x y = refl

  fallback_step :
      (fields : Fields) (call : LogCall) (f : FallbackLogger)
      → PrintsPlain
      → IsPlain call
      → entry_call fmt (fallback_logger fmt) fields call f ≡ (
          if is_at_most f.severity (level_of (method_of call))
          then printed_line fields (method_of call) (rendered call) f
          else f)
  unfolding entry_call fallback_v fallback_log text_of
  fallback_step fields (prints m args) f plain h =
      let b = is_at_most f.severity (level_of m) in
      twice b (printed_line fields m (fmt.sprintf (fmt.sprint args) []) f) f
      ∙ ap (λ t. if b then printed_line fields m t f else f) (plain (fmt.sprint args) h)
  fallback_step fields (formats m msg []) f plain h =
      let b = is_at_most f.severity (level_of m) in
      twice b (printed_line fields m (fmt.sprintf msg []) f) f
      ∙ ap (λ t. if b then printed_line fields m t f else f) (plain msg h)
  fallback_step fields (formats m msg (a ∷ args)) f plain h =
      twice (is_at_most f.severity (level_of m))
        (printed_line fields m (fmt.sprintf msg (a ∷ args)) f) f

  fallback_records :
      (fields : Fields) (calls : List LogCall) (f : FallbackLogger)
      → PrintsPlain
      → All IsPlain calls
      → (entry_calls (fallback_logger fmt) fields calls f).printed
        ≡ f.printed ++ record_lines fields (accepted f.severity calls)
  fallback_records fields [] f plain h = sym (append-nil f.printed)
  fallback_records fields (call ∷ calls) f plain (h, hs) =
      ap (λ x. (entry_calls (fallback_logger fmt) fields calls x).printed)
        (fallback_step fields call f plain h)
      ∙ elim (Bool-cases (is_at_most f.severity (level_of (method_of call)))) [
        | inl e ↦
            let printed = line fmt (level_of (method_of call)) fields (rendered call) in
            rw e (
              fallback_records fields calls (printed_line fields (method_of call) (rendered call) f)
                plain hs
              ∙ append_assoc f.printed (printed ∷ [])
                  (record_lines fields (accepted f.severity calls)))
        | inr e ↦ rw e (fallback_records fields calls f plain hs)
      ]

  -- If the severity of both is the same, the calls of an entry make a cocaineLogger send, and a
  -- fallbackLogger print, the same records in the same order: those whose level is at least the
  -- severity, with their text, and the fields of the entry. Each message of the cocaineLogger has
  -- the session after the one before. The hypotheses are that Sprintf prints a format with no verbs
  -- as it is, and that no text that comes without arguments has a percent sign.
  pub same_records :
      (fields : Fields) (calls : List LogCall) (c : CocaineLogger) (f : FallbackLogger)
      → c.severity ≡ f.severity
      → PrintsPlain
      → All IsPlain calls
      → ((entry_calls (cocaine_logger fmt) fields calls c).service.sent
          ≡ c.service.sent
            ++ record_msgs c.prefix fields c.service.sessions.counter (accepted c.severity calls))
        × ((entry_calls (fallback_logger fmt) fields calls f).printed
            ≡ f.printed ++ record_lines fields (accepted c.severity calls))
  same_records fields calls c f same plain h = (
    cocaine_records fields calls c,
    fallback_records fields calls f plain h
        ∙ ap (λ s. f.printed ++ record_lines fields (accepted s calls)) (sym same),
  )

  -- A method of a logger does what an entry with no fields does.
  pub methods_as_entry :
      (call : LogCall) (c : CocaineLogger) (f : FallbackLogger)
      → (cocaine_call fmt call c ≡ entry_call fmt (cocaine_logger fmt) [] call c)
        × (fallback_call fmt call f ≡ entry_call fmt (fallback_logger fmt) [] call f)
  unfolding cocaine_call fallback_call entry_call fallback_log
  methods_as_entry (prints m args) c f = (refl, once (fallback_v (level_of m) f) _ f)
  methods_as_entry (formats m msg args) c f = (refl, once (fallback_v (level_of m) f) _ f)
