-- ===== src/Notify/Handler/Routing.antt =====
-- Which of the handlers that BuildHandlers of internal/notify/handler.go makes take a record.
use tlsrpt_digest.Base.{
  ◌≡◌, refl, subst, ℕ, Bool, Bool-cases, if◌then◌else◌, true, false, ◌&&◌, Option, none, some, ◌⊎◌,
  inl, inr, List, [], ◌∷◌, count, String, str_eq, arith, if_both,
}
use tlsrpt_digest.Notify.Handler.{
  LevelMode, exact_info, warn_and_above, LogRecord, tls_failure_alert, fetch_warning, system_error,
  periodic_summary, level_of, SlackHandlerOptions, SlackHandler, is_enabled, ParsedUrl,
  WebhookError, validate_webhook_url, new_slack_handler, build_handlers, create, create_if, one,
  two, tier, create_set, url_error, first_of, unless_error, validate_env_combination,
}

-- how many of the handlers take the record
abbrev pub takers : LogRecord → List SlackHandler → ℕ
takers r hs = count (λ h. is_enabled h (level_of r)) hs

-- the webhook that a record is meant for
abbrev url_for : String → String → LogRecord → String
url_for success error (periodic_summary s) = success
url_for success error (tls_failure_alert a) = error
url_for success error (fetch_warning w) = error
url_for success error (system_error e) = error

-- one handler for a record whose webhook is set; without any webhook, one in a dry run
abbrev pub expected_takers : String → String → Bool → LogRecord → ℕ
expected_takers success error dry r =
    if str_eq success "" && str_eq error ""
    then (if dry then 1 else 0)
    else if str_eq (url_for success error r) ""
    then 0
    else 1

-- each record has as many handlers as expected
abbrev Routed : String → String → Bool → List SlackHandler → Type 0
Routed success error dry hs = (r : LogRecord) → takers r hs ≡ expected_takers success error dry r

-- every record has one handler
abbrev EachTaken : List SlackHandler → Type 0
EachTaken hs = (r : LogRecord) → takers r hs ≡ 1

module _ (parse_url : String → Option ParsedUrl) (to_lower : String → String) where
  create-mode :
      (o : SlackHandlerOptions) (h : SlackHandler)
      → create parse_url to_lower o ≡ inr h
      → h.opts.level_mode ≡ o.level_mode
  create-mode o h e = ground arith

  create_if-mode :
      (o : SlackHandlerOptions) (x : Option WebhookError) (h : SlackHandler)
      → create_if parse_url to_lower o x ≡ inr h
      → h.opts.level_mode ≡ o.level_mode
  create_if-mode o none h e = create-mode o h e
  create_if-mode o (some x) h e = absurd (ground arith)

  new_slack_handler-mode :
      (o : SlackHandlerOptions) (h : SlackHandler)
      → new_slack_handler parse_url to_lower o ≡ inr h
      → h.opts.level_mode ≡ o.level_mode
  unfolding new_slack_handler
  new_slack_handler-mode o h =
      if_both (λ r. r ≡ inr h → h.opts.level_mode ≡ o.level_mode)
        (o.is_dry_run && str_eq o.webhook_url "") (λ _. create-mode o h)
        (λ _.
          create_if-mode o (validate_webhook_url parse_url to_lower o.webhook_url o.allowed_host) h)

  taken_by_one :
      (h h' : SlackHandler)
      → h.opts.level_mode ≡ exact_info
      → h'.opts.level_mode ≡ warn_and_above
      → EachTaken (h ∷ h' ∷ [])
  unfolding is_enabled
  taken_by_one h h' e e' (tls_failure_alert a) = ground arith
  taken_by_one h h' e e' (fetch_warning w) = ground arith
  taken_by_one h h' e e' (system_error x) = ground arith
  taken_by_one h h' e e' (periodic_summary s) = ground arith

  two-EachTaken :
      (x y : WebhookError ⊎ SlackHandler) (hs : List SlackHandler)
      → ((h : SlackHandler) → x ≡ inr h → h.opts.level_mode ≡ exact_info)
      → ((h : SlackHandler) → y ≡ inr h → h.opts.level_mode ≡ warn_and_above)
      → two parse_url to_lower x y ≡ inr hs
      → EachTaken hs
  two-EachTaken (inl a) y hs m m' e = absurd (ground arith)
  two-EachTaken (inr h) (inl a) hs m m' e = absurd (ground arith)
  two-EachTaken (inr h) (inr h') hs m m' e =
      let same : (h ∷ h' ∷ []) ≡ hs = ground arith in
      subst EachTaken same (taken_by_one h h' (m h refl) (m' h' refl))

  alone :
      (h : SlackHandler) (success error : String) (dry : Bool)
      → h.opts.level_mode ≡ warn_and_above
      → str_eq success "" ≡ true
      → str_eq error "" ≡ false
      → Routed success error dry (h ∷ [])
  unfolding is_enabled
  alone h success error dry m s e (tls_failure_alert a) = ground arith
  alone h success error dry m s e (fetch_warning w) = ground arith
  alone h success error dry m s e (system_error x) = ground arith
  alone h success error dry m s e (periodic_summary x) = ground arith

  one-Routed :
      (x : WebhookError ⊎ SlackHandler) (success error : String) (dry : Bool)
      (hs : List SlackHandler)
      → ((h : SlackHandler) → x ≡ inr h → h.opts.level_mode ≡ warn_and_above)
      → str_eq success "" ≡ true
      → str_eq error "" ≡ false
      → one parse_url to_lower x ≡ inr hs
      → Routed success error dry hs
  one-Routed (inl a) success error dry hs m s e k = absurd (ground arith)
  one-Routed (inr h) success error dry hs m s e k =
      let same : (h ∷ []) ≡ hs = ground arith in
      subst (Routed success error dry) same (alone h success error dry (m h refl) s e)

  both_set :
      (success error : String) (dry : Bool) (hs : List SlackHandler)
      → str_eq success "" ≡ false
      → str_eq error "" ≡ false
      → EachTaken hs
      → Routed success error dry hs
  both_set success error dry hs s e k (tls_failure_alert a) =
      ground (arith, k (tls_failure_alert a))
  both_set success error dry hs s e k (fetch_warning w) = ground (arith, k (fetch_warning w))
  both_set success error dry hs s e k (system_error x) = ground (arith, k (system_error x))
  both_set success error dry hs s e k (periodic_summary x) = ground (arith, k (periodic_summary x))

  none_set :
      (success error : String) (hs : List SlackHandler)
      → str_eq success "" ≡ true
      → str_eq error "" ≡ true
      → EachTaken hs
      → Routed success error true hs
  none_set success error hs s e k r = ground (arith, k r)

  unset_wet :
      (success error : String)
      → str_eq success "" ≡ true
      → str_eq error "" ≡ true
      → Routed success error false []
  unset_wet success error s e r = ground arith

  unless_error-Routed :
      (x : Option WebhookError) (r : WebhookError ⊎ List SlackHandler) (success error : String)
      (dry : Bool) (hs : List SlackHandler)
      → (x ≡ none → r ≡ inr hs → Routed success error dry hs)
      → unless_error parse_url to_lower x r ≡ inr hs
      → Routed success error dry hs
  unless_error-Routed none r success error dry hs k e = k refl e
  unless_error-Routed (some x) r success error dry hs k e = absurd (ground arith)

  module _ (success error allowed_host : String) (o : SlackHandlerOptions)
      (hs : List SlackHandler) where
    abbrev Result : Type 0
    Result = Routed success error o.is_dry_run hs

    error_set :
        (y : Option WebhookError)
        → str_eq success "" ≡ false
        → first_of parse_url to_lower (validate_env_combination success error) y ≡ none
        → str_eq error "" ≡ false
    unfolding validate_env_combination
    error_set y s e = ground arith

    abbrev checks : Option WebhookError
    checks = first_of parse_url to_lower (validate_env_combination success error) (
        first_of parse_url to_lower (url_error parse_url to_lower success allowed_host)
          (url_error parse_url to_lower error allowed_host))

    abbrev handler : String → LevelMode → WebhookError ⊎ SlackHandler
    handler url mode = new_slack_handler parse_url to_lower (tier parse_url to_lower url mode o)

    set-Routed :
        checks ≡ none
        → (str_eq success "" && str_eq error "") ≡ false
        → create_set parse_url to_lower success error o ≡ inr hs
        → Result
    set-Routed c u h = elim (Bool-cases (str_eq success "")) [
      | inl s ↦
          one-Routed (handler error warn_and_above) success error o.is_dry_run hs
            (new_slack_handler-mode _) s (ground arith) (ground arith)
      | inr s ↦
          let e = error_set _ s c in
          both_set success error o.is_dry_run hs s e (
            two-EachTaken (handler success exact_info) (handler error warn_and_above) hs
              (new_slack_handler-mode _) (new_slack_handler-mode _) (ground arith))
    ]

    unset-Routed :
        (dry : Bool)
        → o.is_dry_run ≡ dry
        → str_eq success "" ≡ true
        → str_eq error "" ≡ true
        → build_handlers parse_url to_lower success error allowed_host o ≡ inr hs
        → Routed success error dry hs
    unfolding build_handlers
    unset-Routed true d s e h = none_set success error hs s e (
        two-EachTaken (new_slack_handler parse_url to_lower (record o { level_mode = exact_info }))
          (new_slack_handler parse_url to_lower (record o { level_mode = warn_and_above })) hs
          (new_slack_handler-mode (record o { level_mode = exact_info }))
          (new_slack_handler-mode (record o { level_mode = warn_and_above })) (ground arith))
    unset-Routed false d s e h =
        let same : [] ≡ hs = ground arith in
        subst (Routed success error false) same (unset_wet success error s e)

    some-Routed :
        (str_eq success "" && str_eq error "") ≡ false
        → build_handlers parse_url to_lower success error allowed_host o ≡ inr hs
        → Result
    unfolding build_handlers
    some-Routed u h =
        let k : unless_error parse_url to_lower checks
              (create_set parse_url to_lower success error o)
            ≡ inr hs =
          ground arith in
        unless_error-Routed checks (create_set parse_url to_lower success error o) success error
          o.is_dry_run hs (λ c x. set-Routed c u x) k

-- Where the handlers are built without an error, and some webhook is set, a record of the helpers is taken
-- by exactly one handler if its webhook is set, which is the success webhook for a summary and the
-- error webhook for alerts, warnings and system errors, and by none if it is not set. Where no webhook
-- is set, each record is taken by exactly one handler in a dry run, and by none otherwise.
pub build_handlers-takers :
    (parse_url : String → Option ParsedUrl) (to_lower : String → String)
    (success error allowed_host : String) (o : SlackHandlerOptions) (hs : List SlackHandler)
    (r : LogRecord)
    → build_handlers parse_url to_lower success error allowed_host o ≡ inr hs
    → takers r hs ≡ expected_takers success error o.is_dry_run r
build_handlers-takers parse_url to_lower success error allowed_host o hs r h =
    elim (Bool-cases (str_eq success "" && str_eq error "")) [
      | inl u ↦
          unset-Routed parse_url to_lower success error allowed_host o hs o.is_dry_run refl
            (ground arith) (ground arith) h r
      | inr u ↦ some-Routed parse_url to_lower success error allowed_host o hs u h r
    ]
