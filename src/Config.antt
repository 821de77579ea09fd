-- ===== src/Config.antt =====
-- internal/config: types.go, defaults.go and validate.go. An int or int64 is an integer in its range,
-- a host name the list of its bytes. Reading a certificate file is a parameter.
pub mod Windows
use tlsrpt_digest.Base.{
  ℕ, suc, ◌+◌, ◌==◌, ltb, leb, Bool, true, false, not, ◌&&◌, ◌||◌, Option, none, some, List, [],
  ◌∷◌, String, str_eq, if◌then◌else◌,
}
use tlsrpt_digest.Base.Int.{ℤ, pos, ltb_ℤ}

pub record ImapConfig : Type 0 where
  pub host : String
  pub port : ℤ
  pub mailbox : String
  pub fetch_days : ℤ
  pub tls_ca_cert : String
  pub max_message_bytes : ℤ
  pub retention_days : ℤ

-- `Config`; the Slack section has one field
pub record Config : Type 0 where
  pub imap : ImapConfig
  pub allowed_host : List ℕ
  pub root_dir : String
  pub retention_days : ℤ
  pub max_email_age_days : ℤ
  pub window_days : ℤ

-- `rawConfig`: `none` is a key that the file does not have
pub record RawConfig : Type 0 where
  pub host : Option String
  pub port : Option ℤ
  pub mailbox : Option String
  pub fetch_days : Option ℤ
  pub tls_ca_cert : Option String
  pub max_message_bytes : Option ℤ
  pub imap_retention_days : Option ℤ
  pub allowed_host : Option (List ℕ)
  pub root_dir : Option String
  pub retention_days : Option ℤ
  pub max_email_age_days : Option ℤ
  pub window_days : Option ℤ

-- stringValue, intValue, intDefault and int64Default
abbrev pub or_default : {A : Type 0} → Option A → A → A
or_default none fallback = fallback
or_default (some a) fallback = a

abbrev pub string_default : Option String → String → String
string_default none fallback = fallback
string_default (some s) fallback = if str_eq s "" then fallback else s

unfoldable pub apply_defaults : RawConfig → Config
apply_defaults raw = record {
  imap = record {
    host = or_default raw.host "";
    port = or_default raw.port (pos 0);
    mailbox = string_default raw.mailbox "INBOX";
    fetch_days = or_default raw.fetch_days (pos 14);
    tls_ca_cert = or_default raw.tls_ca_cert "";
    max_message_bytes = or_default raw.max_message_bytes (pos 1048576);
    retention_days = or_default raw.imap_retention_days (pos 0);
  };
  allowed_host = or_default raw.allowed_host [];
  root_dir = string_default raw.root_dir "./store";
  retention_days = or_default raw.retention_days (pos 30);
  max_email_age_days = or_default raw.max_email_age_days (pos 30);
  window_days = or_default raw.window_days (pos 7);
}

pub data ConfigError : Type 0 where
  invalid_imap_host invalid_imap_port invalid_fetch_days invalid_window_days : ConfigError
  invalid_retention_days invalid_max_email_age_days invalid_max_message_bytes : ConfigError
  invalid_imap_retention_days imap_retention_too_short : ConfigError
  tls_ca_cert_not_readable tls_ca_cert_not_pem invalid_allowed_host : ConfigError

-- what os.ReadFile and AppendCertsFromPEM find at the path of a certificate
pub data CertFile : Type 0 where
  not_readable not_pem pem : CertFile

abbrev is_alnum : ℕ → Bool
is_alnum c = (leb b'a' c && leb c b'z') || (leb b'A' c && leb c b'Z') || (leb b'0' c && leb c b'9')

-- The match of reValidHostname: after `n` bytes of a label, `ok` where the last one may end it.
abbrev label_from : List ℕ → ℕ → Bool → Bool
label_from [] n ok = ok
label_from (c ∷ cs) n ok =
    let next = label_from cs 0 false in
    let letter = label_from cs (suc n) true in
    let hyphen = label_from cs (suc n) false in
    if c == b'.'
    then ok && next
    else if is_alnum c
    then ltb n 63 && letter
    else (c == b'-') && (ltb 0 n && (ltb n 63 && hyphen))

unfoldable pub is_valid_hostname : List ℕ → Bool
is_valid_hostname host = label_from host 0 false

unfoldable pub validate_allowed_host : List ℕ → Option ConfigError
unfolding is_valid_hostname
validate_allowed_host [] = none
validate_allowed_host (c ∷ cs) =
    if is_valid_hostname (c ∷ cs) then none else some invalid_allowed_host

abbrev cert_error : CertFile → Option ConfigError
cert_error not_readable = some tls_ca_cert_not_readable
cert_error not_pem = some tls_ca_cert_not_pem
cert_error pem = none

unfoldable pub validate_tls_ca_cert : (String → CertFile) → String → Option ConfigError
validate_tls_ca_cert certs path = if str_eq path "" then none else cert_error (certs path)

abbrev pub max_ℤ : ℤ → ℤ → ℤ
max_ℤ a b = if ltb_ℤ a b then b else a

abbrev or_else_host : Option ConfigError → List ℕ → Option ConfigError
or_else_host (some e) host = some e
or_else_host none host = validate_allowed_host host

unfoldable pub validate : (String → CertFile) → Config → Option ConfigError
unfolding validate_tls_ca_cert validate_allowed_host
validate certs cfg =
    if str_eq cfg.imap.host ""
    then some invalid_imap_host
    else if ltb_ℤ cfg.imap.port (pos 1) || ltb_ℤ (pos 65535) cfg.imap.port
    then some invalid_imap_port
    else if ltb_ℤ cfg.imap.fetch_days (pos 1)
    then some invalid_fetch_days
    else if ltb_ℤ cfg.window_days (pos 1)
    then some invalid_window_days
    else if ltb_ℤ cfg.retention_days (pos 1)
    then some invalid_retention_days
    else if ltb_ℤ cfg.max_email_age_days (pos 1)
    then some invalid_max_email_age_days
    else if ltb_ℤ cfg.imap.max_message_bytes (pos 0)
    then some invalid_max_message_bytes
    else if ltb_ℤ cfg.imap.retention_days (pos 0)
    then some invalid_imap_retention_days
    else if ltb_ℤ (pos 0) cfg.imap.retention_days
        && ltb_ℤ cfg.imap.retention_days (max_ℤ cfg.imap.fetch_days cfg.window_days)
    then some imap_retention_too_short
    else or_else_host (validate_tls_ca_cert certs cfg.imap.tls_ca_cert) cfg.allowed_host
