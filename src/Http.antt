-- ===== src/Http.antt =====
-- net/http as the program uses it: a request and a response are values whose bodies are read already,
-- and their headers map canonical names to values, with "" where there is none.
pub mod Signature
pub mod Params
pub mod RoundTrip
pub mod EventStream
use snw_agent_link.Prelude.{
  ◌+◌, ◌-◌, ◌*◌, ◌/◌, suc, Bool, Option, List, String, ℕ, if◌then◌else◌, same,
}
use snw_agent_link.Prelude.Int.{ℤ, pos, negsuc}
use snw_agent_link.Time.{Time}

abbrev pub Headers : Type 0
Headers = String → String

-- `headers.Set(name, value)`
unfoldable pub set_header : String → String → Headers → Headers
set_header name value headers other = if same other name then value else headers other

pub record Request : Type 0 where
  pub method : String
  -- `URL.String()`, `URL.IsAbs()`, `URL.RequestURI()`, `URL.EscapedPath()`, `URL.RawQuery`, `URL.Host`
  pub url : String
  pub is_absolute : Bool
  pub request_uri : String
  pub escaped_path : String
  pub raw_query : String
  pub url_host : String
  -- `TLS != nil`, `Host`, `RemoteAddr`, `URL.Query().Get`
  pub has_tls : Bool
  pub host : String
  pub remote_addr : String
  pub query : String → String
  pub headers : Headers
  pub body : String

pub record Response : Type 0 where
  pub status : ℕ
  pub headers : Headers
  pub body : String

-- Go's strconv, strings.Fields, strings.Trim(s, ":"), encoding/base64 and ed25519.
pub record Web : Type 0 where
  pub quote : String → String
  pub unquote : String → Option String
  pub format_int : ℤ → String
  pub parse_int : String → Option ℤ
  pub fields : String → List String
  pub trim_colons : String → String
  pub base64 : String → String
  pub unbase64 : String → Option String
  pub unbase64_raw_url : String → Option String

-- `time.Unix(seconds, 0)`: 1970 is so many seconds after the zero time.
unfoldable pub unix_time : ℤ → Time
unix_time (pos n) = (62135596800 + n) * 1000000000
unix_time (negsuc n) = (62135596800 - suc n) * 1000000000

-- `t.Unix()`, from 1970 on
unfoldable pub unix_seconds : Time → ℤ
unix_seconds t = pos (t / 1000000000 - 62135596800)
