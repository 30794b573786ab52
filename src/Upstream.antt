-- ===== src/Upstream.antt =====
-- common/src/upstream.rs: the origins that a node may proxy to. The URL parser is a third-party
-- library: its type, `Url::parse` and the accessors are the parameter `lib`.
use oxiproxy.Prelude.{
  ℕ, Bool, true, false, not, ◌&&◌, ◌||◌, Option, none, some, Text, codes, text_eq, is_empty, ltb,
  trim, if◌then◌else◌, Result, ok, err,
}

pub record UrlLibrary : Type 1 where
  pub Url : Type 0
  pub parse : Text → Option Url
  pub scheme : Url → Text
  pub host_str : Url → Option Text
  pub port_or_known_default : Url → Option ℕ
  pub username : Url → Text
  pub password : Url → Option Text
  pub path : Url → Text
  pub query : Url → Option Text
  pub fragment : Url → Option Text
  -- `Display`
  pub to_text : Url → Text

-- The messages of the `ensure!`s, in their order.
pub data UpstreamError : Type 0 where
  wrong_kind not_a_url wrong_scheme passthrough_needs_https no_host credentials not_an_origin :
      UpstreamError

abbrev pub is_none : {A : Type 0} → Option A → Bool
is_none none = true
is_none (some a) = false

abbrev pub is_web : Text → Bool
is_web s = text_eq s (codes "http") || text_eq s (codes "https")

abbrev positive : Option ℕ → Bool
positive none = false
positive (some port) = ltb 0 port

module _ (lib : UrlLibrary) where
  open lib use {Url}

  -- The guards on a parsed URL.
  abbrev pub check_url : Text → Url → Result UpstreamError Url
  check_url kind url =
      if not (is_web (lib.scheme url))
      then err wrong_scheme
      else (if text_eq kind (codes "https") && not (text_eq (lib.scheme url) (codes "https"))
          then err passthrough_needs_https
          else (if not
                (not (is_none (lib.host_str url)) && positive (lib.port_or_known_default url))
              then err no_host
              else (if not (is_empty (lib.username url) && is_none (lib.password url))
                  then err credentials
                  else (if not (
                        text_eq (lib.path url) (codes "/")
                        && is_none (lib.query url)
                        && is_none (lib.fragment url))
                      then err not_an_origin
                      else ok url))))

  abbrev check_parsed : Text → Option Url → Result UpstreamError Url
  check_parsed kind none = err not_a_url
  check_parsed kind (some url) = check_url kind url

  pub parse_upstream : Text → Text → Result UpstreamError Url
  parse_upstream kind value =
      if is_web kind then check_parsed kind (lib.parse (trim value)) else err wrong_kind
