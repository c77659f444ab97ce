-- ===== src/Tracing/Origin.antt =====
-- tracing/http.go: when two URLs are of one origin, and what is told of a destination. A `Url` is
-- what net/url gives; `Net` is what the libraries do with texts: `strings.EqualFold`, and
-- `net.ParseIP` with the equality of its results.
use declarion_sdk_go.Common.{
  Option, none, some, List, [], ◌∷◌, String, string_Eq, Bool, false, not, ◌||◌, ◌==◌, if◌then◌else◌,
}
use declarion_sdk_go.Common.Int.{ℤ, pos, eq_ℤ}
use declarion_sdk_go.Common.Text.{Bytes, codes, parse_int64}

pub record Url : Type 0 where
  pub scheme : String
  pub hostname : String
  pub port : String
  pub escaped_path : Bytes

pub record Net (Ip : Type 0) : Type 0 where
  pub equal_fold : String → String → Bool
  pub parse_ip : String → Option Ip
  pub ip_equal : Ip → Ip → Bool

-- A port as `effectivePort` gives it: the decimal text of a number, or a text that is none.
pub data Port : Type 0 where
  number : ℤ → Port
  unparsed : String → Port

abbrev pub port_equal : Port → Port → Bool
port_equal (number m) (number n) = eq_ℤ m n
port_equal (number m) (unparsed t) = false
port_equal (unparsed s) (number n) = false
port_equal (unparsed s) (unparsed t) = s == t

pub data Attribute : Type 0 where
  text_attribute : (name value : String) → Attribute
  int_attribute : (name : String) → ℤ → Attribute

module _ {Ip : Type 0} (net : Net Ip) where
  unfoldable pub effective_port : Url → Port
  effective_port destination =
      if not (destination.port == "")
      then elim (parse_int64 (codes destination.port)) [
        | some n ↦ number n
        | none ↦ unparsed destination.port
      ]
      else if net.equal_fold destination.scheme "https"
      then number (pos 443)
      else number (pos 80)

  -- the comparison of two hosts: as addresses where both are
  unfoldable pub same_host : String → String → Bool
  same_host a b = elim (net.parse_ip a) [
    | none ↦ net.equal_fold a b
    | some a_ip ↦ elim (net.parse_ip b) [
      | none ↦ net.equal_fold a b
      | some b_ip ↦ net.ip_equal a_ip b_ip
    ]
  ]

  -- `sameOrigin`
  unfoldable pub same_origin : Url → Url → Bool
  same_origin a b =
      if not (net.equal_fold a.scheme b.scheme)
        || not (port_equal (effective_port a) (effective_port b))
      then false
      else same_host a.hostname b.hostname

  -- `DestinationAttributes`
  unfoldable pub destination_attributes : Url → List Attribute
  destination_attributes destination =
      text_attribute "server.address" destination.hostname ∷ elim (effective_port destination) [
        | number n ↦ int_attribute "server.port" n ∷ []
        | unparsed _ ↦ []
      ]
