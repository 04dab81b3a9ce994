-- ===== src/Examples/OfNetwork.antt =====
-- A public site, and one whose name resolves to a private address.
use autopw.Prelude.{String, false, some, List, [], ◌∷◌, str_eq, if◌then◌else◌, ok, err, ◌≡◌, refl}
use autopw.Storage.Names.{strip_prefix}
use autopw.Security.Network.{
  Url, UrlPlatform, resolves_to_private, assert_allowed_async, check, is_unsafe_address,
  is_unsafe_ipv4, is_unsafe_ipv6, origin_matches_url, is_explicit_loopback_origin, IsAllowedUrl,
  assert_allowed_async-IsAllowedUrl,
}

abbrev site : Url
site = record {
  protocol = "https:";
  hostname = "example.com";
  username = "";
  password = "";
  origin = "https://example.com";
}

-- Names are not addresses here; other texts are IPv4 addresses of two known networks.
abbrev platform : UrlPlatform
platform = record {
  parse = λ value. some site;
  ip_version = λ host. if str_eq host "example.com" then 0 else 4;
  octets = λ host.
      if str_eq host "10.0.0.1"
      then some 10 ∷ some 0 ∷ some 0 ∷ some 1 ∷ []
      else some 93 ∷ some 184 ∷ some 216 ∷ some 34 ∷ [];
  lower = λ s. s;
  contains = λ s part. false;
  ends_with_any_port = λ origin. false;
}

abbrev origins : List String
origins = "https://example.com" ∷ []

rebinding_is_denied :
    assert_allowed_async platform origins
      (some ("93.184.216.34" ∷ "10.0.0.1" ∷ []))
      "https://example.com"
    ≡ err resolves_to_private
unfolding assert_allowed_async check is_unsafe_address is_unsafe_ipv4 is_unsafe_ipv6
    origin_matches_url is_explicit_loopback_origin strip_prefix
rebinding_is_denied = refl

is_allowed :
    assert_allowed_async platform origins (some ("93.184.216.34" ∷ [])) "https://example.com"
    ≡ ok site
unfolding assert_allowed_async check is_unsafe_address is_unsafe_ipv4 is_unsafe_ipv6
    origin_matches_url is_explicit_loopback_origin strip_prefix
is_allowed = refl

assert_allowed_async-IsAllowedUrl_example :
    IsAllowedUrl platform origins (some ("93.184.216.34" ∷ [])) site
assert_allowed_async-IsAllowedUrl_example =
    assert_allowed_async-IsAllowedUrl platform origins (some ("93.184.216.34" ∷ []))
      "https://example.com" site is_allowed
