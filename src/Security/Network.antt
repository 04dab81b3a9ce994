-- ===== src/Security/Network.antt =====
-- packages/security/src/index.ts: `BrowserNetworkGuard`. URLs are parsed, texts
-- searched and host names resolved by arguments.
use Prim.Native.String.{◌++◌}
use autopw.Prelude.{
  ℕ, String, Bool, true, false, not, ◌&&◌, ◌||◌, ◌==◌, leb, str_eq, str_eq_iff, truthy, Option,
  none, some, is_some, List, [], ◌∷◌, any, includes, if◌then◌else◌, Result, ok, err, ◌>>=◌, ◌>>◌,
  throw_if, >>=-eq-ok, >>-eq-ok, ◌≡◌, ◌≢◌, ◌⊎◌, ◌<◌, All, refl, subst, arith, Bool-cases,
  Option-cases, inl, inr,
}
use autopw.Storage.Names.{strip_prefix}

pub record Url : Type 0 where
  pub protocol : String
  pub hostname : String
  pub username : String
  pub password : String
  pub origin : String

-- `new URL`, `net.isIP`, the parts of a dotted address as numbers, with `NaN` as `none`,
-- `toLowerCase`, `includes` and `endsWith(":*")`.
pub record UrlPlatform : Type 0 where
  pub parse : String → Option Url
  pub ip_version : String → ℕ
  pub octets : String → List (Option ℕ)
  pub lower : String → String
  pub contains : String → String → Bool
  pub ends_with_any_port : String → Bool

abbrev pub between : ℕ → ℕ → ℕ → Bool
between low high n = leb low n && leb n high

-- A test of the first of some parts, which fails where there is none and on `NaN`.
abbrev pub first_is : (ℕ → Bool) → List (Option ℕ) → Bool
first_is p (some n ∷ parts) = p n
first_is p (none ∷ parts) = false
first_is p [] = false

-- The parts behind the first.
abbrev pub behind : List (Option ℕ) → List (Option ℕ)
behind [] = []
behind (n ∷ parts) = parts

-- A test of the first part together with one of the second.
abbrev pub starts : ℕ → (ℕ → Bool) → List (Option ℕ) → Bool
starts n second parts = first_is (λ m. m == n) parts && first_is second (behind parts)

-- `isUnsafeIpv4`
unfoldable pub is_unsafe_ipv4 : List (Option ℕ) → Bool
is_unsafe_ipv4 parts =
    first_is (λ n. n == 0) parts
    || first_is (λ n. n == 10) parts
    || first_is (λ n. n == 127) parts
    || starts 100 (between 64 127) parts
    || starts 169 (λ n. n == 254) parts
    || starts 172 (between 16 31) parts
    || starts 192 (λ n. n == 0) parts
    || starts 192 (λ n. n == 168) parts
    || starts 198 (λ n. n == 18 || n == 19 || n == 51) parts
    || starts 203 (λ n. n == 0) parts
    || first_is (leb 224) parts

abbrev pub starts_with : String → String → Bool
starts_with p s = is_some (strip_prefix p s)

-- `isUnsafeIpv6`; an address of four numbers may be embedded.
unfoldable pub is_unsafe_ipv6 : UrlPlatform → String → Bool
unfolding is_unsafe_ipv4
is_unsafe_ipv6 p hostname =
    let low = p.lower hostname in
    str_eq low "::1"
    || str_eq low "0:0:0:0:0:0:0:1"
    || any (λ prefix. starts_with prefix low) ("fc" ∷ "fd" ∷ [])
    || any (λ prefix. starts_with prefix low) ("fe8" ∷ "fe9" ∷ "fea" ∷ "feb" ∷ [])
    || starts_with "ff" low
    || (elim (strip_prefix "::ffff:" low) [ none ↦ false | some v4 ↦ is_unsafe_ipv4 (p.octets v4) ])

-- `isUnsafeAddress`
unfoldable pub is_unsafe_address : UrlPlatform → String → Bool
unfolding is_unsafe_ipv4 is_unsafe_ipv6
is_unsafe_address p address =
    if p.ip_version address == 4
    then is_unsafe_ipv4 (p.octets address)
    else p.ip_version address == 6 && is_unsafe_ipv6 p address

-- `originMatchesUrl`
unfoldable pub origin_matches_url : UrlPlatform → String → Url → Bool
origin_matches_url p origin url =
    if p.ends_with_any_port origin
    then str_eq (url.protocol ++ ("//" ++ (p.lower url.hostname ++ ":*"))) origin
    else str_eq url.origin origin

abbrev pub is_loopback_origin : UrlPlatform → String → Bool
is_loopback_origin p origin =
    p.contains origin "127.0.0.1" || p.contains origin "localhost" || p.contains origin "[::1]"

-- `isExplicitLoopbackOrigin`
unfoldable pub is_explicit_loopback_origin : UrlPlatform → String → List String → Bool
is_explicit_loopback_origin p hostname origins =
    includes ("127.0.0.1" ∷ "::1" ∷ "localhost" ∷ []) (p.lower hostname)
    && any (is_loopback_origin p) origins

-- The reason for which a URL is not allowed.
pub data Denial : Type 0 where
  invalid_url scheme_denied credentials_denied origin_denied private_network : Denial
  unresolved resolves_to_private : Denial

abbrev pub parsed : Option Url → Result Denial Url
parsed none = err invalid_url
parsed (some url) = ok url

abbrev pub is_private : UrlPlatform → List String → Url → Bool
is_private p origins url =
    is_unsafe_address p url.hostname && not (is_explicit_loopback_origin p url.hostname origins)

-- `BrowserNetworkGuard.check` and `assertAllowed`, for the origins of the guard.
unfoldable pub check : UrlPlatform → List String → String → Result Denial Url
unfolding is_unsafe_address origin_matches_url is_explicit_loopback_origin
check p origins value = do
  url ← parsed (p.parse value)
  throw_if (not (includes ("http:" ∷ "https:" ∷ []) url.protocol)) scheme_denied
  throw_if (truthy url.username || truthy url.password) credentials_denied
  throw_if (not (any (λ origin. origin_matches_url p origin url) origins)) origin_denied
  throw_if (is_private p origins url) private_network
  ok url

-- `net.isIP(...)` or the host is `localhost`: no name is resolved.
abbrev pub is_literal : UrlPlatform → Url → Bool
is_literal p url = not (p.ip_version url.hostname == 0) || str_eq (p.lower url.hostname) "localhost"

abbrev pub resolved : Option (List String) → Result Denial (List String)
resolved none = err unresolved
resolved (some addresses) = ok addresses

-- `assertAllowedAsync`; `addresses` is what the name resolves to, if it does.
unfoldable pub assert_allowed_async :
    UrlPlatform → List String → Option (List String) → String → Result Denial Url
unfolding check is_unsafe_address
assert_allowed_async p origins addresses value = check p origins value >>= λ url.
    if is_literal p url
    then ok url
    else resolved addresses >>= λ found.
        throw_if (any (is_unsafe_address p) found) resolves_to_private >> ok url

-- The networks that are not public: all addresses with one of these first numbers or one from 224
-- up, and those of these first numbers with a second one in the range.
abbrev ReservedRange : Type 0
ReservedRange = ℕ × ℕ × ℕ

abbrev reserved_ranges : List ReservedRange
reserved_ranges =
    (100, 64, 127)
    ∷ (169, 254, 254)
    ∷ (172, 16, 31)
    ∷ (192, 0, 0)
    ∷ (192, 168, 168)
    ∷ (198, 18, 19)
    ∷ (198, 51, 51)
    ∷ (203, 0, 0)
    ∷ []

abbrev IsOutside : ℕ → ℕ → ReservedRange → Type 0
IsOutside first second (n, low, high) = (first ≢ n) ⊎ ((second < low) ⊎ (high < second))

abbrev IsPublicFirst : ℕ → Type 0
IsPublicFirst first = (first ≢ 0) × (first ≢ 10) × (first ≢ 127) × (first < 224)

abbrev IsPublicV4 : List (Option ℕ) → Type 0
IsPublicV4 (some first ∷ some second ∷ rest) =
    IsPublicFirst first × All (IsOutside first second) reserved_ranges
IsPublicV4 (some first ∷ none ∷ rest) = IsPublicFirst first
IsPublicV4 (some first ∷ []) = IsPublicFirst first
IsPublicV4 (none ∷ rest) = Unit
IsPublicV4 [] = Unit

-- Neither loopback, unique local, link local nor multicast, nor an embedded address that is not
-- public.
record IsPublicV6 (p : UrlPlatform) (address : String) : Type 0 where
  no_loopback : p.lower address ≢ "::1"
  no_long_loopback : p.lower address ≢ "0:0:0:0:0:0:0:1"
  no_range :
      All
        (λ prefix. strip_prefix prefix (p.lower address) ≡ none)
        ("fc" ∷ "fd" ∷ "fe8" ∷ "fe9" ∷ "fea" ∷ "feb" ∷ "ff" ∷ [])
  no_embedded :
      (v4 : String) → strip_prefix "::ffff:" (p.lower address) ≡ some v4 → IsPublicV4 (p.octets v4)

pub record IsPublicAddress (p : UrlPlatform) (address : String) : Type 0 where
  v4 : p.ip_version address ≡ 4 → IsPublicV4 (p.octets address)
  v6 : p.ip_version address ≡ 6 → IsPublicV6 p address

-- The origin is that of the URL, or allows its host under any port.
abbrev MatchesUrl : UrlPlatform → Url → String → Type 0
MatchesUrl p url origin =
    ((p.ends_with_any_port origin ≡ false) × (url.origin ≡ origin))
    ⊎ ((p.ends_with_any_port origin ≡ true)
        × (url.protocol ++ ("//" ++ (p.lower url.hostname ++ ":*")) ≡ origin))

-- The host is a loopback, and an origin of the guard names one.
abbrev IsAllowedLoopback : UrlPlatform → List String → String → Type 0
IsAllowedLoopback p origins host =
    (includes ("127.0.0.1" ∷ "::1" ∷ "localhost" ∷ []) (p.lower host) ≡ true)
    × (any (is_loopback_origin p) origins ≡ true)

-- A URL that may be opened.
pub record IsAllowedUrl (p : UrlPlatform) (origins : List String) (addresses : Option (List String))
    (url : Url) : Type 0 where
  pub web : (url.protocol ≡ "http:") ⊎ (url.protocol ≡ "https:")
  pub anonymous : (truthy url.username ≡ false) × (truthy url.password ≡ false)
  pub listed : (origin : String) × (includes origins origin ≡ true) × MatchesUrl p url origin
  pub public : IsPublicAddress p url.hostname ⊎ IsAllowedLoopback p origins url.hostname
  pub resolves :
      p.ip_version url.hostname ≡ 0
      → p.lower url.hostname ≢ "localhost"
      → (found : List String) × (addresses ≡ some found) × All (IsPublicAddress p) found

is_unsafe_ipv4-IsPublicV4 :
    (parts : List (Option ℕ)) → is_unsafe_ipv4 parts ≡ false → IsPublicV4 parts
unfolding is_unsafe_ipv4
is_unsafe_ipv4-IsPublicV4 [] h = tt
is_unsafe_ipv4-IsPublicV4 (none ∷ rest) h = tt
is_unsafe_ipv4-IsPublicV4 (some first ∷ []) h = ground (arith, h)
is_unsafe_ipv4-IsPublicV4 (some first ∷ none ∷ rest) h = ground (arith, h)
is_unsafe_ipv4-IsPublicV4 (some first ∷ some second ∷ rest) h = ground (arith, h)

-- A text that starts with none of some prefixes.
no_prefix :
    (low : String) (prefixes : List String)
    → any (λ prefix. starts_with prefix low) prefixes ≡ false
    → All (λ prefix. strip_prefix prefix low ≡ none) prefixes
no_prefix low [] h = tt
no_prefix low (x ∷ xs) h = elim (Option-cases (strip_prefix x low)) [
  | inl e ↦ (e, no_prefix low xs (ground (arith, h, e)))
  | inr (rest, e) ↦ absurd (ground (arith, h, e))
]

is_unsafe_ipv6-IsPublicV6 :
    (p : UrlPlatform) (address : String) → is_unsafe_ipv6 p address ≡ false → IsPublicV6 p address
unfolding is_unsafe_ipv6
is_unsafe_ipv6-IsPublicV6 p address h =
    let low = p.lower address in
    let a = no_prefix low ("fc" ∷ "fd" ∷ []) (ground (arith, h)) in
    let b = no_prefix low ("fe8" ∷ "fe9" ∷ "fea" ∷ "feb" ∷ []) (ground (arith, h)) in
    let c = no_prefix low ("ff" ∷ []) (ground (arith, h)) in
    record {
      no_loopback = λ e. ground (arith, h, str_eq_iff low "::1", e);
      no_long_loopback = λ e. ground (arith, h, str_eq_iff low "0:0:0:0:0:0:0:1", e);
      no_range = (a.0, (a.1.0, (b.0, (b.1.0, (b.1.1.0, (b.1.1.1.0, (c.0, tt)))))));
      no_embedded = λ v4 e. is_unsafe_ipv4-IsPublicV4 (p.octets v4) (ground (arith, h, e));
    }

is_unsafe_address-IsPublicAddress :
    (p : UrlPlatform) (address : String)
    → is_unsafe_address p address ≡ false
    → IsPublicAddress p address
unfolding is_unsafe_address
is_unsafe_address-IsPublicAddress p address h = record {
  v4 = λ e. is_unsafe_ipv4-IsPublicV4 (p.octets address) (ground (arith, h, e));
  v6 = λ e. is_unsafe_ipv6-IsPublicV6 p address (ground (arith, h, e));
}

none_unsafe-IsPublicAddress :
    (p : UrlPlatform) (addresses : List String)
    → any (is_unsafe_address p) addresses ≡ false
    → All (IsPublicAddress p) addresses
none_unsafe-IsPublicAddress p [] h = tt
none_unsafe-IsPublicAddress p (x ∷ xs) h = (
  is_unsafe_address-IsPublicAddress p x (ground (arith, h)),
  none_unsafe-IsPublicAddress p xs (ground (arith, h)),
)

is_private-public :
    (p : UrlPlatform) (origins : List String) (url : Url)
    → is_private p origins url ≡ false
    → IsPublicAddress p url.hostname ⊎ IsAllowedLoopback p origins url.hostname
unfolding is_explicit_loopback_origin
is_private-public p origins url h = elim (Bool-cases (is_unsafe_address p url.hostname)) [
  | inl unsafe ↦ inr (ground (arith, h, unsafe), ground (arith, h, unsafe))
  | inr safe ↦ inl (is_unsafe_address-IsPublicAddress p url.hostname safe)
]

any-matches :
    (p : UrlPlatform) (url : Url) (origins : List String)
    → any (λ origin. origin_matches_url p origin url) origins ≡ true
    → (origin : String) × (includes origins origin ≡ true) × MatchesUrl p url origin
unfolding origin_matches_url
any-matches p url [] h = ground (arith, h)
any-matches p url (x ∷ xs) h = elim (Bool-cases (origin_matches_url p x url)) [
  | inl here ↦ (x, ground (arith, str_eq_iff x x), matches here)
  | inr not_here ↦
      (let (origin, listed, same) = any-matches p url xs (ground (arith, h, not_here)) in
        (origin, ground (arith, listed), same))
]
  where
    matches : origin_matches_url p x url ≡ true → MatchesUrl p url x
    matches e = elim (Bool-cases (p.ends_with_any_port x)) [
      | inl any_port ↦ inr (any_port, (str_eq_iff _ x).0 (ground (arith, e, any_port)))
      | inr own_port ↦ inl (own_port, (str_eq_iff url.origin x).0 (ground (arith, e, own_port)))
    ]

is_literal-name :
    (p : UrlPlatform) (url : Url)
    → p.ip_version url.hostname ≡ 0
    → p.lower url.hostname ≢ "localhost"
    → is_literal p url ≡ false
is_literal-name p url name ne = elim (Bool-cases (str_eq (p.lower url.hostname) "localhost")) [
  | inl same ↦ absurd (ne ((str_eq_iff (p.lower url.hostname) "localhost").0 same))
  | inr other ↦ ground (arith, name, other)
]

throw_if-ok : (bad : Bool) (e : Denial) → throw_if bad e ≡ ok tt → bad ≡ false
throw_if-ok true e h = ground (arith, h)
throw_if-ok false e h = refl

-- What `check` tests.
abbrev Passed : UrlPlatform → List String → Url → Type 0
Passed p origins url =
    (includes ("http:" ∷ "https:" ∷ []) url.protocol ≡ true)
    × ((truthy url.username || truthy url.password) ≡ false)
    × (any (λ origin. origin_matches_url p origin url) origins ≡ true)
    × (is_private p origins url ≡ false)

check-Passed :
    (p : UrlPlatform) (origins : List String) (value : String) (url : Url)
    → check p origins value ≡ ok url
    → Passed p origins url
unfolding check
check-Passed p origins value url h =
    let web : Url → Bool = λ u. not (includes ("http:" ∷ "https:" ∷ []) u.protocol) in
    let named : Url → Bool = λ u. truthy u.username || truthy u.password in
    let other : Url → Bool = λ u. not (any (λ origin. origin_matches_url p origin u) origins) in
    let last : Url → Result Denial Url =
      λ u. throw_if (is_private p origins u) private_network >> ok u in
    let third : Url → Result Denial Url = λ u. throw_if (other u) origin_denied >> last u in
    let second : Url → Result Denial Url = λ u. throw_if (named u) credentials_denied >> third u in
    let first : Url → Result Denial Url = λ u. throw_if (web u) scheme_denied >> second u in
    let (u, _, h0) = >>=-eq-ok (parsed (p.parse value)) first h in
    let a = >>-eq-ok (throw_if (web u) scheme_denied) (second u) h0 in
    let b = >>-eq-ok (throw_if (named u) credentials_denied) (third u) a.1 in
    let c = >>-eq-ok (throw_if (other u) origin_denied) (last u) b.1 in
    let d = >>-eq-ok (throw_if (is_private p origins u) private_network) (ok u) c.1 in
    let same : u ≡ url = ground (arith, d.1) in
    subst (Passed p origins) same (
      ground (arith, throw_if-ok (web u) scheme_denied a.0),
      throw_if-ok (named u) credentials_denied b.0,
      ground (arith, throw_if-ok (other u) origin_denied c.0),
      throw_if-ok (is_private p origins u) private_network d.0,
    )

-- What the resolution of a name adds.
abbrev Resolves : UrlPlatform → Option (List String) → Url → Type 0
Resolves p addresses url =
    is_literal p url ≡ false
    → (found : List String) × (addresses ≡ some found) × (any (is_unsafe_address p) found ≡ false)

abbrev resolve_name : UrlPlatform → Option (List String) → Url → Result Denial Url
resolve_name p addresses url =
    if is_literal p url
    then ok url
    else resolved addresses >>= λ found.
        throw_if (any (is_unsafe_address p) found) resolves_to_private >> ok url

resolve_name-Resolves :
    (p : UrlPlatform) (addresses : Option (List String)) (u url : Url)
    → resolve_name p addresses u ≡ ok url
    → (u ≡ url) × Resolves p addresses u
resolve_name-Resolves p addresses u url h = elim (Bool-cases (is_literal p u)) [
  | inl literal ↦ (ground (arith, h, literal), λ name. ground (arith, literal, name))
  | inr name ↦ elim (Option-cases addresses) [
    | inl none_found ↦ ground (arith, h, name, none_found)
    | inr (found, at) ↦ elim (Bool-cases (any (is_unsafe_address p) found)) [
      | inl unsafe ↦ ground (arith, h, name, at, unsafe)
      | inr safe ↦ (ground (arith, h, name, at, safe), λ _. (found, at, safe))
    ]
  ]
]

-- A URL is let through only if it is a web URL without credentials, its origin is one of the guard's
-- or its host is allowed under any port, its host is no address of a reserved network except a
-- loopback that the guard names, and a host that is a name other than `localhost` resolves to
-- addresses outside of the reserved networks only.
pub assert_allowed_async-IsAllowedUrl :
    (p : UrlPlatform) (origins : List String) (addresses : Option (List String)) (value : String)
    (url : Url)
    → assert_allowed_async p origins addresses value ≡ ok url
    → IsAllowedUrl p origins addresses url
unfolding assert_allowed_async check
assert_allowed_async-IsAllowedUrl p origins addresses value url h =
    let (u, checked, rest) = >>=-eq-ok (check p origins value) (resolve_name p addresses) h in
    let named = resolve_name-Resolves p addresses u url rest in
    let passed = subst (Passed p origins) named.0 (check-Passed p origins value u checked) in
    let resolves = subst (Resolves p addresses) named.0 named.1 in
    record {
      web =
          ground
            (arith, passed.0, str_eq_iff url.protocol "http:", str_eq_iff url.protocol "https:");
      anonymous = ground (arith, passed.1);
      listed = any-matches p url origins passed.2;
      public = is_private-public p origins url passed.3;
      resolves = λ name ne.
          (let (found, at, safe) = resolves (is_literal-name p url name ne) in
            (found, at, none_unsafe-IsPublicAddress p found safe));
    }
