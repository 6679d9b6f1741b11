-- ===== src/Tarball.antt =====
-- netutil/tarball.go: the download of an archive from a host that may be hostile. Package net/url, the
-- resolver and the servers are parameters; an address is the list of its 4 or 16 bytes, as in
-- package net, whose tests of addresses are written out.
use mcptrust.Base.{
  ℕ, zero, suc, ◌+◌, ◌/◌, ◌%◌, Bool, true, false, not, ◌&&◌, ◌||◌, Option, none, some, List, [],
  ◌∷◌, ◌++◌, ◌==◌, ltb, leb, if◌then◌else◌, is_empty, length, take, drop, Bytes, codes, bytes_eq,
  Result, ok, err, ◌>>=◌,
}
use mcptrust.Json.{ℤ, pos, negsuc}
pub mod Safe

pub data TarballError : Type 0 where
  empty_url malformed_url other_scheme local_host private_address private_resolved no_address :
      TarballError
  too_many_redirects insecure_redirect downgrade bad_status too_large no_connection : TarballError

pub record TarballConfig : Type 0 where
  pub allow_private_hosts : Bool
  pub max_redirects : ℤ
  -- A size that is not positive is no limit.
  pub max_size : ℤ

pub record Url : Type 0 where
  pub scheme : Bytes
  pub hostname : Bytes

abbrev Quad : Type 0
Quad = ℕ × ℕ × ℕ × ℕ

quad : List ℕ → Option Quad
quad (a ∷ b ∷ c ∷ d ∷ []) = some (a, b, c, d)
quad ip = none

abbrev zeros : ℕ → List ℕ
zeros zero = []
zeros (suc n) = 0 ∷ zeros n

-- IP.To4 of package net: the four bytes of an IPv4 address, also in its form of 16 bytes.
unfoldable pub to4 : List ℕ → Option Quad
unfolding quad
to4 ip =
    if length ip == 16 && bytes_eq (take 12 ip) (zeros 10 ++ (255 ∷ 255 ∷ []))
    then quad (drop 12 ip)
    else quad ip

first_byte : List ℕ → ℕ
first_byte [] = 0
first_byte (a ∷ ip) = a

second_byte : List ℕ → ℕ
unfolding first_byte
second_byte [] = 0
second_byte (a ∷ ip) = first_byte ip

-- IsLoopback, IsPrivate, IsLinkLocalUnicast, IsLinkLocalMulticast, IsUnspecified and IsMulticast of
-- package net, on the four bytes of an IPv4 address and on another address.
is_local_v4 : Quad → Bool
is_local_v4 (a, b, c, d) =
    a == 127
    || ((a == 10 || ((a == 172 && b / 16 == 1) || (a == 192 && b == 168)))
        || ((a == 169 && b == 254)
            || ((a == 224 && (b == 0 && c == 0))
                || ((a == 0 && (b == 0 && (c == 0 && d == 0))) || a / 16 == 14))))

is_local_v6 : List ℕ → Bool
unfolding first_byte second_byte
is_local_v6 ip =
    bytes_eq ip (zeros 15 ++ (1 ∷ []))
    || (bytes_eq ip (zeros 16)
        || (length ip == 16
            && (first_byte ip / 2 == 126
                || ((first_byte ip == 254 && second_byte ip / 64 == 2)
                    || ((first_byte ip == 255 && second_byte ip % 16 == 2)
                        || first_byte ip == 255)))))

-- The ranges that the code tests itself.
is_reserved_v4 : Quad → Bool
is_reserved_v4 (a, b, c, d) =
    a == 0
    || ((a == 169 && b == 254)
        || ((a == 100 && (leb 64 b && leb b 127))
            || ((a == 198 && (b == 18 || b == 19))
                || ((a == 192 && (b == 0 && c == 0))
                    || ((a == 192 && (b == 0 && c == 2))
                        || ((a == 198 && (b == 51 && c == 100))
                            || ((a == 203 && (b == 0 && c == 113))
                                || (leb 240 a
                                    || (a == 255 && (b == 255 && (c == 255 && d == 255)))))))))))

unfoldable pub is_private_or_reserved_ip : List ℕ → Bool
unfolding to4 is_local_v4 is_local_v6 is_reserved_v4
is_private_or_reserved_ip ip = elim (to4 ip) [
  | some q ↦ is_local_v4 q || is_reserved_v4 q
  | none ↦ is_local_v6 ip
]

-- url.Parse, net.ParseIP, the address of a URL's host, the resolver, and the reply of a server.
pub data Reply : Type 0 where
  redirect : Bytes → Reply
  answer : ℕ → Bytes → Reply
  no_reply : Reply

pub record Network : Type 0 where
  pub parse_url : Bytes → Option Url
  pub parse_ip : Bytes → Option (List ℕ)
  pub to_lower : Bytes → Bytes
  -- The host of the connection for a URL, after SplitHostPort.
  pub host_of : Bytes → Result TarballError Bytes
  pub lookup_ip : Bytes → Result TarballError (List (List ℕ))
  -- A connection without the safe dialer.
  pub connect_any : Bytes → Result TarballError (List ℕ)
  pub reply : Bytes → List ℕ → Reply

-- A limit of 0 redirects stands for 5; a negative one allows none.
limit_of : ℤ → ℕ
limit_of (pos zero) = 5
limit_of (pos (suc n)) = suc n
limit_of (negsuc n) = 0

unfoldable pub redirect_limit : TarballConfig → ℕ
unfolding limit_of
redirect_limit config = limit_of config.max_redirects

-- The connections that were made: the URL and the address.
abbrev pub Trace : Type 0
Trace = List (Bytes × List ℕ)

-- The outcome of a connection: the end, or a redirect.
pub data Hop : Type 0 where
  stop : Trace → Result TarballError Bytes → Hop
  go_on : List ℕ → Bytes → Hop

module _ (net : Network) where
  unfoldable pub validate_host_not_private : Bytes → Result {0} TarballError Unit
  unfolding is_private_or_reserved_ip
  validate_host_not_private host =
      if bytes_eq host (codes "localhost") then err local_host else elim (net.parse_ip host) [
        | none ↦ ok tt
        | some ip ↦ if is_private_or_reserved_ip ip then err private_address else ok tt
      ]

  validate_parsed : Bool → Option Url → Result {0} TarballError Unit
  unfolding validate_host_not_private
  validate_parsed allow_private none = err malformed_url
  validate_parsed allow_private (some url) =
      if not (bytes_eq url.scheme (codes "https"))
      then err other_scheme
      else if allow_private
      then ok tt
      else validate_host_not_private (net.to_lower url.hostname)

  unfoldable pub validate_tarball_url : Bytes → Bool → Result {0} TarballError Unit
  unfolding validate_parsed
  validate_tarball_url url allow_private =
      if is_empty url then err empty_url else validate_parsed allow_private (net.parse_url url)

  -- The loop of safeDialContext: one private address refuses them all.
  unfoldable pub any_private : List (List ℕ) → Bool
  unfolding is_private_or_reserved_ip
  any_private [] = false
  any_private (ip ∷ ips) = is_private_or_reserved_ip ip || any_private ips

  first_safe : List (List ℕ) → Result TarballError (List ℕ)
  unfolding any_private
  first_safe [] = err no_address
  first_safe (ip ∷ ips) = if any_private (ip ∷ ips) then err private_resolved else ok ip

  -- The address that is dialled.
  unfoldable pub safe_dial_context : Bytes → Result TarballError (List ℕ)
  unfolding first_safe
  safe_dial_context url = net.host_of url >>= λ host. net.lookup_ip host >>= λ ips. first_safe ips

  unfoldable pub dial : TarballConfig → Bytes → Result TarballError (List ℕ)
  unfolding safe_dial_context
  dial config url =
      if config.allow_private_hosts then net.connect_any url else safe_dial_context url

  has_scheme : Option Url → Bytes → Bool
  has_scheme none scheme = false
  has_scheme (some url) scheme = bytes_eq url.scheme scheme

  redirect_checked : Bytes → Bytes → Result {0} TarballError Unit → Result {0} TarballError Unit
  unfolding has_scheme
  redirect_checked previous target (err e) = err insecure_redirect
  redirect_checked previous target (ok u) =
      if has_scheme (net.parse_url previous) (codes "https")
        && has_scheme (net.parse_url target) (codes "http")
      then err downgrade
      else ok tt

  -- CheckRedirect, behind the count of redirects.
  unfoldable pub check_redirect : TarballConfig → Bytes → Bytes → Result {0} TarballError Unit
  unfolding validate_tarball_url redirect_checked
  check_redirect config previous target =
      redirect_checked previous target (validate_tarball_url target config.allow_private_hosts)

  -- The body, cut by io.LimitReader one byte behind the limit.
  limit_body : ℤ → Bytes → Result TarballError Bytes
  limit_body (negsuc n) body = ok body
  limit_body (pos zero) body = ok body
  limit_body (pos (suc n)) body =
      let cut = take (suc (suc n)) body in
      if ltb (suc n) (length cut) then err too_large else ok cut

  unfoldable pub read_body : TarballConfig → ℕ → Bytes → Result TarballError Bytes
  unfolding limit_body
  read_body config status body =
      if not (status == 200) then err bad_status else limit_body config.max_size body

  hop_reply : TarballConfig → Bytes → List ℕ → Reply → Hop
  unfolding read_body
  hop_reply config url ip no_reply = stop ((url, ip) ∷ []) (err no_connection)
  hop_reply config url ip (answer status body) =
      stop ((url, ip) ∷ []) (read_body config status body)
  hop_reply config url ip (redirect target) = go_on ip target

  hop_dialled : TarballConfig → Bytes → Result TarballError (List ℕ) → Hop
  unfolding hop_reply
  hop_dialled config url (err e) = stop [] (err e)
  hop_dialled config url (ok ip) = hop_reply config url ip (net.reply url ip)

  -- One connection of client.Do.
  unfoldable pub hop : TarballConfig → Bytes → Hop
  unfolding hop_dialled dial
  hop config url = hop_dialled config url (dial config url)

  go_to :
      Bytes
      → List ℕ
      → Result {0} TarballError Unit
      → Trace × Result TarballError Bytes
      → Trace × Result TarballError Bytes
  go_to url ip (err e) rest = ((url, ip) ∷ [], err e)
  go_to url ip (ok u) rest = ((url, ip) ∷ rest.0, rest.1)

  -- client.Do with the redirects that are left: the connections that were made, and the body.
  unfoldable pub follow : TarballConfig → ℕ → Bytes → Trace × Result TarballError Bytes
  unfolding hop check_redirect go_to
  follow config zero url = elim (hop config url) [
    | stop trace r ↦ (trace, r)
    | go_on ip target ↦ ((url, ip) ∷ [], err too_many_redirects)
  ]
  follow config (suc left) url = elim (hop config url) [
    | stop trace r ↦ (trace, r)
    | go_on ip target ↦ go_to url ip (check_redirect config url target) (follow config left target)
  ]

  start :
      TarballConfig → ℕ → Bytes → Result {0} TarballError Unit → Trace × Result TarballError Bytes
  unfolding follow
  start config left url (err e) = ([], err e)
  start config left url (ok u) = follow config left url

  unfoldable pub download_tarball : TarballConfig → Bytes → Trace × Result TarballError Bytes
  unfolding validate_tarball_url start
  download_tarball config url =
      start config (redirect_limit config) url (validate_tarball_url url config.allow_private_hosts)
