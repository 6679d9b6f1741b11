-- ===== src/Tarball/Safe.antt =====
-- DownloadTarball of netutil/tarball.go: which hosts it connects to.
use mcptrust.Base.{
  ℕ, zero, suc, ◌≤◌, ◌≡◌, refl, ◌∙◌, ap, sym, subst, ◌⊎◌, inl, inr, false, Option, none, some, List,
  [], ◌∷◌, arith, Bool-cases, or_false, length, All, Bytes, codes, bytes_eq, bytes_eq_iff, Result,
  ok, err, >>=-eq-ok, ok-injective,
}
use mcptrust.Tarball.{
  TarballError, other_scheme, too_many_redirects, private_resolved, TarballConfig, Url, Network,
  is_private_or_reserved_ip, validate_host_not_private, validate_parsed, validate_tarball_url,
  any_private, first_safe, safe_dial_context, dial, redirect_checked, check_redirect, Reply,
  no_reply, answer, redirect, Trace, Hop, stop, go_on, hop_reply, hop_dialled, hop, go_to, follow,
  start, redirect_limit, download_tarball,
}

module _ (net : Network) (config : TarballConfig) where
  -- The URL was parsed, with the scheme https, and its host is not localhost and not written as a
  -- private address.
  abbrev pub IsPublicUrl : Bytes → Type 0
  IsPublicUrl url =
      (parsed : Url) × (net.parse_url url ≡ some parsed)
      × (parsed.scheme ≡ codes "https")
      × (validate_host_not_private net (net.to_lower parsed.hostname) ≡ ok tt)

  -- A connection to a public URL, at an address that is neither private nor reserved.
  abbrev pub IsPublicHop : Bytes × List ℕ → Type 0
  IsPublicHop (url, ip) = IsPublicUrl url × (is_private_or_reserved_ip ip ≡ false)

  validate_parsed-ok :
      (o : Option Url)
      → validate_parsed net false o ≡ ok tt
      → (parsed : Url) × (o ≡ some parsed)
        × (parsed.scheme ≡ codes "https")
        × (validate_host_not_private net (net.to_lower parsed.hostname) ≡ ok tt)
  unfolding validate_parsed
  validate_parsed-ok none h = cc
  validate_parsed-ok (some url) h = elim (Bool-cases (bytes_eq url.scheme (codes "https"))) [
    | inl e ↦ (
      url,
      refl,
      (bytes_eq_iff url.scheme (codes "https")).0 e,
      (let same : validate_parsed net false (some url)
              ≡ validate_host_not_private net (net.to_lower url.hostname) =
            rw (e) refl in
          sym same ∙ h),
    )
    | inr e ↦ (let no : validate_parsed net false (some url) ≡ err other_scheme = rw (e) refl in cc)
  ]

  validate-IsPublicUrl :
      (url : Bytes) → validate_tarball_url net url false ≡ ok tt → IsPublicUrl url
  unfolding validate_tarball_url
  validate-IsPublicUrl [] h = cc
  validate-IsPublicUrl (c ∷ url) h = validate_parsed-ok (net.parse_url (c ∷ url)) h

  first_safe_public :
      (ips : List (List ℕ)) (ip : List ℕ)
      → first_safe net ips ≡ ok ip
      → is_private_or_reserved_ip ip ≡ false
  unfolding first_safe any_private
  first_safe_public [] ip h = cc
  first_safe_public (first ∷ ips) ip h = elim (Bool-cases (any_private net (first ∷ ips))) [
    | inl e ↦ (let no : first_safe net (first ∷ ips) ≡ err private_resolved = rw (e) refl in cc)
    | inr e ↦
        (let yes : first_safe net (first ∷ ips) ≡ ok first = rw (e) refl in
          subst (λ x. is_private_or_reserved_ip x ≡ false) (ok-injective first ip _ yes h)
            (or_false (is_private_or_reserved_ip first) (any_private net ips) e).0)
  ]

  module _ (public : config.allow_private_hosts ≡ false) where
    redirect_checked-ok :
        (previous target : Bytes) (r : Result {0} TarballError Unit)
        → redirect_checked net previous target r ≡ ok tt
        → r ≡ ok tt
    unfolding redirect_checked
    redirect_checked-ok previous target (err e) h = cc
    redirect_checked-ok previous target (ok u) h = refl

    dial_public :
        (url : Bytes) (ip : List ℕ)
        → dial net config url ≡ ok ip
        → is_private_or_reserved_ip ip ≡ false
    unfolding dial safe_dial_context
    dial_public url ip h =
        let safely : dial net config url ≡ safe_dial_context net url = rw (public) refl in
        let host = >>=-eq-ok (net.host_of url) _ (sym safely ∙ h) in
        let ips = >>=-eq-ok (net.lookup_ip host.0) _ host.2 in first_safe_public ips.0 ip ips.2

    redirect-IsPublicUrl :
        (previous target : Bytes)
        → check_redirect net config previous target ≡ ok tt
        → IsPublicUrl target
    unfolding check_redirect
    redirect-IsPublicUrl previous target h = validate-IsPublicUrl target (
        ap (validate_tarball_url net target) (sym public)
        ∙ redirect_checked-ok previous target
            (validate_tarball_url net target config.allow_private_hosts) h)

    -- The connections of one round are public where its URL is.
    abbrev HopPublic : Bytes → Hop → Type 0
    HopPublic url (stop trace r) = All IsPublicHop trace × (length trace ≤ 1)
    HopPublic url (go_on ip target) = is_private_or_reserved_ip ip ≡ false

    reply_public :
        (url : Bytes) (ip : List ℕ) (reply : Reply)
        → IsPublicUrl url
        → is_private_or_reserved_ip ip ≡ false
        → HopPublic url (hop_reply net config url ip reply)
    unfolding hop_reply
    reply_public url ip no_reply p s = (((p, s), tt), omega arith)
    reply_public url ip (answer status body) p s = (((p, s), tt), omega arith)
    reply_public url ip (redirect target) p s = s

    dialled_public :
        (url : Bytes) (r : Result TarballError (List ℕ))
        → IsPublicUrl url
        → dial net config url ≡ r
        → HopPublic url (hop_dialled net config url r)
    unfolding hop_dialled
    dialled_public url (err e) p h = (tt, omega arith)
    dialled_public url (ok ip) p h = reply_public url ip (net.reply url ip) p (dial_public url ip h)

    -- The trace of a download with the redirects that are left.
    abbrev TracePublic : ℕ → Trace → Type 0
    TracePublic left trace = All IsPublicHop trace × (length trace ≤ suc left)

    go_to_public :
        (left : ℕ) (url : Bytes) (ip : List ℕ) (target : Bytes)
        (checked : Result {0} TarballError Unit) (rest : Trace × Result TarballError Bytes)
        → IsPublicHop (url, ip)
        → (checked ≡ ok tt → TracePublic left rest.0)
        → TracePublic (suc left) (go_to net url ip checked rest).0
    unfolding go_to
    go_to_public left url ip target (err e) rest p h = ((p, tt), omega arith)
    go_to_public left url ip target (ok u) rest p h = ((p, (h refl).0), omega (arith, (h refl).1))

    hop_public : (url : Bytes) → IsPublicUrl url → HopPublic url (hop net config url)
    unfolding hop
    hop_public url p = dialled_public url (dial net config url) p refl

    Hop-cases :
        (o : Hop)
        → ((trace : Trace) × (r : Result TarballError Bytes) × (o ≡ stop trace r))
          ⊎ ((ip : List ℕ) × (target : Bytes) × (o ≡ go_on ip target))
    Hop-cases (stop trace r) = inl (trace, r, refl)
    Hop-cases (go_on ip target) = inr (ip, target, refl)

    follow-stop :
        (left : ℕ) (url : Bytes) (trace : Trace) (r : Result TarballError Bytes)
        → hop net config url ≡ stop trace r
        → follow net config left url ≡ (trace, r)
    unfolding follow
    follow-stop zero url trace r e = rw (e, follow) refl
    follow-stop (suc left) url trace r e = rw (e, follow) refl

    follow-last :
        (url : Bytes) (ip : List ℕ) (target : Bytes)
        → hop net config url ≡ go_on ip target
        → follow net config zero url ≡ ((url, ip) ∷ [], err too_many_redirects)
    unfolding follow
    follow-last url ip target e = rw (e, follow) refl

    follow-next :
        (left : ℕ) (url : Bytes) (ip : List ℕ) (target : Bytes)
        → hop net config url ≡ go_on ip target
        → follow net config (suc left) url
          ≡ go_to net url ip (check_redirect net config url target) (follow net config left target)
    unfolding follow
    follow-next left url ip target e = rw (e, follow) refl

    stop_public :
        (left : ℕ) (url : Bytes) (trace : Trace) (r : Result TarballError Bytes)
        → IsPublicUrl url
        → hop net config url ≡ stop trace r
        → TracePublic left (follow net config left url).0
    stop_public left url trace r p e =
        let h = subst (HopPublic url) e (hop_public url p) in
        subst (λ f. TracePublic left f.0) (sym (follow-stop left url trace r e))
          (h.0, omega (arith, h.1))

    follow_public :
        (left : ℕ) (url : Bytes) → IsPublicUrl url → TracePublic left (follow net config left url).0
    follow_public zero url p = elim (Hop-cases (hop net config url)) [
      | inl (trace, r, e) ↦ stop_public zero url trace r p e
      | inr (ip, target, e) ↦
          subst (λ f. TracePublic zero f.0) (sym (follow-last url ip target e))
            (((p, subst (HopPublic url) e (hop_public url p)), tt), omega arith)
    ]
    follow_public (suc left) url p = elim (Hop-cases (hop net config url)) [
      | inl (trace, r, e) ↦ stop_public (suc left) url trace r p e
      | inr (ip, target, e) ↦
          subst (λ f. TracePublic (suc left) f.0) (sym (follow-next left url ip target e))
            (go_to_public left url ip target (check_redirect net config url target)
              (follow net config left target) (p, subst (HopPublic url) e (hop_public url p))
              (λ checked. follow_public left target (redirect-IsPublicUrl url target checked)))
    ]

    start_public :
        (url : Bytes) (left : ℕ) (r : Result {0} TarballError Unit)
        → validate_tarball_url net url config.allow_private_hosts ≡ r
        → TracePublic left (start net config left url r).0
    unfolding start
    start_public url left (err e) h = (tt, omega arith)
    start_public url left (ok u) h =
        follow_public left url
          (validate-IsPublicUrl url (ap (validate_tarball_url net url) (sym public) ∙ h))

  -- Unless private hosts are allowed, a download connects only to URLs with the scheme https whose host
  -- is not localhost and not written as a private or reserved address, and only at addresses that are
  -- neither private nor reserved, whatever the names resolve to and wherever the servers redirect it.
  -- It makes at most one connection more than redirects are allowed.
  pub download_tarball_public :
      (url : Bytes)
      → config.allow_private_hosts ≡ false
      → All IsPublicHop (download_tarball net config url).0
        × (length (download_tarball net config url).0 ≤ suc (redirect_limit config))
  unfolding download_tarball
  download_tarball_public url public =
      start_public public url (redirect_limit config)
        (validate_tarball_url net url config.allow_private_hosts) refl
