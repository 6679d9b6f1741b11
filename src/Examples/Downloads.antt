-- ===== src/Examples/Downloads.antt =====
-- The download of an archive over a small network.
use mcptrust.Base.{
  suc, ◌≤◌, ◌≡◌, refl, true, false, none, some, [], ◌∷◌, All, length, codes, bytes_eq, ok, err,
}
use mcptrust.Json.{pos}
use mcptrust.Tarball.{
  TarballConfig, Network, redirect, answer, download_tarball, redirect_limit,
  is_private_or_reserved_ip, private_resolved,
}
use mcptrust.Tarball.Safe.{IsPublicHop, download_tarball_public}

abbrev careful : TarballConfig
careful = record { allow_private_hosts = false; max_redirects = pos 0; max_size = pos 100 }

-- "a" redirects to "b", which has an archive. Names resolve to 8.8.8.8, but "c" to 10.0.0.1 as well.
abbrev small_network : Network
small_network = record {
  parse_url = λ url. some (record { scheme = codes "https"; hostname = url });
  parse_ip = λ host. none;
  to_lower = λ s. s;
  host_of = λ url. ok url;
  lookup_ip = λ host. ok (elim (bytes_eq host (codes "c")) [
    | true ↦ (8 ∷ 8 ∷ 8 ∷ 8 ∷ []) ∷ (10 ∷ 0 ∷ 0 ∷ 1 ∷ []) ∷ []
    | false ↦ (8 ∷ 8 ∷ 8 ∷ 8 ∷ []) ∷ []
  ]);
  connect_any = λ url. ok [];
  reply = λ url ip. elim (bytes_eq url (codes "a")) [
    | true ↦ redirect (codes "b")
    | false ↦ answer 200 (codes "tgz")
  ];
}

fetched :
    download_tarball small_network careful (codes "a")
    ≡ ((codes "a", 8 ∷ 8 ∷ 8 ∷ 8 ∷ []) ∷ (codes "b", 8 ∷ 8 ∷ 8 ∷ 8 ∷ []) ∷ [], ok (codes "tgz"))
unfolding download_tarball bytes_eq redirect_limit
fetched = refl

rebound : download_tarball small_network careful (codes "c") ≡ ([], err private_resolved)
unfolding download_tarball bytes_eq redirect_limit
rebound = refl

-- 10.0.0.1 in 16 bytes, 100.64.0.1 and ::1.
private_addresses :
    (is_private_or_reserved_ip
        (0 ∷ 0 ∷ 0 ∷ 0 ∷ 0 ∷ 0 ∷ 0 ∷ 0 ∷ 0 ∷ 0 ∷ 255 ∷ 255 ∷ 10 ∷ 0 ∷ 0 ∷ 1 ∷ [])
      ≡ true)
    × (is_private_or_reserved_ip (100 ∷ 64 ∷ 0 ∷ 1 ∷ []) ≡ true)
    × (is_private_or_reserved_ip
          (0 ∷ 0 ∷ 0 ∷ 0 ∷ 0 ∷ 0 ∷ 0 ∷ 0 ∷ 0 ∷ 0 ∷ 0 ∷ 0 ∷ 0 ∷ 0 ∷ 0 ∷ 1 ∷ [])
        ≡ true)
unfolding is_private_or_reserved_ip bytes_eq
private_addresses = (refl, refl, refl)

download_tarball_public_example :
    All (IsPublicHop small_network careful) (download_tarball small_network careful (codes "a")).0
    × (length (download_tarball small_network careful (codes "a")).0 ≤ suc (redirect_limit careful))
download_tarball_public_example = download_tarball_public small_network careful (codes "a") refl
