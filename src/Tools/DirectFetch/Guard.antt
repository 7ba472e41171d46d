-- ===== src/Tools/DirectFetch/Guard.antt =====
-- What the guard lets through, and where requests are sent.
use edufurther_agent_be.Base.{
  All-append, ℕ, ◌≤◌, ◌≡◌, ◌≢◌, ◌⊎◌, inl, inr, Bool, true, none, some, List, [], ◌∷◌, ◌++◌, Text,
  length, length-append, arith, is_empty, all, Bool-cases, Option-cases, All,
}
use edufurther_agent_be.Errors.{Result, ok, Result-cases}
use edufurther_agent_be.Tools.Urls.{canonicalize_url}
use edufurther_agent_be.Tools.DirectFetch.{
  Network, Response, IpAddress, is_public_address, is_public_host, host_of, is_approved,
  validate_source_url, restore_trailing_slash, get_once, follow, fetch_source,
}

abbrev pub Public : Network → IpAddress → Type 0
Public net ip = is_public_address net ip ≡ true

all-All :
    (net : Network) (ips : List IpAddress)
    → all (is_public_address net) ips ≡ true
    → All (Public net) ips
all-All net [] h = tt
all-All net (ip ∷ ips) h = ground (arith, all-All net ips)

abbrev nothing : Response
nothing = record { status_code = 0; location = none; content_type = []; chunks = [] }

-- A host that resolves to at least one address, each of them public.
abbrev pub HasPublicHost : Network → Text → Type 0
HasPublicHost net host =
    (ips : List IpAddress) × (net.getaddrinfo host ≡ some ips) × (ips ≢ []) × All (Public net) ips

is_public_host-true :
    (net : Network) (host : Text) → is_public_host net host ≡ ok true → HasPublicHost net host
unfolding is_public_host
is_public_host-true net host h = elim (Option-cases (net.getaddrinfo host)) [
  | inl e ↦ absurd (ground arith)
  | inr (ips, e) ↦
      let found : all (is_public_address net) ips ≡ true = ground arith in
      (ips, e, ground arith, all-All net ips found)
]

module _ (net : Network) (approved : List Text) (any_domain : Bool) where
  -- What the guard has seen of a URL that it lets through.
  abbrev pub Vetted : Text → Type 0
  Vetted validated =
      (url : Text) × (normalized : Text) × (canonicalize_url net.urls url ≡ some normalized)
      × (validated ≡ restore_trailing_slash net.urls url normalized)
      × HasPublicHost net (host_of net.urls normalized)
      × ((any_domain ≡ true) ⊎ (is_approved approved (host_of net.urls normalized) ≡ true))

  -- Whatever the guard lets through is a canonical http or https URL, up to a trailing slash, whose
  -- host resolves to public addresses alone; and the host is in an approved domain unless the caller
  -- asked for any public one.
  pub validate_source_url-Vetted :
      (url v : Text) → validate_source_url net approved any_domain url ≡ ok v → Vetted v
  unfolding validate_source_url
  validate_source_url-Vetted url v h = elim (Option-cases (canonicalize_url net.urls url)) [
    | inl e ↦ absurd (ground arith)
    | inr (n, e) ↦
        let public : is_public_host net (host_of net.urls n) ≡ ok true = ground arith in
        (url, n, e, ground arith, is_public_host-true net (host_of net.urls n) public, ground arith)
  ]

  abbrev once : Text → Result (Response × Text) × List Text
  once = get_once net approved any_domain

  get_once-sent :
      (url : Text)
      → ((once url).1 ≡ [])
        ⊎ ((v : Text) × (validate_source_url net approved any_domain url ≡ ok v)
            × ((once url).1 ≡ v ∷ []))
  unfolding get_once
  get_once-sent url = elim (Result-cases (validate_source_url net approved any_domain url)) [
    | inl (exc, e) ↦ inl (ground arith)
    | inr (v, e) ↦ inr (v, e, ground arith)
  ]

  -- At most so many requests, each to a URL that the guard let through.
  abbrev pub Sends : ℕ → List Text → Type 0
  Sends n sent = All Vetted sent × (length sent ≤ n)

  get_once-Sends : (url : Text) → Sends 1 (once url).1
  get_once-Sends url = elim (get_once-sent url) [
    | inl e ↦ rw e (tt, omega arith)
    | inr (v, e, s) ↦ rw s ((validate_source_url-Vetted url v e, tt), omega arith)
  ]

  follow-sent :
      (n : ℕ) (r : Response) (url : Text)
      → ((follow net approved any_domain n r url).1 ≡ [])
        ⊎ ((next : Text) × ((follow net approved any_domain n r url).1 ≡ (once next).1))
  unfolding follow
  follow-sent n r url = elim (Option-cases r.location) [
    | inl e ↦ inl (ground arith)
    | inr (location, e) ↦ elim (Bool-cases (is_empty location)) [
      | inl y ↦ inl (ground arith)
      | inr f ↦ inr (net.urljoin url location, ground arith)
    ]
  ]

  follow-Sends :
      (n : ℕ) (r : Response) (url : Text) → Sends 1 (follow net approved any_domain n r url).1
  follow-Sends n r url = elim (follow-sent n r url) [
    | inl e ↦ rw e (tt, omega arith)
    | inr (next, e) ↦ rw e (get_once-Sends next)
  ]

  fetch_source-sent :
      (n : ℕ) (url : Text)
      → ((fetch_source net approved any_domain n url).1 ≡ [])
        ⊎ ((v : Text) × (r : Response) × (u : Text) × (((fetch_source net approved any_domain n
                  url).1
                ≡ (once v).1)
              ⊎ ((fetch_source net approved any_domain n url).1
                  ≡ (once v).1 ++ (follow net approved any_domain n r u).1)))
  unfolding fetch_source
  fetch_source-sent n url = elim (Result-cases (validate_source_url net approved any_domain url)) [
    | inl (exc, e) ↦ inl (ground arith)
    | inr (v, e) ↦ elim (Result-cases (once v).0) [
      | inl (exc, f) ↦ inr (v, nothing, [], inl (ground arith))
      | inr (hop, f) ↦ inr (v, hop.0, hop.1, ground arith)
    ]
  ]

  -- A fetch sends at most two requests, the second after a redirect, and each of them goes to a URL
  -- that the guard let through: a redirect's target passes the same checks as the URL that was asked
  -- for.
  pub fetch_source-Sends :
      (n : ℕ) (url : Text) → Sends 2 (fetch_source net approved any_domain n url).1
  fetch_source-Sends n url = elim (fetch_source-sent n url) [
    | inl e ↦ rw e (tt, omega arith)
    | inr (v, r, u, inl e) ↦ let (vetted, few) = get_once-Sends v in rw e (vetted, omega arith)
    | inr (v, r, u, inr e) ↦
        let (vetted, few) = get_once-Sends v in
        let (followed, fewer) = follow-Sends n r u in
        rw e (
          All-append Vetted (once v).1 (follow net approved any_domain n r u).1 vetted followed,
          omega (arith, length-append (once v).1 (follow net approved any_domain n r u).1),
        )
  ]
