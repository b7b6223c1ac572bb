-- ===== src/Origin/Remote/Reach.antt =====
-- Which addresses a remote fetch can contact, as the crate reqwest documents how it follows
-- redirects: it asks the policy before each, connects to a literal address as it stands, and asks
-- the resolver for the addresses of a name.
use imgx.Base.{
  ℕ, suc, ◌≤◌, Text, Bool, true, false, not, some, List, [], ◌∷◌, leb, text_eq, Any, Result, ok,
  ◌≡◌, refl, arith, Bool-cases, inl, inr, Result-cases, All, subst,
}
use imgx.Origin.Addresses.{IpAddr, is_globally_routable}
use imgx.Origin.Remote.{
  Urls, Host, Action, RemoteFetchError, is_http, keep_routable, some_address, resolve,
  literal_ip_host_is_private, redirect_policy, check_url, max_redirects,
}

not-false : {b : Bool} → not b ≡ false → b ≡ true
not-false {b = true} h = refl
not-false {b = false} h = absurd cc

module _ (urls : Urls) (lookup_host : Text → Result Text (List IpAddr)) where
  -- The URLs that are requested, from the first, with how many were requested before each.
  pub data Requests (start : urls.Url) : ℕ → urls.Url → Type 0 where
    first : Requests start 0 start
    redirected :
        {n : ℕ} {u v : urls.Url}
        → Requests start n u
        → redirect_policy urls true (suc n) v ≡ Action.follow
        → Requests start (suc n) v

  -- The addresses that a request may connect to.
  pub data Connects (u : urls.Url) : IpAddr → Type 0 where
    literal_v4 : {ip : _} → urls.host u ≡ some (Host.ipv4 ip) → Connects u (IpAddr.v4 ip)
    literal_v6 : {ip : _} → urls.host u ≡ some (Host.ipv6 ip) → Connects u (IpAddr.v6 ip)
    resolved :
        {name : Text} {ips : List IpAddr} {ip : IpAddr}
        → urls.host u ≡ some (Host.domain name)
        → resolve lookup_host name ≡ ok ips
        → Any (λ i. i ≡ ip) ips
        → Connects u ip

  keep_routable-IsRoutable :
      (ips : List IpAddr) → All (λ ip. is_globally_routable ip ≡ true) (keep_routable ips)
  unfolding keep_routable
  keep_routable-IsRoutable [] = tt
  keep_routable-IsRoutable (ip ∷ ips) = elim (Bool-cases (is_globally_routable ip)) [
    | inl public ↦ rw public (public, keep_routable-IsRoutable ips)
    | inr inside ↦ rw inside (keep_routable-IsRoutable ips)
  ]

  some_address-same : (l ips : List IpAddr) → some_address l ≡ ok ips → l ≡ ips
  some_address-same [] ips h = absurd cc
  some_address-same (ip ∷ l) ips h = cc

  find :
      (P : IpAddr → Type 0) (ip : IpAddr) (ips : List IpAddr)
      → All P ips
      → Any (λ i. i ≡ ip) ips
      → P ip
  find P ip [] h w = elim w [ ]
  find P ip (i ∷ ips) (h, hs) (Any.here e) = subst P e h
  find P ip (i ∷ ips) (h, hs) (Any.there w) = find P ip ips hs w

  -- What a name resolves to is every routable address of the lookup, in order, and at least one.
  resolve-IsRoutable :
      (name : Text) (ips : List IpAddr)
      → resolve lookup_host name ≡ ok ips
      → All (λ ip. is_globally_routable ip ≡ true) ips
  unfolding resolve
  resolve-IsRoutable name ips h = elim (Result-cases (lookup_host name)) [
    | inr (e, lost) ↦ absurd (cc (rw (lost, resolve) at h))
    | inl (found, known) ↦
        subst (All _) (some_address-same (keep_routable found) ips (rw (known, resolve) at h))
          (keep_routable-IsRoutable found)
  ]

  Connects-routable :
      (u : urls.Url) (ip : IpAddr)
      → literal_ip_host_is_private urls u ≡ false
      → Connects u ip
      → is_globally_routable ip ≡ true
  unfolding literal_ip_host_is_private
  Connects-routable u _ h (Connects.literal_v4 {ip = ip} e) =
      not-false (rw (e, literal_ip_host_is_private) at h)
  Connects-routable u _ h (Connects.literal_v6 {ip = ip} e) =
      not-false (rw (e, literal_ip_host_is_private) at h)
  Connects-routable u ip h (Connects.resolved {name = name} {ips = ips} e r w) =
      find (λ i. is_globally_routable i ≡ true) ip ips (resolve-IsRoutable name ips r) w

  -- What every request of a fetch satisfies.
  pub record IsGuarded (n : ℕ) (u : urls.Url) : Type 0 where
    pub few : n ≤ 2
    pub http : is_http (urls.scheme u) ≡ true
    pub literal : literal_ip_host_is_private urls u ≡ false

  abbrev check_ok : urls.Url → Result RemoteFetchError urls.Url
  check_ok u = ok u

  ok_injective : (u v : urls.Url) → check_ok u ≡ check_ok v → u ≡ v
  ok_injective u v h = cc

  check_url-IsGuarded :
      (text : Text) (start : urls.Url) → check_url urls true text ≡ ok start → IsGuarded 0 start
  unfolding check_url
  check_url-IsGuarded text start h = elim (Result-cases (urls.parse text)) [
    | inr (e, malformed) ↦ absurd (cc (rw (malformed, check_url) at h))
    | inl (u, parsed) ↦
        let h' = rw (parsed, check_url) at h in
        elim (Bool-cases (is_http (urls.scheme u))) [
          | inr other ↦ absurd (ground (arith, other, h'))
          | inl http' ↦ elim (Bool-cases (literal_ip_host_is_private urls u)) [
            | inl inside ↦ absurd (ground (arith, http', inside, h'))
            | inr outside ↦
                let same = ok_injective u start (ground (arith, http', outside, h')) in
                subst (IsGuarded 0) same
                  (record { few = omega arith; http = http'; literal = outside })
          ]
        ]
  ]

  policy-IsGuarded :
      (n : ℕ) (v : urls.Url)
      → redirect_policy urls true (suc n) v ≡ Action.follow
      → IsGuarded (suc n) v
  unfolding redirect_policy
  policy-IsGuarded n v h = elim (Bool-cases (leb max_redirects (suc n))) [
    | inl many ↦ absurd (ground (arith, many))
    | inr few' ↦ elim (Bool-cases (is_http (urls.scheme v))) [
      | inr other ↦ absurd (ground (arith, few', other))
      | inl http' ↦ elim (Bool-cases (literal_ip_host_is_private urls v)) [
        | inl inside ↦ absurd (ground (arith, few', http', inside))
        | inr outside ↦ record { few = ground (arith, few'); http = http'; literal = outside }
      ]
    ]
  ]

  Requests-IsGuarded :
      (start : urls.Url) (n : ℕ) (u : urls.Url)
      → IsGuarded 0 start
      → Requests start n u
      → IsGuarded n u
  Requests-IsGuarded start _ _ g Requests.first = g
  Requests-IsGuarded start _ v g (Requests.redirected {n = n} w p) = policy-IsGuarded n v p

  -- Whatever the URL of a remote fetch and whatever the DNS answers: a fetch that passes the checks
  -- makes at most three requests, the redirects included, only to http and https URLs, and connects
  -- only to globally routable addresses.
  pub Requests-Connects :
      (text : Text) (start : urls.Url) (n : ℕ) (u : urls.Url) (ip : IpAddr)
      → check_url urls true text ≡ ok start
      → Requests start n u
      → Connects u ip
      → (n ≤ 2) × (is_http (urls.scheme u) ≡ true) × (is_globally_routable ip ≡ true)
  Requests-Connects text start n u ip h w c =
      let g = Requests-IsGuarded start n u (check_url-IsGuarded text start h) w in
      (g.few, g.http, Connects-routable u ip g.literal c)
