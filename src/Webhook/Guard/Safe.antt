-- ===== src/Webhook/Guard/Safe.antt =====
-- What the guard lets pass.
use Prim.Native.String
use linkedin_hyper_v.Prelude.{
  ◌≡◌, ◌≢◌, refl, inl, inr, String, Bool, true, false, Option, none, some, List, [], ◌∷◌, any,
  arith, Every, Bool-cases, ◌==◌, if◌then◌else◌, includes, ◌⊎◌, ◌<◌, ◌-◌, ℕ, ◌&&◌, truthy, str_eq,
  eq_iff, has_text, ends_with, starts_with,
}
use linkedin_hyper_v.Webhook.Guard.{
  Net, Url, is_private_pair, is_private_ipv4, is_private_ipv6, is_private_address, strip_brackets,
  is_blocked_webhook_hostname, check_hostname, check_resolved, check_url,
  assert_safe_webhook_target,
}

module _ (net : Net) where
  -- The numbers a.b.*.* lie in none of 0/8, 10/8, 127/8, 100.64/10, 169.254/16, 172.16/12, 192.168/16.
  abbrev pub IsPublicPair : ℕ → ℕ → Type 0
  IsPublicPair a b =
      (a ≢ 0)
      × (a ≢ 10)
      × (a ≢ 127)
      × ((a ≢ 100) ⊎ (b < 64) ⊎ (127 < b))
      × ((a ≢ 169) ⊎ (b ≢ 254))
      × ((a ≢ 172) ⊎ (b < 16) ⊎ (31 < b))
      × ((a ≢ 192) ⊎ (b ≢ 168))

  -- The text of an IPv6 address is no mapped or compatible IPv4 address, not the loopback or the
  -- unspecified one, and neither unique local nor link local.
  abbrev pub IsPublicText : String → Type 0
  IsPublicText text =
      (starts_with text "::ffff:" ≡ false)
      × (net.is_compatible text ≡ false)
      × (str_eq text "::1" ≡ false)
      × (str_eq text "::" ≡ false)
      × (starts_with text "fc" ≡ false)
      × (starts_with text "fd" ≡ false)
      × (starts_with text "fe80:" ≡ false)

  -- An address that is no private IPv4 address and no private IPv6 address.
  abbrev pub IsPublic : String → Type 0
  IsPublic address =
      ((truthy address ≡ false)
        ⊎ (net.is_ip address ≢ 4)
        ⊎ IsPublicPair (net.first_octets address).0 (net.first_octets address).1)
      × ((truthy address ≡ false) ⊎ (net.is_ip address ≢ 6) ⊎ IsPublicText (net.lower address))

  is_private_pair-IsPublicPair : (a b : ℕ) → is_private_pair a b ≡ false → IsPublicPair a b
  unfolding is_private_pair
  is_private_pair-IsPublicPair a b h = (
    ground arith,
    ground arith,
    ground arith,
    ground arith,
    ground arith,
    ground arith,
    ground arith,
  )

  is_private_address-IsPublic :
      (address : String) → is_private_address net address ≡ false → IsPublic address
  unfolding is_private_address is_private_ipv4 is_private_ipv6
  is_private_address-IsPublic address h = elim (Bool-cases (truthy address)) [
    | inl written ↦ (
      elim (Bool-cases (net.is_ip address == 4)) [
        | inl four ↦ inr (
            inr (
              is_private_pair-IsPublicPair (net.first_octets address).0 (net.first_octets address).1
                (ground arith)))
        | inr other ↦ inr (inl (ground arith))
      ],
      elim (Bool-cases (net.is_ip address == 6)) [
        | inl six ↦ inr (
            inr (
              ground arith,
              ground arith,
              ground arith,
              ground arith,
              ground arith,
              ground arith,
              ground arith,
            ))
        | inr other ↦ inr (inl (ground arith))
      ],
    )
    | inr empty ↦ (inl empty, inl empty)
  ]

  -- The host without blanks around it and without the brackets of a literal.
  abbrev pub unbracketed : String → String
  unbracketed hostname =
      let h = net.trim hostname in
      if starts_with h "[" && ends_with h "]" then String.slice h 1 (String.len h - 1) else h

  -- A name that is not empty, not local, and an address or a name with a dot.
  abbrev pub IsOutsideName : String → Type 0
  IsOutsideName name =
      (truthy name ≡ true)
      × (str_eq name "localhost" ≡ false)
      × (ends_with name ".localhost" ≡ false)
      × (ends_with name ".local" ≡ false)
      × ((net.is_ip name ≢ 0) ⊎ (has_text name "." ≡ true))

  is_blocked_webhook_hostname-IsOutsideName :
      (hostname : String)
      → is_blocked_webhook_hostname net hostname ≡ false
      → IsOutsideName (net.lower (unbracketed hostname))
  unfolding is_blocked_webhook_hostname strip_brackets
  is_blocked_webhook_hostname-IsOutsideName hostname h =
      (ground arith, ground arith, ground arith, ground arith, ground arith)

  -- The addresses that a connection to the host goes to: the literal itself, or what is resolved.
  abbrev pub addresses : String → List String
  addresses hostname = if net.is_ip hostname == 0 then net.lookup hostname else hostname ∷ []

  -- A host that may be called: its name is not a local one, and it has an address, all of them public.
  abbrev pub IsSafeHost : String → Type 0
  IsSafeHost hostname =
      IsOutsideName (net.lower (unbracketed hostname))
      × (addresses hostname ≢ [])
      × Every IsPublic (addresses hostname)

  -- An HTTP or HTTPS URL of a safe host.
  abbrev pub IsSafeUrl : Option Url → Type 0
  IsSafeUrl none = ◌≡◌ {A = Bool} false true
  IsSafeUrl (some url) =
      ((url.protocol ≡ "http:") ⊎ (url.protocol ≡ "https:")) × IsSafeHost (unbracketed url.hostname)

  any-Every : (xs : List String) → any (is_private_address net) xs ≡ false → Every IsPublic xs
  any-Every [] h = tt
  any-Every (x ∷ xs) h = (is_private_address-IsPublic x (ground arith), any-Every xs (ground arith))

  check_resolved-safe :
      (xs : List String) → check_resolved net xs ≡ none → (xs ≢ []) × Every IsPublic xs
  check_resolved-safe [] h = cc
  check_resolved-safe (x ∷ rest) h = (cc, any-Every (x ∷ rest) (ground arith))

  check_hostname-safe :
      (hostname : String) → check_hostname net hostname ≡ none → IsSafeHost hostname
  unfolding check_hostname
  check_hostname-safe hostname h = elim (Bool-cases (is_blocked_webhook_hostname net hostname)) [
    | inl blocked ↦ absurd (ground arith)
    | inr allowed ↦ elim (Bool-cases (net.is_ip hostname == 0)) [
      | inl named ↦
          let (some_address, public) = check_resolved-safe (net.lookup hostname) (ground arith) in
          rw named
            (is_blocked_webhook_hostname-IsOutsideName hostname allowed, some_address, public)
      | inr literal ↦ rw literal (
        is_blocked_webhook_hostname-IsOutsideName hostname allowed,
        cc,
        (is_private_address-IsPublic hostname (ground arith), tt),
      )
    ]
  ]

  http_or_https :
      (protocol : String)
      → includes ("http:" ∷ "https:" ∷ []) protocol ≡ true
      → (protocol ≡ "http:") ⊎ (protocol ≡ "https:")
  http_or_https protocol h = ground (arith, eq_iff "http:" protocol, eq_iff "https:" protocol)

  strip_brackets_lem : (hostname : String) → strip_brackets net hostname ≡ unbracketed hostname
  unfolding strip_brackets
  strip_brackets_lem hostname = refl

  check_url-safe : (url : Option Url) → check_url net url ≡ none → IsSafeUrl url
  check_url-safe none h = cc
  check_url-safe (some url) h =
      elim (Bool-cases (includes ("http:" ∷ "https:" ∷ []) url.protocol)) [
        | inl web ↦ (
          http_or_https url.protocol web,
          check_hostname-safe (unbracketed url.hostname)
              (ground (arith, strip_brackets_lem url.hostname)),
        )
        | inr other ↦ absurd (ground arith)
      ]

  -- A target that passes the guard is an HTTP or HTTPS URL whose host is no local name, written as an
  -- address or with a dot, and has an address; each address of it, the literal or the resolved ones,
  -- lies in none of the private IPv4 blocks and has none of the private IPv6 forms.
  pub assert_safe_webhook_target-IsSafeUrl :
      (target : String)
      → assert_safe_webhook_target net target ≡ none
      → IsSafeUrl (net.parse_url target)
  unfolding assert_safe_webhook_target
  assert_safe_webhook_target-IsSafeUrl target h = check_url-safe (net.parse_url target) h
