-- ===== src/Indexer/Http/Confinement.antt =====
-- internal/indexer/httpx/client.go: where a chain of redirects can lead a request.
use tortui.Indexer.Http.Redirects.{
  Url, Names, check_redirect, followed, same_origin_userinfo, Hop, is_scheme_downgrade,
  effective_port, is_subdomain_of,
}
use tortui.Base.{
  Bool, List, codes, if◌then◌else◌, true, ℕ, is_some, ◌∷◌, ◌&&◌, All, not, ◌≡◌, length, none, ◌||◌,
  ◌<◌, ◌==◌, [], ◌≤◌, ◌-◌, arith, text_eq, suc, Option-cases, inl, inr, refl,
}

module _ (n : Names) where
  -- On the first request's host, or one of its subdomains where these are followed; a URL with
  -- userinfo only on the first request's own host and port, when that has userinfo.
  abbrev pub stays : Bool → Url → Url → Bool
  stays subdomains origin u =
      if is_some u.user
      then is_some origin.user
        && n.equal_fold u.hostname origin.hostname
        && effective_port n origin == effective_port n u
      else n.equal_fold u.host origin.host || (subdomains && is_subdomain_of n u origin)

  abbrev pub is_secure : Url → Bool
  is_secure u = n.equal_fold u.scheme (codes "https")

  -- Once https, always https.
  abbrev pub never_downgrades : Url → List Url → Bool
  never_downgrades prev [] = true
  never_downgrades prev (u ∷ us) = (not (is_secure prev) || is_secure u) && never_downgrades u us

  checked-stays :
      (subdomains : Bool) (hop : Hop) (origin prev : Url) (sent : ℕ)
      → check_redirect n subdomains hop origin prev sent ≡ none
      → (stays subdomains origin hop.url ≡ true)
        × (not (is_secure prev) || is_secure hop.url ≡ true)
        × (sent < 5)
  unfolding check_redirect same_origin_userinfo is_scheme_downgrade
  checked-stays subdomains hop origin prev sent h = (ground arith, ground arith, ground arith)

  followed-confined_from :
      (subdomains : Bool) (origin prev : Url) (sent : ℕ) (hops : List Hop)
      → let us = followed n subdomains origin prev sent hops in
        All (λ u. stays subdomains origin u ≡ true) us
        × (never_downgrades prev us ≡ true)
        × (length us ≤ 5 - sent)
  unfolding followed
  followed-confined_from subdomains origin prev sent [] = (tt, refl, omega arith)
  followed-confined_from subdomains origin prev sent (hop ∷ hops) =
      let rest = followed-confined_from subdomains origin hop.url (suc sent) hops in
      elim (Option-cases (check_redirect n subdomains hop origin prev sent)) [
        | inl e ↦
            let ok = checked-stays subdomains hop origin prev sent e in
            rw (e, followed) ((ok.0, rest.0), ground (arith, ok, rest), ground (arith, ok, rest))
        | inr (r, e) ↦ rw (e, followed) (tt, refl, omega arith)
      ]

  -- The redirects that one attempt follows stay on the first request's host (or, where these are
  -- followed, its subdomains), take userinfo only to the first request's own host and port, never
  -- go back from https, and are at most four.
  pub followed-confined :
      (subdomains : Bool) (origin : Url) (hops : List Hop)
      → All (λ u. stays subdomains origin u ≡ true) (followed n subdomains origin origin 1 hops)
        × (never_downgrades origin (followed n subdomains origin origin 1 hops) ≡ true)
        × (length (followed n subdomains origin origin 1 hops) ≤ 4)
  followed-confined subdomains origin hops = followed-confined_from subdomains origin origin 1 hops
