-- ===== src/Indexer/Http/Redirects.antt =====
-- internal/indexer/httpx/client.go: the redirect rules. What net/url, net and strings.EqualFold
-- give is a parameter; a parsed URL is its parts.
use tortui.Base.{
  Text, Bool, Option, if◌then◌else◌, ℕ, ◌∷◌, ◌==◌, List, [], codes, contains, false, leb, none, not,
  some, suc, ◌&&◌, get_elem?, is_some, nat_eq, text_eq, true, zero, ◌||◌, length, ◌+◌,
}

-- strings.EqualFold, strings.ToLower and net.ParseIP.
pub record Names : Type 0 where
  pub equal_fold : Text → Text → Bool
  pub lower : Text → Text
  pub is_ip : Text → Bool

-- A *url.Userinfo: its address, and its String.
pub record User : Type 0 where
  pub addr : ℕ
  pub text : Text

pub record Url : Type 0 where
  pub scheme : Text
  pub host : Text
  pub hostname : Text
  pub port : Text
  pub user : Option User

-- The Location header, and what url.Parse makes of it: a scheme, a host, a userinfo.
pub record Location : Type 0 where
  pub raw : Text
  pub parsed : Option (Text × Text × Option Text)

-- A redirect that net/http is about to follow; `none` for a request without a response.
pub record Hop : Type 0 where
  pub url : Url
  pub location : Option Location

pub data Refusal : Type 0 where
  too_many_redirects userinfo_redirect cross_host_redirect insecure_redirect : Refusal

abbrev pub max_redirects : ℕ
max_redirects = 5

-- strings.Cut, the part before; the whole text without the separator.
unfoldable pub before : ℕ → Text → Text
before c [] = []
before c (x ∷ s) = if x == c then [] else x ∷ before c s

-- strings.CutPrefix
unfoldable pub cut_prefix : Text → Text → Option Text
cut_prefix [] s = some s
cut_prefix (c ∷ p) [] = none
cut_prefix (c ∷ p) (x ∷ s) = if x == c then cut_prefix p s else none

-- The text before the last "@", if there is one.
unfoldable pub before_last_at : Text → Option Text
before_last_at [] = none
before_last_at (x ∷ s) = elim (before_last_at s) [
  | some head ↦ some (x ∷ head)
  | none ↦ if x == 64 then some [] else none
]

-- strings.Contains for a text of one character.
abbrev has : ℕ → Text → Bool
has c s = contains s c

-- strings.HasSuffix
unfoldable pub has_suffix : Text → Text → Bool
has_suffix [] t = t == []
has_suffix (x ∷ s) t = (x ∷ s) == t || has_suffix s t

-- strings.TrimSuffix for "."
unfoldable pub trimmed_dot : Text → Text
trimmed_dot [] = []
trimmed_dot (x ∷ s) = if (x ∷ s) == codes "." then [] else x ∷ trimmed_dot s

-- An empty label in strings.Split at ".": `at_start` is whether a label begins here.
unfoldable pub empty_label : Bool → Text → Bool
empty_label at_start [] = at_start
empty_label at_start (x ∷ s) =
    if x == 46 then at_start || empty_label true s else empty_label false s

drop : ℕ → Text → Text
drop zero s = s
drop (suc n) [] = []
drop (suc n) (x ∷ s) = drop n s

-- The scheme's part of rawUserinfo.
without_scheme : Text → Text → Option Text
unfolding drop
without_scheme [] rest = some rest
without_scheme (c ∷ scheme) rest = elim (get_elem? rest (length (c ∷ scheme))) [
  | none ↦ none
  | some x ↦ if x == 58 then some (drop (length (c ∷ scheme) + 1) rest) else none
]

-- rawUserinfo
unfoldable pub raw_userinfo : Text → Text → Option Text
unfolding before cut_prefix before_last_at without_scheme
raw_userinfo ref scheme = elim (without_scheme scheme (before 35 ref)) [
  | none ↦ none
  | some rest ↦ elim (cut_prefix (codes "//") (before 63 rest)) [
    | none ↦ none
    | some authority ↦ before_last_at (before 47 authority)
  ]
]

abbrev same_user : Option User → Option User → Bool
same_user none none = true
same_user (some u) (some v) = u.addr == v.addr
same_user _ _ = false

abbrev user_text : Option User → Text
user_text none = []
user_text (some u) = u.text

-- redirectUserinfo
unfoldable pub redirect_userinfo : Hop → Url → Option Text
unfolding raw_userinfo
redirect_userinfo hop prev = elim hop.location [
  | none ↦ none
  | some l ↦ elim l.parsed [
    | none ↦ none
    | some (scheme, host, none) ↦
        if scheme == [] && host == [] && same_user hop.url.user prev.user
        then some (user_text hop.url.user)
        else none
    | some (scheme, host, some user) ↦
        if user == user_text hop.url.user then raw_userinfo l.raw scheme else none
  ]
]

module _ (n : Names) where
  unfoldable pub is_web_scheme : Text → Bool
  is_web_scheme s = n.equal_fold s (codes "http") || n.equal_fold s (codes "https")

  unfoldable pub effective_port : Url → Text
  effective_port u =
      if not (u.port == [])
      then u.port
      else if n.lower u.scheme == codes "http"
      then codes "80"
      else if n.lower u.scheme == codes "https"
      then codes "443"
      else []

  -- `origin` is the first request, `prev` the one before this hop.
  unfoldable pub same_origin_userinfo : Hop → Url → Url → Bool
  unfolding is_web_scheme effective_port redirect_userinfo
  same_origin_userinfo hop origin prev =
      is_some origin.user
      && is_web_scheme origin.scheme
      && is_web_scheme hop.url.scheme
      && written (redirect_userinfo hop prev)
      && n.equal_fold hop.url.hostname origin.hostname
      && not (effective_port origin == [])
      && effective_port origin == effective_port hop.url
    where
      written : Option Text → Bool
      written none = false
      written (some w) = w == user_text origin.user

  unfoldable pub is_subdomain_of : Url → Url → Bool
  unfolding trimmed_dot empty_label has_suffix
  is_subdomain_of dest origin =
      let parent = n.lower (trimmed_dot origin.hostname) in
      let child = n.lower (trimmed_dot dest.hostname) in
      dest.port == origin.port
      && has 46 parent
      && not (n.is_ip parent)
      && not (n.is_ip child)
      && not (empty_label true child)
      && has_suffix child (46 ∷ parent)

  unfoldable pub is_scheme_downgrade : Text → Text → Bool
  is_scheme_downgrade from to =
      n.equal_fold from (codes "https") && not (n.equal_fold to (codes "https"))

  -- checkRedirectHosts after so many requests; `none` follows the redirect.
  unfoldable pub check_redirect : Bool → Hop → Url → Url → ℕ → Option Refusal
  unfolding same_origin_userinfo is_subdomain_of is_scheme_downgrade
  check_redirect subdomains hop origin prev sent =
      if leb max_redirects sent
      then some too_many_redirects
      else if is_some hop.url.user && not (same_origin_userinfo hop origin prev)
      then some userinfo_redirect
      else if not (is_some hop.url.user)
          && not (
              n.equal_fold hop.url.host origin.host
              || (subdomains && is_subdomain_of hop.url origin))
      then some cross_host_redirect
      else if is_scheme_downgrade origin.scheme hop.url.scheme
          || is_scheme_downgrade prev.scheme hop.url.scheme
      then some insecure_redirect
      else none

  -- The redirects of one attempt that are followed: each is checked against the first request and
  -- the one before it, until one is refused.
  unfoldable pub followed : Bool → Url → Url → ℕ → List Hop → List Url
  unfolding check_redirect
  followed subdomains origin prev sent [] = []
  followed subdomains origin prev sent (hop ∷ hops) =
      let rest = followed subdomains origin hop.url (suc sent) hops in
      elim (check_redirect subdomains hop origin prev sent) [
        | none ↦ hop.url ∷ rest
        | some refusal ↦ []
      ]
