-- ===== src/Risk/Loopback.antt =====
-- src/risk.rs: which addresses `is_loopback_url` takes for the local machine.
use hype_trigger_twap.Prelude.{
  ℕ, ◌≡◌, ◌↔◌, refl, sym, ap, ◌∙◌, arith, ◌⊎◌, inl, inr, Bool, true, false, not, ◌&&◌, ◌||◌, some,
  List, [], ◌∷◌, ◌++◌, any, ◌==◌, Bool-cases, Option-cases, and_parts, or_parts, ok, fail_if,
}
use mathlib.Core.Path.{subst}
use hype_trigger_twap.Prelude.Text.{codes, starts_with}
use hype_trigger_twap.Risk.Endpoint.{
  strip_prefix, ends_authority, authority_of, at_port, host_matches, validate_endpoint_override,
  is_loopback_authority, is_loopback_url,
}
use hype_trigger_twap.Risk.Authority.{
  strip_prefix_split, strip_prefix-append, at_end, has_no_end, authority_split, authority-append,
}

not-true : (b : Bool) → not b ≡ true → b ≡ false
not-true b h = ground arith

second_part : (a b : Bool) → a ≡ false → a || b ≡ true → b ≡ true
second_part a b e h = ground arith

-- The address is `http://`, then the local host by one of its two names, then nothing or a port
-- with no userinfo, then nothing or what follows an authority.
pub record IsLoopback (url : List ℕ) : Type 0 where
  pub host : List ℕ
  pub port : List ℕ
  pub tail : List ℕ
  pub parts : url ≡ codes "http://" ++ ((host ++ port) ++ tail)
  pub is_local : (host ≡ codes "127.0.0.1") ⊎ (host ≡ codes "localhost")
  pub port_only : at_port port ≡ true
  pub no_userinfo : any (λ letter. letter == b'@') port ≡ false
  pub within_authority : has_no_end port ≡ true
  pub after_authority : at_end tail ≡ true

any_append : (p : ℕ → Bool) (xs ys : List ℕ) → any p (xs ++ ys) ≡ any p xs || any p ys
any_append p [] ys = refl
any_append p (x ∷ xs) ys = ground (arith, any_append p xs ys)

-- The authority of a loopback address.
record IsLocalAuthority (authority : List ℕ) : Type 0 where
  host : List ℕ
  port : List ℕ
  split : authority ≡ host ++ port
  is_local : (host ≡ codes "127.0.0.1") ⊎ (host ≡ codes "localhost")
  port_only : at_port port ≡ true

by_host :
    (host authority : List ℕ)
    → host_matches (strip_prefix host authority) ≡ true
    → (port : List ℕ) × (authority ≡ host ++ port) × (at_port port ≡ true)
by_host host authority h = elim (Option-cases (strip_prefix host authority)) [
  | inl none_left ↦ (let k = rw none_left at h in cc)
  | inr (port, e) ↦ (port, strip_prefix_split host authority e, rw e at h)
]

abbrev is_at : ℕ → Bool
is_at letter = letter == b'@'

local_authority :
    (authority : List ℕ)
    → is_loopback_authority authority ≡ true
    → IsLocalAuthority authority × (any is_at authority ≡ false)
unfolding is_loopback_authority
local_authority authority h =
    let (plain, hosts) = and_parts (not (any is_at authority)) _ h in
    let no_at : any is_at authority ≡ false = not-true (any is_at authority) plain in
    elim (Bool-cases (host_matches (strip_prefix (codes "127.0.0.1") authority))) [
      | inl e ↦
          let (port, split, ends) = by_host (codes "127.0.0.1") authority e in
          (
            record {
              host = codes "127.0.0.1";
              port = port;
              split = split;
              is_local = inl refl;
              port_only = ends;
            },
            no_at,
          )
      | inr e ↦
          let (port, split, ends) =
            by_host (codes "localhost") authority (second_part _ _ e hosts) in
          (
            record {
              host = codes "localhost";
              port = port;
              split = split;
              is_local = inr refl;
              port_only = ends;
            },
            no_at,
          )
    ]

-- What no letter of a text satisfies, no letter of its second part does.
none_in_port :
    (p : ℕ → Bool) (host port : List ℕ) → any p (host ++ port) ≡ false → any p port ≡ false
none_in_port p host port h =
    (or_parts (any p host) (any p port) (sym (any_append p host port) ∙ h)).1

is_loopback_url-IsLoopback : (url : List ℕ) → is_loopback_url url ≡ true → IsLoopback url
unfolding is_loopback_url
is_loopback_url-IsLoopback url h = elim (Option-cases (strip_prefix (codes "http://") url)) [
  | inl other ↦ (let k = rw other at h in cc)
  | inr (after, e) ↦
      let (auth, no_at) = local_authority (authority_of after) (rw e at h) in
      let (tail, split, ends, free) = authority_split after in
      let no_end : any ends_authority (authority_of after) ≡ false = not-true _ free in
      record {
        host = auth.host;
        port = auth.port;
        tail = tail;
        parts =
            strip_prefix_split (codes "http://") url e
            ∙ ap (λ t. codes "http://" ++ t) (split ∙ ap (λ a. a ++ tail) auth.split);
        is_local = auth.is_local;
        port_only = auth.port_only;
        no_userinfo =
            none_in_port is_at auth.host auth.port
              (subst (λ a. any is_at a ≡ false) auth.split no_at);
        within_authority =
            (let none_left =
                none_in_port ends_authority auth.host auth.port
                  (subst (λ a. any ends_authority a ≡ false) auth.split no_end) in
              rw none_left refl);
        after_authority = ends;
      }
]

local_after :
    (port tail : List ℕ) (host : List ℕ)
    → (host ≡ codes "127.0.0.1") ⊎ (host ≡ codes "localhost")
    → any is_at port ≡ false
    → at_port port ≡ true
    → is_loopback_authority (host ++ port) ≡ true
unfolding is_loopback_authority
local_after port tail host (inl e) no_at ends =
    let free : any is_at (host ++ port) ≡ false = rw (e, no_at) refl in
    let found : host_matches (strip_prefix (codes "127.0.0.1") (host ++ port)) ≡ true =
      subst (λ h. host_matches (strip_prefix (codes "127.0.0.1") (h ++ port)) ≡ true) (sym e)
        (ap host_matches (strip_prefix-append (codes "127.0.0.1") port) ∙ ends) in
    rw (free, found) refl
local_after port tail host (inr e) no_at ends =
    let free : any is_at (host ++ port) ≡ false = rw (e, no_at) refl in
    let found : host_matches (strip_prefix (codes "localhost") (host ++ port)) ≡ true =
      subst (λ h. host_matches (strip_prefix (codes "localhost") (h ++ port)) ≡ true) (sym e)
        (ap host_matches (strip_prefix-append (codes "localhost") port) ∙ ends) in
    ground arith

host_has_no_end :
    (host port : List ℕ)
    → (host ≡ codes "127.0.0.1") ⊎ (host ≡ codes "localhost")
    → has_no_end port ≡ true
    → has_no_end (host ++ port) ≡ true
host_has_no_end host port (inl e) h = rw e h
host_has_no_end host port (inr e) h = rw e h

IsLoopback-is_loopback_url : (url : List ℕ) → IsLoopback url → is_loopback_url url ≡ true
unfolding is_loopback_url
IsLoopback-is_loopback_url url l =
    let after : List ℕ = (l.host ++ l.port) ++ l.tail in
    let stripped : strip_prefix (codes "http://") url ≡ some after =
      ap (strip_prefix (codes "http://")) l.parts ∙ strip_prefix-append (codes "http://") after in
    let authority : authority_of after ≡ l.host ++ l.port =
      authority-append (l.host ++ l.port) l.tail
        (host_has_no_end l.host l.port l.is_local l.within_authority) l.after_authority in
    rw (stripped, authority) (local_after l.port l.tail l.host l.is_local l.no_userinfo l.port_only)

secure_or_local :
    {A : Type 0} {E : Type 0} (secure local : Bool) (e : E)
    → fail_if (not secure && not local) e ≡ ok tt
    → (local ≡ true → A)
    → (secure ≡ true) ⊎ A
secure_or_local true local e h f = inl refl
secure_or_local false true e h f = inr (f refl)
secure_or_local false false e h f = absurd cc

-- An endpoint override is accepted exactly if overrides are allowed, and the address begins with
-- `https://` or is on the local machine.
pub validate_endpoint_override_ok :
    (url : List ℕ) (allow : Bool)
    → (validate_endpoint_override url allow ≡ ok tt)
      ↔ ((allow ≡ true) × ((starts_with (codes "https://") url ≡ true) ⊎ IsLoopback url))
unfolding validate_endpoint_override
validate_endpoint_override_ok url false = (λ h. absurd cc, λ (e, _). absurd cc)
validate_endpoint_override_ok url true = (
  λ h. (
    refl,
    secure_or_local (starts_with (codes "https://") url) (is_loopback_url url) _ h
        (is_loopback_url-IsLoopback url),
  ),
  λ (_, o). elim o [
    | inl secure ↦ rw secure refl
    | inr local ↦ let l = IsLoopback-is_loopback_url url local in ground arith
  ],
)
