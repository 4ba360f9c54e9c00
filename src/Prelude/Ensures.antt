-- ===== src/Prelude/Ensures.antt =====
-- What fallible code with a log of effects ensures: of each effect, of what it returns, and of what it
-- leaves by an error.
use mathlib.Core.Path.{◌≡◌, refl, subst}
use mathlib.Core.List.{List, [], ◌∷◌, ◌++◌}
use hype_trigger_twap.Prelude.Results.{Result, ok, err, ok-injective}
use hype_trigger_twap.Prelude.Lists.{All}
use hype_trigger_twap.Prelude.Runs.{Logged, follow, lift, ◌>>=◌}

pub All-append :
    {V : Type 0} (Good : V → Type 0) (vs ws : List V)
    → All Good vs
    → All Good ws
    → All Good (vs ++ ws)
All-append Good [] ws a b = b
All-append Good (v ∷ vs) ws a b = (a.0, All-append Good vs ws a.1 b)

pub err-injective : {E A : Type 0} {a b : E} → ◌≡◌ {A = Result E A} (err a) (err b) → a ≡ b
err-injective h = cc

module _ {V E : Type 0} (Good : V → Type 0) (Left : E → Type 0) where
  pub record Ensures {A : Type 0} (m : Logged V E A) (Post : A → Type 0) : Type 0 where
    pub good : All Good m.events
    pub post : (a : A) → m.result ≡ ok a → Post a
    pub left : (e : E) → m.result ≡ err e → Left e

  pub ensures-ok : {A : Type 0} {Post : A → Type 0} (a : A) → Post a → Ensures (lift (ok a)) Post
  ensures-ok {A} {Post} a p = record {
    good = tt;
    post = λ b h. subst Post (ok-injective h) p;
    left = λ e h. absurd cc;
  }

  pub ensures-err : {A : Type 0} {Post : A → Type 0} (e : E) → Left e → Ensures (lift (err e)) Post
  ensures-err {A} {Post} e l = record {
    good = tt;
    post = λ b h. absurd cc;
    left = λ d h. subst Left (err-injective h) l;
  }

  ensures_follow :
      {A B : Type 0} {Mid : A → Type 0} {Post : B → Type 0} (log : List V) (r : Result E A)
      (k : A → Logged V E B)
      → All Good log
      → ((a : A) → r ≡ ok a → Mid a)
      → ((e : E) → r ≡ err e → Left e)
      → ((a : A) → Mid a → Ensures (k a) Post)
      → Ensures (follow log r k) Post
  ensures_follow log (ok a) k good mid left next =
      let rest = next a (mid a refl) in
      record { good = All-append Good log _ good rest.good; post = rest.post; left = rest.left }
  ensures_follow log (err e) k good mid left next = record {
    good = good;
    post = λ b h. absurd cc;
    left = λ d h. left d (same h);
  }
    where
      same :
          {A B : Type 0} {a b : E}
          → ◌≡◌ {A = Result E A} (err a) (err b)
          → ◌≡◌ {A = Result E B} (err a) (err b)
      same h = cc

  -- One part after another.
  pub ensures_bind :
      {A B : Type 0} {Mid : A → Type 0} {Post : B → Type 0} (m : Logged V E A)
      (k : A → Logged V E B)
      → Ensures m Mid
      → ((a : A) → Mid a → Ensures (k a) Post)
      → Ensures (m >>= k) Post
  ensures_bind m k first next =
      ensures_follow m.events m.result k first.good first.post first.left next
