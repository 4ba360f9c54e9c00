-- ===== src/Prelude/Runs.antt =====
-- Fallible code that leaves a log of its effects, and the runs of a step relation over such a log.
use mathlib.Core.Path.{◌≡◌, refl, subst}
use mathlib.Core.List.{List, [], ◌∷◌, ◌++◌}
use hype_trigger_twap.Prelude.Results.{Result, ok, err, ok-injective, map_err, map_err-eq-ok}

pub record Logged (V E A : Type 0) : Type 0 where
  pub events : List V
  pub result : Result E A

module _ {V E : Type 0} where
  abbrev pub follow : {A B : Type 0} → List V → Result E A → (A → Logged V E B) → Logged V E B
  follow log (ok a) k = record { events = log ++ (k a).events; result = (k a).result }
  follow log (err e) k = record { events = log; result = err e }

  infixl 5 ◌>>=◌ ◌>>◌
  abbrev pub ◌>>=◌ : {A B : Type 0} → Logged V E A → (A → Logged V E B) → Logged V E B
  m >>= k = follow m.events m.result k

  abbrev pub ◌>>◌ : {B : Type 0} → Logged V E (Unit {0}) → Logged V E B → Logged V E B
  m >> k = m >>= λ _. k

  -- A value or an error, with no effect; and one effect.
  abbrev pub lift : {A : Type 0} → Result E A → Logged V E A
  lift r = record { events = []; result = r }

  abbrev pub emit : V → Logged V E (Unit {0})
  emit v = record { events = v ∷ []; result = ok tt }

-- `m.map_err(f)` of code with effects.
abbrev pub recast : {V E F A : Type 0} → (E → F) → Logged V E A → Logged V F A
recast f m = record { events = m.events; result = map_err f m.result }

module _ {S V : Type 0} (Step : S → V → S → Type 0) where
  pub data Trace : S → List V → S → Type 0 where
    stop : {s : S} → Trace s [] s
    next : {s t u : S} {v : V} {vs : List V} → Step s v t → Trace t vs u → Trace s (v ∷ vs) u

  join : (vs ws : List V) {s t u : S} → Trace s vs t → Trace t ws u → Trace s (vs ++ ws) u
  join [] ws stop b = b
  join (v ∷ vs) ws (next step rest) b = next step (join vs ws rest b)

  -- From state `s`, the code's effects are a run of the relation, and what it returns is right
  -- about the state that it leaves.
  pub record Follows {E A : Type 0} (s : S) (m : Logged V E A) (Q : S → A → Type 0) : Type 0 where
    pub last : S
    pub run : Trace s m.events last
    pub post : (a : A) → m.result ≡ ok a → Q last a

  module _ {E : Type 0} where
    pub follows-lift :
        {A : Type 0} {s : S} {Q : S → A → Type 0} (r : Result E A)
        → ((a : A) → r ≡ ok a → Q s a)
        → Follows s (lift r) Q
    follows-lift {A} {s} {Q} r q = record { last = s; run = stop; post = q }

    pub follows-pure :
        {A : Type 0} {s : S} {Q : S → A → Type 0} (a : A)
        → Q s a
        → Follows {E = E} s (lift (ok a)) Q
    follows-pure {A} {s} {Q} a q = record {
      last = s;
      run = stop;
      post = λ b h. subst (Q s) (ok-injective h) q;
    }

    pub follows-error :
        {A : Type 0} {s : S} {Q : S → A → Type 0} (e : E) → Follows {A = A} s (lift (err e)) Q
    follows-error {A} {s} e = record { last = s; run = stop; post = λ a h. cc }

    pub follows-emit :
        {s t : S} {v : V} {Q : S → Unit {0} → Type 0}
        → Step s v t
        → Q t tt
        → Follows {E = E} s (emit v) Q
    follows-emit {s} {t} {v} {Q} step q = record { last = t; run = next step stop; post = λ _ _. q }

    follow_on :
        {A B : Type 0} {s t : S} {Q : S → A → Type 0} {P : S → B → Type 0} (log : List V)
        (r : Result E A) (k : A → Logged V E B)
        → Trace s log t
        → ((a : A) → r ≡ ok a → Q t a)
        → ((u : S) (a : A) → Q u a → Follows u (k a) P)
        → Follows s (follow log r k) P
    follow_on {A} {B} {s} {t} {Q} {P} log (ok a) k run post cont =
        let rest = cont t a (post a refl) in
        record { last = rest.last; run = join log _ run rest.run; post = rest.post }
    follow_on {A} {B} {s} {t} {Q} {P} log (err e) k run post cont = record {
      last = t;
      run = run;
      post = λ a h. cc;
    }

    -- One part after another: what the first leaves is where the second begins.
    pub follows_bind :
        {A B : Type 0} {s : S} {Q : S → A → Type 0} {P : S → B → Type 0} (m : Logged V E A)
        (k : A → Logged V E B)
        → Follows s m Q
        → ((u : S) (a : A) → Q u a → Follows u (k a) P)
        → Follows s (m >>= k) P
    follows_bind {A} {B} {s} {Q} {P} m k first cont =
        follow_on m.events m.result k first.run first.post cont

  pub follows-recast :
      {E F A : Type 0} {s : S} {Q : S → A → Type 0} (f : E → F) (m : Logged V E A)
      → Follows s m Q
      → Follows s (recast f m) Q
  follows-recast f m follows = record {
    last = follows.last;
    run = follows.run;
    post = λ a h. follows.post a (map_err-eq-ok f m.result h);
  }
