-- ===== src/Risk/Authority.antt =====
-- src/risk.rs: the cuts of an address that `is_loopback_url` makes.
use hype_trigger_twap.Prelude.{
  ℕ, ◌≡◌, refl, ap, arith, inl, inr, Bool, true, not, some, List, [], ◌∷◌, ◌++◌, any, ◌==◌,
  Bool-cases,
}
use hype_trigger_twap.Risk.Endpoint.{strip_prefix, ends_authority, authority_of}

pub strip_prefix_split :
    (p text : List ℕ) {rest : List ℕ} → strip_prefix p text ≡ some rest → text ≡ p ++ rest
unfolding strip_prefix
strip_prefix_split [] text {rest} h = cc
strip_prefix_split (x ∷ xs) [] h = cc
strip_prefix_split (x ∷ xs) (y ∷ ys) {rest} h = elim (Bool-cases (x == y)) [
  | inl e ↦
      let tail = strip_prefix_split xs ys {rest = rest} (rw e at h) in
      let head : x ≡ y = ground arith in cc
  | inr e ↦ (let k = rw e at h in cc)
]

pub strip_prefix-append : (p rest : List ℕ) → strip_prefix p (p ++ rest) ≡ some rest
unfolding strip_prefix
strip_prefix-append [] rest = refl
strip_prefix-append (x ∷ xs) rest =
    let same : x == x ≡ true = ground arith in rw same (strip_prefix-append xs rest)

-- A text that goes on past the authority, or is over.
abbrev pub at_end : List ℕ → Bool
at_end [] = true
at_end (x ∷ xs) = ends_authority x

abbrev pub has_no_end : List ℕ → Bool
has_no_end text = not (any ends_authority text)

pub authority_split :
    (text : List ℕ)
    → (tail : List ℕ) × (text ≡ authority_of text ++ tail)
      × (at_end tail ≡ true)
      × (has_no_end (authority_of text) ≡ true)
unfolding authority_of
authority_split [] = ([], refl, refl, refl)
authority_split (x ∷ xs) = elim (Bool-cases (ends_authority x)) [
  | inl e ↦ (x ∷ xs, rw e refl, e, rw e refl)
  | inr e ↦
      let (tail, split, ends, free) = authority_split xs in
      (tail, rw e (ap (λ l. x ∷ l) split), ends, rw (e, e) free)
]

pub authority-append :
    (a tail : List ℕ) → has_no_end a ≡ true → at_end tail ≡ true → authority_of (a ++ tail) ≡ a
unfolding authority_of
authority-append [] [] free ends = refl
authority-append [] (x ∷ xs) free ends = rw ends refl
authority-append (x ∷ xs) tail free ends = elim (Bool-cases (ends_authority x)) [
  | inl e ↦ (let k = rw e at free in cc)
  | inr e ↦ rw e (ap (λ l. x ∷ l) (authority-append xs tail (rw e at free) ends))
]
