-- ===== src/Base/Actions.antt =====
-- Calls that change the state of the outside world and may raise. What was done before a raise
-- stays done, so the state comes back beside the exception too.
use mathlib.Core.Path.{◌≡◌, refl, sym, ap, ◌∙◌}
use mathlib.Core.Logic.{inl, inr}
use native.Mathlib.Omega.{arith}
use mathlib.Core.Bool.{Bool, true, false}
use mathlib.Core.List.{List, [], ◌∷◌}
use semconv_graph.Base.Equality.{if◌then◌else◌}
use semconv_graph.Base.Results.{Result, ok, err, Result-cases}

abbrev pub Action : Type 0 → Type 0 → Type 0 → Type 0
Action E S A = S → Result E A × S

module _ {E S : Type 0} where
  abbrev pub pure : {A : Type 0} → A → Action E S A
  pure a s = (ok a, s)

  -- A computation that only returns or raises.
  abbrev pub lift : {A : Type 0} → Result E A → Action E S A
  lift r s = (r, s)

  abbrev pub continue : {A B : Type 0} → Result E A → (A → Action E S B) → Action E S B
  continue (ok a) f s = f a s
  continue (err e) f s = (err e, s)

  infixl 5 ◌>>=◌ ◌>>◌
  abbrev pub ◌>>=◌ : {A B : Type 0} → Action E S A → (A → Action E S B) → Action E S B
  ◌>>=◌ m f s = continue (m s).0 f (m s).1

  abbrev pub ◌>>◌ : {A B : Type 0} → Action E S A → Action E S B → Action E S B
  m >> k = m >>= λ _. k

  abbrev pub when : Bool → Action E S (Unit {0}) → Action E S (Unit {0})
  when true m = m
  when false m = pure tt

  -- `for x in xs: body(x)`
  unfoldable pub for_each :
      {A : Type 0} → (A → Action E S (Unit {0})) → List A → Action E S (Unit {0})
  for_each body [] = pure tt
  for_each body (x ∷ xs) = body x >> for_each body xs

  pub continue-eq-ok :
      {A B : Type 0} (r : Result E A) (f : A → Action E S B) (s : S) {b : B}
      → (continue r f s).0 ≡ ok b
      → (a : A) × (r ≡ ok a) × (continue r f s ≡ f a s)
  continue-eq-ok (ok a) f s h = (a, refl, refl)
  continue-eq-ok (err e) f s h = cc

module _ {E S V : Type 0} (f : S → V) where
  pub continue-keeps :
      {A B : Type 0} (r : Result E A) (k : A → Action E S B) (s : S)
      → ((a : A) → f (k a s).1 ≡ f s)
      → f (continue r k s).1 ≡ f s
  continue-keeps (ok a) k s h = h a
  continue-keeps (err e) k s h = refl

  -- A value of the state that no call of a sequence changes.
  pub >>=-keeps :
      {A B : Type 0} (m : Action E S A) (k : A → Action E S B) (s : S)
      → f (m s).1 ≡ f s
      → ((a : A) (t : S) → f (k a t).1 ≡ f t)
      → f ((m >>= k) s).1 ≡ f s
  >>=-keeps m k s first rest = continue-keeps (m s).0 k (m s).1 (λ a. rest a (m s).1) ∙ first

  pub for_each-keeps :
      {A : Type 0} (body : A → Action E S (Unit {0}))
      → ((x : A) (s : S) → f (body x s).1 ≡ f s)
      → (xs : List A) (s : S) → f (for_each body xs s).1 ≡ f s
  unfolding for_each
  for_each-keeps body keep [] s = refl
  for_each-keeps body keep (x ∷ xs) s =
      >>=-keeps (body x) (λ _. for_each body xs) s (keep x s) (λ _ t. for_each-keeps body keep xs t)

  pub when-keeps :
      (b : Bool) (m : Action E S (Unit {0})) (s : S) → f (m s).1 ≡ f s → f (when b m s).1 ≡ f s
  when-keeps true m s h = h
  when-keeps false m s h = refl

-- A loop that returns has made the call of its first round, which returned, and those of the rest.
pub for_each-cons :
    {E S A : Type 0} (body : A → Action E S (Unit {0})) (x : A) (xs : List A) (s : S)
    → (for_each body (x ∷ xs) s).0 ≡ ok tt
    → ((body x s).0 ≡ ok tt)
      × ((for_each body xs (body x s).1).0 ≡ ok tt)
      × ((for_each body (x ∷ xs) s).1 ≡ (for_each body xs (body x s).1).1)
unfolding for_each
for_each-cons body x xs s h = elim (Result-cases (body x s).0) [
  | inl (e, failed) ↦ absurd (ground arith)
  | inr (done, given) ↦ (given, ground arith, ground arith)
]

-- What holds of the result and the state of an action, if it returns.
module _ {E S : Type 0} where
  abbrev pub Ensures : {A : Type 0} → Action E S A → S → (A → S → Type 0) → Type 0
  Ensures {A} m s Q = (a : A) → (m s).0 ≡ ok a → Q a (m s).1

  pub >>=-Ensures :
      {A B : Type 0} (m : Action E S A) (f : A → Action E S B) (s : S) (Q : B → S → Type 0)
      → ((a : A) → (m s).0 ≡ ok a → Ensures (f a) (m s).1 Q)
      → Ensures (m >>= f) s Q
  >>=-Ensures m f s Q rest b h =
      let (a, given, same) = continue-eq-ok (m s).0 f (m s).1 h in
      rw same (rest a given b (ap (λ r. r.0) (sym same) ∙ h))

  pub if-Ensures :
      {A : Type 0} (b : Bool) (m k : Action E S A) (s : S) (Q : A → S → Type 0)
      → (b ≡ true → Ensures m s Q)
      → (b ≡ false → Ensures k s Q)
      → Ensures (if b then m else k) s Q
  if-Ensures true m k s Q yes_case no_case = yes_case refl
  if-Ensures false m k s Q yes_case no_case = no_case refl

  pub lift_err-Ensures :
      {A : Type 0} (e : E) (s : S) (Q : A → S → Type 0) → Ensures (lift {A = A} (err e)) s Q
  lift_err-Ensures e s Q a h = absurd (cc)

  pub pure-Ensures :
      {A : Type 0} (a : A) (s : S) (Q : A → S → Type 0) → Q a s → Ensures (pure a) s Q
  pure-Ensures a s Q q b h = let same : a ≡ b = ground arith in rw (sym same) q

-- An action that returns, with what holds then.
module _ {E S : Type 0} where
  abbrev pub Answers : {A : Type 0} → Action E S A → S → (A → S → Type 0) → Type 0
  Answers {A} m s Q = (a : A) × ((m s).0 ≡ ok a) × Q a (m s).1

  pub pure-Answers :
      {A : Type 0} (a : A) (s : S) (Q : A → S → Type 0) → Q a s → Answers (pure a) s Q
  pure-Answers a s Q q = (a, refl, q)

  continue-ok :
      {A B : Type 0} (r : Result E A) (f : A → Action E S B) (s : S) (a : A)
      → r ≡ ok a
      → continue r f s ≡ f a s
  continue-ok (ok b) f s a h = let same : b ≡ a = ground arith in ap (λ x. f x s) same
  continue-ok (err e) f s a h = absurd (cc)

  pub >>=-Answers :
      {A B : Type 0} (m : Action E S A) (f : A → Action E S B) (s : S) (P : A → S → Type 0)
      (Q : B → S → Type 0)
      → Answers m s P
      → ((a : A) → P a (m s).1 → Answers (f a) (m s).1 Q)
      → Answers (m >>= f) s Q
  >>=-Answers m f s P Q (a, given, p) rest = rw (continue-ok (m s).0 f (m s).1 a given) (rest a p)
