-- ===== src/Prelude/Actions.antt =====
-- Code that changes a state and may fail: what was written before an error stays written.
use mathlib.Core.Path.{◌≡◌, ap, sym, subst}
use mathlib.Core.Logic.{inl, inr}
use herdr_dog_relay.Prelude.Results.{Result, ok, err, Result-cases}

abbrev pub Action : Type 0 → Type 0 → Type 0 → Type 0
Action S E A = S → S × Result E A

module _ {S E : Type 0} where
  -- A computation that only reads.
  unfoldable pub read : {A : Type 0} → (S → Result E A) → Action S E A
  read f s = (s, f s)

  abbrev pub write : (S → S) → Action S E (Unit {0})
  write f s = (f s, ok tt)

  abbrev pub returns : {A : Type 0} → A → Action S E A
  returns a s = (s, ok a)

  abbrev pub throws : {A : Type 0} → E → Action S E A
  throws e s = (s, err e)

-- What follows a step: nothing after an error.
abbrev pub continue : {S E A B : Type 0} → S × Result E A → (A → Action S E B) → S × Result E B
continue (s, err failure) rest = (s, err failure)
continue (s, ok value) rest = rest value s

infixl 5 ◌>>=◌ ◌>>◌
-- `?` on a step, then what follows.
unfoldable pub ◌>>=◌ : {S E A B : Type 0} → Action S E A → (A → Action S E B) → Action S E B
◌>>=◌ first rest s = continue (first s) rest

abbrev pub ◌>>◌ : {S E B : Type 0} → Action S E (Unit {0}) → Action S E B → Action S E B
first >> rest = first >>= λ _. rest

pub >>=-ok :
    {S E A B : Type 0} (first : Action S E A) (rest : A → Action S E B) (s : S) {t : S} {a : A}
    → first s ≡ (t, ok a)
    → (first >>= rest) s ≡ rest a t
unfolding ◌>>=◌
>>=-ok first rest s h = ap (λ r. continue r rest) h

pub >>=-err :
    {S E A B : Type 0} (first : Action S E A) (rest : A → Action S E B) (s : S) {t : S} {e : E}
    → first s ≡ (t, err e)
    → (first >>= rest) s ≡ (t, err e)
unfolding ◌>>=◌
>>=-err first rest s h = ap (λ r. continue r rest) h

pub read-eq :
    {S E A : Type 0} (f : S → Result E A) (s : S) {r : Result E A} → f s ≡ r → read f s ≡ (s, r)
unfolding read
read-eq f s h = ap (λ r. (s, r)) h

module _ {S E A : Type 0} (P : S × Result E A → Type 0) where
  -- A step that only reads fails without a change, or gives its value to what follows.
  pub read-ends :
      {B : Type 0} (f : S → Result E B) (rest : B → Action S E A) (s : S)
      → ((e : E) → f s ≡ err e → P (s, err e))
      → ((x : B) → f s ≡ ok x → P (rest x s))
      → P ((read f >>= rest) s)
  read-ends f rest s fails goes = elim (Result-cases (f s)) [
    | inl (x, h) ↦ subst P (sym (>>=-ok (read f) rest s (read-eq f s h))) (goes x h)
    | inr (e, h) ↦ subst P (sym (>>=-err (read f) rest s (read-eq f s h))) (fails e h)
  ]

  pub write-ends :
      (g : S → S) (rest : Action S E A) (s : S) → P (rest (g s)) → P ((write g >> rest) s)
  unfolding ◌>>=◌
  write-ends g rest s p = p
