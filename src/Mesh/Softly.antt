-- ===== src/Mesh/Softly.antt =====
-- 802.11s/Nl80211Handler.cpp: calls that end with a value, or with an exception that is caught.

use fbmeshd.Prelude.{nat_eq}
use fbmeshd.Mesh.{Exception, Result, ok, throw}
use fbmeshd.Mesh.Handler.{World, Action, continue, caught, Yields}

module _ {K : Type 0} where
  -- A call ends with a value, of which P is true.
  abbrev pub Succeeds : {A : Type 0} → (A → World K → Type 0) → Result A × World K → Type 0
  Succeeds P (ok a, w) = P a w
  Succeeds P (throw e, w) = ⊥

  -- The same, or it ends with an exception that is caught.
  abbrev pub Softly : {A : Type 0} → (A → World K → Type 0) → Result A × World K → Type 0
  Softly P (ok a, w) = P a w
  Softly P (throw Exception.runtime_error, w) = Unit
  Softly P (throw e, w) = ⊥

  pub both-Succeeds :
      {A : Type 0} (P Q : A → World K → Type 0) (x : Result A × World K)
      → Succeeds P x
      → Yields Q x
      → Succeeds Q x
  both-Succeeds P Q (ok a, w) h y = y
  both-Succeeds P Q (throw e, w) h y = h

  pub continue-Succeeds :
      {A B : Type 0} (P : A → World K → Type 0) (Q : B → World K → Type 0) (x : Result A × World K)
      (f : A → Action K B)
      → Succeeds P x
      → ((a : A) (w : World K) → P a w → Succeeds Q (f a w))
      → Succeeds Q (continue x f)
  continue-Succeeds P Q (ok a, w) f h k = k a w h
  continue-Succeeds P Q (throw e, w) f h k = h

  pub continue-Softly :
      {A B : Type 0} (P : A → World K → Type 0) (Q : B → World K → Type 0) (x : Result A × World K)
      (f : A → Action K B)
      → Softly P x
      → ((a : A) (w : World K) → P a w → Softly Q (f a w))
      → Softly Q (continue x f)
  continue-Softly P Q (ok a, w) f h k = k a w h
  continue-Softly P Q (throw Exception.runtime_error, w) f h k = h
  continue-Softly P Q (throw Exception.invalid_argument, w) f h k = h
  continue-Softly P Q (throw Exception.out_of_range, w) f h k = h
  continue-Softly P Q (throw Exception.check_failed, w) f h k = h
  continue-Softly P Q (throw Exception.bad_memory, w) f h k = h
  continue-Softly P Q (throw Exception.blocked, w) f h k = h

  pub caught-Succeeds :
      {A : Type 0} (P : A → World K → Type 0) (x : Result A × World K) (a : A)
      → Softly P x
      → Succeeds (λ _ _. Unit) (caught x.0 a, x.1)
  caught-Succeeds P (ok b, w) a h = tt
  caught-Succeeds P (throw Exception.runtime_error, w) a h = tt
  caught-Succeeds P (throw Exception.invalid_argument, w) a h = h
  caught-Succeeds P (throw Exception.out_of_range, w) a h = h
  caught-Succeeds P (throw Exception.check_failed, w) a h = h
  caught-Succeeds P (throw Exception.bad_memory, w) a h = h
  caught-Succeeds P (throw Exception.blocked, w) a h = h
