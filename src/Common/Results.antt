-- ===== src/Common/Results.antt =====
-- Rust's `Result<A, E>`, with the bind that `?` stands for.
use mathlib.Core.Path.{◌≡◌, refl}
use mathlib.Core.Logic.{◌⊎◌, inl, inr}
use mathlib.Core.Option.{Option, none, some}
use mathlib.Core.Bool.{Bool, true, false}

pub data Result {ℓ κ} (E : Type κ) (A : Type ℓ) : Type (ℓ ⊔ κ) where
  ok : A → Result E A
  err : E → Result E A

module _ {E : Type 0} where
  -- `o.ok_or(e)`
  abbrev pub ok_or : {A : Type 0} → Option A → E → Result E A
  ok_or (some a) e = ok a
  ok_or none e = err e

  -- `return Err(e)` unless the test holds
  abbrev pub guard : Bool → E → Result E (Unit {0})
  guard b e = elim b [ true ↦ ok tt | false ↦ err e ]

  abbrev pub is_ok : {A : Type 0} → Result E A → Bool
  is_ok (ok a) = true
  is_ok (err e) = false

  -- `r.map_err(f)`
  abbrev pub map_err : {F A : Type 0} → (E → F) → Result E A → Result F A
  map_err f (ok a) = ok a
  map_err f (err e) = err (f e)

  infixl 5 ◌>>=◌ ◌>>◌
  abbrev pub ◌>>=◌ : {A B : Type 0} → Result E A → (A → Result E B) → Result E B
  ◌>>=◌ m next = elim m [ err e ↦ err e | ok a ↦ next a ]

  abbrev pub ◌>>◌ : {B : Type 0} → Result E (Unit {0}) → Result E B → Result E B
  ◌>>◌ m next = elim m [ err e ↦ err e | ok _ ↦ next ]

module _ {E A : Type 0} where
  pub Result-cases : (r : Result E A) → ((e : E) × (r ≡ err e)) ⊎ ((a : A) × (r ≡ ok a))
  Result-cases (ok a) = inr (a, refl)
  Result-cases (err e) = inl (e, refl)

  -- A new state with a result.
  pub Outcome-cases :
      {S : Type 0} (o : S × Result E A)
      → ((s : S) × (e : E) × (o ≡ (s, err e))) ⊎ ((s : S) × (a : A) × (o ≡ (s, ok a)))
  Outcome-cases (s, ok a) = inr (s, a, refl)
  Outcome-cases (s, err e) = inl (s, e, refl)

  -- What holds where the result is an error, and where it is a value.
  pub data Ends {S : Type 0} (bad : S → E → Type 0) (good : S → A → Type 0)
      : S × Result E A → Type 0 where
    failed : (s : S) (e : E) → bad s e → Ends bad good (s, err e)
    gave : (s : S) (a : A) → good s a → Ends bad good (s, ok a)

  pub Ends-cases :
      {S : Type 0} {bad : S → E → Type 0} {good : S → A → Type 0} (o : S × Result E A)
      → Ends bad good o
      → ((e : E) × (o.1 ≡ err e) × bad o.0 e) ⊎ ((a : A) × (o.1 ≡ ok a) × good o.0 a)
  Ends-cases o (failed s e p) = inl (e, refl, p)
  Ends-cases o (gave s a p) = inr (a, refl, p)
