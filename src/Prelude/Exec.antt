-- ===== src/Prelude/Exec.antt =====
-- Service functions over a database state: a call returns a value or throws, and what was written
-- before a throw stays written unless a session rolls it back.
use native.Mathlib.Omega.{arith}
use mathlib.Core.Path.{◌≡◌, refl}
use mathlib.Core.Logic.{◌⊎◌, inl, inr}
use mathlib.Core.Bool.{Bool, true, false}
use mathlib.Core.Option.{Option, none, some}
use kanz_coins_backend.Prelude.Tests.{if◌then◌else◌}

pub data Result {ℓ} (E : Type ℓ) (A : Type ℓ) : Type ℓ where
  ok : A → Result E A
  err : E → Result E A

abbrev pub Exec {ℓ} : Type ℓ → Type ℓ → Type ℓ → Type ℓ
Exec S E A = S → Result E A × S

module _ {ℓ} {S E A : Type ℓ} where
  abbrev pub pure : A → Exec S E A
  pure a s = (ok a, s)

  abbrev pub throw : E → Exec S E A
  throw e s = (err e, s)

  abbrev pub gets : (S → A) → Exec S E A
  gets f s = (ok (f s), s)

  abbrev pub or_throw : Option A → E → Exec S E A
  or_throw none e = throw e
  or_throw (some a) e = pure a

  -- `session.withTransaction`: a throw rolls every write back. `false` is a standalone server,
  -- on which no session can be opened and what was written stays.
  abbrev pub in_session : Bool → Exec S E A → Exec S E A
  in_session transactions m s =
      let (r, s') = m s in
      elim r [
        | ok a ↦ (ok a, s')
        | err e ↦ elim transactions [ true ↦ (err e, s) | false ↦ (err e, s') ]
      ]

  -- `try { … } catch (e) { … }` with a result in either case
  abbrev pub catch : Exec S E A → (E → Exec S E A) → Exec S E A
  catch m handler s = let (r, s') = m s in elim r [ ok a ↦ (ok a, s') | err e ↦ handler e s' ]

abbrev pub modify_state {ℓ} : {S E : Type ℓ} → (S → S) → Exec S E (Unit {ℓ})
modify_state f s = (ok tt, f s)

abbrev pub throw_if {ℓ} : {S E : Type ℓ} → Bool → E → Exec S E (Unit {ℓ})
throw_if true e s = (err e, s)
throw_if false e s = (ok tt, s)

infixl 5 ◌>>=◌ ◌>>◌
abbrev pub ◌>>=◌ {ℓ} : {S E A B : Type ℓ} → Exec S E A → (A → Exec S E B) → Exec S E B
◌>>=◌ m f s = let (r, s') = m s in elim r [ ok a ↦ f a s' | err e ↦ (err e, s') ]

abbrev pub ◌>>◌ {ℓ} : {S E A B : Type ℓ} → Exec S E A → Exec S E B → Exec S E B
m >> k = m >>= λ _. k

pub Result-cases {ℓ} :
    {E A : Type ℓ} (r : Result E A) → ((a : A) × (r ≡ ok a)) ⊎ ((e : E) × (r ≡ err e))
Result-cases (ok a) = inl (a, refl)
Result-cases (err e) = inr (e, refl)

-- A call that keeps a predicate of the state, whether it returns or throws.
abbrev pub Keeps {ℓ κ} : {S E A : Type ℓ} → (S → Type κ) → Exec S E A → Type (ℓ ⊔ κ)
Keeps P m = (s : _) → P s → P (m s).1

module _ {ℓ κ} {S E A : Type ℓ} (P : S → Type κ) where
  pub Keeps-bind :
      {B : Type ℓ} (m : Exec S E A) (f : A → Exec S E B)
      → Keeps P m
      → ((a : A) → Keeps P (f a))
      → Keeps P (m >>= f)
  Keeps-bind m f km kf s h = elim (Result-cases (m s).0) [
    | inl (a, e) ↦ rw (e, ◌>>=◌) (kf a (m s).1 (km s h))
    | inr (x, e) ↦ rw (e, ◌>>=◌) (km s h)
  ]

  pub Keeps-in_session :
      (transactions : Bool) (m : Exec S E A) → Keeps P m → Keeps P (in_session transactions m)
  Keeps-in_session true m km s h = elim (Result-cases (m s).0) [
    | inl (a, e) ↦ rw (e, in_session) (km s h)
    | inr (x, e) ↦ rw (e, in_session) h
  ]
  Keeps-in_session false m km s h = elim (Result-cases (m s).0) [
    | inl (a, e) ↦ rw (e, in_session) (km s h)
    | inr (x, e) ↦ rw (e, in_session) (km s h)
  ]

  pub Keeps-catch :
      (m : Exec S E A) (handler : E → Exec S E A)
      → Keeps P m
      → ((e : E) → Keeps P (handler e))
      → Keeps P (catch m handler)
  Keeps-catch m handler km kh s h = elim (Result-cases (m s).0) [
    | inl (a, e) ↦ rw (e, catch) (km s h)
    | inr (x, e) ↦ rw (e, catch) (kh x (m s).1 (km s h))
  ]

  pub Keeps-if :
      (test : Bool) (m n : Exec S E A) (on_true : test ≡ true → Keeps P m)
      (on_false : test ≡ false → Keeps P n)
      → Keeps P (if test then m else n)
  Keeps-if true m n on_true on_false s h = on_true refl s h
  Keeps-if false m n on_true on_false s h = on_false refl s h

-- A successful bind, taken apart.
pub >>=-eq-ok {ℓ} :
    {S E A B : Type ℓ} (m : Exec S E A) (f : A → Exec S E B) (s : S) {b : B}
    → ((m >>= f) s).0 ≡ ok b
    → (a : A) × ((m s).0 ≡ ok a) × ((m >>= f) s ≡ f a (m s).1)
>>=-eq-ok m f s h = elim (Result-cases (m s).0) [
  | inl (a, e) ↦ (a, e, rw (e, ◌>>=◌))
  | inr (x, e) ↦ absurd (ground arith)
]
