-- ===== src/Providers/Status/Refunds.antt =====
-- The two tables of src/modules/providers/statusMapper.js against one another.
use kanz_coins_backend.Prelude.{
  ◌≡◌, refl, sym, ◌∙◌, Bool, true, false, ◌&&◌, ◌||◌, not, Option, none, some, List, [], ◌∷◌, ◌++◌,
  arith, inl, inr,
}
use kanz_coins_backend.Prelude.Tests.{if◌then◌else◌, Bool-cases}
use kanz_coins_backend.Prelude.Text.{Text, same_text, same_text_iff, includes, get}
use kanz_coins_backend.Db.{OrderStatus}
use kanz_coins_backend.Providers.Status.{
  status_map, Mapped, status, inherited, map_key, status_key, to_internal_status, is_terminal,
  full_refund_keys, partial_refund_keys, requires_refund,
}

-- The statuses that give money back.
abbrev pub refunds : OrderStatus → Bool
refunds OrderStatus.failed = true
refunds OrderStatus.canceled = true
refunds OrderStatus.partial = true
refunds _ = false

abbrev keys_where {ℓ} : {A : Type ℓ} → (A → Bool) → List (Text × A) → List Text
keys_where p [] = []
keys_where p ((k, a) ∷ m) = let rest = keys_where p m in if p a then k ∷ rest else rest

abbrev keys {ℓ} : {A : Type ℓ} → List (Text × A) → List Text
keys [] = []
keys ((k, a) ∷ m) = k ∷ keys m

abbrev are_distinct : List Text → Bool
are_distinct [] = true
are_distinct (k ∷ ks) = not (includes k ks) && are_distinct ks

abbrev are_within : List Text → List Text → Bool
are_within [] ts = true
are_within (k ∷ ks) ts = includes k ts && are_within ks ts

abbrev test {ℓ} : {A : Type ℓ} → (A → Bool) → Option A → Bool
test p none = false
test p (some a) = p a

-- A key outside the map stands in no part of it.
not-includes-keys_where {ℓ} :
    {A : Type ℓ} (p : A → Bool) (k : Text) (m : List (Text × A))
    → includes k (keys m) ≡ false
    → includes k (keys_where p m) ≡ false
unfolding includes
not-includes-keys_where p k [] h = refl
not-includes-keys_where p k ((j, a) ∷ m) h = ground (arith, not-includes-keys_where p k m)

includes-keys_where {ℓ} :
    {A : Type ℓ} (p : A → Bool) (k : Text) (m : List (Text × A))
    → are_distinct (keys m) ≡ true
    → includes k (keys_where p m) ≡ test p (get k m)
unfolding includes get
includes-keys_where p k [] h = refl
includes-keys_where p k ((j, a) ∷ m) h = elim (Bool-cases (same_text k j)) [
  | inl same ↦ ground (arith, not-includes-keys_where p j m, (same_text_iff k j).0 same)
  | inr other ↦ ground (arith, includes-keys_where p k m)
]

includes-within :
    (k : Text) (ks ts : List Text)
    → are_within ks ts ≡ true
    → includes k ks ≡ true
    → includes k ts ≡ true
unfolding includes
includes-within k [] ts w h = cc
includes-within k (j ∷ js) ts w h = elim (Bool-cases (same_text k j)) [
  | inl same ↦ ground (arith, (same_text_iff k j).0 same)
  | inr other ↦ includes-within k js ts (ground arith) (ground arith)
]

includes-append :
    (k : Text) (ks ts : List Text) → includes k (ks ++ ts) ≡ includes k ks || includes k ts
unfolding includes
includes-append k [] ts = refl
includes-append k (j ∷ js) ts = ground (arith, includes-append k js ts)

-- Two lists of the same keys, in any order, include the same texts.
includes-same :
    (k : Text) (ks ts : List Text)
    → are_within ks ts ≡ true
    → are_within ts ks ≡ true
    → includes k ks ≡ includes k ts
includes-same k ks ts w w' = ground (arith, includes-within k ks ts w, includes-within k ts ks w')

refund_keys_within :
    (are_within (full_refund_keys ++ partial_refund_keys) (keys_where refunds status_map) ≡ true)
    × (are_within (keys_where refunds status_map) (full_refund_keys ++ partial_refund_keys) ≡ true)
unfolding full_refund_keys partial_refund_keys status_map includes
refund_keys_within = (refl, refl)

status_map_distinct : are_distinct (keys status_map) ≡ true
unfolding status_map includes
status_map_distinct = refl

-- The texts that `requiresRefund` lists are those that `_MAP` sends to a refunding status.
refund_key-eq :
    (k : Text)
    → includes k full_refund_keys || includes k partial_refund_keys
      ≡ test refunds (get k status_map)
refund_key-eq k =
    sym (includes-append k full_refund_keys partial_refund_keys)
    ∙ includes-same k (full_refund_keys ++ partial_refund_keys) (keys_where refunds status_map)
        refund_keys_within.0 refund_keys_within.1
    ∙ includes-keys_where refunds k status_map status_map_distinct

abbrev pub refunds_mapped : Mapped → Bool
refunds_mapped (status s) = refunds s
refunds_mapped inherited = false

abbrev pub is_completed : Mapped → Bool
is_completed (status OrderStatus.completed) = true
is_completed _ = false

-- A provider status asks for a refund exactly when it maps to FAILED, CANCELED or PARTIAL, for
-- every text, whatever its case and the blanks round it.
pub requires_refund-eq :
    (s : Option Text) → requires_refund s ≡ refunds_mapped (to_internal_status s)
unfolding requires_refund to_internal_status map_key
requires_refund-eq s = ground (arith, refund_key-eq (status_key s))

-- A terminal status that asks for no refund is COMPLETED, and COMPLETED asks for none: the poller
-- completes an order on exactly those texts.
pub terminal-completed :
    (s : Option Text)
    → is_terminal s && not (requires_refund s) ≡ is_completed (to_internal_status s)
unfolding is_terminal
terminal-completed s = rw (requires_refund-eq s) (ground arith)
