-- ===== src/Prelude/Text.antt =====
-- Text as its list of code points, with the string methods that the services call. `toLowerCase`
-- and `toUpperCase` are modelled on ASCII letters; `trim` drops every blank of the language.
use Prim.Native.Nat.{ℕ, ◌+◌, ◌-◌}
use Prim.Native.Char.{code}
use Prim.Native.String.{String}
use mathlib.Core.Path.{◌≡◌, refl}
use mathlib.Core.Logic.{◌↔◌}
use mathlib.Core.Bool.{Bool, true, false, ◌&&◌, ◌||◌}
use mathlib.Core.Option.{Option, none, some}
use mathlib.Core.List.{List, [], ◌∷◌, reverse}
use native.Mathlib.Omega.{arith}
use kanz_coins_backend.Prelude.Tests.{◌==◌, leb, if◌then◌else◌}

abbrev pub Text : Type 0
Text = List ℕ

-- The code points of a literal.
abbrev pub codes : String → Text
codes String.[] = []
codes (String.◌∷◌ c s) = code c ∷ codes s

-- `===` on texts
abbrev pub same_text : Text → Text → Bool
same_text [] [] = true
same_text [] (b ∷ t) = false
same_text (a ∷ s) [] = false
same_text (a ∷ s) (b ∷ t) = a == b && same_text s t

abbrev pub lower_code : ℕ → ℕ
lower_code c = if leb b'A' c && leb c b'Z' then c + 32 else c

abbrev pub to_lower_case : Text → Text
to_lower_case [] = []
to_lower_case (c ∷ s) = lower_code c ∷ to_lower_case s

abbrev pub upper_code : ℕ → ℕ
upper_code c = if leb b'a' c && leb c b'z' then c - 32 else c

abbrev pub to_upper_case : Text → Text
to_upper_case [] = []
to_upper_case (c ∷ s) = upper_code c ∷ to_upper_case s

abbrev pub is_blank : ℕ → Bool
is_blank c =
    (leb 9 c && leb c 13)
    || c == 32
    || c == 160
    || c == 0x1680
    || (leb 0x2000 c && leb c 0x200a)
    || c == 0x2028
    || c == 0x2029
    || c == 0x202f
    || c == 0x205f
    || c == 0x3000
    || c == 0xfeff

abbrev pub trim_start : Text → Text
trim_start [] = []
trim_start (c ∷ s) = if is_blank c then trim_start s else c ∷ s

abbrev pub trim : Text → Text
trim s = reverse (trim_start (reverse (trim_start s)))

pub same_text_iff : (s t : Text) → (same_text s t ≡ true) ↔ (s ≡ t)
same_text_iff [] [] = (λ _. refl, λ _. refl)
same_text_iff [] (b ∷ t) = (λ h. cc, λ h. cc)
same_text_iff (a ∷ s) [] = (λ h. cc, λ h. cc)
same_text_iff (a ∷ s) (b ∷ t) =
    let ih = same_text_iff s t in (λ h. ground (arith, ih), λ h. ground (arith, ih))

pub same_text_refl : (s : Text) → same_text s s ≡ true
same_text_refl s = (same_text_iff s s).1 refl

-- `list.includes(text)`
unfoldable pub includes : Text → List Text → Bool
includes k [] = false
includes k (j ∷ js) = same_text k j || includes k js

-- `object[key]` over the object's own keys; a key stands in it once.
unfoldable pub get {ℓ} : {A : Type ℓ} → Text → List (Text × A) → Option A
get k [] = none
get k ((j, a) ∷ m) = if same_text k j then some a else get k m
