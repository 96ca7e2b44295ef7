-- ===== src/Prelude/Texts.antt =====
-- Text as the list of its code points, and uuids as texts: equality, order, prefixes, search.
use Prim.Native.Nat.{ℕ}
use Prim.Native.Char.{code}
use Prim.Native.String.{String}
use mathlib.Core.Path.{◌≡◌, refl, ap, ap₂}
use mathlib.Core.Logic.{◌↔◌, ◌≢◌, inl, inr}
use mathlib.Core.Bool.{Bool, true, false, ◌&&◌, ◌||◌}
use mathlib.Core.Option.{Option, none, some}
use mathlib.Core.List.{List, [], ◌∷◌}
use native.Mathlib.Omega.{arith}
use logchain.Prelude.Tests.{if◌then◌else◌, ltb, leb, ◌==◌, ==_iff, and-true, Bool-cases}

abbrev pub Text : Type 0
Text = List ℕ

abbrev pub codes : String → Text
codes String.[] = []
codes (String.◌∷◌ c s) = code c ∷ codes s

-- `a === b`
unfoldable pub text_eq : Text → Text → Bool
text_eq [] [] = true
text_eq [] (_ ∷ _) = false
text_eq (_ ∷ _) [] = false
text_eq (a ∷ s) (b ∷ t) = a == b && text_eq s t

pub text_eq-eq : (s t : Text) → text_eq s t ≡ true → s ≡ t
unfolding text_eq
text_eq-eq [] [] h = refl
text_eq-eq [] (b ∷ t) h = cc
text_eq-eq (a ∷ s) [] h = cc
text_eq-eq (a ∷ s) (b ∷ t) h =
    let (p, q) = and-true (a == b) (text_eq s t) h in ap₂ ◌∷◌ ((==_iff a b).0 p) (text_eq-eq s t q)

pub text_eq_refl : (s : Text) → text_eq s s ≡ true
unfolding text_eq
text_eq_refl [] = refl
text_eq_refl (a ∷ s) = ground (arith, text_eq_refl s)

pub text_eq_iff : (s t : Text) → (text_eq s t ≡ true) ↔ (s ≡ t)
text_eq_iff s t = (text_eq-eq s t, λ e. rw e (text_eq_refl t))

pub text_eq_comm : (s t : Text) → text_eq s t ≡ text_eq t s
unfolding text_eq
text_eq_comm [] [] = refl
text_eq_comm [] (b ∷ t) = refl
text_eq_comm (a ∷ s) [] = refl
text_eq_comm (a ∷ s) (b ∷ t) = ground (arith, text_eq_comm s t)

pub text_eq-false : (s t : Text) → s ≢ t → text_eq s t ≡ false
text_eq-false s t h = elim (Bool-cases (text_eq s t)) [
  | inl e ↦ absurd (h (text_eq-eq s t e))
  | inr e ↦ e
]

-- `a === b` of two texts or nulls
abbrev pub option_eq : Option Text → Option Text → Bool
option_eq none none = true
option_eq none (some t) = false
option_eq (some s) none = false
option_eq (some s) (some t) = text_eq s t

pub option_eq-eq : (s t : Option Text) → option_eq s t ≡ true → s ≡ t
option_eq-eq none none h = refl
option_eq-eq none (some t) h = cc
option_eq-eq (some s) none h = cc
option_eq-eq (some s) (some t) h = ap some (text_eq-eq s t h)

-- `s.startsWith(p)`
unfoldable pub starts_with : Text → Text → Bool
starts_with [] s = true
starts_with (a ∷ p) [] = false
starts_with (a ∷ p) (b ∷ s) = a == b && starts_with p s

-- `s.includes(p)`
unfoldable pub includes : Text → Text → Bool
unfolding starts_with
includes p [] = starts_with p []
includes p (b ∷ s) = starts_with p (b ∷ s) || includes p s

-- The order of Postgres on uuids, which is that of their lower-case texts.
unfoldable pub text_leb : Text → Text → Bool
text_leb [] t = true
text_leb (a ∷ s) [] = false
text_leb (a ∷ s) (b ∷ t) = let rest = text_leb s t in ltb a b || (a == b && rest)

pub text_leb_total : (s t : Text) → text_leb s t ≡ false → text_leb t s ≡ true
unfolding text_leb
text_leb_total [] t h = cc
text_leb_total (a ∷ s) [] h = refl
text_leb_total (a ∷ s) (b ∷ t) h = ground (arith, text_leb_total s t)

pub text_leb_trans :
    (r s t : Text) → text_leb r s ≡ true → text_leb s t ≡ true → text_leb r t ≡ true
unfolding text_leb
text_leb_trans [] s t h k = refl
text_leb_trans (a ∷ r) [] t h k = cc
text_leb_trans (a ∷ r) (b ∷ s) [] h k = cc
text_leb_trans (a ∷ r) (b ∷ s) (c ∷ t) h k = ground (arith, text_leb_trans r s t)

-- The white space that `trim` removes.
abbrev pub is_space : ℕ → Bool
is_space c =
    (leb 9 c && leb c 13)
    || c == 32
    || c == 160
    || c == 0x1680
    || (leb 0x2000 c && leb c 0x200a)
    || c == 0x2028
    || c == 0x2029
    || c == 0x202f
    || c == 0x205f
    || c == 0x3000
    || c == 0xfeff

unfoldable pub trim_start : Text → Text
trim_start [] = []
trim_start (c ∷ s) = let rest = trim_start s in if is_space c then rest else c ∷ s

-- Removes a run of white space that ends the text.
unfoldable pub trim_end : Text → Text
trim_end [] = []
trim_end (c ∷ s) = elim (trim_end s) [ [] ↦ if is_space c then [] else c ∷ [] | d ∷ t ↦ c ∷ d ∷ t ]

unfoldable pub trim : Text → Text
unfolding trim_start trim_end
trim s = trim_end (trim_start s)
