-- ===== src/Base/Text.antt =====
-- What the source uses of Go's package strings, on texts as sequences of characters. A separator is
-- one ASCII character.
use Prim.Native.Nat.{ℕ, ◌+◌}
use Prim.Native.String.{String, ◌++◌ as ◌<>◌}
use Prim.Native.Char.{Char, code}
use mathlib.Core.Path.{◌≡◌, refl, ap}
use mathlib.Core.Bool.{Bool, true, false, ◌&&◌, ◌||◌}
use mathlib.Core.Option.{Option, none, some}
use mathlib.Core.List.{List, [], ◌∷◌}
use native.Mathlib.Omega.{arith}
use text.Mathlib.Text.{◌==◌}
use text.Mathlib.TextLemmas.{nil-append, cons-append, cons-ne-nil}
use text.Mathlib.TextEquality.{eq_iff}
use mathlib.Core.Logic.{inl, inr}
use kratos_kit.Base.Tests.{Bool-cases, nat_eq, leb, if◌then◌else◌}

-- []rune(s), and string(runes)
unfoldable pub chars : String → List Char
chars String.[] = []
chars (String.◌∷◌ c s) = c ∷ chars s

unfoldable pub of_chars : List Char → String
of_chars [] = ""
of_chars (c ∷ cs) = String.◌∷◌ c (of_chars cs)

pub chars-of_chars : (cs : List Char) → chars (of_chars cs) ≡ cs
unfolding chars of_chars
chars-of_chars [] = refl
chars-of_chars (c ∷ cs) = ap (λ l. c ∷ l) (chars-of_chars cs)

pub of_chars-chars : (s : String) → of_chars (chars s) ≡ s
unfolding chars of_chars
of_chars-chars String.[] = refl
of_chars-chars (String.◌∷◌ c s) = ap (λ l. String.◌∷◌ c l) (of_chars-chars s)

-- strings.Contains(s, sep)
unfoldable pub contains_char : Char → String → Bool
contains_char sep String.[] = false
contains_char sep (String.◌∷◌ c s) = nat_eq (code c) (code sep) || contains_char sep s

-- A character put in front of the first part
abbrev pub push_front : Char → List String → List String
push_front c [] = String.◌∷◌ c "" ∷ []
push_front c (p ∷ ps) = String.◌∷◌ c p ∷ ps

-- strings.Split(s, sep)
unfoldable pub split : Char → String → List String
split sep String.[] = "" ∷ []
split sep (String.◌∷◌ c s) =
    let rest = split sep s in if nat_eq (code c) (code sep) then "" ∷ rest else push_front c rest

abbrev map_first : Char → Option (String × String) → Option (String × String)
map_first c none = none
map_first c (some (p, rest)) = some (String.◌∷◌ c p, rest)

-- strings.SplitN(s, sep, 2): none for one part only
unfoldable pub cut : Char → String → Option (String × String)
cut sep String.[] = none
cut sep (String.◌∷◌ c s) =
    let rest = cut sep s in if nat_eq (code c) (code sep) then some ("", s) else map_first c rest

abbrev lower : ℕ → ℕ
lower c = if leb b'A' c && leb c b'Z' then c + 32 else c

-- strings.EqualFold, where one of the texts has ASCII letters only and neither k nor s (which have
-- letters beyond ASCII that fold to them)
unfoldable pub equal_fold : String → String → Bool
equal_fold String.[] String.[] = true
equal_fold String.[] (String.◌∷◌ d t) = false
equal_fold (String.◌∷◌ c s) String.[] = false
equal_fold (String.◌∷◌ c s) (String.◌∷◌ d t) =
    nat_eq (lower (code c)) (lower (code d)) && equal_fold s t

pub split_lacking : (sep : Char) (p : String) → contains_char sep p ≡ false → split sep p ≡ p ∷ []
unfolding split contains_char
split_lacking sep String.[] h = refl
split_lacking sep (String.◌∷◌ c s) h = ground (arith, split_lacking sep s)

split_at_sep : (sep : Char) (s : String) → split sep (String.◌∷◌ sep s) ≡ "" ∷ split sep s
unfolding split
split_at_sep sep s = ground arith

cut_at_sep : (sep : Char) (s : String) → cut sep (String.◌∷◌ sep s) ≡ some ("", s)
unfolding cut
cut_at_sep sep s = ground arith

-- Up to the first separator
pub split-append :
    (sep : Char) (p s : String)
    → contains_char sep p ≡ false
    → split sep (p <> (String.◌∷◌ sep "" <> s)) ≡ p ∷ split sep s
unfolding contains_char split
split-append sep String.[] s h =
    rw (nil-append (String.◌∷◌ sep "" <> s), cons-append sep "" s, nil-append s)
      (split_at_sep sep s)
split-append sep (String.◌∷◌ c p) s h =
    rw (cons-append c p (String.◌∷◌ sep "" <> s)) (ground (arith, split-append sep p s))

pub cut-append :
    (sep : Char) (p s : String)
    → contains_char sep p ≡ false
    → cut sep (p <> (String.◌∷◌ sep "" <> s)) ≡ some (p, s)
unfolding contains_char cut
cut-append sep String.[] s h =
    rw (nil-append (String.◌∷◌ sep "" <> s), cons-append sep "" s, nil-append s) (cut_at_sep sep s)
cut-append sep (String.◌∷◌ c p) s h =
    rw (cons-append c p (String.◌∷◌ sep "" <> s)) (ground (arith, cut-append sep p s))

pub cons_not_nil : (c : Char) (s : String) → (String.◌∷◌ c s == "") ≡ false
cons_not_nil c s = elim (Bool-cases (String.◌∷◌ c s == "")) [
  | inl q ↦ absurd (cons-ne-nil c s ((eq_iff (String.◌∷◌ c s) "").0 q))
  | inr q ↦ q
]

pub cut-ne_nil :
    (sep : Char) (s : String) (x : String × String) → cut sep s ≡ some x → (s == "") ≡ false
unfolding cut
cut-ne_nil sep String.[] x h = absurd (ground arith)
cut-ne_nil sep (String.◌∷◌ c s) x h = cons_not_nil c s

pub equal_fold_refl : (s : String) → equal_fold s s ≡ true
unfolding equal_fold
equal_fold_refl String.[] = refl
equal_fold_refl (String.◌∷◌ c s) = ground (arith, equal_fold_refl s)

pub contains-ne_nil : (sep : Char) (s : String) → contains_char sep s ≡ true → (s == "") ≡ false
unfolding contains_char
contains-ne_nil sep String.[] h = absurd (ground arith)
contains-ne_nil sep (String.◌∷◌ c s) h = cons_not_nil c s
