-- ===== src/Auth/Hmac/Token.antt =====
-- auth/authn/engine/hmac/hmac.go: the text of a token, taken apart again.
use kratos_kit.Base.{
  ℕ, ◌≡◌, refl, String, ◌<>◌, true, none, some, List, [], ◌∷◌, length, ◌≤◌, ◌<◌, ◌+◌, suc, nat_eq,
  arith, if◌then◌else◌,
}
use Prim.Native.Char.{Char, code}
use text.Mathlib.TextLemmas.{nil-append, cons-append}
use kratos_kit.Base.Text.{push_front, split, contains_char, split_lacking, split-append}
use kratos_kit.Auth.Hmac.{IsPart, four, parse_token}

pub parse_token_of_parts :
    (k t n s : String)
    → IsPart k
    → IsPart t
    → IsPart n
    → IsPart s
    → parse_token (k <> ("." <> (t <> ("." <> (n <> ("." <> s))))))
      ≡ some (record { key_id = k; timestamp = t; nonce = n; signature = s })
unfolding parse_token
parse_token_of_parts k t n s (k1, k2) (t1, t2) (n1, n2) (s1, s2) =
    rw
      (
        split-append "." k (t <> ("." <> (n <> ("." <> s)))) k2,
        split-append "." t (n <> ("." <> s)) t2,
        split-append "." n s n2,
        split_lacking "." s s2,
        k1,
        t1,
        n1,
        s1,
      )
      refl

dots : String → ℕ
dots String.[] = 0
dots (String.◌∷◌ c s) = let rest = dots s in if nat_eq (code c) b'.' then suc rest else rest

length-push_front : (c : Char) (l : List String) → 1 ≤ length l → length (push_front c l) ≡ length l
length-push_front c [] h = absurd (omega arith)
length-push_front c (p ∷ l) h = refl

length-split : (s : String) → length (split "." s) ≡ suc (dots s)
unfolding split dots
length-split String.[] = refl
length-split (String.◌∷◌ c s) = ground (arith, length-split s, length-push_front c (split "." s))

dots-append : (a b : String) → dots (a <> b) ≡ dots a + dots b
unfolding dots
dots-append String.[] b = rw nil-append (omega arith)
dots-append (String.◌∷◌ c a) b = rw cons-append (ground (arith, dots-append a b))

dots-pos : (s : String) → contains_char "." s ≡ true → 1 ≤ dots s
unfolding dots contains_char
dots-pos String.[] h = absurd (ground arith)
dots-pos (String.◌∷◌ c s) h = ground (arith, dots-pos s)

four-not : (parts : List String) → 4 < length parts → four parts ≡ none
four-not [] h = refl
four-not (a ∷ []) h = refl
four-not (a ∷ b ∷ []) h = refl
four-not (a ∷ b ∷ c ∷ []) h = refl
four-not (a ∷ b ∷ c ∷ d ∷ []) h = absurd (omega arith)
four-not (a ∷ b ∷ c ∷ d ∷ e ∷ l) h = refl

dots_of_dot : dots "." ≡ 1
unfolding dots
dots_of_dot = refl

many_parts :
    (k t n s : String)
    → contains_char "." k ≡ true
    → 4 < length (split "." (k <> ("." <> (t <> ("." <> (n <> ("." <> s)))))))
many_parts k t n s h =
    rw (length-split, dots-append, dots-append, dots-append, dots-append, dots-append, dots-append)
      (omega (arith, dots_of_dot, dots-pos k h))

-- A token whose key ID holds a dot has too many parts.
pub parse_token_of_dotted :
    (k t n s : String)
    → contains_char "." k ≡ true
    → parse_token (k <> ("." <> (t <> ("." <> (n <> ("." <> s)))))) ≡ none
unfolding parse_token
parse_token_of_dotted k t n s h =
    four-not (split "." (k <> ("." <> (t <> ("." <> (n <> ("." <> s))))))) (many_parts k t n s h)
