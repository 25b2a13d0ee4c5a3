-- ===== src/Redact/Text/Cuts.antt =====
-- redact/redactor.go: Email on a text whose local part is cut at a byte.
use kratos_kit.Base.{
  ℕ, ◌-◌, ◌≤◌, ◌<◌, ◌≡◌, ◌≢◌, refl, sym, String, ◌<>◌, Bool, true, false, Option, none, some, ltb,
  nat_eq, arith, if◌then◌else◌,
}
use Prim.Native.Char.{Char, code, len_utf8}
use Prim.Native.String.len
use Prim.Native.String.{len}
use text.Mathlib.TextPositions.{len-append, len_utf8-pos}
use text.Mathlib.TextLemmas.{nil-append, cons-append}
use native.Mathlib.Nat.{add-sub_cancel_left}
use kratos_kit.Redact.Text.{put_front, take_bytes, cut_last, repeat_text, mask_local, email}

-- No character of the text is an @.
unfoldable pub HasNoAt : String → Type 0
HasNoAt String.[] = Unit {0}
HasNoAt (String.◌∷◌ c s) = (nat_eq (code c) b'@' ≡ false) × HasNoAt s

cut_last-none : (s : String) → HasNoAt s → cut_last s ≡ none
unfolding cut_last HasNoAt
cut_last-none String.[] h = refl
cut_last-none (String.◌∷◌ c s) (e, h) = rw (cut_last-none s h, e)

cut_last-at : (l d : String) → HasNoAt d → cut_last (l <> ("@" <> d)) ≡ some (l, d)
unfolding cut_last
cut_last-at String.[] d h = rw (nil-append, cons-append, nil-append, cut_last-none d h)
cut_last-at (String.◌∷◌ c l) d h = rw (cons-append, cut_last-at l d h)

put_front-some :
    (c : Char) (o : Option String) (p : String) → o ≡ some p → put_front c o ≡ some (String.◌∷◌ c p)
put_front-some c o p e = rw e

take_bytes-append : (p q : String) → take_bytes (len p) (p <> q) ≡ some p
unfolding take_bytes
take_bytes-append String.[] String.[] = refl
take_bytes-append String.[] (String.◌∷◌ c q) = rw nil-append
take_bytes-append (String.◌∷◌ c p) q =
    let (k, e) = len_utf8-pos c in
    let ih = take_bytes-append p q in
    rw (cons-append, len.cons, add-sub_cancel_left, ih) (ground arith)

take_bytes-none :
    (n : ℕ) (s : String)
    → n < len s
    → ((p q : String) → s ≡ p <> q → len p ≢ n)
    → take_bytes n s ≡ none
unfolding take_bytes
take_bytes-none n String.[] h inside = absurd (omega (arith, h))
take_bytes-none n (String.◌∷◌ c s) h inside =
    let (k, e) = len_utf8-pos c in
    let first : n ≢ 0 = λ z. inside String.[] (String.◌∷◌ c s) (sym (nil-append _)) (sym z) in
    let ih : len_utf8 c ≤ n → take_bytes (n - len_utf8 c) s ≡ none = λ g.
      take_bytes-none (n - len_utf8 c) s (omega (arith, h, len.cons c s, g)) (λ p q d f.
        inside (String.◌∷◌ c p) q (rw (cons-append, d)) (rw len.cons (omega (arith, f, g)))) in
    let missed : len_utf8 c ≤ n → put_front c (take_bytes (n - len_utf8 c) s) ≡ none =
      λ g. rw (ih g) in
    ground (arith, missed)

-- A text whose parts around the last @ are local and domain: with as many bytes of the local part kept
-- as some characters p of it have, Email puts a mask in place of every byte of the rest, q, and of the
-- domain if that is to be masked. When the bytes to keep end inside a character, what Email returns is
-- no UTF-8 (none).
pub email_lem :
    (p q domain : String) (n : ℕ) (mask_domain : Bool) (mask_char : String)
    → HasNoAt domain
    → n < len (p <> q)
    → (len p ≡ n
        → email ((p <> q) <> ("@" <> domain)) n mask_domain mask_char
          ≡ some (
              (p <> repeat_text mask_char (len q))
              <> ("@" <> (if mask_domain then repeat_text mask_char (len domain) else domain))))
      × (((front back : String) → p <> q ≡ front <> back → len front ≢ n)
          → email ((p <> q) <> ("@" <> domain)) n mask_domain mask_char ≡ none)
unfolding email
email_lem p q domain n mask_domain mask_char free h =
    let found = cut_last-at (p <> q) domain free in
    let test : ltb n (len (p <> q)) ≡ true = ground arith in
    (
      λ e.
          rw (found, mask_local, test, ← e, take_bytes-append p q, len-append, add-sub_cancel_left),
      λ inside. rw (found, mask_local, test, take_bytes-none n (p <> q) h inside),
    )
