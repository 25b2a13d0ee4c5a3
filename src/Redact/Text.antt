-- ===== src/Redact/Text.antt =====
-- redact/redactor.go: Mask, MaskWithMin, Truncate, Email, FixedLength and IP on texts. A text is a
-- sequence of characters, what []rune makes of it; where the source cuts it at a byte, the cut may
-- go through a character, and what is left is no UTF-8 (none).
pub mod Mask
pub mod Cuts
mod Tests
use kratos_kit.Base.{
  ℕ, zero, suc, ◌+◌, ◌-◌, String, ◌<>◌, Bool, Option, none, some, List, [], ◌∷◌, ◌++◌, length, ltb,
  leb, nat_eq, ◌==◌, min, if◌then◌else◌,
}
use Prim.Native.Char.{Char, code, len_utf8}
use Prim.Native.String.{len}
use kratos_kit.Base.Text.{chars, of_chars, split}
use kratos_kit.Base.Int.{ℤ, pos_part, pos, ltb_ℤ}

module _ {ℓ} {A : Type ℓ} where
  unfoldable pub take : ℕ → List A → List A
  take zero l = []
  take (suc n) [] = []
  take (suc n) (x ∷ l) = x ∷ take n l

  unfoldable pub drop : ℕ → List A → List A
  drop zero l = l
  drop (suc n) [] = []
  drop (suc n) (x ∷ l) = drop n l

  -- strings.Repeat
  unfoldable pub repeat : List A → ℕ → List A
  repeat c zero = []
  repeat c (suc n) = c ++ repeat c n

-- How many characters are kept at each end, of n: the second half of MaskWithMin's bounds
abbrev pub make_room : ℕ → ℕ → ℕ → ℕ → ℕ × ℕ
make_room n min_mask first last =
    let masked = n - first - last in
    if ltb masked min_mask
    then (let need = min_mask - masked in
        if leb need last
        then (first, last - need)
        else (let need' = need - last in if ltb first need' then (0, 0) else (first - need', 0)))
    else (first, last)

abbrev pub bounds : ℕ → ℤ → ℤ → ℤ → ℕ × ℕ
bounds n keep_first keep_last min_mask =
    let first = min (pos_part keep_first) n in
    let last = min (pos_part keep_last) (n - first) in
    make_room n (min (pos_part min_mask) n) first last

module _ {ℓ} {A : Type ℓ} where
  -- What stands between the kept ends, replaced; nothing, if nothing stands there
  unfoldable pub cover : List A → ℕ × ℕ → List A → List A
  unfolding take drop repeat
  cover mask (first, last) s =
      let n = length s in
      let masked = n - first - last in
      if nat_eq masked 0 then s else take first s ++ (repeat mask masked ++ drop (n - last) s)

  -- MaskWithMin on runes
  unfoldable pub mask_runes : List A → ℤ → ℤ → ℤ → List A → List A
  unfolding cover
  mask_runes mask keep_first keep_last min_mask s =
      cover mask (bounds (length s) keep_first keep_last min_mask) s

-- MaskWithMin
unfoldable pub mask_with_min : String → ℤ → ℤ → ℤ → String → String
unfolding mask_runes chars of_chars
mask_with_min value keep_first keep_last min_mask mask_char =
    of_chars (mask_runes (chars mask_char) keep_first keep_last min_mask (chars value))

-- Mask
abbrev pub mask : String → ℤ → ℤ → String → String
mask value keep_first keep_last mask_char =
    mask_with_min value keep_first keep_last (pos 0) mask_char

-- Truncate
unfoldable pub truncate : String → ℤ → String → String
unfolding take chars of_chars
truncate value limit suffix =
    let cs = chars value in
    if ltb_ℤ limit (pos (length cs))
    then (if ltb_ℤ (pos 0) limit then of_chars (take (pos_part limit) cs) <> suffix else suffix)
    else value

abbrev put_front : Char → Option String → Option String
put_front c none = none
put_front c (some s) = some (String.◌∷◌ c s)

-- value[:n], for n up to its bytes
unfoldable pub take_bytes : ℕ → String → Option String
take_bytes n String.[] = some ""
take_bytes n (String.◌∷◌ c s) =
    let rest = put_front c (take_bytes (n - len_utf8 c) s) in
    if nat_eq n 0 then some "" else if ltb n (len_utf8 c) then none else rest

abbrev cut_here : Char → String → Option (String × String) → Option (String × String)
cut_here c s none = if nat_eq (code c) b'@' then some ("", s) else none
cut_here c s (some (l, r)) = some (String.◌∷◌ c l, r)

-- strings.LastIndex(value, "@"), with what stands before and behind it
unfoldable pub cut_last : String → Option (String × String)
cut_last String.[] = none
cut_last (String.◌∷◌ c s) = cut_here c s (cut_last s)

-- strings.Repeat on texts
abbrev pub repeat_text : String → ℕ → String
repeat_text mask n = of_chars (repeat (chars mask) n)

abbrev append_to : String → Option String → Option String
append_to t none = none
append_to t (some s) = some (s <> t)

-- The local part behind its kept bytes, masked
unfoldable pub mask_local : ℕ → String → String → Option String
unfolding repeat take_bytes chars of_chars
mask_local keep mask_char local =
    if ltb keep (len local)
    then append_to (repeat_text mask_char (len local - keep)) (take_bytes keep local)
    else some local

abbrev join_at : String → Option String → Option String
join_at domain none = none
join_at domain (some local) = some (local <> ("@" <> domain))

-- The text put together again from its parts, or the text where there is no @
abbrev pub masked_parts : String → ℕ → Bool → String → Option (String × String) → Option String
masked_parts value keep mask_domain mask_char none = some value
masked_parts value keep mask_domain mask_char (some (local, domain)) =
    join_at (if mask_domain then repeat_text mask_char (len domain) else domain)
      (mask_local keep mask_char local)

-- Email; the bytes kept are not negative, as in the rules
unfoldable pub email : String → ℕ → Bool → String → Option String
unfolding cut_last mask_local repeat chars of_chars
email value keep_local_first mask_domain mask_char =
    masked_parts value keep_local_first mask_domain mask_char (cut_last value)

-- FixedLength
unfoldable pub fixed_length : String → String → String
unfolding repeat chars of_chars
fixed_length value mask_char = repeat_text (if mask_char == "" then "X" else mask_char) (len value)

-- Parts from the k-th on are masked, for i < limit.
unfoldable pub mask_parts : ℕ → ℕ → String → List String → List String
mask_parts k limit mask_char [] = []
mask_parts zero zero mask_char (p ∷ ps) = p ∷ ps
mask_parts zero (suc limit) mask_char (p ∷ ps) = mask_char ∷ mask_parts zero limit mask_char ps
mask_parts (suc k) zero mask_char (p ∷ ps) = p ∷ ps
mask_parts (suc k) (suc limit) mask_char (p ∷ ps) = p ∷ mask_parts k limit mask_char ps

-- strings.Join
unfoldable pub join : String → List String → String
join sep [] = ""
join sep (p ∷ []) = p
join sep (p ∷ q ∷ ps) = p <> (sep <> join sep (q ∷ ps))

-- What net.ParseIP makes of a text: an address with four bytes, or another as it prints it
pub data Ip : Type 0 where
  v4 : Ip
  v6 : String → Ip

-- IP
unfoldable pub ip : (String → Option Ip) → String → ℕ → String → String
unfolding split mask_parts join
ip parse value keep_octets mask_char = elim (parse value) [
  | none ↦ value
  | some v4 ↦ join "." (mask_parts keep_octets 4 mask_char (split "." value))
  | some (v6 printed) ↦
      let parts = split ":" printed in
      join ":" (mask_parts keep_octets (length parts) mask_char parts)
]
