-- ===== src/Redact/Text/Mask.antt =====
-- redact/redactor.go: what MaskWithMin keeps, and that a masked text is left as it is.
use kratos_kit.Base.{
  ℕ, zero, suc, ◌+◌, ◌-◌, ◌≤◌, ◌≡◌, refl, ap, String, List, [], ◌∷◌, ◌++◌, length, length-append,
  nat_eq, Bool-cases, inl, inr, min, arith,
}
use Prim.Native.Char.{Char}
use kratos_kit.Base.Text.{chars, of_chars, chars-of_chars}
use mathlib.Core.List.{append_assoc}
use kratos_kit.Base.Int.{ℤ, pos_part}
use kratos_kit.Redact.Text.{take, drop, repeat, make_room, bounds, cover, mask_runes, mask_with_min}

-- The ends in closed form: what is to be masked at the least is taken out of the room for both, and
-- the first end goes before the last.
abbrev pub ends : ℕ → ℕ → ℕ → ℕ → ℕ × ℕ
ends n first last least =
    let room = n - least in let kept = min first room in (kept, min last (room - kept))

make_room-ends :
    (n first last least : ℕ)
    → make_room n (min least n) (min first n) (min last (n - min first n)) ≡ ends n first last least
make_room-ends n first last least = ground arith

ends-le : (n f l m : ℕ) → (ends n f l m).0 + (ends n f l m).1 ≤ n
ends-le n f l m = ground arith

bounds-ends :
    (n : ℕ) (keep_first keep_last min_mask : ℤ)
    → bounds n keep_first keep_last min_mask
      ≡ ends n (pos_part keep_first) (pos_part keep_last) (pos_part min_mask)
bounds-ends n keep_first keep_last min_mask =
    make_room-ends n (pos_part keep_first) (pos_part keep_last) (pos_part min_mask)

module _ {ℓ} {A : Type ℓ} where
  -- The same text, from the ends
  abbrev pub masked_text : List A → ℕ × ℕ → List A → List A
  masked_text mask (first, last) text =
      take first text
      ++ (repeat mask (length text - first - last) ++ drop (length text - last) text)

  take-length-append : (f : ℕ) (s t : List A) → f ≤ length s → take f (take f s ++ t) ≡ take f s
  unfolding take
  take-length-append zero s t h = refl
  take-length-append (suc f) [] t h = absurd (omega arith)
  take-length-append (suc f) (x ∷ s) t h = ap (λ l. x ∷ l) (take-length-append f s t (omega arith))

  pub take_all-append : (d : ℕ) (s t : List A) → length s ≡ d → take d (s ++ t) ≡ s
  unfolding take
  take_all-append zero [] t h = refl
  take_all-append (suc d) [] t h = absurd (omega arith)
  take_all-append zero (x ∷ s) t h = absurd (omega arith)
  take_all-append (suc d) (x ∷ s) t h = ap (λ l. x ∷ l) (take_all-append d s t (omega arith))

  length-take : (f : ℕ) (s : List A) → f ≤ length s → length (take f s) ≡ f
  unfolding take
  length-take zero s h = refl
  length-take (suc f) [] h = absurd (omega arith)
  length-take (suc f) (x ∷ s) h = omega (arith, length-take f s)

  length-drop : (d : ℕ) (s : List A) → length (drop d s) ≡ length s - d
  unfolding drop
  length-drop zero s = omega arith
  length-drop (suc d) [] = omega arith
  length-drop (suc d) (x ∷ s) = omega (arith, length-drop d s)

  pub drop-append : (d : ℕ) (s t : List A) → length s ≡ d → drop d (s ++ t) ≡ t
  unfolding drop
  drop-append zero [] t h = refl
  drop-append (suc d) [] t h = absurd (omega arith)
  drop-append zero (x ∷ s) t h = absurd (omega arith)
  drop-append (suc d) (x ∷ s) t h = drop-append d s t (omega arith)

  length-repeat : (c : A) (n : ℕ) → length (repeat (c ∷ []) n) ≡ n
  unfolding repeat
  length-repeat c zero = refl
  length-repeat c (suc n) = omega (arith, length-repeat c n)

  take-drop : (f : ℕ) (s : List A) → take f s ++ drop f s ≡ s
  unfolding take drop
  take-drop zero s = refl
  take-drop (suc f) [] = refl
  take-drop (suc f) (x ∷ s) = ap (λ l. x ∷ l) (take-drop f s)

  nothing-between :
      (mask text : List A) (f d m : ℕ)
      → d ≡ f
      → m ≡ 0
      → text ≡ take f text ++ (repeat mask m ++ drop d text)
  unfolding repeat
  nothing-between mask text f d m h e = rw (h, e, take-drop f text)

  cover-masked_text :
      (mask text : List A) (f l : ℕ)
      → f + l ≤ length text
      → cover mask (f, l) text ≡ masked_text mask (f, l) text
  unfolding cover
  cover-masked_text mask text f l h = elim (Bool-cases (nat_eq (length text - f - l) 0)) [
    | inl e ↦ rw e (nothing-between mask text f (length text - l) _ (ground arith) (ground arith))
    | inr e ↦ rw e
  ]

-- What MaskWithMin does to the characters of a text is this: with at least min_mask of them (all, if
-- there are fewer) set aside for the mask, the first end gets what it asks for, the last end what is
-- left of that, and every other character is replaced by the mask.
pub mask_runes-masked_text {ℓ} :
    {A : Type ℓ} (mask text : List A) (keep_first keep_last min_mask : ℤ)
    → mask_runes mask keep_first keep_last min_mask text
      ≡ masked_text mask
          (ends (length text) (pos_part keep_first) (pos_part keep_last) (pos_part min_mask))
          text
unfolding mask_runes
mask_runes-masked_text mask text keep_first keep_last min_mask =
    rw (bounds-ends (length text) keep_first keep_last min_mask)
      (cover-masked_text mask text _ _ (ends-le (length text) _ _ _))

module _ {ℓ} {A : Type ℓ} where
  length-masked_text :
      (c : A) (s : List A) (f l : ℕ)
      → f + l ≤ length s
      → length (masked_text (c ∷ []) (f, l) s) ≡ length s
  length-masked_text c s f l h =
      rw
        (
          length-append (take f s),
          length-append (repeat (c ∷ []) (length s - f - l)),
          length-repeat,
          length-drop,
          length-take f s (omega (arith, h)),
        )
        (omega (arith, h))

  take-masked_text :
      (c : A) (s : List A) (f l : ℕ)
      → f + l ≤ length s
      → take f (masked_text (c ∷ []) (f, l) s) ≡ take f s
  take-masked_text c s f l h = take-length-append f s _ (omega (arith, h))

  drop-masked_text :
      (c : A) (s : List A) (f l : ℕ)
      → f + l ≤ length s
      → drop (length s - l) (masked_text (c ∷ []) (f, l) s) ≡ drop (length s - l) s
  drop-masked_text c s f l h = rw (← append_assoc (take f s) (repeat (c ∷ []) (length s - f - l))) (
      drop-append (length s - l) _ _ (
        rw (length-append (take f s), length-repeat, length-take f s (omega (arith, h)))
          (omega (arith, h))))

  mask_runes-mask_runes :
      (c : A) (s : List A) (kf kl mm : ℤ)
      → mask_runes (c ∷ []) kf kl mm (mask_runes (c ∷ []) kf kl mm s)
        ≡ mask_runes (c ∷ []) kf kl mm s
  mask_runes-mask_runes c s kf kl mm = rw (
    mask_runes-masked_text (c ∷ []) s kf kl mm,
    mask_runes-masked_text (c ∷ []) _ kf kl mm,
    length-masked_text c s _ _ (ends-le (length s) (pos_part kf) (pos_part kl) (pos_part mm)),
    take-masked_text c s _ _ (ends-le (length s) (pos_part kf) (pos_part kl) (pos_part mm)),
    drop-masked_text c s _ _ (ends-le (length s) (pos_part kf) (pos_part kl) (pos_part mm)),
  )

-- Masking a text by a single character twice, with the same numbers, is masking it once.
pub mask_with_min-again :
    (value : String) (keep_first keep_last min_mask : ℤ) (c : Char)
    → mask_with_min
        (mask_with_min value keep_first keep_last min_mask (of_chars (c ∷ [])))
        keep_first
        keep_last
        min_mask
        (of_chars (c ∷ []))
      ≡ mask_with_min value keep_first keep_last min_mask (of_chars (c ∷ []))
unfolding mask_with_min
mask_with_min-again value keep_first keep_last min_mask c = rw (
  chars-of_chars (c ∷ []),
  chars-of_chars,
  mask_runes-mask_runes c (chars value) keep_first keep_last min_mask,
)
