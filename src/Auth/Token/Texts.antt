-- ===== src/Auth/Token/Texts.antt =====
-- A codec for the sessions of auth/data/user_token.go, for runs at concrete inputs: the fields one
-- after the other, texts character by character, numbers in unary.
use kratos_kit.Base.{ℕ, zero, suc, ◌≡◌, refl, String, Option, none, some, nat_eq, if◌then◌else◌}
use Prim.Native.Char.{code}
use kratos_kit.Base.Int.{ℤ, pos, negsuc}
use kratos_kit.Auth.Token.{TokenSession, Codec}

pub put_text : String → String → String
put_text String.[] rest = String.◌∷◌ "e" rest
put_text (String.◌∷◌ a s) rest = String.◌∷◌ "x" (String.◌∷◌ a (put_text s rest))

abbrev map_first : {A B : Type 0} → (A → B) → Option (A × String) → Option (B × String)
map_first f none = none
map_first f (some (a, rest)) = some (f a, rest)

pub take_text : String → Option (String × String)
take_text String.[] = none
take_text (String.◌∷◌ t String.[]) = some (String.[], String.[])
take_text (String.◌∷◌ t (String.◌∷◌ a s)) =
    let rest = take_text s in
    if nat_eq (code t) b'e' then some (String.[], String.◌∷◌ a s) else map_first (String.◌∷◌ a) rest

take-put_text : (s rest : String) → take_text (put_text s rest) ≡ some (s, rest)
unfolding take_text put_text
take-put_text String.[] String.[] = refl
take-put_text String.[] (String.◌∷◌ a s) = refl
take-put_text (String.◌∷◌ a s) rest = rw (take-put_text s rest) refl

pub put_nat : ℕ → String → String
put_nat zero rest = String.◌∷◌ "e" rest
put_nat (suc n) rest = String.◌∷◌ "x" (put_nat n rest)

pub take_nat : String → Option (ℕ × String)
take_nat String.[] = none
take_nat (String.◌∷◌ t s) =
    let rest = take_nat s in if nat_eq (code t) b'e' then some (0, s) else map_first suc rest

take-put_nat : (n : ℕ) (rest : String) → take_nat (put_nat n rest) ≡ some (n, rest)
unfolding take_nat put_nat
take-put_nat zero rest = refl
take-put_nat (suc n) rest = rw (take-put_nat n rest) refl

pub put_int : ℤ → String → String
put_int (pos n) rest = String.◌∷◌ "p" (put_nat n rest)
put_int (negsuc n) rest = String.◌∷◌ "n" (put_nat n rest)

pub take_int : String → Option (ℤ × String)
take_int String.[] = none
take_int (String.◌∷◌ t s) =
    if nat_eq (code t) b'p' then map_first pos (take_nat s) else map_first negsuc (take_nat s)

take-put_int : (a : ℤ) (rest : String) → take_int (put_int a rest) ≡ some (a, rest)
unfolding take_int put_int
take-put_int (pos n) rest = rw (take-put_nat n rest) refl
take-put_int (negsuc n) rest = rw (take-put_nat n rest) refl

pub put_session : TokenSession → String
put_session x = put_text x.session_id (
    put_text x.access_token (
      put_text x.refresh_token (
        put_int x.access_expires_at (
          put_int x.refresh_expires_at
            (put_text x.previous_access_token (put_int x.previous_access_expires_at ""))))))

abbrev then_take : {A B : Type 0} → Option (A × String) → (A → String → Option B) → Option B
then_take none f = none
then_take (some (a, rest)) f = f a rest

pub take_session : String → Option TokenSession
take_session raw = then_take (take_text raw) λ id s1. then_take (take_text s1) λ access s2.
    then_take (take_text s2) λ refresh s3. then_take (take_int s3) λ access_end s4.
      then_take (take_int s4) λ refresh_end s5. then_take (take_text s5) λ previous s6.
        then_take (take_int s6) λ previous_end s7. some (record {
          session_id = id;
          access_token = access;
          refresh_token = refresh;
          access_expires_at = access_end;
          refresh_expires_at = refresh_end;
          previous_access_token = previous;
          previous_access_expires_at = previous_end;
        })

pub take-put_session : (x : TokenSession) → take_session (put_session x) ≡ some x
unfolding take_session put_session
take-put_session x = simp (take-put_text, take-put_int)

abbrev pub codec : Codec
codec = record {
  encode = put_session;
  decode = take_session;
  decode-encode = take-put_session;
  format_int = λ n. "7";
}
