-- ===== src/Redact/Text/Tests.antt =====
-- redact/redactor.go: masks at concrete texts.
use kratos_kit.Base.{◌≡◌, refl, ◌≢◌, String, ◌<>◌, false, none, some, arith}
use Prim.Native.String.{len}
use kratos_kit.Base.Int.{pos}
use kratos_kit.Redact.Text.{
  mask_runes, mask_with_min, truncate, email, fixed_length, ip, v4, v6, repeat,
}
use kratos_kit.Redact.Text.Mask.{mask_runes-masked_text}
use kratos_kit.Redact.Text.Cuts.{HasNoAt, email_lem}
use kratos_kit.Base.Text.{chars, of_chars}

phone_masked : mask_with_min "13812345678" (pos 3) (pos 4) (pos 0) "*" ≡ "138****5678"
unfolding mask_with_min
phone_masked = refl

short_masked : mask_with_min "abc" (pos 2) (pos 2) (pos 2) "*" ≡ "a**"
unfolding mask_with_min
short_masked = refl

truncated : truncate "abcdef" (pos 4) "..." ≡ "abcd..."
unfolding truncate
truncated = refl

mailed : email "alice@example.com" 2 false "*" ≡ some "al***@example.com"
unfolding email
mailed = refl

broken : email "张三@example.com" 1 false "*" ≡ none
unfolding email
broken = refl

lengthened : fixed_length "张三" "" ≡ "XXXXXX"
unfolding fixed_length
lengthened = refl

network_masked : ip (λ s. some v4) "10.20.30.40" 2 "x" ≡ "10.20.x.x"
unfolding ip
network_masked = refl

network_v6_masked : ip (λ s. some (v6 "fe80::1")) "fe80:0::1" 1 "x" ≡ "fe80:x:x"
unfolding ip
network_v6_masked = refl

mask_runes-masked_text_example :
    mask_runes (chars "*") (pos 1) (pos 3) (pos 2) (chars "abcde") ≡ chars "a**de"
unfolding mask_runes chars
mask_runes-masked_text_example =
    mask_runes-masked_text (chars "*") (chars "abcde") (pos 1) (pos 3) (pos 2)

email_example :
    (len "张" ≡ 3 → email "张三@x.cn" 3 false "*" ≡ some "张***@x.cn")
    × (((front back : String) → "张三" ≡ front <> back → len front ≢ 3)
        → email "张三@x.cn" 3 false "*" ≡ none)
unfolding HasNoAt chars of_chars repeat
email_example =
    email_lem "张" "三" "x.cn" 3 false "*" (refl, (refl, (refl, (refl, tt)))) (omega arith)
