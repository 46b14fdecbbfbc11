-- ===== src/Url/Tests.antt =====
-- The escapes on a concrete text.
use media_engine.Base.{refl, arith, ◌≡◌}
use mathlib.Core.List.{map}
use media_engine.Base.Texts.{codes}
use media_engine.Url.{url_encode, url_decode}
use media_engine.Url.Escapes.{c_string, plus_for_blank, url_decode-url_encode}

blank_run : url_decode (url_encode (codes "a b/")) ≡ codes "a+b/"
unfolding url_encode url_decode
blank_run = refl

url_decode-url_encode_example :
    url_decode (url_encode (codes "a b/")) ≡ map plus_for_blank (c_string (codes "a b/"))
url_decode-url_encode_example =
    url_decode-url_encode (codes "a b/")
      (omega arith, (omega arith, (omega arith, (omega arith, tt))))
