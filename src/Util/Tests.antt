-- ===== src/Util/Tests.antt =====
-- librcom/src/util.c: runs of the encodings, and their theorems at concrete texts.
use rcom.Data.{c_string}
use rcom.Rlib.{list_terminated, list_membuf}
use rcom.Base.{some, negsuc, pos, arith, refl, [], ◌≡◌, ◌∷◌, length, Bytes}
use rcom.Util.{encode_base64, urlencode, urldecode}
use rcom.Util.Url.{urldecode-urlencode}
use rcom.Util.Base64.{length-encode_base64, decode_base64, decode_base64-encode_base64}

-- "a b%"
abbrev spaced : Bytes
spaced = 97 ∷ 32 ∷ 98 ∷ 37 ∷ []

urlencode_run :
    urlencode list_membuf list_terminated spaced []
    ≡ (pos 0, 97 ∷ 37 ∷ 50 ∷ 48 ∷ 98 ∷ 37 ∷ 50 ∷ 53 ∷ 0 ∷ [])
unfolding urlencode
urlencode_run = refl

-- "%4" ends too early
urldecode_run : (urldecode list_membuf list_terminated (37 ∷ 52 ∷ []) []).0 ≡ negsuc 0
unfolding urldecode
urldecode_run = refl

urldecode-urlencode_example :
    let r = urlencode list_membuf list_terminated spaced (1 ∷ []) in
    let t = urldecode list_membuf list_terminated (c_string r.1) [] in
    (r.0 ≡ pos 0) × (t.0 ≡ pos 0) × (c_string t.1 ≡ spaced)
urldecode-urlencode_example = urldecode-urlencode list_membuf list_terminated spaced (1 ∷ []) [] (
  omega arith,
  omega arith,
  (omega arith, omega arith, (omega arith, omega arith, (omega arith, omega arith, tt))),
)

-- "rcom" is "cmNvbQ=="
abbrev rcom_text : Bytes
rcom_text = 114 ∷ 99 ∷ 111 ∷ 109 ∷ []

encode_base64_run : encode_base64 rcom_text ≡ 99 ∷ 109 ∷ 78 ∷ 118 ∷ 98 ∷ 81 ∷ 61 ∷ 61 ∷ []
unfolding encode_base64
encode_base64_run = refl

decode_base64-encode_base64_example : decode_base64 (encode_base64 rcom_text) ≡ some rcom_text
decode_base64-encode_base64_example =
    decode_base64-encode_base64 rcom_text
      (omega arith, (omega arith, (omega arith, (omega arith, tt))))

length-encode_base64_example : length (encode_base64 rcom_text) ≡ 8
length-encode_base64_example = length-encode_base64 rcom_text
