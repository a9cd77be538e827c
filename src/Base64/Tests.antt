-- ===== src/Base64/Tests.antt =====
-- The test vectors of RFC 4648.
use a76xx.Prelude.{ℕ, ◌+◌, ◌*◌, ◌/◌, ◌≤◌, ◌≡◌, refl, List, arith, length, codes}
use a76xx.Base64.{encode_rest, encode_base64}
use a76xx.Base64.Decode.{decode, decode-encode_base64}

encode_base64-fo : encode_base64 (codes "fo") 2 ≡ codes "Zm8="
unfolding encode_base64 encode_rest
encode_base64-fo = refl

encode_base64-foobar : encode_base64 (codes "foobar") 6 ≡ codes "Zm9vYmFy"
unfolding encode_base64 encode_rest
encode_base64-foobar = refl

abbrev foob : List ℕ
foob = codes "foob"

decode-encode_base64_example :
    (decode (encode_base64 foob (length foob)) ≡ foob)
    × (length (encode_base64 foob (length foob)) ≡ (length foob + 2) / 3 * 4)
    × (length (encode_base64 foob (length foob)) ≤ 4 * (length foob / 3 + 1))
decode-encode_base64_example = decode-encode_base64 foob (omega arith)
