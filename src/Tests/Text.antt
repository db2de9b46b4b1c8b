-- ===== src/Tests/Text.antt =====
-- The theorems of the encodings, and of the statuses' moves, at concrete inputs.
use op_ca.Prelude.{◌≡◌, some, [], ◌∷◌, arith}
use op_ca.Base64url.{base64url, from_base64url}
use op_ca.Base64url.RoundTrip.{from_base64url-base64url}

from_base64url-base64url_example :
    from_base64url (base64url (0xfb ∷ 0xff ∷ 0xbf ∷ 7 ∷ [])) ≡ some (0xfb ∷ 0xff ∷ 0xbf ∷ 7 ∷ [])
from_base64url-base64url_example =
    from_base64url-base64url (0xfb ∷ 0xff ∷ 0xbf ∷ 7 ∷ []) (ground arith)
