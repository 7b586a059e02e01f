-- ===== src/Http/Encoded.antt =====
-- Percent encoding, and what the decoding of a query makes of it.
use live_trading_engine.Common.{
  ℕ, zero, suc, ◌+◌, ◌-◌, ◌/◌, ◌%◌, ◌<◌, ◌≡◌, refl, ap, ◌∙◌, Bool, true, false, ◌&&◌, ◌||◌,
  Bool-cases, ltb, leb, ◌==◌, ==_iff, inl, inr, Option, none, some, [], ◌∷◌, ◌++◌, All, All-append,
  All-map, if-split, subst, arith, if◌then◌else◌, Text,
}
use live_trading_engine.Common.Streams.{Without}
use live_trading_engine.Http.Query.{hex_digit, hex_byte, url_decode}

-- Letters, digits, and - . _ ~
is_unreserved : ℕ → Bool
is_unreserved c =
    (leb b'a' c && leb c b'z')
    || ((leb b'A' c && leb c b'Z')
        || ((leb b'0' c && leb c b'9') || (c == b'-' || (c == b'.' || (c == b'_' || c == b'~')))))

hex_char : ℕ → ℕ
hex_char v = if ltb v 10 then b'0' + v else b'A' + (v - 10)

encode_byte : ℕ → Text
unfolding is_unreserved hex_char
encode_byte c =
    if is_unreserved c then c ∷ [] else b'%' ∷ hex_char (c / 16) ∷ hex_char (c % 16) ∷ []

unfoldable pub url_encode : Text → Text
unfolding encode_byte
url_encode [] = []
url_encode (c ∷ t) = encode_byte c ++ url_encode t

abbrev pub IsByte : ℕ → Type 0
IsByte c = c < 256

-- A test of every byte, the last one first.
passes : (ℕ → Bool) → ℕ → Bool
passes test zero = true
passes test (suc k) = if test k then passes test k else false

passes-each : (test : ℕ → Bool) (k c : ℕ) → c < k → passes test k ≡ true → test c ≡ true
unfolding passes
passes-each test zero c below h = elim below [ ]
passes-each test (suc k) c below h = elim (Bool-cases (test k)) [
  | inr off ↦ let x = rw off at h in absurd (cc (x))
  | inl on ↦ elim (Bool-cases (c == k)) [
    | inl e ↦ ap test ((==_iff c k).0 e) ∙ on
    | inr e ↦ passes-each test k c (ground arith) (rw on at h)
  ]
]

reads_as : Option ℕ → ℕ → Bool
reads_as none c = false
reads_as (some v) c = v == c

reads_as_sound : (o : Option ℕ) (c : ℕ) → reads_as o c ≡ true → o ≡ some c
unfolding reads_as
reads_as_sound none c h = cc
reads_as_sound (some v) c h = ground arith

-- The two characters of an escape are read as the byte.
reads_back : ℕ → Bool
unfolding reads_as
reads_back c = reads_as (hex_byte (hex_char (c / 16)) (hex_char (c % 16))) c

every_byte : passes reads_back 256 ≡ true
unfolding passes reads_back hex_byte hex_char hex_digit
every_byte = refl

hex_byte-hex_char : (c : ℕ) → IsByte c → hex_byte (hex_char (c / 16)) (hex_char (c % 16)) ≡ some c
unfolding reads_back
hex_byte-hex_char c h =
    reads_as_sound (hex_byte (hex_char (c / 16)) (hex_char (c % 16))) c
      (passes-each reads_back 256 c h every_byte)

unreserved-plain : (c : ℕ) → is_unreserved c ≡ true → ((c == b'%') ≡ false) × ((c == b'+') ≡ false)
unfolding is_unreserved
unreserved-plain c h = ground arith

decode-unreserved :
    (c : ℕ) (rest : Text) → is_unreserved c ≡ true → url_decode (c ∷ rest) ≡ c ∷ url_decode rest
unfolding url_decode
decode-unreserved c [] h = let (p, q) = unreserved-plain c h in rw q refl
decode-unreserved c (a ∷ []) h = let (p, q) = unreserved-plain c h in rw q refl
decode-unreserved c (a ∷ b ∷ t) h = let (p, q) = unreserved-plain c h in rw (p, q) refl

decode-escape :
    (c : ℕ) (rest : Text)
    → IsByte c
    → url_decode (b'%' ∷ hex_char (c / 16) ∷ hex_char (c % 16) ∷ rest) ≡ c ∷ url_decode rest
unfolding url_decode
decode-escape c rest h = rw (hex_byte-hex_char c h) refl

decode-encode_byte :
    (c : ℕ) (rest : Text) → IsByte c → url_decode (encode_byte c ++ rest) ≡ c ∷ url_decode rest
unfolding encode_byte
decode-encode_byte c rest h = elim (Bool-cases (is_unreserved c)) [
  | inl e ↦ rw e (decode-unreserved c rest e)
  | inr e ↦ rw e (decode-escape c rest h)
]

pub url_decode-url_encode : (t : Text) → All IsByte t → url_decode (url_encode t) ≡ t
unfolding url_encode
url_decode-url_encode [] h = unfold url_decode in refl
url_decode-url_encode (c ∷ t) (b, h) =
    decode-encode_byte c (url_encode t) b ∙ ap (λ r. c ∷ r) (url_decode-url_encode t h)

-- The bytes of an encoded text.
unfoldable pub is_url : ℕ → Bool
unfolding is_unreserved
is_url c = is_unreserved c || c == b'%'

hex_char-is_url : (v : ℕ) → v < 16 → is_url (hex_char v) ≡ true
unfolding is_url hex_char
hex_char-is_url v h = ground arith

abbrev pub IsUrl : ℕ → Type 0
IsUrl c = is_url c ≡ true

encode_byte-IsUrl : (c : ℕ) → IsByte c → All IsUrl (encode_byte c)
unfolding encode_byte
encode_byte-IsUrl c h =
    if-split (All IsUrl) (is_unreserved c) _ _ (λ e. ((unfold is_url in rw e refl), tt))
      λ e. (
        (unfold is_url in refl),
        (hex_char-is_url (c / 16) (omega arith), (hex_char-is_url (c % 16) (omega arith), tt)),
      )

pub url_encode-IsUrl : (t : Text) → All IsByte t → All IsUrl (url_encode t)
unfolding url_encode
url_encode-IsUrl [] h = tt
url_encode-IsUrl (c ∷ t) (b, h) =
    All-append IsUrl (encode_byte c) (url_encode t) (encode_byte-IsUrl c b) (url_encode-IsUrl t h)

IsUrl-ne : (c x : ℕ) → is_url c ≡ false → IsUrl x → (x == c) ≡ false
IsUrl-ne c x h k = elim (Bool-cases (x == c)) [
  | inl e ↦ let q = subst IsUrl ((==_iff x c).0 e) k in absurd (cc)
  | inr e ↦ e
]

pub IsUrl-Without : (c : ℕ) (t : Text) → is_url c ≡ false → All IsUrl t → Without c t
IsUrl-Without c t h k = All-map (λ x q. IsUrl-ne c x h q) t k
