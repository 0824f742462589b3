-- ===== src/Path/Url.antt =====
-- util.hpp, lines 314 to 351: FileUtil::URLDecode.
use cloud_backup_system.Common.{
  ℕ, ◌+◌, ◌-◌, ◌*◌, ◌%◌, ◌<◌, ◌≡◌, ◌≢◌, refl, Bool, true, false, ◌&&◌, ◌||◌, Option, none, some, [],
  ◌∷◌, arith, Bytes, leb, ◌==◌, if◌then◌else◌, ap, ◌∙◌,
}

-- `tolower`, `isdigit` and `isxdigit` of the C locale.
abbrev pub tolower : ℕ → ℕ
tolower c = if leb b'A' c && leb c b'Z' then c + 32 else c

abbrev pub isdigit : ℕ → Bool
isdigit c = leb b'0' c && leb c b'9'

abbrev pub isxdigit : ℕ → Bool
isxdigit c = isdigit c || (leb b'a' c && leb c b'f' || leb b'A' c && leb c b'F')

-- The value of a hexadecimal digit in lower case.
abbrev pub digit_value : ℕ → ℕ
digit_value c = if isdigit c then c - b'0' else c - (b'a' - 10)

-- The byte that two digits behind a percent sign stand for.
unfoldable pub decode_pair : ℕ → ℕ → Option ℕ
decode_pair a b =
    let hex1 = tolower a in
    let hex2 = tolower b in
    if isxdigit hex1 && isxdigit hex2
    then some ((digit_value hex1 * 16 + digit_value hex2) % 256)
    else none

abbrev pub put_byte : ℕ → Option Bytes → Option Bytes
put_byte c none = none
put_byte c (some s) = some (c ∷ s)

abbrev pub decoded_pair : Option ℕ → Option Bytes → Option Bytes
decoded_pair none rest = none
decoded_pair (some c) rest = put_byte c rest

abbrev pub plain : ℕ → ℕ
plain c = if c == b'+' then b' ' else c

-- `none` is a text that is not well formed.
unfoldable pub decode : Bytes → Option Bytes
unfolding decode_pair
decode [] = some []
decode (c ∷ []) = if c == b'%' then none else some (plain c ∷ [])
decode (c ∷ d ∷ []) = if c == b'%' then none else put_byte (plain c) (decode (d ∷ []))
decode (c ∷ d ∷ e ∷ cs) = elim (c == b'%') [
  | true ↦ decoded_pair (decode_pair d e) (decode cs)
  | false ↦ put_byte (plain c) (decode (d ∷ e ∷ cs))
]

unfoldable pub url_decode : Bytes → Bytes
unfolding decode
url_decode s = elim (decode s) [ none ↦ [] | some t ↦ t ]

-- A hexadecimal digit, in upper or in lower case, and the number that it stands for.
pub data HexDigit : ℕ → ℕ → Type 0 where
  decimal : (n : ℕ) → n < 10 → HexDigit (b'0' + n) n
  upper : (n : ℕ) → n < 6 → HexDigit (b'A' + n) (10 + n)
  lower : (n : ℕ) → n < 6 → HexDigit (b'a' + n) (10 + n)

-- The texts that stand for some bytes. The same byte can be written in each of the ways that are open
-- to it, from place to place.
pub data Encodes : Bytes → Bytes → Type 0 where
  end : Encodes [] []
  as_is : {s t : Bytes} (c : ℕ) → c ≢ b'%' → c ≢ b'+' → Encodes s t → Encodes (c ∷ s) (c ∷ t)
  space : {s t : Bytes} → Encodes s t → Encodes (b'+' ∷ s) (b' ' ∷ t)
  coded :
      {s t : Bytes} {a b m n : ℕ}
      → HexDigit a m
      → HexDigit b n
      → Encodes s t
      → Encodes (b'%' ∷ a ∷ b ∷ s) ((m * 16 + n) ∷ t)

HexDigit-digit_value :
    {a m : ℕ}
    → HexDigit a m
    → (isxdigit (tolower a) ≡ true) × ((digit_value (tolower a) ≡ m) × (m < 16))
HexDigit-digit_value (decimal n h) = ground arith
HexDigit-digit_value (upper n h) = ground arith
HexDigit-digit_value (lower n h) = ground arith

decode_pair-HexDigit :
    {a b m n : ℕ} → HexDigit a m → HexDigit b n → decode_pair a b ≡ some (m * 16 + n)
unfolding decode_pair
decode_pair-HexDigit g h =
    let (x, (v, m_lt)) = HexDigit-digit_value g in
    let (y, (w, n_lt)) = HexDigit-digit_value h in rw (x, y, v, w) (ap some (omega arith))

decode-plain :
    (c : ℕ) (s : Bytes) → (c == b'%') ≡ false → decode (c ∷ s) ≡ put_byte (plain c) (decode s)
unfolding decode
decode-plain c [] h = rw h
decode-plain c (d ∷ []) h = rw h
decode-plain c (d ∷ e ∷ s) h = rw (decode, h)

decode-Encodes : {s t : Bytes} → Encodes s t → decode s ≡ some t
unfolding decode
decode-Encodes end = refl
decode-Encodes (as_is {s} c percent plus e) =
    let rest = decode-Encodes e in
    let not_percent : (c == b'%') ≡ false = ground (arith, percent) in
    let not_plus : (c == b'+') ≡ false = ground (arith, plus) in
    decode-plain c s not_percent ∙ rw (rest, not_plus) refl
decode-Encodes (space {s} e) = decode-plain b'+' s refl ∙ rw (decode-Encodes e) refl
decode-Encodes (coded g h e) = rw (decode, decode_pair-HexDigit g h, decode-Encodes e) refl

-- A text in which each byte stands as it is, if it is no percent and no plus sign, or a blank as a
-- plus sign, or any byte as a percent sign and two hexadecimal digits, each in upper or lower case,
-- is decoded to the bytes.
pub url_decode-Encodes : {s t : Bytes} → Encodes s t → url_decode s ≡ t
unfolding url_decode
url_decode-Encodes e = rw (url_decode, decode-Encodes e) refl
