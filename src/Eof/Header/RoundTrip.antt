-- ===== src/Eof/Header/RoundTrip.antt =====
-- Encoding a header of an EOF container and decoding it again.
use baron_evm.Base.{
  ℕ, ◌+◌, ◌*◌, ◌/◌, ◌%◌, ◌^◌, ◌≤◌, ◌<◌, true, false, List, [], ◌∷◌, ◌++◌, ◌==◌, ltb, length, ◌≡◌,
  refl, ap, ◌∙◌, arith, append_assoc, length-append, drop-append,
}
use baron_evm.Base.Outcome.{ok, ◌>>=◌}
use baron_evm.Eof.{EofHeader, consume_u8, to_be_bytes, sum}
use baron_evm.Eof.Header.{
  encode, decode, decode_containers, consume_header_section_size, read_sizes, size_bytes,
  section_bytes, container_bytes,
}

-- Every size fits two bytes and is not zero.
abbrev pub Sized : List ℕ → Type 0
Sized [] = Unit {0}
Sized (size ∷ sizes) = (0 < size) × (size < 2 ^ 16) × Sized sizes

-- What an encoded header has to fit.
pub record IsValid (h : EofHeader) : Type 0 where
  pub types_fit : h.types_size < 2 ^ 16
  pub types_match : h.types_size ≡ length h.code_sizes * 4
  pub some_code : 0 < length h.code_sizes
  pub code_count : length h.code_sizes ≤ 1024
  pub code_sized : Sized h.code_sizes
  pub container_count : length h.container_sizes ≤ 256
  pub container_sized : Sized h.container_sizes
  pub data_fits : h.data_size < 2 ^ 16
  pub code_sum : h.sum_code_sizes ≡ sum h.code_sizes
  pub container_sum : h.sum_container_sizes ≡ sum h.container_sizes

from-to_be_bytes : (n : ℕ) → n < 2 ^ 16 → n / 256 % 256 * 256 + n % 256 ≡ n
from-to_be_bytes n h = omega arith

pub length-size_bytes : (sizes : List ℕ) → length (size_bytes sizes) ≡ length sizes * 2
unfolding size_bytes
length-size_bytes [] = refl
length-size_bytes (size ∷ sizes) = omega (arith, length-size_bytes sizes)

read_sizes-size_bytes :
    (sizes rest : List ℕ)
    → Sized sizes
    → read_sizes (length sizes) (size_bytes sizes ++ rest) ≡ ok (sizes, sum sizes)
unfolding read_sizes size_bytes
read_sizes-size_bytes [] rest h = refl
read_sizes-size_bytes (size ∷ sizes) rest (positive, small, h) =
    let nonzero : (size == 0) ≡ false = ground arith in
    rw (from-to_be_bytes size small, nonzero, read_sizes-size_bytes sizes rest h) refl

pub consume-section_bytes :
    (sizes rest : List ℕ)
    → Sized sizes
    → 0 < length sizes
    → length sizes ≤ 1024
    → consume_header_section_size (section_bytes sizes ++ rest) ≡ ok (rest, sizes, sum sizes)
unfolding consume_header_section_size
consume-section_bytes sizes rest h some few =
    let n : length sizes % 2 ^ 16 / 256 % 256 * 256 + length sizes % 2 ^ 16 % 256 ≡ length sizes =
      omega arith in
    let nonzero : (length sizes == 0) ≡ false = ground arith in
    let bytes : length sizes * 2 % 2 ^ 16 ≡ length (size_bytes sizes) =
      omega (arith, length-size_bytes sizes) in
    let room : ltb (length (size_bytes sizes ++ rest)) (length (size_bytes sizes)) ≡ false =
      ground (arith, length-append (size_bytes sizes) rest) in
    rw
      (
        n,
        nonzero,
        bytes,
        room,
        read_sizes-size_bytes sizes rest h,
        drop-append (size_bytes sizes) rest,
      )
      refl

-- The containers, from their bytes on.
decode_containers-sizes :
    (bytes rest sizes : List ℕ) (n : ℕ)
    → consume_header_section_size bytes ≡ ok (4 ∷ rest, sizes, n)
    → length sizes ≤ 256
    → decode_containers bytes 3 ≡ ok (rest, sizes, n)
unfolding decode_containers
decode_containers-sizes bytes rest sizes n consumed few =
    let few' : ltb 256 (length sizes) ≡ false = ground arith in rw (consumed, few') refl

-- What stands behind the code sizes, decoded.
Behind : List ℕ → List ℕ → List ℕ → ℕ → Type 0
Behind bytes rest sizes n =
    (consume_u8 bytes >>= (λ p. decode_containers p.0 p.1)) ≡ ok (rest, sizes, n)

containers-Behind :
    (sizes rest : List ℕ)
    → Sized sizes
    → length sizes ≤ 256
    → Behind (container_bytes sizes ++ rest) rest sizes (sum sizes)
unfolding decode_containers Behind
containers-Behind [] rest h few = refl
containers-Behind (size ∷ sizes) rest h few =
    ap (λ l. decode_containers l 3) (append_assoc (section_bytes (size ∷ sizes)) (4 ∷ []) rest)
    ∙ decode_containers-sizes (section_bytes (size ∷ sizes) ++ 4 ∷ rest) rest (size ∷ sizes)
        (sum (size ∷ sizes))
        (consume-section_bytes (size ∷ sizes) (4 ∷ rest) h (omega arith) (omega arith)) few

-- The header, from the bytes of the code sizes on.
decode-sections :
    (h : EofHeader) (bytes bytes₁ rest : List ℕ)
    → IsValid h
    → consume_header_section_size bytes ≡ ok (bytes₁, h.code_sizes, h.sum_code_sizes)
    → Behind bytes₁ (to_be_bytes h.data_size ++ 0 ∷ rest) h.container_sizes h.sum_container_sizes
    → decode (0xEF ∷ 0x00 ∷ 0x01 ∷ 1 ∷ to_be_bytes h.types_size ++ 2 ∷ bytes) ≡ ok (h, rest)
unfolding decode Behind
decode-sections h bytes [] rest v consumed behind = absurd (cc)
decode-sections h bytes (kind ∷ bytes₁) rest v consumed behind =
    let few : ltb 1024 (length h.code_sizes) ≡ false = ground (arith, v.code_count) in
    let some : (length h.code_sizes == 0) ≡ false = ground (arith, v.some_code) in
    let even : (h.types_size % 4 == 0) ≡ true = ground (arith, v.types_match) in
    let match : (length h.code_sizes == h.types_size / 4) ≡ true = ground (arith, v.types_match) in
    rw
      (
        from-to_be_bytes h.types_size v.types_fit,
        even,
        consumed,
        few,
        some,
        match,
        behind,
        from-to_be_bytes h.data_size v.data_fits,
      )
      refl

-- A header that fits is decoded from its own encoding, whatever bytes stand behind it, and
-- exactly those bytes are left.
pub header-roundtrip :
    (h : EofHeader) (rest : List ℕ) → IsValid h → decode (encode h ++ rest) ≡ ok (h, rest)
unfolding encode
header-roundtrip h rest v =
    let last = to_be_bytes h.data_size ++ 0 ∷ [] in
    let behind = container_bytes h.container_sizes in
    let code = section_bytes h.code_sizes in
    ap (λ l. decode (0xEF ∷ 0x00 ∷ 0x01 ∷ 1 ∷ to_be_bytes h.types_size ++ 2 ∷ l))
      (append_assoc code (behind ++ last) rest
        ∙ ap (λ l. code ++ l) (append_assoc behind last rest))
    ∙ decode-sections h (code ++ (behind ++ (last ++ rest))) (behind ++ (last ++ rest)) rest v
        (rw v.code_sum (
          consume-section_bytes h.code_sizes (behind ++ (last ++ rest)) v.code_sized v.some_code
            v.code_count))
        (rw v.container_sum
          (containers-Behind h.container_sizes (last ++ rest) v.container_sized v.container_count))
