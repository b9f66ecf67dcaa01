-- ===== src/Eof/Container/RoundTrip.antt =====
-- A whole container, encoded and decoded again.
use baron_evm.Base.{
  ℕ, ◌+◌, ◌*◌, ◌/◌, ◌^◌, ◌≤◌, ◌<◌, true, false, List, [], ◌∷◌, ◌++◌, ◌==◌, ltb, if◌then◌else◌,
  length, ◌≡◌, refl, sym, ap, ◌∙◌, arith, append_assoc, append-nil, length-append,
}
use baron_evm.Base.Outcome.{ok}
use baron_evm.Eof.{EofHeader, EofBody, header_size, types_count, to_be_bytes}
use baron_evm.Eof.Header.{encode as encode_header, size_bytes, container_bytes, section_bytes}
use baron_evm.Eof.Header.RoundTrip.{IsValid as IsValidHeader, header-roundtrip, length-size_bytes}
use baron_evm.Eof.Body.{
  encode as encode_body, decode as decode_body, encode_all_types, decode_all_types, flat, slice,
  slices,
}
use baron_evm.Eof.Container.{total, header_of, into_eof, encode_slow, decode}
use baron_evm.Eof.Container.Sections.{
  AllTypesFit, SectionsFit, decode-encode_all_types, length-encode_all_types, length-flat,
  length-lengths, lengths-Sized, sum-lengths, slice-between, slices-flat,
}

-- A body that has a container: as many types as code sections, all in their ranges.
pub record IsValid (b : EofBody) : Type 0 where
  pub types_match : length b.types_section ≡ length b.code_section
  pub some_code : 0 < length b.code_section
  pub code_count : length b.code_section ≤ 1024
  pub container_count : length b.container_section ≤ 256
  pub types_fit : AllTypesFit b.types_section
  pub code_fits : SectionsFit b.code_section
  pub containers_fit : SectionsFit b.container_section
  pub data_fits : length b.data_section < 2 ^ 16
  pub filled : b.is_data_filled ≡ true

header_of-IsValid : (b : EofBody) → IsValid b → IsValidHeader (header_of b)
unfolding header_of
header_of-IsValid b v =
    let n = length-lengths b.code_section in
    let m = length-lengths b.container_section in
    record {
      types_fit = omega arith;
      types_match = rw n (omega (arith, v.types_match, v.code_count));
      some_code = rw n v.some_code;
      code_count = rw n v.code_count;
      code_sized = lengths-Sized b.code_section v.code_fits;
      container_count = rw m v.container_count;
      container_sized = lengths-Sized b.container_section v.containers_fit;
      data_fits = omega arith;
      code_sum = sum-lengths b.code_section v.code_fits;
      container_sum = sum-lengths b.container_section v.containers_fit;
    }

length-container_bytes :
    (sizes : List ℕ)
    → length (container_bytes sizes) ≡ 1 + (if length sizes == 0 then 0 else 3 + length sizes * 2)
length-container_bytes [] = refl
length-container_bytes (size ∷ sizes) =
    ground (
      arith,
      length-append (section_bytes (size ∷ sizes)) (4 ∷ []),
      length-size_bytes (size ∷ sizes),
    )

-- The size that a header computes for itself is the number of bytes of its encoding.
pub length-encode_header : (h : EofHeader) → length (encode_header h) ≡ header_size h
unfolding encode_header header_size
length-encode_header h =
    let last = to_be_bytes h.data_size ++ (0 ∷ []) in
    omega (
      arith,
      length-append (size_bytes h.code_sizes) (container_bytes h.container_sizes ++ last),
      length-append (container_bytes h.container_sizes) last,
      length-size_bytes h.code_sizes,
      length-container_bytes h.container_sizes,
    )

-- The decoder of bodies, from its parts.
decode_body-parts :
    (input : List ℕ) (h : EofHeader) (b : EofBody) (types_input : List ℕ) (middle start : ℕ)
    → length input
      ≡ header_size h + (h.sum_code_sizes + h.sum_container_sizes + h.types_size) + h.data_size
    → slice input (header_size h) (length input) ≡ ok types_input
    → decode_all_types (types_count h) types_input ≡ ok b.types_section
    → slices input (header_size h + h.types_size) h.code_sizes ≡ ok (b.code_section, middle)
    → slices input middle h.container_sizes ≡ ok (b.container_section, start)
    → slice input start (length input) ≡ ok b.data_section
    → length b.data_section ≡ h.data_size
    → b.is_data_filled ≡ true
    → decode_body input h ≡ ok b
unfolding decode_body
decode_body-parts input h b types_input middle start n types decoded code containers rest len
      filled =
    let partial = h.sum_code_sizes + h.sum_container_sizes + h.types_size in
    let enough : ltb (length input) (header_size h + partial) ≡ false = ground arith in
    let no_more : ltb (header_size h + (partial + h.data_size)) (length input) ≡ false =
      ground arith in
    let full : (length b.data_section == h.data_size) ≡ true = ground arith in
    rw (enough, no_more, types, decoded, code, containers, rest, full)
      (ap (λ f. ok (record b { is_data_filled = f })) (sym filled))

slice-rest : (before s : List ℕ) → slice (before ++ s) (length before) (length (before ++ s)) ≡ ok s
slice-rest before s =
    let shape : before ++ (s ++ []) ≡ before ++ s = ap (λ l. before ++ l) (append-nil s) in
    rw (length-append before s, ← shape) (slice-between before s [])

-- The rest behind five parts, seen from each of them.
module _ (p t c k d : List ℕ) where
  from_code : p ++ (t ++ (c ++ (k ++ d))) ≡ (p ++ t) ++ (c ++ (k ++ d))
  from_code = sym (append_assoc p t (c ++ (k ++ d)))

  from_containers : p ++ (t ++ (c ++ (k ++ d))) ≡ ((p ++ t) ++ c) ++ (k ++ d)
  from_containers = from_code ∙ sym (append_assoc (p ++ t) c (k ++ d))

  from_data : p ++ (t ++ (c ++ (k ++ d))) ≡ (((p ++ t) ++ c) ++ k) ++ d
  from_data = from_containers ∙ sym (append_assoc ((p ++ t) ++ c) k d)

  length-parts :
      length (p ++ (t ++ (c ++ (k ++ d)))) ≡ length p + length t + length c + length k + length d
  length-parts = omega (
    arith,
    length-append p (t ++ (c ++ (k ++ d))),
    length-append t (c ++ (k ++ d)),
    length-append c (k ++ d),
    length-append k d,
  )

body-roundtrip :
    (before : List ℕ) (b : EofBody)
    → IsValid b
    → length before ≡ header_size (header_of b)
    → decode_body (before ++ encode_body b) (header_of b) ≡ ok b
unfolding encode_body header_of types_count
body-roundtrip before b v len =
    let types = encode_all_types b.types_section in
    let code = flat b.code_section in
    let boxes = flat b.container_section in
    let behind = code ++ (boxes ++ b.data_section) in
    let input = before ++ (types ++ behind) in
    let four = length-encode_all_types b.types_section in
    let n_code = length-flat b.code_section in
    let n_boxes = length-flat b.container_section in
    let size : (header_of b).types_size ≡ length types =
      omega (arith, four, v.types_match, v.code_count) in
    let count : (header_of b).types_size / 4 ≡ length b.types_section = omega (arith, size, four) in
    let data_size : length b.data_section ≡ (header_of b).data_size = omega (arith, v.data_fits) in
    let start : header_size (header_of b) + (header_of b).types_size ≡ length (before ++ types) =
      omega (arith, len, size, length-append before types) in
    let middle : length (before ++ types) + total b.code_section
        ≡ length ((before ++ types) ++ code) =
      omega (arith, n_code, length-append (before ++ types) code) in
    let stop : length ((before ++ types) ++ code) + total b.container_section
        ≡ length (((before ++ types) ++ code) ++ boxes) =
      omega (arith, n_boxes, length-append ((before ++ types) ++ code) boxes) in
    decode_body-parts input (header_of b) b (types ++ behind) (length ((before ++ types) ++ code))
      (length (((before ++ types) ++ code) ++ boxes))
      (omega (
        arith,
        length-parts before types code boxes b.data_section,
        len,
        size,
        n_code,
        n_boxes,
        data_size,
      ))
      (rw (← len) (slice-rest before (types ++ behind)))
      (rw count (decode-encode_all_types b.types_section behind v.types_fit))
      (rw (start, from_code before types code boxes b.data_section, ← middle)
        (slices-flat (before ++ types) b.code_section (boxes ++ b.data_section) v.code_fits))
      (rw (from_containers before types code boxes b.data_section, ← stop)
        (slices-flat ((before ++ types) ++ code) b.container_section b.data_section
          v.containers_fit))
      (rw (from_data before types code boxes b.data_section)
        (slice-rest (((before ++ types) ++ code) ++ boxes) b.data_section))
      data_size v.filled

-- The EOF container that is made of a body whose sections are in their ranges, encoded and
-- decoded again, is the same container.
pub container-roundtrip :
    (b : EofBody) → IsValid b → decode (encode_slow (into_eof b)) ≡ ok (into_eof b)
unfolding decode encode_slow into_eof
container-roundtrip b v =
    let h = header_of b in
    rw
      (
        header-roundtrip h (encode_body b) (header_of-IsValid b v),
        body-roundtrip (encode_header h) b v (length-encode_header h),
      )
      refl
