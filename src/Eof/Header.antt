-- ===== src/Eof/Header.antt =====
-- crates/primitives/src/bytecode/eof/header.rs: the header of an EOF container in bytes.
pub mod RoundTrip
pub mod Canonical
use baron_evm.Base.{
  ℕ, zero, suc, ◌+◌, ◌*◌, ◌/◌, ◌%◌, ◌^◌, Bool, not, List, [], ◌∷◌, ◌++◌, ◌==◌, ltb, if◌then◌else◌,
  length, drop,
}
use baron_evm.Base.Outcome.{Outcome, ok, err, panic, reject, ◌>>=◌}
use baron_evm.Eof.{
  EofHeader, EofDecodeError, Decoded, consume_u8, consume_u16, to_be_bytes, invalid_types_section,
  invalid_eof_magic_number, invalid_eof_version, invalid_types_kind, invalid_code_kind,
  invalid_terminal_byte, invalid_data_kind, invalid_kind_after_code, mismatch_code_and_types_size,
  non_sizes, short_input_for_sizes, zero_size, too_many_code_sections, zero_code_sections,
  too_many_container_sections,
}

abbrev pub kind_terminal : ℕ
kind_terminal = 0

abbrev pub kind_types : ℕ
kind_types = 1

abbrev pub kind_code : ℕ
kind_code = 2

abbrev pub kind_container : ℕ
kind_container = 3

abbrev pub kind_data : ℕ
kind_data = 4

-- The loop of `consume_header_section_size`; an index out of bounds is a panic.
unfoldable pub read_sizes : ℕ → List ℕ → Decoded (List ℕ × ℕ)
read_sizes zero input = ok ([], 0)
read_sizes (suc n) [] = panic
read_sizes (suc n) (a ∷ []) = panic
read_sizes (suc n) (a ∷ b ∷ input) = do
  let code_size = a * 256 + b
  _ ← reject (code_size == 0) zero_size
  (sizes, rest) ← read_sizes n input
  ok (code_size ∷ sizes, code_size + rest)

-- The byte size is multiplied on u16, before the cast to usize.
unfoldable pub consume_header_section_size : List ℕ → Decoded (List ℕ × List ℕ × ℕ)
consume_header_section_size bytes = do
  (input, num_sections) ← consume_u16 bytes
  _ ← reject (num_sections == 0) non_sizes
  let byte_size = num_sections * 2 % 2 ^ 16
  _ ← reject (ltb (length input) byte_size) short_input_for_sizes
  (sizes, sum) ← read_sizes num_sections input
  ok (drop byte_size input, sizes, sum)

-- The sizes of a section, each in two bytes.
unfoldable pub size_bytes : List ℕ → List ℕ
size_bytes [] = []
size_bytes (size ∷ sizes) = to_be_bytes size ++ size_bytes sizes

-- The number of a section's sizes and the sizes.
abbrev pub section_bytes : List ℕ → List ℕ
section_bytes sizes = to_be_bytes (length sizes % 2 ^ 16) ++ size_bytes sizes

-- The marker of the containers, their sizes and the marker of the data.
abbrev pub container_bytes : List ℕ → List ℕ
container_bytes [] = kind_data ∷ []
container_bytes (size ∷ sizes) = kind_container ∷ section_bytes (size ∷ sizes) ++ kind_data ∷ []

unfoldable pub encode : EofHeader → List ℕ
encode h =
    0xEF ∷ 0x00 ∷ 0x01 ∷ kind_types ∷ to_be_bytes h.types_size
    ++ (kind_code
        ∷ (section_bytes h.code_sizes
            ++ (container_bytes h.container_sizes
                ++ (to_be_bytes h.data_size ++ (kind_terminal ∷ [])))))

-- The match on the marker behind the code sizes: the rest, the container sizes and their sum.
unfoldable pub decode_containers : List ℕ → ℕ → Decoded (List ℕ × List ℕ × ℕ)
unfolding consume_header_section_size
decode_containers input kind =
    let containers = do
      (input₁, sizes, sum) ← consume_header_section_size input
      _ ← reject (ltb 256 (length sizes)) too_many_container_sections
      (input₂, kind_data') ← consume_u8 input₁
      _ ← reject (not (kind_data' == kind_data)) invalid_data_kind
      ok (input₂, sizes, sum)
    in if kind == kind_container
      then containers
      else if kind == kind_data
      then ok (input, [], 0)
      else err invalid_kind_after_code

unfoldable pub decode : List ℕ → Decoded (EofHeader × List ℕ)
unfolding decode_containers
decode bytes = do
  (input₁, magic) ← consume_u16 bytes
  _ ← reject (not (magic == 0xEF00)) invalid_eof_magic_number
  (input₂, version) ← consume_u8 input₁
  _ ← reject (not (version == 0x01)) invalid_eof_version
  (input₃, kind₁) ← consume_u8 input₂
  _ ← reject (not (kind₁ == kind_types)) invalid_types_kind
  (input₄, types_size) ← consume_u16 input₃
  _ ← reject (not (types_size % 4 == 0)) invalid_types_section
  (input₅, kind₂) ← consume_u8 input₄
  _ ← reject (not (kind₂ == kind_code)) invalid_code_kind
  (input₆, code_sizes, sum_code) ← consume_header_section_size input₅
  _ ← reject (ltb 1024 (length code_sizes)) too_many_code_sections
  _ ← reject (length code_sizes == 0) zero_code_sections
  _ ← reject (not (length code_sizes == types_size / 4)) mismatch_code_and_types_size
  (input₇, kind₃) ← consume_u8 input₆
  (input₈, container_sizes, sum_container) ← decode_containers input₇ kind₃
  (input₉, data_size) ← consume_u16 input₈
  (input₁₀, terminator) ← consume_u8 input₉
  _ ← reject (not (terminator == kind_terminal)) invalid_terminal_byte
  let header : EofHeader = record {
    types_size = types_size;
    code_sizes = code_sizes;
    container_sizes = container_sizes;
    data_size = data_size;
    sum_code_sizes = sum_code;
    sum_container_sizes = sum_container;
  }
  ok (header, input₁₀)
