-- ===== src/Eof/Examples.antt =====
-- A container with two code sections, one sub-container and data, and how broken ones are refused.
use baron_evm.Eof.Header.Canonical.{header-canonical}
use baron_evm.Base.{AllBytes, List, ℕ, ◌≡◌, refl, true, [], ◌∷◌, ◌++◌, arith, length}
use baron_evm.Base.Outcome.{ok, err, panic}
use baron_evm.Eof.{EofHeader, EofBody, header_size, non_sizes, invalid_eof_magic_number}
use baron_evm.Eof.Header.{
  encode as encode_header, decode as decode_header, consume_header_section_size, read_sizes,
  decode_containers,
}
use baron_evm.Eof.Header.RoundTrip.{IsValid as IsValidHeader, header-roundtrip}
use baron_evm.Eof.Container.{into_eof, encode_slow, decode}
use baron_evm.Eof.Container.RoundTrip.{IsValid, container-roundtrip, length-encode_header}

abbrev header : EofHeader
header = record {
  types_size = 8;
  code_sizes = 3 ∷ 300 ∷ [];
  container_sizes = 20 ∷ [];
  data_size = 2;
  sum_code_sizes = 303;
  sum_container_sizes = 20;
}

header-IsValid : IsValidHeader header
header-IsValid = record {
  types_fit = omega arith;
  types_match = refl;
  some_code = omega arith;
  code_count = omega arith;
  code_sized = (omega arith, omega arith, (omega arith, omega arith, tt));
  container_count = omega arith;
  container_sized = (omega arith, omega arith, tt);
  data_fits = omega arith;
  code_sum = refl;
  container_sum = refl;
}

header-roundtrip_example :
    decode_header (encode_header header ++ 9 ∷ 9 ∷ []) ≡ ok (header, 9 ∷ 9 ∷ [])
header-roundtrip_example = header-roundtrip header (9 ∷ 9 ∷ []) header-IsValid

length-encode_header_example : length (encode_header header) ≡ header_size header
length-encode_header_example = length-encode_header header

abbrev body : EofBody
body = record {
  types_section =
      record { inputs = 0; outputs = 128; max_stack_size = 2 }
      ∷ record { inputs = 1; outputs = 1; max_stack_size = 3 }
      ∷ [];
  code_section = (0x5f ∷ 0 ∷ []) ∷ (0xe4 ∷ []) ∷ [];
  container_section = (1 ∷ 2 ∷ 3 ∷ []) ∷ [];
  data_section = 0xaa ∷ [];
  is_data_filled = true;
}

body-IsValid : IsValid body
body-IsValid = record {
  types_match = refl;
  some_code = omega arith;
  code_count = omega arith;
  container_count = omega arith;
  types_fit = (
    record {
      inputs_fit = omega arith;
      outputs_fit = omega arith;
      stack_fits = omega arith;
      inputs_small = omega arith;
    },
    (
      record {
        inputs_fit = omega arith;
        outputs_fit = omega arith;
        stack_fits = omega arith;
        inputs_small = omega arith;
      },
      tt,
    ),
  );
  code_fits = (omega arith, omega arith, (omega arith, omega arith, tt));
  containers_fit = (omega arith, omega arith, tt);
  data_fits = omega arith;
  filled = refl;
}

container-roundtrip_example : decode (encode_slow (into_eof body)) ≡ ok (into_eof body)
container-roundtrip_example = container-roundtrip body body-IsValid

magic_test : decode_header (0xEF ∷ 0x01 ∷ []) ≡ err invalid_eof_magic_number
unfolding decode_header
magic_test = refl

no_sizes_test : consume_header_section_size (0 ∷ 0 ∷ 1 ∷ []) ≡ err non_sizes
unfolding consume_header_section_size
no_sizes_test = refl

-- 0x8000 sections: the byte size wraps to zero, and the first index is out of bounds.
wrapped_size_test : consume_header_section_size (0x80 ∷ 0x00 ∷ []) ≡ panic
unfolding consume_header_section_size read_sizes
wrapped_size_test = refl

-- A header of one code section of three bytes, with one byte behind it.
abbrev small_header : EofHeader
small_header = record {
  types_size = 4;
  code_sizes = 3 ∷ [];
  container_sizes = [];
  data_size = 0;
  sum_code_sizes = 3;
  sum_container_sizes = 0;
}

abbrev small_bytes : List ℕ
small_bytes = 0xEF ∷ 0 ∷ 1 ∷ 1 ∷ 0 ∷ 4 ∷ 2 ∷ 0 ∷ 1 ∷ 0 ∷ 3 ∷ 4 ∷ 0 ∷ 0 ∷ 0 ∷ 7 ∷ []

small_decoded : decode_header small_bytes ≡ ok (small_header, 7 ∷ [])
unfolding decode_header consume_header_section_size read_sizes decode_containers
small_decoded = refl

small-AllBytes : AllBytes small_bytes
small-AllBytes = (
  omega arith,
  (
    omega arith,
    (
      omega arith,
      (
        omega arith,
        (
          omega arith,
          (
            omega arith,
            (
              omega arith,
              (
                omega arith,
                (
                  omega arith,
                  (
                    omega arith,
                    (
                      omega arith,
                      (omega arith, (omega arith, (omega arith, (omega arith, (omega arith, tt))))),
                    ),
                  ),
                ),
              ),
            ),
          ),
        ),
      ),
    ),
  ),
)

header-canonical_example :
    (small_bytes ≡ encode_header small_header ++ (7 ∷ [])) × IsValidHeader small_header
header-canonical_example =
    header-canonical small_bytes (7 ∷ []) small_header small-AllBytes small_decoded
