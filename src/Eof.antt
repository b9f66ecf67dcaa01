-- ===== src/Eof.antt =====
-- crates/primitives/src/bytecode/eof.rs, eof/header.rs, eof/body.rs and eof/types_section.rs: the
-- parts of an EOF container and the sizes that its header declares.
pub mod Header
pub mod Body
pub mod Container
mod Examples
use baron_evm.Base.{
  ℕ, ◌+◌, ◌*◌, ◌/◌, ◌%◌, Bool, false, true, List, [], ◌∷◌, if◌then◌else◌, length, ◌==◌,
}
use baron_evm.Base.Outcome.{Outcome, ok, err, panic}

pub record TypesSection : Type 0 where
  pub inputs : ℕ
  pub outputs : ℕ
  pub max_stack_size : ℕ

pub record EofHeader : Type 0 where
  pub types_size : ℕ
  pub code_sizes : List ℕ
  pub container_sizes : List ℕ
  pub data_size : ℕ
  pub sum_code_sizes : ℕ
  pub sum_container_sizes : ℕ

pub record EofBody : Type 0 where
  pub types_section : List TypesSection
  pub code_section : List (List ℕ)
  pub container_section : List (List ℕ)
  pub data_section : List ℕ
  pub is_data_filled : Bool

pub record Eof : Type 0 where
  pub header : EofHeader
  pub body : EofBody
  pub raw : List ℕ

-- The header's own length in bytes.
unfoldable pub header_size : EofHeader → ℕ
header_size h =
    let optional_container_sizes : ℕ =
      if length h.container_sizes == 0 then 0 else 3 + length h.container_sizes * 2 in
    13 + length h.code_sizes * 2 + optional_container_sizes

unfoldable pub types_count : EofHeader → ℕ
types_count h = h.types_size / 4

unfoldable pub body_size : EofHeader → ℕ
body_size h = h.sum_code_sizes + h.sum_container_sizes + h.data_size

unfoldable pub size : Eof → ℕ
unfolding header_size body_size
size e = header_size e.header + body_size e.header

-- The errors of the decoder, in the source's order.
pub data EofDecodeError : Type 0 where
  missing_input missing_body_without_data dangling_data invalid_types_section : EofDecodeError
  invalid_types_section_size invalid_eof_magic_number invalid_eof_version : EofDecodeError
  invalid_types_kind invalid_code_kind invalid_terminal_byte invalid_data_kind : EofDecodeError
  invalid_kind_after_code mismatch_code_and_types_size non_sizes : EofDecodeError
  short_input_for_sizes zero_size too_many_code_sections zero_code_sections : EofDecodeError
  too_many_container_sections : EofDecodeError

abbrev pub Decoded : Type 0 → Type 0
Decoded A = Outcome EofDecodeError A

-- eof/decode_helpers.rs: the rest of the input, and the number in front of it.
abbrev pub consume_u8 : List ℕ → Decoded (List ℕ × ℕ)
consume_u8 [] = err missing_input
consume_u8 (b ∷ rest) = ok (rest, b)

abbrev pub consume_u16 : List ℕ → Decoded (List ℕ × ℕ)
consume_u16 [] = err missing_input
consume_u16 (a ∷ []) = err missing_input
consume_u16 (a ∷ b ∷ rest) = ok (rest, a * 256 + b)

-- `u16::to_be_bytes`.
abbrev pub to_be_bytes : ℕ → List ℕ
to_be_bytes n = n / 256 % 256 ∷ n % 256 ∷ []

abbrev pub sum : List ℕ → ℕ
sum [] = 0
sum (n ∷ ns) = n + sum ns
