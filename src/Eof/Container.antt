-- ===== src/Eof/Container.antt =====
-- crates/primitives/src/bytecode/eof.rs and `into_eof` of eof/body.rs: whole containers.
pub mod Sections
pub mod RoundTrip
use baron_evm.Base.{
  ℕ, ◌+◌, ◌-◌, ◌*◌, ◌%◌, ◌^◌, min, Bool, false, true, List, [], ◌∷◌, ◌++◌, ltb, if◌then◌else◌,
  length, take, drop, Option, none, some,
}
use baron_evm.Base.Outcome.{Outcome, ok, err, panic, ◌>>=◌}
use baron_evm.Eof.{Eof, EofHeader, EofBody, TypesSection, Decoded}
use baron_evm.Eof.Header.{encode as encode_header, decode as decode_header}
use baron_evm.Eof.Body.{encode as encode_body, decode as decode_body}

-- The lengths of sections as the header has them, on u16.
unfoldable pub lengths : List (List ℕ) → List ℕ
lengths [] = []
lengths (section ∷ sections) = length section % 2 ^ 16 ∷ lengths sections

-- Their sum on usize.
unfoldable pub total : List (List ℕ) → ℕ
total [] = 0
total (section ∷ sections) = length section + total sections

unfoldable pub header_of : EofBody → EofHeader
unfolding lengths total
header_of b = record {
  types_size = length b.types_section % 2 ^ 16 * 4 % 2 ^ 16;
  code_sizes = lengths b.code_section;
  container_sizes = lengths b.container_section;
  data_size = length b.data_section % 2 ^ 16;
  sum_code_sizes = total b.code_section;
  sum_container_sizes = total b.container_section;
}

unfoldable pub into_eof : EofBody → Eof
unfolding header_of
into_eof b = record {
  header = header_of b;
  body = b;
  raw = encode_header (header_of b) ++ encode_body b;
}

unfoldable pub encode_slow : Eof → List ℕ
encode_slow e = encode_header e.header ++ encode_body e.body

unfoldable pub decode : List ℕ → Decoded Eof
decode raw = do
  (header, _) ← decode_header raw
  body ← decode_body raw header
  ok (record { header = header; body = body; raw = raw })

-- The container of one STOP instruction.
unfoldable pub default : Eof
unfolding into_eof
default = into_eof (record {
  types_section = record { inputs = 0; outputs = 0; max_stack_size = 0 } ∷ [];
  code_section = (0 ∷ []) ∷ [];
  container_section = [];
  data_section = [];
  is_data_filled = true;
})

unfoldable pub data_slice : Eof → ℕ → ℕ → List ℕ
data_slice e offset len =
    if ltb (length e.body.data_section) offset
    then []
    else (let bytes = drop offset e.body.data_section in take (min len (length bytes)) bytes)
