-- ===== src/Eof/Body.antt =====
-- crates/primitives/src/bytecode/eof/body.rs and eof/types_section.rs: the sections of an EOF
-- container in bytes.
use baron_evm.Base.{
  ℕ, zero, suc, ◌+◌, ◌-◌, ◌||◌, List, [], ◌∷◌, ◌++◌, ◌==◌, ltb, if◌then◌else◌, length, drop, take,
}
use baron_evm.Base.Outcome.{ok, panic, reject, ◌>>=◌}
use baron_evm.Eof.{
  EofHeader, EofBody, TypesSection, Decoded, consume_u8, consume_u16, to_be_bytes, header_size,
  types_count, invalid_types_section, missing_body_without_data, dangling_data,
}

abbrev pub encode_types : TypesSection → List ℕ
encode_types t = t.inputs ∷ t.outputs ∷ to_be_bytes t.max_stack_size

unfoldable pub validate : TypesSection → Decoded (Unit {0})
validate t = do
  _ ←
      reject (ltb 0x7f t.inputs || ltb 0x80 t.outputs || ltb 0x03FF t.max_stack_size)
        invalid_types_section
  reject (ltb t.max_stack_size t.inputs) invalid_types_section

unfoldable pub decode_types : List ℕ → Decoded (TypesSection × List ℕ)
unfolding validate
decode_types bytes = do
  (input₁, inputs) ← consume_u8 bytes
  (input₂, outputs) ← consume_u8 input₁
  (input₃, max_stack_size) ← consume_u16 input₂
  let section : TypesSection = record {
    inputs = inputs;
    outputs = outputs;
    max_stack_size = max_stack_size;
  }
  _ ← validate section
  ok (section, input₃)

-- The loop over the types.
unfoldable pub decode_all_types : ℕ → List ℕ → Decoded (List TypesSection)
decode_all_types zero input = ok []
decode_all_types (suc n) input = do
  (section, rest) ← decode_types input
  sections ← decode_all_types n rest
  ok (section ∷ sections)

unfoldable pub encode_all_types : List TypesSection → List ℕ
encode_all_types [] = []
encode_all_types (t ∷ ts) = encode_types t ++ encode_all_types ts

unfoldable pub flat : List (List ℕ) → List ℕ
flat [] = []
flat (section ∷ sections) = section ++ flat sections

-- `Bytes::slice`, which panics out of bounds.
unfoldable pub slice : List ℕ → ℕ → ℕ → Decoded (List ℕ)
slice input start stop =
    if ltb stop start || ltb (length input) stop
    then panic
    else ok (take (stop - start) (drop start input))

-- A loop that cuts one section per size: the sections, and where the last one ends.
unfoldable pub slices : List ℕ → ℕ → List ℕ → Decoded (List (List ℕ) × ℕ)
unfolding slice
slices input start [] = ok ([], start)
slices input start (size ∷ sizes) = do
  section ← slice input start (start + size)
  (sections, stop) ← slices input (start + size) sizes
  ok (section ∷ sections, stop)

unfoldable pub encode : EofBody → List ℕ
encode b =
    encode_all_types b.types_section
    ++ (flat b.code_section ++ (flat b.container_section ++ b.data_section))

unfoldable pub decode : List ℕ → EofHeader → Decoded EofBody
unfolding header_size types_count
decode input h = do
  let header_len = header_size h
  let partial_body_len = h.sum_code_sizes + h.sum_container_sizes + h.types_size
  let full_body_len = partial_body_len + h.data_size
  _ ← reject (ltb (length input) (header_len + partial_body_len)) missing_body_without_data
  _ ← reject (ltb (header_len + full_body_len) (length input)) dangling_data
  types_input ← slice input header_len (length input)
  types_section ← decode_all_types (types_count h) types_input
  (code_section, middle) ← slices input (header_len + h.types_size) h.code_sizes
  (container_section, start) ← slices input middle h.container_sizes
  data_section ← slice input start (length input)
  ok (record {
    types_section = types_section;
    code_section = code_section;
    container_section = container_section;
    data_section = data_section;
    is_data_filled = length data_section == h.data_size;
  })
