-- ===== src/Eof/Container/Sections.antt =====
-- The sections of an EOF container, encoded and decoded again.
use baron_evm.Base.{
  ℕ, suc, ◌+◌, ◌-◌, ◌*◌, ◌/◌, ◌%◌, ◌^◌, ◌≤◌, ◌<◌, false, ◌||◌, List, [], ◌∷◌, ◌++◌, ltb, length,
  ◌≡◌, refl, sym, ap, ◌∙◌, arith, append_assoc, length-append, take-append, drop-append,
}
use baron_evm.Base.Outcome.{ok}
use baron_evm.Eof.{TypesSection, sum}
use baron_evm.Eof.Body.{
  encode_types, validate, decode_types, decode_all_types, encode_all_types, flat, slice, slices,
}
use baron_evm.Eof.Header.RoundTrip.{Sized}
use baron_evm.Eof.Container.{lengths, total}

-- The ranges of a types section, which `validate` tests.
pub record TypesFit (t : TypesSection) : Type 0 where
  pub inputs_fit : t.inputs ≤ 0x7f
  pub outputs_fit : t.outputs ≤ 0x80
  pub stack_fits : t.max_stack_size ≤ 0x03FF
  pub inputs_small : t.inputs ≤ t.max_stack_size

abbrev pub AllTypesFit : List TypesSection → Type 0
AllTypesFit [] = Unit {0}
AllTypesFit (t ∷ ts) = TypesFit t × AllTypesFit ts

-- No section is empty, and each length fits two bytes.
abbrev pub SectionsFit : List (List ℕ) → Type 0
SectionsFit [] = Unit {0}
SectionsFit (s ∷ ss) = (0 < length s) × (length s < 2 ^ 16) × SectionsFit ss

decode-encode_types :
    (t : TypesSection) (rest : List ℕ)
    → TypesFit t
    → decode_types (encode_types t ++ rest) ≡ ok (t, rest)
unfolding decode_types validate
decode-encode_types t rest v =
    let stack : t.max_stack_size / 256 % 256 * 256 + t.max_stack_size % 256 ≡ t.max_stack_size =
      omega (arith, v.stack_fits) in
    let ranges : (ltb 0x7f t.inputs || ltb 0x80 t.outputs || ltb 0x03FF t.max_stack_size) ≡ false =
      ground (arith, v.inputs_fit, v.outputs_fit, v.stack_fits) in
    let order : ltb t.max_stack_size t.inputs ≡ false = ground (arith, v.inputs_small) in
    rw (stack, ranges, order) refl

pub decode-encode_all_types :
    (ts : List TypesSection) (rest : List ℕ)
    → AllTypesFit ts
    → decode_all_types (length ts) (encode_all_types ts ++ rest) ≡ ok ts
unfolding decode_all_types encode_all_types
decode-encode_all_types [] rest v = refl
decode-encode_all_types (t ∷ ts) rest (v, vs) =
    rw (decode-encode_types t (encode_all_types ts ++ rest) v, decode-encode_all_types ts rest vs)
      refl

pub length-encode_all_types :
    (ts : List TypesSection) → length (encode_all_types ts) ≡ length ts * 4
unfolding encode_all_types
length-encode_all_types [] = refl
length-encode_all_types (t ∷ ts) = omega (arith, length-encode_all_types ts)

pub length-flat : (ss : List (List ℕ)) → length (flat ss) ≡ total ss
unfolding flat total
length-flat [] = refl
length-flat (s ∷ ss) = length-append s (flat ss) ∙ ap (λ n. length s + n) (length-flat ss)

pub length-lengths : (ss : List (List ℕ)) → length (lengths ss) ≡ length ss
unfolding lengths
length-lengths [] = refl
length-lengths (s ∷ ss) = ap suc (length-lengths ss)

pub lengths-Sized : (ss : List (List ℕ)) → SectionsFit ss → Sized (lengths ss)
unfolding lengths
lengths-Sized [] h = tt
lengths-Sized (s ∷ ss) (some, small, h) = (omega arith, omega arith, lengths-Sized ss h)

pub sum-lengths : (ss : List (List ℕ)) → SectionsFit ss → total ss ≡ sum (lengths ss)
unfolding lengths total
sum-lengths [] h = refl
sum-lengths (s ∷ ss) (some, small, h) = omega (arith, sum-lengths ss h)

-- Cutting out what stands between two lists.
pub slice-between :
    (before s behind : List ℕ)
    → slice (before ++ (s ++ behind)) (length before) (length before + length s) ≡ ok s
unfolding slice
slice-between before s behind =
    let order : ltb (length before + length s) (length before) ≡ false = ground arith in
    let room : ltb (length (before ++ (s ++ behind))) (length before + length s) ≡ false =
      ground (arith, length-append before (s ++ behind), length-append s behind) in
    let n : length before + length s - length before ≡ length s = omega arith in
    rw (order, room, n, drop-append before (s ++ behind), take-append s behind) refl

pub slices-flat :
    (before : List ℕ) (ss : List (List ℕ)) (behind : List ℕ)
    → SectionsFit ss
    → slices (before ++ (flat ss ++ behind)) (length before) (lengths ss)
      ≡ ok (ss, length before + total ss)
unfolding slices flat lengths total
slices-flat before [] behind h = ap (λ n. ok ([], n)) (omega arith)
slices-flat before (s ∷ ss) behind (some, small, h) =
    let shape : (s ++ flat ss) ++ behind ≡ s ++ (flat ss ++ behind) =
      append_assoc s (flat ss) behind in
    let here : length s % 2 ^ 16 ≡ length s = omega arith in
    let moved : before ++ (s ++ (flat ss ++ behind)) ≡ (before ++ s) ++ (flat ss ++ behind) =
      sym (append_assoc before s (flat ss ++ behind)) in
    let start : length before + length s ≡ length (before ++ s) = sym (length-append before s) in
    let rest : slices (before ++ (s ++ (flat ss ++ behind))) (length before + length s) (lengths ss)
        ≡ ok (ss, length before + length s + total ss) =
      rw (moved, start) (slices-flat (before ++ s) ss behind h) in
    ap (λ l. slices (before ++ l) (length before) (lengths (s ∷ ss))) shape
    ∙ rw (here, slice-between before s (flat ss ++ behind), rest)
        (ap (λ n. ok (s ∷ ss, n)) (omega arith))
