-- ===== src/Eof/Header/Canonical.antt =====
-- What the decoder of headers (crates/primitives/src/bytecode/eof/header.rs) accepts.
use baron_evm.Base.{
  ℕ, zero, suc, ◌+◌, ◌*◌, ◌/◌, ◌%◌, ◌^◌, ◌≤◌, ◌<◌, Bool, true, false, not, List, [], ◌∷◌, ◌++◌,
  ◌==◌, ltb, length, drop, AllBytes, ◌≡◌, refl, sym, ap, ◌∙◌, arith, append_assoc, drop-append,
  Bool-cases, inl, inr, subst,
}
use baron_evm.Base.Outcome.{ok, err, panic, reject, ◌>>=◌}
use baron_evm.Eof.{EofHeader, EofDecodeError, Decoded, consume_u8, consume_u16, to_be_bytes, sum}
use baron_evm.Eof.Header.{
  encode, decode, decode_containers, consume_header_section_size, read_sizes, size_bytes,
  section_bytes, container_bytes,
}
use baron_evm.Eof.Header.RoundTrip.{Sized, IsValid, length-size_bytes}

-- What holds of the result, if there is one.
abbrev pub When : {A : Type 0} → (A → Type 0) → Decoded A → Type 0
When P (ok a) = P a
When P (err e) = Unit
When P panic = Unit

When-bind :
    {A B : Type 0} (Q : A → Type 0) (P : B → Type 0) (m : Decoded A) (f : A → Decoded B)
    → When Q m
    → ((a : A) → Q a → When P (f a))
    → When P (m >>= f)
When-bind Q P (ok a) f h k = k a h
When-bind Q P (err e) f h k = tt
When-bind Q P panic f h k = tt

When-reject :
    {B : Type 0} (P : B → Type 0) (b : Bool) (r : EofDecodeError) (f : Unit {0} → Decoded B)
    → (b ≡ false → When P (f tt))
    → When P (reject b r >>= f)
When-reject P true r f k = tt
When-reject P false r f k = k refl

When-u8 :
    {B : Type 0} (P : B → Type 0) (bytes : List ℕ) (f : List ℕ × ℕ → Decoded B)
    → AllBytes bytes
    → ((b : ℕ) (rest : List ℕ) → bytes ≡ b ∷ rest → AllBytes rest → When P (f (rest, b)))
    → When P (consume_u8 bytes >>= f)
When-u8 P [] f v k = tt
When-u8 P (b ∷ rest) f v k = k b rest refl v.1

When-u16 :
    {B : Type 0} (P : B → Type 0) (bytes : List ℕ) (f : List ℕ × ℕ → Decoded B)
    → AllBytes bytes
    → ((n : ℕ) (rest : List ℕ)
        → bytes ≡ to_be_bytes n ++ rest
        → n < 2 ^ 16
        → AllBytes rest
        → When P (f (rest, n)))
    → When P (consume_u16 bytes >>= f)
When-u16 P [] f v k = tt
When-u16 P (a ∷ []) f v k = tt
When-u16 P (a ∷ b ∷ rest) f (va, (vb, v)) k =
    let high : a ≡ (a * 256 + b) / 256 % 256 = omega arith in
    let low : b ≡ (a * 256 + b) % 256 = omega arith in
    k (a * 256 + b) rest (λ i. high i ∷ low i ∷ rest) (omega arith) v

-- What the loop over the sizes has read.
record Read (n : ℕ) (input : List ℕ) (r : List ℕ × ℕ) : Type 0 where
  left : List ℕ
  shape : input ≡ size_bytes r.0 ++ left
  count : length r.0 ≡ n
  total : r.1 ≡ sum r.0
  sized : Sized r.0
  bytes : AllBytes left

read_sizes-Read :
    (n : ℕ) (input : List ℕ) → AllBytes input → When (Read n input) (read_sizes n input)
unfolding read_sizes size_bytes
read_sizes-Read zero input v = record {
  left = input;
  shape = refl;
  count = refl;
  total = refl;
  sized = tt;
  bytes = v;
}
read_sizes-Read (suc n) [] v = tt
read_sizes-Read (suc n) (a ∷ []) v = tt
read_sizes-Read (suc n) (a ∷ b ∷ input) (va, (vb, v)) =
    let size = a * 256 + b in
    let high : a ≡ size / 256 % 256 = omega arith in
    let low : b ≡ size % 256 = omega arith in
    When-reject (Read (suc n) (a ∷ b ∷ input)) (size == 0) _ _ λ nonzero.
      When-bind (Read n input) (Read (suc n) (a ∷ b ∷ input)) (read_sizes n input) _
        (read_sizes-Read n input v)
        λ r q. record {
          left = q.left;
          shape = λ i. high i ∷ low i ∷ q.shape i;
          count = ap suc q.count;
          total = ap (λ k. size + k) q.total;
          sized = (ground arith, omega arith, q.sized);
          bytes = q.bytes;
        }

-- What a section of sizes has read, unless it declares more sizes than the callers accept.
record Section (bytes : List ℕ) (r : List ℕ × List ℕ × ℕ) : Type 0 where
  shape : bytes ≡ section_bytes r.1 ++ r.0
  some_size : 0 < length r.1
  total : r.2 ≡ sum r.1
  sized : Sized r.1
  bytes_left : AllBytes r.0

abbrev Few : List ℕ → List ℕ × List ℕ × ℕ → Type 0
Few bytes r = length r.1 ≤ 1024 → Section bytes r

consume-Section :
    (bytes : List ℕ) → AllBytes bytes → When (Few bytes) (consume_header_section_size bytes)
unfolding consume_header_section_size
consume-Section bytes v = When-u16 (Few bytes) bytes _ v λ n input e small w.
    When-reject (Few bytes) (n == 0) _ _ λ nonzero.
      When-reject (Few bytes) (ltb (length input) (n * 2 % 2 ^ 16)) _ _ λ room.
        When-bind (Read n input) (Few bytes) (read_sizes n input) _ (read_sizes-Read n input w)
          λ r q few.
            let same : n ≡ length r.0 % 2 ^ 16 = omega (arith, q.count) in
            let shape : bytes ≡ section_bytes r.0 ++ q.left =
              e ∙ (λ i. same i / 256 % 256 ∷ same i % 256 ∷ q.shape i) in
            let byte_size : n * 2 % 2 ^ 16 ≡ length (size_bytes r.0) =
              omega (arith, q.count, few, length-size_bytes r.0) in
            let dropped : drop (n * 2 % 2 ^ 16) input ≡ q.left =
              (λ i. drop (byte_size i) (q.shape i)) ∙ drop-append (size_bytes r.0) q.left in
            rw dropped (record {
              shape = shape;
              some_size = ground (arith, q.count);
              total = q.total;
              sized = q.sized;
              bytes_left = q.bytes;
            })

-- What stands behind the code sizes.
record Boxes (bytes : List ℕ) (r : List ℕ × List ℕ × ℕ) : Type 0 where
  shape : bytes ≡ container_bytes r.1 ++ r.0
  few : length r.1 ≤ 256
  total : r.2 ≡ sum r.1
  sized : Sized r.1
  bytes_left : AllBytes r.0

-- The bytes of a section that is not empty, with its marker and that of the data.
boxes-shape :
    (input rest sizes : List ℕ)
    → 0 < length sizes
    → input ≡ section_bytes sizes ++ (4 ∷ rest)
    → 3 ∷ input ≡ container_bytes sizes ++ rest
boxes-shape input rest [] some e = absurd (omega arith)
boxes-shape input rest (size ∷ sizes) some e =
    ap (λ l. 3 ∷ l) (e ∙ sym (append_assoc (section_bytes (size ∷ sizes)) (4 ∷ []) rest))

equals : (a b : ℕ) → not (a == b) ≡ false → a ≡ b
equals a b e = ground (arith, e)

decode_containers-Boxes :
    (input : List ℕ) (kind : ℕ)
    → AllBytes input
    → When (Boxes (kind ∷ input)) (decode_containers input kind)
unfolding decode_containers
decode_containers-Boxes input kind v = elim (Bool-cases (kind == 3)) [
  | inl three ↦ rw three (
      When-bind (Few input) (Boxes (kind ∷ input)) (consume_header_section_size input) _
        (consume-Section input v)
        λ r few. When-reject (Boxes (kind ∷ input)) (ltb 256 (length r.1)) _ _ λ short.
          let q = few (ground arith) in
          When-u8 (Boxes (kind ∷ input)) r.0 _ q.bytes_left λ b rest e w.
            When-reject (Boxes (kind ∷ input)) (not (b == 4)) _ _ λ four. record {
              shape =
                  ap (λ k. k ∷ input) (ground (arith, three))
                  ∙ boxes-shape input rest r.1 q.some_size (
                      q.shape
                      ∙ ap (λ l. section_bytes r.1 ++ l)
                          (e ∙ ap (λ k. k ∷ rest) (equals b 4 four)));
              few = ground arith;
              total = q.total;
              sized = q.sized;
              bytes_left = w;
            })
  | inr other ↦ elim (Bool-cases (kind == 4)) [
    | inl four ↦
        rw (other, four)
          (record {
            shape = ap (λ k. k ∷ input) (ground (arith, four));
            few = omega arith;
            total = refl;
            sized = tt;
            bytes_left = v;
          })
    | inr neither ↦ rw (other, neither) tt
  ]
]

Canonical : List ℕ → EofHeader × List ℕ → Type 0
Canonical bytes r = (bytes ≡ encode r.0 ++ r.1) × IsValid r.0

-- The parts of an encoded header.
encode-parts :
    (h : EofHeader) (rest : List ℕ)
    → 0xEF
        ∷ 0x00
        ∷ 1
        ∷ 1
        ∷ (to_be_bytes h.types_size
            ++ (2
                ∷ (section_bytes h.code_sizes
                    ++ (container_bytes h.container_sizes
                        ++ (to_be_bytes h.data_size ++ (0 ∷ rest))))))
      ≡ encode h ++ rest
unfolding encode
encode-parts h rest =
    let last = to_be_bytes h.data_size ++ (0 ∷ []) in
    let boxes = container_bytes h.container_sizes in
    let code = section_bytes h.code_sizes in
    ap (λ l. 0xEF ∷ 0x00 ∷ 1 ∷ 1 ∷ (to_be_bytes h.types_size ++ (2 ∷ l)))
      (ap (λ l. code ++ l) (sym (append_assoc boxes last rest))
        ∙ sym (append_assoc code (boxes ++ last) rest))

decode-Canonical : (bytes : List ℕ) → AllBytes bytes → When (Canonical bytes) (decode bytes)
unfolding decode Canonical
decode-Canonical bytes v =
    let P = Canonical bytes in
    When-u16 P bytes _ v λ magic i₁ e₁ f₁ v₁. When-reject P (not (magic == 0xEF00)) _ _ λ t₁.
      When-u8 P i₁ _ v₁ λ version i₂ e₂ v₂. When-reject P (not (version == 1)) _ _ λ t₂.
        When-u8 P i₂ _ v₂ λ kind₁ i₃ e₃ v₃. When-reject P (not (kind₁ == 1)) _ _ λ t₃.
          When-u16 P i₃ _ v₃ λ types i₄ e₄ f₄ v₄. When-reject P (not (types % 4 == 0)) _ _ λ t₄.
            When-u8 P i₄ _ v₄ λ kind₂ i₅ e₅ v₅. When-reject P (not (kind₂ == 2)) _ _ λ t₅.
              When-bind (Few i₅) P (consume_header_section_size i₅) _ (consume-Section i₅ v₅)
                λ code few. When-reject P (ltb 1024 (length code.1)) _ _ λ t₆.
                  When-reject P (length code.1 == 0) _ _ λ t₇.
                    When-reject P (not (length code.1 == types / 4)) _ _ λ t₈.
                      let q = few (ground arith) in
                      When-u8 P code.0 _ q.bytes_left λ kind₃ i₇ e₇ v₇.
                        When-bind (Boxes (kind₃ ∷ i₇)) P (decode_containers i₇ kind₃) _
                          (decode_containers-Boxes i₇ kind₃ v₇)
                          λ boxes b. When-u16 P boxes.0 _ b.bytes_left λ size i₉ e₉ f₉ v₉.
                            When-u8 P i₉ _ v₉ λ terminator rest e₁₀ v₁₀.
                              When-reject P (not (terminator == 0)) _ _ λ t₁₀.
                                let h : EofHeader = record {
                                  types_size = types;
                                  code_sizes = code.1;
                                  container_sizes = boxes.1;
                                  data_size = size;
                                  sum_code_sizes = code.2;
                                  sum_container_sizes = boxes.2;
                                } in
                                let tail =
                                  e₉
                                  ∙ ap (λ l. to_be_bytes size ++ l)
                                      (e₁₀ ∙ ap (λ k. k ∷ rest) (equals terminator 0 t₁₀)) in
                                let sections =
                                  q.shape
                                  ∙ ap (λ l. section_bytes code.1 ++ l)
                                      (e₇
                                        ∙ b.shape
                                        ∙ ap (λ l. container_bytes boxes.1 ++ l) tail) in
                                let types_on =
                                  e₄
                                  ∙ ap (λ l. to_be_bytes types ++ l)
                                      (e₅ ∙ (λ i. equals kind₂ 2 t₅ i ∷ sections i)) in
                                let version_on = e₂ ∙ (λ i.
                                  equals version 1 t₂ i
                                  ∷ (e₃ ∙ (λ j. equals kind₁ 1 t₃ j ∷ types_on j)) i) in
                                let magic_on =
                                  e₁
                                  ∙ (λ i. to_be_bytes (equals magic 0xEF00 t₁ i) ++ version_on i) in
                                let multiple = equals (types % 4) 0 t₄ in
                                let number = equals (length code.1) (types / 4) t₈ in
                                (
                                  magic_on ∙ encode-parts h rest,
                                  record {
                                    types_fit = f₄;
                                    types_match = omega (arith, multiple, number);
                                    some_code = q.some_size;
                                    code_count = ground arith;
                                    code_sized = q.sized;
                                    container_count = b.few;
                                    container_sized = b.sized;
                                    data_fits = f₉;
                                    code_sum = q.total;
                                    container_sum = b.total;
                                  },
                                )

-- When the decoder accepts a header in front of a list of bytes below 256, the bytes are exactly
-- the encoding of the header it returns followed by the bytes it leaves, and the header is
-- well-formed: its counts, sizes and sums fit and agree.
pub header-canonical :
    (bytes rest : List ℕ) (h : EofHeader)
    → AllBytes bytes
    → decode bytes ≡ ok (h, rest)
    → (bytes ≡ encode h ++ rest) × IsValid h
unfolding Canonical
header-canonical bytes rest h v e = subst (When (Canonical bytes)) e (decode-Canonical bytes v)
