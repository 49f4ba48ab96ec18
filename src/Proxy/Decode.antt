-- ===== src/Proxy/Decode.antt =====
-- A reader of chunked bodies, and that it reads back what the chunked writer writes.
use go_exasol.Base.{
  ℕ, zero, suc, ◌+◌, ◌-◌, ◌*◌, ◌/◌, ◌%◌, ◌≡◌, ◌≢◌, ◌≤◌, refl, ap, ◌∙◌, ◌&&◌, Option, none, some,
  List, [], ◌∷◌, ◌++◌, Bytes, lit, ◌==◌, leb, length, length-append, append_assoc, if◌then◌else◌,
  arith, All,
}
use go_exasol.Proxy.Chunk.{hex_digits, show_hex, crlf, chunk}
use go_exasol.Text.{hex_digit}

abbrev hex_value : ℕ → Option ℕ
hex_value c =
    if leb b'0' c && leb c b'9'
    then some (c - b'0')
    else if leb b'a' c && leb c b'f'
    then some (c - b'a' + 10)
    else none

-- The number that the digits in front spell behind `n`, and the text behind them.
read_size : ℕ → Bytes → ℕ × Bytes
read_size n [] = (n, [])
read_size n (c ∷ s) = elim (hex_value c) [ some d ↦ read_size (n * 16 + d) s | none ↦ (n, c ∷ s) ]

abbrev strip_crlf : Bytes → Option Bytes
strip_crlf (c ∷ d ∷ s) = if c == 13 then (if d == 10 then some s else none) else none
strip_crlf s = none

-- The first `n` bytes, and the others.
split_at? : ℕ → Bytes → Option (Bytes × Bytes)
split_at? zero s = some ([], s)
split_at? (suc n) [] = none
split_at? (suc n) (c ∷ s) = elim (split_at? n s) [ some (a, b) ↦ some (c ∷ a, b) | none ↦ none ]

abbrev ended : Option Bytes → Option Bytes
ended (some []) = some []
ended (some (c ∷ s)) = none
ended none = none

abbrev append? : Bytes → Option Bytes → Option Bytes
append? part none = none
append? part (some s) = some (part ++ s)

abbrev behind_part : (Bytes → Option Bytes) → Bytes → Option Bytes → Option Bytes
behind_part more part none = none
behind_part more part (some s) = append? part (more s)

abbrev behind_size : (Bytes → Option Bytes) → ℕ → Option Bytes → Option Bytes
behind_size more n none = none
behind_size more zero (some s) = ended (strip_crlf s)
behind_size more (suc n) (some s) = elim (split_at? (suc n) s) [
  | none ↦ none
  | some (part, rest) ↦ behind_part more part (strip_crlf rest)
]

abbrev sized : (Bytes → Option Bytes) → ℕ × Bytes → Option Bytes
sized more (n, s) = behind_size more n (strip_crlf s)

-- The content of a body, chunk by chunk up to the empty one, on fuel.
dechunk : ℕ → Bytes → Option Bytes
unfolding read_size split_at?
dechunk zero s = none
dechunk (suc fuel) s = sized (dechunk fuel) (read_size 0 s)

-- A body cannot hold more chunks than bytes.
unfoldable pub body_of : Bytes → Option Bytes
unfolding dechunk
body_of s = dechunk (suc (length s)) s

hex_value-hex_digit : (n : ℕ) → hex_value (hex_digit (n % 16)) ≡ some (n % 16)
hex_value-hex_digit n = ground arith

read_size_last :
    (n : ℕ) (out : Bytes) → read_size (n / 16) (hex_digit (n % 16) ∷ out) ≡ read_size n out
unfolding read_size
read_size_last n out =
    let e : n / 16 * 16 + n % 16 ≡ n = omega arith in
    ground (arith, hex_value-hex_digit n, ap (λ k. read_size k out) e)

read_size-hex_digits :
    (fuel n : ℕ) (out : Bytes) → n ≤ fuel → read_size 0 (hex_digits fuel n out) ≡ read_size n out
unfolding hex_digits
read_size-hex_digits zero n out h =
    let e : n / 16 ≡ 0 = omega arith in
    ap (λ k. read_size k (hex_digit (n % 16) ∷ out)) (omega arith) ∙ read_size_last n out
read_size-hex_digits (suc fuel) n out h =
    ground
      (arith, read_size_last n out, read_size-hex_digits fuel (n / 16) (hex_digit (n % 16) ∷ out))

hex_digits-append :
    (fuel n : ℕ) (out rest : Bytes)
    → hex_digits fuel n out ++ rest ≡ hex_digits fuel n (out ++ rest)
unfolding hex_digits
hex_digits-append zero n out rest = refl
hex_digits-append (suc fuel) n out rest =
    ground (arith, hex_digits-append fuel (n / 16) (hex_digit (n % 16) ∷ out) rest)

read_size-show_hex :
    (n : ℕ) (rest : Bytes) → read_size 0 (show_hex n ++ (crlf ++ rest)) ≡ (n, crlf ++ rest)
unfolding show_hex
read_size-show_hex n rest =
    ap (read_size 0) (hex_digits-append n n [] (crlf ++ rest))
    ∙ read_size-hex_digits n n (crlf ++ rest) (omega arith)
    ∙ (unfold read_size in refl)

split_at?-append : (part rest : Bytes) → split_at? (length part) (part ++ rest) ≡ some (part, rest)
unfolding split_at?
split_at?-append [] rest = refl
split_at?-append (c ∷ part) rest = ground (arith, split_at?-append part rest)

-- The chunks of some parts, one behind the other.
abbrev pub chunks : List Bytes → Bytes
chunks [] = []
chunks (part ∷ parts) = chunk part ++ chunks parts

abbrev pub concat : List Bytes → Bytes
concat [] = []
concat (part ∷ parts) = part ++ concat parts

abbrev pub last_chunk : Bytes
last_chunk = lit "0\r\n\r\n"

regroup :
    (size part s : Bytes)
    → ((size ++ crlf) ++ (part ++ crlf)) ++ s ≡ size ++ (crlf ++ (part ++ (crlf ++ s)))
regroup size part s = simp (append_assoc)

dechunk-chunk :
    (fuel c : ℕ) (part s : Bytes)
    → dechunk (suc fuel) (chunk (c ∷ part) ++ s) ≡ append? (c ∷ part) (dechunk fuel s)
unfolding dechunk
dechunk-chunk fuel c part s =
    let n = length (c ∷ part) in
    ap (λ t. sized (dechunk fuel) (read_size 0 t)) (regroup (show_hex n) (c ∷ part) s)
    ∙ ap (sized (dechunk fuel)) (read_size-show_hex n (c ∷ part ++ (crlf ++ s)))
    ∙ ground (arith, split_at?-append (c ∷ part) (crlf ++ s))

dechunk-last : (fuel : ℕ) → dechunk (suc fuel) last_chunk ≡ some []
unfolding dechunk read_size
dechunk-last fuel = refl

dechunk-chunks :
    (fuel : ℕ) (parts : List Bytes)
    → All (λ part. part ≢ []) parts
    → length parts ≤ fuel
    → dechunk (suc fuel) (chunks parts ++ last_chunk) ≡ some (concat parts)
dechunk-chunks fuel [] h le = dechunk-last fuel
dechunk-chunks fuel ([] ∷ parts) h le = absurd (h.0 refl)
dechunk-chunks zero ((c ∷ part) ∷ parts) h le = absurd (omega arith)
dechunk-chunks (suc fuel) ((c ∷ part) ∷ parts) h le =
    ap (dechunk (suc (suc fuel))) (append_assoc (chunk (c ∷ part)) (chunks parts) last_chunk)
    ∙ dechunk-chunk (suc fuel) c part (chunks parts ++ last_chunk)
    ∙ ap (append? (c ∷ part)) (dechunk-chunks fuel parts h.1 (omega arith))

length-le-chunks : (parts : List Bytes) → length parts ≤ length (chunks parts)
length-le-chunks [] = omega arith
length-le-chunks (part ∷ parts) = omega (
  arith,
  length-append (chunk part) (chunks parts),
  length-append (show_hex (length part) ++ crlf) (part ++ crlf),
  length-append part crlf,
  length-le-chunks parts,
)

-- Chunks that hold something, and the last chunk, are read back as their parts, joined.
pub body_of-chunks :
    (parts : List Bytes)
    → All (λ part. part ≢ []) parts
    → body_of (chunks parts ++ last_chunk) ≡ some (concat parts)
unfolding body_of
body_of-chunks parts h =
    dechunk-chunks (length (chunks parts ++ last_chunk)) parts h
      (omega (arith, length-le-chunks parts, length-append (chunks parts) last_chunk))
