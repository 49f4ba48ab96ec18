-- ===== src/Proxy/Chunk.antt =====
-- The chunks of an HTTP body, as `httputil.NewChunkedWriter` writes them.
use go_exasol.Base.{ℕ, zero, suc, ◌/◌, ◌%◌, [], ◌∷◌, ◌++◌, Bytes, ltb, length, if◌then◌else◌}
use go_exasol.Text.{hex_digit}

-- The digits of `n` in front of `out`; any fuel from `n` on gives the same.
unfoldable pub hex_digits : ℕ → ℕ → Bytes → Bytes
hex_digits zero n out = hex_digit (n % 16) ∷ out
hex_digits (suc fuel) n out =
    let rest = hex_digits fuel (n / 16) (hex_digit (n % 16) ∷ out) in
    if ltb n 16 then hex_digit (n % 16) ∷ out else rest

-- `%x` of a length
unfoldable pub show_hex : ℕ → Bytes
unfolding hex_digits
show_hex n = hex_digits n n []

abbrev pub crlf : Bytes
crlf = 13 ∷ 10 ∷ []

-- One chunk, as its three writes put it on the wire.
abbrev pub chunk : Bytes → Bytes
chunk part = (show_hex (length part) ++ crlf) ++ (part ++ crlf)
