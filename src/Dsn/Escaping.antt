-- ===== src/Dsn/Escaping.antt =====
-- `extractParameters` and `unescape` against a reading of the text from left to right.
use go_exasol.Base.{
  ℕ, ◌≡◌, ◌≢◌, refl, List, [], ◌∷◌, ◌++◌, map, Bytes, lit, ◌==◌, ◌&&◌, if◌then◌else◌, arith, Lacks,
  All-append,
}
use go_exasol.Base.Int.{ℤ}
use go_exasol.Dsn.Parse.{
  extract_parameters, unescape, get_config_with_parameters, get_default_config, set_parameters,
  set_parameter,
}
use go_exasol.Result.{ok}
use go_exasol.Text.Laws.{split-Lacks, replace_all-Lacks_first, replace_all-Lacks_second}
use go_exasol.Text.{split, split_n2, replace_from, replace_all, cons_head}

-- The reference: cut at each separator that no backslash stands in front of.
unfoldable pub cut_unescaped : Bytes → List Bytes
cut_unescaped [] = [] ∷ []
cut_unescaped (c ∷ []) = if c == b';' then [] ∷ [] ∷ [] else (c ∷ []) ∷ []
cut_unescaped (c ∷ d ∷ s) =
    let behind = cut_unescaped s in
    let next = cut_unescaped (d ∷ s) in
    if c == b'\\' && d == b';'
    then cons_head c (cons_head d behind)
    else if c == b';'
    then [] ∷ next
    else cons_head c next

abbrev reverted : List Bytes → List Bytes
reverted = map (λ p. replace_all p (lit "{{,}}") (lit "\\;"))

reverted-cons_head :
    (c : ℕ) (ps : List Bytes) → c ≢ b'{' → reverted (cons_head c ps) ≡ cons_head c (reverted ps)
unfolding replace_from
reverted-cons_head c [] h = ground arith
reverted-cons_head c (p ∷ ps) h = ground arith

reverted_placeholder :
    (ps : List Bytes)
    → reverted
        (cons_head b'{' (cons_head b'{' (cons_head b',' (cons_head b'}' (cons_head b'}' ps)))))
      ≡ cons_head b'\\' (cons_head b';' (reverted ps))
unfolding replace_from
reverted_placeholder [] = refl
reverted_placeholder (p ∷ ps) = refl

abbrev hidden : Bytes → Bytes
hidden s = replace_all s (lit "\\;") (lit "{{,}}")

-- On a text that holds no brace, the placeholder changes nothing: `extractParameters` cuts at the
-- separators that are not escaped, and leaves the escapes in place.
pub extract_parameters-cut_unescaped :
    (s : Bytes) → Lacks b'{' s → extract_parameters s ≡ cut_unescaped s
unfolding extract_parameters cut_unescaped split replace_from
extract_parameters-cut_unescaped [] h = refl
extract_parameters-cut_unescaped (c ∷ []) h = ground arith
extract_parameters-cut_unescaped (c ∷ d ∷ s) h =
    let ih = extract_parameters-cut_unescaped s h.1.1 in
    let ih' = extract_parameters-cut_unescaped (d ∷ s) h.1 in
    ground (
      arith,
      ih,
      ih',
      reverted_placeholder (split b';' (hidden s)),
      reverted-cons_head c (split b';' (hidden (d ∷ s))),
    )

-- A value as a user writes it into the text: a backslash in front of each separator.
unfoldable pub escape : Bytes → Bytes
escape [] = []
escape (c ∷ s) = if c == b';' then b'\\' ∷ c ∷ escape s else c ∷ escape s

-- Whatever the value holds, backslashes included, the parser's `unescape` undoes the escaping.
pub unescape-escape : (s : Bytes) → unescape (escape s) ≡ s
unfolding unescape escape replace_from
unescape-escape [] = refl
unescape-escape (c ∷ []) = ground arith
unescape-escape (c ∷ d ∷ s) = ground (arith, unescape-escape (d ∷ s))

reverted_at :
    (u w : Bytes)
    → Lacks b'{' u
    → Lacks b'{' w
    → replace_all (u ++ (lit "{{,}}" ++ w)) (lit "{{,}}") (lit "\\;") ≡ u ++ (lit "\\;" ++ w)
unfolding replace_from
reverted_at [] w h k = rw (replace_all-Lacks_first b'{' (lit "{,}}") (lit "\\;") w k)
reverted_at (c ∷ u) w h k = ground (arith, reverted_at u w h.1 k)

unescape_at :
    (u w : Bytes) → Lacks b';' u → Lacks b';' w → unescape (u ++ (lit "\\;" ++ w)) ≡ u ++ b';' ∷ w
unfolding unescape replace_from
unescape_at [] w h k = rw (replace_all-Lacks_second b'\\' b';' [] (lit ";") w k)
unescape_at (c ∷ []) w h k = ground (arith, unescape_at [] w tt k)
unescape_at (c ∷ d ∷ u) w h k = ground (arith, unescape_at (d ∷ u) w h.1 k)

placeholder-Lacks : (w : Bytes) → Lacks b';' w → Lacks b';' (lit "{{,}}" ++ w)
placeholder-Lacks w h = All-append _ (lit "{{,}}") w (omega arith) h

-- A parameter that holds the placeholder is cut out with an escaped separator in its place.
extract_parameters_at :
    (u w : Bytes)
    → Lacks b';' u
    → Lacks b'{' u
    → Lacks b';' w
    → Lacks b'{' w
    → extract_parameters (u ++ (lit "{{,}}" ++ w)) ≡ (u ++ (lit "\\;" ++ w)) ∷ []
unfolding extract_parameters
extract_parameters_at u w hu bu hw bw =
    let whole = u ++ (lit "{{,}}" ++ w) in
    let lacks = All-append (λ c. c ≢ b';') u (lit "{{,}}" ++ w) hu (placeholder-Lacks w hw) in
    rw (
      replace_all-Lacks_second b'\\' b';' [] (lit "{{,}}") whole lacks,
      split-Lacks b';' whole lacks,
      reverted_at u w bu bw,
    )

-- A value that holds the placeholder itself, between texts without separators and opening braces, is
-- not read as it stands: a password gets a separator in its place, and a schema, of which the parser
-- does not undo the escaping, an escaped separator.
pub placeholder_becomes_separator :
    (host : Bytes) (port : ℤ) (u w : Bytes)
    → Lacks b';' u
    → Lacks b'{' u
    → Lacks b';' w
    → Lacks b'{' w
    → (get_config_with_parameters host port (lit "password=" ++ (u ++ (lit "{{,}}" ++ w)))
        ≡ ok (record (get_default_config host port) { password = u ++ b';' ∷ w }))
      × (get_config_with_parameters host port (lit "schema=" ++ (u ++ (lit "{{,}}" ++ w)))
          ≡ ok (record (get_default_config host port) { schema = u ++ (lit "\\;" ++ w) }))
unfolding get_config_with_parameters set_parameters set_parameter split_n2
placeholder_becomes_separator host port u w hu bu hw bw = (
  rw
      (extract_parameters_at (lit "password=" ++ u) w
        (All-append (λ c. c ≢ b';') (lit "password=") u (omega arith) hu)
        (All-append (λ c. c ≢ b'{') (lit "password=") u (omega arith) bu) hw bw)
      (rw (unescape_at u w hu hw) refl),
  rw
      (extract_parameters_at (lit "schema=" ++ u) w
        (All-append (λ c. c ≢ b';') (lit "schema=") u (omega arith) hu)
        (All-append (λ c. c ≢ b'{') (lit "schema=") u (omega arith) bu) hw bw)
      refl,
)
