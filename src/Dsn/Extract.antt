-- ===== src/Dsn/Extract.antt =====
-- `extractParameters` on parameters that hold no separator: it gives them back.
use go_exasol.Base.{
  ◌≡◌, ◌≢◌, refl, ◌∙◌, List, [], ◌∷◌, ◌++◌, map, Bytes, lit, arith, All, Lacks, append-nil,
}
use go_exasol.Dsn.Parse.{extract_parameters}
use go_exasol.Text.Laws.{split-Lacks, split_at, replace_all-Lacks_first, replace_all-Lacks_second}
use go_exasol.Text.{split, replace_from, replace_all}

-- The text does not end with a backslash.
abbrev pub Settled : Bytes → Type 0
Settled [] = Unit
Settled (c ∷ []) = c ≢ b'\\'
Settled (c ∷ d ∷ s) = Settled (d ∷ s)

-- A text that the parser takes literally.
pub record IsPlain (s : Bytes) : Type 0 where
  pub no_separator : Lacks b';' s
  pub no_brace : Lacks b'{' s
  pub settled : Settled s

-- Each parameter behind a separator.
abbrev pub separated : List Bytes → Bytes
separated [] = []
separated (p ∷ ps) = b';' ∷ (p ++ separated ps)

-- The escaped separator does not occur across a plain text and the separator behind it.
replace-Settled :
    (p rest new : Bytes)
    → Lacks b';' p
    → Settled p
    → replace_all (p ++ b';' ∷ rest) (lit "\\;") new ≡ p ++ b';' ∷ replace_all rest (lit "\\;") new
unfolding replace_from
replace-Settled [] rest new h s = refl
replace-Settled (c ∷ []) rest new h s = ground arith
replace-Settled (c ∷ d ∷ p) rest new h s = ground (arith, replace-Settled (d ∷ p) rest new h.1 s)

replace-separated :
    (p : Bytes) (ps : List Bytes) (new : Bytes)
    → IsPlain p
    → All IsPlain ps
    → replace_all (p ++ separated ps) (lit "\\;") new ≡ p ++ separated ps
replace-separated p [] new h hs =
    rw (append-nil p) (replace_all-Lacks_second b'\\' b';' [] new p h.no_separator)
replace-separated p (q ∷ ps) new h hs =
    replace-Settled p (q ++ separated ps) new h.no_separator h.settled
    ∙ rw (replace-separated q ps new hs.0 hs.1)

split-separated :
    (p : Bytes) (ps : List Bytes)
    → IsPlain p
    → All IsPlain ps
    → split b';' (p ++ separated ps) ≡ p ∷ ps
split-separated p [] h hs = rw (append-nil p) (split-Lacks b';' p h.no_separator)
split-separated p (q ∷ ps) h hs =
    split_at b';' p (q ++ separated ps) h.no_separator ∙ rw (split-separated q ps hs.0 hs.1)

map-plain :
    (ps : List Bytes) (old new : Bytes)
    → All IsPlain ps
    → map (λ p. replace_all p (b'{' ∷ old) new) ps ≡ ps
map-plain [] old new h = refl
map-plain (p ∷ ps) old new h =
    rw (replace_all-Lacks_first b'{' old new p h.0.no_brace, map-plain ps old new h.1)

-- Plain parameters, joined by the separator, come back one by one.
pub extract_parameters-separated :
    (p : Bytes) (ps : List Bytes)
    → IsPlain p
    → All IsPlain ps
    → extract_parameters (p ++ separated ps) ≡ p ∷ ps
unfolding extract_parameters
extract_parameters-separated p ps h hs =
    rw (replace-separated p ps (lit "{{,}}") h hs, split-separated p ps h hs)
      (map-plain (p ∷ ps) (lit "{,}}") (lit "\\;") (h, hs))
