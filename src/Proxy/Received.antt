-- ===== src/Proxy/Received.antt =====
-- What the database receives from `Write`, read as HTTP reads it, and where a transfer stops.
use go_exasol.Base.{◌≡◌, ◌≢◌, refl, ap, ◌∙◌, some, List, [], ◌∷◌, ◌++◌, Bytes, All, All-append}
use go_exasol.Proxy.Decode.{concat, chunks, last_chunk, body_of, body_of-chunks}
use go_exasol.Proxy.Lines.{lines_of, terminated, concat-lines_of, lines_of_ne}
use go_exasol.Proxy.Send.{File, reads_of, delimiter_of}
use go_exasol.Proxy.Delivery.{lines_of_files, concat-append}
use go_exasol.Proxy.{Proxy}

abbrev pub contents : Bytes → List File → Bytes
contents sep [] = []
contents sep (file ∷ files) = terminated (delimiter_of sep) sep file.content ++ contents sep files

concat-lines_of_files :
    (sep : Bytes) (files : List File) → concat (lines_of_files sep files) ≡ contents sep files
concat-lines_of_files sep [] = refl
concat-lines_of_files sep (file ∷ files) =
    let d = delimiter_of sep in
    concat-append (lines_of sep (reads_of d file.ending file.content)) (lines_of_files sep files)
    ∙ rw (concat-lines_of d file.ending sep file.content, concat-lines_of_files sep files) refl

lines_of_files_ne :
    (sep : Bytes) (files : List File) → All (λ line. line ≢ []) (lines_of_files sep files)
lines_of_files_ne sep [] = tt
lines_of_files_ne sep (file ∷ files) =
    let d = delimiter_of sep in
    All-append _ (lines_of sep (reads_of d file.ending file.content)) (lines_of_files sep files)
      (lines_of_ne d file.ending sep (reads_of d file.ending file.content))
      (lines_of_files_ne sep files)

-- The chunks of all lines are a body with the contents.
pub body_of-contents :
    (sep : Bytes) (files : List File)
    → body_of (chunks (lines_of_files sep files) ++ last_chunk) ≡ some (contents sep files)
body_of-contents sep files =
    body_of-chunks (lines_of_files sep files) (lines_of_files_ne sep files)
    ∙ ap some (concat-lines_of_files sep files)
