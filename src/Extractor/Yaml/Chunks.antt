-- ===== src/Extractor/Yaml/Chunks.antt =====
-- internal/extractor/yaml.go: the documents of a file that is not read as a stream.
use mathlib.Core.List.{append_assoc, append-nil}
use yk_update_checker.Prelude.{
  List, ◌≡◌, ◌∷◌, All, false, [], ◌++◌, ◌∙◌, map, ap, sym, refl, All-append,
}
use yk_update_checker.Extractor.Yaml.{
  chunks_from, flush_chunk, is_boundary, split_yaml_documents, decode_chunks, decode_documents,
  decode_stream,
}
use yk_update_checker.Extractor.Manifests.{YamlLibrary}
use yk_update_checker.Text.{Text, codes, trim, is_space, is_nil, split, span, text_eq}
use yk_update_checker.Text.Cut.{has_code}
use yk_update_checker.Text.Lines.{lines_text, split-lines_text}

-- The lines of a document that is not blank and has no boundary among its lines.
abbrev pub IsLine : Text → Type 0
IsLine line = (has_code 10 line ≡ false) × (is_boundary line ≡ false)

abbrev pub IsDocument : List Text → Type 0
IsDocument lines = All IsLine lines × (is_nil (trim is_space (lines_text lines)) ≡ false)

-- Documents with a boundary behind each.
abbrev pub stream_lines : List (List Text) → List Text
stream_lines [] = []
stream_lines (d ∷ ds) = d ++ codes "---" ∷ stream_lines ds

line_assoc : (cur line rest : Text) → (cur ++ line ++ 10 ∷ []) ++ rest ≡ cur ++ (line ++ 10 ∷ rest)
line_assoc cur line rest = simp append_assoc

chunks_from-lines :
    (cur : Text) (d lines : List Text)
    → All IsLine d
    → chunks_from cur (d ++ codes "---" ∷ lines)
      ≡ flush_chunk (cur ++ lines_text d) ++ chunks_from [] lines
unfolding chunks_from
chunks_from-lines cur [] lines h =
    ap (λ s. flush_chunk s ++ chunks_from [] lines) (sym (append-nil cur))
chunks_from-lines cur (line ∷ d) lines ((_, b), h) = rw b (
    chunks_from-lines (cur ++ line ++ 10 ∷ []) d lines h
    ∙ ap (λ s. flush_chunk s ++ chunks_from [] lines) (line_assoc cur line (lines_text d)))

chunks_from-stream :
    (docs : List (List Text))
    → All IsDocument docs
    → chunks_from [] (stream_lines docs ++ [] ∷ []) ≡ map lines_text docs
unfolding chunks_from flush_chunk is_boundary span text_eq
chunks_from-stream [] h = refl
chunks_from-stream (d ∷ docs) ((l, b), h) =
    ap (λ ls. chunks_from [] ls) (append_assoc d (codes "---" ∷ stream_lines docs) ([] ∷ []))
    ∙ chunks_from-lines [] d (stream_lines docs ++ [] ∷ []) l
    ∙ rw b (ap (λ ls. lines_text d ∷ ls) (chunks_from-stream docs h))

IsLine-whole : (d : List Text) → All IsLine d → All (λ line. has_code 10 line ≡ false) d
IsLine-whole [] h = tt
IsLine-whole (line ∷ d) ((n, _), h) = (n, IsLine-whole d h)

stream_lines-whole :
    (docs : List (List Text))
    → All IsDocument docs
    → All (λ line. has_code 10 line ≡ false) (stream_lines docs)
stream_lines-whole [] h = tt
stream_lines-whole (d ∷ docs) ((l, _), h) =
    All-append (λ line. has_code 10 line ≡ false) d (codes "---" ∷ stream_lines docs)
      (IsLine-whole d l) (refl, stream_lines-whole docs h)

stream_lines-split :
    (docs : List (List Text))
    → All IsDocument docs
    → split 10 (lines_text (stream_lines docs)) ≡ stream_lines docs ++ [] ∷ []
stream_lines-split docs h = split-lines_text (stream_lines docs) (stream_lines-whole docs h)

-- Of documents that are written line by line with the boundary `---` behind each, where no line
-- holds a newline or is a boundary itself and no document is blank: when the stream of the file does
-- not decode, each document is decoded on its own, and those that fail are the ones left out.
pub decode_documents-written :
    (y : YamlLibrary) (docs : List (List Text))
    → All IsDocument docs
    → (decode_stream (y.stream (lines_text (stream_lines docs)))).1 ≡ false
    → decode_documents y (lines_text (stream_lines docs)) ≡ decode_chunks y (map lines_text docs)
unfolding decode_documents split_yaml_documents
decode_documents-written y docs h e =
    rw (e, stream_lines-split docs h) (ap (decode_chunks y) (chunks_from-stream docs h))
