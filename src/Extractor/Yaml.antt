-- ===== src/Extractor/Yaml.antt =====
-- internal/extractor/yaml.go: the documents of a YAML file.
pub mod Chunks
use yk_update_checker.Prelude.{
  Bool, List, Option, [], ◌||◌, true, if◌then◌else◌, some, ◌∷◌, none, ◌++◌, false,
}
use mathlib.Core.Option
use yk_update_checker.Prelude.{none, some}
use yk_update_checker.Extractor.Node.{Node, Nodes, document, nil, cons}
use yk_update_checker.Extractor.Manifests.{YamlLibrary}
use yk_update_checker.Text.{Text, codes, trim, is_space, is_nil, text_eq, span, split}

-- `splitYAMLDocuments`
unfoldable pub is_boundary : Text → Bool
unfolding span text_eq
is_boundary line = let t = trim is_space line in text_eq t (codes "---") || text_eq t (codes "...")

unfoldable pub flush_chunk : Text → List Text
unfolding span
flush_chunk cur = if is_nil (trim is_space cur) then [] else cur ∷ []

unfoldable pub chunks_from : Text → List Text → List Text
unfolding is_boundary flush_chunk
chunks_from cur [] = flush_chunk cur
chunks_from cur (line ∷ lines) =
    let ended = flush_chunk cur ++ chunks_from [] lines in
    let longer = chunks_from (cur ++ line ++ 10 ∷ []) lines in
    if is_boundary line then ended else longer

unfoldable pub split_yaml_documents : Text → List Text
unfolding chunks_from split
split_yaml_documents content = chunks_from [] (split 10 content)

-- `documentRoot`
abbrev pub document_root : Node → Option Node
document_root (document nil) = none
document_root (document (cons n ns)) = some n
document_root n = some n

abbrev pub with_root : Option Node → List Node → List Node
with_root none roots = roots
with_root (some n) roots = n ∷ roots

-- `decodeStream`
unfoldable pub decode_stream : List (Option Node) → List Node × Bool
decode_stream [] = ([], true)
decode_stream (none ∷ results) = ([], false)
decode_stream (some doc ∷ results) =
    let (roots, complete) = decode_stream results in (with_root (document_root doc) roots, complete)

-- `decodeDocument`
abbrev pub decode_document : YamlLibrary → Text → Option Node
decode_document y chunk = Option.bind (y.unmarshal chunk) document_root

-- The loop of `decodeDocuments` over the chunks of a file that the stream does not read whole.
unfoldable pub decode_chunks : YamlLibrary → List Text → List Node
decode_chunks y [] = []
decode_chunks y (chunk ∷ chunks) = with_root (decode_document y chunk) (decode_chunks y chunks)

-- `decodeDocuments`, which `File.Documents` calls once
unfoldable pub decode_documents : YamlLibrary → Text → List Node
unfolding decode_stream decode_chunks split_yaml_documents
decode_documents y content =
    let (roots, complete) = decode_stream (y.stream content) in
    if complete then roots else decode_chunks y (split_yaml_documents content)

-- `decodeAll`
unfoldable pub decode_each {ℓ} : {T : Type ℓ} → (Node → Option T) → List Node → List T
decode_each decode [] = []
decode_each decode (root ∷ roots) = elim (decode root) [
  | none ↦ decode_each decode roots
  | some v ↦ v ∷ decode_each decode roots
]

unfoldable pub decode_all {ℓ} : {T : Type ℓ} → YamlLibrary → (Node → Option T) → Text → List T
unfolding decode_documents decode_each
decode_all y decode content = decode_each decode (decode_documents y content)
