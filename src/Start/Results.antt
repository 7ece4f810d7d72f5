-- ===== src/Start/Results.antt =====
-- src/main.c: what holds of the document and of the file when `main` returns 0.
use loco.Base.{
  ℕ, ℤ, ◌≤◌, ◌++◌, take-append-drop, zero, suc, ◌<◌, ◌≡◌, refl, sym, ap, subst, ◌∙◌, inl, inr, pos,
  negsuc, Bool, Bool-cases, true, false, Option, none, some, List, [], ◌∷◌, Bytes, arith, length,
  take, drop, ◌==◌, ==_iff, if◌then◌else◌,
}
use loco.Resources.Values.{bind-some, or_exit-some, acquire-some, unless-some, when-some}
use loco.Resources.{Resource, releasing}
use loco.Files.{FileAnswers, ByteBuffer, size_at, get_file_size, read_byte_buffer_from_file}
use loco.Download.State.{piece_count, Session}
use loco.Download.Loop.{PeerRun, first_piece_size, start_session, download}
use loco.Download.Invariant.{IsConsistent, OnFile}
use loco.Download.Invariant.Run.{AllRunsWhole, download-OnFile}
use loco.Bencode.Types.{Object, Entries, dictionary, value, start_offset}
use loco.Bencode.Action.{Outcome, ok, failed, out_of_fuel}
use loco.Bencode.Cursor.{Input, ParserState, bencode_parser_init, is_valid_parser}
use loco.Bencode.Parser.{parse_bencode_buffer}
use loco.Bencode.Grammar.{Encodes}
use loco.Bencode.Sound.Buffer.{parse_bencode_buffer_sound}
use loco.Metadata.Laws.{FromDocument, torrent_metadata_extract_lem}
use loco.Tracker.Peers.{Peer}
use loco.Start.{System, cli_arguments_valid, Document, parsed, read_document, torrent_of}
use loco.Start.Main.{download_from, main, exit_code, code_of}

AllRunsWhole-take : (n : ℕ) (runs : List PeerRun) → AllRunsWhole runs → AllRunsWhole (take n runs)
AllRunsWhole-take zero runs h = tt
AllRunsWhole-take (suc n) [] h = tt
AllRunsWhole-take (suc n) (r ∷ runs) h = (h.0, AllRunsWhole-take n runs h.1)

-- The session of a download that was begun, with its buffer.
record Begun (y : System) (d : Document) (s : Session) : Type 0 where
  buffer : Bytes
  found : List Peer
  granted : y.malloc (first_piece_size (torrent_of d.metadata.info)) ≡ some buffer
  final :
      s
      ≡ download y.sha1
          (torrent_of d.metadata.info)
          (start_session (torrent_of d.metadata.info) buffer)
          (take (length found) (y.peer_runs found))

download_from-Begun :
    (y : System) (d : Document) (held : List Resource) (ps : List Peer) (s : Session)
    → (download_from y d held ps).0 ≡ some s
    → Begun y d s
unfolding download_from releasing
download_from-Begun y d held ps s e =
    let (_, _, e1) = bind-some _ _ s e in
    let (_, _, e2) = bind-some _ _ s e1 in
    let (_, _, e3) = bind-some _ _ s e2 in
    let (_, _, e4) = bind-some _ _ s e3 in
    let (buffer, given, e5) = bind-some _ _ s e4 in
    record { buffer = buffer; found = ps; granted = acquire-some _ _ _ buffer given; final = cc e5 }

main-Begun :
    (y : System) (s : Session)
    → (main y).0 ≡ some s
    → (d : Document) × ((read_document y).0 ≡ some d) × Begun y d s
unfolding main
main-Begun y s e =
    let (d, document, e1) = bind-some _ _ s e in
    let (r, _, e2) = bind-some _ _ s e1 in
    let (found, _, e3) = bind-some _ _ s e2 in (d, document, download_from-Begun y d _ found.1 s e3)

finished_at :
    (o : Option Session)
    → code_of o ≡ pos 0
    → (s : Session) × (o ≡ some s) × (s.download_complete ≡ true)
finished_at none e = cc e
finished_at (some s) e = elim (Bool-cases s.download_complete) [
  | inl complete ↦ (s, refl, complete)
  | inr more ↦ absurd (cc (ap (λ b. if b then pos 0 else negsuc 0) (sym more) ∙ e))
]

-- Where `main` returns 0, every piece of the document's torrent, whole and with the right hash, has been
-- written at its place: malloc gives blocks of the size asked for, the length of the torrent fits its
-- pieces, and messages have payloads of the lengths that they say.
pub main-OnFile :
    (y : System) (d : Document)
    → ((n : ℕ) (block : Bytes) → y.malloc n ≡ some block → length block ≡ n)
    → (read_document y).0 ≡ some d
    → IsConsistent (torrent_of d.metadata.info)
    → ((ps : List Peer) → AllRunsWhole (y.peer_runs ps))
    → exit_code y ≡ pos 0
    → (s : Session) × ((main y).0 ≡ some s)
      × ((i : ℕ)
          → i < piece_count (torrent_of d.metadata.info)
          → OnFile y.sha1 (torrent_of d.metadata.info) s.file i)
unfolding exit_code
main-OnFile y d sized document v whole e =
    let (s, run, done) = finished_at (main y).0 e in
    let (d', document', b') = main-Begun y s run in
    let same : d' ≡ d = ground (arith, document, document') in
    let b = subst (λ (z : Document). Begun y z s) same b' in
    let t = torrent_of d.metadata.info in
    let written =
      download-OnFile y.sha1 t v b.buffer (take (length b.found) (y.peer_runs b.found))
        (sized _ b.buffer b.granted)
        (AllRunsWhole-take (length b.found) (y.peer_runs b.found) (whole b.found))
        (ap (λ (z : Session). z.download_complete) (sym b.final) ∙ done) in
    (s, run, λ i h. subst (λ (z : Session). OnFile y.sha1 t z.file i) (sym b.final) (written i h))

some_injective : {A : Type 0} {a b : A} → some a ≡ some b → a ≡ b
some_injective e = cc e

parsed-ok : (r : Outcome Object × ParserState) (x : Object) → parsed r ≡ some x → r ≡ (ok x, r.1)
parsed-ok (ok y, s) x e = ap (λ z. (ok z, s)) (some_injective e)
parsed-ok (failed, s) x e = cc e
parsed-ok (out_of_fuel, s) x e = cc e

-- The input that is parsed: the whole file, of which ftell gave the size.
abbrev input_of : ByteBuffer → Input
input_of b = record { bytes = b.bytes; length = b.length }

-- The bytes that are read are the file's first, as many as ftell says.
pub record IsStart (file : FileAnswers) (b : ByteBuffer) : Type 0 where
  pub beyond : Bytes
  pub content : file.content ≡ b.bytes ++ beyond
  pub position : file.position ≡ pos (length b.bytes)
  pub sized : length b.bytes ≡ b.length

size_at-some : (z : ℤ) (found : Bool) (n : ℕ) → size_at z found ≡ some n → z ≡ pos n
size_at-some (pos m) true n e = ap pos (some_injective e)
size_at-some (pos m) false n e = cc e
size_at-some (negsuc m) found n e = cc e

get_file_size-some :
    (file : FileAnswers) (n : ℕ) → get_file_size file ≡ some n → file.position ≡ pos n
unfolding get_file_size
get_file_size-some file n e = elim (Bool-cases file.end_found) [
  | inl z ↦ size_at-some file.position file.start_found n (ground (arith, e, z))
  | inr z ↦ absurd (ground (arith, e, z))
]

read-IsStart :
    (file : FileAnswers) (b : ByteBuffer)
    → (read_byte_buffer_from_file file).0 ≡ some b
    → IsStart file b
unfolding read_byte_buffer_from_file releasing
read-IsStart file b e =
    let (_, _, e1) = bind-some _ _ b e in
    let (n, sized_n, e2) = bind-some _ _ b e1 in
    let (_, _, e3) = bind-some _ _ b e2 in
    let (bs, block, e4) = bind-some _ _ b e3 in
    let (_, same, e5) = bind-some _ _ b e4 in
    let fits : (length bs == n) ≡ true = ground (arith, unless-some _ _ _ same) in
    let all : length bs ≡ n = (==_iff (length bs) n).0 fits in
    let first : take n file.content ≡ bs = when-some _ _ bs (acquire-some _ _ _ bs block) in
    subst (λ (z : ByteBuffer). IsStart file z) (some_injective e5)
      (record {
        beyond = drop n file.content;
        content = sym (take-append-drop n file.content) ∙ ap (λ x. x ++ drop n file.content) first;
        position = get_file_size-some file n (or_exit-some _ _ n sized_n) ∙ ap pos (sym all);
        sized = all;
      })

abbrev state_at : ByteBuffer → ParserState
state_at b = record { input = input_of b; position = 0 }

-- A document of the file that the one argument of the program names: the file starts with the encoding of
-- a dictionary, the metadata is taken from its entries, and the bytes that are hashed are the encoding of
-- the info dictionary among them.
pub record IsOf (y : System) (d : Document) : Type 0 where
  pub program : Bytes
  pub path : Bytes
  pub arguments : y.argv ≡ program ∷ path ∷ []
  pub buffer : ByteBuffer
  pub read : IsStart (y.torrent_file path) buffer
  pub root : Object
  pub text : Bytes
  pub behind : Bytes
  pub encoded_root : Encodes root 0 text
  pub starts : buffer.bytes ≡ text ++ behind
  pub entries : Entries
  pub count : ℕ
  pub capacity : ℕ
  pub root_value : value root ≡ dictionary entries count capacity
  pub document : FromDocument (input_of buffer) entries d.metadata
  pub hashed : Encodes document.info_dict (start_offset document.info_dict) d.info_bytes

two_arguments :
    (argv : List Bytes) (path : Bytes)
    → cli_arguments_valid argv ≡ some path
    → (program : Bytes) × (argv ≡ program ∷ path ∷ [])
unfolding cli_arguments_valid
two_arguments [] path e = cc e
two_arguments (a ∷ []) path e = cc e
two_arguments (a ∷ b ∷ []) path e = (a, ap (λ x. a ∷ x ∷ []) (some_injective e))
two_arguments (a ∷ b ∷ c ∷ rest) path e = cc e

-- The document that `main` downloads is that of the file which its argument names: the file starts with
-- the encoding of a dictionary, the metadata is taken from its entries, and the bytes that are hashed are
-- the encoding of the info dictionary among them.
pub read_document_lem : (y : System) (d : Document) → (read_document y).0 ≡ some d → IsOf y d
unfolding read_document bencode_parser_init is_valid_parser
read_document_lem y d e =
    let (path, named, e1) = bind-some _ _ d e in
    let (b, read, e2) = bind-some _ _ d e1 in
    let (parser, made, e3) = bind-some _ _ d e2 in
    let (x, parsed_x, e4) = bind-some _ _ d e3 in
    let (m, extracted, e5) = bind-some _ _ d e4 in
    let (_, _, e6) = bind-some _ _ d e5 in
    let (_, _, e7) = bind-some _ _ d e6 in
    let (program, arguments) = two_arguments y.argv path (or_exit-some _ _ path named) in
    let file = read-IsStart (y.torrent_file path) b read in
    let p0 = state_at b in
    let start : p0 ≡ parser = some_injective (or_exit-some _ _ _ made) in
    let r = parse_bencode_buffer y.document_memory p0 in
    let run : parsed r ≡ some x =
      ap (λ (z : ParserState). parsed (parse_bencode_buffer y.document_memory z)) start
      ∙ acquire-some _ _ _ _ parsed_x in
    let sized : b.length ≤ length b.bytes = omega (arith, file.sized) in
    let (_, root) =
      parse_bencode_buffer_sound y.document_memory p0 sized x r.1 (parsed-ok r x run) in
    let (es, n, c, root_value, f) =
      torrent_metadata_extract_lem y.document_memory p0 r.1 x m sized (parsed-ok r x run)
        (or_exit-some _ _ _ extracted) in
    let hashed : Encodes f.info_dict (start_offset f.info_dict)
        (take m.info.info_span.length (drop m.info.info_span.start_offset b.bytes)) =
      rw f.spanned f.encoded.encoded in
    subst (λ (z : Document). IsOf y z) (some_injective e7)
      (record {
        program = program;
        path = path;
        arguments = arguments;
        buffer = b;
        read = file;
        root = x;
        text = root.text;
        behind = drop r.1.position b.bytes;
        encoded_root = root.encoded;
        starts = root.between.split;
        entries = es;
        count = n;
        capacity = c;
        root_value = root_value;
        document = f;
        hashed = hashed;
      })
