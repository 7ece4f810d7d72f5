-- ===== src/Start.antt =====
-- src/main.c: `main`, from its arguments to the document that is downloaded;
-- src/cli.c.
pub mod Main
pub mod Received
pub mod Results
pub mod Runs
pub mod Unwinding
use loco.Base.{
  ℕ, ℤ, pos, negsuc, ◌-◌, Bool, true, false, not, ◌||◌, Option, none, some, List, [], ◌∷◌, ◌++◌,
  Bytes, length, take, drop, size_max, ltb, ◌==◌, if◌then◌else◌,
}
use loco.Resources.{
  Resource, Event, acquired, file_buffer, parsed_object, response_data, response_object, peers,
  output_file, piece_buffer, Program, ◌>>=◌, ◌>>◌, all_released, or_exit, acquire_or_exit,
  unless_exit, releasing,
}
use loco.Files.{FileAnswers, ByteBuffer, when, read_byte_buffer_from_file}
use loco.Identity.{Digest, compute_info_hash, generate_peer_id}
use loco.Bencode.Types.{Object, Value, byte_string, list, value}
use loco.Bencode.Action.{Outcome, ok, failed, out_of_fuel}
use loco.Bencode.Arrays.{Allocator}
use loco.Bencode.Cursor.{ParserState, bencode_parser_init}
use loco.Bencode.Parser.{parse_bencode_buffer}
use loco.Metadata.{
  BencodedSpan, TorrentInfo, TorrentMetadata, is_natural, is_positive, torrent_metadata_extract,
}
use loco.Tracker.Peers.{Peer}
use loco.Tracker.Url.{TrackerEvent, TrackerRequest}
use loco.Tracker.Announce.{Curl, tracker_announce}
use loco.Tracker.Response.{tracker_response_parse, find_interval, find_peers, extract_peers}
use loco.Download.State.{Torrent, piece_count, Session}
use loco.Download.Loop.{PeerRun, first_piece_size, start_session, download}

-- The program's surroundings: what its libraries and the system answer. `peer_runs` is what happens with
-- each of the peers in turn.
pub record System : Type 0 where
  pub argv : List Bytes
  pub torrent_file : Bytes → FileAnswers
  pub document_memory : Allocator
  pub response_memory : Allocator
  pub digest : Digest
  pub rand_bytes : ℕ → Option Bytes
  pub malloc : ℕ → Option Bytes
  pub realloc : Option Bytes → ℕ → Option Bytes
  pub curl : Curl
  pub inet_pton : Bytes → Option Bytes
  pub peers_granted : Bool
  pub output_opened : Bytes → Bool
  pub sha1 : Bytes → Bytes
  pub peer_runs : List Peer → List PeerRun

-- argv[1], of two arguments with the program's name.
unfoldable pub cli_arguments_valid : List Bytes → Option Bytes
cli_arguments_valid (program ∷ torrent_path ∷ []) = some torrent_path
cli_arguments_valid _ = none

-- `(size_t)` of an int64_t that is not negative.
abbrev pub size_of_integer : ℤ → ℕ
size_of_integer (pos n) = n
size_of_integer (negsuc n) = size_max - n

abbrev pub torrent_of : TorrentInfo → Torrent
torrent_of info = record {
  pieces = info.pieces;
  normal_piece_size = size_of_integer info.piece_length;
  total_file_size = size_of_integer info.length;
}

abbrev parsed : Outcome Object × ParserState → Option Object
parsed (ok x, s) = some x
parsed (failed, s) = none
parsed (out_of_fuel, s) = none

abbrev result_of : Outcome Object → Option Object
result_of (ok x) = some x
result_of failed = none
result_of out_of_fuel = none

-- The array of the peers: none is allocated for no peers.
abbrev pub peers_held : Value → List Resource
peers_held (byte_string s) = if length s == 0 then [] else peers ∷ []
peers_held (list xs n c) = if n == 0 then [] else peers ∷ []
peers_held _ = []

-- What a document holds: the bytes of the file, the metadata, and the bytes of its info dictionary.
pub record Document : Type 0 where
  pub metadata : TorrentMetadata
  pub info_bytes : Bytes

abbrev pub document_held : List Resource
document_held = parsed_object ∷ file_buffer ∷ []

-- From the arguments to the checked span of the info dictionary.
unfoldable pub read_document : System → Program Document
read_document y = do
  torrent_filepath ← or_exit [] (cli_arguments_valid y.argv)
  buffer ← read_byte_buffer_from_file (y.torrent_file torrent_filepath)
  parser ← or_exit (file_buffer ∷ []) (bencode_parser_init (some buffer.bytes) buffer.length)
  obj ←
      acquire_or_exit parsed_object (file_buffer ∷ [])
        (parsed (parse_bencode_buffer y.document_memory parser))
  torrent_metadata ← or_exit document_held (torrent_metadata_extract obj)
  let span = torrent_metadata.info.info_span
  unless_exit document_held (ltb buffer.length span.start_offset)
  unless_exit document_held (ltb (buffer.length - span.start_offset) span.length)
  (
    some (record {
      metadata = torrent_metadata;
      info_bytes = take span.length (drop span.start_offset buffer.bytes);
    }),
    [],
  )
