-- ===== src/Start/Main.antt =====
-- src/main.c: `main`, from the announce to the exit code.
use loco.Base.{
  ℤ, pos, negsuc, true, not, ◌||◌, Option, none, some, List, [], ◌∷◌, ◌++◌, Bytes, length, take,
  size_max, ltb, ◌==◌, if◌then◌else◌,
}
use loco.Resources.{
  Resource, response_object, output_file, piece_buffer, Program, ◌>>=◌, ◌>>◌, or_exit, or_release,
  acquire_all_or_exit, acquire_or_exit, unless_exit, releasing,
}
use loco.Files.{when}
use loco.Identity.{compute_info_hash, generate_peer_id}
use loco.Bencode.Types.{Object, value}
use loco.Metadata.{is_natural, is_positive}
use loco.Tracker.Peers.{Peer, c_string}
use loco.Tracker.Url.{TrackerEvent, TrackerRequest}
use loco.Tracker.Announce.{tracker_announce, data_held}
use loco.Tracker.Response.{
  tracker_response_parse, find_interval, find_peers, extract_peers, ResponseBuffer,
}
use loco.Download.State.{piece_count, Session}
use loco.Download.Loop.{first_piece_size, start_session, download}
use loco.Start.{
  System, Document, document_held, read_document, result_of, peers_held, size_of_integer,
  torrent_of,
}

abbrev pub tracker_request : Document → Bytes → Bytes → TrackerRequest
tracker_request d info_hash peer_id = record {
  info_hash = info_hash;
  peer_id = peer_id;
  port = 0;
  uploaded = 0;
  downloaded = 0;
  left = size_of_integer d.metadata.info.length;
  compact = true;
  event = TrackerEvent.started;
}

-- What is held with the parsed answer.
abbrev pub answer_held : Option Bytes → List Resource
answer_held b = response_object ∷ data_held b ++ document_held

module _ (y : System) where
  -- The two identifiers and the announce.
  unfoldable pub announce_to_tracker : Document → Program ResponseBuffer
  announce_to_tracker d = do
    info_hash ← or_release document_held (compute_info_hash y.digest d.info_bytes)
    peer_id ← or_exit document_held (generate_peer_id y.rand_bytes)
    or_release document_held (
        tracker_announce y.realloc y.malloc y.curl d.metadata.announce
          (tracker_request d info_hash peer_id))

  -- The parsed answer, and in it the peers.
  unfoldable pub take_peers : ResponseBuffer → Program (Object × List Peer)
  take_peers response = do
    response_obj ←
        acquire_or_exit response_object (data_held response.bytes ++ document_held)
          (result_of (tracker_response_parse y.response_memory response))
    interval ← or_exit (answer_held response.bytes) (find_interval response_obj)
    peers_object ← or_exit (answer_held response.bytes) (find_peers response_obj)
    current_peers ←
        acquire_all_or_exit (peers_held (value peers_object)) (answer_held response.bytes)
          (extract_peers y.inet_pton y.peers_granted peers_object)
    unless_exit (peers_held (value peers_object) ++ answer_held response.bytes)
        (length current_peers == 0)
    (some (peers_object, current_peers), [])

  -- The file, the buffer of the first piece, the download, and the release of everything.
  unfoldable pub download_from : Document → List Resource → List Peer → Program Session
  download_from d held current_peers = do
    let info = d.metadata.info
    let torrent = torrent_of info
    unless_exit held (not (is_positive info.piece_length) || not (is_natural info.length))
    unless_exit held
        (ltb size_max torrent.normal_piece_size || ltb size_max torrent.total_file_size)
    unless_exit held (piece_count torrent == 0)
    acquire_or_exit output_file held (when (y.output_opened (c_string info.name)) tt)
    buffer ← acquire_or_exit piece_buffer (output_file ∷ held) (y.malloc (first_piece_size torrent))
    let final =
        download y.sha1 torrent (start_session torrent buffer)
          (take (length current_peers) (y.peer_runs current_peers))
    releasing (output_file ∷ piece_buffer ∷ held) final

  -- The session at the end, where the download was begun.
  unfoldable pub main : Program Session
  main = do
    d ← read_document y
    response ← announce_to_tracker d
    (peers_object, current_peers) ← take_peers response
    download_from d (peers_held (value peers_object) ++ answer_held response.bytes) current_peers

abbrev pub code_of : Option Session → ℤ
code_of none = pos 1
code_of (some s) = if s.download_complete then pos 0 else negsuc 0

unfoldable pub exit_code : System → ℤ
exit_code y = code_of (main y).0
