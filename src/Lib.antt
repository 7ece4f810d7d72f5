-- ===== src/Lib.antt =====
-- loco is a command line BitTorrent client: it reads a .torrent file, asks the tracker for peers, and
-- downloads the pieces of one file, in order, from one peer after another. These modules model its core
-- and prove it correct.
--
-- The parts and how they interact:
--
-- * Bencode (src/bencode_parser.c, include/bencode_types.h, include/bencode_parser.h) parses the .torrent
--   file and the answer of the tracker. Bencode/Cursor, Strings, Integers, Arrays, Containers and Parser
--   hold one definition per function of the C file, by the same name; the loops of
--   `determine_byte_string_length`, `parse_bencode_integer`, `parse_bencode_list` and
--   `parse_bencode_dict` are `string_length_loop`, `magnitude_loop`, `list_loop` and `dict_loop`. An
--   action takes the position and gives a result with the position after it; the input never changes.
--   `parse_bencode_buffer` calls itself through lists and dictionaries: `parse_object` has one unit of
--   fuel for each level of nesting, and the length of the input is enough, since each level costs a
--   byte. Bencode/Grammar says what the encoding of an object is, without a parser. Bencode/Sound and
--   Bencode/Complete relate the two. Whether `realloc` gives memory is a parameter. Values stand for
--   pointers: null parsers and null out parameters, which no caller passes, have no counterpart.
-- * Peer (src/peer_connection.c, include/peer_connection.h) is the peer wire protocol. Peer/Types has the
--   structs, Peer/Wire the bytes of the messages that are sent and the handshake, Peer/Bitfield what is
--   known of a peer's pieces, Peer/Pieces the block that a piece message brings, Peer/Send the loops that
--   send, Peer/Connect the connection. Peer/Receive is
--   `receive_peer_wire_message`, over what the calls of recv answer.
-- * Download (src/main.c) is the loop of `main` over the peers and over the messages of each.
--   Download/State has what `main` keeps and what the system answers (Answers); Download/Round one turn
--   of the inner loop, which uses Peer/Bitfield and Peer/Pieces; Download/Loop both loops, over the
--   peers with the messages that are received from each. A turn that breaks out of the inner loop ends
--   in `leave`, another one in `stay`. The file is the list of the writes to it, SHA-1 is a parameter.
--   Download/Invariant has what holds at every moment, and the proofs by the part of the turn.
-- * Metadata (src/torrent_metadata.c, include/torrent_metadata.h) takes the fields out of the parsed
--   .torrent file, one definition per function. `info_of` is the second half of
--   `torrent_metadata_extract_info`. Metadata/Offsets relates the offsets of objects to the document.
-- * Tracker (src/tracker.c, include/tracker.h) is the announce. Tracker/Url has the parts of the URL, and
--   Tracker/Url/Write writes it in a block of its exact size; Tracker/Announce makes the request and
--   collects the answer by the callback of libcurl; Tracker/Response parses the answer and finds the
--   peers in it; Tracker/Peers takes them from the compact form or from a list, also as src/main.c
--   chooses between the two.
-- * Start (src/main.c, src/cli.c) is `main` as a whole: Start.antt from the arguments to the document,
--   Start/Main from the announce to the exit code. It uses Files (src/file_reader.c, include/file_reader.h),
--   Identity (src/info_hash.c, src/peer_id.c) and all of the above. Resources has what is opened and
--   allocated, as a list of events beside each result, which every exit extends by what it releases.
--
-- Numbers are natural numbers where the code uses size_t (64 bits) and tests for overflow before it
-- computes; the tests are written out with `size_max` and `int64_max`. The sums that the code does not
-- test are of offsets and sizes inside one block of memory. Documents of up to 2 ^ 56 bytes
-- (`document_max`) keep the doubling arrays of the parser, of at most 64 bytes an element, within
-- size_t. The loops of the parser have one unit of fuel for each byte of the input, which is enough
-- since each turn reads a byte at least.
--
-- The system and the libraries answer from records: stdio, malloc and realloc, the socket calls, OpenSSL
-- and libcurl. Their calls that can fail take a truth value or an option from the record; calls of send
-- and recv take what the next one does from a list, and a list that ends is a call that has not come back.
-- What libcurl and snprintf do with their arguments is written down as they document it: `deliver` hands
-- the chunks of a body to the callback, `digits` prints a number in base ten.
--
-- Not modelled: what the parser and `peers_extract_list` acquire and release inside, on their error paths
-- too (a parsed document is one resource, and so is the array of the peers; `main` releases the whole),
-- the memory of bitfields and messages along the loop of a peer, `free_bencode_object`, which only gives
-- memory back, and what is printed. What happens with a peer is an input of the loop; Download/Sockets makes it of what the socket answers, by the
-- functions of Peer/Connect, Peer/Send and Peer/Receive. A call of recv or send that does not come back
-- ends what is known of its connection; the model goes on with the next peer there.
-- The Runs files (Bencode/Runs, Metadata/Runs, Peer/Runs, Peer/Receive/Runs, Peer/Send/Runs,
-- Tracker/Runs, Tracker/Announce/Runs, Download/Runs, Start/Runs, Start/Received/Runs) run the definitions
-- on concrete inputs; Start/Runs and Start/Received/Runs run the whole program.
pub mod Base
pub mod Bencode
pub mod Metadata
pub mod Peer
pub mod Tracker
pub mod Download
pub mod Files
pub mod Identity
pub mod Resources
pub mod Start
