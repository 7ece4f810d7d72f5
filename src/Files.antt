-- ===== src/Files.antt =====
-- src/file_reader.c: reading a whole file. A result false is an exit of the part.
use loco.Base.{
  ℕ, ℤ, pos, negsuc, Bool, true, false, not, Option, none, some, [], ◌∷◌, Bytes, length, take, ◌==◌,
  if◌then◌else◌,
}
use loco.Resources.{
  torrent_file, file_buffer, Program, ◌>>=◌, ◌>>◌, or_exit, acquire_or_exit, unless_exit, releasing,
}

-- What the calls of stdio and malloc answer: whether the file is opened, whether the two seeks succeed,
-- the position at the end, whether memory is granted, and the bytes that fread finds.
pub record FileAnswers : Type 0 where
  pub opened : Bool
  pub end_found : Bool
  pub position : ℤ
  pub start_found : Bool
  pub granted : Bool
  pub content : Bytes

pub record ByteBuffer : Type 0 where
  pub bytes : Bytes
  pub length : ℕ

abbrev pub when : {A : Type 0} → Bool → A → Option A
when true a = some a
when false a = none

abbrev pub size_at : ℤ → Bool → Option ℕ
size_at (negsuc n) start_found = none
size_at (pos n) start_found = when start_found n

unfoldable pub get_file_size : FileAnswers → Option ℕ
get_file_size file = if file.end_found then size_at file.position file.start_found else none

unfoldable pub read_byte_buffer_from_file : FileAnswers → Program ByteBuffer
read_byte_buffer_from_file file = do
  acquire_or_exit torrent_file [] (when file.opened tt)
  file_size ← or_exit (torrent_file ∷ []) (get_file_size file)
  unless_exit (torrent_file ∷ []) (file_size == 0)
  data_block ←
      acquire_or_exit file_buffer (torrent_file ∷ [])
        (when file.granted (take file_size file.content))
  unless_exit (file_buffer ∷ torrent_file ∷ []) (not (length data_block == file_size))
  releasing (torrent_file ∷ []) (record { bytes = data_block; length = file_size })

-- The buffer behind the release of its block.
unfoldable pub free_buffer : ByteBuffer → ByteBuffer
free_buffer buffer = record { bytes = []; length = 0 }
