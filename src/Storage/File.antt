-- ===== src/Storage/File.antt =====
-- ServerIMS/model/storage_file.go and the constants of its package: messages are appended to block
-- files of at most 128 MiB, and the id of a message is its position.
-- The directory is a function from block numbers to file contents. Disk errors, which end the
-- program, and the cache of open files, whose contents are those of the directory, are left out.
-- An id is a number, as positions are never negative.
use im_service_modify.Prelude.{
  ℕ, ◌+◌, ◌*◌, ◌/◌, ◌%◌, ◌^◌, Bool, true, false, List, [], ◌∷◌, ◌++◌, ltb, ◌==◌, length, drop,
  if◌then◌else◌, Option, none, some,
}
use im_service_modify.Wire.{Bytes, write, read, Outcome, ok, refused, ◌>>=◌}
use im_service_modify.Message.Body.{Message}
use im_service_modify.Message.Frame.{write_message, receive_message}

abbrev pub header_size : ℕ
header_size = 32

abbrev pub magic : ℕ
magic = 0x494d494d

abbrev pub f_version : ℕ
f_version = 2 ^ 16

abbrev pub block_size : ℕ
block_size = 128 * 1024 * 1024

-- `files` is the directory, `block_no` the file that is written, `sent` the messages given to
-- the master for its slaves, the last first.
pub record StorageFile : Type 0 where
  pub files : ℕ → Option Bytes
  pub block_no : ℕ
  pub dirty : Bool
  pub last_id : ℕ
  pub last_saved_id : ℕ
  pub sent : List (ℕ × Message)

-- One entry of the directory is written.
unfoldable pub update : (ℕ → Option Bytes) → ℕ → Bytes → ℕ → Option Bytes
update files n content i = if i == n then some content else files i

abbrev pub content_or_empty : Option Bytes → Bytes
content_or_empty none = []
content_or_empty (some content) = content

-- The content of the file that is open for writing.
abbrev pub write_file : StorageFile → Bytes
write_file s = content_or_empty (s.files s.block_no)

-- `WriteHeader`
unfoldable pub write_header : Bytes
write_header = write 4 magic ++ (write 4 f_version ++ write 24 0)

-- What `openWriteFile` makes of a file: a missing or an incomplete header is written anew.
unfoldable pub opened : Option Bytes → Bytes
opened none = write_header
opened (some content) = if ltb (length content) header_size then write_header else content

unfoldable pub open_write_file : ℕ → StorageFile → StorageFile
open_write_file n s = record s {
  files = update s.files n (opened (s.files n));
  block_no = n;
  dirty = false;
}

unfoldable pub get_msg_id : ℕ → ℕ → ℕ
get_msg_id block_no offset = block_no * block_size + offset

unfoldable pub get_block_no : ℕ → ℕ
get_block_no msg_id = msg_id / block_size

unfoldable pub get_block_offset : ℕ → ℕ
get_block_offset msg_id = msg_id % block_size

-- The magic number at the front of a file's rest, which `ReadMessage` wants before and after a
-- message. A short read is an error.
unfoldable pub read_magic : Bytes → Outcome Bytes
read_magic file =
    if ltb (length file) 4
    then refused
    else if (read 4 0 file).0 == magic
    then ok (drop 4 file)
    else refused

-- `ReadMessage` at the front of a file's rest.
unfoldable pub read_message : Bytes → Outcome (Message × Bytes)
read_message file = do
  at_message ← read_magic file
  (m, behind) ← receive_message at_message
  rest ← read_magic behind
  ok (m, rest)

-- The bytes that `saveMessage` and `WriteMessage` append.
unfoldable pub record_bytes : Message → Bytes
record_bytes m = write 4 magic ++ (write_message m ++ write 4 magic)

abbrev pub read_at : Option Bytes → ℕ → Outcome Message
read_at none offset = refused
read_at (some content) offset = do (m, _) ← read_message (drop offset content); ok m

unfoldable pub load_message : ℕ → StorageFile → Outcome Message
load_message msg_id s = read_at (s.files (get_block_no msg_id)) (get_block_offset msg_id)

-- `NextMessageID` of ServerIMS/model/storage.go: the position behind the last record.
-- `saveMessage` computes the same number.
unfoldable pub next_message_id : StorageFile → ℕ
next_message_id s = length (write_file s) + s.block_no * block_size

-- The write at the end of `saveMessage`, and the message sent to the master.
unfoldable pub appended : Message → StorageFile → StorageFile
appended m s = record s {
  files = update s.files s.block_no (write_file s ++ record_bytes m);
  dirty = true;
  sent = (next_message_id s, m) ∷ s.sent;
}

-- The second half of `saveMessage`, from the second size test on; `none` is `log.Fatalln`.
unfoldable pub append_record : Message → StorageFile → Option (ℕ × StorageFile)
append_record m s =
    if ltb block_size (length (write_file s) + length (record_bytes m))
    then none
    else some (next_message_id s, appended m s)

-- `saveMessage`: a record that does not fit goes to the next block.
unfoldable pub save_message : Message → StorageFile → Option (ℕ × StorageFile)
save_message m s =
    if ltb block_size (length (write_file s) + length (record_bytes m))
    then append_record m (open_write_file (s.block_no + 1) s)
    else append_record m s

-- `Flush`
unfoldable pub flush : StorageFile → StorageFile
flush s = if s.dirty then record s { dirty = false } else s
