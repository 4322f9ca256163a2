-- ===== src/Storage/FileLaws.antt =====
-- What is saved is loaded, and stays so whatever is saved later.
use im_service_modify.Prelude.{
  ==→eq, ℕ, ◌+◌, ◌*◌, ◌^◌, ◌≤◌, ◌<◌, ◌≡◌, ◌≢◌, refl, List, [], ◌∷◌, ◌++◌, append_assoc, append-nil,
  leb, ◌==◌, length, drop, length-append, length-drop, arith, Option, none, some, Bool-cases, inl,
  inr,
}
use im_service_modify.Wire.{Bytes, write, ok, refused}
use im_service_modify.Message.Body.{Message}
use im_service_modify.Message.Frame.{write_message, receive_message}
use im_service_modify.Message.Fits.{FitsMessage}
use im_service_modify.Message.FrameLaws.{receive_message-write_message}
use im_service_modify.Wire.Laws.{wire_laws}
use im_service_modify.Prelude.{drop-append_front, drop-append_self}
use im_service_modify.Message.Append.{receive_message-append, >>=-eq-ok}
use im_service_modify.Wire.Laws.{read-append_front}
use im_service_modify.Storage.File.{
  StorageFile, header_size, magic, block_size, update, write_file, content_or_empty, write_header,
  opened, open_write_file, get_block_no, get_block_offset, read_magic, read_message, record_bytes,
  load_message, append_record, appended, read_at, next_message_id,
}

pub read_magic-write : (rest : Bytes) → read_magic (write 4 magic ++ rest) ≡ ok rest
unfolding read_magic
read_magic-write rest = let h : magic < 256 ^ 4 = omega arith in simp (wire_laws, h) (ground arith)

pub drop_past {ℓ} : {A : Type ℓ} (n : ℕ) (xs : List A) → length xs ≤ n → drop n xs ≡ []
drop_past {A} n xs h = length_zero (drop n xs) (omega (arith, length-drop n xs))
  where
    length_zero : (ys : List A) → length ys ≡ 0 → ys ≡ []
    length_zero [] e = refl
    length_zero (y ∷ ys) e = absurd (omega arith)

-- A record is read back, whatever follows it in the file.
pub read_message-record_bytes :
    (m : Message) (rest : Bytes)
    → FitsMessage (32 * 1024) m
    → read_message (record_bytes m ++ rest) ≡ ok (m, rest)
unfolding read_message record_bytes
read_message-record_bytes m rest f =
    simp (append_assoc, read_magic-write, receive_message-write_message, f)

read_magic-append :
    (file more rest : Bytes)
    → read_magic file ≡ ok rest
    → read_magic (file ++ more) ≡ ok (rest ++ more)
unfolding read_magic
read_magic-append file more rest e =
    ground (
      arith,
      length-append file more,
      read-append_front 4 0 file more,
      drop-append_front 4 file more,
    )

-- A record that was read is read as well when more follows it.
pub read_message-append :
    (file more rest : Bytes) (m : Message)
    → read_message file ≡ ok (m, rest)
    → read_message (file ++ more) ≡ ok (m, rest ++ more)
unfolding read_message
read_message-append file more rest m e =
    let (a, qa, ea) = >>=-eq-ok (read_magic file) _ e in
    let (p, qp, ep) = >>=-eq-ok (receive_message a) _ ea in
    let (c, qc, ec) = >>=-eq-ok (read_magic p.1) _ ep in
    rw (read_magic-append file more a qa)
      (rw (receive_message-append a more p.1 p.0 qp) (rw (read_magic-append p.1 more c qc) (cc ec)))

-- The state of a storage file: the file that is written has a header and is not over-full, and no
-- later block exists.
pub record IsValid (s : StorageFile) : Type 0 where
  pub header : header_size ≤ length (write_file s)
  pub bounded : length (write_file s) ≤ block_size
  pub newest : (n : ℕ) → s.block_no < n → s.files n ≡ none

pub length-record_bytes : (m : Message) → length (record_bytes m) ≡ 8 + length (write_message m)
unfolding record_bytes
length-record_bytes m = simp wire_laws (omega arith)

pub update_self :
    (files : ℕ → Option Bytes) (n : ℕ) (content : Bytes) → update files n content n ≡ some content
unfolding update
update_self files n content = ground arith

pub update_other :
    (files : ℕ → Option Bytes) (n i : ℕ) (content : Bytes)
    → i ≢ n
    → update files n content i ≡ files i
unfolding update
update_other files n i content h = ground arith

-- A position in a block and the block's number come back from the id.
pub block_of_next :
    (s : StorageFile)
    → length (write_file s) < block_size
    → (get_block_no (next_message_id s) ≡ s.block_no)
      × (get_block_offset (next_message_id s) ≡ length (write_file s))
unfolding next_message_id get_block_no get_block_offset
block_of_next s h = omega arith

append_record_inv :
    (m : Message) (s s' : StorageFile) (id : ℕ)
    → append_record m s ≡ some (id, s')
    → (length (write_file s) + length (record_bytes m) ≤ block_size)
      × (id ≡ next_message_id s)
      × (s' ≡ appended m s)
unfolding append_record
append_record_inv m s s' id e = (ground arith, ground arith, ground arith)

-- A record is found under its id.
pub appended-loads :
    (m : Message) (s : StorageFile)
    → FitsMessage (32 * 1024) m
    → length (write_file s) + length (record_bytes m) ≤ block_size
    → load_message (next_message_id s) (appended m s) ≡ ok m
unfolding load_message appended
appended-loads m s f h =
    let room : length (write_file s) < block_size = omega (arith, length-record_bytes m) in
    let (b, o) = block_of_next s room in
    let whole : read_message (record_bytes m) ≡ ok (m, []) =
      simp append-nil at (read_message-record_bytes m [] f) in
    simp (b, o, update_self, drop-append_self, whole)

read_message_nil : (p : Message × Bytes) → read_message [] ≢ ok p
unfolding read_message read_magic
read_message_nil p e = cc

refused_ne : {m : Message} → refused ≢ ok m
refused_ne e = cc

read_at-append :
    (file : Option Bytes) (more : Bytes) (offset : ℕ) (m : Message)
    → read_at file offset ≡ ok m
    → read_at (some (content_or_empty file ++ more)) offset ≡ ok m
read_at-append none more offset m e = cc
read_at-append (some content) more offset m e =
    let (p, q, ep) = >>=-eq-ok (read_message (drop offset content)) _ e in
    elim (Bool-cases (leb offset (length content))) [
      | inl h ↦
          rw (drop-append_front offset content more (ground arith))
            (rw (read_message-append (drop offset content) more p.1 p.0 q) ep)
      | inr h ↦ absurd (read_message_nil p (rw (drop_past offset content (ground arith)) at q))
    ]

-- Appending to a block keeps what could be loaded.
pub appended-keeps :
    (m : Message) (s : StorageFile) (id : ℕ) (m' : Message)
    → load_message id s ≡ ok m'
    → load_message id (appended m s) ≡ ok m'
unfolding load_message appended update
appended-keeps m s id m' e = elim (Bool-cases (get_block_no id == s.block_no)) [
  | inl h ↦ rw h (
      read_at-append (s.files s.block_no) (record_bytes m) (get_block_offset id) m'
        (rw (==→eq _ _ h) at e))
  | inr h ↦ rw h e
]

-- So does opening the next block, which does not exist yet.
pub open_write_file-keeps :
    (s : StorageFile) (id : ℕ) (m : Message)
    → IsValid s
    → load_message id s ≡ ok m
    → load_message id (open_write_file (s.block_no + 1) s) ≡ ok m
unfolding load_message open_write_file update
open_write_file-keeps s id m v e = elim (Bool-cases (get_block_no id == s.block_no + 1)) [
  | inl h ↦ absurd (refused_ne (rw (==→eq _ _ h, v.newest (s.block_no + 1) (omega arith)) at e))
  | inr h ↦ rw h e
]

pub length-write_header : length write_header ≡ header_size
unfolding write_header
length-write_header = simp wire_laws

-- The next block starts with its header.
pub open_write_file-IsValid :
    (s : StorageFile) → IsValid s → IsValid (open_write_file (s.block_no + 1) s)
unfolding open_write_file opened
open_write_file-IsValid s v =
    let fresh : s.files (s.block_no + 1) ≡ none = v.newest (s.block_no + 1) (omega arith) in
    record {
      header = simp (update_self, fresh) (omega (arith, length-write_header));
      bounded = simp (update_self, fresh) (omega (arith, length-write_header));
      newest = λ n h.
          rw (update_other s.files (s.block_no + 1) n _ (omega arith)) (v.newest n (omega arith));
    }

pub appended-IsValid :
    (m : Message) (s : StorageFile)
    → IsValid s
    → length (write_file s) + length (record_bytes m) ≤ block_size
    → IsValid (appended m s)
unfolding appended
appended-IsValid m s v h = record {
  header = simp (update_self, length-append) (omega (arith, v.header));
  bounded = simp (update_self, length-append) h;
  newest = λ n p. rw (update_other s.files s.block_no n _ (omega arith)) (v.newest n p);
}
