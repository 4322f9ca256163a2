-- ===== src/Storage/SaveLaws.antt =====
-- `saveMessage`: it never fails on a message that can be read back, and afterwards that message and
-- all earlier ones are loaded under their ids.
use im_service_modify.Prelude.{
  ℕ, ◌+◌, ◌*◌, ◌≤◌, ◌<◌, ◌≡◌, ltb, length, length-append, if◌then◌else◌, arith, some, Bool-cases,
  inl, inr,
}
use im_service_modify.Wire.{ok}
use im_service_modify.Message.Body.{Message, message}
use im_service_modify.Message.Frame.{to_data}
use im_service_modify.Message.Fits.{FitsMessage}
use im_service_modify.Wire.Laws.{wire_laws}
use im_service_modify.Storage.File.{
  StorageFile, header_size, block_size, write_file, open_write_file, opened, record_bytes,
  load_message, append_record, appended, save_message, next_message_id,
}
use im_service_modify.Storage.FileLaws.{
  IsValid, length-record_bytes, appended-loads, appended-keeps, open_write_file-keeps,
  open_write_file-IsValid, appended-IsValid, length-write_header, update_self,
}

-- The file that a record goes to: the current block, or the next one.
unfoldable pub target : Message → StorageFile → StorageFile
target m s =
    if ltb block_size (length (write_file s) + length (record_bytes m))
    then open_write_file (s.block_no + 1) s
    else s

pub record-bounds :
    (m : Message) → FitsMessage (32 * 1024) m → length (record_bytes m) ≤ 8 + 12 + 32768
unfolding FitsMessage to_data
record-bounds (message cmd seq version flag body) f =
    let h = length-record_bytes (message cmd seq version flag body) in
    rw h (simp wire_laws (omega (arith, f.5)))

pub target-write_file-bounds :
    (m : Message) (s : StorageFile)
    → IsValid s
    → length (record_bytes m) ≤ 32788
    → length (write_file (target m s)) + length (record_bytes m) ≤ block_size
unfolding target open_write_file opened
target-write_file-bounds m s v h =
    elim (Bool-cases (ltb block_size (length (write_file s) + length (record_bytes m)))) [
      | inl e ↦ rw e (
          simp (update_self, v.newest (s.block_no + 1) (omega arith))
            (omega (arith, length-write_header)))
      | inr e ↦ rw e (ground arith)
    ]

pub target-IsValid : (m : Message) (s : StorageFile) → IsValid s → IsValid (target m s)
unfolding target
target-IsValid m s v =
    elim (Bool-cases (ltb block_size (length (write_file s) + length (record_bytes m)))) [
      | inl e ↦ rw e (open_write_file-IsValid s v)
      | inr e ↦ rw e v
    ]

target-keeps :
    (m : Message) (s : StorageFile) (id : ℕ) (m' : Message)
    → IsValid s
    → load_message id s ≡ ok m'
    → load_message id (target m s) ≡ ok m'
unfolding target
target-keeps m s id m' v h =
    elim (Bool-cases (ltb block_size (length (write_file s) + length (record_bytes m)))) [
      | inl e ↦ rw e (open_write_file-keeps s id m' v h)
      | inr e ↦ rw e h
    ]

pub save_message-target :
    (m : Message) (s : StorageFile)
    → length (write_file (target m s)) + length (record_bytes m) ≤ block_size
    → save_message m s ≡ some (next_message_id (target m s), appended m (target m s))
unfolding save_message append_record target
save_message-target m s h =
    elim (Bool-cases (ltb block_size (length (write_file s) + length (record_bytes m)))) [
      | inl e ↦ rw e (ground arith)
      | inr e ↦ rw e (ground arith)
    ]

next_message_id-target :
    (m : Message) (s : StorageFile)
    → IsValid s
    → (next_message_id s ≤ next_message_id (target m s)) × ((target m s).block_no ≤ s.block_no + 1)
unfolding target next_message_id open_write_file opened
next_message_id-target m s v =
    elim (Bool-cases (ltb block_size (length (write_file s) + length (record_bytes m)))) [
      | inl e ↦ rw e (
        simp (update_self, v.newest (s.block_no + 1) (omega arith)) (omega (arith, v.bounded)),
        omega arith,
      )
      | inr e ↦ rw e (omega arith, omega arith)
    ]

-- What holds of an id and a state after `m` was saved in `s`.
pub record Saved (m : Message) (s : StorageFile) (id : ℕ) (s' : StorageFile) : Type 0 where
  pub valid : IsValid s'
  pub loads : load_message id s' ≡ ok m
  pub keeps : (i : ℕ) (m' : Message) → load_message i s ≡ ok m' → load_message i s' ≡ ok m'
  pub fresh : next_message_id s ≤ id
  pub grows : id < next_message_id s'
  pub positive : header_size ≤ id
  pub blocks : s'.block_no ≤ s.block_no + 1
  pub last_id : s'.last_id ≡ s.last_id

next_message_id-appended :
    (m : Message) (s : StorageFile) → (next_message_id s < next_message_id (appended m s))
unfolding next_message_id appended
next_message_id-appended m s =
    simp (update_self, length-append) (omega (arith, length-record_bytes m))

target-last_id : (m : Message) (s : StorageFile) → (appended m (target m s)).last_id ≡ s.last_id
unfolding target appended open_write_file
target-last_id m s = ground arith

-- The next record's position and the file with it.
pub target-Saved :
    (m : Message) (s : StorageFile)
    → IsValid s
    → FitsMessage (32 * 1024) m
    → Saved m s (next_message_id (target m s)) (appended m (target m s))
target-Saved m s v f =
    let t = target m s in
    let h = target-write_file-bounds m s v (record-bounds m f) in
    let n = next_message_id-target m s v in
    record {
      valid = appended-IsValid m t (target-IsValid m s v) h;
      loads = appended-loads m t f h;
      keeps = λ i m' e. appended-keeps m t i m' (target-keeps m s i m' v e);
      fresh = n.0;
      grows = next_message_id-appended m t;
      positive = unfold next_message_id in omega (arith, (target-IsValid m s v).header);
      blocks = unfold appended in n.1;
      last_id = target-last_id m s;
    }

-- In a valid file a message below 32 KiB, whose fields fit, is saved, under an id behind all
-- earlier ones, and is loaded under that id. Every message that could be loaded before is still
-- loaded under its id.
pub save_message-Saved :
    (m : Message) (s : StorageFile)
    → IsValid s
    → FitsMessage (32 * 1024) m
    → (id : ℕ) × (s' : StorageFile) × (save_message m s ≡ some (id, s')) × Saved m s id s'
save_message-Saved m s v f =
    let h = target-write_file-bounds m s v (record-bounds m f) in
    (
      next_message_id (target m s),
      appended m (target m s),
      save_message-target m s h,
      target-Saved m s v f,
    )
