-- ===== src/Deliver/SaveLaws.antt =====
-- Saving a group message, and starting again from the two files.
use im_service_modify.Prelude.{
  drop-append_self, length-append, ℕ, ◌+◌, ◌-◌, ◌^◌, ◌≤◌, ◌<◌, ◌≡◌, sym, ap, ◌∙◌, ◌++◌,
  append_assoc, arith, length,
}
use im_service_modify.Wire.{Bytes, write, ok}
use im_service_modify.Prelude.{drop-append_self, length-append}
use im_service_modify.Message.Body.{Message}
use im_service_modify.Message.Frame.{write_message}
use im_service_modify.Deliver.{pending_record, read_latest_message_id}
use im_service_modify.Wire.Laws.{wire_laws}
use im_service_modify.Storage.File.{header_size, magic}

-- The end of a file behind a record.
record_front : Message → Bytes
record_front m = write 4 magic ++ (write 4 (length (write_message m)) ++ write_message m)

record-split :
    (m : Message)
    → pending_record m ≡ record_front m ++ (write 4 (length (write_message m)) ++ write 4 magic)
unfolding pending_record record_front
record-split m = simp append_assoc

length-record_front : (m : Message) → length (record_front m) ≡ 8 + length (write_message m)
unfolding record_front
length-record_front m = simp wire_laws (omega arith)

read_latest_message_id-end :
    (front : Bytes) (n : ℕ)
    → header_size < length front
    → n < 2 ^ 31
    → read_latest_message_id (front ++ (write 4 n ++ write 4 magic)) ≡ ok (length front - n - 8)
unfolding read_latest_message_id
read_latest_message_id-end front n h l =
    let e : length (front ++ (write 4 n ++ write 4 magic)) - 8 ≡ length front =
      simp wire_laws (omega arith) in
    let k : magic < 256 ^ 4 = omega arith in
    let l' : n < 256 ^ 4 = omega (arith, l) in
    rw (e, drop-append_self front (write 4 n ++ write 4 magic))
      (simp (wire_laws, l', k) (ground (arith, h, l)))

-- A new start reads the id of the last record that was saved.
pub read_latest_message_id-save :
    (m : Message) (file : Bytes)
    → header_size ≤ length file
    → length (write_message m) < 2 ^ 31
    → read_latest_message_id (file ++ pending_record m) ≡ ok (length file)
read_latest_message_id-save m file h l =
    ap (λ r. read_latest_message_id (file ++ r)) (record-split m)
    ∙ ap read_latest_message_id (
        sym (
          append_assoc file (record_front m) (write 4 (length (write_message m)) ++ write 4 magic)))
    ∙ read_latest_message_id-end (file ++ record_front m) (length (write_message m))
        (omega (arith, length-append file (record_front m), length-record_front m)) l
    ∙ ap ok (omega (arith, length-append file (record_front m), length-record_front m))
