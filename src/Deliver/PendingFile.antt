-- ===== src/Deliver/PendingFile.antt =====
-- The file of group messages as a list, of which the first ones are sent.
use im_service_modify.Prelude.{
  ℕ, ◌+◌, ◌≡◌, refl, sym, ap, ◌∙◌, ◌⊎◌, inl, inr, List, [], ◌∷◌, ◌++◌, append_assoc, append-nil,
  arith, length, subst, drop,
}
use im_service_modify.Wire.{Bytes, write}
use im_service_modify.Prelude.{drop-append, length-append}
use im_service_modify.Message.Pending.{PendingGroupMessage}
use im_service_modify.Deliver.Laws.{FitPending, pending, pending_records, pending_records-append}
use im_service_modify.Deliver.{pending_record, GroupMessageDeliver, save_cursor}
use im_service_modify.Storage.FileLaws.{length-write_header}
use im_service_modify.Storage.File.{header_size, write_header}

-- The id of the last of some messages whose records start at `msgid`, 0 if there is none.
unfoldable pub last_id_from : ℕ → List PendingGroupMessage → ℕ → ℕ
last_id_from msgid [] last = last
last_id_from msgid (gm ∷ gms) last =
    last_id_from (msgid + length (pending_record (pending gm))) gms msgid

unfoldable pub last_id : List PendingGroupMessage → ℕ
last_id gms = last_id_from header_size gms 0

-- The messages `sent` and then `unsent` are in the file, and the last id sent is the one of `sent`.
pub record HasPending (sent unsent : List PendingGroupMessage) (d : GroupMessageDeliver)
    : Type 0 where
  pub holds : d.file ≡ write_header ++ pending_records (sent ++ unsent)
  pub fits : FitPending (sent ++ unsent)
  pub cursor : d.latest_sended_msgid ≡ last_id sent
  pub tail : Bytes
  pub kept : d.cursor_file ≡ write 8 d.latest_sended_msgid ++ tail

last_id_from-snoc :
    (msgid last : ℕ) (gms : List PendingGroupMessage) (gm : PendingGroupMessage)
    → last_id_from msgid (gms ++ gm ∷ []) last ≡ msgid + length (pending_records gms)
unfolding last_id_from pending_records
last_id_from-snoc msgid last [] gm = omega arith
last_id_from-snoc msgid last (x ∷ gms) gm =
    last_id_from-snoc (msgid + length (pending_record (pending x))) msgid gms gm
    ∙ omega (arith, length-append (pending_record (pending x)) (pending_records gms))

pub last_id-snoc :
    (gms : List PendingGroupMessage) (gm : PendingGroupMessage)
    → last_id (gms ++ gm ∷ []) ≡ header_size + length (pending_records gms)
unfolding last_id
last_id-snoc gms gm = last_id_from-snoc header_size 0 gms gm

pub snoc-cases :
    (gms : List PendingGroupMessage)
    → (gms ≡ [])
      ⊎ ((xs : List PendingGroupMessage) × (x : PendingGroupMessage) × (gms ≡ xs ++ x ∷ []))
snoc-cases [] = inl refl
snoc-cases (g ∷ gms) = elim (snoc-cases gms) [
  | inl e ↦ inr ([], g, ap (◌∷◌ g) e)
  | inr (xs, x, e) ↦ inr (g ∷ xs, x, ap (◌∷◌ g) e)
]

pub FitPending-append : (xs ys : List PendingGroupMessage) → FitPending (xs ++ ys) → FitPending ys
unfolding FitPending
FitPending-append [] ys h = h
FitPending-append (x ∷ xs) ys (g, h) = FitPending-append xs ys h

-- The rest of the file behind the messages `xs`.
pub drop-records :
    (xs ys : List PendingGroupMessage)
    → drop (header_size + length (pending_records xs)) (write_header ++ pending_records (xs ++ ys))
      ≡ pending_records ys
drop-records xs ys =
    ap (drop (header_size + length (pending_records xs))) (
      ap (λ b. write_header ++ b) (pending_records-append xs ys)
      ∙ sym (append_assoc write_header (pending_records xs) (pending_records ys)))
    ∙ drop-append (header_size + length (pending_records xs)) (write_header ++ pending_records xs)
        (pending_records ys)
        (omega (arith, length-append write_header (pending_records xs), length-write_header))

pub length-records-snoc :
    (xs : List PendingGroupMessage) (x : PendingGroupMessage)
    → length (pending_records (xs ++ x ∷ []))
      ≡ length (pending_records xs) + length (pending_record (pending x))
length-records-snoc xs x =
    ap length (pending_records-append xs (x ∷ []))
    ∙ length-append (pending_records xs) (pending_records (x ∷ []))
    ∙ unfold pending_records in
      ap (λ b. length (pending_records xs) + length b) (append-nil (pending_record (pending x)))

-- One message more is sent.
pub sent-HasPending :
    (sent gms : List PendingGroupMessage) (gm : PendingGroupMessage) (d : GroupMessageDeliver)
    → HasPending sent (gm ∷ gms) d
    → HasPending (sent ++ gm ∷ []) gms (save_cursor (header_size + length (pending_records sent)) d)
unfolding save_cursor
sent-HasPending sent gms gm d i = record {
  holds =
      i.holds ∙ ap (λ g. write_header ++ pending_records g) (sym (append_assoc sent (gm ∷ []) gms));
  fits = subst FitPending (sym (append_assoc sent (gm ∷ []) gms)) i.fits;
  cursor = sym (last_id-snoc sent gm);
  tail = drop 8 d.cursor_file;
  kept = refl;
}
