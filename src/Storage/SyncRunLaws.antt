-- ===== src/Storage/SyncRunLaws.antt =====
-- A slave along a run of its master, and messages that come twice.
use im_service_modify.Prelude.{
  ℕ, ◌*◌, ◌<◌, ◌≡◌, refl, sym, ◌∙◌, Option, none, some, List, [], ◌∷◌, arith,
}
use im_service_modify.Message.Body.{Message}
use im_service_modify.Message.Fits.{FitsMessage}
use im_service_modify.Storage.File.{
  StorageFile, get_block_no, get_block_offset, save_message, next_message_id,
}
use im_service_modify.Storage.FileLaws.{IsValid}
use im_service_modify.Storage.Sync.{Storage, sync_target, sync_in_block, save_sync_message}
use im_service_modify.Storage.SyncLaws.{
  SameFiles, SameFiles-trans, exec_both-SameFiles, save_sync_message-executes,
  save_sync_message-replicates,
}
use im_service_modify.Storage.Sync.{exec_both}
use im_service_modify.Storage.File.{load_message}
use im_service_modify.Wire.{ok}

-- The master saves messages one after the other; the ids and messages are what it sends.
unfoldable pub save_all : List Message → StorageFile → Option (List (ℕ × Message) × StorageFile)
save_all [] s = some ([], s)
save_all (m ∷ ms) s = elim (save_message m s) [
  | none ↦ none
  | some (id, s1) ↦ elim (save_all ms s1) [
    | none ↦ none
    | some (sent, s2) ↦ some ((id, m) ∷ sent, s2)
  ]
]

-- The slave receives them.
unfoldable pub receive_all : List (ℕ × Message) → Storage → Storage
receive_all [] s = s
receive_all ((id, m) ∷ sent) s = receive_all sent (save_sync_message id m s)

abbrev pub FitAll : List Message → Type 0
FitAll [] = Unit
FitAll (m ∷ ms) = FitsMessage (32 * 1024) m × FitAll ms

save_all_two :
    (m : Message) (ms : List Message) (s s1 s2 : StorageFile) (id : ℕ) (sent : List (ℕ × Message))
    → save_message m s ≡ some (id, s1)
    → save_all ms s1 ≡ some (sent, s2)
    → save_all (m ∷ ms) s ≡ some ((id, m) ∷ sent, s2)
unfolding save_all
save_all_two m ms s s1 s2 id sent e1 e2 = rw (e1, save_all) (rw e2)

-- A master with a valid file saves any list of messages below 32 KiB, whose fields fit. A slave
-- that starts with the same block files and receives each of them, in order, under the id that
-- the master gave it, ends with the master's block files, however many blocks were opened.
pub receive_all-replicates :
    (ms : List Message) (master : StorageFile) (slave : Storage)
    → IsValid master
    → FitAll ms
    → SameFiles slave.file master
    → (sent : List (ℕ × Message)) × (master' : StorageFile) × (save_all ms master
        ≡ some (sent, master'))
      × IsValid master'
      × SameFiles (receive_all sent slave).file master'
unfolding receive_all save_all
receive_all-replicates [] master slave v f e = ([], master, refl, v, e)
receive_all-replicates (m ∷ ms) master slave v (f, fs) e =
    let (id, master1, e1, a, same) = save_sync_message-replicates m master slave v f e in
    let (sent, master2, e2, v2, same2) =
      receive_all-replicates ms master1 (save_sync_message id m slave) a.valid fs same in
    ((id, m) ∷ sent, master2, save_all_two m ms master master1 master2 id sent e1 e2, v2, same2)

-- A valid slave ignores a message whose id lies before the end of its file.
pub save_sync_message-old :
    (id : ℕ) (m : Message) (s : Storage)
    → IsValid s.file
    → id < next_message_id s.file
    → save_sync_message id m s ≡ s
unfolding save_sync_message sync_in_block sync_target next_message_id get_block_no get_block_offset
save_sync_message-old id m s v h = ground (arith, v.bounded)

SameFiles-IsValid : (f g : StorageFile) → SameFiles f g → IsValid g → IsValid f
SameFiles-IsValid f g e v = record {
  header = rw (e.files, e.block) v.header;
  bounded = rw (e.files, e.block) v.bounded;
  newest = λ n h. rw e.files (v.newest n (rw (sym e.block) h));
}

SameFiles-next_message_id :
    (f g : StorageFile) → SameFiles f g → next_message_id f ≡ next_message_id g
unfolding next_message_id
SameFiles-next_message_id f g e = rw (e.files, e.block) refl

SameFiles-load_message :
    (f g : StorageFile) (id : ℕ) → SameFiles f g → load_message id f ≡ load_message id g
unfolding load_message
SameFiles-load_message f g id e = rw e.files refl

-- A valid master saves a message below 32 KiB, whose fields fit. A slave with the same block
-- files that receives it under the master's id can load it under this id, and has executed it
-- on the indices that it had. When the message comes again under the same id, nothing changes:
-- it is stored and executed once.
pub save_sync_message_twice :
    (m : Message) (master : StorageFile) (slave : Storage)
    → IsValid master
    → FitsMessage (32 * 1024) m
    → SameFiles slave.file master
    → (id : ℕ) × (master' : StorageFile) × (save_message m master ≡ some (id, master'))
      × (load_message id (save_sync_message id m slave).file ≡ ok m)
      × ((file : StorageFile) × (save_sync_message id m slave
            ≡ exec_both m id (record slave { file = file })))
      × (save_sync_message id m (save_sync_message id m slave) ≡ save_sync_message id m slave)
save_sync_message_twice m master slave v f e =
    let (id, master', saved, a, file, x, same) = save_sync_message-executes m master slave v f e in
    let slave' = save_sync_message id m slave in
    let files : SameFiles slave'.file master' =
      rw x (SameFiles-trans _ _ _ (exec_both-SameFiles m id _) same) in
    (
      id,
      master',
      saved,
      SameFiles-load_message slave'.file master' id files ∙ a.loads,
      (file, x),
      save_sync_message-old id m slave' (SameFiles-IsValid slave'.file master' files a.valid)
          (rw (SameFiles-next_message_id slave'.file master' files) a.grows),
    )
