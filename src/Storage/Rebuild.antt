-- ===== src/Storage/Rebuild.antt =====
-- The rebuilding of the indices from the block files, when a server starts: `createPeerIndex` of
-- ServerIMS/model/storage_peer.go and `createGroupIndex` of ServerIMS/model/storage_group.go. Each
-- does with a link what its `execMessage` does. Reading takes fuel.
use im_service_modify.Prelude.{ℕ, zero, suc, ◌+◌, ◌-◌, ◌*◌, length, drop, Option, none, some}
use im_service_modify.Wire.{Bytes, Outcome, ok, refused, panics, stuck, ◌>>=◌}
use im_service_modify.Message.Body.{Message}
use im_service_modify.Storage.File.{header_size, block_size, read_message}
use im_service_modify.Storage.Peer.{PeerStorage, exec_message}
use im_service_modify.Storage.Group.{GroupStorage, exec_group_message}

-- The inner loop: the messages of one file from a position on, up to the first that cannot be read.
unfoldable pub scan {ℓ} : {S : Type ℓ} → (ℕ → Message → S → S) → ℕ → ℕ → Bytes → S → Outcome S
scan step zero position file s = stuck
scan step (suc fuel) position file s = elim (read_message file) [
  | ok (m, rest) ↦ scan step fuel (position + (length file - length rest)) rest (step position m s)
  | refused ↦ ok s
  | panics ↦ panics
  | stuck ↦ stuck
]

-- One block file, from behind its header on; a file that is not there is passed over.
unfoldable pub scan_block {ℓ} :
    {S : Type ℓ} → (ℕ → Message → S → S) → ℕ → Option Bytes → S → Outcome S
scan_block step fuel none s = ok s
scan_block step fuel (some content) s = scan step fuel header_size (drop header_size content) s

-- The outer loop: a number of blocks from block `i` on.
unfoldable pub scan_blocks {ℓ} :
    {S : Type ℓ} → (ℕ → ℕ → Message → S → S) → ℕ → ℕ → ℕ → (ℕ → Option Bytes) → S → Outcome S
scan_blocks step fuel zero i files s = ok s
scan_blocks step fuel (suc n) i files s = do
  s' ← scan_block (step i) fuel (files i) s
  scan_blocks step fuel n (suc i) files s'

-- What `createPeerIndex` does with a message: its id has the number of the block.
abbrev pub peer_step : ℕ → ℕ → Message → PeerStorage → PeerStorage
peer_step i position m s = exec_message m (i * block_size + position) s

unfoldable pub create_peer_index : ℕ → PeerStorage → Outcome PeerStorage
create_peer_index fuel s = scan_blocks peer_step fuel (suc s.file.block_no) 0 s.file.files s

-- `createGroupIndex` takes the position in the file for the id.
abbrev pub group_step : ℕ → ℕ → Message → GroupStorage → GroupStorage
group_step i position m s = exec_group_message m position s

unfoldable pub create_group_index : ℕ → GroupStorage → Outcome GroupStorage
create_group_index fuel s = scan_blocks group_step fuel (suc s.file.block_no) 0 s.file.files s
