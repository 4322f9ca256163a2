-- ===== src/Storage/LogLaws.antt =====
-- The block files as logs: each holds its header and the records of a list of messages, and reading
-- them from the start replays the messages.
use im_service_modify.Prelude.{
  drop-append, ℕ, zero, suc, ◌+◌, ◌-◌, ◌*◌, ◌≤◌, ◌<◌, ◌≡◌, refl, sym, ◌∙◌, List, [], ◌∷◌, ◌++◌,
  append_assoc, append-nil, length, drop, length-append, some, arith,
}
use im_service_modify.Wire.{Bytes, ok, refused}
use im_service_modify.Message.Body.{Message}
use im_service_modify.Message.Fits.{FitsMessage}
use im_service_modify.Storage.File.{
  StorageFile, header_size, write_header, record_bytes, read_message, read_magic,
}
use im_service_modify.Storage.FileLaws.{read_message-record_bytes, length-write_header}
use im_service_modify.Storage.SyncRunLaws.{FitAll}
use im_service_modify.Storage.Rebuild.{scan, scan_block, scan_blocks}

unfoldable pub records : List Message → Bytes
records [] = []
records (m ∷ ms) = record_bytes m ++ records ms

pub records-snoc :
    (ms : List Message) (m : Message) → records (ms ++ m ∷ []) ≡ records ms ++ record_bytes m
unfolding records
records-snoc [] m = append-nil (record_bytes m)
records-snoc (x ∷ ms) m =
    rw (records-snoc ms m) (sym (append_assoc (record_bytes x) (records ms) (record_bytes m)))

pub FitAll-snoc :
    (ms : List Message) (m : Message)
    → FitAll ms
    → FitsMessage (32 * 1024) m
    → FitAll (ms ++ m ∷ [])
FitAll-snoc [] m h f = (f, tt)
FitAll-snoc (x ∷ ms) m (g, h) f = (g, FitAll-snoc ms m h f)

read_message-end : read_message [] ≡ refused
unfolding read_message read_magic
read_message-end = refl

-- The messages of a log in order, each with its position.
module _ {ℓ} {S : Type ℓ} where
  unfoldable pub replay : (ℕ → Message → S → S) → ℕ → List Message → S → S
  replay step position [] s = s
  replay step position (m ∷ ms) s =
      replay step (position + length (record_bytes m)) ms (step position m s)

  pub replay-snoc :
      (step : ℕ → Message → S → S) (position : ℕ) (ms : List Message) (m : Message) (s : S)
      → replay step position (ms ++ m ∷ []) s
        ≡ step (position + length (records ms)) m (replay step position ms s)
  unfolding replay records
  replay-snoc step position [] m s = let e : position + 0 ≡ position = omega arith in rw e refl
  replay-snoc step position (x ∷ ms) m s =
      let e : position + length (record_bytes x) + length (records ms)
          ≡ position + length (record_bytes x ++ records ms) =
        omega (arith, length-append (record_bytes x) (records ms)) in
      replay-snoc step (position + length (record_bytes x)) ms m (step position x s) ∙ rw e refl

  scan-records :
      (step : ℕ → Message → S → S) (fuel position : ℕ) (ms : List Message) (s : S)
      → FitAll ms
      → length ms < fuel
      → scan step fuel position (records ms) s ≡ ok (replay step position ms s)
  unfolding scan records replay
  scan-records step zero position ms s h f = absurd (omega arith)
  scan-records step (suc fuel) position [] s h f = rw (read_message-end, scan)
  scan-records step (suc fuel) position (m ∷ ms) s (g, h) f =
      let e : length (record_bytes m ++ records ms) - length (records ms)
          ≡ length (record_bytes m) =
        omega (arith, length-append (record_bytes m) (records ms)) in
      rw (read_message-record_bytes m (records ms) g, scan)
        (rw e (
          scan-records step fuel (position + length (record_bytes m)) ms (step position m s) h
            (omega arith)))

-- Blocks 0 to n - 1 of a log.
module _ {ℓ} {S : Type ℓ} (step : ℕ → ℕ → Message → S → S) where
  unfoldable pub replay_blocks : (ℕ → List Message) → ℕ → S → S
  replay_blocks log zero s = s
  replay_blocks log (suc n) s = replay (step n) header_size (log n) (replay_blocks log n s)

  pub replay_blocks-agree :
      (log log' : ℕ → List Message) (n : ℕ) (s : S)
      → ((i : ℕ) → i < n → log i ≡ log' i)
      → replay_blocks log n s ≡ replay_blocks log' n s
  unfolding replay_blocks
  replay_blocks-agree log log' zero s h = refl
  replay_blocks-agree log log' (suc n) s h =
      rw (h n (omega arith), replay_blocks-agree log log' n s (λ i k. h i (omega arith))) refl

-- Every block file up to the one that is written holds the header and the records of its messages.
pub record IsLogged (log : ℕ → List Message) (s : StorageFile) : Type 0 where
  pub holds : (i : ℕ) → i ≤ s.block_no → s.files i ≡ some (write_header ++ records (log i))
  pub fits : (i : ℕ) → FitAll (log i)
  pub later : (i : ℕ) → s.block_no < i → log i ≡ []

drop-header : (rest : Bytes) → drop header_size (write_header ++ rest) ≡ rest
drop-header rest = drop-append header_size write_header rest length-write_header

scan_block-logged {ℓ} :
    {S : Type ℓ} (step : ℕ → Message → S → S) (fuel : ℕ) (ms : List Message) (s : S)
    → FitAll ms
    → length ms < fuel
    → scan_block step fuel (some (write_header ++ records ms)) s ≡ ok (replay step header_size ms s)
unfolding scan_block
scan_block-logged step fuel ms s h f =
    rw (drop-header (records ms)) (scan-records step fuel header_size ms s h f)

scan_blocks-from {ℓ} :
    {S : Type ℓ} (step : ℕ → ℕ → Message → S → S) (fuel n i : ℕ) (log : ℕ → List Message)
    (file : StorageFile) (s : S)
    → IsLogged log file
    → i + n ≤ suc file.block_no
    → ((j : ℕ) → length (log j) < fuel)
    → scan_blocks step fuel n i file.files (replay_blocks step log i s)
      ≡ ok (replay_blocks step log (i + n) s)
unfolding scan_blocks replay_blocks
scan_blocks-from step fuel zero i log file s l b f = let e : i + 0 ≡ i = omega arith in rw e refl
scan_blocks-from step fuel (suc n) i log file s l b f =
    let e : i + suc n ≡ suc i + n = omega arith in
    rw
      (
        l.holds i (omega arith),
        scan_block-logged (step i) fuel (log i) (replay_blocks step log i s) (l.fits i) (f i),
        e,
      )
      (scan_blocks-from step fuel n (suc i) log file s l (omega arith) f)

-- Reading all block files replays the log.
pub scan_blocks-logged {ℓ} :
    {S : Type ℓ} (step : ℕ → ℕ → Message → S → S) (fuel : ℕ) (log : ℕ → List Message)
    (file : StorageFile) (s : S)
    → IsLogged log file
    → ((j : ℕ) → length (log j) < fuel)
    → scan_blocks step fuel (suc file.block_no) 0 file.files s
      ≡ ok (replay_blocks step log (suc file.block_no) s)
unfolding replay_blocks
scan_blocks-logged step fuel log file s l f =
    let e : 0 + suc file.block_no ≡ suc file.block_no = omega arith in
    rw e at (scan_blocks-from step fuel (suc file.block_no) 0 log file s l (omega arith) f)
