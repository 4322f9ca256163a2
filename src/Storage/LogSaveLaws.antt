-- ===== src/Storage/LogSaveLaws.antt =====
-- `saveMessage` adds its message to the end of the log.
use im_service_modify.Prelude.{
  ◌≢◌, ==→eq, ==→ne, ℕ, suc, ◌+◌, ◌*◌, ◌≤◌, ◌≡◌, refl, ap, ◌∙◌, List, [], ◌∷◌, ◌++◌, append_assoc,
  append-nil, ltb, ◌==◌, length, length-append, if◌then◌else◌, some, arith, Bool-cases, inl, inr,
}
use im_service_modify.Message.Body.{Message}
use im_service_modify.Message.Fits.{FitsMessage}
use im_service_modify.Storage.File.{
  StorageFile, header_size, block_size, update, write_file, write_header, opened, open_write_file,
  record_bytes, appended,
}
use im_service_modify.Storage.FileLaws.{IsValid, length-write_header, update_self, update_other}
use im_service_modify.Storage.SaveLaws.{target}
use im_service_modify.Storage.SyncRunLaws.{FitAll}
use im_service_modify.Storage.LogLaws.{
  records, records-snoc, FitAll-snoc, replay, replay-snoc, replay_blocks, replay_blocks-agree,
  IsLogged,
}

-- The log once a message is behind block `n`.
unfoldable pub logged : ℕ → Message → (ℕ → List Message) → ℕ → List Message
logged n m log i = if i == n then log i ++ m ∷ [] else log i

logged_self : (n : ℕ) (m : Message) (log : ℕ → List Message) → logged n m log n ≡ log n ++ m ∷ []
unfolding logged
logged_self n m log = ground arith

logged_other :
    (n : ℕ) (m : Message) (log : ℕ → List Message) (i : ℕ) → i ≢ n → logged n m log i ≡ log i
unfolding logged
logged_other n m log i h = ground arith

next_holds :
    (log : ℕ → List Message) (s : StorageFile)
    → IsValid s
    → IsLogged log s
    → (i : ℕ) → i ≤ s.block_no + 1
    → update s.files (s.block_no + 1) (opened (s.files (s.block_no + 1))) i
      ≡ some (write_header ++ records (log i))
unfolding opened records
next_holds log s v l i h = elim (Bool-cases (i == s.block_no + 1)) [
  | inl e ↦
      let e' = ==→eq i (s.block_no + 1) e in
      rw
        (
          e',
          l.later (s.block_no + 1) (omega arith),
          v.newest (s.block_no + 1) (omega arith),
          append-nil write_header,
        )
        (update_self s.files (s.block_no + 1) write_header)
  | inr e ↦
      let e' = ==→ne i (s.block_no + 1) e in
      update_other s.files (s.block_no + 1) i _ e' ∙ l.holds i (omega arith)
]

appended_holds :
    (m : Message) (log : ℕ → List Message) (s : StorageFile)
    → IsLogged log s
    → (i : ℕ) → i ≤ s.block_no
    → update s.files s.block_no (write_file s ++ record_bytes m) i
      ≡ some (write_header ++ records (logged s.block_no m log i))
appended_holds m log s l i h = elim (Bool-cases (i == s.block_no)) [
  | inl e ↦
      let e' = ==→eq i s.block_no e in
      rw
        (
          e',
          logged_self s.block_no m log,
          records-snoc (log s.block_no) m,
          l.holds s.block_no (omega arith),
        )
        (update_self s.files s.block_no
            ((write_header ++ records (log s.block_no)) ++ record_bytes m)
          ∙ ap some (append_assoc write_header (records (log s.block_no)) (record_bytes m)))
  | inr e ↦
      let e' = ==→ne i s.block_no e in
      rw (logged_other s.block_no m log i e') (update_other s.files s.block_no i _ e' ∙ l.holds i h)
]

appended_fits :
    (m : Message) (log : ℕ → List Message) (s : StorageFile)
    → IsLogged log s
    → FitsMessage (32 * 1024) m
    → (i : ℕ) → FitAll (logged s.block_no m log i)
appended_fits m log s l f i = elim (Bool-cases (i == s.block_no)) [
  | inl e ↦
      let e' = ==→eq i s.block_no e in
      rw (e', logged_self s.block_no m log) (FitAll-snoc (log s.block_no) m (l.fits s.block_no) f)
  | inr e ↦ rw (logged_other s.block_no m log i (==→ne i s.block_no e)) (l.fits i)
]

-- Opening the next block leaves the log alone.
target-IsLogged :
    (m : Message) (log : ℕ → List Message) (s : StorageFile)
    → IsValid s
    → IsLogged log s
    → IsLogged log (target m s)
unfolding target open_write_file
target-IsLogged m log s v l =
    elim (Bool-cases (ltb block_size (length (write_file s) + length (record_bytes m)))) [
      | inl b ↦ rw b (record {
        holds = λ i h. next_holds log s v l i h;
        fits = l.fits;
        later = λ i h. l.later i (omega arith);
      })
      | inr b ↦ rw b l
    ]

appended-IsLogged :
    (m : Message) (log : ℕ → List Message) (s : StorageFile)
    → IsLogged log s
    → FitsMessage (32 * 1024) m
    → IsLogged (logged s.block_no m log) (appended m s)
unfolding appended
appended-IsLogged m log s l f = record {
  holds = λ i h. appended_holds m log s l i h;
  fits = λ i. appended_fits m log s l f i;
  later = λ i h. logged_other s.block_no m log i (omega arith) ∙ l.later i h;
}

-- The log after `saveMessage`, whether or not it opens a block.
unfoldable pub saved_log : Message → StorageFile → (ℕ → List Message) → ℕ → List Message
saved_log m s log = logged (target m s).block_no m log

pub length-saved_log :
    (m : Message) (s : StorageFile) (log : ℕ → List Message) (j : ℕ)
    → length (saved_log m s log j) ≤ length (log j) + 1
unfolding saved_log logged
length-saved_log m s log j = ground (arith, length-append (log j) (m ∷ []))

pub saved_log-IsLogged :
    (m : Message) (log : ℕ → List Message) (s : StorageFile)
    → IsValid s
    → IsLogged log s
    → FitsMessage (32 * 1024) m
    → IsLogged (saved_log m s log) (appended m (target m s))
unfolding saved_log
saved_log-IsLogged m log s v l f =
    appended-IsLogged m log (target m s) (target-IsLogged m log s v l) f

-- Replaying it runs the step once more, for the message and its position.
module _ {ℓ} {S : Type ℓ} (step : ℕ → ℕ → Message → S → S) where
  replay-target :
      (m : Message) (log : ℕ → List Message) (s : StorageFile) (t : S)
      → IsLogged log s
      → replay_blocks step log (suc (target m s).block_no) t
        ≡ replay_blocks step log (suc s.block_no) t
  unfolding target open_write_file replay_blocks replay
  replay-target m log s t l =
      elim (Bool-cases (ltb block_size (length (write_file s) + length (record_bytes m)))) [
        | inl b ↦
            let e : s.block_no + 1 ≡ suc s.block_no = omega arith in
            rw (b, e, l.later (suc s.block_no) (omega arith)) refl
        | inr b ↦ rw b refl
      ]

  replay_last :
      (m : Message) (log : ℕ → List Message) (s : StorageFile) (t : S)
      → IsLogged log s
      → replay_blocks step (logged s.block_no m log) (suc s.block_no) t
        ≡ step s.block_no (length (write_file s)) m (replay_blocks step log (suc s.block_no) t)
  unfolding replay_blocks
  replay_last m log s t l =
      let e : length (write_file s) ≡ header_size + length (records (log s.block_no)) =
        rw (l.holds s.block_no (omega arith)) (
          length-append write_header (records (log s.block_no))
          ∙ ap (λ (n : ℕ). n + length (records (log s.block_no))) length-write_header) in
      rw
        (
          logged_self s.block_no m log,
          replay_blocks-agree step (logged s.block_no m log) log s.block_no t
              (λ i k. logged_other s.block_no m log i (omega arith)),
          replay-snoc (step s.block_no) header_size (log s.block_no) m
              (replay_blocks step log s.block_no t),
          e,
        )
        refl

  pub replay-saved_log :
      (m : Message) (log : ℕ → List Message) (s : StorageFile) (t : S)
      → IsValid s
      → IsLogged log s
      → replay_blocks step (saved_log m s log) (suc (target m s).block_no) t
        ≡ step
            (target m s).block_no
            (length (write_file (target m s)))
            m
            (replay_blocks step log (suc s.block_no) t)
  unfolding saved_log logged
  replay-saved_log m log s t v l =
      replay_last m log (target m s) t (target-IsLogged m log s v l)
      ∙ ap (step (target m s).block_no (length (write_file (target m s))) m)
          (replay-target m log s t l)
