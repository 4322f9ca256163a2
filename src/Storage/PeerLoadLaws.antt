-- ===== src/Storage/PeerLoadLaws.antt =====
-- The walks along a queue deliver what the queue, as a list, holds.
use im_service_modify.Prelude.{
  ltb→lt, length-append, ℕ, zero, suc, ◌-◌, ◌^◌, ◌≤◌, ◌<◌, ◌≡◌, refl, ◌∙◌, inl, inr, Bool, true,
  false, ◌&&◌, some, List, [], ◌∷◌, ◌++◌, append_assoc, append-nil, arith, length, if◌then◌else◌,
  ◌==◌, ltb, Bool-cases, leb, take,
}
use im_service_modify.Wire.{ok}
use im_service_modify.Message.Body.{cmd_of}
use im_service_modify.Message.Offline.{OfflineMessage}
use im_service_modify.Storage.File.{StorageFile, load_message}
use im_service_modify.Storage.Peer.{UserId, PeerStorage, get_peer_index, to_body, link_message}
use im_service_modify.Storage.PeerLoad.{
  EMessage, is_latest_cmd, is_history_cmd, le_int64, load_link, latest_loop, load_latest_messages,
  history_loop, load_history_messages,
}
use im_service_modify.Storage.Queue.{Entry, IsQueue}

abbrev pub to_emessage : Entry → EMessage
to_emessage (off, m) = record { msgid = off.msgid; device_id = off.device_id; msg = some m }

-- The messages of a queue whose commands are delivered.
unfoldable pub deliver : (ℕ → Bool) → List Entry → List EMessage
deliver wanted [] = []
deliver wanted ((off, m) ∷ q) =
    let rest = deliver wanted q in if wanted (cmd_of m) then to_emessage (off, m) ∷ rest else rest

-- The front of a queue up to the first message that the client has.
unfoldable pub newer : ℕ → List Entry → List Entry
newer sync_msgid [] = []
newer sync_msgid ((off, m) ∷ q) =
    let rest = newer sync_msgid q in if le_int64 off.msgid sync_msgid then [] else (off, m) ∷ rest

unfoldable pub newest : List Entry → ℕ
newest [] = 0
newest ((off, m) ∷ q) = off.msgid

-- A limit of 0 is no limit.
unfoldable pub limited : ℕ → List EMessage → List EMessage
limited zero ms = ms
limited (suc n) ms = take (suc n) ms

load_link-link :
    (id : ℕ) (file : StorageFile) (g : Bool) (off : OfflineMessage)
    → load_message id file ≡ ok (link_message g off)
    → load_link id file ≡ ok (some off)
unfolding load_link to_body
load_link-link id file g off e = rw (e, load_link)

-- A queue goes back in the file, so it is no longer than its first id.
pub length-queue-le :
    (next : OfflineMessage → ℕ) (file : StorageFile) (id : ℕ) (q : List Entry)
    → IsQueue next file id q
    → length q ≤ id
length-queue-le next file id [] h = omega arith
length-queue-le next file id ((off, m) ∷ q) (p, _, _, _, lt, h) =
    omega (arith, length-queue-le next file (next off) q h)

pub take_nil : (n : ℕ) → take n (let none_left : List EMessage = [] in none_left) ≡ []
unfolding take
take_nil zero = refl
take_nil (suc n) = refl

-- One more message is collected below the limit.
pub collect_one :
    (limit : ℕ) (acc rest : List EMessage) (x : EMessage)
    → length acc < limit
    → (acc ++ x ∷ []) ++ take (limit - length (acc ++ x ∷ [])) rest
      ≡ acc ++ take (limit - length acc) (x ∷ rest)
collect_one limit acc rest x h =
    let e : limit - length acc ≡ suc (limit - length (acc ++ x ∷ [])) =
      omega (arith, length-append {0} acc (x ∷ [])) in
    rw (append_assoc, e) (unfold take in refl)

-- The last message below the limit is collected.
pub collect_last :
    (limit : ℕ) (acc rest : List EMessage) (x : EMessage)
    → length acc < limit
    → limit ≤ length (acc ++ x ∷ [])
    → acc ++ x ∷ [] ≡ acc ++ take (limit - length acc) (x ∷ rest)
collect_last limit acc rest x h h' =
    let e : limit - length acc ≡ suc 0 = omega (arith, length-append {0} acc (x ∷ [])) in
    rw e (unfold take in refl)

le_int64-false : (a b : ℕ) → a < 2 ^ 63 → b ≤ a → le_int64 a b ≡ false → b < a
le_int64-false a b h l e = ground arith

le_int64-true : (a b : ℕ) → a < 2 ^ 63 → b ≤ a → le_int64 a b ≡ true → a ≤ b
le_int64-true a b h l e = ground arith

latest_loop-queue :
    (q : List Entry) (fuel id limit : ℕ) (file : StorageFile) (acc : List EMessage)
    → IsQueue (λ off. off.prev_msgid) file id q
    → length q < fuel
    → length acc < limit
    → limit < 2 ^ 63
    → latest_loop fuel file limit id acc
      ≡ ok (acc ++ take (limit - length acc) (deliver is_latest_cmd q))
unfolding latest_loop deliver
latest_loop-queue q zero id limit file acc h f l b = absurd (omega arith)
latest_loop-queue [] (suc fuel) id limit file acc h f l b =
    rw (take_nil (limit - length acc), append-nil) (ground arith)
latest_loop-queue ((off, m) ∷ q) (suc fuel) id limit file acc (p, (g, e), e', z, lt, h) f l b =
    let more : List EMessage = acc ++ to_emessage (off, m) ∷ [] in
    let upto : length more ≤ limit =
      omega (arith, length-append {0} acc (to_emessage (off, m) ∷ []), l) in
    let link = load_link-link id file g off e in
    elim (Bool-cases (is_latest_cmd (cmd_of m))) [
      | inr w ↦ ground (
        arith,
        link,
        e',
        w,
        latest_loop-queue q fuel off.prev_msgid limit file acc h (omega arith) l b,
      )
      | inl w ↦ elim (Bool-cases (le_int64 limit (length more))) [
        | inl full ↦ ground (
          arith,
          link,
          e',
          w,
          full,
          collect_last limit acc (deliver is_latest_cmd q) (to_emessage (off, m)) l
              (le_int64-true limit (length more) b upto full),
        )
        | inr room ↦ ground (
          arith,
          link,
          e',
          w,
          room,
          collect_one limit acc (deliver is_latest_cmd q) (to_emessage (off, m)),
          latest_loop-queue q fuel off.prev_msgid limit file more h (omega arith)
              (le_int64-false limit (length more) b upto room) b,
        )
      ]
    ]

-- `LoadLatestMessages` with a positive limit ends with fuel above the newest link's id, and returns
-- the newest `limit` messages of the user's queue that are delivered, newest first.
pub load_latest_messages-queue :
    (q : List Entry) (fuel : ℕ) (id : UserId) (limit : ℕ) (s : PeerStorage)
    → IsQueue (λ off. off.prev_msgid) s.file (get_peer_index id s).last_id q
    → (get_peer_index id s).last_id < fuel
    → 0 < limit
    → limit < 2 ^ 63
    → load_latest_messages fuel id limit s ≡ ok (take limit (deliver is_latest_cmd q))
unfolding load_latest_messages
load_latest_messages-queue q fuel id limit s h f l b =
    let e : limit - 0 ≡ limit = omega arith in
    rw e at (
      latest_loop-queue q fuel (get_peer_index id s).last_id limit s.file [] h
        (omega (arith, length-queue-le _ _ _ q h)) l b)

-- What is left to collect under a limit, of which 0 is none.
abbrev room_for : ℕ → List EMessage → List EMessage → List EMessage
room_for limit acc rest = if ltb 0 limit then take (limit - length acc) rest else rest

history_one :
    (limit : ℕ) (acc rest : List EMessage) (x : EMessage)
    → (0 < limit → length acc < limit)
    → (acc ++ x ∷ []) ++ room_for limit (acc ++ x ∷ []) rest ≡ acc ++ room_for limit acc (x ∷ rest)
history_one limit acc rest x h = elim (Bool-cases (ltb 0 limit)) [
  | inl e ↦ rw e (collect_one limit acc rest x (h (ltb→lt 0 limit e)))
  | inr e ↦ rw e (append_assoc acc (x ∷ []) rest)
]

history_loop-queue :
    (q : List Entry) (fuel id sync_msgid limit last_msgid : ℕ) (file : StorageFile)
    (acc : List EMessage)
    → IsQueue (λ off. off.prev_msgid) file id q
    → length q < fuel
    → (0 < limit → length acc < limit)
    → history_loop fuel file sync_msgid 0 limit id last_msgid acc
      ≡ ok (
        acc ++ room_for limit acc (deliver is_history_cmd (newer sync_msgid q)),
        if last_msgid == 0 then newest q else last_msgid,
      )
unfolding history_loop deliver newer newest
history_loop-queue q zero id sync_msgid limit last_msgid file acc h f l = absurd (omega arith)
history_loop-queue [] (suc fuel) id sync_msgid limit last_msgid file acc h f l =
    ground (arith, take_nil (limit - length acc), append-nil acc)
history_loop-queue ((off, m) ∷ q) (suc fuel) id sync_msgid limit last_msgid file acc
      (p, (g, e), e', z, lt, h) f l =
    let more : List EMessage = acc ++ to_emessage (off, m) ∷ [] in
    let link = load_link-link id file g off e in
    let rest = deliver is_history_cmd (newer sync_msgid q) in
    let last : ℕ = if last_msgid == 0 then off.msgid else last_msgid in
    elim (Bool-cases (le_int64 off.msgid sync_msgid)) [
      | inl old ↦ ground (arith, link, old, take_nil (limit - length acc), append-nil acc)
      | inr young ↦ elim (Bool-cases (is_history_cmd (cmd_of m))) [
        | inr w ↦ ground (
          arith,
          link,
          e',
          young,
          w,
          history_loop-queue q fuel off.prev_msgid sync_msgid limit last file acc h (omega arith) l,
        )
        | inl w ↦ elim (Bool-cases (ltb 0 limit && leb limit (length more))) [
          | inl full ↦
              ground (
                arith,
                link,
                e',
                young,
                w,
                full,
                collect_last limit acc rest (to_emessage (off, m)),
              )
          | inr room ↦ ground (
            arith,
            link,
            e',
            young,
            w,
            room,
            history_one limit acc rest (to_emessage (off, m)) l,
            history_loop-queue q fuel off.prev_msgid sync_msgid limit last file more h (omega arith)
                (λ k. ground arith),
          )
        ]
      ]
    ]

-- `LoadHistoryMessages` without a limit of group messages ends with fuel above the newest link's
-- id. It returns the messages of the queue that are delivered and newer than `sync_msgid`, newest
-- first, up to the limit if there is one, and the id of the queue's newest message, 0 if it has
-- none.
pub load_history_messages-queue :
    (q : List Entry) (fuel : ℕ) (id : UserId) (sync_msgid limit : ℕ) (s : PeerStorage)
    → IsQueue (λ off. off.prev_msgid) s.file (get_peer_index id s).last_id q
    → (get_peer_index id s).last_id < fuel
    → load_history_messages fuel id sync_msgid 0 limit s
      ≡ ok (limited limit (deliver is_history_cmd (newer sync_msgid q)), newest q)
unfolding load_history_messages limited
load_history_messages-queue q fuel id sync_msgid zero s h f =
    history_loop-queue q fuel (get_peer_index id s).last_id sync_msgid zero 0 s.file [] h
      (omega (arith, length-queue-le _ _ _ q h)) (λ k. k)
load_history_messages-queue q fuel id sync_msgid (suc n) s h f =
    let e : suc n - 0 ≡ suc n = omega arith in
    history_loop-queue q fuel (get_peer_index id s).last_id sync_msgid (suc n) 0 s.file [] h
      (omega (arith, length-queue-le _ _ _ q h)) (λ k. k)
    ∙ ground (arith, e)
