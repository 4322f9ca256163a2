-- ===== src/Deliver/Laws.antt =====
-- What the sender makes of a file that holds the records of group messages.
use im_service_modify.Prelude.{
  ℕ, zero, suc, ◌+◌, ◌-◌, ◌*◌, ◌<◌, ◌≡◌, refl, sym, ◌⊎◌, inl, inr, Bool, true, false, none, List,
  [], ◌∷◌, ◌++◌, append_assoc, arith, length, ◌==◌, Option-cases, leb,
}
use im_service_modify.Storage.FileLaws.{read_magic-write}
use im_service_modify.Wire.{Bytes, write, Outcome, ok, refused, panics, stuck}
use im_service_modify.Prelude.{length-append}
use im_service_modify.Route.{find_client_set}
use im_service_modify.Message.Body.{Message, message, Body}
use im_service_modify.Message.Frame.{write_message}
use im_service_modify.Message.Pending.{PendingGroupMessage}
use im_service_modify.Message.Creators.{msg_pending_group_message, msg_group_im, msg_sync_notify}
use im_service_modify.Deliver.{
  default_version, Network, pending_record, read_pending, skip_int, GroupMessageDeliver,
  save_cursor, send_loop, send_one, send_group_message, send_members, send_message, send_to_set,
  push_to, group_im,
}
use im_service_modify.Message.Fits.{FitsMessage}
use im_service_modify.Message.FrameLaws.{receive_message-write_message}
use im_service_modify.Wire.Laws.{wire_laws}
use im_service_modify.Storage.File.{read_magic}

pub length-pending_record :
    (m : Message) → length (pending_record m) ≡ 16 + length (write_message m)
unfolding pending_record
length-pending_record m = simp wire_laws (omega arith)

skip_int-write : (n : ℕ) (rest : Bytes) → skip_int (write 4 n ++ rest) ≡ ok rest
unfolding skip_int
skip_int-write n rest = simp wire_laws (ground arith)

-- A record is read back, whatever follows it in the file.
pub read_pending-pending_record :
    (m : Message) (rest : Bytes)
    → FitsMessage (32 * 1024) m
    → read_pending (pending_record m ++ rest) ≡ ok (m, rest)
unfolding read_pending pending_record
read_pending-pending_record m rest f =
    simp (append_assoc, read_magic-write, skip_int-write, receive_message-write_message, f)

read_pending-end : read_pending [] ≡ refused
unfolding read_pending read_magic
read_pending-end = refl

-- The message that keeps a group message, and the records of some.
abbrev pub pending : PendingGroupMessage → Message
pending gm = message msg_pending_group_message 0 default_version 0 (Body.pending_group_message gm)

unfoldable pub pending_records : List PendingGroupMessage → Bytes
pending_records [] = []
pending_records (gm ∷ gms) = pending_record (pending gm) ++ pending_records gms

pub pending_records-append :
    (xs ys : List PendingGroupMessage)
    → pending_records (xs ++ ys) ≡ pending_records xs ++ pending_records ys
unfolding pending_records
pending_records-append [] ys = refl
pending_records-append (x ∷ xs) ys =
    rw (pending_records-append xs ys)
      (sym (append_assoc (pending_record (pending x)) (pending_records xs) (pending_records ys)))

unfoldable pub FitPending : List PendingGroupMessage → Type 0
FitPending [] = Unit
FitPending (gm ∷ gms) = FitsMessage (32 * 1024) (pending gm) × FitPending gms

module _ {ℓ} {W : Type ℓ} (net : Network W) where
  -- The messages are sent in order until one fails or panics; the id of each that is sent is kept.
  unfoldable pub delivered :
      ℕ → List PendingGroupMessage → GroupMessageDeliver → W → Outcome (GroupMessageDeliver × W)
  delivered msgid [] d w = ok (d, w)
  delivered msgid (gm ∷ gms) d w = elim (send_group_message net gm w) [
    | ok (true, w') ↦
        delivered (msgid + length (pending_record (pending gm))) gms (save_cursor msgid d) w'
    | ok (false, w') ↦ ok (d, w')
    | refused ↦ refused
    | panics ↦ panics
    | stuck ↦ stuck
  ]

  pub delivered-sent :
      (msgid : ℕ) (gm : PendingGroupMessage) (gms : List PendingGroupMessage)
      (d : GroupMessageDeliver) (w w' : W)
      → send_group_message net gm w ≡ ok (true, w')
      → delivered msgid (gm ∷ gms) d w
        ≡ delivered (msgid + length (pending_record (pending gm))) gms (save_cursor msgid d) w'
  unfolding delivered
  delivered-sent msgid gm gms d w w' t = rw (t, delivered) refl

  pub delivered-failed :
      (msgid : ℕ) (gm : PendingGroupMessage) (gms : List PendingGroupMessage)
      (d : GroupMessageDeliver) (w w' : W)
      → send_group_message net gm w ≡ ok (false, w')
      → delivered msgid (gm ∷ gms) d w ≡ ok (d, w')
  unfolding delivered
  delivered-failed msgid gm gms d w w' t = rw (t, delivered) refl

  pub delivered_panics :
      (msgid : ℕ) (gm : PendingGroupMessage) (gms : List PendingGroupMessage)
      (d : GroupMessageDeliver) (w : W)
      → send_group_message net gm w ≡ panics
      → delivered msgid (gm ∷ gms) d w ≡ panics
  unfolding delivered
  delivered_panics msgid gm gms d w t = rw (t, delivered) refl

  -- A message is sent, or the sender stops at it, or it panics, for want of a route.
  pub data Sending (gm : PendingGroupMessage) (w : W) : Type ℓ where
    sent_all : (w' : W) → send_group_message net gm w ≡ ok (true, w') → Sending gm w
    failed : (w' : W) → send_group_message net gm w ≡ ok (false, w') → Sending gm w
    panicked :
        (v : W)
        → net.find_route gm.appid v ≡ none
        → send_group_message net gm w ≡ panics
        → Sending gm w

  send_message-cases :
      (appid uid sender device_id : ℕ) (m : Message) (w : W)
      → ((r : Bool × W) × (send_message net appid uid sender device_id m w ≡ ok r))
        ⊎ ((v : W) × (net.find_route appid v ≡ none)
            × (send_message net appid uid sender device_id m w ≡ panics))
  unfolding send_message
  send_message-cases appid uid sender device_id m w =
      let w' = net.push_message appid uid m w in
      elim (Option-cases (net.find_route appid w')) [
        | inl n ↦ inr (w', n, rw n refl)
        | inr (route, n) ↦
            inl (send_to_set net uid sender device_id m (find_client_set uid route) w', rw n refl)
      ]

  send_members-cases :
      (gm : PendingGroupMessage) (m : Message) (members : List ℕ) (w : W)
      → ((r : Bool × W) × (send_members net gm m members w ≡ ok r))
        ⊎ ((v : W) × (net.find_route gm.appid v ≡ none)
            × (send_members net gm m members w ≡ panics))
  unfolding send_members
  send_members-cases gm m [] w = inl (_, refl)
  send_members-cases gm m (member ∷ members) w =
      let w' = (net.save_member_message gm.appid member gm.device_id m w).1 in
      elim (Option-cases (net.save_member_message gm.appid member gm.device_id m w).0) [
        | inl n ↦ inl ((false, w'), rw (n, send_members) refl)
        | inr (msgid, n) ↦
            let notify =
              message msg_sync_notify 0 0 0 (Body.sync_key (record { sync_key = msgid })) in
            let pushed = push_to net (gm.sender == member) gm.appid member m w' in
            elim (send_message-cases gm.appid member gm.sender gm.device_id notify pushed) [
              | inr (v, r, e) ↦ inr (v, r, rw (n, send_members) (rw e refl))
              | inl ((b, w''), e) ↦ elim (send_members-cases gm m members w'') [
                | inl (r, h) ↦ inl (r, rw (n, send_members) (rw e h))
                | inr (v, r, h) ↦ inr (v, r, rw (n, send_members) (rw e h))
              ]
            ]
      ]

  pub Sending-cases : (gm : PendingGroupMessage) (w : W) → Sending gm w
  unfolding send_group_message
  Sending-cases gm w =
      elim (send_members-cases gm
        (message msg_group_im 0 default_version 0 (Body.im_message (group_im net gm))) gm.members
        w) [
          | inl ((true, w'), e) ↦ sent_all w' e
          | inl ((false, w'), e) ↦ failed w' e
          | inr (v, n, e) ↦ panicked v n e
        ]

  pub send_loop-delivered :
      (fuel msgid : ℕ) (gms : List PendingGroupMessage) (d : GroupMessageDeliver) (w : W)
      → FitPending gms
      → length gms < fuel
      → d.latest_sended_msgid < msgid
      → send_loop net fuel msgid (pending_records gms) d w ≡ delivered msgid gms d w
  unfolding send_loop pending_records FitPending send_one
  send_loop-delivered zero msgid gms d w f h l = absurd (omega arith)
  send_loop-delivered (suc fuel) msgid [] d w f h l =
      rw (read_pending-end, send_loop) (unfold delivered in refl)
  send_loop-delivered (suc fuel) msgid (gm ∷ gms) d w (g, f) h l =
      let e : length (pending_records (gm ∷ gms)) - length (pending_records gms)
          ≡ length (pending_record (pending gm)) =
        omega (arith, length-append (pending_record (pending gm)) (pending_records gms)) in
      let n : leb msgid d.latest_sended_msgid ≡ false = ground (arith, l) in
      rw (read_pending-pending_record (pending gm) (pending_records gms) g, send_loop, n)
        (elim (Sending-cases gm w) [
          | sent_all w' s ↦
              rw (delivered-sent msgid gm gms d w w' s, s, e)
                (send_loop-delivered fuel (msgid + length (pending_record (pending gm))) gms
                  (save_cursor msgid d) w' f (omega arith)
                  (unfold save_cursor in omega (arith, length-pending_record (pending gm))))
          | failed w' s ↦ rw (delivered-failed msgid gm gms d w w' s, s) refl
          | panicked v r s ↦ rw (delivered_panics msgid gm gms d w s, s) refl
        ])

  -- A message that was sent before is passed over.
  pub send_loop-skips :
      (fuel : ℕ) (gm : PendingGroupMessage) (gms : List PendingGroupMessage)
      (d : GroupMessageDeliver) (w : W)
      → FitPending (gm ∷ gms)
      → suc (length gms) < fuel
      → send_loop net fuel d.latest_sended_msgid (pending_records (gm ∷ gms)) d w
        ≡ delivered (d.latest_sended_msgid + length (pending_record (pending gm))) gms d w
  unfolding send_loop pending_records FitPending send_one
  send_loop-skips zero gm gms d w h l = absurd (omega arith)
  send_loop-skips (suc fuel) gm gms d w (g, f) l =
      let e : length (pending_records (gm ∷ gms)) - length (pending_records gms)
          ≡ length (pending_record (pending gm)) =
        omega (arith, length-append (pending_record (pending gm)) (pending_records gms)) in
      let n : leb d.latest_sended_msgid d.latest_sended_msgid ≡ true = ground arith in
      rw (read_pending-pending_record (pending gm) (pending_records gms) g, send_loop, n, e)
        (send_loop-delivered fuel (d.latest_sended_msgid + length (pending_record (pending gm))) gms
          d w f (omega arith) (omega (arith, length-pending_record (pending gm))))
