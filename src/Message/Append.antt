-- ===== src/Message/Append.antt =====
-- A receiver looks only at the message in front: with more bytes behind, or more fuel, it returns
-- the same message.
use im_service_modify.Prelude.{
  ℕ, zero, suc, ◌*◌, ◌≤◌, ◌≡◌, refl, sym, ◌∙◌, Bool, true, false, [], ◌++◌, append-nil, take, drop,
  length-append, arith, Option, some, inl, inr, ◌⊎◌,
}
use im_service_modify.Wire.{Bytes, read, Outcome, ok, refused, panics, stuck, ◌>>=◌}
use im_service_modify.Message.Body.{Message, Messages, Body}
use im_service_modify.Message.Creators.{Kind, creator}
use im_service_modify.Message.Frame.{
  Receive, from_data_app_message, from_data_emessage, receive_messages, from_data_message_batch,
  from_data_kind, from_data, read_header, receive_limit, receive_message,
}
use im_service_modify.Prelude.{take-append_front, drop-append_front}

abbrev is_ok {ℓ} : {A : Type ℓ} → Outcome A → Bool
is_ok (ok a) = true
is_ok _ = false

-- Where one receiver succeeds, the other does the same.
abbrev Agrees : Receive → Receive → Bytes → Type 0
Agrees r r' buffer = (r buffer ≡ r' buffer) ⊎ (is_ok (r buffer) ≡ false)

ok-or-not {ℓ} : {A : Type ℓ} (o : Outcome A) → ((a : A) × (o ≡ ok a)) ⊎ (is_ok o ≡ false)
ok-or-not (ok a) = inl (a, refl)
ok-or-not refused = inr refl
ok-or-not panics = inr refl
ok-or-not stuck = inr refl

-- Inversion of a step that succeeded.
pub >>=-eq-ok {ℓ κ} :
    {A : Type ℓ} {B : Type κ} (o : Outcome A) (f : A → Outcome B) {b : B}
    → (o >>= f) ≡ ok b
    → (a : A) × (o ≡ ok a) × (f a ≡ ok b)
>>=-eq-ok (ok a) f e = (a, refl, e)
>>=-eq-ok refused f e = cc
>>=-eq-ok panics f e = cc
>>=-eq-ok stuck f e = cc

module _ (r r' : Receive) (agree : (buffer : Bytes) → Agrees r r' buffer) where
  agrees_ok : (buffer : Bytes) (p : Message × Bytes) → r buffer ≡ ok p → r' buffer ≡ ok p
  agrees_ok buffer p e = ground (arith, agree buffer)

  app_message_agrees :
      (buff : Bytes) (b : Body)
      → from_data_app_message r buff ≡ ok b
      → from_data_app_message r' buff ≡ ok b
  unfolding from_data_app_message
  app_message_agrees buff b e =
      let (l, rest) =
        read 2 0 (read 8 0 (read 8 0 (read 8 0 (read 8 0 (read 8 0 buff).1).1).1).1).1 in
      ground (arith, agree (take l rest))

  emessage_agrees :
      (buff : Bytes) (b : Body)
      → from_data_emessage r buff ≡ ok b
      → from_data_emessage r' buff ≡ ok b
  unfolding from_data_emessage
  emessage_agrees buff b e =
      let (l, rest) = read 2 0 (read 8 0 (read 8 0 buff).1).1 in ground (arith, agree (take l rest))

  receive_messages_agrees :
      (count : ℕ) (buffer : Bytes) (ms : Messages)
      → receive_messages r count buffer ≡ ok ms
      → receive_messages r' count buffer ≡ ok ms
  unfolding receive_messages
  receive_messages_agrees zero buffer ms e = e
  receive_messages_agrees (suc count) buffer ms e =
      let (p, q, e1) = >>=-eq-ok (r buffer) _ e in
      let (ns, q2, e2) = >>=-eq-ok (receive_messages r count p.1) _ e1 in
      rw (agrees_ok buffer p q) (rw (receive_messages_agrees count p.1 ns q2) e2)

  message_batch_agrees :
      (buff : Bytes) (b : Body)
      → from_data_message_batch r buff ≡ ok b
      → from_data_message_batch r' buff ≡ ok b
  unfolding from_data_message_batch
  message_batch_agrees buff b e =
      let (count, rest) = read 4 0 (read 8 0 (read 8 0 buff).1).1 in
      elim (ok-or-not (receive_messages r count rest)) [
        | inl (ms, q) ↦ ground (arith, receive_messages_agrees count rest ms q)
        | inr q ↦ absurd (ground arith)
      ]

  from_data_kind_agrees :
      (k : Option Kind) (version : ℕ) (buff : Bytes) (b : Body)
      → from_data_kind r k version buff ≡ ok b
      → from_data_kind r' k version buff ≡ ok b
  unfolding from_data_kind
  from_data_kind_agrees (some Kind.app_message) version buff b e = app_message_agrees buff b e
  from_data_kind_agrees (some Kind.emessage) version buff b e = emessage_agrees buff b e
  from_data_kind_agrees (some Kind.message_batch) version buff b e = message_batch_agrees buff b e
  from_data_kind_agrees _ version buff b e = e

  from_data_agrees :
      (cmd version : ℕ) (buff : Bytes) (b : Body)
      → from_data r cmd version buff ≡ ok b
      → from_data r' cmd version buff ≡ ok b
  unfolding from_data
  from_data_agrees cmd version buff b e = from_data_kind_agrees (creator cmd) version buff b e

-- One frame, from what is known of the receivers of nested messages.
frame_append :
    (fuel fuel' limit : ℕ) (external : Bool) (conn more rest : Bytes) (m : Message)
    → ((buffer : Bytes)
        → Agrees
            (receive_limit fuel (32 * 1024) false)
            (receive_limit fuel' (32 * 1024) false)
            buffer)
    → receive_limit (suc fuel) limit external conn ≡ ok (m, rest)
    → receive_limit (suc fuel') limit external (conn ++ more) ≡ ok (m, rest ++ more)
unfolding receive_limit
frame_append fuel fuel' limit external conn more rest m agree e =
    let (len, seq, cmd, version, flag) = read_header (take 12 conn) in
    let text : Bytes = take len (drop 12 conn) in
    let inner = receive_limit fuel (32 * 1024) false in
    let inner' = receive_limit fuel' (32 * 1024) false in
    elim (ok-or-not (from_data inner cmd version text)) [
      | inl (b, q) ↦ ground (
        arith,
        q,
        from_data_agrees inner inner' agree cmd version text b q,
        take-append_front 12 conn more,
        drop-append_front 12 conn more,
        take-append_front len (drop 12 conn) more,
        drop-append_front len (drop 12 conn) more,
        length-append conn more,
        length-append (drop 12 conn) more,
      )
      | inr q ↦ absurd (ground arith)
    ]

-- More fuel and more bytes behind change nothing where a message was received.
receive_limit-append :
    (fuel fuel' limit : ℕ) (external : Bool) (conn more rest : Bytes) (m : Message)
    → fuel ≤ fuel'
    → receive_limit fuel limit external conn ≡ ok (m, rest)
    → receive_limit fuel' limit external (conn ++ more) ≡ ok (m, rest ++ more)
receive_limit-append zero fuel' limit external conn more rest m h e = unfold receive_limit in cc
receive_limit-append (suc fuel) zero limit external conn more rest m h e = absurd (omega arith)
receive_limit-append (suc fuel) (suc fuel') limit external conn more rest m h e =
    frame_append fuel fuel' limit external conn more rest m
      (λ buffer. elim (ok-or-not (receive_limit fuel (32 * 1024) false buffer)) [
        | inl (p, q) ↦ inl (
            q
            ∙ sym (
                simp append-nil at (
                  receive_limit-append fuel fuel' (32 * 1024) false buffer [] p.1 p.0 (omega arith)
                    q)))
        | inr q ↦ inr q
      ])
      e

-- A message that `ReceiveMessage` takes from a connection is the same, and so are the
-- bytes left after it, when more bytes have already arrived behind it: no frame reads past
-- its own end.
pub receive_message-append :
    (conn more rest : Bytes) (m : Message)
    → receive_message conn ≡ ok (m, rest)
    → receive_message (conn ++ more) ≡ ok (m, rest ++ more)
unfolding receive_message
receive_message-append conn more rest m e =
    receive_limit-append _ _ (32 * 1024) false conn more rest m
      (omega (arith, length-append {0} conn more)) e
