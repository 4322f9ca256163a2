-- ===== src/Message/FrameLaws.antt =====
-- A message that fits is received as it was sent, whatever follows it on the connection.
use im_service_modify.Prelude.{
  ℕ, zero, suc, ◌*◌, ◌^◌, ◌≤◌, ◌<◌, ◌≡◌, Bool, true, false, ◌++◌, append_assoc, length,
  length-append, arith,
}
use im_service_modify.Wire.{Bytes, ok}
use im_service_modify.Message.Body.{
  Message, Messages, Body, message, nil_ptr, ptr, no_messages, more_messages, cmd_of,
}
use im_service_modify.Message.Creators.{creator, kind_of, is_external}
use im_service_modify.Message.Frame.{
  frame, to_data, write_messages, write_message, Receive, from_data, read_header, receive_limit,
  receive_message, receive_client_message,
}
use im_service_modify.Message.Fits.{
  FitsMessage, FitsMessages, FitsBody, depth, depth_messages, depth_body,
}
use im_service_modify.Message.BodyLaws.{Receives, ReceivesAll, ReceivesBody, from_data_kind-to_data}
use im_service_modify.Wire.Laws.{wire_laws}
use im_service_modify.Prelude.{list_laws}

-- One frame, given that its body is read back.
receive_limit-frame :
    (fuel limit : ℕ) (external : Bool) (cmd seq version flag : ℕ) (body : Body) (text rest : Bytes)
    → cmd < 256
    → seq < 256 ^ 4
    → version < 256
    → flag < 256
    → length text < limit
    → limit ≤ 2147483648
    → (external ≡ true → is_external cmd ≡ true)
    → from_data (receive_limit fuel (32 * 1024) false) cmd version text ≡ ok body
    → receive_limit (suc fuel) limit external (frame cmd seq version flag text ++ rest)
      ≡ ok (message cmd seq version flag body, rest)
unfolding receive_limit read_header
receive_limit-frame fuel limit external cmd seq version flag body text rest hc hs hv hf hl hm he e =
    let l : length text < 256 ^ 4 = omega arith in
    simp (append_assoc, wire_laws, list_laws, hc, hs, hv, hf, l, e) (ground arith)

-- The nesting is at most as deep as the bytes.
mutual
  unfolding depth to_data

  depth-le-length : (m : Message) → depth m ≤ length (write_message m)
  depth-le-length (message cmd seq version flag body) =
      simp wire_laws (omega (arith, depth_body-le-length version body))

  depth_body-le-length : (version : ℕ) (b : Body) → depth_body b ≤ length (to_data version b)
  depth_body-le-length version (Body.app_message a r i d t nil_ptr) = omega arith
  depth_body-le-length version (Body.app_message a r i d t (ptr m)) =
      simp wire_laws (omega (arith, depth-le-length m))
  depth_body-le-length version (Body.emessage i d nil_ptr) = omega arith
  depth_body-le-length version (Body.emessage i d (ptr m)) =
      simp wire_laws (omega (arith, depth-le-length m))
  depth_body-le-length version (Body.message_batch f l ms) =
      simp wire_laws (omega (arith, depth_messages-le-length ms))
  depth_body-le-length version _ = omega arith

  depth_messages-le-length : (ms : Messages) → depth_messages ms ≤ length (write_messages ms)
  depth_messages-le-length no_messages = omega arith
  depth_messages-le-length (more_messages m ms) =
      simp wire_laws (omega (arith, depth-le-length m, depth_messages-le-length ms))

-- The command tells the type of the body.
from_data-to_data :
    (receive : Receive) (cmd version : ℕ) (b : Body)
    → creator cmd ≡ kind_of b
    → FitsBody version b
    → ReceivesBody receive b
    → from_data receive cmd version (to_data version b) ≡ ok b
unfolding from_data
from_data-to_data receive cmd version b kind f r =
    rw kind (from_data_kind-to_data receive version b f r)

mutual
  unfolding depth FitsMessage to_data

  -- With fuel for its depth a message that fits is received whole.
  receive_limit-write_message_fuel :
      (m : Message) (fuel limit : ℕ) (external : Bool)
      → FitsMessage limit m
      → limit ≤ 2147483648
      → (external ≡ true → is_external (cmd_of m) ≡ true)
      → depth m ≤ fuel
      → Receives (receive_limit fuel limit external) m
  receive_limit-write_message_fuel (message cmd seq version flag body) zero limit external f hm he
        hd rest =
      absurd (omega arith)
  receive_limit-write_message_fuel (message cmd seq version flag body) (suc fuel) limit external
        (hc, hs, hv, hf, kind, hl, hb) hm he hd rest =
      receive_limit-frame fuel limit external cmd seq version flag body (to_data version body) rest
        hc hs hv hf hl hm he
        (from_data-to_data (receive_limit fuel (32 * 1024) false) cmd version body kind hb
          (receives_body body version fuel hb (omega arith)))

  receives_body :
      (b : Body) (version fuel : ℕ)
      → FitsBody version b
      → depth_body b ≤ fuel
      → ReceivesBody (receive_limit fuel (32 * 1024) false) b
  receives_body (Body.app_message a r i d t nil_ptr) version fuel f hd = absurd f.5
  receives_body (Body.app_message a r i d t (ptr m)) version fuel f hd =
      receive_limit-write_message_fuel m fuel (32 * 1024) false f.5.1 (omega arith) (λ e. cc) hd
  receives_body (Body.emessage i d nil_ptr) version fuel f hd = absurd f.2
  receives_body (Body.emessage i d (ptr m)) version fuel f hd =
      receive_limit-write_message_fuel m fuel (32 * 1024) false f.2.1 (omega arith) (λ e. cc) hd
  receives_body (Body.message_batch i l ms) version fuel f hd = receives_all ms fuel f.3 hd
  receives_body _ version fuel f hd = tt

  receives_all :
      (ms : Messages) (fuel : ℕ)
      → FitsMessages ms
      → depth_messages ms ≤ fuel
      → ReceivesAll (receive_limit fuel (32 * 1024) false) ms
  receives_all no_messages fuel f hd = tt
  receives_all (more_messages m ms) fuel (f, fs) hd = (
    receive_limit-write_message_fuel m fuel (32 * 1024) false f (omega arith) (λ e. cc)
        (omega arith),
    receives_all ms fuel fs (omega arith),
  )

-- The fuel of the receivers covers every message that stands in front.
fuel_suffices : (m : Message) (rest : Bytes) → depth m ≤ suc (length (write_message m ++ rest))
fuel_suffices m rest = omega (arith, depth-le-length m, length-append {0} (write_message m) rest)

-- `ReceiveMessage` returns a message whose body is below 32 KiB, and all of whose fields fit, as
-- `WriteMessage` wrote it, and leaves the bytes that follow.
pub receive_message-write_message :
    (m : Message) (rest : Bytes)
    → FitsMessage (32 * 1024) m
    → receive_message (write_message m ++ rest) ≡ ok (m, rest)
unfolding receive_message
receive_message-write_message m rest f =
    receive_limit-write_message_fuel m _ (32 * 1024) false f (omega arith) (λ e. cc)
      (fuel_suffices m rest) rest

-- `ReceiveClientMessage` returns a message with a body of below 32 KiB, all of whose fields
-- fit, and a command that a client may send as `WriteMessage` wrote it, and leaves the bytes
-- that follow.
pub receive_client_message-write_message :
    (m : Message) (rest : Bytes)
    → FitsMessage (32 * 1024) m
    → is_external (cmd_of m) ≡ true
    → receive_client_message (write_message m ++ rest) ≡ ok (m, rest)
unfolding receive_client_message
receive_client_message-write_message m rest f h =
    receive_limit-write_message_fuel m _ (32 * 1024) true f (omega arith) (λ e. h)
      (fuel_suffices m rest) rest
