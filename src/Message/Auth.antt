-- ===== src/Message/Auth.antt =====
-- serverCommon/model/message.go: `AuthenticationToken`, two texts behind their lengths.
use im_service_modify.Prelude.{ℕ, ◌||◌, ◌++◌, ltb, leb, length, take, drop, if◌then◌else◌}
use im_service_modify.Wire.{Bytes, write, read, is_negative, Outcome, ok, refused}

pub record AuthenticationToken : Type 0 where
  pub token : Bytes
  pub platform_id : ℕ
  pub device_id : Bytes

-- `int16(len(..))` and `int8(len(..))` keep the low bytes of the length, as `write` does.
unfoldable pub to_data_authentication_token : AuthenticationToken → Bytes
to_data_authentication_token auth =
    write 1 auth.platform_id
    ++ (write 2 (length auth.token)
        ++ (auth.token ++ (write 1 (length auth.device_id) ++ auth.device_id)))

unfoldable pub from_data_authentication_token : Bytes → Outcome AuthenticationToken
from_data_authentication_token buff =
    if leb (length buff) 3
    then refused
    else (let (platform_id, b1) = read 1 0 buff in
        let (ltoken, b2) = read 2 0 b1 in
        if is_negative 2 ltoken || ltb (length b2) ltoken
        then refused
        else (let token = take ltoken b2 in
            let (device_idl, b3) = read 1 0 (drop ltoken b2) in
            if is_negative 1 device_idl || ltb (length b3) device_idl
            then refused
            else ok (record {
              token = token;
              platform_id = platform_id;
              device_id = take device_idl b3;
            })))
