-- ===== src/Message/AuthLaws.antt =====
-- When an authentication token comes back as it was sent.
use im_service_modify.Prelude.{list_laws, ◌^◌, ◌<◌, ◌≡◌, length, arith}
use im_service_modify.Wire.{ok}
use im_service_modify.Message.Auth.{
  AuthenticationToken, to_data_authentication_token, from_data_authentication_token,
}
use im_service_modify.Wire.Laws.{wire_laws}

-- The lengths fit the signed integers that carry them.
pub record FitsAuthenticationToken (auth : AuthenticationToken) : Type 0 where
  pub platform_id : auth.platform_id < 256
  pub token : length auth.token < 32768
  pub device_id : length auth.device_id < 128

-- An authentication token whose fields fit is decoded as it was encoded.
pub from-to_data_authentication_token :
    (auth : AuthenticationToken)
    → FitsAuthenticationToken auth
    → from_data_authentication_token (to_data_authentication_token auth) ≡ ok auth
unfolding from_data_authentication_token to_data_authentication_token
from-to_data_authentication_token auth f =
    let t : length auth.token < 256 ^ 2 = omega (arith, f.token) in
    let d : length auth.device_id < 256 ^ 1 = omega (arith, f.device_id) in
    simp (wire_laws, list_laws, f.platform_id, t, d) (ground arith)
