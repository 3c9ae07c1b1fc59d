-- ===== src/Http/Types.antt =====
-- src/networking/http/HttpHelpers.h: the enumerations, and `getStatusName`.
use pulse_net.Base.{ℕ}
use pulse_net.Base.Bytes.{Bytes, codes}

pub data HttpStatus : Type 0 where
  none ok bad_request unauthorized forbidden not_found : HttpStatus

pub data HttpType : Type 0 where
  unknown request response : HttpType

pub data HttpVersion : Type 0 where
  unknown http_1_0 http_1_1 http2 : HttpVersion

pub data HttpMethod : Type 0 where
  get post put http_delete patch trace head options connect invalid unknown : HttpMethod

unfoldable pub status_code : HttpStatus → ℕ
status_code HttpStatus.none = 0
status_code HttpStatus.ok = 200
status_code HttpStatus.bad_request = 400
status_code HttpStatus.unauthorized = 401
status_code HttpStatus.forbidden = 403
status_code HttpStatus.not_found = 404

unfoldable pub get_status_name : HttpStatus → Bytes
get_status_name HttpStatus.ok = codes "OK"
get_status_name HttpStatus.bad_request = codes "Bad Request"
get_status_name HttpStatus.unauthorized = codes "Unauthorized"
get_status_name HttpStatus.forbidden = codes "Forbidden"
get_status_name HttpStatus.not_found = codes "Not Found"
get_status_name _ = codes "Unknown Status"
