-- ===== src/Request/Settings.antt =====
-- The input parameters of `treq_RequestType` (src/treqRequest.h). A Tcl object is its string
-- representation, and `none` is NULL.
use trequests.Auth.{RequestAuth}
use trequests.Base.{ℤ, Bool, Option, Bytes, codes}

pub data Method : Type 0 where
  head get post put patch delete custom : Method

-- `treq_RequestGetMethodName`
unfoldable pub method_name : Method → Bytes
method_name head = codes "HEAD"
method_name get = codes "GET"
method_name post = codes "POST"
method_name put = codes "PUT"
method_name patch = codes "PATCH"
method_name delete = codes "DELETE"
method_name custom = codes "custom"

pub record Settings : Type 0 where
  pub url : Bytes
  pub headers : Option Bytes
  pub header_accept : Option Bytes
  pub header_content_type : Option Bytes
  pub form : Option Bytes
  pub method : Method
  pub custom_method : Option Bytes
  pub auth : Option RequestAuth
  pub postfields : Option Bytes
  pub querystring : Option Bytes
  pub allow_redirects : ℤ
  pub verbose : ℤ
  pub timeout : ℤ
  pub timeout_connect : ℤ
  pub verify_host : ℤ
  pub verify_peer : ℤ
  pub verify_status : ℤ
  pub callback : Option Bytes
  pub async : Bool
  pub callback_debug : Option Bytes
