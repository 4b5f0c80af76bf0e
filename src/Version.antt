-- ===== src/Version.antt =====
-- src/library.c, `treq_CurlVersionCmd`: what libcurl says of itself, as a dictionary or one of its
-- values. The library is compiled against a libcurl that knows all of the fields.
use trequests.Base.{ℕ, ltb, List, [], ◌∷◌, Option, none, some, Bytes, codes, if◌then◌else◌}
use trequests.Options.Platform.{Platform}

-- The names of the fields.
pub data VersionField : Type 0 where
  version host ssl_version libz_version protocols ares libidn libssh_version : VersionField
  brotli_version nghttp2_version quic_version cainfo capath zstd_version : VersionField
  hyper_version gsasl_version features rtmp_version : VersionField

pub field_name : VersionField → Bytes
field_name version = codes "version"
field_name host = codes "host"
field_name ssl_version = codes "ssl_version"
field_name libz_version = codes "libz_version"
field_name protocols = codes "protocols"
field_name ares = codes "ares"
field_name libidn = codes "libidn"
field_name libssh_version = codes "libssh_version"
field_name brotli_version = codes "brotli_version"
field_name nghttp2_version = codes "nghttp2_version"
field_name quic_version = codes "quic_version"
field_name cainfo = codes "cainfo"
field_name capath = codes "capath"
field_name zstd_version = codes "zstd_version"
field_name hyper_version = codes "hyper_version"
field_name gsasl_version = codes "gsasl_version"
field_name features = codes "features"
field_name rtmp_version = codes "rtmp_version"

-- `curl_version_info_data`: its age, from 0 for CURLVERSION_FIRST, and its fields as objects of
-- Tcl; `none` is NULL. The protocols and the features are lists, which are never NULL.
pub record VersionInfo : Type 0 where
  pub age : ℕ
  pub value : VersionField → Option Bytes
  pub protocol_list : Bytes
  pub feature_list : Bytes

-- The fields by the age from which they are there, in the order of the function.
abbrev pub version_fields : List (ℕ × List VersionField)
version_fields =
    (0, version ∷ host ∷ ssl_version ∷ libz_version ∷ protocols ∷ [])
    ∷ (1, ares ∷ [])
    ∷ (2, libidn ∷ [])
    ∷ (3, libssh_version ∷ [])
    ∷ (4, brotli_version ∷ [])
    ∷ (5, nghttp2_version ∷ quic_version ∷ [])
    ∷ (6, cainfo ∷ capath ∷ [])
    ∷ (7, zstd_version ∷ [])
    ∷ (8, hyper_version ∷ [])
    ∷ (9, gsasl_version ∷ [])
    ∷ (10, features ∷ [])
    ∷ (11, rtmp_version ∷ [])
    ∷ []

pub version_value : VersionInfo → VersionField → Option Bytes
version_value i protocols = some i.protocol_list
version_value i features = some i.feature_list
version_value i f = i.value f

-- The result of the command.
pub data VersionReply : Type 0 where
  wrong_args : VersionReply
  unknown_property : Bytes → VersionReply
  property : Bytes → VersionReply

module _ (p : Platform) (dict_get : Bytes → Bytes → Option Bytes) (i : VersionInfo) where
  -- `ADD_VERSION_INFO` and `ADD_VERSION_INFO_STR`
  pub add_version_info : VersionField → Bytes → Bytes
  unfolding field_name version_value
  add_version_info f d = elim (version_value i f) [
    | none ↦ d
    | some value ↦ p.dict_put d (field_name f) value
  ]

  pub add_fields : List VersionField → Bytes → Bytes
  unfolding add_version_info
  add_fields [] d = d
  add_fields (f ∷ fs) d = add_fields fs (add_version_info f d)

  -- The first age that is above that of libcurl ends the list.
  pub add_ages : List (ℕ × List VersionField) → Bytes → Bytes
  unfolding add_fields
  add_ages [] d = d
  add_ages ((from, fs) ∷ rest) d =
      let more = add_ages rest (add_fields fs d) in if ltb i.age from then d else more

  pub version_property : Bytes → Bytes → VersionReply
  version_property d name = elim (dict_get d name) [
    | none ↦ unknown_property name
    | some value ↦ property value
  ]

  -- `treq_CurlVersionCmd`, from its words.
  pub curl_version_cmd : List Bytes → VersionReply
  unfolding add_ages version_property
  curl_version_cmd (command ∷ name ∷ []) =
      version_property (add_ages version_fields p.dict_empty) name
  curl_version_cmd (command ∷ name ∷ more ∷ words) = wrong_args
  curl_version_cmd _ = property (add_ages version_fields p.dict_empty)
