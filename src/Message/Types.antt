-- ===== src/Message/Types.antt =====
-- Message types: src/webfuse/request_type.hpp, src/webfuse/request_type.cpp,
-- src/webfuse/response_type.hpp and src/webfuse/response_type.cpp. `open_file` is `open` of the
-- source, a reserved word here.
use webfuse.Base.{ℕ, ◌+◌, ◌≤◌, ◌≡◌, refl, arith, ◌==◌, if◌then◌else◌}

-- `enum class request_type: uint8_t`
pub data RequestType : Type 0 where
  unknown access getattr readlink symlink link rename chmod chown truncate fsync : RequestType
  open_file mknod create release unlink read write mkdir readdir rmdir statfs : RequestType
  utimens getcreds : RequestType

-- `enum class response_type: uint8_t`
pub data ResponseType : Type 0 where
  unknown access getattr readlink symlink link rename chmod chown truncate fsync : ResponseType
  open_file mknod create release unlink read write mkdir readdir rmdir statfs : ResponseType
  utimens getcreds : ResponseType

-- The value of an enumerator, `static_cast<uint8_t>(type)`.
unfoldable pub request_code : RequestType → ℕ
request_code RequestType.unknown = 0x00
request_code RequestType.access = 0x01
request_code RequestType.getattr = 0x02
request_code RequestType.readlink = 0x03
request_code RequestType.symlink = 0x04
request_code RequestType.link = 0x05
request_code RequestType.rename = 0x06
request_code RequestType.chmod = 0x07
request_code RequestType.chown = 0x08
request_code RequestType.truncate = 0x09
request_code RequestType.fsync = 0x0a
request_code RequestType.open_file = 0x0b
request_code RequestType.mknod = 0x0c
request_code RequestType.create = 0x0d
request_code RequestType.release = 0x0e
request_code RequestType.unlink = 0x0f
request_code RequestType.read = 0x10
request_code RequestType.write = 0x11
request_code RequestType.mkdir = 0x12
request_code RequestType.readdir = 0x13
request_code RequestType.rmdir = 0x14
request_code RequestType.statfs = 0x15
request_code RequestType.utimens = 0x16
request_code RequestType.getcreds = 0x17

unfoldable pub response_code : ResponseType → ℕ
response_code ResponseType.unknown = 0x80
response_code ResponseType.access = 0x81
response_code ResponseType.getattr = 0x82
response_code ResponseType.readlink = 0x83
response_code ResponseType.symlink = 0x84
response_code ResponseType.link = 0x85
response_code ResponseType.rename = 0x86
response_code ResponseType.chmod = 0x87
response_code ResponseType.chown = 0x88
response_code ResponseType.truncate = 0x89
response_code ResponseType.fsync = 0x8a
response_code ResponseType.open_file = 0x8b
response_code ResponseType.mknod = 0x8c
response_code ResponseType.create = 0x8d
response_code ResponseType.release = 0x8e
response_code ResponseType.unlink = 0x8f
response_code ResponseType.read = 0x90
response_code ResponseType.write = 0x91
response_code ResponseType.mkdir = 0x92
response_code ResponseType.readdir = 0x93
response_code ResponseType.rmdir = 0x94
response_code ResponseType.statfs = 0x95
response_code ResponseType.utimens = 0x96
response_code ResponseType.getcreds = 0x97

-- The `switch` of the source, one case after the other.
unfoldable pub get_request_type : ℕ → RequestType
unfolding request_code
get_request_type value =
    if value == request_code RequestType.access
    then RequestType.access
    else if value == request_code RequestType.getattr
    then RequestType.getattr
    else if value == request_code RequestType.readlink
    then RequestType.readlink
    else if value == request_code RequestType.symlink
    then RequestType.symlink
    else if value == request_code RequestType.link
    then RequestType.link
    else if value == request_code RequestType.rename
    then RequestType.rename
    else if value == request_code RequestType.chmod
    then RequestType.chmod
    else if value == request_code RequestType.chown
    then RequestType.chown
    else if value == request_code RequestType.truncate
    then RequestType.truncate
    else if value == request_code RequestType.fsync
    then RequestType.fsync
    else if value == request_code RequestType.open_file
    then RequestType.open_file
    else if value == request_code RequestType.mknod
    then RequestType.mknod
    else if value == request_code RequestType.create
    then RequestType.create
    else if value == request_code RequestType.release
    then RequestType.release
    else if value == request_code RequestType.unlink
    then RequestType.unlink
    else if value == request_code RequestType.read
    then RequestType.read
    else if value == request_code RequestType.write
    then RequestType.write
    else if value == request_code RequestType.mkdir
    then RequestType.mkdir
    else if value == request_code RequestType.readdir
    then RequestType.readdir
    else if value == request_code RequestType.rmdir
    then RequestType.rmdir
    else if value == request_code RequestType.statfs
    then RequestType.statfs
    else if value == request_code RequestType.utimens
    then RequestType.utimens
    else if value == request_code RequestType.getcreds
    then RequestType.getcreds
    else RequestType.unknown

unfoldable pub get_response_type : RequestType → ResponseType
get_response_type RequestType.access = ResponseType.access
get_response_type RequestType.getattr = ResponseType.getattr
get_response_type RequestType.readlink = ResponseType.readlink
get_response_type RequestType.symlink = ResponseType.symlink
get_response_type RequestType.link = ResponseType.link
get_response_type RequestType.rename = ResponseType.rename
get_response_type RequestType.chmod = ResponseType.chmod
get_response_type RequestType.chown = ResponseType.chown
get_response_type RequestType.truncate = ResponseType.truncate
get_response_type RequestType.fsync = ResponseType.fsync
get_response_type RequestType.open_file = ResponseType.open_file
get_response_type RequestType.mknod = ResponseType.mknod
get_response_type RequestType.create = ResponseType.create
get_response_type RequestType.release = ResponseType.release
get_response_type RequestType.unlink = ResponseType.unlink
get_response_type RequestType.read = ResponseType.read
get_response_type RequestType.write = ResponseType.write
get_response_type RequestType.mkdir = ResponseType.mkdir
get_response_type RequestType.readdir = ResponseType.readdir
get_response_type RequestType.rmdir = ResponseType.rmdir
get_response_type RequestType.statfs = ResponseType.statfs
get_response_type RequestType.utimens = ResponseType.utimens
get_response_type RequestType.getcreds = ResponseType.getcreds
get_response_type RequestType.unknown = ResponseType.unknown

-- Every request type is recognised from the byte that it is sent as.
pub get_request_type-request_code : (t : RequestType) → get_request_type (request_code t) ≡ t
unfolding get_request_type
get_request_type-request_code RequestType.unknown = refl
get_request_type-request_code RequestType.access = refl
get_request_type-request_code RequestType.getattr = refl
get_request_type-request_code RequestType.readlink = refl
get_request_type-request_code RequestType.symlink = refl
get_request_type-request_code RequestType.link = refl
get_request_type-request_code RequestType.rename = refl
get_request_type-request_code RequestType.chmod = refl
get_request_type-request_code RequestType.chown = refl
get_request_type-request_code RequestType.truncate = refl
get_request_type-request_code RequestType.fsync = refl
get_request_type-request_code RequestType.open_file = refl
get_request_type-request_code RequestType.mknod = refl
get_request_type-request_code RequestType.create = refl
get_request_type-request_code RequestType.release = refl
get_request_type-request_code RequestType.unlink = refl
get_request_type-request_code RequestType.read = refl
get_request_type-request_code RequestType.write = refl
get_request_type-request_code RequestType.mkdir = refl
get_request_type-request_code RequestType.readdir = refl
get_request_type-request_code RequestType.rmdir = refl
get_request_type-request_code RequestType.statfs = refl
get_request_type-request_code RequestType.utimens = refl
get_request_type-request_code RequestType.getcreds = refl

-- Every other byte is an unknown request.
pub get_request_type_other : (v : ℕ) → 0x18 ≤ v → get_request_type v ≡ RequestType.unknown
unfolding get_request_type
get_request_type_other v h = ground arith

-- The response to a request of any type has the code of the request with the highest bit set.
pub response_code-get_response_type :
    (t : RequestType) → response_code (get_response_type t) ≡ request_code t + 0x80
unfolding response_code get_response_type request_code
response_code-get_response_type RequestType.unknown = refl
response_code-get_response_type RequestType.access = refl
response_code-get_response_type RequestType.getattr = refl
response_code-get_response_type RequestType.readlink = refl
response_code-get_response_type RequestType.symlink = refl
response_code-get_response_type RequestType.link = refl
response_code-get_response_type RequestType.rename = refl
response_code-get_response_type RequestType.chmod = refl
response_code-get_response_type RequestType.chown = refl
response_code-get_response_type RequestType.truncate = refl
response_code-get_response_type RequestType.fsync = refl
response_code-get_response_type RequestType.open_file = refl
response_code-get_response_type RequestType.mknod = refl
response_code-get_response_type RequestType.create = refl
response_code-get_response_type RequestType.release = refl
response_code-get_response_type RequestType.unlink = refl
response_code-get_response_type RequestType.read = refl
response_code-get_response_type RequestType.write = refl
response_code-get_response_type RequestType.mkdir = refl
response_code-get_response_type RequestType.readdir = refl
response_code-get_response_type RequestType.rmdir = refl
response_code-get_response_type RequestType.statfs = refl
response_code-get_response_type RequestType.utimens = refl
response_code-get_response_type RequestType.getcreds = refl
