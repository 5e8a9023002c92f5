-- ===== src/Errors/Tests.antt =====
-- Concrete errors.
use ttn.Base.{◌≡◌, Error}
use ttn.Errors.{Grpc, get_err_type, build_grpc_error, from_grpc_error}
use ttn.Errors.RoundTrip.{get_err_type-round_trip}

abbrev grpc : Grpc
grpc = record { text = λ c s. s; sprintf = λ s. s; code_name = λ c. "Unknown" }

get_err_type-round_trip_example :
    get_err_type (
      from_grpc_error grpc
        (build_grpc_error grpc (Error.wrapped "no device" (Error.not_found "device"))))
    ≡ get_err_type (Error.wrapped "no device" (Error.not_found "device"))
get_err_type-round_trip_example =
    get_err_type-round_trip grpc (Error.wrapped "no device" (Error.not_found "device")) tt
