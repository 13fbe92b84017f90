-- ===== src/Octopipespp.antt =====
-- liboctopipespp/include/octopipespp/typespp.hpp, the enumerations of the C++ classes, how the
-- classes translate the codes of the C library, and the texts that both have for them.
pub mod Descriptions
pub mod Message
pub mod Client
pub mod Server
mod Tests
use liboctopipes.Prelude.{ℕ, ◌==◌, if◌then◌else◌}
use liboctopipes.Types
use liboctopipes.Server.{ServerError as OctopipesServerError}

-- octopipes::Error.
pub data Error : Type 0 where
  success uninitialized bad_packet bad_checksum unsupported_version no_data_available : Error
  open_failed write_failed read_failed cap_timeout not_subscribed not_unsubscribed : Error
  thread bad_alloc unknown_error : Error

-- octopipes::CapError. The enumeration has no name for the other bytes of a packet.
pub data CapError : Type 0 where
  success name_already_taken fs unknown : CapError

-- octopipes::ServerError.
pub data ServerError : Type 0 where
  success bad_alloc uninitialized bad_packet bad_checksum unsupported_version : ServerError
  open_failed write_failed read_failed cap_timeout thread_error thread_already_running : ServerError
  worker_exists worker_not_found worker_already_running worker_not_running : ServerError
  no_recipient bad_client_dir unknown : ServerError

-- translate_octopipes_error. The `switch` has no case for WRITE_FAILED.
unfoldable pub translate_octopipes_error : Types.Error → Error
translate_octopipes_error Types.bad_alloc = Error.bad_alloc
translate_octopipes_error Types.bad_checksum = Error.bad_checksum
translate_octopipes_error Types.bad_packet = Error.bad_packet
translate_octopipes_error Types.cap_timeout = Error.cap_timeout
translate_octopipes_error Types.no_data_available = Error.no_data_available
translate_octopipes_error Types.not_subscribed = Error.not_subscribed
translate_octopipes_error Types.not_unsubscribed = Error.not_unsubscribed
translate_octopipes_error Types.open_failed = Error.open_failed
translate_octopipes_error Types.read_failed = Error.read_failed
translate_octopipes_error Types.success = Error.success
translate_octopipes_error Types.thread = Error.thread
translate_octopipes_error Types.uninitialized = Error.uninitialized
translate_octopipes_error Types.unsupported_version = Error.unsupported_version
translate_octopipes_error _ = Error.unknown_error

-- translate_octopipes_server_error.
unfoldable pub translate_octopipes_server_error : OctopipesServerError → ServerError
translate_octopipes_server_error OctopipesServerError.bad_alloc = ServerError.bad_alloc
translate_octopipes_server_error OctopipesServerError.bad_checksum = ServerError.bad_checksum
translate_octopipes_server_error OctopipesServerError.bad_client_dir = ServerError.bad_client_dir
translate_octopipes_server_error OctopipesServerError.bad_packet = ServerError.bad_packet
translate_octopipes_server_error OctopipesServerError.cap_timeout = ServerError.cap_timeout
translate_octopipes_server_error OctopipesServerError.no_recipient = ServerError.no_recipient
translate_octopipes_server_error OctopipesServerError.open_failed = ServerError.open_failed
translate_octopipes_server_error OctopipesServerError.read_failed = ServerError.read_failed
translate_octopipes_server_error OctopipesServerError.success = ServerError.success
translate_octopipes_server_error OctopipesServerError.thread_already_running =
    ServerError.thread_already_running
translate_octopipes_server_error OctopipesServerError.thread_error = ServerError.thread_error
translate_octopipes_server_error OctopipesServerError.uninitialized = ServerError.uninitialized
translate_octopipes_server_error OctopipesServerError.unsupported_version =
    ServerError.unsupported_version
translate_octopipes_server_error OctopipesServerError.worker_already_running =
    ServerError.worker_already_running
translate_octopipes_server_error OctopipesServerError.worker_exists = ServerError.worker_exists
translate_octopipes_server_error OctopipesServerError.worker_not_found =
    ServerError.worker_not_found
translate_octopipes_server_error OctopipesServerError.worker_not_running =
    ServerError.worker_not_running
translate_octopipes_server_error OctopipesServerError.write_failed = ServerError.write_failed
translate_octopipes_server_error _ = ServerError.unknown

-- translate_cap_error.
unfoldable pub translate_cap_error : ℕ → CapError
translate_cap_error code =
    if code == Types.cap_success
    then CapError.success
    else if code == Types.name_already_taken
    then CapError.name_already_taken
    else if code == Types.cap_fs
    then CapError.fs
    else CapError.unknown
