-- ===== src/Octopipespp/Descriptions.antt =====
-- The texts for error codes: octopipes_get_error_desc and octopipes_server_get_error_desc of the C
-- library, and Client::getErrorDesc and Server::getServerErrorDesc of the C++ classes.
use Prim.Native.String.{String, ◌++◌ as ◌<>◌}
use liboctopipes.Prelude.{◌≡◌, refl}
use liboctopipes.Types
use liboctopipes.Server
use liboctopipes.Octopipespp.{
  Error, ServerError, translate_octopipes_error, translate_octopipes_server_error,
}

-- OCTOPIPES_LIB_VERSION.
abbrev lib_version : String
lib_version = "0.1.0"

-- octopipes_get_error_desc.
unfoldable pub octopipes_get_error_desc : Types.Error → String
octopipes_get_error_desc Types.bad_alloc = "Could not allocate more memory in the heap"
octopipes_get_error_desc Types.bad_checksum =
    "The last packet has a bad checksum and the ignore checksum flag is set to 0"
octopipes_get_error_desc Types.bad_packet = "The packet syntax is invalid or is unexpected"
octopipes_get_error_desc Types.cap_timeout =
    "The CAP timeout. The request hasn't been fulfilled in time."
octopipes_get_error_desc Types.no_data_available = "There's no data available to be read"
octopipes_get_error_desc Types.not_subscribed =
    "The client is not subscribed yet to Octopipes server. Sending of messages to server is allowed only using the CAP."
octopipes_get_error_desc Types.not_unsubscribed =
    "This operation is not permitted, since the client isn't unsubscribed"
octopipes_get_error_desc Types.open_failed = "Could not open the FIFO"
octopipes_get_error_desc Types.read_failed = "An error occurred while trying to read from FIFO"
octopipes_get_error_desc Types.success = "Not an error"
octopipes_get_error_desc Types.thread = "Could not start loop thread"
octopipes_get_error_desc Types.uninitialized =
    "The OctopipesClient must be initialized calling octopipes_init() first"
octopipes_get_error_desc Types.unsupported_version =
    "This protocol version is unsupported by Octopipes Version " <> lib_version
octopipes_get_error_desc Types.write_failed = "Could not write data to FIFO"
octopipes_get_error_desc _ = "Unknown error"

-- Client::getErrorDesc.
unfoldable pub get_error_desc : Error → String
get_error_desc Error.bad_alloc = "Could not allocate more memory in the heap"
get_error_desc Error.bad_checksum =
    "The last packet has a bad checksum and the ignore checksum flag is set to 0"
get_error_desc Error.bad_packet = "The packet syntax is invalid or is unexpected"
get_error_desc Error.cap_timeout = "The CAP timeout. The request hasn't been fulfilled in time."
get_error_desc Error.no_data_available = "There's no data available to be read"
get_error_desc Error.not_subscribed =
    "The client is not subscribed yet to Octopipes server. Sending of messages to server is allowed only using the CAP."
get_error_desc Error.not_unsubscribed =
    "This operation is not permitted, since the client isn't unsubscribed"
get_error_desc Error.open_failed = "Could not open the FIFO"
get_error_desc Error.read_failed = "An error occurred while trying to read from FIFO"
get_error_desc Error.success = "Not an error"
get_error_desc Error.thread = "Could not start loop thread"
get_error_desc Error.uninitialized =
    "The OctopipesClient must be initialized calling octopipes_init() first"
get_error_desc Error.unsupported_version =
    "This protocol version is unsupported by Octopipes Version " <> lib_version
get_error_desc Error.write_failed = "Could not write data to FIFO"
get_error_desc _ = "Unknown error"

-- octopipes_server_get_error_desc.
unfoldable pub octopipes_server_get_error_desc : Server.ServerError → String
octopipes_server_get_error_desc Server.bad_alloc = "Could not allocate more memory"
octopipes_server_get_error_desc Server.bad_checksum = "Message has bad checksum"
octopipes_server_get_error_desc Server.bad_client_dir =
    "It was not possible to initialize the provided clients directory"
octopipes_server_get_error_desc Server.bad_packet = "The received packet has an invalid syntax"
octopipes_server_get_error_desc Server.cap_timeout = "CAP timeout"
octopipes_server_get_error_desc Server.no_recipient =
    "The received message has no recipient, but it should had"
octopipes_server_get_error_desc Server.open_failed = "Could not open or create the pipe"
octopipes_server_get_error_desc Server.read_failed = "Could not read from pipe"
octopipes_server_get_error_desc Server.success = "Not an error"
octopipes_server_get_error_desc Server.thread_already_running = "Thread is already running"
octopipes_server_get_error_desc Server.thread_error =
    "There was an error in initializing the thread"
octopipes_server_get_error_desc Server.uninitialized =
    "Octopipes sever is not correctly initialized"
octopipes_server_get_error_desc Server.unsupported_version = "Unsupported protocol version"
octopipes_server_get_error_desc Server.worker_already_running =
    "A worker with these parameters is already running"
octopipes_server_get_error_desc Server.worker_exists =
    "A worker with these parameters already exists"
octopipes_server_get_error_desc Server.worker_not_found = "Could not find a worker with that name"
octopipes_server_get_error_desc Server.worker_not_running = "The requested worker is not running"
octopipes_server_get_error_desc Server.write_failed = "Could not write to pipe"
octopipes_server_get_error_desc _ = "Unknown error"

-- Server::getServerErrorDesc.
unfoldable pub get_server_error_desc : ServerError → String
get_server_error_desc ServerError.bad_alloc = "Could not allocate more memory"
get_server_error_desc ServerError.bad_checksum = "Message has bad checksum"
get_server_error_desc ServerError.bad_client_dir =
    "It was not possible to initialize the provided clients directory"
get_server_error_desc ServerError.bad_packet = "The received packet has an invalid syntax"
get_server_error_desc ServerError.cap_timeout = "CAP timeout"
get_server_error_desc ServerError.no_recipient =
    "The received message has no recipient, but it should had"
get_server_error_desc ServerError.open_failed = "Could not open or create the pipe"
get_server_error_desc ServerError.read_failed = "Could not read from pipe"
get_server_error_desc ServerError.success = "Not an error"
get_server_error_desc ServerError.thread_already_running = "Thread is already running"
get_server_error_desc ServerError.thread_error = "There was an error in initializing the thread"
get_server_error_desc ServerError.uninitialized = "Octopipes sever is not correctly initialized"
get_server_error_desc ServerError.unsupported_version = "Unsupported protocol version"
get_server_error_desc ServerError.worker_already_running =
    "A worker with these parameters is already running"
get_server_error_desc ServerError.worker_exists = "A worker with these parameters already exists"
get_server_error_desc ServerError.worker_not_found = "Could not find a worker with that name"
get_server_error_desc ServerError.worker_not_running = "The requested worker is not running"
get_server_error_desc ServerError.write_failed = "Could not write to pipe"
get_server_error_desc _ = "Unknown error"

-- A server's error is described by the C++ classes in the words of the C library, whichever error it
-- is.
pub get_server_error_desc-translate :
    (error : Server.ServerError)
    → get_server_error_desc (translate_octopipes_server_error error)
      ≡ octopipes_server_get_error_desc error
unfolding get_server_error_desc translate_octopipes_server_error octopipes_server_get_error_desc
get_server_error_desc-translate Server.success = refl
get_server_error_desc-translate Server.bad_alloc = refl
get_server_error_desc-translate Server.uninitialized = refl
get_server_error_desc-translate Server.bad_packet = refl
get_server_error_desc-translate Server.bad_checksum = refl
get_server_error_desc-translate Server.unsupported_version = refl
get_server_error_desc-translate Server.open_failed = refl
get_server_error_desc-translate Server.write_failed = refl
get_server_error_desc-translate Server.read_failed = refl
get_server_error_desc-translate Server.cap_timeout = refl
get_server_error_desc-translate Server.thread_error = refl
get_server_error_desc-translate Server.thread_already_running = refl
get_server_error_desc-translate Server.worker_exists = refl
get_server_error_desc-translate Server.worker_not_found = refl
get_server_error_desc-translate Server.worker_already_running = refl
get_server_error_desc-translate Server.worker_not_running = refl
get_server_error_desc-translate Server.no_recipient = refl
get_server_error_desc-translate Server.bad_client_dir = refl
get_server_error_desc-translate Server.unknown = refl

-- The text that is left of an error of a client behind its translation.
abbrev pub kept_desc : Types.Error → String
kept_desc Types.write_failed = "Unknown error"
kept_desc error = octopipes_get_error_desc error

-- An error of a client is described by the C++ classes in the words of the C library, save for
-- WRITE_FAILED, which they describe as unknown.
pub get_error_desc-translate :
    (error : Types.Error) → get_error_desc (translate_octopipes_error error) ≡ kept_desc error
unfolding get_error_desc translate_octopipes_error octopipes_get_error_desc
get_error_desc-translate Types.success = refl
get_error_desc-translate Types.uninitialized = refl
get_error_desc-translate Types.bad_packet = refl
get_error_desc-translate Types.bad_checksum = refl
get_error_desc-translate Types.unsupported_version = refl
get_error_desc-translate Types.no_data_available = refl
get_error_desc-translate Types.open_failed = refl
get_error_desc-translate Types.write_failed = refl
get_error_desc-translate Types.read_failed = refl
get_error_desc-translate Types.cap_timeout = refl
get_error_desc-translate Types.not_subscribed = refl
get_error_desc-translate Types.not_unsubscribed = refl
get_error_desc-translate Types.thread = refl
get_error_desc-translate Types.bad_alloc = refl
get_error_desc-translate Types.unknown_error = refl
