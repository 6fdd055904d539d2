-- ===== src/Http.antt =====
-- The HTTP server (lib/src/geoff.cpp, lib/inc/handle_request.h, lib/src/ServerUtils.cpp): its texts,
-- the answer to a request, a connection with its queue of responses, and the listener.
pub mod Text
pub mod Path
pub mod Mime
pub mod Handle
pub mod Failure
pub mod Queue
pub mod Pipeline
pub mod Connection
pub mod Samples
mod Examples
mod ConnectionExamples
pub mod Server
mod ServerExamples
