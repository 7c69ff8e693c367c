-- ===== src/Api.antt =====
-- internal/api: what the server answers to a request. The routing of net/http and the decoding of a
-- body are not the program's: a request is an endpoint with its decoded parts (`none` is a body that
-- decodeJSON refuses), and the cookies and headers that the middleware reads.
pub mod Answer
pub mod Guards
pub mod FileHandlers
pub mod AuthHandlers
pub mod AdminHandlers
pub mod Paging
pub mod Server
pub mod Answered
pub mod Middleware
pub mod Laws
