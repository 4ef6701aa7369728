-- ===== src/Http.antt =====
-- HttpServerLib/HttpServer.cpp: the class `CHttpServer` without its sockets and threads.
pub mod Text
pub mod Escape
pub mod Options
pub mod Numbers
pub mod Completeness
pub mod Files
pub mod Status
pub mod Message
pub mod Connection
pub mod Server
