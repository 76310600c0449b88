-- ===== src/Report.antt =====
-- report/http_request.go: data that the plugins report over HTTP. What could not be delivered is kept in a
-- bucket and tried again. net/http, JSON, gzip, MD5 and the tokens are parameters; the goroutines and the
-- reasons in error messages are left out.
pub mod Sending
pub mod Keeping
pub mod Entries
pub mod Retry
pub mod Kept
