-- ===== src/Http.antt =====
-- The HTTP client, kernel/http.c: walks over text (`Scan`), the cookie jar (`Cookies`), URLs (`Url`),
-- header lines (`Headers`), chunked bodies (`Chunked`), a request and its answer (`Request`), and
-- redirects (`Follow`). A C string is the list of its characters without the final zero.
pub mod Scan
pub mod Cookies
pub mod Url
pub mod Headers
pub mod Chunked
pub mod Request
mod Tests
