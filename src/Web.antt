-- ===== src/Web.antt =====
-- Globals of the web platform, in crates/builtins: text, base64, URLs and their search parameters.
pub mod Text
pub mod Base64
pub mod Params
pub mod Url
mod Tests
