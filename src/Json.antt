-- ===== src/Json.antt =====
-- `encoding/json`, as far as the client uses it: a text is read into a value, and the value into
-- the struct that `json.Unmarshal` is given.
pub mod Syntax
pub mod Chars
pub mod Scan
pub mod Read
pub mod Decode
pub mod Encode
pub mod Print
