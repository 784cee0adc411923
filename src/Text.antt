-- ===== src/Text.antt =====
-- The functions of Go's packages `strings`, `strconv`, `fmt`, `encoding/base64` and
-- `path/filepath` that the program calls, over byte strings.
pub mod Decimal
pub mod Search
pub mod Trim
pub mod Scan
pub mod Lines
pub mod Path
pub mod Utf8
pub mod Quote
pub mod Base64
pub mod Replace
