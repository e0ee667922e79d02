-- ===== src/Golang.antt =====
-- What the program uses of Go's `strings`, `strconv` and `encoding/hex`, on byte strings.
pub mod Strings
pub mod Strconv
pub mod Hex
pub mod Text
