-- ===== src/Std.antt =====
-- What the program uses of Go's standard library: strconv.Atoi, decimal printing (`%d`), and
-- net.SplitHostPort. Texts are lists of code points.
pub mod Decimal
pub mod HostPort
pub mod Space
pub mod Lines
