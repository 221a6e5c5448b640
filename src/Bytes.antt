-- ===== src/Bytes.antt =====
-- Node buffers as lists of bytes, texts as lists of character codes, and the conversions between
-- them and numbers that the program uses: `Buffer.from(s, 'hex')`, `toString('hex')`,
-- `writeUInt32BE`, `writeBigUInt64BE`, and the `toString(16)`, `toArrayLike` and `new BN(buffer)`
-- of bn.js, whose numbers are the integers of Base/Int.
mod Hex
mod BigEndian
mod Digits
pub mod Decimal
pub mod HexLaws
pub mod BigEndianLaws
pub mod DigitLaws
pub mod ParseHex
unfoldable pub use Hex.*
unfoldable pub use BigEndian.*
unfoldable pub use Digits.*
