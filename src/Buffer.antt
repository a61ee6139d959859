-- ===== src/Buffer.antt =====
-- The message buffers of the runtime (lib/core/buffer.cc, lib/dynamic/buffer_raw.cc,
-- lib/dynamic/buffer_xdr.cc): a header and a growing vector of bytes with a reading position.
pub mod Types
pub mod Store
pub mod Header
pub mod Connection
pub mod Queue
pub mod Stream
pub mod Text
pub mod Raw
pub mod Xdr
pub mod Wire
pub mod Call
pub mod Samples
pub mod SampleXdr
mod Examples
mod BoundsExamples
