-- ===== src/Pkg.antt =====
-- libsmart_net/src/smart_net: the packages of pkg.h, which archive.h writes into a block and dispatcher.h
-- reads.
pub mod Header
pub mod Dispatcher
pub mod Archive
pub mod RoundTrip
mod Tests
