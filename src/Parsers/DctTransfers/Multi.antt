-- ===== src/Parsers/DctTransfers/Multi.antt =====
-- What `parseMultiDCTNFTTransfer` returns, and when it panics.
pub mod RoundTrip
pub mod Count
