-- ===== src/Pull.antt =====
-- The pull of a transfer's data by the consumer: `pullTransferData` of
-- internal/dsp/transfer_consumer_handler.go. The database, the clock and the address guard are those
-- of Action. What the disk, the counterparty and the minter answer is a record, `Site`; the two files
-- of this transfer under the download directory are a state that is passed on. That no second pull
-- of the transfer runs meanwhile is what the `pulling` map is for.
pub mod Outcome
pub mod Response
pub mod Copy
pub mod Run
pub mod Yields
pub mod Described
pub mod Safety
pub mod Recorded
pub mod Finishing
pub mod Exchange
