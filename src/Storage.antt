-- ===== src/Storage.antt =====
-- The files of src/storage/.
pub mod AddressColumn
pub mod DataFile
pub mod PackCodes
