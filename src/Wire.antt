-- ===== src/Wire.antt =====
-- The parcels that carry commands and results (libsace/SaceTypes.cpp, libsace/SaceParams.cpp).
-- The platform's Parcel is an argument: a record of its operations, whose laws are in Wire/Laws.
pub mod Laws
pub mod Rules
pub mod Extra
pub mod Size
pub mod Params
pub mod Command
pub mod Result
pub mod Names
pub use Laws.{Item, ParcelApi, Fits, IsLawful}
