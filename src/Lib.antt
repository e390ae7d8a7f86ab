-- ===== src/Lib.antt =====
-- The library k-vm-common-go: types, parsers and built-in functions that the virtual machine and the
-- protocol of a sharded chain share. A transaction's data is text; the parsers take it apart into the
-- name of a function and byte strings; a built-in function reads these, checks the call, and changes
-- the data tries of accounts through the interfaces of interface.go.
--
-- Parts and files:
--   Prelude        lists, byte strings, signed integers, and the results of Go functions: a value, an
--                  error, or a panic (an index out of range, a nil dereference)
--   Go             what the source uses of Go's standard library: hexadecimal text, strings.Split,
--                  math/big. The models follow the documentation of these packages.
--   Core           the constants of the library k-core, which is not in the repository: a record that
--                  the definitions take
--   TokenId        common.go; Address: address.go; CodeMetadata: codeMetadata.go
--   VmTypes        types of input.go, output.go and gasCost.go that several parts share
--   Parsers        parsers/: Tokens (tokenize.go), CallArgs, DeployArgs, StorageUpdates, DctTransfers
--   TxDataBuilder  txDataBuilder/builder.go
--   BuiltIn        builtInFunctions/: Calls (input.go, output.go, logsAndEvents.go and the shared
--                  checks), Metadata (dctMetaData.go), Roles (dctRoles.go), GlobalSettings
--                  (dctGlobalSettings.go), Balance and Transfer (dctTransfer.go), Payable (payable.go,
--                  disabledPayable.go), LocalAction (dctLocalMint.go, dctLocalBurn.go), Burn
--                  (dctBurn.go), KeyValue (keyValueStorage.go), WipeId (the identifier and
--                  nonce of a token to wipe, of logsAndEvents.go), TokenStorage (dctDataStorage.go:
--                  the readers; System, what is saved; Sent, the marks of shards), NftCalls (the
--                  shared check of dctNFTCreate.go), NftCreate (dctNFTCreate.go), NftSupply
--                  (dctNFTAddQuantity.go, dctNFTBurn.go), NftUpdate (dctNFTAddUri.go,
--                  updateNFTAttributes.go), NftTransfer (dctNFTTransfer.go), MultiTransfer
--                  (multiDCTNFTTransfer.go), FreezeWipe (dctFreezeWipe.go), TransferRole
--                  (dctTransferRole.go), CreateRoleTransfer (dctNFTCreateRoleTransfer.go)
--   Container      container/mutexMap.go and builtInFunctions/container.go
--   Tests          the theorems at concrete inputs
--
-- A function keeps its name in snake case, and a `[]byte` or `string` is the list of its bytes. A
-- method takes the fields that it reads as a record. Accounts, the marshaller, the shard coordinator
-- and the payable handler lie outside the repository: they are the fields of the record BuiltIn.Host,
-- and theorems name the laws of theirs that they rely on (IsStore, KeepsAccounts, IsMarshaller,
-- IsRolesMarshaller). Tests.World is a host with these laws. A function that changes accounts takes
-- the state of all data tries and returns the new one; after an error the caller restores the old one.
--
-- The functions on tokens with nonces read and save through TokenStorage: an entry of the account holds
-- the amount, and the entry under the same key of the system account holds the metadata with the
-- liquidity or the marks of the shards that have it. Two handles of one account are equal, so that a
-- change through one is seen through the other.
--
-- Bounds: a uint64 is a number whose arithmetic is written with `% 2 ^ 64` where the source can exceed
-- it (the multi transfer parser, the multi transfer, the counter of nonces, and gas). Where a round trip
-- of the multi transfer parser needs it, the number of arguments is below 2^61, so that no product of
-- the parser wraps around and no size of a slice is too large; no Go program holds more slices. The
-- loop that prints a number in base 256 runs on fuel, which is the number itself: each round divides
-- it by 256. The loop over the tokens of a multi transfer runs their announced number of times.
--
-- Not modelled: locks and the setters of gas costs; constructors, which test for nil and store;
-- dctDeleteMetadata.go; owner change, developer rewards and user names; creator.go and
-- baseActiveHandler.go, which are wiring; parsers/dataField; the merges of output accounts; mocks.
-- `GasRefund` and the map form of the output accounts are left out of VmOutput.
pub mod Prelude
pub mod Go
pub mod Core
pub mod TokenId
pub mod Address
pub mod CodeMetadata
pub mod VmTypes
pub mod Parsers
pub mod TxDataBuilder
pub mod BuiltIn
pub mod Container
pub mod Tests
