-- ===== src/Lib.antt =====
-- A model of keystore, the service that keeps the keys of Android's applications, with the theorems
-- that make its decisions right. Paths are those of the repository.
--
-- The parts and how they interact. An operation on a key begins with AuthorizeBegin
-- (keystore/keymaster_enforcement.cpp), which checks the key's authorizations, and with the token that
-- the table of authorization tokens (keystore/auth_token_table.cpp) finds for it; it is then kept in
-- the operation map (keystore/operation.cpp) until it ends or its application dies. A request of
-- a client is run by the worker of a device (keystore/keymaster_worker.cpp), which calls all of these.
-- Keys are files, named by their uid and alias and encrypted with the key of their user
-- (keystore/blob.cpp); keystore/KeyStore.cpp finds, reads, writes and deletes them. The grant store (keystore/grant_store.cpp) leads
-- other applications to them; the tables of permissions.cpp say which uid may ask for what; and the
-- confirmation manager (keystore/confirmation_manager.cpp) shows the user a prompt, within the limits
-- of keystore/confirmationui_rate_limiting.h. Apart from these, identity/CredentialData.cpp keeps the
-- authentication keys of an identity credential and counts their uses.
--
-- The files.
--   Base          numbers, lists and association lists that the parts share
--   Keymaster     the names of the keymaster HAL, and the interface of its AuthorizationSet
--   AuthTokens    AuthTokenTable; AuthTokens/Find has FindAuthorization and MarkCompleted
--   Enforcement   KeymasterEnforcement; Maps has the two access maps, Begin has AuthorizeBegin,
--                 Operation has AuthorizeOperation and AuthorizeUpdateOrFinish, and Keystore has the
--                 virtual methods of keystore/keystore_keymaster_enforcement.h
--   Text          what the sources use of std::string and std::stringstream
--   Codes         the enumerations of keystore/include/keystore/keystore.h
--   Blob          Blob with its flags; Blob/Stored has writeBlob and readBlob, and Blob/Entry the two
--                 files of a LockedKeyBlobEntry
--   Worker        KeymasterWorker; Requests has update and finish, Upgrade has upgradeKeyBlob and
--                 createKeyCharacteristicsCache, Begin and Start have begin, and Keys and
--                 Transfers the making, import and export of keys
--   KeyStore      KeyStore; Access has the lookup of a key by its name
--   AuthKeys      the authentication keys of identity/CredentialData.cpp: selection, certification
--   KeyBlob       encodeKeyName, decodeKeyName, the names of KeyBlobEntry and filename2UidAlias
--   Grants        GrantStore
--   Operations    OperationMap
--   RateLimiting  RateLimiting, with tryPrompt and processResult
--   ConfirmationManager  ConfirmationManager, each handler a function on its state
--   Permissions   has_permission, get_keystore_euid and is_granted_to
--   UserState     UserState and UserStateDB, the life of a user's master key
--   SecurityLevels  flagsToSecurityLevel and securityLevelToFlags of keystore/keystore_utils.cpp
--   Examples      runs at concrete inputs
-- The other files hold the proofs, named for what they prove.
--
-- The choices. A method is a function from the object's state and its arguments to its result and the
-- state after it; calls follow one another, also where the source lets go of a lock within a method or
-- takes none. Names are those of the sources, in the spelling of this language. Numbers are natural numbers; a sum that may
-- wrap has its modulus, and a signed number that may be negative is an integer. Clocks, random numbers,
-- new binders and the answers of the file system, of devices and of services are arguments; the ciphers
-- of the SSL library are a record of functions, and the documented laws of AES-GCM a hypothesis; its key
-- derivation from a password is a function. What the HAL's support library does with an
-- AuthorizationSet is the record Keymaster.Authorizations, an argument of all that uses it; that a
-- parameter has a tag is read off the same record. Loops are recursions on the list that they walk; the
-- loop of `put` runs over the numbers that std::rand() yields.
--
-- The bounds. The loop of begin that makes room has as much fuel as there are operations, the loop
-- around the device's begin one more: every round but the last removes an operation. A method that may
-- wait for ever, since a lock or an entry is asked for twice by one thread, returns an Option.
--
-- What is not modelled: the binder and HIDL interfaces, the marshalling, the log handlers, the client
-- library and tools, the legacy device wrapper, the engine for the SSL library, fsverity_init, and the
-- identity credential store. Their state is the HAL's, the system's or a file's. Neither are the handlers
-- of KeyStoreService, nor the threads of the worker's queue.
pub mod Base
pub mod Keymaster
pub mod AuthTokens
pub mod Enforcement
pub mod Text
pub mod KeyBlob
pub mod Grants
pub mod Operations
pub mod RateLimiting
pub mod ConfirmationManager
pub mod Permissions
pub mod Examples
pub mod UserState
pub mod SecurityLevels
pub mod Codes
pub mod Blob
pub mod Worker
pub mod KeyStore
pub mod AuthKeys
