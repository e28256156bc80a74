-- ===== src/Lib.antt =====
-- optee-utee: the Rust library that trusted applications use to call the OP-TEE internal API, and the
-- manager that runs applications in a simulator.
--
-- Most of the crate stands between a client and C functions of the operating system. Those functions
-- are not in the repository: every one of them is a parameter of the model. Where the order of calls
-- matters, one function answers a call by the list of all calls made so far, latest first, with the
-- call to answer at the head; so the system may remember anything and answer anything. What the crate
-- does with an answer, and which calls it makes in which order, is modelled line by line.
--
-- The parts, the files that they model, and the modules:
--   src/error.rs                  Error. Kinds, codes and origins.
--   optee-utee-sys/src/           Codes. The constants that the crate compares with or repeats:
--   tee_api_defines.rs            Codes/Objects, Algorithms, Operations, Flags and Parameters are its
--                                 tables, and Codes/Names says which of the crate's names are the same.
--                                 Codes/Panics has the panic identifiers, Codes/Header the names of the
--                                 properties in the header of an application (user_ta_header.rs).
--   src/parameter.rs              Param. What a called application sees of its four parameters: the
--                                 packed types, and the views of the union TEE_Param, whose layout is
--                                 the 64-bit little-endian one. Raw pointers are addresses in a memory.
--   src/tee_parameter.rs          TeeParams. What a client passes to another application, the raw form
--                                 of it, and the update from a reply. It is packed for Param's reader;
--                                 TeeParams/Called has both sides, with the raw form in a memory.
--   src/ta_session.rs             TaSession. Opening a session, commands, and the close on drop. It
--                                 sends TeeParams and turns statuses into Error values. Command has the
--                                 way of a command to an application and back.
--   ta_manager/src/lib.rs,        Manager. One thread for each session, behind a map from numbers to
--   ta_manager/src/protocol.rs    channels; requests are served one after the other, and the manager
--                                 waits for the thread's response, so a request and the thread's part
--                                 of it are one step. Manager/Threads has the steps of the manager and
--                                 of all threads, in any order, with the channels between them, and
--                                 relates them to that one step. Manager/Wire has the same loop on
--                                 the bytes of streams, with the message encoding (the crate bincode)
--                                 as a parameter. The application is a parameter (the trait).
--   src/object/                   Object. Handles of objects, transient and persistent objects, the
--                                 enumerator, attributes, information and flags. Ffi has the shape
--                                 of a call that returns a status, which Object, Crypto, BigInt and
--                                 Property share.
--   optee-utee-mock/src/          Mock. The mock that the tests of src/object run on; what the crate
--   object.rs                     mockall makes of its trait is a parameter.
--   src/net/                      Net. Sockets over an adapter (the interface SocketAdapter, which the
--                                 loops take as a parameter and Adapter fills with the system's TCP
--                                 and UDP tables), whole-buffer reads and writes, timeouts. Net/System has what
--                                 the TCP table promises, Std the errors of the standard library.
--   src/arithmetical.rs           BigInt. Big integers and the room that results have.
--   src/extension.rs              Plugin. Commands over a buffer shared with a plugin.
--   src/property.rs,              Property. Values of properties, their keys, and login types. Stored has
--   src/identity.rs               a system that answers from a table of properties.
--   src/crypto_op.rs              Crypto. The handle of an operation and its box, the operations, and
--                                 what each type of operation passes on to its handle (Typed).
--   src/uuid.rs                   Uuid. UUIDs from bytes and text, and their text; the crates uuid and
--                                 hex are parameters.
--   src/time.rs                   Time. The clocks.
--   src/trace.rs                  Trace. Messages to the trace of the system.
--   the rest of verification/     Prelude. Numbers, lists and tests that the parts share.
--
-- Conventions. A u32 or usize is a natural number with its wrap-around written out; a range is a
-- hypothesis where a theorem needs it. A method on &mut self returns the state that it leaves beside its
-- result. A panic is the outcome `panics`. Loops recur over the list of what they go through, but for the
-- two loops of Net, which run on fuel: one more than the bytes of the buffer, and every round moves a
-- byte or ends the loop, so the fuel is enough; and for the hexadecimal digits of Uuid, on the eight
-- digits that a u32 has. Identifiers that only pass through (a UUID, a handle) are
-- numbers.
--
-- Not modelled: text output (Display and Debug of values and errors, the macros), the loops of the
-- standard library over src/net/optee_std.rs, the declarations of optee-utee-sys, which have no bodies,
-- the layout and the entry point of the header of an application, and the listening socket of the
-- manager.
pub mod Prelude
pub mod Codes
pub mod Error
pub mod Param
pub mod TeeParams
pub mod TaSession
pub mod Manager
pub mod Ffi
pub mod Object
pub mod Mock
pub mod Net
pub mod BigInt
pub mod Plugin
pub mod Property
pub mod Crypto
pub mod Time
pub mod Uuid
pub mod Trace
