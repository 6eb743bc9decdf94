-- ===== src/Lib.antt =====
-- New_Mud: a Django and ASGI server for a text game. Its identity service, with tokens, sessions,
-- contacts and verification e-mails, the socket of the game, and the registry of its content.
--
-- The program. A player asks for a code by e-mail, registers with it, logs in, and holds an
-- access token (a signed JWT of a few minutes) and a refresh token. Each refresh replaces the
-- refresh token by the next of its family; a token that comes back after it was replaced ends the
-- family and the session. A worker sends the codes from an outbox, behind a circuit breaker for
-- the mail provider that two workers share. With the access token a client binds its connection
-- to a session, and its requests are answered once each: a request that comes again gets the
-- answer that was kept. The definitions of the content refer to each other by identity and version;
-- the registry resolves them to a closed set of exact versions with the hashes of their payloads.
--
-- The files, and the code that each is about (paths from the root of the repository):
--   Shared           lists, text as code points, moments, tables as lists of rows and their queries
--   Errors           the exceptions of src/new_mud/apps/identity, and results that one may end
--   Tokens           src/new_mud/apps/identity/tokens.py, every function of it
--   Sessions         src/new_mud/apps/identity/services.py: Login (login), Refresh, Rotation and Retry
--                    (refresh), Logout (logout and the revocation of the sessions of a user), Access
--                    (auth_session_is_active, resolve_active_auth_session), Converge
--                    (_converge_authentication_control); Tables is models.py
--   Provider         src/new_mud/apps/identity/authentication_baseline_operations.py
--   Contacts         src/new_mud/apps/identity/verification.py, and the digests and key rings of
--                    verification_crypto.py; Ring is how a ring is configured
--   Sealed           encrypt_value and decrypt_value of verification_crypto.py
--   Delivery         src/new_mud/apps/identity/verification_delivery.py: the parent claims rows, Finish
--                    writes what the provider answered, Deliver is a whole turn of the worker
--   Registration     src/new_mud/apps/identity/services.py: register; Code is how it judges a code
--   Reset            src/new_mud/apps/identity/services.py: reset_password_with_verification
--   Limits           src/new_mud/apps/identity/verification_limits.py
--   CodeRequests     src/new_mud/apps/identity/verification_requests.py: Tables is its state, Issue
--                    what a request issues, the parent both requests, Repeat a request that comes
--                    again, Visible what the answer depends on, Sent the way of a code to the player,
--                    through Delivery and Registration.Code
--   Game             src/new_mud/apps/identity/consumers.py and game_session_metrics.py: Metrics the
--                    counters of a process, Connection what a connection keeps and sends, Binding and
--                    Requests the parts of receive_json, Receive the handler, Serving, Effects and
--                    Handlers what each does, Process several connections in any order
--   Content          src/new_mud/apps/content/registry.py: Values the JSON payloads, Registry the
--                    records and hashes, Shape and Fits the validation, Resolve from_definitions,
--                    Catalog its queries
--   Tests            concrete runs of all of these
--
-- State. A table is the list of its rows. Sessions.Tables.Db and Delivery.Tables.Mail are the
-- tables that an operation uses, Registration.Tables.Realm is both with the contacts, and an
-- operation takes the tables and returns them with its result. A transaction that ends in an
-- exception leaves them as they were. Where the code reads before it locks, the operation takes
-- the tables it read (seen) and those it locked (db), so another request may have come in between.
-- Delivery.Steps.Run and Provider.Fencing.Steps are sequences of committed transactions of any
-- workers. A moment is a number of microseconds, read where the code reads the clock; identifiers
-- and random values come in as arguments (Supply, LoginSupply, RequestSupply, Turn).
--
-- Numbers do not wrap: counters and versions are Python integers, and the widths of their columns
-- are not modelled. The numbers in the declarations of content are integers too. Each recursion
-- follows a list, except Content.Resolve.resolve: it follows the references of the declarations as
-- the code does, and takes the number of nested calls that Python's recursion limit leaves. A limit
-- above the number of declarations is enough, since none is resolved within itself.
--
-- Parameters: the standard library and third-party packages, as records of functions
-- (Tokens.Crypto, Contacts.Unicode, Sealed.Aead, Login.Host, Delivery.Externals,
-- Registration.Passwords, CodeRequests.Tables.RequestHost, Game.Requests.Wire,
-- Content.Registry.Libraries, the sender of e-mails), with what the code relies on of them as records
-- of laws (Tokens.Laws, Contacts.Normal.UnicodeLaws, Sealed.Decrypt.AeadLaws).
--
-- Not modelled: notifications, the limits on the cache, characters, and the resolver, the artifacts
-- and the startup of the content, which are separate modules of the program; HTTP views, settings,
-- migrations and logging, which are glue; failures of the database itself; row locks and
-- isolation, for which the order of whole transactions stands. A handler of the game socket is one
-- step: other handlers do not come in between where it awaits.
pub mod Shared
pub mod Errors
pub mod Tokens
pub mod Sessions
pub mod Provider
pub mod Contacts
pub mod Sealed
pub mod Delivery
pub mod Content
pub mod Game
pub mod Registration
pub mod Reset
pub mod Limits
pub mod CodeRequests
pub mod Tests
