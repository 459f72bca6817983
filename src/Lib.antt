-- ===== src/Lib.antt =====
-- swtrust: a software TPM 2.0. This library models the parts of it that keep state and compute, and
-- proves what makes each of them correct.
--
-- The program. A command arrives as octets, which `Reader` (src/tpm/marshal.rs) takes apart; a handler
-- checks it against the state, changes the state and writes a response with `Writer`, or refuses with
-- a response code (src/tpm/error.rs) that says which handle, session or parameter was wrong. The
-- state is made of components that do not call one another: the PCR banks (src/tpm/core/pcr.rs), the
-- NV Indices (src/tpm/core/nv.rs), the commit values of split ECC operations
-- (src/tpm/core/commit.rs), the countdown timer (src/tpm/core/act.rs), the hierarchies
-- (src/tpm/core/hierarchy.rs) and the session slots (src/tpm/core/session.rs) among them. They build on the structures of Part 2
-- (src/tpm/structures) and on hashes, HMAC and key derivation (src/tpm/crypto).
--
-- The files.
--   Base and below: lists, maps, Boolean tests and bit operations over the native numbers. An octet
--     or a machine word is a number; arithmetic that wraps is written `% 2 ^ w`, and arithmetic that
--     saturates `min` with the largest word. A BTreeMap is an association list in key order.
--   Constants: response and command codes, algorithm identifiers and configured sizes, src/tpm/constants.rs and
--     src/tpm/config.rs.
--   Error: `TpmRc` and `TpmResult`, src/tpm/error.rs; the `?` operator is its bind. Error/Qualify
--     reads the qualifier of a code back as Part 2 lays it out.
--   Marshal: `Reader`, `Writer` and the traits, src/tpm/marshal.rs. A method of `&mut Reader` is a
--     function that returns the reader it leaves; what was consumed before an error stays consumed.
--     Marshal/Read/Laws and Marshal/Write/Laws say which octets a method accepts and appends, and
--     Marshal/RoundTrip joins the two.
--   Crypto: src/tpm/crypto/hash.rs (Crypto/Hash) and src/tpm/crypto/hmac.rs (Crypto/Hmac, Crypto/Kdf).
--   Structures: src/tpm/structures/base.rs, src/tpm/structures/attributes.rs,
--     src/tpm/structures/nv.rs, and the symmetric definition of src/tpm/structures/schemes.rs.
--   Commits: `Commits`, src/tpm/core/commit.rs. Commits/Slots is the slot array, Commits/Window the
--     reconstruction of a counter from 16 bits, Commits/SingleUse the histories since a reset, and
--     Commits/RoundTrip the two commands of one split operation.
--   Act: `Act`, src/tpm/core/act.rs. Act/Countdown is about time and power cycles, Act/Signals about
--     what starts and stops the signal.
--   Pcr: `PcrBanks`, src/tpm/core/pcr.rs. Pcr/Profile is the table of attributes, Pcr/Banks the state
--     with its startups, Pcr/Update the methods that change registers, Pcr/Selection those that read
--     a selection, Pcr/Saved the state file. Pcr/Valid is the invariant and Pcr/Histories every
--     history; Pcr/After describes an extend register by register, apart from the loops, and
--     Pcr/Registers, Pcr/Digest, Pcr/Extend and Pcr/Promises compare the loops with it; Pcr/Rewrite,
--     Pcr/Reset, Pcr/Preserved, Pcr/Allocation, Pcr/Requests and Pcr/Clear are about
--     startups, allocations and resets.
--   Nv: `NvIndex` and `NvStore`, src/tpm/core/nv.rs. Nv/Access is about reading and writing one Index;
--     Nv/Mark, Nv/Increment and Nv/Counter are about the values of counters.
--   Hierarchies: `Hierarchy` and `Hierarchies`, src/tpm/core/hierarchy.rs. Hierarchies/State is what
--     is read, Hierarchies/Changes what changes them; Hierarchies/Seeds is about the seeds and proofs
--     of limited hierarchies, Hierarchies/Cleared about TPM2_Clear.
--   Protect: the comparison of src/tpm/core/protect.rs that takes the same time on every octet.
--   Sessions: src/tpm/core/session.rs. Sessions/Policy is what a policy session has recorded and how it
--     is saved (Sessions/Contexts reads it back), Sessions/Session one session and the keys and digests
--     computed for it (Sessions/Keys), Sessions/Slots and Sessions/Moves the `SessionSlots`.
--     Sessions/Status forgets all but where each handle stands; Sessions/Histories is every history of
--     the slots, with power cycles and TPM Resets, Sessions/Coherent and Sessions/Preserved the
--     invariant, Sessions/Refines the abstract machine, Sessions/Replay the use of a saved context more
--     than once, Sessions/Handles, Sessions/Flush, Sessions/Cycles and Sessions/Progress what single
--     operations answer.
--   Commands: Commands/Table is the command table, src/tpm/commands/table.rs, with the attribute word
--     of each command (Commands/Shape); Commands/Request what a handler takes and returns
--     (src/tpm/commands/dispatch.rs and src/tpm/commands/execute.rs).
--   Commands/Policy: src/tpm/commands/policy.rs. Commands/Policy/Steps and Commands/Policy/Assertions are
--     what thirteen assertions do to a `&mut Session`; Commands/Policy/Frame and
--     Commands/Policy/Handlers the handlers, from the request to the response; Commands/Policy/Selected
--     their rows of the table in src/tpm/commands/mod.rs. Commands/Policy/Plans says for each assertion
--     apart from its handler what refuses it, what the digest is extended with and what is recorded;
--     Commands/Policy/Carried compares the two, Commands/Policy/Refused and Commands/Policy/Trials are
--     about refusals and trial sessions, Commands/Policy/Restricted, Commands/Policy/Guarded and
--     Commands/Policy/Restrictions about what a session stays restricted to, Commands/Policy/Answers, Commands/Policy/Failures and
--     Commands/Policy/Scope about whole commands. Commands/Policy/Authorizations is what the commands with
--     an authorization share, and the comparisons (Commands/Policy/Orders).
--   Commands/Registers: the register commands of src/tpm/commands/pcr.rs; Commands/Measured is about
--     them and the registers.
--   Lockout: `LockoutState`, src/tpm/core/state.rs, with the check and the counts of
--     src/tpm/commands/dispatch.rs and the two commands of src/tpm/commands/hierarchy.rs.
--     Lockout/Recovery is about the time that takes a failure back, Lockout/Guesses about the guesses
--     of an attacker between two startups.
--   Tests: the theorems at concrete inputs.
--
-- A method of `&mut self` returns its result and the state that it leaves, also where it fails. A
-- `for` loop is a function by clauses on the list or the number of rounds. The two loops that run
-- while an output is short (KDFa, and the hash loop of KDFe and MGF1) run on as many rounds as octets
-- are asked for: a round adds a digest, which has 20 octets at least. The loop that takes failed tries
-- back runs on the number of tries, of which each round takes one.
--
-- Parameters. The digests of aws-lc-rs are a function whose results have the length of the
-- algorithm; so is the random generator (Crypto/Rand). The profile in force is a Boolean, which takes
-- SHA-1 away. An addition that a `usize` of 64 bits holds in every call is not wrapped.
--
-- Not modelled: sockets, pipes, console and logging; public-key and symmetric ciphers, which are
-- calls of aws-lc-sys; objects, and the state file as a whole; the structures that those use; of the
-- commands, all but those named above: the policy commands that check a signature, a
-- ticket, an NV Index, the clock or a capability need the components around them, and so do the
-- parsing of a command header and its authorizations.
pub mod Act
pub mod Base
pub mod Commands
pub mod Commits
pub mod Constants
pub mod Crypto
pub mod Error
pub mod Hierarchies
pub mod Lockout
pub mod Marshal
pub mod Nv
pub mod Pcr
pub mod Protect
pub mod Sessions
pub mod Structures
pub mod Tests
