-- ===== src/Lib.antt =====
-- The distribution service: profiles of mods, configs and JVM options are published as signed,
-- immutable revisions, read by launchers through channels.
--
-- Parts, and the files that model them (paths from the repository's root):
--   Base        shared names: Boolean tests, equality, lists, byte texts, results, ℤ, maps.
--   Semver      internal/semver/semver.go: `Parse` is `parse`, `Compare` is `compare_version`,
--               `CompareStrings` is `compare_strings`. Semver/Grammar.antt says what a version is.
--   Revision    internal/revision. Types: types.go. Ids: the predicates of validate.go.
--               Setting and Validate: `validateConfigSetting` and `validateManifestValues` of validate.go
--               have their names, with a function for each loop of the latter. Transition:
--               `DecideChannelTransition` of rollback.go. Chain: `ValidateInheritanceChain` of
--               chain.go, which uses `SameGame` of types.go and `EffectiveJVMOptions`. Jvm:
--               jvm_options.go, in files for the argument allowlist,
--               templates, the validation of options, collisions and effective options. Unicode:
--               `validateJSONStringUnicode` of unicode.go, whose index is the text that is left. Rollback:
--               `ParseAndVerifyRollbackEvent` of rollback.go and `CanonicalizeJSON` of verify.go, over a
--               record `Wire` of the libraries that they call.
--   Storage     internal/storage/sqlite.go and profile_api.go: the tables are the record `Database`,
--               `publishRevision` with its hooks is `publish_with_hooks`, `PublishSignedRevision`,
--               `CompareAndSetChannel`, `DeleteProfile` and `ProfileHead` have their names. A write is
--               a function from tables to new tables or an error; an error is a rollback.
--               Storage/Steps.antt makes sequences of writes from them. TestProfiles: the tables and
--               operations of test_profiles.go.
--   Testauth    internal/testauth/testauth.go: `Middleware` is `next_stage`, which takes a request
--               from one lock to the next, with `blocked` and `fail`, and `handle`, which puts these
--               together for one request, given what each lock finds. Interleave runs requests that are
--               worked on at the same time in any order of these sections, and rotations. `Rotate` is `rotate`,
--               `New` is `new_manager` and `Status` is `status`, over the interface `TokenStore`.
--   Adminauth   internal/adminauth/adminauth.go. Password: `parsePasswordHash`, `verify` and
--               `pbkdf2SHA256`. Sessions: `New`, `Authenticate`, and the guards, which take a handler to
--               a handler. Login: the handlers of login, logout and session. Routes: the guards before
--               each route in cmd/bootoptim-distribution/main.go. A handler takes the manager, the
--               context and the request to an outcome and a new manager.
--   Profileapi  internal/profileapi/api.go and follow_parent.go, over the tables of Storage and the
--               rules of Revision: `publishCore` is `publish_core`, `promoteChannel`, `rollbackChannel`,
--               `validateParentChain`, `expectedObjects` and `followParent` have their names. An
--               operation gets the tables that it reads and those that its transaction finds, so other
--               calls can come in between. Genuine: runs of such calls.
--
-- A Go string is a list of bytes, `int` and `int64` are ℤ, compared only but for a new sequence
-- number, which wraps, a Go map is an association list. An error is Go's message without the values
-- formatted into it, or a constructor for a named error. A Go map that the code ranges over is
-- listed in some order.
--
-- Bounds and fuel: the walk over parents takes the number of bases that the code allows, at most
-- eight, as its fuel, and running out is the code's own error. The collection of parents for it has
-- fuel for ten rounds, and the queue of followers for two rounds more than there are profiles;
-- theorems say that neither runs out. The digits of n are made with n + 1 rounds, more than n has
-- digits. The scan of JSON strings has one round more than the text has bytes, which a theorem shows
-- to be enough. All other loops are structural.
--
-- Parameters: HMAC, random bytes and the clock, `url.Parse`, `strconv.Atoi`, the trusted keys, the
-- parsing and canonical form of signed JSON (internal/revision/verify.go over encoding/json and
-- crypto/ed25519), the icon's image reader, SHA-256, hexadecimal and base64 texts, the object
-- store that re-proves objects, the store of the test token, `strings.TrimSpace`,
-- `strings.ToLower`, whether `time.Parse` accepts a text, and the size that `utf8.DecodeRune`
-- returns. The theorems ask of them only that a SHA-256 hash and an HMAC have 32 bytes, that
-- hexadecimal texts decode to what they encode, and that the store of the test token returns
-- what was put in last.
--
-- Not modelled: JSON decoding and the signatures of revisions (shape.go, and verify.go but for
-- `CanonicalizeJSON`), the file system (cas.go, and the reading of the password file), the HTTP reading
-- and writing of internal/profileapi, its listings and its test API, news, launcher
-- releases, and timestamps of rows, which no modelled statement reads.
pub mod Base
pub mod Semver
pub mod Revision
pub mod Storage
pub mod Testauth
pub mod Adminauth
pub mod Profileapi
